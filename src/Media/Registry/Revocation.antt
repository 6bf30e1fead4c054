-- ===== src/Media/Registry/Revocation.antt =====
-- kinugasa-media/src/service.rs: the registry after provisioning and after revoking a camera.

use kinugasa_recording.Shared.{
  ℕ, ◌≡◌, refl, sym, ap, ◌∙◌, Bool, true, false, not, Option, none, some, Text, text_eq,
  eq_of_text_eq, if◌then◌else◌, Result, ok, err, arith,
}
use kinugasa_recording.Domain.Values.{SessionId}
use kinugasa_recording.Domain.Camera.{Url}
use kinugasa_recording.Application.Errors.{MediaError}
use kinugasa_recording.Media.Registry.{
  CameraMetadata, SessionEntry, CameraRegistry, camera_at, ProvisionCameraRequest, Transports,
  new_session, choose_port, abandon, open_transports, receive, publish, MoqError, provision_in,
  provision_match, provision_camera,
}
use kinugasa_recording.Media.Registry.Sessions.{IsChosen, choose_port-IsChosen}
use kinugasa_recording.Media.Registry.Consistency.{
  IsConsistent, IsJoined, advance-IsConsistent, register-IsConsistent, some-inj,
}

-- The entry that a camera's session starts from.
abbrev opened : Text → Option SessionEntry → SessionEntry
opened name none = new_session name
opened name (some before) = before

abandon-IsConsistent :
    (id : SessionId) (name : Text) (before : Option SessionEntry) (port : Result MediaError ℕ)
    (entry : SessionEntry) (r : CameraRegistry)
    → r.sessions id ≡ before
    → IsChosen (opened name before) port entry
    → IsConsistent r
    → IsConsistent (abandon id before entry r)
unfolding abandon
abandon-IsConsistent id name none port entry r here chosen inv = inv
abandon-IsConsistent id name (some before) port entry r here chosen inv =
    advance-IsConsistent id before entry r here chosen.name chosen.routes chosen.next inv

chosen-IsJoined :
    (request : ProvisionCameraRequest) (before : Option SessionEntry) (port : Result MediaError ℕ)
    (entry : SessionEntry) (r : CameraRegistry)
    → r.sessions request.session_id ≡ before
    → (opened request.session_name before).session_name ≡ request.session_name
    → IsChosen (opened request.session_name before) port entry
    → IsJoined request entry r
chosen-IsJoined request none port entry r here called chosen = record {
  called = chosen.name;
  kept = λ before e. cc;
  known = λ p id e. cc (sym (ap (camera_at p) chosen.routes) ∙ e);
  next = chosen.next;
}
chosen-IsJoined request (some before) port entry r here called chosen = record {
  called = chosen.name ∙ called;
  kept = λ other e.
      let same : before ≡ other = some-inj before other (sym here ∙ e) in
      (
        ap (λ (t : SessionEntry). t.by_virtual_port) (sym same) ∙ sym chosen.routes,
        ap (λ (t : SessionEntry). t.session_name) (sym same) ∙ sym chosen.name,
      );
  known = λ p id e. (before, here, ap (camera_at p) (sym chosen.routes) ∙ e);
  next = chosen.next;
}

receive-IsConsistent :
    (request : ProvisionCameraRequest) (before : Option SessionEntry) (port : ℕ)
    (entry : SessionEntry) (rist : Result (Unit {0}) (ℕ → Url)) (moq : Result MoqError (Unit {0}))
    (r : CameraRegistry)
    → r.by_id request.camera_identity_id ≡ none
    → r.sessions request.session_id ≡ before
    → (opened request.session_name before).session_name ≡ request.session_name
    → IsChosen (opened request.session_name before) (ok port) entry
    → IsConsistent r
    → IsConsistent (receive request before port entry rist moq r).1
unfolding receive publish
receive-IsConsistent request before port entry (err error) moq r fresh here called chosen inv =
    abandon-IsConsistent request.session_id request.session_name before (ok port) entry r here
      chosen inv
receive-IsConsistent request before port entry (ok endpoint) (err error) r fresh here called chosen
      inv =
    abandon-IsConsistent request.session_id request.session_name before (ok port) entry r here
      chosen inv
receive-IsConsistent request before port entry (ok endpoint) (ok done) r fresh here called chosen
      inv =
    let (in_range, free) = chosen.free port refl in
    register-IsConsistent request port (endpoint port) entry r fresh in_range
      (ap (camera_at port) chosen.routes ∙ free)
      (chosen-IsJoined request before (ok port) entry r here called chosen) inv

open_transports-IsConsistent :
    (request : ProvisionCameraRequest) (transports : Transports) (before : Option SessionEntry)
    (port : Result MediaError ℕ) (entry : SessionEntry) (r : CameraRegistry)
    → r.by_id request.camera_identity_id ≡ none
    → r.sessions request.session_id ≡ before
    → (opened request.session_name before).session_name ≡ request.session_name
    → IsChosen (opened request.session_name before) port entry
    → IsConsistent r
    → IsConsistent (open_transports request transports before port entry r).1
unfolding open_transports
open_transports-IsConsistent request transports before (err error) entry r fresh here called chosen
      inv =
    abandon-IsConsistent request.session_id request.session_name before (err error) entry r here
      chosen inv
open_transports-IsConsistent request transports before (ok port) entry r fresh here called chosen
      inv =
    receive-IsConsistent request before port entry transports.rist transports.moq r fresh here
      called chosen inv

if-IsConsistent :
    {A : Type 0} (test : Bool) (a b : A × CameraRegistry)
    → (test ≡ true → IsConsistent a.1)
    → (test ≡ false → IsConsistent b.1)
    → IsConsistent (if◌then◌else◌ {A = A × CameraRegistry} test a b).1
if-IsConsistent true a b h k = h refl
if-IsConsistent false a b h k = k refl

provision_in-IsConsistent :
    (request : ProvisionCameraRequest) (transports : Transports) (before : Option SessionEntry)
    (r : CameraRegistry)
    → r.by_id request.camera_identity_id ≡ none
    → r.sessions request.session_id ≡ before
    → IsConsistent r
    → IsConsistent (provision_in request transports before r).1
unfolding provision_in
provision_in-IsConsistent request transports none r fresh here inv =
    let start = new_session request.session_name in
    open_transports-IsConsistent request transports none (choose_port request.virtual_port start).0
      (choose_port request.virtual_port start).1 r fresh here refl
      (choose_port-IsChosen request.virtual_port start (omega arith, omega arith)) inv
provision_in-IsConsistent request transports (some session) r fresh here inv =
    if-IsConsistent (not (text_eq session.session_name request.session_name)) _ _ (λ other. inv)
      (λ same.
        open_transports-IsConsistent request transports (some session)
          (choose_port request.virtual_port session).0 (choose_port request.virtual_port session).1
          r fresh here (eq_of_text_eq session.session_name request.session_name (ground arith))
          (choose_port-IsChosen request.virtual_port session
            (inv.range request.session_id session here))
          inv)

provision_match-IsConsistent :
    (request : ProvisionCameraRequest) (transports : Transports) (known : Option CameraMetadata)
    (r : CameraRegistry)
    → r.by_id request.camera_identity_id ≡ known
    → IsConsistent r
    → IsConsistent (provision_match request transports known r).1
unfolding provision_match
provision_match-IsConsistent request transports (some camera) r e inv = inv
provision_match-IsConsistent request transports none r e inv =
    provision_in-IsConsistent request transports (r.sessions request.session_id) r e refl inv

pub provision_camera-IsConsistent :
    (request : ProvisionCameraRequest) (transports : Transports) (r : CameraRegistry)
    → IsConsistent r
    → IsConsistent (provision_camera request transports r).1
unfolding provision_camera
provision_camera-IsConsistent request transports r inv =
    provision_match-IsConsistent request transports (r.by_id request.camera_identity_id) r refl inv
