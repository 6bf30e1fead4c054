-- ===== src/Media/Registry/Histories.antt =====
-- kinugasa-media/src/service.rs: the registry after any calls.
use kinugasa_recording.Shared.{
  ℕ, ◌≡◌, ◌≢◌, refl, sym, ap, ◌∙◌, some, Result, ok, ok_or, >>=-eq-ok, ok_or-eq-ok, ◌↔◌,
}
use kinugasa_recording.Domain.Values.{CameraIdentityId}
use kinugasa_recording.Media.Registry.{
  CameraMetadata, CameraRegistry, default_registry, camera_at, ProvisionCameraRequest, Transports,
  provision_camera, Outcome, revoke_camera, IngressError, camera_for_session_route,
}
use kinugasa_recording.Media.Registry.Consistency.{
  IsConsistent, default_registry-IsConsistent, some-inj,
}
use kinugasa_recording.Media.Registry.Revocation.{provision_camera-IsConsistent}
use kinugasa_recording.Media.Registry.Closing.{revoke_camera-IsConsistent, revoke_camera-by_id}

-- The registries that calls of provisioning and revoking lead to, whatever the transports return.
pub data Registered : CameraRegistry → Type 0 where
  empty : Registered default_registry
  provisioned :
      (request : ProvisionCameraRequest) (transports : Transports) {registry : CameraRegistry}
      → Registered registry
      → Registered (provision_camera request transports registry).1
  revoked :
      (id : CameraIdentityId) (rist : Result (Unit {0}) (Unit {0})) {registry : CameraRegistry}
      → Registered registry
      → Registered (revoke_camera id rist registry).1

-- After any calls, whatever the transports returned, the two maps of the registry agree: a route of a
-- session leads to a camera of that session and port, a camera is found by its route, a session has
-- the name that its cameras were provisioned with and is kept only while it has a route, and the ports
-- are in the range.
pub Registered-IsConsistent : (r : CameraRegistry) → Registered r → IsConsistent r
Registered-IsConsistent _ Registered.empty = default_registry-IsConsistent
Registered-IsConsistent _ (Registered.provisioned request transports {registry} before) =
    provision_camera-IsConsistent request transports registry
      (Registered-IsConsistent registry before)
Registered-IsConsistent _ (Registered.revoked id rist {registry} before) =
    (revoke_camera-IsConsistent registry id rist (Registered-IsConsistent registry before)).0

-- After any calls, a packet for a session and a virtual port is given to a camera exactly when that
-- camera is registered, in that session and at that port; so no other camera gets it.
pub camera_for_session_route-camera :
    (r : CameraRegistry) (session port : ℕ) (camera : CameraMetadata)
    → Registered r
    → (camera_for_session_route session port r ≡ ok camera) ↔ (
        (r.by_id camera.camera_id ≡ some camera)
        × (camera.session_id ≡ session)
        × (camera.virtual_port ≡ port))
unfolding camera_for_session_route
camera_for_session_route-camera r session port camera h =
    let inv = Registered-IsConsistent r h in
    (
      λ e.
          let (entry, a, e1) =
            >>=-eq-ok (ok_or (r.sessions session) IngressError.camera_not_found) _ e in
          let (id, b, e2) =
            >>=-eq-ok (ok_or (camera_at port entry.by_virtual_port) IngressError.camera_not_found) _
              e1 in
          let at = ok_or-eq-ok (r.sessions session) IngressError.camera_not_found a in
          let route =
            ok_or-eq-ok (camera_at port entry.by_virtual_port) IngressError.camera_not_found b in
          let found = ok_or-eq-ok (r.by_id id) IngressError.camera_not_found e2 in
          let (other, found', named, placed) = inv.there session port id entry at route in
          let same : other ≡ camera = some-inj other camera (sym found' ∙ found) in
          let (_, _, _, own, _) = inv.back id camera found in
          (
            ap r.by_id own ∙ found,
            ap (λ (t : CameraMetadata). t.session_id) (sym same) ∙ named,
            ap (λ (t : CameraMetadata). t.virtual_port) (sym same) ∙ placed,
          ),
      λ (found, named, placed).
          let (entry, at, route, _, _) = inv.back camera.camera_id camera found in
          rw (sym (ap r.sessions named) ∙ at) (
            rw (ap (λ (t : ℕ). camera_at t entry.by_virtual_port) (sym placed) ∙ route)
              (rw found refl)),
    )

-- After any calls, revoking a camera does not fail at its `expect`, whatever the transport returns.
pub revoke_camera-returns :
    (r : CameraRegistry) (id : CameraIdentityId) (rist : Result (Unit {0}) (Unit {0}))
    → Registered r
    → (revoke_camera id rist r).0 ≢ Outcome.panicked
revoke_camera-returns r id rist h =
    (revoke_camera-IsConsistent r id rist (Registered-IsConsistent r h)).1

-- After any calls, once revoking a camera has succeeded, a camera that is found for some session and
-- virtual port is another one.
pub revoke_camera-camera_for_session_route :
    (r : CameraRegistry) (id : CameraIdentityId) (rist : Result (Unit {0}) (Unit {0}))
    (session port : ℕ) (camera : CameraMetadata)
    → Registered r
    → (revoke_camera id rist r).0 ≡ Outcome.returned (ok tt)
    → camera_for_session_route session port (revoke_camera id rist r).1 ≡ ok camera
    → camera.camera_id ≢ id
revoke_camera-camera_for_session_route r id rist session port camera h done e same =
    let after = (revoke_camera id rist r).1 in
    let (found, _, _) =
      (camera_for_session_route-camera after session port camera (Registered.revoked id rist h)).0
        e in
    cc (sym (revoke_camera-by_id r id rist done) ∙ ap after.by_id (sym same) ∙ found)
