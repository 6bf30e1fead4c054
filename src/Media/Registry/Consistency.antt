-- ===== src/Media/Registry/Consistency.antt =====
-- kinugasa-media/src/service.rs: the two maps of the registry against one another.
use mathlib.Core.Path.{subst}
use kinugasa_recording.Shared.{
  ℕ, ◌≡◌, refl, sym, ap, ◌∙◌, false, Option, none, some, List, ◌∷◌, ◌==◌, is_empty, arith,
  Bool-cases, inl, inr, eq_of_==, ==-refl,
}
use kinugasa_recording.Domain.Values.{SessionId}
use kinugasa_recording.Domain.Camera.{Url}
use kinugasa_recording.Media.Sets.{put}
use kinugasa_recording.Media.Ports.Allocation.{IsInRange}
use kinugasa_recording.Media.Registry.{
  CameraMetadata, Route, SessionEntry, CameraRegistry, default_registry, camera_at,
  ProvisionCameraRequest, registered_camera, with_route, register,
}

-- A route leads to a camera of its session and port; a camera has its route, in a session of the name
-- that it was provisioned with; no session is kept without a route; and its next port is in the range.
pub record IsConsistent (r : CameraRegistry) : Type 0 where
  pub there :
      (session port id : ℕ) (entry : SessionEntry)
      → r.sessions session ≡ some entry
      → camera_at port entry.by_virtual_port ≡ some id
      → (camera : CameraMetadata) × (r.by_id id ≡ some camera)
        × (camera.session_id ≡ session)
        × (camera.virtual_port ≡ port)
  pub back :
      (id : ℕ) (camera : CameraMetadata)
      → r.by_id id ≡ some camera
      → (entry : SessionEntry) × (r.sessions camera.session_id ≡ some entry)
        × (camera_at camera.virtual_port entry.by_virtual_port ≡ some id)
        × (camera.camera_id ≡ id)
        × (entry.session_name ≡ camera.session_name)
  pub inhabited :
      (session : ℕ) (entry : SessionEntry)
      → r.sessions session ≡ some entry
      → is_empty entry.by_virtual_port ≡ false
  pub range :
      (session : ℕ) (entry : SessionEntry)
      → r.sessions session ≡ some entry
      → IsInRange entry.next_virtual_port
  pub ports :
      (id : ℕ) (camera : CameraMetadata) → r.by_id id ≡ some camera → IsInRange camera.virtual_port

pub default_registry-IsConsistent : IsConsistent default_registry
default_registry-IsConsistent = record {
  there = λ session port id entry e f. cc;
  back = λ id camera e. cc;
  inhabited = λ session entry e. cc;
  range = λ session entry e. cc;
  ports = λ id camera e. cc;
}

pub some-inj {ℓ} : {A : Type ℓ} (a b : A) → ◌≡◌ {A = Option A} (some a) (some b) → a ≡ b
some-inj a b e = cc

-- Only the next port of a session changes.
pub advance-IsConsistent :
    (id : SessionId) (before after : SessionEntry) (r : CameraRegistry)
    → r.sessions id ≡ some before
    → after.session_name ≡ before.session_name
    → after.by_virtual_port ≡ before.by_virtual_port
    → IsInRange after.next_virtual_port
    → IsConsistent r
    → IsConsistent (record r { sessions = put id after r.sessions })
advance-IsConsistent id before after r here name routes next inv = record {
  there = λ session port cam entry e f. elim (Bool-cases (session == id)) [
    | inl hit ↦
        let same : session ≡ id = eq_of_== session id hit in
        let at : entry ≡ after = some-inj entry after (ground (arith, hit, e)) in
        inv.there session port cam before (ap r.sessions same ∙ here) (
          ap (camera_at port) (sym routes ∙ ap (λ (t : SessionEntry). t.by_virtual_port) (sym at))
          ∙ f)
    | inr miss ↦ inv.there session port cam entry (ground (arith, miss, e)) f
  ];
  back = λ cam camera e.
      let (entry, at, route, named, called) = inv.back cam camera e in
      elim (Bool-cases (camera.session_id == id)) [
        | inl hit ↦
            let same : camera.session_id ≡ id = eq_of_== camera.session_id id hit in
            let is : entry ≡ before = some-inj entry before (sym at ∙ ap r.sessions same ∙ here) in
            (
              after,
              rw hit refl,
              ap (camera_at camera.virtual_port)
                    (routes ∙ ap (λ (t : SessionEntry). t.by_virtual_port) (sym is))
                  ∙ route,
              named,
              name ∙ ap (λ (t : SessionEntry). t.session_name) (sym is) ∙ called,
            )
        | inr miss ↦ (entry, rw miss at, route, named, called)
      ];
  inhabited = λ session entry e. elim (Bool-cases (session == id)) [
    | inl hit ↦
        let at : entry ≡ after = some-inj entry after (ground (arith, hit, e)) in
        ap (λ (t : SessionEntry). is_empty t.by_virtual_port) at
        ∙ ap is_empty routes
        ∙ inv.inhabited id before here
    | inr miss ↦ inv.inhabited session entry (ground (arith, miss, e))
  ];
  range = λ session entry e. elim (Bool-cases (session == id)) [
    | inl hit ↦
        let at : entry ≡ after = some-inj entry after (ground (arith, hit, e)) in
        subst (λ (t : SessionEntry). IsInRange t.next_virtual_port) (sym at) next
    | inr miss ↦ inv.range session entry (ground (arith, miss, e))
  ];
  ports = inv.ports;
}

other_id :
    (r : CameraRegistry) (id fresh : ℕ)
    → r.by_id fresh ≡ none
    → (camera : CameraMetadata) → r.by_id id ≡ some camera
    → (id == fresh) ≡ false
other_id r id fresh none_there camera found = elim (Bool-cases (id == fresh)) [
  | inr miss ↦ miss
  | inl hit ↦ cc (sym found ∙ ap r.by_id (eq_of_== id fresh hit) ∙ none_there)
]

-- A session that a camera joins: it is new and empty, or it is the one that is there.
pub record IsJoined (request : ProvisionCameraRequest) (entry : SessionEntry) (r : CameraRegistry)
    : Type 0 where
  pub called : entry.session_name ≡ request.session_name
  pub kept :
      (before : SessionEntry)
      → r.sessions request.session_id ≡ some before
      → (before.by_virtual_port ≡ entry.by_virtual_port)
        × (before.session_name ≡ entry.session_name)
  pub known :
      (port id : ℕ)
      → camera_at port entry.by_virtual_port ≡ some id
      → (before : SessionEntry) × (r.sessions request.session_id ≡ some before)
        × (camera_at port before.by_virtual_port ≡ some id)
  pub next : IsInRange entry.next_virtual_port

-- A route beside one on another port.
beside :
    (port id q cam : ℕ) (routes : List Route)
    → camera_at port routes ≡ none
    → camera_at q routes ≡ some cam
    → camera_at q (record { port = port; camera_id = id } ∷ routes) ≡ some cam
beside port id q cam routes free listed = elim (Bool-cases (port == q)) [
  | inl hit ↦
      absurd (cc (sym free ∙ ap (λ (t : ℕ). camera_at t routes) (eq_of_== port q hit) ∙ listed))
  | inr miss ↦ rw miss listed
]

pub register-IsConsistent :
    (request : ProvisionCameraRequest) (port : ℕ) (endpoint : Url) (entry : SessionEntry)
    (r : CameraRegistry)
    → r.by_id request.camera_identity_id ≡ none
    → IsInRange port
    → camera_at port entry.by_virtual_port ≡ none
    → IsJoined request entry r
    → IsConsistent r
    → IsConsistent (register request port endpoint entry r)
unfolding register
register-IsConsistent request port endpoint entry r fresh in_range free joined inv =
    let id = request.camera_identity_id in
    let joined_entry = with_route port id entry in
    let added = registered_camera request port endpoint in
    record {
      there = λ session p cam e' at f. elim (Bool-cases (session == request.session_id)) [
        | inr miss ↦
            let (camera, found, named, placed) =
              inv.there session p cam e' (ground (arith, miss, at)) f in
            (camera, rw (other_id r cam id fresh camera found) found, named, placed)
        | inl hit ↦
            let same : session ≡ request.session_id = eq_of_== session request.session_id hit in
            let is : joined_entry ≡ e' = some-inj joined_entry e' (ground (arith, hit, at)) in
            let g : camera_at p joined_entry.by_virtual_port ≡ some cam =
              ap (λ (t : SessionEntry). camera_at p t.by_virtual_port) is ∙ f in
            elim (Bool-cases (port == p)) [
              | inl new ↦
                  let me : id ≡ cam = some-inj id cam (ground (arith, new, g)) in
                  (added, ground (arith, me, ==-refl id), sym same, eq_of_== port p new)
              | inr old ↦
                  let (before, e, h) = joined.known p cam (ground (arith, old, g)) in
                  let (camera, found, named, placed) =
                    inv.there request.session_id p cam before e h in
                  (
                    camera,
                    rw (other_id r cam id fresh camera found) found,
                    named ∙ sym same,
                    placed,
                  )
            ]
      ];
      back = λ cam camera e. elim (Bool-cases (cam == id)) [
        | inl hit ↦
            let me : cam ≡ id = eq_of_== cam id hit in
            let is : added ≡ camera = some-inj added camera (ground (arith, hit, e)) in
            subst
              (λ (t : CameraMetadata).
                (x : SessionEntry) × (put request.session_id joined_entry r.sessions t.session_id
                  ≡ some x)
                × (camera_at t.virtual_port x.by_virtual_port ≡ some cam)
                × (t.camera_id ≡ cam)
                × (x.session_name ≡ t.session_name))
              is
              (
                joined_entry,
                ground (arith, ==-refl request.session_id),
                ground (arith, ==-refl port, me),
                sym me,
                joined.called,
              )
        | inr miss ↦
            let (before, at, route, named, called) =
              inv.back cam camera (ground (arith, miss, e)) in
            elim (Bool-cases (camera.session_id == request.session_id)) [
              | inr other ↦ (before, rw other at, route, named, called)
              | inl here ↦
                  let same : camera.session_id ≡ request.session_id =
                    eq_of_== camera.session_id request.session_id here in
                  let (routes, name) = joined.kept before (sym (ap r.sessions same) ∙ at) in
                  let listed : camera_at camera.virtual_port entry.by_virtual_port ≡ some cam =
                    ap (camera_at camera.virtual_port) (sym routes) ∙ route in
                  (
                    joined_entry,
                    rw here refl,
                    beside port id camera.virtual_port cam entry.by_virtual_port free listed,
                    named,
                    sym name ∙ called,
                  )
            ]
      ];
      inhabited = λ session e' at. elim (Bool-cases (session == request.session_id)) [
        | inl hit ↦
            let is : joined_entry ≡ e' = some-inj joined_entry e' (ground (arith, hit, at)) in
            ap (λ (t : SessionEntry). is_empty t.by_virtual_port) (sym is)
        | inr miss ↦ inv.inhabited session e' (ground (arith, miss, at))
      ];
      range = λ session e' at. elim (Bool-cases (session == request.session_id)) [
        | inl hit ↦
            let is : joined_entry ≡ e' = some-inj joined_entry e' (ground (arith, hit, at)) in
            subst (λ (t : SessionEntry). IsInRange t.next_virtual_port) is joined.next
        | inr miss ↦ inv.range session e' (ground (arith, miss, at))
      ];
      ports = λ cam camera e. elim (Bool-cases (cam == id)) [
        | inl hit ↦
            let is : added ≡ camera = some-inj added camera (ground (arith, hit, e)) in
            subst (λ (t : CameraMetadata). IsInRange t.virtual_port) is in_range
        | inr miss ↦ inv.ports cam camera (ground (arith, miss, e))
      ];
    }
