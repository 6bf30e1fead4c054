-- ===== src/Media/Registry/Closing.antt =====
-- kinugasa-media/src/service.rs: the registry after a camera has been taken out of it.
use kinugasa_recording.Shared.{
  ℕ, ◌≡◌, ◌≢◌, refl, sym, ap, ◌∙◌, Bool, true, false, Option, none, some, List, [], ◌∷◌, ◌==◌,
  if◌then◌else◌, is_empty, Result, ok, err, arith, Bool-cases, inl, inr, eq_of_==, ==-refl, ◌⊎◌,
}
use mathlib.Core.Path.{subst}
use kinugasa_recording.Domain.Values.{CameraIdentityId}
use kinugasa_recording.Media.Sets.{Map, put, drop}
use kinugasa_recording.Media.Ports.Allocation.{IsInRange}
use kinugasa_recording.Media.Registry.{
  CameraMetadata, Route, SessionEntry, CameraRegistry, camera_at, Outcome, without_port,
  close_route, revoke_known, revoke_match, revoke_camera,
}
use kinugasa_recording.Media.Registry.Sessions.{camera_at-without_port}
use kinugasa_recording.Media.Registry.Consistency.{IsConsistent, some-inj}

not_empty :
    (q cam : ℕ) (routes : List Route) → camera_at q routes ≡ some cam → is_empty routes ≡ false
not_empty q cam [] f = cc
not_empty q cam (route ∷ rest) f = refl

-- The registry without a camera, whose session has the entry `left` afterwards, or none if no route is
-- left in it.
module _ (r : CameraRegistry) (inv : IsConsistent r) (id : CameraIdentityId)
    (camera : CameraMetadata) (found : r.by_id id ≡ some camera) (session left : SessionEntry)
    (here : r.sessions camera.session_id ≡ some session)
    (routes : left.by_virtual_port ≡ without_port camera.virtual_port session.by_virtual_port)
    (name : left.session_name ≡ session.session_name)
    (next : left.next_virtual_port ≡ session.next_virtual_port) where
  remaining : Option SessionEntry
  remaining = if is_empty left.by_virtual_port then none else some left

  remaining-some :
      (entry : SessionEntry)
      → remaining ≡ some entry
      → (left ≡ entry) × (is_empty left.by_virtual_port ≡ false)
  unfolding remaining
  remaining-some entry e = elim (Bool-cases (is_empty left.by_virtual_port)) [
    | inl empty ↦ ground (arith, empty)
    | inr some_left ↦ (some-inj left entry (ground (arith, some_left)), some_left)
  ]

  -- The routes that are left are those on other ports.
  left-route :
      (q cam : ℕ)
      → camera_at q left.by_virtual_port ≡ some cam
      → ((q == camera.virtual_port) ≡ false) × (camera_at q session.by_virtual_port ≡ some cam)
  left-route q cam f =
      let law =
        ap (camera_at q) routes
        ∙ camera_at-without_port camera.virtual_port q session.by_virtual_port in
      elim (Bool-cases (q == camera.virtual_port)) [
        | inl gone ↦ ground (arith, gone, law)
        | inr stays ↦ (stays, ground (arith, stays, law))
      ]

  route-left :
      (q cam : ℕ)
      → (q == camera.virtual_port) ≡ false
      → camera_at q session.by_virtual_port ≡ some cam
      → camera_at q left.by_virtual_port ≡ some cam
  route-left q cam other f =
      let law =
        ap (camera_at q) routes
        ∙ camera_at-without_port camera.virtual_port q session.by_virtual_port in
      ground (arith, other, law)

  -- Another camera has another port or another session.
  another :
      (cam : ℕ) (camera' : CameraMetadata)
      → r.by_id cam ≡ some camera'
      → (camera'.session_id ≢ camera.session_id)
        ⊎ ((camera'.virtual_port == camera.virtual_port) ≡ false)
      → (cam == id) ≡ false
  another cam camera' at differs = elim (Bool-cases (cam == id)) [
    | inr miss ↦ miss
    | inl hit ↦
        let same : camera' ≡ camera =
          some-inj camera' camera (sym at ∙ ap r.by_id (eq_of_== cam id hit) ∙ found) in
        elim differs [
          | inl session_differs ↦
              absurd (session_differs (ap (λ (t : CameraMetadata). t.session_id) same))
          | inr port_differs ↦ cc (
              sym port_differs
              ∙ ap (λ (t : CameraMetadata). t.virtual_port == camera.virtual_port) same
              ∙ ==-refl camera.virtual_port)
        ]
  ]

  -- Its route leads to the camera alone.
  own_port :
      (cam : ℕ) (other : CameraMetadata)
      → camera_at other.virtual_port session.by_virtual_port ≡ some cam
      → (cam == id) ≡ false
      → (other.virtual_port == camera.virtual_port) ≡ false
  own_port cam other listed miss = elim (Bool-cases (other.virtual_port == camera.virtual_port)) [
    | inr differ ↦ differ
    | inl shared ↦
        let (entry, at, route, _, _) = inv.back id camera found in
        let is : entry ≡ session = some-inj entry session (sym at ∙ here) in
        let mine : camera_at camera.virtual_port session.by_virtual_port ≡ some id =
          ap (λ (t : SessionEntry). camera_at camera.virtual_port t.by_virtual_port) (sym is)
          ∙ route in
        let same : cam ≡ id = some-inj cam id (
          sym listed
          ∙ ap (λ (t : ℕ). camera_at t session.by_virtual_port)
              (eq_of_== other.virtual_port camera.virtual_port shared)
          ∙ mine) in
        cc (sym miss ∙ ap (λ (t : ℕ). t == id) same ∙ ==-refl id)
  ]

  remaining-left : (q cam : ℕ) → camera_at q left.by_virtual_port ≡ some cam → remaining ≡ some left
  unfolding remaining
  remaining-left q cam f = rw (not_empty q cam left.by_virtual_port f) refl

  closed-IsConsistent :
      (sessions : Map SessionEntry)
      → ((s : ℕ) → sessions s ≡ (if s == camera.session_id then remaining else r.sessions s))
      → IsConsistent (record { by_id = drop id r.by_id; sessions = sessions })
  closed-IsConsistent sessions law = record {
    there = λ s q cam e' at f. elim (Bool-cases (s == camera.session_id)) [
      | inl hit ↦
          let same : s ≡ camera.session_id = eq_of_== s camera.session_id hit in
          let (is, _) = remaining-some e' (ground (arith, hit, law s, at)) in
          let (stays, listed) =
            left-route q cam (ap (λ (t : SessionEntry). camera_at q t.by_virtual_port) is ∙ f) in
          let (other, at', named, placed) = inv.there camera.session_id q cam session here listed in
          (
            other,
            rw
                (another cam other at'
                  (inr (ap (λ (t : ℕ). t == camera.virtual_port) placed ∙ stays)))
                at',
            named ∙ sym same,
            placed,
          )
      | inr miss ↦
          let (other, at', named, placed) =
            inv.there s q cam e' (ground (arith, miss, law s, at)) f in
          (
            other,
            rw
                (another cam other at' (
                  inl (λ same. cc (
                    sym miss
                    ∙ ap (λ (t : ℕ). t == camera.session_id) (sym named ∙ same)
                    ∙ ==-refl camera.session_id))))
                at',
            named,
            placed,
          )
    ];
    back = λ cam other e. elim (Bool-cases (cam == id)) [
      | inl hit ↦ ground (arith, hit, e)
      | inr miss ↦
          let at : r.by_id cam ≡ some other = ground (arith, miss, e) in
          let (entry, at', route, named, called) = inv.back cam other at in
          elim (Bool-cases (other.session_id == camera.session_id)) [
            | inr elsewhere ↦ (entry, law other.session_id ∙ rw elsewhere at', route, named, called)
            | inl joined ↦
                let same : other.session_id ≡ camera.session_id =
                  eq_of_== other.session_id camera.session_id joined in
                let is : entry ≡ session =
                  some-inj entry session (sym at' ∙ ap r.sessions same ∙ here) in
                let listed : camera_at other.virtual_port session.by_virtual_port ≡ some cam =
                  ap (λ (t : SessionEntry). camera_at other.virtual_port t.by_virtual_port) (sym is)
                  ∙ route in
                let stays =
                  route-left other.virtual_port cam (own_port cam other listed miss) listed in
                (
                  left,
                  law other.session_id ∙ rw joined (remaining-left other.virtual_port cam stays),
                  stays,
                  named,
                  name ∙ ap (λ (t : SessionEntry). t.session_name) (sym is) ∙ called,
                )
          ]
    ];
    inhabited = λ s e' at. elim (Bool-cases (s == camera.session_id)) [
      | inl hit ↦
          let (is, some_left) = remaining-some e' (ground (arith, hit, law s, at)) in
          ap (λ (t : SessionEntry). is_empty t.by_virtual_port) (sym is) ∙ some_left
      | inr miss ↦ inv.inhabited s e' (ground (arith, miss, law s, at))
    ];
    range = λ s e' at. elim (Bool-cases (s == camera.session_id)) [
      | inl hit ↦
          let (is, _) = remaining-some e' (ground (arith, hit, law s, at)) in
          subst IsInRange (sym next ∙ ap (λ (t : SessionEntry). t.next_virtual_port) is)
            (inv.range camera.session_id session here)
      | inr miss ↦ inv.range s e' (ground (arith, miss, law s, at))
    ];
    ports = λ cam other e. elim (Bool-cases (cam == id)) [
      | inl hit ↦ ground (arith, hit, e)
      | inr miss ↦ inv.ports cam other (ground (arith, miss, e))
    ];
  }

left_after : CameraMetadata → SessionEntry → SessionEntry
left_after camera session = record session {
  by_virtual_port = without_port camera.virtual_port session.by_virtual_port;
}

pick :
    (empty : Bool) (id s : ℕ) (left : SessionEntry) (sessions : Map SessionEntry)
    → (if empty then drop id sessions else put id left sessions) s
      ≡ (if s == id then (if empty then none else some left) else sessions s)
pick true id s left sessions = ground arith
pick false id s left sessions = ground arith

close_route-IsConsistent :
    (r : CameraRegistry) (id : CameraIdentityId) (camera : CameraMetadata)
    (session : Option SessionEntry)
    → IsConsistent r
    → r.by_id id ≡ some camera
    → r.sessions camera.session_id ≡ session
    → IsConsistent (close_route camera session (record r { by_id = drop id r.by_id })).1
      × ((close_route camera session (record r { by_id = drop id r.by_id })).0 ≢ Outcome.panicked)
unfolding close_route left_after
close_route-IsConsistent r id camera none inv found here =
    let (entry, at, _, _, _) = inv.back id camera found in absurd (cc (sym at ∙ here))
close_route-IsConsistent r id camera (some session) inv found here = (
  closed-IsConsistent r inv id camera found session (left_after camera session) here refl refl refl
      (if is_empty (without_port camera.virtual_port session.by_virtual_port)
        then drop camera.session_id r.sessions
        else put camera.session_id (left_after camera session) r.sessions)
      (λ s.
        unfold remaining in
        pick (is_empty (without_port camera.virtual_port session.by_virtual_port)) camera.session_id
          s (left_after camera session) r.sessions),
  λ e. cc,
)

-- Revoking a camera, from a consistent registry: the call returns.
revoke_match-IsConsistent :
    (r : CameraRegistry) (id : CameraIdentityId) (rist : Result (Unit {0}) (Unit {0}))
    (known : Option CameraMetadata)
    → IsConsistent r
    → r.by_id id ≡ known
    → IsConsistent (revoke_match id rist known r).1
      × ((revoke_match id rist known r).0 ≢ Outcome.panicked)
unfolding revoke_match revoke_known
revoke_match-IsConsistent r id rist none inv found = (inv, λ e. cc)
revoke_match-IsConsistent r id (err error) (some camera) inv found = (inv, λ e. cc)
revoke_match-IsConsistent r id (ok revoked) (some camera) inv found =
    close_route-IsConsistent r id camera (r.sessions camera.session_id) inv found refl

pub revoke_camera-IsConsistent :
    (r : CameraRegistry) (id : CameraIdentityId) (rist : Result (Unit {0}) (Unit {0}))
    → IsConsistent r
    → IsConsistent (revoke_camera id rist r).1 × ((revoke_camera id rist r).0 ≢ Outcome.panicked)
unfolding revoke_camera
revoke_camera-IsConsistent r id rist inv = revoke_match-IsConsistent r id rist (r.by_id id) inv refl

close_route-by_id :
    (camera : CameraMetadata) (session : Option SessionEntry) (r : CameraRegistry)
    → (close_route camera session r).1.by_id ≡ r.by_id
unfolding close_route
close_route-by_id camera none r = refl
close_route-by_id camera (some session) r = refl

revoke_match-by_id :
    (r : CameraRegistry) (id : CameraIdentityId) (rist : Result (Unit {0}) (Unit {0}))
    (known : Option CameraMetadata)
    → r.by_id id ≡ known
    → (revoke_match id rist known r).0 ≡ Outcome.returned (ok tt)
    → (revoke_match id rist known r).1.by_id id ≡ none
unfolding revoke_match revoke_known
revoke_match-by_id r id rist none found e = found
revoke_match-by_id r id (err error) (some camera) found e = cc
revoke_match-by_id r id (ok revoked) (some camera) found e =
    ap (λ (m : Map CameraMetadata). m id)
      (close_route-by_id camera (r.sessions camera.session_id)
        (record r { by_id = drop id r.by_id }))
    ∙ ground (arith, ==-refl id)

pub revoke_camera-by_id :
    (r : CameraRegistry) (id : CameraIdentityId) (rist : Result (Unit {0}) (Unit {0}))
    → (revoke_camera id rist r).0 ≡ Outcome.returned (ok tt)
    → (revoke_camera id rist r).1.by_id id ≡ none
unfolding revoke_camera
revoke_camera-by_id r id rist e = revoke_match-by_id r id rist (r.by_id id) refl e
