-- ===== src/Media/PortPool/Partition.antt =====
-- kinugasa-media/src/rist.rs: where the UDP ports are.
use kinugasa_recording.Shared.{
  ℕ, ◌+◌, ◌≤◌, ◌<◌, ◌≡◌, refl, sym, ap, ◌∙◌, Bool, true, false, ◌||◌, Option, none, some, List, [],
  ◌∷◌, map, ◌==◌, if◌then◌else◌, Result, ok, err, arith, Bool-cases, inl, inr, eq_of_==, ==-refl,
  >>=-eq-ok,
}
use mathlib.Core.Path.{subst}
use kinugasa_recording.Domain.Values.{SessionId, CameraIdentityId}
use kinugasa_recording.Domain.Camera.{Url}
use kinugasa_recording.Media.Sets.{member}
use kinugasa_recording.Media.PortPool.{
  RistConfig, RistError, insert_port, set_insert, collect, set_remove, CameraReceiver, Lease,
  RistState, fresh_state, start, validate, get_camera, remove_camera, first_port, provision_again,
  lease_port, provision_new, provision_match, provision_port, withdraw, give_back,
}

-- How often a port stands in a list.
abbrev pub times : ℕ → List ℕ → ℕ
times port [] = 0
times port (x ∷ xs) = (if x == port then 1 else 0) + times port xs

abbrev pub leased : List Lease → List ℕ
leased cameras = map (λ lease. lease.receiver.port) cameras

abbrev pub once : Bool → ℕ
once b = if b then 1 else 0

times-member : (port : ℕ) (xs : List ℕ) → times port xs ≡ 0 → member port xs ≡ false
times-member port [] h = refl
times-member port (x ∷ xs) h = ground (arith, times-member port xs)

member-times : (port : ℕ) (xs : List ℕ) → member port xs ≡ false → times port xs ≡ 0
member-times port [] h = refl
member-times port (x ∷ xs) h = ground (arith, member-times port xs)

times-insert_port :
    (port x : ℕ) (xs : List ℕ) → times port (insert_port x xs) ≡ once (x == port) + times port xs
unfolding insert_port
times-insert_port port x [] = omega arith
times-insert_port port x (y ∷ ys) = ground (arith, times-insert_port port x ys)

-- A port that is new to the set is in it once more.
times-set_insert :
    (port x : ℕ) (xs : List ℕ)
    → times x xs ≡ 0
    → times port (set_insert x xs) ≡ once (x == port) + times port xs
unfolding set_insert
times-set_insert port x xs h = rw (times-member x xs h) (times-insert_port port x xs)

times-set_remove :
    (port x : ℕ) (xs : List ℕ)
    → member x xs ≡ true
    → once (x == port) + times port (set_remove x xs) ≡ times port xs
unfolding set_remove
times-set_remove port x [] h = cc
times-set_remove port x (y ∷ ys) h = ground (arith, times-set_remove port x ys)

times-pos : (x : ℕ) (xs : List ℕ) → member x xs ≡ true → 0 < times x xs
times-pos x [] h = ground arith
times-pos x (y ∷ ys) h = ground (arith, times-pos x ys)

member-one : (port : ℕ) (xs : List ℕ) → times port xs ≡ 1 → member port xs ≡ true
member-one port [] h = ground arith
member-one port (x ∷ xs) h = ground (arith, member-one port xs)

set_insert-same :
    (port x : ℕ) (xs : List ℕ) → member x xs ≡ true → times port (set_insert x xs) ≡ times port xs
unfolding set_insert
set_insert-same port x xs h = rw h refl

member-known :
    (port x : ℕ) (xs : List ℕ) → member x xs ≡ true → (x == port || member port xs) ≡ member port xs
member-known port x xs h = elim (Bool-cases (x == port)) [
  | inl hit ↦
      let here : member port xs ≡ true =
        ap (λ (t : ℕ). member t xs) (sym (eq_of_== x port hit)) ∙ h in
      rw (hit, here) refl
  | inr miss ↦ rw miss refl
]

times-collect : (port : ℕ) (xs : List ℕ) → times port (collect xs) ≡ once (member port xs)
unfolding collect
times-collect port [] = refl
times-collect port (x ∷ xs) = elim (Bool-cases (member x xs)) [
  | inl there ↦
      let in_set = member-one x (collect xs) (times-collect x xs ∙ ap once there) in
      set_insert-same port x (collect xs) in_set
      ∙ times-collect port xs
      ∙ ap once (sym (member-known port x xs there))
  | inr new ↦
      let absent : times x (collect xs) ≡ 0 = times-collect x xs ∙ ap once new in
      elim (Bool-cases (x == port)) [
        | inl hit ↦
            let e : x ≡ port = eq_of_== x port hit in
            let gone : times port (collect xs) ≡ 0 =
              ap (λ (t : ℕ). times t (collect xs)) (sym e) ∙ absent in
            times-set_insert port x (collect xs) absent ∙ rw (hit, gone) refl
        | inr miss ↦
            times-set_insert port x (collect xs) absent
            ∙ rw (miss, times-collect port xs) (omega arith)
      ]
]

-- The server from its start on: `Serving config closing state` holds of each state that any calls lead
-- to, while the receivers on the ports `closing` are being closed.
pub data Serving (config : RistConfig) : List ℕ → RistState → Type 0 where
  started : Serving config [] (fresh_state config)
  provisioned :
      (session_id : SessionId) (camera_id : CameraIdentityId) (endpoint : ℕ → Result RistError Url)
      (receiver : Result RistError (Unit {0})) {closing : List ℕ} {state : RistState}
      → Serving config closing state
      → Serving config closing (provision_port session_id camera_id endpoint receiver state).1
  withdrawn :
      (camera_id : CameraIdentityId) (camera : CameraReceiver) {closing : List ℕ}
      {state : RistState}
      → (withdraw camera_id state).0 ≡ some camera
      → Serving config closing state
      → Serving config (camera.port ∷ closing) (withdraw camera_id state).1
  returned :
      (port : ℕ) {closing : List ℕ} {state : RistState}
      → member port closing ≡ true
      → Serving config closing state
      → Serving config (set_remove port closing) (give_back port state)

abbrev pub IsPartition : List ℕ → List ℕ → RistState → Type 0
IsPartition pool closing state =
    (port : ℕ)
    → times port state.available_ports + times port (leased state.cameras) + times port closing
      ≡ once (member port pool)

once_le : (b : Bool) → once b ≤ 1
once_le true = omega arith
once_le false = omega arith

lease_port-IsPartition :
    (pool closing : List ℕ) (session_id : SessionId) (camera_id : CameraIdentityId) (first : ℕ)
    (endpoint : Result RistError Url) (receiver : Result RistError (Unit {0})) (state : RistState)
    → member first state.available_ports ≡ true
    → IsPartition pool closing state
    → IsPartition pool closing (lease_port session_id camera_id first endpoint receiver state).1
unfolding lease_port
lease_port-IsPartition pool closing session_id camera_id first (err e) receiver state m h = h
lease_port-IsPartition pool closing session_id camera_id first (ok url) (err e) state m h = h
lease_port-IsPartition pool closing session_id camera_id first (ok url) (ok done) state m h =
    λ port. omega (arith, h port, times-set_remove port first state.available_ports m)

first_port-member : (xs : List ℕ) {port : ℕ} → first_port xs ≡ some port → member port xs ≡ true
unfolding first_port
first_port-member [] h = cc
first_port-member (x ∷ xs) {port} h = ground (arith, ==-refl port)

provision_new-IsPartition :
    (pool closing : List ℕ) (session_id : SessionId) (camera_id : CameraIdentityId)
    (endpoint : ℕ → Result RistError Url) (receiver : Result RistError (Unit {0}))
    (first : Option ℕ) (state : RistState)
    → first_port state.available_ports ≡ first
    → IsPartition pool closing state
    → IsPartition pool closing (provision_new session_id camera_id endpoint receiver first state).1
unfolding provision_new
provision_new-IsPartition pool closing session_id camera_id endpoint receiver none state e h = h
provision_new-IsPartition pool closing session_id camera_id endpoint receiver (some port) state e
      h =
    lease_port-IsPartition pool closing session_id camera_id port (endpoint port) receiver state
      (first_port-member state.available_ports {port = port} e) h

provision_again-same :
    (session_id : SessionId) (camera : CameraReceiver) (state : RistState)
    → (provision_again session_id camera state).1 ≡ state
unfolding provision_again
provision_again-same session_id camera state = ground arith

provision-IsPartition :
    (pool closing : List ℕ) (session_id : SessionId) (camera_id : CameraIdentityId)
    (endpoint : ℕ → Result RistError Url) (receiver : Result RistError (Unit {0}))
    (known : Option CameraReceiver) (state : RistState)
    → IsPartition pool closing state
    → IsPartition pool closing
        (provision_match session_id camera_id endpoint receiver known state).1
unfolding provision_match
provision-IsPartition pool closing session_id camera_id endpoint receiver (some camera) state h =
    subst (IsPartition pool closing) (sym (provision_again-same session_id camera state)) h
provision-IsPartition pool closing session_id camera_id endpoint receiver none state h =
    provision_new-IsPartition pool closing session_id camera_id endpoint receiver
      (first_port state.available_ports) state refl h

leased-remove_camera :
    (port : ℕ) (id : CameraIdentityId) (cameras : List Lease) {camera : CameraReceiver}
    → get_camera id cameras ≡ some camera
    → once (camera.port == port) + times port (leased (remove_camera id cameras))
      ≡ times port (leased cameras)
unfolding get_camera remove_camera
leased-remove_camera port id [] h = cc
leased-remove_camera port id (lease ∷ rest) {camera} h =
    ground (arith, leased-remove_camera port id rest {camera = camera})

-- A port that is being closed is in no other place.
give_back-IsPartition :
    (pool closing : List ℕ) (back : ℕ) (state : RistState)
    → member back closing ≡ true
    → IsPartition pool closing state
    → IsPartition pool (set_remove back closing) (give_back back state)
unfolding give_back
give_back-IsPartition pool closing back state m h port =
    let away : times back state.available_ports ≡ 0 =
      omega (arith, h back, times-pos back closing m, once_le (member back pool)) in
    omega (
      arith,
      h port,
      times-set_insert port back state.available_ports away,
      times-set_remove port back closing m,
    )

provision_port-IsPartition :
    (pool closing : List ℕ) (session_id : SessionId) (camera_id : CameraIdentityId)
    (endpoint : ℕ → Result RistError Url) (receiver : Result RistError (Unit {0}))
    (state : RistState)
    → IsPartition pool closing state
    → IsPartition pool closing (provision_port session_id camera_id endpoint receiver state).1
unfolding provision_port
provision_port-IsPartition pool closing session_id camera_id endpoint receiver state h =
    provision-IsPartition pool closing session_id camera_id endpoint receiver
      (get_camera camera_id state.cameras) state h

withdraw-IsPartition :
    (pool closing : List ℕ) (camera_id : CameraIdentityId) (camera : CameraReceiver)
    (state : RistState)
    → (withdraw camera_id state).0 ≡ some camera
    → IsPartition pool closing state
    → IsPartition pool (camera.port ∷ closing) (withdraw camera_id state).1
unfolding withdraw
withdraw-IsPartition pool closing camera_id camera state e h port =
    omega (arith, h port, leased-remove_camera port camera_id state.cameras {camera = camera} e)

start-Serving :
    (config : RistConfig) (driver : Result RistError (Unit {0})) {state : RistState}
    → start config driver ≡ ok state
    → Serving config [] state
unfolding start
start-Serving config driver {state} h =
    let (_, _, h1) = >>=-eq-ok (validate config) _ h in
    let (_, _, h2) = >>=-eq-ok driver _ h1 in
    let same : state ≡ fresh_state config = ground (arith, h2) in rw same Serving.started

-- In every state that the server gets to from its start, with any interleaving of provisioning cameras
-- and of the two halves of revoking them, each port of the configuration is in exactly one place, once:
-- free, leased to one camera, or on a receiver that is being closed; and no other port is in any.
pub Serving-IsPartition :
    (config : RistConfig) {closing : List ℕ} {state : RistState}
    → Serving config closing state
    → IsPartition config.available_ports closing state
Serving-IsPartition config Serving.started =
    λ port. unfold fresh_state in omega (arith, times-collect port config.available_ports)
Serving-IsPartition config
      (Serving.provisioned session_id camera_id endpoint receiver {closing} {state} before) =
    provision_port-IsPartition config.available_ports closing session_id camera_id endpoint receiver
      state (Serving-IsPartition config before)
Serving-IsPartition config (Serving.withdrawn camera_id camera {closing} {state} e before) =
    withdraw-IsPartition config.available_ports closing camera_id camera state e
      (Serving-IsPartition config before)
Serving-IsPartition config (Serving.returned port {closing} {state} m before) =
    give_back-IsPartition config.available_ports closing port state m
      (Serving-IsPartition config before)
