-- ===== src/Media/PortPool.antt =====
-- kinugasa-media/src/rist.rs: the configuration and the pool of UDP ports of `RistServer`. A receiver
-- of librist is left out; whether it could be made, and what closing it returned, are inputs.
pub mod Partition
pub mod Examples
use kinugasa_recording.Shared.{
  ℕ, Bool, true, false, not, ◌&&◌, ◌||◌, Option, none, some, List, [], ◌∷◌, map, Text, text_eq,
  codes, ltb, leb, ◌==◌, if◌then◌else◌, is_empty, is_some, length, any, find, Result, ok, err,
  ok_or, ensure, ◌>>=◌, ◌>>◌,
}
use kinugasa_recording.Domain.Values.{SessionId, CameraIdentityId}
use kinugasa_recording.Domain.Camera.{Url}
use kinugasa_recording.Media.Sets.{member}

-- What `validate` reads of the endpoint: its scheme, whether it has a host, the keys of its query.
pub record EndpointParts : Type 0 where
  pub scheme : Text
  pub has_host : Bool
  pub query_keys : List Text

pub record RistConfig : Type 0 where
  pub public_endpoint : EndpointParts
  pub available_ports : List ℕ
  pub encryption_pepper : List ℕ
  pub recovery_buffer : ℕ
  pub reorder_buffer : ℕ
  pub statistics_interval : ℕ

pub data RistError : Type 0 where
  invalid_configuration port_pool_exhausted librist : RistError

-- `BTreeSet::insert`, in ascending order.
unfoldable pub insert_port : ℕ → List ℕ → List ℕ
insert_port x [] = x ∷ []
insert_port x (y ∷ ys) = if ltb x y then x ∷ y ∷ ys else y ∷ insert_port x ys

unfoldable pub set_insert : ℕ → List ℕ → List ℕ
unfolding insert_port
set_insert x xs = if member x xs then xs else insert_port x xs

unfoldable pub collect : List ℕ → List ℕ
unfolding set_insert
collect [] = []
collect (x ∷ xs) = set_insert x (collect xs)

unfoldable pub set_remove : ℕ → List ℕ → List ℕ
set_remove x [] = []
set_remove x (y ∷ ys) = if y == x then ys else y ∷ set_remove x ys

abbrev pub minimum_encryption_pepper_length : ℕ
minimum_encryption_pepper_length = 32

abbrev pub is_managed : Text → Bool
is_managed key =
    text_eq key (codes "secret")
    || text_eq key (codes "aes-type")
    || text_eq key (codes "virt-dst-port")
    || text_eq key (codes "buffer")

unfoldable pub validate : RistConfig → Result RistError (Unit {0})
unfolding collect text_eq
validate config = do
  ensure
      (not (
        not (text_eq config.public_endpoint.scheme (codes "rist"))
        || not config.public_endpoint.has_host))
      RistError.invalid_configuration
  ensure (not (any is_managed config.public_endpoint.query_keys)) RistError.invalid_configuration
  ensure (not (is_empty config.available_ports || member 0 config.available_ports))
      RistError.invalid_configuration
  ensure (not (ltb (length config.encryption_pepper) minimum_encryption_pepper_length))
      RistError.invalid_configuration
  ensure (length (collect config.available_ports) == length config.available_ports)
      RistError.invalid_configuration
  ensure (not (config.recovery_buffer == 0 || leb config.recovery_buffer config.reorder_buffer))
      RistError.invalid_configuration
  ensure (not (config.statistics_interval == 0)) RistError.invalid_configuration

pub record CameraReceiver : Type 0 where
  pub session_id : SessionId
  pub port : ℕ
  pub endpoint : Url

-- An entry of the map of cameras. One is added only for a camera that has none.
pub record Lease : Type 0 where
  pub camera_id : CameraIdentityId
  pub receiver : CameraReceiver

pub record RistState : Type 0 where
  pub available_ports : List ℕ
  pub cameras : List Lease

unfoldable pub fresh_state : RistConfig → RistState
fresh_state config = record { available_ports = collect config.available_ports; cameras = [] }

-- `RistServer::start`, from whether the driver of librist could be started.
unfoldable pub start : RistConfig → Result RistError (Unit {0}) → Result RistError RistState
unfolding validate fresh_state
start config driver = do validate config; driver; ok (fresh_state config)

unfoldable pub get_camera : CameraIdentityId → List Lease → Option CameraReceiver
get_camera id [] = none
get_camera id (lease ∷ rest) =
    if lease.camera_id == id then some lease.receiver else get_camera id rest

unfoldable pub remove_camera : CameraIdentityId → List Lease → List Lease
remove_camera id [] = []
remove_camera id (lease ∷ rest) =
    if lease.camera_id == id then rest else lease ∷ remove_camera id rest

unfoldable pub first_port : List ℕ → Option ℕ
first_port [] = none
first_port (port ∷ rest) = some port

-- `provision_camera` of a camera that has a receiver.
unfoldable pub provision_again :
    SessionId → CameraReceiver → RistState → Result RistError Url × RistState
provision_again session_id camera state =
    if not (camera.session_id == session_id)
    then (err RistError.invalid_configuration, state)
    else (ok camera.endpoint, state)

-- From what the endpoint's making, by port, and the receiver's returned.
unfoldable pub lease_port :
    SessionId
    → CameraIdentityId
    → ℕ
    → Result RistError Url
    → Result RistError (Unit {0})
    → RistState
    → Result RistError Url × RistState
lease_port session_id camera_id port (err error) receiver state = (err error, state)
lease_port session_id camera_id port (ok endpoint) (err error) state = (err error, state)
lease_port session_id camera_id port (ok endpoint) (ok receiver) state = (
  ok endpoint,
  record {
    available_ports = set_remove port state.available_ports;
    cameras =
        record {
          camera_id = camera_id;
          receiver = record { session_id = session_id; port = port; endpoint = endpoint };
        }
        ∷ state.cameras;
  },
)

unfoldable pub provision_new :
    SessionId
    → CameraIdentityId
    → (ℕ → Result RistError Url)
    → Result RistError (Unit {0})
    → Option ℕ
    → RistState
    → Result RistError Url × RistState
unfolding lease_port
provision_new session_id camera_id endpoint receiver none state =
    (err RistError.port_pool_exhausted, state)
provision_new session_id camera_id endpoint receiver (some port) state =
    lease_port session_id camera_id port (endpoint port) receiver state

unfoldable pub provision_match :
    SessionId
    → CameraIdentityId
    → (ℕ → Result RistError Url)
    → Result RistError (Unit {0})
    → Option CameraReceiver
    → RistState
    → Result RistError Url × RistState
unfolding provision_again provision_new first_port
provision_match session_id camera_id endpoint receiver (some camera) state =
    provision_again session_id camera state
provision_match session_id camera_id endpoint receiver none state =
    provision_new session_id camera_id endpoint receiver (first_port state.available_ports) state

unfoldable pub provision_port :
    SessionId
    → CameraIdentityId
    → (ℕ → Result RistError Url)
    → Result RistError (Unit {0})
    → RistState
    → Result RistError Url × RistState
unfolding get_camera provision_match
provision_port session_id camera_id endpoint receiver state =
    provision_match session_id camera_id endpoint receiver (get_camera camera_id state.cameras)
      state

-- The two halves of `revoke_camera`, which holds the lock for each: the camera is taken out, and after
-- its receiver has been closed the port is given back.
unfoldable pub withdraw : CameraIdentityId → RistState → Option CameraReceiver × RistState
unfolding get_camera remove_camera
withdraw camera_id state = (
  get_camera camera_id state.cameras,
  record state { cameras = remove_camera camera_id state.cameras },
)

unfoldable pub give_back : ℕ → RistState → RistState
unfolding set_insert
give_back port state = record state { available_ports = set_insert port state.available_ports }

unfoldable pub close_camera :
    Result RistError (Unit {0})
    → Option CameraReceiver
    → RistState
    → Result RistError (Unit {0}) × RistState
unfolding give_back
close_camera closed none state = (ok tt, state)
close_camera closed (some camera) state = (closed, give_back camera.port state)

unfoldable pub revoke_port :
    CameraIdentityId
    → Result RistError (Unit {0})
    → RistState
    → Result RistError (Unit {0}) × RistState
unfolding withdraw close_camera
revoke_port camera_id closed state =
    close_camera closed (withdraw camera_id state).0 (withdraw camera_id state).1
