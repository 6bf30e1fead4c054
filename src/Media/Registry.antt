-- ===== src/Media/Registry.antt =====
-- kinugasa-media/src/service.rs: the registry of cameras, and the operations of `MediaService` on it.
-- What the transports returned are inputs. A camera is kept by what its handle's metadata say.
pub mod Sessions
pub mod Consistency
pub mod Revocation
pub mod Closing
pub mod Histories
pub mod Examples
use kinugasa_recording.Shared.{
  ℕ, ◌+◌, Bool, true, false, not, ◌&&◌, ◌||◌, Option, none, some, List, [], ◌∷◌, map, Text, text_eq,
  ltb, leb, ◌==◌, if◌then◌else◌, is_empty, is_some, select, Result, ok, err, ok_or, map_err, ensure,
  ◌>>=◌, ◌>>◌,
}
use kinugasa_recording.Domain.Values.{SessionId, CameraIdentityId, TakeId}
use kinugasa_recording.Domain.Camera.{Url}
use kinugasa_recording.Application.Errors.{MediaError}
use kinugasa_recording.Media.Sets.{Map, put, drop}
use kinugasa_recording.Media.Ports.{
  SessionRoutes, first_virtual_port, last_virtual_port, allocate_virtual_port,
}

pub record CameraMetadata : Type 0 where
  pub session_id : SessionId
  pub session_name : Text
  pub camera_id : CameraIdentityId
  pub camera_name : Text
  pub virtual_port : ℕ
  pub publish_endpoint : Url

pub record Route : Type 0 where
  pub port : ℕ
  pub camera_id : CameraIdentityId

-- The routes of a session, with the name of the session.
pub record SessionEntry : Type 0 where
  pub session_name : Text
  pub by_virtual_port : List Route
  pub next_virtual_port : ℕ

pub record CameraRegistry : Type 0 where
  pub by_id : Map CameraMetadata
  pub sessions : Map SessionEntry

abbrev pub default_registry : CameraRegistry
default_registry = record { by_id = λ id. none; sessions = λ id. none }

abbrev pub camera_at : ℕ → List Route → Option CameraIdentityId
camera_at port [] = none
camera_at port (route ∷ rest) =
    if route.port == port then some route.camera_id else camera_at port rest

pub record ProvisionCameraRequest : Type 0 where
  pub session_id : SessionId
  pub session_name : Text
  pub camera_identity_id : CameraIdentityId
  pub camera_name : Text
  pub virtual_port : Option ℕ

pub record CameraPublishAccess : Type 0 where
  pub endpoint : Url
  pub virtual_port : ℕ

pub data MoqError : Type 0 where
  conflict other : MoqError

unfoldable pub media_moq_error : MoqError → MediaError
media_moq_error MoqError.conflict = MediaError.conflict
media_moq_error MoqError.other = MediaError.unavailable

-- What the transports return for a camera: the endpoint of its RIST receiver, as it is published for a
-- virtual port, and whether its preview could be published.
pub record Transports : Type 0 where
  pub rist : Result (Unit {0}) (ℕ → Url)
  pub moq : Result MoqError (Unit {0})

abbrev pub wants_other : Option ℕ → ℕ → Bool
wants_other none port = false
wants_other (some wanted) port = not (wanted == port)

-- The branch for a camera that is registered.
unfoldable pub provision_known :
    ProvisionCameraRequest → Transports → CameraMetadata → Result MediaError CameraPublishAccess
unfolding media_moq_error
provision_known request transports camera = do
  ensure
      (not (
        not (camera.session_id == request.session_id)
        || not (text_eq camera.session_name request.session_name)
        || not (text_eq camera.camera_name request.camera_name)
        || wants_other request.virtual_port camera.virtual_port))
      MediaError.conflict
  map_err media_moq_error transports.moq
  ok (record { endpoint = camera.publish_endpoint; virtual_port = camera.virtual_port })

abbrev pub new_session : Text → SessionEntry
new_session name = record {
  session_name = name;
  by_virtual_port = [];
  next_virtual_port = first_virtual_port;
}

abbrev pub routes_of : SessionEntry → SessionRoutes
routes_of entry = record {
  by_virtual_port = map (λ (route : Route). route.port) entry.by_virtual_port;
  next_virtual_port = entry.next_virtual_port;
}

-- The virtual port of a new camera: the one that was asked for, or a free one.
unfoldable pub choose_port : Option ℕ → SessionEntry → Result MediaError ℕ × SessionEntry
choose_port (some port) entry =
    if not (leb first_virtual_port port && leb port last_virtual_port)
      || is_some (camera_at port entry.by_virtual_port)
    then (err MediaError.conflict, entry)
    else (ok port, entry)
choose_port none entry =
    let (found, after) = allocate_virtual_port (routes_of entry) in
    (
      ok_or found MediaError.unavailable,
      record entry { next_virtual_port = after.next_virtual_port },
    )

-- What a failure leaves: a session that was opened for the camera goes, another keeps its next port.
unfoldable pub abandon :
    SessionId → Option SessionEntry → SessionEntry → CameraRegistry → CameraRegistry
abandon id none entry registry = registry
abandon id (some before) entry registry = record registry {
  sessions = put id entry registry.sessions;
}

abbrev pub registered_camera : ProvisionCameraRequest → ℕ → Url → CameraMetadata
registered_camera request port endpoint = record {
  session_id = request.session_id;
  session_name = request.session_name;
  camera_id = request.camera_identity_id;
  camera_name = request.camera_name;
  virtual_port = port;
  publish_endpoint = endpoint;
}

abbrev pub with_route : ℕ → CameraIdentityId → SessionEntry → SessionEntry
with_route port id entry = record entry {
  by_virtual_port = record { port = port; camera_id = id } ∷ entry.by_virtual_port;
}

unfoldable pub register :
    ProvisionCameraRequest → ℕ → Url → SessionEntry → CameraRegistry → CameraRegistry
register request port endpoint entry registry = record {
  by_id = put request.camera_identity_id (registered_camera request port endpoint) registry.by_id;
  sessions =
      put request.session_id (with_route port request.camera_identity_id entry) registry.sessions;
}

-- The call of the preview's transport, once the RIST receiver is there. Nothing depends on whether the
-- receiver could be revoked after the preview has failed.
unfoldable pub publish :
    ProvisionCameraRequest
    → Option SessionEntry
    → ℕ
    → Url
    → SessionEntry
    → Result MoqError (Unit {0})
    → CameraRegistry
    → Result MediaError CameraPublishAccess × CameraRegistry
unfolding abandon register media_moq_error
publish request before port endpoint entry (err error) registry =
    (err (media_moq_error error), abandon request.session_id before entry registry)
publish request before port endpoint entry (ok done) registry = (
  ok (record { endpoint = endpoint; virtual_port = port }),
  register request port endpoint entry registry,
)

unfoldable pub receive :
    ProvisionCameraRequest
    → Option SessionEntry
    → ℕ
    → SessionEntry
    → Result (Unit {0}) (ℕ → Url)
    → Result MoqError (Unit {0})
    → CameraRegistry
    → Result MediaError CameraPublishAccess × CameraRegistry
unfolding abandon publish
receive request before port entry (err error) moq registry =
    (err MediaError.unavailable, abandon request.session_id before entry registry)
receive request before port entry (ok endpoint) moq registry =
    publish request before port (endpoint port) entry moq registry

-- What follows the choice of a port.
unfoldable pub open_transports :
    ProvisionCameraRequest
    → Transports
    → Option SessionEntry
    → Result MediaError ℕ
    → SessionEntry
    → CameraRegistry
    → Result MediaError CameraPublishAccess × CameraRegistry
unfolding abandon receive
open_transports request transports before (err error) entry registry =
    (err error, abandon request.session_id before entry registry)
open_transports request transports before (ok port) entry registry =
    receive request before port entry transports.rist transports.moq registry

-- The entry of the session, a new one if it has none.
unfoldable pub provision_in :
    ProvisionCameraRequest
    → Transports
    → Option SessionEntry
    → CameraRegistry
    → Result MediaError CameraPublishAccess × CameraRegistry
unfolding choose_port open_transports
provision_in request transports none registry =
    let (port, entry) = choose_port request.virtual_port (new_session request.session_name) in
    open_transports request transports none port entry registry
provision_in request transports (some session) registry =
    let (port, entry) = choose_port request.virtual_port session in
    if not (text_eq session.session_name request.session_name)
    then (err MediaError.conflict, registry)
    else open_transports request transports (some session) port entry registry

unfoldable pub provision_match :
    ProvisionCameraRequest
    → Transports
    → Option CameraMetadata
    → CameraRegistry
    → Result MediaError CameraPublishAccess × CameraRegistry
unfolding provision_known provision_in
provision_match request transports (some camera) registry =
    (provision_known request transports camera, registry)
provision_match request transports none registry =
    provision_in request transports (registry.sessions request.session_id) registry

unfoldable pub provision_camera :
    ProvisionCameraRequest
    → Transports
    → CameraRegistry
    → Result MediaError CameraPublishAccess × CameraRegistry
unfolding provision_match
provision_camera request transports registry =
    provision_match request transports (registry.by_id request.camera_identity_id) registry

-- A call returns, or an `expect` in it fails.
pub data Outcome : Type 0 where
  returned : Result MediaError (Unit {0}) → Outcome
  panicked : Outcome

abbrev pub without_port : ℕ → List Route → List Route
without_port port routes = select (λ route. not (route.port == port)) routes

-- The session of a camera that has been taken out of `by_id`.
unfoldable pub close_route :
    CameraMetadata → Option SessionEntry → CameraRegistry → Outcome × CameraRegistry
close_route camera none registry = (panicked, registry)
close_route camera (some session) registry =
    let left : SessionEntry = record session {
      by_virtual_port = without_port camera.virtual_port session.by_virtual_port;
    } in
    (
      returned (ok tt),
      record registry {
        sessions =
            if is_empty left.by_virtual_port
            then drop camera.session_id registry.sessions
            else put camera.session_id left registry.sessions;
      },
    )

unfoldable pub revoke_known :
    CameraIdentityId
    → Result (Unit {0}) (Unit {0})
    → CameraMetadata
    → CameraRegistry
    → Outcome × CameraRegistry
unfolding close_route
revoke_known id (err error) camera registry = (returned (err MediaError.unavailable), registry)
revoke_known id (ok revoked) camera registry =
    close_route camera (registry.sessions camera.session_id)
      (record registry { by_id = drop id registry.by_id })

unfoldable pub revoke_match :
    CameraIdentityId
    → Result (Unit {0}) (Unit {0})
    → Option CameraMetadata
    → CameraRegistry
    → Outcome × CameraRegistry
unfolding revoke_known
revoke_match id rist none registry = (returned (ok tt), registry)
revoke_match id rist (some camera) registry = revoke_known id rist camera registry

unfoldable pub revoke_camera :
    CameraIdentityId → Result (Unit {0}) (Unit {0}) → CameraRegistry → Outcome × CameraRegistry
unfolding revoke_match
revoke_camera id rist registry = revoke_match id rist (registry.by_id id) registry

unfoldable pub camera : CameraIdentityId → CameraRegistry → Result MediaError CameraMetadata
camera id registry = ok_or (registry.by_id id) MediaError.not_found

pub data IngressError : Type 0 where
  camera_not_found queue_full unavailable : IngressError

unfoldable pub camera_ingress :
    CameraIdentityId → CameraRegistry → Result IngressError CameraMetadata
camera_ingress id registry = ok_or (registry.by_id id) IngressError.camera_not_found

unfoldable pub camera_for_session_route :
    SessionId → ℕ → CameraRegistry → Result IngressError CameraMetadata
camera_for_session_route session_id virtual_port registry = do
  session ← ok_or (registry.sessions session_id) IngressError.camera_not_found
  camera_id ← ok_or (camera_at virtual_port session.by_virtual_port) IngressError.camera_not_found
  ok_or (registry.by_id camera_id) IngressError.camera_not_found

-- The checks of `RecordingService::start_recording`, before the camera's task is asked.
unfoldable pub camera_of_session :
    CameraIdentityId → SessionId → CameraRegistry → Result MediaError CameraMetadata
unfolding camera
camera_of_session id session_id registry = do
  metadata ← camera id registry
  ensure (metadata.session_id == session_id) MediaError.not_found
  ok metadata
