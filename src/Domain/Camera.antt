-- ===== src/Domain/Camera.antt =====
-- kinugasa-core/src/domain/camera.rs. A URL is its text.
use kinugasa_recording.Shared.{
  ℕ, Option, none, some, Text, ◌==◌, if◌then◌else◌, Result, ok, err, ok_or, ◌>>=◌, not,
}
use kinugasa_recording.Domain.Values.{
  ValidationError, SessionId, CameraIdentityId, MediaProcessId, Timestamp, ErrorReason,
}

abbrev pub Url : Type 0
Url = Text

pub record CameraIdentity : Type 0 where
  pub id : CameraIdentityId
  pub session_id : SessionId
  pub name : Text
  pub created_at : Timestamp

pub data CameraConnectionState : Type 0 where
  activating : CameraConnectionState
  waiting : Url → CameraConnectionState
  connected : Url → CameraConnectionState
  errored : Url → ErrorReason → CameraConnectionState

pub data CameraConnectionStatus : Type 0 where
  activating waiting connected errored : CameraConnectionStatus

unfoldable pub status : CameraConnectionState → CameraConnectionStatus
status CameraConnectionState.activating = CameraConnectionStatus.activating
status (CameraConnectionState.waiting endpoint) = CameraConnectionStatus.waiting
status (CameraConnectionState.connected endpoint) = CameraConnectionStatus.connected
status (CameraConnectionState.errored endpoint reason) = CameraConnectionStatus.errored

unfoldable pub endpoint : CameraConnectionState → Option Url
endpoint CameraConnectionState.activating = none
endpoint (CameraConnectionState.waiting url) = some url
endpoint (CameraConnectionState.connected url) = some url
endpoint (CameraConnectionState.errored url reason) = some url

unfoldable pub error_reason : CameraConnectionState → Option ErrorReason
error_reason (CameraConnectionState.errored url reason) = some reason
error_reason state = none

pub data CameraInputState : Type 0 where
  waiting connected : CameraInputState
  errored : ErrorReason → CameraInputState

pub record CameraConnection : Type 0 where
  pub camera_identity_id : CameraIdentityId
  pub state : CameraConnectionState
  pub virtual_port : Option ℕ
  pub media_process_id : Option MediaProcessId
  pub deletion_requested_at : Option Timestamp

unfoldable pub new_camera_connection : CameraIdentityId → CameraConnectionState → CameraConnection
new_camera_connection id state = record {
  camera_identity_id = id;
  state = state;
  virtual_port = none;
  media_process_id = none;
  deletion_requested_at = none;
}

unfoldable pub set_state : CameraConnectionState → CameraConnection → CameraConnection
set_state state connection = record connection { state = state }

unfoldable pub set_virtual_port : Option ℕ → CameraConnection → CameraConnection
set_virtual_port port connection = record connection { virtual_port = port }

unfoldable pub request_deletion : Timestamp → CameraConnection → CameraConnection
request_deletion at connection = record connection { deletion_requested_at = some at }

-- The connection state that an observed input state leads to, at an endpoint.
unfoldable pub observed : CameraInputState → Url → CameraConnectionState
observed CameraInputState.waiting url = CameraConnectionState.waiting url
observed CameraInputState.connected url = CameraConnectionState.connected url
observed (CameraInputState.errored reason) url = CameraConnectionState.errored url reason

unfoldable pub apply_input_state :
    CameraInputState → CameraConnection → Result ValidationError CameraConnection
unfolding observed endpoint
apply_input_state state connection = do
  url ← ok_or (endpoint connection.state) (record {
    field = "camera_connection.state";
    reason = "must be provisioned before applying input state";
  })
  ok (record connection { state = observed state url })

pub record Camera : Type 0 where
  pub identity : CameraIdentity
  pub connection : CameraConnection

unfoldable pub new_camera : CameraIdentity → CameraConnection → Result ValidationError Camera
new_camera identity connection =
    if not (identity.id == connection.camera_identity_id)
    then err (record {
      field = "camera.connection.camera_identity_id";
      reason = "must match camera identity";
    })
    else ok (record { identity = identity; connection = connection })
