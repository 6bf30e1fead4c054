-- ===== src/Mysql/Columns.antt =====
-- kinugasa-mysql/src/model.rs, take.rs and camera.rs: states as the columns that hold them.
pub mod RoundTrips
use kinugasa_recording.Shared.{
  ℕ, Bool, true, false, Option, none, some, Text, codes, if◌then◌else◌, is_some, text_eq, List, [],
  ◌∷◌, Result, ok, err, ◌>>=◌, ◌>>◌, ensure, ok_or, map_err, not, ◌&&◌, ◌||◌,
}
use kinugasa_recording.Domain.Values.{ErrorReason, new_error_reason, new_object_key, try_from_slice}
use kinugasa_recording.Domain.Recording.{StoredObject}
use kinugasa_recording.Domain.Take.{RecordingCameraState, FinishedTakeState, VideoFileState}
use kinugasa_recording.Domain.Camera.{CameraConnectionState, Url}
use kinugasa_recording.Mysql.Tables.{RepositoryError, corrupt_data}

-- The columns `state` and `error`.
pub record StateColumns : Type 0 where
  pub state : Text
  pub error : Option Text

-- The columns of `video_files` for a state.
pub record VideoStateValues : Type 0 where
  pub state : Text
  pub object_key : Option Text
  pub hash : Option (List ℕ)
  pub size : Option ℕ
  pub error : Option Text

-- The columns `url`, `status` and `error` of `camera_connections`.
pub record ConnectionValues : Type 0 where
  pub url : Option Text
  pub status : Text
  pub error : Option Text

unfoldable pub required {ℓ} : {A : Type ℓ} → Option A → Result RepositoryError A
required value = ok_or value corrupt_data

unfoldable pub parse_required_error : Option Text → Result RepositoryError ErrorReason
unfolding required
parse_required_error value = do
  reason ← required value
  map_err (λ _. corrupt_data) (new_error_reason reason)

unfoldable pub recording_state : RecordingCameraState → StateColumns
recording_state RecordingCameraState.recording = record { state = codes "recording"; error = none }
recording_state (RecordingCameraState.errored reason) = record {
  state = codes "errored";
  error = some reason;
}

-- The `match self.state.as_str()` of `RecordingCameraRow::into_domain`.
unfoldable pub parse_recording_state : StateColumns → Result RepositoryError RecordingCameraState
parse_recording_state row =
    let reason = parse_required_error row.error in
    if text_eq row.state (codes "recording")
    then ok RecordingCameraState.recording
    else if text_eq row.state (codes "errored")
    then (do r ← reason; ok (RecordingCameraState.errored r))
    else err corrupt_data

unfoldable pub finished_state : FinishedTakeState → StateColumns
finished_state FinishedTakeState.uploading = record { state = codes "uploading"; error = none }
finished_state FinishedTakeState.completed = record { state = codes "completed"; error = none }
finished_state (FinishedTakeState.errored reason) = record {
  state = codes "errored";
  error = some reason;
}

unfoldable pub parse_finished_state : StateColumns → Result RepositoryError FinishedTakeState
parse_finished_state row =
    if text_eq row.state (codes "uploading")
    then ok FinishedTakeState.uploading
    else if text_eq row.state (codes "completed")
    then ok FinishedTakeState.completed
    else if text_eq row.state (codes "errored")
    then (do reason ← parse_required_error row.error; ok (FinishedTakeState.errored reason))
    else err corrupt_data

unfoldable pub video_state : VideoFileState → VideoStateValues
video_state VideoFileState.uploading = record {
  state = codes "uploading";
  object_key = none;
  hash = none;
  size = none;
  error = none;
}
video_state (VideoFileState.completed stored) = record {
  state = codes "completed";
  object_key = some stored.object_key;
  hash = some stored.hash;
  size = some stored.size;
  error = none;
}
video_state (VideoFileState.errored reason) = record {
  state = codes "errored";
  object_key = none;
  hash = none;
  size = none;
  error = some reason;
}

-- The `Completed` arm of `VideoFileRow::into_domain`.
unfoldable pub parse_stored : VideoStateValues → Result RepositoryError StoredObject
parse_stored row = do
  key ← required row.object_key
  object_key ← map_err (λ _. corrupt_data) (new_object_key key)
  bytes ← required row.hash
  hash ← map_err (λ _. corrupt_data) (try_from_slice bytes)
  size ← required row.size
  ok (record { object_key = object_key; hash = hash; size = size })

unfoldable pub parse_video_state : VideoStateValues → Result RepositoryError VideoFileState
parse_video_state row =
    if text_eq row.state (codes "uploading")
    then ok VideoFileState.uploading
    else if text_eq row.state (codes "completed")
    then (do stored ← parse_stored row; ok (VideoFileState.completed stored))
    else if text_eq row.state (codes "errored")
    then (do reason ← parse_required_error row.error; ok (VideoFileState.errored reason))
    else err corrupt_data

unfoldable pub connection_values : CameraConnectionState → ConnectionValues
connection_values CameraConnectionState.activating = record {
  url = none;
  status = codes "activating";
  error = none;
}
connection_values (CameraConnectionState.waiting endpoint) = record {
  url = some endpoint;
  status = codes "waiting";
  error = none;
}
connection_values (CameraConnectionState.connected endpoint) = record {
  url = some endpoint;
  status = codes "connected";
  error = none;
}
connection_values (CameraConnectionState.errored endpoint reason) = record {
  url = some endpoint;
  status = codes "error";
  error = some reason;
}

-- The last `match status`.
unfoldable pub parse_provisioned :
    Url → ConnectionValues → Result RepositoryError CameraConnectionState
parse_provisioned endpoint row =
    if text_eq row.status (codes "waiting") && not (is_some row.error)
    then ok (CameraConnectionState.waiting endpoint)
    else if text_eq row.status (codes "connected") && not (is_some row.error)
    then ok (CameraConnectionState.connected endpoint)
    else if text_eq row.status (codes "error")
    then (do
      reason ← parse_required_error row.error
      ok (CameraConnectionState.errored endpoint reason))
    else err corrupt_data

-- `Url::parse` is of the crate url: a parameter.
unfoldable pub parse_camera_connection_state :
    (Text → Option Url) → ConnectionValues → Result RepositoryError CameraConnectionState
parse_camera_connection_state parse_url row =
    if text_eq row.status (codes "activating")
    then if is_some row.url || is_some row.error
      then err corrupt_data
      else ok CameraConnectionState.activating
    else do
      text ← required row.url
      endpoint ← ok_or (parse_url text) corrupt_data
      parse_provisioned endpoint row
