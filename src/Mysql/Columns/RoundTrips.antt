-- ===== src/Mysql/Columns/RoundTrips.antt =====
-- kinugasa-mysql/src: states written to their columns and read again.
use kinugasa_recording.Shared.{◌≡◌, refl, false, Option, some, Text, text_eq, length, is_blank, ok}
use kinugasa_recording.Domain.Values.{
  ErrorReason, new_error_reason, new_object_key, try_from_slice, new_non_empty, hash_length,
}
use kinugasa_recording.Domain.Recording.{StoredObject}
use kinugasa_recording.Domain.Take.{RecordingCameraState, FinishedTakeState, VideoFileState}
use kinugasa_recording.Domain.Camera.{CameraConnectionState, Url}
use kinugasa_recording.Mysql.Columns.{
  required, parse_required_error, recording_state, parse_recording_state, finished_state,
  parse_finished_state, video_state, parse_stored, parse_video_state, connection_values,
  parse_provisioned, parse_camera_connection_state,
}

parse_required_error-some :
    (reason : ErrorReason)
    → is_blank reason ≡ false
    → parse_required_error (some reason) ≡ ok reason
unfolding parse_required_error required new_error_reason new_non_empty
parse_required_error-some reason h = rw h refl

abbrev pub IsValidRecordingState : RecordingCameraState → Type 0
IsValidRecordingState RecordingCameraState.recording = Unit
IsValidRecordingState (RecordingCameraState.errored reason) = is_blank reason ≡ false

-- A recording's state is read back from its columns as it was written, when its reason is not blank.
pub parse-recording_state :
    (state : RecordingCameraState)
    → IsValidRecordingState state
    → parse_recording_state (recording_state state) ≡ ok state
unfolding parse_recording_state recording_state text_eq
parse-recording_state RecordingCameraState.recording h = refl
parse-recording_state (RecordingCameraState.errored reason) h =
    rw (parse_required_error-some reason h) refl

-- What a state of a video file holds when its values come from their constructors.
abbrev pub IsValidState : VideoFileState → Type 0
IsValidState VideoFileState.uploading = Unit
IsValidState (VideoFileState.completed stored) =
    (is_blank stored.object_key ≡ false) × (length stored.hash ≡ hash_length)
IsValidState (VideoFileState.errored reason) = is_blank reason ≡ false

parse_stored-values :
    (stored : StoredObject)
    → is_blank stored.object_key ≡ false
    → length stored.hash ≡ hash_length
    → parse_stored (video_state (VideoFileState.completed stored)) ≡ ok stored
unfolding parse_stored video_state required new_object_key new_non_empty try_from_slice
parse_stored-values stored key hash = rw (key, hash) refl

-- A video file's state is read back from its columns as it was written, when its object key and its
-- reason are not blank and its hash has 32 bytes.
pub parse-video_state :
    (state : VideoFileState) → IsValidState state → parse_video_state (video_state state) ≡ ok state
unfolding parse_video_state video_state text_eq
parse-video_state VideoFileState.uploading h = refl
parse-video_state (VideoFileState.completed stored) h = rw (parse_stored-values stored h.0 h.1) refl
parse-video_state (VideoFileState.errored reason) h = rw (parse_required_error-some reason h) refl

abbrev pub IsValidTakeState : FinishedTakeState → Type 0
IsValidTakeState (FinishedTakeState.errored reason) = is_blank reason ≡ false
IsValidTakeState state = Unit

-- A finished take's state is read back from its columns as it was written, when its reason is not
-- blank.
pub parse-finished_state :
    (state : FinishedTakeState)
    → IsValidTakeState state
    → parse_finished_state (finished_state state) ≡ ok state
unfolding parse_finished_state finished_state text_eq
parse-finished_state FinishedTakeState.uploading h = refl
parse-finished_state FinishedTakeState.completed h = refl
parse-finished_state (FinishedTakeState.errored reason) h =
    rw (parse_required_error-some reason h) refl

-- The endpoint of a connection is a URL that parses, and its reason is not blank.
abbrev pub IsValidConnection : (Text → Option Url) → CameraConnectionState → Type 0
IsValidConnection parse_url CameraConnectionState.activating = Unit
IsValidConnection parse_url (CameraConnectionState.waiting url) = parse_url url ≡ some url
IsValidConnection parse_url (CameraConnectionState.connected url) = parse_url url ≡ some url
IsValidConnection parse_url (CameraConnectionState.errored url reason) =
    (parse_url url ≡ some url) × (is_blank reason ≡ false)

-- A camera's connection state is read back from its columns as it was written, when its endpoint is
-- the text of a URL (which `Url::parse` gives back) and its reason is not blank.
pub parse-connection_values :
    (parse_url : Text → Option Url) (state : CameraConnectionState)
    → IsValidConnection parse_url state
    → parse_camera_connection_state parse_url (connection_values state) ≡ ok state
unfolding parse_camera_connection_state connection_values text_eq required parse_provisioned
parse-connection_values parse_url CameraConnectionState.activating h = refl
parse-connection_values parse_url (CameraConnectionState.waiting url) h = rw h refl
parse-connection_values parse_url (CameraConnectionState.connected url) h = rw h refl
parse-connection_values parse_url (CameraConnectionState.errored url reason) h =
    rw (h.0, parse_required_error-some reason h.1) refl
