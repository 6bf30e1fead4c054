-- ===== src/Application/MediaCoordinator.antt =====
-- kinugasa-core/src/application/media_coordinator.rs: recovery after a restart, and the events that
-- the media server reports. Provisioning, which only calls the media server and saves its answer, is
-- not part of this file.
pub mod Recovery
pub mod Completion
pub mod Interruption
use kinugasa_recording.Shared.{
  ℕ, Bool, true, false, Option, none, some, List, [], ◌∷◌, Text, codes, if◌then◌else◌, Result, ok,
  err, ◌>>=◌, ◌>>◌,
}
use kinugasa_recording.Domain.Values.{CameraIdentityId, ErrorReason, new_error_reason}
use kinugasa_recording.Domain.Take.{RecordingCamera}
use kinugasa_recording.Domain.Camera.{CameraInputState, apply_input_state}
use kinugasa_recording.Mysql.Tables.{Db}
use kinugasa_recording.Mysql.Recordings.{
  is_recording, list_active_recordings, get_ongoing_recording_for_camera,
}
use kinugasa_recording.Mysql.Cameras.{get_camera_by_id_for_update, save_camera_connection}
use kinugasa_recording.Application.Errors.{UseCaseError, in_repository, validated}
use kinugasa_recording.Application.RecordingState.{persist_recording_failure}

unfoldable pub recording_interrupted : Text
recording_interrupted = codes "recording interrupted by process restart"

-- The loop over the active recordings.
unfoldable pub fail_recordings : ErrorReason → List RecordingCamera → Db → Result UseCaseError Db
fail_recordings reason [] db = ok db
fail_recordings reason (recording ∷ recordings) db = do
  db' ← persist_recording_failure recording.ongoing_take_id recording.camera_identity_id reason db
  fail_recordings reason recordings db'

-- The unit of work of `recover_after_restart`.
unfoldable pub recover_recordings : Db → Result UseCaseError Db
recover_recordings db = do
  reason ← validated (new_error_reason recording_interrupted)
  fail_recordings reason (list_active_recordings db) db

-- `let recording_error = match state`
unfoldable pub recording_error : CameraInputState → Result UseCaseError (Option ErrorReason)
recording_error CameraInputState.waiting = do
  reason ← validated (new_error_reason (codes "camera input disconnected"))
  ok (some reason)
recording_error (CameraInputState.errored reason) = ok (some reason)
recording_error CameraInputState.connected = ok none

-- `if let Some(recording) = … && matches!(recording.state(), RecordingCameraState::Recording)`
unfoldable pub fail_active : Option RecordingCamera → ErrorReason → Db → Result UseCaseError Db
fail_active none reason db = ok db
fail_active (some recording) reason db =
    let failed =
      persist_recording_failure recording.ongoing_take_id recording.camera_identity_id reason db in
    if is_recording recording.state then failed else ok db

unfoldable pub fail_ongoing : Option ErrorReason → CameraIdentityId → Db → Result UseCaseError Db
fail_ongoing none camera_id db = ok db
fail_ongoing (some reason) camera_id db = do
  recording ← in_repository (get_ongoing_recording_for_camera camera_id db)
  fail_active recording reason db

-- The unit of work of `process_next_event`, on the event that the media server gave.
unfoldable pub process_event : CameraIdentityId → CameraInputState → Db → Result UseCaseError Db
process_event camera_id state db = do
  camera ← in_repository (get_camera_by_id_for_update camera_id db)
  connection ← validated (apply_input_state state camera.connection)
  reason ← recording_error state
  fail_ongoing reason camera_id (save_camera_connection connection db)
