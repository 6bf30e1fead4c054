-- ===== src/Application/Cameras.antt =====
-- kinugasa-core/src/application/camera.rs: the deletion of a camera.
use kinugasa_recording.Shared.{
  Bool, true, false, not, ◌||◌, List, [], ◌∷◌, Text, codes, is_empty, is_some, Result, ok, ◌>>=◌,
  ◌>>◌, ensure,
}
use kinugasa_recording.Domain.Values.{
  CameraIdentityId, Timestamp, ErrorReason, new_session_name, new_camera_name, new_error_reason,
}
use kinugasa_recording.Domain.Take.{VideoFile}
use kinugasa_recording.Domain.Camera.{request_deletion}
use kinugasa_recording.Mysql.Tables.{Db}
use kinugasa_recording.Mysql.Recordings.{
  get_ongoing_recording_for_camera, list_uploading_video_files_for_camera,
}
use kinugasa_recording.Mysql.Cameras.{get_camera_by_name, save_camera_connection}
use kinugasa_recording.Application.Errors.{
  UseCaseError, use_case_conflict, in_repository, validated,
}
use kinugasa_recording.Application.RecordingState.{fail_upload}

abbrev pub aborted_by_deletion : Text
aborted_by_deletion = codes "upload aborted by forced camera deletion"

-- The loop over the uploads in flight.
unfoldable pub fail_uploads :
    CameraIdentityId → ErrorReason → List VideoFile → Db → Result UseCaseError Db
fail_uploads camera_id reason [] db = ok db
fail_uploads camera_id reason (video ∷ videos) db = do
  db' ← fail_upload video.finished_take_id camera_id reason db
  fail_uploads camera_id reason videos db'

unfoldable pub abort_uploads :
    Bool → CameraIdentityId → List VideoFile → Db → Result UseCaseError Db
abort_uploads false camera_id uploading db = ok db
abort_uploads true camera_id uploading db = do
  reason ← validated (new_error_reason aborted_by_deletion)
  fail_uploads camera_id reason uploading db

-- `now` is what the clock answers.
unfoldable pub delete_camera : Text → Text → Bool → Timestamp → Db → Result UseCaseError Db
delete_camera session_name camera_name force now db = do
  session ← validated (new_session_name session_name)
  name ← validated (new_camera_name camera_name)
  camera ← in_repository (get_camera_by_name session name db)
  recording ← in_repository (get_ongoing_recording_for_camera camera.identity.id db)
  ensure (not (is_some recording)) use_case_conflict
  ensure (is_empty (list_uploading_video_files_for_camera camera.identity.id db) || force)
      use_case_conflict
  db' ←
      abort_uploads force camera.identity.id
        (list_uploading_video_files_for_camera camera.identity.id db) db
  ok (save_camera_connection (request_deletion now camera.connection) db')
