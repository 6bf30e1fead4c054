-- ===== src/Mysql/Recordings.antt =====
-- kinugasa-mysql/src/recording.rs: the statements on recordings, video files and pending uploads.
use kinugasa_recording.Shared.{
  Bool, true, false, not, ◌&&◌, ◌||◌, Option, none, some, List, [], ◌∷◌, ◌++◌, map, ltb, leb, ◌==◌,
  any, find, select, update, Result, ok, err, ◌>>◌, ensure,
}
use kinugasa_recording.Domain.Values.{CameraIdentityId, TakeId}
use kinugasa_recording.Domain.Recording.{FinalizedRecording}
use kinugasa_recording.Domain.Take.{RecordingCameraState, RecordingCamera, VideoFile, is_uploading}
use kinugasa_recording.Mysql.Tables.{
  RepositoryError, corrupt_data, VideoFileRow, Db, is_ongoing, records, of_take, is_file, finalizes,
  take_in, identity_in, by_camera, naive, order_by,
}

abbrev pub option_map {ℓ κ} : {A : Type ℓ} {B : Type κ} → (A → B) → Option A → Option B
option_map f none = none
option_map f (some a) = some (f a)

abbrev pub is_recording : RecordingCameraState → Bool
is_recording RecordingCameraState.recording = true
is_recording (RecordingCameraState.errored reason) = false

abbrev pub by_take_and_camera : RecordingCamera → RecordingCamera → Bool
by_take_and_camera a b =
    ltb a.ongoing_take_id b.ongoing_take_id
    || (a.ongoing_take_id == b.ongoing_take_id && leb a.camera_identity_id b.camera_identity_id)

-- `WHERE state = 'recording'`, whatever the phase of the take.
unfoldable pub list_active_recordings : Db → List RecordingCamera
unfolding order_by
list_active_recordings db =
    order_by by_take_and_camera
      (map (λ row. row.camera) (select (λ row. is_recording row.camera.state) db.recording_cameras))

-- `LIMIT 2`; more than one row is refused as corrupt.
abbrev pub at_most_one {ℓ} : {A : Type ℓ} → List A → Result RepositoryError (Option A)
at_most_one [] = ok none
at_most_one (a ∷ []) = ok (some a)
at_most_one (a ∷ b ∷ rest) = err corrupt_data

unfoldable pub get_ongoing_recording_for_camera :
    CameraIdentityId → Db → Result RepositoryError (Option RecordingCamera)
unfolding order_by
get_ongoing_recording_for_camera camera_id db = at_most_one (
    order_by by_take_and_camera (
      map (λ row. row.camera)
        (select
          (λ row.
            row.camera.camera_identity_id == camera_id
            && any (λ t. t.id == row.camera.ongoing_take_id && is_ongoing t.phase) db.takes)
          db.recording_cameras)))

unfoldable pub get_recording_camera_for_update :
    TakeId → CameraIdentityId → Db → Option RecordingCamera
get_recording_camera_for_update take_id camera_id db =
    option_map (λ row. row.camera) (find (records take_id camera_id) db.recording_cameras)

unfoldable pub save_recording_camera : RecordingCamera → Db → Db
unfolding naive
save_recording_camera recording db = record db {
  recording_cameras =
      update (records recording.ongoing_take_id recording.camera_identity_id)
        (λ row. record row {
          camera = record (row.camera) {
            state = recording.state;
            started_at = naive recording.started_at;
          };
        })
        db.recording_cameras;
}

unfoldable pub get_video_file_for_update : TakeId → CameraIdentityId → Db → Option VideoFile
get_video_file_for_update take_id camera_id db =
    option_map (λ row. row.file) (find (is_file take_id camera_id) db.video_files)

unfoldable pub list_video_files_for_take_for_update : TakeId → Db → List VideoFile
unfolding order_by
list_video_files_for_take_for_update take_id db =
    map (λ row. row.file) (order_by by_camera (select (of_take take_id) db.video_files))

unfoldable pub list_uploading_video_files_for_camera : CameraIdentityId → Db → List VideoFile
unfolding order_by is_uploading
list_uploading_video_files_for_camera camera_id db =
    map (λ row. row.file)
      (order_by (λ a b. leb a.file.finished_take_id b.file.finished_take_id)
        (select (λ row. row.file.camera_identity_id == camera_id && is_uploading row.file.state)
          db.video_files))

-- The assignments of `UPDATE video_files SET …`.
abbrev pub write_file : VideoFile → VideoFileRow → VideoFileRow
write_file video row = record row {
  file = record (row.file) {
    state = video.state;
    started_at = naive video.started_at;
    finished_at = naive video.finished_at;
  };
}

unfoldable pub save_video_file : VideoFile → Db → Db
unfolding naive
save_video_file video db = record db {
  video_files =
      update (is_file video.finished_take_id video.camera_identity_id) (write_file video)
        db.video_files;
}

unfoldable pub get_finalized_recording_for_update :
    TakeId → CameraIdentityId → Db → Option FinalizedRecording
get_finalized_recording_for_update take_id camera_id db =
    find (finalizes take_id camera_id) db.finalized_recordings

unfoldable pub insert_finalized_recording : FinalizedRecording → Db → Result RepositoryError Db
unfolding naive
insert_finalized_recording recording db = do
  ensure
      (not (any (finalizes recording.take_id recording.camera_identity_id) db.finalized_recordings))
      RepositoryError.conflict
  ensure (any (take_in recording.take_id recording.session_id) db.takes) RepositoryError.conflict
  ensure (any (identity_in recording.camera_identity_id recording.session_id) db.camera_identities)
      RepositoryError.conflict
  ok (record db {
    finalized_recordings =
        db.finalized_recordings
        ++ (record recording {
          started_at = naive recording.started_at;
          finished_at = naive recording.finished_at;
        })
          ∷ [];
  })
