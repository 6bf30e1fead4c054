-- ===== src/Application/RecordingState.antt =====
-- kinugasa-core/src/application/recording_state.rs: the transitions of takes, recordings and video
-- files inside one unit of work. Each returns the new tables or an error.
pub mod Settled
pub mod Converge
pub mod Invariant
pub mod Uploads
pub mod Finish
pub mod Terminal
pub mod Traces
pub mod Final
pub mod Written
pub mod Redelivery
pub mod Progress
pub mod Ended
pub mod Staging
pub mod Aborting
pub mod Conflicts
pub mod Examples
pub mod FinishExample
pub mod ProgressExample
pub mod RedeliveryExample
use kinugasa_recording.Shared.{
  ℕ, ◌/◌, Bool, true, false, not, ◌&&◌, ◌||◌, Option, none, some, List, [], ◌∷◌, map, Text, codes,
  max, ◌==◌, if◌then◌else◌, is_empty, any, text_eq, Result, ok, err, ◌>>=◌, ◌>>◌, ensure, ok_or,
}
use kinugasa_recording.Domain.Values.{
  CameraIdentityId, TakeId, Timestamp, ErrorReason, new_error_reason,
}
use kinugasa_recording.Domain.Recording.{FinalizedRecording, UploadOutcome, UploadResult}
use kinugasa_recording.Domain.Take.{
  RecordingCameraState, RecordingCamera, OngoingTake, FinishedTakeState, FinishedTake,
  VideoFileState, VideoFile, video_state_eq, is_uploading, is_errored, new_finished_take,
  new_video_file,
}
use kinugasa_recording.Mysql.Tables.{Db, TakeSnapshot}
use kinugasa_recording.Mysql.Takes.{
  get_take_for_update, replace_ongoing_with_finished, save_finished_take, delete_recording_cameras,
}
use kinugasa_recording.Mysql.Recordings.{
  is_recording, get_recording_camera_for_update, save_recording_camera, get_video_file_for_update,
  list_video_files_for_take_for_update, save_video_file, get_finalized_recording_for_update,
  insert_finalized_recording,
}
use kinugasa_recording.Application.Errors.{
  UseCaseError, use_case_conflict, in_repository, validated,
}

unfoldable pub upload_failure : Text
upload_failure = codes "one or more video uploads failed"

-- `let TakeSnapshot::Finished(finished) = take else { return Err(UseCaseError::conflict()) }`
abbrev pub finished_only : TakeSnapshot → Result UseCaseError FinishedTake
finished_only TakeSnapshot.ongoing = err use_case_conflict
finished_only (TakeSnapshot.finished finished) = ok finished

-- The first statements of three transitions: the locked take, which must have finished.
unfoldable pub get_finished_for_update : TakeId → Db → Result UseCaseError FinishedTake
get_finished_for_update take_id db = do
  take ← in_repository (get_take_for_update take_id db)
  finished_only take

unfoldable pub persist_recording_started :
    TakeId → CameraIdentityId → Timestamp → Db → Result UseCaseError Db
persist_recording_started take_id camera_id started_at db = do
  take ← in_repository (get_take_for_update take_id db)
  recording ← ok_or (get_recording_camera_for_update take_id camera_id db) use_case_conflict
  ensure (is_recording recording.state) use_case_conflict
  ok (
      save_recording_camera
        (record {
          ongoing_take_id = take_id;
          camera_identity_id = camera_id;
          state = RecordingCameraState.recording;
          started_at = started_at;
        })
        db)

-- The take's new state, once no file is uploading.
unfoldable pub converged_state : List VideoFile → Result UseCaseError FinishedTakeState
converged_state videos =
    if any (λ video. is_errored video.state) videos
    then (do
      reason ← validated (new_error_reason upload_failure)
      ok (FinishedTakeState.errored reason))
    else ok FinishedTakeState.completed

unfoldable pub converge_finished_take : FinishedTake → Db → Result UseCaseError Db
converge_finished_take take db =
    let videos = list_video_files_for_take_for_update take.id db in
    if is_empty videos || any (λ video. is_uploading video.state) videos then ok db else do
      state ← converged_state videos
      converged ← validated (
          new_finished_take take.id take.session_id take.name state take.started_at
            take.finished_at)
      ok (delete_recording_cameras take.id (save_finished_take converged db))

-- The `match video.state()` of `fail_video_file`.
unfoldable pub fail_in_state :
    VideoFileState → VideoFile → FinishedTake → ErrorReason → Bool → Db → Result UseCaseError Db
fail_in_state VideoFileState.uploading video finished reason require_matching_error db = do
  failed ← validated (
      new_video_file video.finished_take_id video.camera_identity_id (VideoFileState.errored reason)
        video.started_at video.finished_at)
  converge_finished_take finished (save_video_file failed db)
fail_in_state (VideoFileState.errored current) video finished reason require_matching_error db =
    if not require_matching_error || text_eq current reason then ok db else err use_case_conflict
fail_in_state (VideoFileState.completed stored) video finished reason require_matching_error db =
    if not require_matching_error then ok db else err use_case_conflict

unfoldable pub fail_video_file :
    FinishedTake → CameraIdentityId → ErrorReason → Bool → Db → Result UseCaseError Db
fail_video_file finished camera_id reason require_matching_error db = do
  video ← ok_or (get_video_file_for_update finished.id camera_id db) use_case_conflict
  fail_in_state video.state video finished reason require_matching_error db

-- The `match recording` of `persist_recording_failure`.
unfoldable pub fail_recording_row :
    TakeSnapshot
    → Option RecordingCamera
    → TakeId
    → CameraIdentityId
    → ErrorReason
    → Db
    → Result UseCaseError Db
fail_recording_row TakeSnapshot.ongoing none take_id camera_id reason db = err use_case_conflict
fail_recording_row (TakeSnapshot.finished finished) none take_id camera_id reason db = ok db
fail_recording_row take (some recording) take_id camera_id reason db = elim (recording.state) [
  | RecordingCameraState.recording ↦ ok (
      save_recording_camera
        (record {
          ongoing_take_id = take_id;
          camera_identity_id = camera_id;
          state = RecordingCameraState.errored reason;
          started_at = recording.started_at;
        })
        db)
  | RecordingCameraState.errored current ↦
      if text_eq current reason then ok db else err use_case_conflict
]

-- Its last statement, `if let TakeSnapshot::Finished(finished) = take`.
unfoldable pub fail_file_of :
    TakeSnapshot → CameraIdentityId → ErrorReason → Db → Result UseCaseError Db
fail_file_of TakeSnapshot.ongoing camera_id reason db = ok db
fail_file_of (TakeSnapshot.finished finished) camera_id reason db =
    fail_video_file finished camera_id reason true db

unfoldable pub persist_recording_failure :
    TakeId → CameraIdentityId → ErrorReason → Db → Result UseCaseError Db
persist_recording_failure take_id camera_id reason db = do
  take ← in_repository (get_take_for_update take_id db)
  db' ←
      fail_recording_row take (get_recording_camera_for_update take_id camera_id db) take_id
        camera_id reason db
  fail_file_of take camera_id reason db'

unfoldable pub fail_upload : TakeId → CameraIdentityId → ErrorReason → Db → Result UseCaseError Db
fail_upload take_id camera_id reason db = do
  finished ← get_finished_for_update take_id db
  fail_video_file finished camera_id reason false db

-- The state of a camera's video file when its take finishes.
unfoldable pub file_state : RecordingCameraState → VideoFileState
file_state RecordingCameraState.recording = VideoFileState.uploading
file_state (RecordingCameraState.errored reason) = VideoFileState.errored reason

-- The loop of `finish_ongoing_take`.
unfoldable pub finished_files :
    TakeId → Timestamp → List RecordingCamera → Result UseCaseError (List VideoFile)
finished_files id finished_at [] = ok []
finished_files id finished_at (recording ∷ recordings) = do
  video ← validated (
      new_video_file id recording.camera_identity_id (file_state recording.state)
        recording.started_at (max finished_at recording.started_at))
  videos ← finished_files id finished_at recordings
  ok (video ∷ videos)

unfoldable pub has_uploading : List RecordingCamera → Bool
has_uploading recordings = any (λ recording. is_recording recording.state) recordings

unfoldable pub initial_state : List RecordingCamera → Result UseCaseError FinishedTakeState
unfolding has_uploading
initial_state recordings = if has_uploading recordings then ok FinishedTakeState.uploading else do
  reason ← validated (new_error_reason upload_failure)
  ok (FinishedTakeState.errored reason)

unfoldable pub finish_ongoing_take :
    OngoingTake → Timestamp → Db → Result UseCaseError (FinishedTake × Db)
finish_ongoing_take ongoing finished_at db = do
  videos ← finished_files ongoing.id finished_at ongoing.cameras
  state ← initial_state ongoing.cameras
  finished ← validated (
      new_finished_take ongoing.id ongoing.session_id ongoing.name state ongoing.started_at
        finished_at)
  db' ← in_repository (replace_ongoing_with_finished finished videos db)
  ok (
    finished,
    if has_uploading ongoing.cameras then db' else delete_recording_cameras ongoing.id db',
  )

unfoldable pub timestamp_micros : Timestamp → ℕ
timestamp_micros t = t / 1000

unfoldable pub same_finalized_recording : FinalizedRecording → FinalizedRecording → Bool
unfolding timestamp_micros
same_finalized_recording left right =
    left.take_id == right.take_id
    && (left.camera_identity_id == right.camera_identity_id
        && (left.session_id == right.session_id
            && (timestamp_micros left.started_at == timestamp_micros right.started_at
                && (timestamp_micros left.finished_at == timestamp_micros right.finished_at
                    && (text_eq left.relative_path right.relative_path
                        && text_eq left.media_type right.media_type)))))

-- The recording is inserted, unless the same one is there.
unfoldable pub stage_row :
    Option FinalizedRecording → FinalizedRecording → Db → Result UseCaseError Db
stage_row (some existing) recording db =
    if same_finalized_recording existing recording then ok db else err use_case_conflict
stage_row none recording db = do
  source ←
      ok_or (get_recording_camera_for_update recording.take_id recording.camera_identity_id db)
        use_case_conflict
  ensure (is_recording source.state) use_case_conflict
  in_repository (insert_finalized_recording recording db)

-- The interval of an uploading video file becomes that of the recording.
unfoldable pub stage_file : VideoFile → FinalizedRecording → Db → Result UseCaseError Db
stage_file video recording db =
    if is_uploading video.state
    then (do
      staged ← validated (
          new_video_file video.finished_take_id video.camera_identity_id VideoFileState.uploading
            recording.started_at recording.finished_at)
      ok (save_video_file staged db))
    else ok db

unfoldable pub stage_finalized_recording : FinalizedRecording → Db → Result UseCaseError Db
stage_finalized_recording recording db = do
  finished ← get_finished_for_update recording.take_id db
  ensure (finished.session_id == recording.session_id) use_case_conflict
  db' ←
      stage_row
        (get_finalized_recording_for_update recording.take_id recording.camera_identity_id db)
        recording db
  video ←
      ok_or (get_video_file_for_update recording.take_id recording.camera_identity_id db')
        use_case_conflict
  stage_file video recording db'

unfoldable pub wanted : UploadOutcome → VideoFileState
wanted (UploadOutcome.completed stored) = VideoFileState.completed stored
wanted (UploadOutcome.errored reason) = VideoFileState.errored reason

-- From the locked video file on.
unfoldable pub settle_file : VideoFile → FinishedTake → VideoFileState → Db → Result UseCaseError Db
settle_file video finished state db =
    if not (is_uploading video.state)
    then (if video_state_eq video.state state then ok db else err use_case_conflict)
    else do
      settled ← validated (
          new_video_file video.finished_take_id video.camera_identity_id state video.started_at
            video.finished_at)
      converge_finished_take finished (save_video_file settled db)

unfoldable pub persist_upload_result : UploadResult → Db → Result UseCaseError Db
persist_upload_result result db = do
  finished ← get_finished_for_update result.take_id db
  ensure (finished.session_id == result.session_id) use_case_conflict
  finalized ←
      ok_or (get_finalized_recording_for_update result.take_id result.camera_identity_id db)
        use_case_conflict
  ensure (finalized.session_id == result.session_id) use_case_conflict
  video ←
      ok_or (get_video_file_for_update result.take_id result.camera_identity_id db)
        use_case_conflict
  settle_file video finished (wanted result.outcome) db
