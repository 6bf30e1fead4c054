-- ===== src/Application/RecordingState/Progress.antt =====
-- kinugasa-core/src/application/recording_state.rs: the result of an upload in flight.
use kinugasa_recording.Shared.{
  ◌≡◌, ◌≤◌, refl, ◌∙◌, true, ◌||◌, some, ◌==◌, ok, arith, Bool-cases, inl, inr, is_empty, any,
}
use kinugasa_recording.Domain.Recording.{UploadResult, check_interval, FinalizedRecording}
use kinugasa_recording.Domain.Take.{
  FinishedTake, VideoFile, is_uploading, new_finished_take, new_video_file,
}
use kinugasa_recording.Mysql.Tables.{Db}
use kinugasa_recording.Mysql.Takes.{save_finished_take, delete_recording_cameras}
use kinugasa_recording.Mysql.Recordings.{
  get_video_file_for_update, save_video_file, get_finalized_recording_for_update,
  list_video_files_for_take_for_update,
}
use kinugasa_recording.Application.RecordingState.{
  get_finished_for_update, settle_file, wanted, persist_upload_result, converge_finished_take,
}
use kinugasa_recording.Application.RecordingState.Converge.{converged_state-target, converged}
use kinugasa_recording.Application.RecordingState.Invariant.{finished-snapshot}
use kinugasa_recording.Application.RecordingState.Written.{taken-interval, written-video}
use kinugasa_recording.Application.RecordingState.Redelivery.{persist_upload_result-from}

-- Converging a take whose interval is in order never fails.
converge_ok :
    (take : FinishedTake) (db : Db)
    → take.started_at ≤ take.finished_at
    → (db' : Db) × (converge_finished_take take db ≡ ok db')
unfolding converge_finished_take new_finished_take check_interval
converge_ok take db interval =
    let videos = list_video_files_for_take_for_update take.id db in
    elim (Bool-cases
      (is_empty videos || any (λ (video : VideoFile). is_uploading video.state) videos)) [
        | inl waits ↦ (db, rw waits refl)
        | inr done ↦ (
          delete_recording_cameras take.id (save_finished_take (converged take db) db),
          rw (done, converged_state-target take.id db) (ground (arith, interval)),
        )
      ]

settle_ok :
    (video : VideoFile) (take : FinishedTake) (result : UploadResult) (db : Db)
    → is_uploading video.state ≡ true
    → video.started_at ≤ video.finished_at
    → settle_file video take (wanted result.outcome) db
      ≡ converge_finished_take take
          (save_video_file (record video { state = wanted result.outcome }) db)
unfolding settle_file new_video_file check_interval
settle_ok video take result db up interval = rw up (ground (arith, interval))

-- When a take has finished, its finalized recording and its video file of a camera are there, the
-- take and the recording are of the session of an upload's result, and the file is still uploading
-- with its interval in order, persisting the result succeeds, and afterwards the file has the
-- state that the result calls for.
pub persist_upload_result_settles :
    (result : UploadResult) (db : Db) (take : FinishedTake) (finalized : FinalizedRecording)
    (video : VideoFile)
    → get_finished_for_update result.take_id db ≡ ok take
    → (take.session_id == result.session_id) ≡ true
    → get_finalized_recording_for_update result.take_id result.camera_identity_id db
      ≡ some finalized
    → (finalized.session_id == result.session_id) ≡ true
    → get_video_file_for_update result.take_id result.camera_identity_id db ≡ some video
    → is_uploading video.state ≡ true
    → video.started_at ≤ video.finished_at
    → (db' : Db) × (persist_upload_result result db ≡ ok db')
      × ((after : VideoFile) × (get_video_file_for_update result.take_id result.camera_identity_id
              db'
            ≡ some after)
          × (after.state ≡ wanted result.outcome))
persist_upload_result_settles result db take finalized video got session found session' locked up
      interval =
    let taken = finished-snapshot result.take_id db {take = take} got in
    let new : VideoFile = record video { state = wanted result.outcome } in
    let (db', converged_to) =
      converge_ok take (save_video_file new db)
        (taken-interval result.take_id db {take = take} taken) in
    (
      db',
      persist_upload_result-from result db take finalized video got session found session' locked
          ∙ settle_ok video take result db up interval
          ∙ converged_to,
      written-video result.take_id result.camera_identity_id db take video new taken got locked refl
          refl {db' = db'} converged_to,
    )
