-- ===== src/Application/RecordingState/RedeliveryExample.antt =====
-- Requests that are delivered again for an uploading file, with times between two microseconds.
use kinugasa_recording.Shared.{◌≡◌, ◌≢◌, refl, [], ◌∷◌, codes, ok}
use kinugasa_recording.Domain.Recording.{
  FinalizedRecording, UploadOutcome, UploadResult, check_interval,
}
use kinugasa_recording.Domain.Take.{new_finished_take, new_video_file, is_uploading}
use kinugasa_recording.Mysql.Tables.{Db, naive}
use kinugasa_recording.Mysql.Takes.{get_take_for_update, snapshot}
use kinugasa_recording.Mysql.Recordings.{
  get_recording_camera_for_update, get_video_file_for_update, save_video_file,
  get_finalized_recording_for_update, insert_finalized_recording,
}
use kinugasa_recording.Application.RecordingState.{
  get_finished_for_update, stage_row, stage_file, stage_finalized_recording, fail_upload, wanted,
  persist_upload_result,
}
use kinugasa_recording.Application.RecordingState.Examples.{
  uploading_db, uploading_file, uploaded_file, finalized, result, completed_db, uploads, errored_db,
  fails, reason,
}
use kinugasa_recording.Application.RecordingState.Staging.{stage_finalized_recording_again}
use kinugasa_recording.Application.RecordingState.Aborting.{fail_upload_again}
use kinugasa_recording.Application.RecordingState.Conflicts.{persist_upload_result_conflict}

abbrev recording : FinalizedRecording
recording = record finalized { started_at = 1500; finished_at = 4700 }

abbrev unstaged_db : Db
unstaged_db = record uploading_db { finalized_recordings = [] }

abbrev staged_db : Db
staged_db = record uploading_db {
  video_files =
      record { session_id = 1; file = record uploading_file { finished_at = 4000 } }
      ∷ record { session_id = 1; file = uploaded_file }
      ∷ [];
}

stages : stage_finalized_recording recording unstaged_db ≡ ok staged_db
unfolding stage_finalized_recording get_finished_for_update get_take_for_update snapshot
    new_finished_take check_interval stage_row get_recording_camera_for_update
    insert_finalized_recording get_finalized_recording_for_update get_video_file_for_update
    stage_file is_uploading new_video_file save_video_file naive
stages = refl

stage_finalized_recording_again_example :
    stage_finalized_recording recording staged_db ≡ ok staged_db
stage_finalized_recording_again_example =
    stage_finalized_recording_again recording unstaged_db staged_db stages

fail_upload_again_example : fail_upload 1 10 (codes "again") errored_db ≡ ok errored_db
fail_upload_again_example =
    fail_upload_again 1 10 reason (codes "again") uploading_db errored_db fails

abbrev other : UploadResult
other = record result { outcome = UploadOutcome.errored reason }

differ : wanted other.outcome ≢ wanted result.outcome
unfolding wanted
differ h = cc

persist_upload_result_conflict_example : persist_upload_result other completed_db ≢ ok completed_db
persist_upload_result_conflict_example =
    persist_upload_result_conflict result other uploading_db completed_db completed_db refl refl
      differ uploads
