-- ===== src/Application/RecordingState/ProgressExample.antt =====
-- The result of the upload in flight, on the take of two cameras.
use kinugasa_recording.Shared.{◌≡◌, ◌≤◌, refl, true, some, codes, ok, arith}
use kinugasa_recording.Domain.Recording.{check_interval}
use kinugasa_recording.Domain.Take.{
  FinishedTake, FinishedTakeState, VideoFile, is_uploading, new_finished_take,
}
use kinugasa_recording.Mysql.Tables.{Db}
use kinugasa_recording.Mysql.Takes.{get_take_for_update, snapshot}
use kinugasa_recording.Mysql.Recordings.{
  get_video_file_for_update, get_finalized_recording_for_update,
}
use kinugasa_recording.Application.RecordingState.{
  get_finished_for_update, persist_upload_result, wanted,
}
use kinugasa_recording.Application.RecordingState.Examples.{
  uploading_db, uploading_file, finalized, result,
}
use kinugasa_recording.Application.RecordingState.Progress.{persist_upload_result_settles}

abbrev take : FinishedTake
take = record {
  id = 1;
  session_id = 1;
  name = codes "t";
  state = FinishedTakeState.uploading;
  started_at = 1000;
  finished_at = 5000;
}

found_take : get_finished_for_update 1 uploading_db ≡ ok take
unfolding get_finished_for_update get_take_for_update snapshot new_finished_take check_interval
found_take = refl

found_recording : get_finalized_recording_for_update 1 10 uploading_db ≡ some finalized
unfolding get_finalized_recording_for_update
found_recording = refl

found_file : get_video_file_for_update 1 10 uploading_db ≡ some uploading_file
unfolding get_video_file_for_update
found_file = refl

in_flight : is_uploading (uploading_file.state) ≡ true
unfolding is_uploading
in_flight = refl

in_order : uploading_file.started_at ≤ uploading_file.finished_at
in_order = omega arith

persist_upload_result_settles_example :
    (db' : Db) × (persist_upload_result result uploading_db ≡ ok db')
    × ((after : VideoFile) × (get_video_file_for_update 1 10 db' ≡ some after)
        × (after.state ≡ wanted result.outcome))
persist_upload_result_settles_example =
    persist_upload_result_settles result uploading_db take finalized uploading_file found_take refl
      found_recording refl found_file in_flight in_order
