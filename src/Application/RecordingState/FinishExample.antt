-- ===== src/Application/RecordingState/FinishExample.antt =====
-- A take of one camera, finished while the camera records.
use kinugasa_recording.Shared.{◌≡◌, refl, [], ◌∷◌, ◌==◌, codes, ok, arith, Bool-cases, inl, inr}
use kinugasa_recording.Domain.Recording.{check_interval}
use kinugasa_recording.Domain.Take.{
  OngoingTake, FinishedTakeState, FinishedTake, VideoFileState, new_finished_take, new_video_file,
}
use kinugasa_recording.Mysql.Tables.{Phase, Db, naive}
use kinugasa_recording.Mysql.Takes.{
  replace_ongoing_with_finished, finish_row, insert_video_file, insert_video_files,
}
use kinugasa_recording.Application.RecordingState.{
  file_state, finished_files, has_uploading, initial_state, finish_ongoing_take,
}
use kinugasa_recording.Application.RecordingState.Settled.{IsSettled}
use kinugasa_recording.Application.RecordingState.Finish.{finish_ongoing_take-IsSettled}
use kinugasa_recording.Application.RecordingState.Examples.{uploading_db, running, take_row}

abbrev ongoing : OngoingTake
ongoing = record {
  id = 1;
  session_id = 1;
  name = codes "t";
  started_at = 1000;
  cameras = running 10 ∷ [];
}

abbrev ongoing_db : Db
ongoing_db = record uploading_db {
  takes = take_row Phase.ongoing ∷ [];
  recording_cameras = record { session_id = 1; camera = running 10 } ∷ [];
  video_files = [];
  finalized_recordings = [];
}

abbrev finished : FinishedTake
finished = record {
  id = 1;
  session_id = 1;
  name = codes "t";
  state = FinishedTakeState.uploading;
  started_at = 1000;
  finished_at = 5000;
}

abbrev finished_db : Db
finished_db = record ongoing_db {
  takes = take_row (Phase.finished FinishedTakeState.uploading 5000) ∷ [];
  video_files =
      record {
        session_id = 1;
        file = record {
          finished_take_id = 1;
          camera_identity_id = 10;
          state = VideoFileState.uploading;
          started_at = 1000;
          finished_at = 5000;
        };
      }
      ∷ [];
}

ongoing_db-IsSettled : IsSettled ongoing_db
ongoing_db-IsSettled id t e = elim (Bool-cases (1 == id)) [
  | inl hit ↦ let same : t ≡ take_row Phase.ongoing = ground (arith, e, hit) in rw same refl
  | inr miss ↦ absurd (ground (arith, e, miss))
]

finishes : finish_ongoing_take ongoing 5000 ongoing_db ≡ ok (finished, finished_db)
unfolding finish_ongoing_take finished_files file_state has_uploading initial_state
    new_finished_take new_video_file check_interval replace_ongoing_with_finished finish_row
    insert_video_files insert_video_file naive
finishes = refl

finish_ongoing_take-IsSettled_example : IsSettled finished_db
finish_ongoing_take-IsSettled_example =
    finish_ongoing_take-IsSettled ongoing 5000 ongoing_db (take_row Phase.ongoing)
      ongoing_db-IsSettled refl refl refl {take = finished} {db' = finished_db} finishes
