-- ===== src/Application/RecordingState/Examples.antt =====
-- A take of two cameras, one of whose video files has been uploaded, through the transitions.
use kinugasa_recording.Shared.{
  ℕ, ◌≡◌, refl, false, none, some, [], ◌∷◌, ◌==◌, codes, is_whitespace, is_blank, ok, arith,
  Bool-cases, inl, inr,
}
use kinugasa_recording.Domain.Values.{ErrorReason, new_error_reason, new_non_empty}
use kinugasa_recording.Domain.Camera.{CameraIdentity, CameraConnection, CameraConnectionState}
use kinugasa_recording.Domain.Recording.{
  FinalizedRecording, StoredObject, UploadOutcome, UploadResult, check_interval,
}
use kinugasa_recording.Domain.Take.{
  RecordingCameraState, RecordingCamera, FinishedTakeState, VideoFileState, VideoFile,
  new_finished_take, new_video_file, is_uploading, is_errored,
}
use kinugasa_recording.Mysql.Tables.{
  SessionState, Phase, TakeRow, Db, naive, order_by, insert_sorted,
}
use kinugasa_recording.Mysql.Takes.{
  get_take_for_update, snapshot, save_finished_take, delete_recording_cameras,
}
use kinugasa_recording.Mysql.Recordings.{
  get_video_file_for_update, list_video_files_for_take_for_update, save_video_file,
  get_finalized_recording_for_update,
}
use kinugasa_recording.Application.RecordingState.{
  upload_failure, get_finished_for_update, converged_state, converge_finished_take, fail_in_state,
  fail_video_file, fail_upload, wanted, settle_file, persist_upload_result,
}
use kinugasa_recording.Application.RecordingState.Settled.{IsSettled}
use kinugasa_recording.Application.RecordingState.Redelivery.{persist_upload_result_again}
use kinugasa_recording.Application.RecordingState.Traces.{Step, Reach, Reach-IsSettled}
use kinugasa_recording.Application.RecordingState.Final.{Reach-IsKept}

abbrev pub stored : StoredObject
stored = record { object_key = codes "k"; hash = []; size = 7 }

abbrev pub uploading_file : VideoFile
uploading_file = record {
  finished_take_id = 1;
  camera_identity_id = 10;
  state = VideoFileState.uploading;
  started_at = 1000;
  finished_at = 5000;
}

abbrev pub uploaded_file : VideoFile
uploaded_file = record {
  finished_take_id = 1;
  camera_identity_id = 11;
  state = VideoFileState.completed stored;
  started_at = 1000;
  finished_at = 5000;
}

abbrev pub finalized : FinalizedRecording
finalized = record {
  take_id = 1;
  camera_identity_id = 10;
  session_id = 1;
  started_at = 1000;
  finished_at = 4000;
  relative_path = codes "a";
  media_type = codes "b";
}

abbrev pub running : ℕ → RecordingCamera
running camera_id = record {
  ongoing_take_id = 1;
  camera_identity_id = camera_id;
  state = RecordingCameraState.recording;
  started_at = 1000;
}

abbrev identity : ℕ → CameraIdentity
identity id = record { id = id; session_id = 1; name = codes "c"; created_at = 0 }

abbrev pub connection : ℕ → CameraConnection
connection id = record {
  camera_identity_id = id;
  state = CameraConnectionState.connected (codes "rist");
  virtual_port = none;
  media_process_id = none;
  deletion_requested_at = none;
}

abbrev pub take_row : Phase → TakeRow
take_row phase = record {
  id = 1;
  session_id = 1;
  name = codes "t";
  started_at = 1000;
  phase = phase;
}

abbrev pub uploading_db : Db
uploading_db = record {
  sessions = record { id = 1; name = codes "s"; state = SessionState.active; created_at = 0 } ∷ [];
  camera_identities = identity 10 ∷ identity 11 ∷ [];
  camera_connections = connection 10 ∷ connection 11 ∷ [];
  takes = take_row (Phase.finished FinishedTakeState.uploading 5000) ∷ [];
  recording_cameras =
      record { session_id = 1; camera = running 10 }
      ∷ record { session_id = 1; camera = running 11 }
      ∷ [];
  video_files =
      record { session_id = 1; file = uploading_file }
      ∷ record { session_id = 1; file = uploaded_file }
      ∷ [];
  finalized_recordings = finalized ∷ [];
}

pub uploading_db-IsSettled : IsSettled uploading_db
unfolding is_uploading is_errored
uploading_db-IsSettled id t e = elim (Bool-cases (1 == id)) [
  | inl hit ↦
      let same : t ≡ take_row (Phase.finished FinishedTakeState.uploading 5000) =
        ground (arith, e, hit) in
      rw same (ground (arith, hit))
  | inr miss ↦ absurd (ground (arith, e, miss))
]

abbrev pub result : UploadResult
result = record {
  take_id = 1;
  camera_identity_id = 10;
  session_id = 1;
  outcome = UploadOutcome.completed stored;
  observed_at = 9000;
}

-- Both files have been uploaded.
abbrev pub completed_db : Db
completed_db = record uploading_db {
  takes = take_row (Phase.finished FinishedTakeState.completed 5000) ∷ [];
  recording_cameras = [];
  video_files =
      record {
        session_id = 1;
        file = record uploading_file { state = VideoFileState.completed stored };
      }
      ∷ record { session_id = 1; file = uploaded_file }
      ∷ [];
}

pub uploads : persist_upload_result result uploading_db ≡ ok completed_db
unfolding persist_upload_result get_finished_for_update get_take_for_update snapshot
    new_finished_take check_interval get_finalized_recording_for_update get_video_file_for_update
    wanted settle_file is_uploading new_video_file converge_finished_take
    list_video_files_for_take_for_update order_by insert_sorted converged_state is_errored
    save_finished_take delete_recording_cameras save_video_file naive
uploads = refl

Reach-IsSettled_example : IsSettled completed_db
Reach-IsSettled_example =
    Reach-IsSettled (Reach.next Reach.here (Step.uploaded result uploads)) uploading_db-IsSettled

found_file : get_video_file_for_update 1 11 uploading_db ≡ some uploaded_file
unfolding get_video_file_for_update
found_file = refl

settled_file : is_uploading (uploaded_file.state) ≡ false
unfolding is_uploading
settled_file = refl

Reach-IsKept_example : get_video_file_for_update 1 11 completed_db ≡ some uploaded_file
Reach-IsKept_example =
    Reach-IsKept 1 11 uploaded_file (Reach.next Reach.here (Step.uploaded result uploads))
      found_file settled_file

persist_upload_result_again_example : persist_upload_result result completed_db ≡ ok completed_db
persist_upload_result_again_example =
    persist_upload_result_again result uploading_db completed_db uploads

abbrev pub reason : ErrorReason
reason = codes "lost"

-- The other file has failed.
abbrev pub errored_db : Db
errored_db = record uploading_db {
  takes =
      take_row
        (Phase.finished (FinishedTakeState.errored (codes "one or more video uploads failed")) 5000)
      ∷ [];
  recording_cameras = [];
  video_files =
      record {
        session_id = 1;
        file = record uploading_file { state = VideoFileState.errored reason };
      }
      ∷ record { session_id = 1; file = uploaded_file }
      ∷ [];
}

pub fails : fail_upload 1 10 reason uploading_db ≡ ok errored_db
unfolding fail_upload fail_video_file fail_in_state get_finished_for_update get_take_for_update
    snapshot new_finished_take check_interval get_video_file_for_update is_uploading new_video_file
    converge_finished_take list_video_files_for_take_for_update order_by insert_sorted
    converged_state is_errored save_finished_take delete_recording_cameras save_video_file naive
    upload_failure new_error_reason new_non_empty is_blank is_whitespace
fails = refl
