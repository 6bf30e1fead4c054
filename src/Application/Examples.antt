-- ===== src/Application/Examples.antt =====
-- The use cases on takes of two cameras.
use kinugasa_recording.Shared.{
  ◌≡◌, ◌≢◌, refl, true, none, some, [], ◌∷◌, codes, text_eq, is_whitespace, is_blank, ok, arith,
  is_empty, ◌||◌, ◌&&◌, any,
}
use kinugasa_recording.Domain.Values.{
  new_error_reason, new_non_empty, new_session_name, new_camera_name, new_resource_name,
  resource_name, is_lower, is_alphanumeric, is_inner, ends_alphanumeric,
}
use kinugasa_recording.Domain.Camera.{
  Camera, CameraInputState, CameraConnectionState, apply_input_state, observed, endpoint,
  new_camera, request_deletion,
}
use kinugasa_recording.Domain.Recording.{check_interval}
use kinugasa_recording.Domain.Take.{
  VideoFileState, new_finished_take, new_video_file, is_uploading, is_errored, FinishedTakeState,
  RecordingCameraState, RecordingCamera,
}
use kinugasa_recording.Mysql.Tables.{Db, Phase, TakeRow, naive, order_by, insert_sorted}
use kinugasa_recording.Mysql.Takes.{
  get_take_for_update, snapshot, save_finished_take, delete_recording_cameras,
}
use kinugasa_recording.Mysql.Recordings.{
  get_video_file_for_update, list_video_files_for_take_for_update, save_video_file,
  get_recording_camera_for_update, save_recording_camera, get_ongoing_recording_for_camera,
  list_uploading_video_files_for_camera, list_active_recordings,
}
use kinugasa_recording.Mysql.Cameras.{
  get_camera_by_id_for_update, get_camera_by_name, load_camera, save_camera_connection,
}
use kinugasa_recording.Application.RecordingState.{
  upload_failure, get_finished_for_update, converged_state, converge_finished_take, fail_in_state,
  fail_video_file, fail_upload, fail_recording_row, fail_file_of, persist_recording_failure,
}
use kinugasa_recording.Application.RecordingState.Settled.{IsSettled}
use kinugasa_recording.Application.RecordingState.Examples.{
  uploading_db, uploading_db-IsSettled, stored, uploaded_file, uploading_file, errored_db,
  connection, take_row, running,
}
use kinugasa_recording.Application.Cameras.{fail_uploads, abort_uploads, delete_camera}
use kinugasa_recording.Application.MediaCoordinator.{
  recover_recordings, recording_error, fail_active, fail_ongoing, process_event, fail_recordings,
  recording_interrupted,
}
use kinugasa_recording.Application.MediaCoordinator.Recovery.{
  IsUploaded, recover_recordings-IsUploaded,
}
use kinugasa_recording.Mysql.ActiveRecordings.{active}
use kinugasa_recording.Application.MediaCoordinator.Completion.{recover_recordings-active}
use kinugasa_recording.Application.MediaCoordinator.Interruption.{
  keeps_recording, process_event-active,
}
use kinugasa_recording.Application.Settling.{delete_camera-IsSettled}

found : get_video_file_for_update 1 11 uploading_db ≡ some uploaded_file
unfolding get_video_file_for_update
found = refl

uploading_db-IsUploaded : IsUploaded 1 11 stored uploading_db
uploading_db-IsUploaded = ((λ t e. ground (arith, e)), (uploaded_file, found, refl))

recover_recordings-IsUploaded_example : recover_recordings uploading_db ≢ ok uploading_db
recover_recordings-IsUploaded_example =
    recover_recordings-IsUploaded 1 11 stored uploading_db uploading_db uploading_db-IsUploaded refl

-- A restart with a finished take whose file is uploading, and an ongoing take of another camera.
abbrev second_take : Phase → TakeRow
second_take phase = record (take_row phase) { id = 2; name = codes "u" }

abbrev second : RecordingCamera
second = record (running 11) { ongoing_take_id = 2 }

abbrev interrupted_db : Db
interrupted_db = record uploading_db {
  takes =
      take_row (Phase.finished FinishedTakeState.uploading 5000) ∷ second_take Phase.ongoing ∷ [];
  recording_cameras =
      record { session_id = 1; camera = running 10 }
      ∷ record { session_id = 1; camera = second }
      ∷ [];
  video_files = record { session_id = 1; file = uploading_file } ∷ [];
}

abbrev interrupted : RecordingCameraState
interrupted = RecordingCameraState.errored (codes "recording interrupted by process restart")

abbrev recovered_db : Db
recovered_db = record interrupted_db {
  takes =
      take_row
        (Phase.finished (FinishedTakeState.errored (codes "one or more video uploads failed")) 5000)
      ∷ second_take Phase.ongoing
      ∷ [];
  recording_cameras =
      record { session_id = 1; camera = record second { state = interrupted } } ∷ [];
  video_files =
      record {
        session_id = 1;
        file = record uploading_file {
          state = VideoFileState.errored (codes "recording interrupted by process restart");
        };
      }
      ∷ [];
}

recovers : recover_recordings interrupted_db ≡ ok recovered_db
unfolding recover_recordings fail_recordings list_active_recordings order_by insert_sorted
    new_error_reason new_non_empty is_blank is_whitespace recording_interrupted
    persist_recording_failure fail_recording_row fail_file_of get_recording_camera_for_update
    save_recording_camera fail_video_file fail_in_state get_take_for_update snapshot
    new_finished_take check_interval get_video_file_for_update is_uploading new_video_file
    converge_finished_take list_video_files_for_take_for_update converged_state is_errored
    save_finished_take delete_recording_cameras save_video_file naive upload_failure
recovers = refl

recover_recordings-active_example : list_active_recordings recovered_db ≡ []
recover_recordings-active_example =
    recover_recordings-active interrupted_db {db' = recovered_db} refl recovers

-- The camera of the ongoing take loses its input.
abbrev waiting_db : Db
waiting_db = record interrupted_db {
  camera_connections =
      connection 10
      ∷ record (connection 11) { state = CameraConnectionState.waiting (codes "rist") }
      ∷ [];
  recording_cameras =
      record { session_id = 1; camera = running 10 }
      ∷ record {
        session_id = 1;
        camera = record second {
          state = RecordingCameraState.errored (codes "camera input disconnected");
        };
      }
      ∷ [];
}

waits : process_event 11 CameraInputState.waiting interrupted_db ≡ ok waiting_db
unfolding process_event get_camera_by_id_for_update load_camera new_camera apply_input_state
    observed endpoint recording_error new_error_reason new_non_empty is_blank is_whitespace
    fail_ongoing fail_active get_ongoing_recording_for_camera order_by insert_sorted
    save_camera_connection persist_recording_failure fail_recording_row fail_file_of
    get_recording_camera_for_update save_recording_camera get_take_for_update snapshot naive
waits = refl

process_event-active_example : any (active 2 11) waiting_db.recording_cameras ≡ (
    keeps_recording CameraInputState.waiting && any (active 2 11) interrupted_db.recording_cameras)
process_event-active_example =
    process_event-active 2 11 CameraInputState.waiting interrupted_db {db' = waiting_db} refl refl
      waits

-- The camera is deleted by force, which fails its upload.
abbrev deleted_db : Db
deleted_db = record errored_db {
  video_files =
      record {
        session_id = 1;
        file = record uploading_file {
          state = VideoFileState.errored (codes "upload aborted by forced camera deletion");
        };
      }
      ∷ record { session_id = 1; file = uploaded_file }
      ∷ [];
  camera_connections =
      record (connection 10) { deletion_requested_at = some 9000 } ∷ connection 11 ∷ [];
}

deletes : delete_camera (codes "s") (codes "c") true 9000 uploading_db ≡ ok deleted_db
unfolding delete_camera new_session_name new_camera_name new_resource_name resource_name is_lower
    is_alphanumeric is_inner ends_alphanumeric get_camera_by_name text_eq load_camera new_camera
    get_ongoing_recording_for_camera order_by insert_sorted list_uploading_video_files_for_camera
    abort_uploads fail_uploads fail_upload fail_video_file fail_in_state get_finished_for_update
    get_take_for_update snapshot new_finished_take check_interval get_video_file_for_update
    is_uploading new_video_file converge_finished_take list_video_files_for_take_for_update
    converged_state is_errored save_finished_take delete_recording_cameras save_video_file naive
    upload_failure new_error_reason new_non_empty is_blank is_whitespace save_camera_connection
    request_deletion
deletes = refl

delete_camera-IsSettled_example :
    ((camera : Camera) × (get_camera_by_name (codes "s") (codes "c") uploading_db ≡ ok camera)
      × (get_ongoing_recording_for_camera camera.identity.id uploading_db ≡ ok none)
      × ((is_empty (list_uploading_video_files_for_camera camera.identity.id uploading_db) || true)
          ≡ true))
    × IsSettled deleted_db
delete_camera-IsSettled_example =
    delete_camera-IsSettled (codes "s") (codes "c") true 9000 uploading_db {db' = deleted_db}
      uploading_db-IsSettled deletes
