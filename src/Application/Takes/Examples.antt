-- ===== src/Application/Takes/Examples.antt =====
-- A session in which a take is started and finished, and its video file uploaded.
use kinugasa_recording.Shared.{◌≡◌, refl, true, List, [], ◌∷◌, map, codes, ok, text_eq}
use kinugasa_recording.Domain.Values.{
  new_session_name, new_take_name, new_camera_name, new_resource_name, resource_name,
  ends_alphanumeric, is_lower, is_inner, is_alphanumeric,
}
use kinugasa_recording.Domain.Camera.{new_camera}
use kinugasa_recording.Domain.Recording.{check_interval, new_finalized_recording}
use kinugasa_recording.Domain.Take.{
  RecordingCamera, FinishedTakeState, new_ongoing_take, check_recording_cameras, is_member,
  new_finished_take, new_video_file, is_uploading, is_errored,
}
use kinugasa_recording.Mysql.Tables.{Db, Phase, order_by, naive, insert_sorted}
use kinugasa_recording.Mysql.Takes.{
  insert_ongoing_take, insert_recording_cameras, insert_recording_camera, get_take_for_update,
  snapshot, get_ongoing, load_found, load_ongoing, replace_ongoing_with_finished,
  delete_recording_cameras, finish_row, insert_video_files, insert_video_file, save_finished_take,
}
use kinugasa_recording.Mysql.Recordings.{
  get_recording_camera_for_update, save_recording_camera, get_finalized_recording_for_update,
  get_video_file_for_update, insert_finalized_recording, save_video_file,
  list_video_files_for_take_for_update,
}
use kinugasa_recording.Mysql.Cameras.{get_camera_by_name, load_camera}
use kinugasa_recording.Mysql.Pending.{list_pending_uploads, pending_rows, into_all, into_pending}
use kinugasa_recording.Ports.Repository.{PendingUpload, new_pending_upload}
use kinugasa_recording.Application.RecordingState.{
  persist_recording_started, finish_ongoing_take, finished_files, initial_state, has_uploading,
  file_state, stage_finalized_recording, get_finished_for_update, stage_row, stage_file,
  same_finalized_recording, timestamp_micros, persist_upload_result, settle_file, wanted,
  converged_state, converge_finished_take,
}
use kinugasa_recording.Application.RecordingState.Examples.{
  uploading_db, finalized, stored, take_row,
}
use kinugasa_recording.Application.RecordingState.Traces.{Reach}
use kinugasa_recording.Application.UploadCoordinator.{
  UploadTask, reconcile, reconcile_listed, reconcile_tasks, run_tasks, run_task, commit,
}
use kinugasa_recording.Application.Takes.{
  start_take, prepare_take, insert_take, start_inserted, camera_names_of, are_unique, get_session,
  recording_cameras, start_tasks, dedup, text_le, start_task, commit_unit, finish_take,
  finish_first, finish_rest, finish_tasks, finish_task,
}
use kinugasa_recording.Application.Takes.Histories.{UseCases, UseCases-Reach}
use kinugasa_recording.Application.Takes.Finishing.{has_distinct_ids}

abbrev idle_db : Db
idle_db = record uploading_db {
  takes = [];
  recording_cameras = [];
  video_files = [];
  finalized_recordings = [];
}

abbrev as_given : List RecordingCamera → List RecordingCamera
as_given cameras = cameras

abbrev started_db : Db
started_db =
    (start_take 1 1000 (λ camera_id. ok 1000) as_given (codes "s") (codes "t") (codes "c" ∷ [])
      idle_db).1

abbrev finished_db : Db
finished_db = (finish_take 5000 (λ camera_id. ok finalized) as_given (codes "s") started_db).1

abbrev uploads_of : List PendingUpload → List UploadTask
uploads_of =
    map (λ (pending : PendingUpload). record { upload = pending; now = 9000; answer = ok stored })

abbrev uploaded_db : Db
uploaded_db = (reconcile 32 uploads_of finished_db).1

distinct : has_distinct_ids started_db.takes ≡ true
unfolding start_take prepare_take insert_take start_inserted camera_names_of are_unique get_session
    recording_cameras new_session_name new_take_name new_ongoing_take insert_ongoing_take
    start_tasks new_camera_name dedup text_le order_by text_eq get_camera_by_name new_resource_name
    check_recording_cameras insert_recording_cameras naive start_task insert_sorted load_camera
    resource_name is_member insert_recording_camera commit_unit persist_recording_started new_camera
    ends_alphanumeric is_lower get_take_for_update get_recording_camera_for_update
    save_recording_camera is_inner is_alphanumeric snapshot
distinct = refl

uploaded : uploaded_db.takes ≡ take_row (Phase.finished FinishedTakeState.completed 5000) ∷ []
unfolding start_take prepare_take insert_take start_inserted camera_names_of are_unique get_session
    recording_cameras new_session_name new_take_name new_ongoing_take insert_ongoing_take
    start_tasks new_camera_name dedup text_le order_by text_eq get_camera_by_name new_resource_name
    check_recording_cameras insert_recording_cameras naive start_task insert_sorted load_camera
    resource_name is_member insert_recording_camera commit_unit persist_recording_started new_camera
    ends_alphanumeric is_lower get_take_for_update get_recording_camera_for_update
    save_recording_camera is_inner is_alphanumeric snapshot finish_take finish_first finish_rest
    get_ongoing finish_ongoing_take finish_tasks load_found load_ongoing finished_files
    initial_state new_finished_take replace_ongoing_with_finished has_uploading
    delete_recording_cameras finish_task new_video_file file_state check_interval finish_row
    insert_video_files stage_finalized_recording insert_video_file get_finished_for_update stage_row
    get_finalized_recording_for_update get_video_file_for_update stage_file same_finalized_recording
    insert_finalized_recording is_uploading save_video_file timestamp_micros reconcile
    list_pending_uploads reconcile_listed pending_rows into_all reconcile_tasks into_pending
    run_tasks new_finalized_recording new_pending_upload run_task commit persist_upload_result
    settle_file wanted list_video_files_for_take_for_update converged_state save_finished_take
    is_errored converge_finished_take
uploaded = refl

UseCases-Reach_example : Reach idle_db uploaded_db
UseCases-Reach_example = UseCases-Reach (
    UseCases.reconciled 32 uploads_of (
      UseCases.finished_take 5000 (λ camera_id. ok finalized) as_given (codes "s")
        {before = started_db} distinct
        (UseCases.started_take 1 1000 (λ camera_id. ok 1000) as_given (codes "s") (codes "t")
          (codes "c" ∷ []) {before = idle_db} refl UseCases.none_yet)))
