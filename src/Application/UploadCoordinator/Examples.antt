-- ===== src/Application/UploadCoordinator/Examples.antt =====
-- Two uploads, of which one succeeds and one is put off.
use kinugasa_recording.Shared.{◌≡◌, ◌+◌, refl, length, [], ◌∷◌, List, ok, err, Result}
use kinugasa_recording.Ports.Repository.{PendingUpload}
use kinugasa_recording.Domain.Recording.{StoredObject, check_interval}
use kinugasa_recording.Domain.Take.{new_finished_take, new_video_file, is_uploading, is_errored}
use kinugasa_recording.Mysql.Tables.{naive, order_by, insert_sorted}
use kinugasa_recording.Mysql.Takes.{
  get_take_for_update, snapshot, save_finished_take, delete_recording_cameras,
}
use kinugasa_recording.Mysql.Recordings.{
  get_video_file_for_update, list_video_files_for_take_for_update, save_video_file,
  get_finalized_recording_for_update,
}
use kinugasa_recording.Application.RecordingState.{
  get_finished_for_update, converged_state, converge_finished_take, wanted, settle_file,
  persist_upload_result,
}
use kinugasa_recording.Application.Errors.{ObjectStorageError}
use kinugasa_recording.Application.Tasks.{collect_loop, collect_tasks}
use kinugasa_recording.Application.RecordingState.Examples.{
  uploading_file, finalized, stored, uploading_db,
}
use kinugasa_recording.Application.UploadCoordinator.{
  UploadReconciliationReport, UploadTask, UploadTaskOutcome, commit, run_task, run_tasks,
  count_outcome, count_outcomes, report_of, reconcile_tasks,
}
use kinugasa_recording.Application.UploadCoordinator.Report.{number, reconcile_tasks-report}

abbrev pub uploading : PendingUpload
uploading = record { recording = finalized; video_file = uploading_file }

abbrev pub task_for : Result ObjectStorageError StoredObject → UploadTask
task_for answer = record { upload = uploading; now = 9000; answer = answer }

abbrev tasks : List UploadTask
tasks = task_for (ok stored) ∷ task_for (err ObjectStorageError.unavailable) ∷ []

abbrev report : UploadReconciliationReport
report = record { completed = 1; errored = 0; deferred = 1 }

reported : (reconcile_tasks tasks uploading_db).0 ≡ ok report
unfolding reconcile_tasks run_tasks run_task commit report_of count_outcomes count_outcome
    collect_tasks collect_loop persist_upload_result get_finished_for_update get_take_for_update
    snapshot new_finished_take check_interval get_finalized_recording_for_update
    get_video_file_for_update wanted settle_file is_uploading new_video_file converge_finished_take
    list_video_files_for_take_for_update order_by insert_sorted converged_state is_errored
    save_finished_take delete_recording_cameras save_video_file naive
reported = refl

reconcile_tasks-report_example :
    (report.completed ≡ number UploadTaskOutcome.completed tasks)
    × (report.errored ≡ number UploadTaskOutcome.errored tasks)
    × (report.deferred ≡ number UploadTaskOutcome.deferred tasks)
    × (report.completed + report.errored + report.deferred ≡ length tasks)
reconcile_tasks-report_example =
    reconcile_tasks-report tasks uploading_db {report = report} reported
