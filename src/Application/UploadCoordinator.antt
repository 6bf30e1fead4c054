-- ===== src/Application/UploadCoordinator.antt =====
-- kinugasa-core/src/application/upload_coordinator.rs: `reconcile`. What the object storage answers to
-- a task, and the time that the task reads, are inputs; the tasks commit one after another.
pub mod Report
pub mod Examples
use kinugasa_recording.Shared.{ℕ, ◌+◌, List, [], ◌∷◌, map, codes, Result, ok, err, ◌>>=◌}
use kinugasa_recording.Domain.Values.{Timestamp, ErrorReason, new_error_reason}
use kinugasa_recording.Domain.Recording.{StoredObject, UploadOutcome, UploadResult}
use kinugasa_recording.Mysql.Tables.{Db}
use kinugasa_recording.Mysql.Pending.{list_pending_uploads}
use kinugasa_recording.Ports.Repository.{PendingUpload}
use kinugasa_recording.Application.Errors.{
  ObjectStorageError, UseCaseError, in_repository, validated,
}
use kinugasa_recording.Application.RecordingState.{persist_upload_result}
use kinugasa_recording.Application.Tasks.{Joined, collect_tasks}

pub record UploadReconciliationReport : Type 0 where
  pub completed : ℕ
  pub errored : ℕ
  pub deferred : ℕ

pub data UploadTaskOutcome : Type 0 where
  completed errored deferred : UploadTaskOutcome

-- The result that is persisted for an outcome.
abbrev pub result_of : PendingUpload → UploadOutcome → Timestamp → UploadResult
result_of upload outcome now = record {
  take_id = upload.recording.take_id;
  camera_identity_id = upload.recording.camera_identity_id;
  session_id = upload.recording.session_id;
  outcome = outcome;
  observed_at = now;
}

-- The unit of work of a task: an error leaves the tables as they were.
unfoldable pub commit :
    UploadTaskOutcome → Result UseCaseError Db → Db → Result UseCaseError UploadTaskOutcome × Db
commit outcome (ok after) db = (ok outcome, after)
commit outcome (err error) db = (err error, db)

unfoldable pub different_contents : Result UseCaseError ErrorReason
different_contents =
    validated (new_error_reason (codes "object already exists with different contents"))

unfoldable pub record_conflict :
    PendingUpload
    → Timestamp
    → Result UseCaseError ErrorReason
    → Db
    → Result UseCaseError UploadTaskOutcome × Db
unfolding commit
record_conflict upload now (err error) db = (err error, db)
record_conflict upload now (ok reason) db =
    commit UploadTaskOutcome.errored
      (persist_upload_result (result_of upload (UploadOutcome.errored reason) now) db) db

-- A spawned task.
unfoldable pub run_task :
    PendingUpload
    → Timestamp
    → Result ObjectStorageError StoredObject
    → Db
    → Result UseCaseError UploadTaskOutcome × Db
unfolding record_conflict different_contents commit
run_task upload now (ok stored) db =
    commit UploadTaskOutcome.completed
      (persist_upload_result (result_of upload (UploadOutcome.completed stored) now) db) db
run_task upload now (err ObjectStorageError.conflict) db =
    record_conflict upload now different_contents db
run_task upload now (err ObjectStorageError.unavailable) db = (ok UploadTaskOutcome.deferred, db)
run_task upload now (err ObjectStorageError.unexpected) db = (ok UploadTaskOutcome.deferred, db)

-- A task with the answer of the object storage.
pub record UploadTask : Type 0 where
  pub upload : PendingUpload
  pub now : Timestamp
  pub answer : Result ObjectStorageError StoredObject

-- The tasks in the order in which they commit.
unfoldable pub run_tasks : List UploadTask → Db → List (Joined UploadTaskOutcome) × Db
unfolding run_task
run_tasks [] db = ([], db)
run_tasks (task ∷ rest) db =
    let (result, after) = run_task task.upload task.now task.answer db in
    let (results, last) = run_tasks rest after in (Joined.returned result ∷ results, last)

-- The counting at the end.
unfoldable pub count_outcome :
    UploadTaskOutcome → UploadReconciliationReport → UploadReconciliationReport
count_outcome UploadTaskOutcome.completed r = record r { completed = r.completed + 1 }
count_outcome UploadTaskOutcome.errored r = record r { errored = r.errored + 1 }
count_outcome UploadTaskOutcome.deferred r = record r { deferred = r.deferred + 1 }

unfoldable pub count_outcomes :
    List UploadTaskOutcome → UploadReconciliationReport → UploadReconciliationReport
unfolding count_outcome
count_outcomes [] r = r
count_outcomes (outcome ∷ rest) r = count_outcomes rest (count_outcome outcome r)

abbrev pub no_report : UploadReconciliationReport
no_report = record { completed = 0; errored = 0; deferred = 0 }

unfoldable pub report_of :
    Result UseCaseError (List UploadTaskOutcome) → Result UseCaseError UploadReconciliationReport
unfolding count_outcomes
report_of outcomes = do values ← outcomes; ok (count_outcomes values no_report)

-- From the tasks of the pending uploads on.
unfoldable pub reconcile_tasks :
    List UploadTask → Db → Result UseCaseError UploadReconciliationReport × Db
unfolding run_tasks report_of
reconcile_tasks tasks db =
    let (results, after) = run_tasks tasks db in (report_of (collect_tasks results), after)

-- What follows the first unit of work.
unfoldable pub reconcile_listed :
    Result UseCaseError (List PendingUpload)
    → (List PendingUpload → List UploadTask)
    → Db
    → Result UseCaseError UploadReconciliationReport × Db
unfolding reconcile_tasks
reconcile_listed (err error) tasks db = (err error, db)
reconcile_listed (ok pending) tasks db = reconcile_tasks (tasks pending) db

-- `reconcile`; `tasks` gives the tasks for the uploads that are listed.
unfoldable pub reconcile :
    ℕ
    → (List PendingUpload → List UploadTask)
    → Db
    → Result UseCaseError UploadReconciliationReport × Db
unfolding list_pending_uploads reconcile_listed
reconcile limit tasks db = reconcile_listed (in_repository (list_pending_uploads limit db)) tasks db
