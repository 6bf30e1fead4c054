-- ===== src/Application/UploadCoordinator/Report.antt =====
-- kinugasa-core/src/application/upload_coordinator.rs: what a reconciliation does to the database, and
-- what it reports.
use kinugasa_recording.Shared.{
  ℕ, ◌+◌, ◌≡◌, refl, ap, ◌∙◌, Bool, true, false, List, [], ◌∷◌, map, length, select, if◌then◌else◌,
  Result, ok, err, arith,
}
use kinugasa_recording.Domain.Values.{Timestamp, ErrorReason}
use kinugasa_recording.Domain.Recording.{StoredObject, UploadOutcome, UploadResult}
use kinugasa_recording.Mysql.Tables.{Db}
use kinugasa_recording.Mysql.Pending.{list_pending_uploads}
use kinugasa_recording.Ports.Repository.{PendingUpload}
use kinugasa_recording.Application.Errors.{ObjectStorageError, UseCaseError, in_repository}
use kinugasa_recording.Application.RecordingState.{persist_upload_result}
use kinugasa_recording.Application.RecordingState.Traces.{Step, Reach}
use kinugasa_recording.Application.Tasks.{Joined, collect_tasks, collect_tasks-ok}
use kinugasa_recording.Application.UploadCoordinator.{
  UploadReconciliationReport, UploadTaskOutcome, result_of, commit, different_contents,
  record_conflict, run_task, UploadTask, run_tasks, count_outcome, count_outcomes, no_report,
  report_of, reconcile_tasks, reconcile_listed, reconcile,
}

commit-Reach :
    (start db : Db) (outcome : UploadTaskOutcome) (result : UploadResult)
    (after : Result UseCaseError Db)
    → persist_upload_result result db ≡ after
    → Reach start db
    → Reach start (commit outcome after db).1
unfolding commit
commit-Reach start db outcome result (ok after) e r = Reach.next r (Step.uploaded result e)
commit-Reach start db outcome result (err error) e r = r

record_conflict-Reach :
    (start db : Db) (upload : PendingUpload) (now : Timestamp)
    (reason : Result UseCaseError ErrorReason)
    → Reach start db
    → Reach start (record_conflict upload now reason db).1
unfolding record_conflict
record_conflict-Reach start db upload now (err error) r = r
record_conflict-Reach start db upload now (ok reason) r =
    let result = result_of upload (UploadOutcome.errored reason) now in
    commit-Reach start db UploadTaskOutcome.errored result (persist_upload_result result db) refl r

run_task-Reach :
    (start db : Db) (upload : PendingUpload) (now : Timestamp)
    (answer : Result ObjectStorageError StoredObject)
    → Reach start db
    → Reach start (run_task upload now answer db).1
unfolding run_task
run_task-Reach start db upload now (ok stored) r =
    let result = result_of upload (UploadOutcome.completed stored) now in
    commit-Reach start db UploadTaskOutcome.completed result (persist_upload_result result db) refl
      r
run_task-Reach start db upload now (err ObjectStorageError.conflict) r =
    record_conflict-Reach start db upload now different_contents r
run_task-Reach start db upload now (err ObjectStorageError.unavailable) r = r
run_task-Reach start db upload now (err ObjectStorageError.unexpected) r = r

run_tasks-Reach :
    (start : Db) (tasks : List UploadTask) (db : Db)
    → Reach start db
    → Reach start (run_tasks tasks db).1
unfolding run_tasks
run_tasks-Reach start [] db r = r
run_tasks-Reach start (task ∷ rest) db r =
    run_tasks-Reach start rest (run_task task.upload task.now task.answer db).1
      (run_task-Reach start db task.upload task.now task.answer r)

reconcile_listed-Reach :
    (listed : Result UseCaseError (List PendingUpload))
    (tasks : List PendingUpload → List UploadTask) (db : Db)
    → Reach db (reconcile_listed listed tasks db).1
unfolding reconcile_listed reconcile_tasks
reconcile_listed-Reach (err error) tasks db = Reach.here
reconcile_listed-Reach (ok pending) tasks db = run_tasks-Reach db (tasks pending) db Reach.here

-- Whatever the object storage answers, a reconciliation takes the database only through units of work
-- that persist the result of an upload, so that what holds of every reachable database holds of the
-- one that it leaves.
pub reconcile-Reach :
    (limit : ℕ) (tasks : List PendingUpload → List UploadTask) (db : Db)
    → Reach db (reconcile limit tasks db).1
unfolding reconcile
reconcile-Reach limit tasks db =
    reconcile_listed-Reach (in_repository (list_pending_uploads limit db)) tasks db

-- The outcome that an answer of the object storage calls for.
abbrev pub outcome_of : Result ObjectStorageError StoredObject → UploadTaskOutcome
outcome_of (ok stored) = UploadTaskOutcome.completed
outcome_of (err ObjectStorageError.conflict) = UploadTaskOutcome.errored
outcome_of (err ObjectStorageError.unavailable) = UploadTaskOutcome.deferred
outcome_of (err ObjectStorageError.unexpected) = UploadTaskOutcome.deferred

abbrev pub outcome_eq : UploadTaskOutcome → UploadTaskOutcome → Bool
outcome_eq UploadTaskOutcome.completed UploadTaskOutcome.completed = true
outcome_eq UploadTaskOutcome.errored UploadTaskOutcome.errored = true
outcome_eq UploadTaskOutcome.deferred UploadTaskOutcome.deferred = true
outcome_eq _ _ = false

-- The number of tasks whose answer calls for an outcome.
abbrev pub number : UploadTaskOutcome → List UploadTask → ℕ
number outcome tasks = length (select (λ task. outcome_eq outcome (outcome_of task.answer)) tasks)

commit-outcome :
    (outcome : UploadTaskOutcome) (after : Result UseCaseError Db) (db : Db)
    {value : UploadTaskOutcome}
    → (commit outcome after db).0 ≡ ok value
    → value ≡ outcome
unfolding commit
commit-outcome outcome (ok after) db h = cc
commit-outcome outcome (err error) db h = cc

record_conflict-outcome :
    (upload : PendingUpload) (now : Timestamp) (reason : Result UseCaseError ErrorReason) (db : Db)
    {value : UploadTaskOutcome}
    → (record_conflict upload now reason db).0 ≡ ok value
    → value ≡ UploadTaskOutcome.errored
unfolding record_conflict
record_conflict-outcome upload now (err error) db h = cc
record_conflict-outcome upload now (ok reason) db {value} h =
    commit-outcome UploadTaskOutcome.errored
      (persist_upload_result (result_of upload (UploadOutcome.errored reason) now) db) db
      {value = value} h

run_task-outcome :
    (upload : PendingUpload) (now : Timestamp) (answer : Result ObjectStorageError StoredObject)
    (db : Db) {value : UploadTaskOutcome}
    → (run_task upload now answer db).0 ≡ ok value
    → value ≡ outcome_of answer
unfolding run_task
run_task-outcome upload now (ok stored) db {value} h =
    commit-outcome UploadTaskOutcome.completed
      (persist_upload_result (result_of upload (UploadOutcome.completed stored) now) db) db
      {value = value} h
run_task-outcome upload now (err ObjectStorageError.conflict) db {value} h =
    record_conflict-outcome upload now different_contents db {value = value} h
run_task-outcome upload now (err ObjectStorageError.unavailable) db h = cc
run_task-outcome upload now (err ObjectStorageError.unexpected) db h = cc

abbrev returned_all : List UploadTaskOutcome → List (Joined UploadTaskOutcome)
returned_all values = map (λ (value : UploadTaskOutcome). Joined.returned (ok value)) values

abbrev head_result : List (Joined UploadTaskOutcome) → Result UseCaseError UploadTaskOutcome
head_result (Joined.returned result ∷ rest) = result
head_result _ = err UseCaseError.task

abbrev tail_of : List (Joined UploadTaskOutcome) → List (Joined UploadTaskOutcome)
tail_of [] = []
tail_of (joined ∷ rest) = rest

run_tasks-outcomes :
    (tasks : List UploadTask) (db : Db) (values : List UploadTaskOutcome)
    → (run_tasks tasks db).0 ≡ returned_all values
    → values ≡ map (λ (task : UploadTask). outcome_of task.answer) tasks
unfolding run_tasks
run_tasks-outcomes [] db [] h = refl
run_tasks-outcomes [] db (value ∷ values) h = cc
run_tasks-outcomes (task ∷ tasks) db [] h = cc
run_tasks-outcomes (task ∷ tasks) db (value ∷ values) h =
    let first =
      run_task-outcome task.upload task.now task.answer db {value = value} (ap head_result h) in
    let rest =
      run_tasks-outcomes tasks (run_task task.upload task.now task.answer db).1 values
        (ap tail_of h) in
    λ i. first i ∷ rest i

count_outcomes-number :
    (tasks : List UploadTask) (r : UploadReconciliationReport)
    → let done = count_outcomes (map (λ (task : UploadTask). outcome_of task.answer) tasks) r in
      (done.completed ≡ r.completed + number UploadTaskOutcome.completed tasks)
      × (done.errored ≡ r.errored + number UploadTaskOutcome.errored tasks)
      × (done.deferred ≡ r.deferred + number UploadTaskOutcome.deferred tasks)
unfolding count_outcomes count_outcome
count_outcomes-number [] r = (omega arith, omega arith, omega arith)
count_outcomes-number (task ∷ tasks) r =
    ground (arith, count_outcomes-number tasks (count_outcome (outcome_of task.answer) r))

report_of-values :
    (outcomes : Result UseCaseError (List UploadTaskOutcome)) {report : UploadReconciliationReport}
    → report_of outcomes ≡ ok report
    → (values : List UploadTaskOutcome) × (outcomes ≡ ok values)
      × (report ≡ count_outcomes values no_report)
unfolding report_of
report_of-values (ok values) h = (values, refl, cc)
report_of-values (err error) h = cc

abbrev once : Bool → ℕ
once b = if b then 1 else 0

one_of :
    (outcome : UploadTaskOutcome)
    → once (outcome_eq UploadTaskOutcome.completed outcome)
        + once (outcome_eq UploadTaskOutcome.errored outcome)
        + once (outcome_eq UploadTaskOutcome.deferred outcome)
      ≡ 1
one_of UploadTaskOutcome.completed = omega arith
one_of UploadTaskOutcome.errored = omega arith
one_of UploadTaskOutcome.deferred = omega arith

number-length :
    (tasks : List UploadTask)
    → number UploadTaskOutcome.completed tasks
        + number UploadTaskOutcome.errored tasks
        + number UploadTaskOutcome.deferred tasks
      ≡ length tasks
number-length [] = omega arith
number-length (task ∷ tasks) = ground (arith, number-length tasks, one_of (outcome_of task.answer))

-- When a reconciliation reports, it counts every task once: the completed ones are those whose upload
-- the object storage has stored, the errored ones those that it refused as a conflict, and the
-- deferred ones those for which it was unavailable or failed otherwise.
pub reconcile_tasks-report :
    (tasks : List UploadTask) (db : Db) {report : UploadReconciliationReport}
    → (reconcile_tasks tasks db).0 ≡ ok report
    → (report.completed ≡ number UploadTaskOutcome.completed tasks)
      × (report.errored ≡ number UploadTaskOutcome.errored tasks)
      × (report.deferred ≡ number UploadTaskOutcome.deferred tasks)
      × (report.completed + report.errored + report.deferred ≡ length tasks)
unfolding reconcile_tasks
reconcile_tasks-report tasks db {report} h =
    let (values, collected, same) =
      report_of-values (collect_tasks (run_tasks tasks db).0) {report = report} h in
    let all =
      run_tasks-outcomes tasks db values
        (collect_tasks-ok (run_tasks tasks db).0 {values = values} collected) in
    let (a, b, c) = count_outcomes-number tasks no_report in
    let is = same ∙ ap (λ (t : List UploadTaskOutcome). count_outcomes t no_report) all in
    let completed = ap (λ (t : UploadReconciliationReport). t.completed) is ∙ a in
    let errored = ap (λ (t : UploadReconciliationReport). t.errored) is ∙ b in
    let deferred = ap (λ (t : UploadReconciliationReport). t.deferred) is ∙ c in
    (
      omega (arith, completed),
      omega (arith, errored),
      omega (arith, deferred),
      omega (arith, completed, errored, deferred, number-length tasks),
    )
