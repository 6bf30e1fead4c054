-- ===== src/Application/Takes/Tasks.antt =====
-- kinugasa-core/src/application/take.rs: the units of work of the tasks of a take.
use kinugasa_recording.Shared.{◌≡◌, refl, List, [], ◌∷◌, Text, Result, ok, err, >>=-eq-ok}
use kinugasa_recording.Domain.Values.{CameraIdentityId, TakeId, Timestamp, new_error_reason}
use kinugasa_recording.Domain.Recording.{FinalizedRecording}
use kinugasa_recording.Domain.Take.{RecordingCamera}
use kinugasa_recording.Mysql.Tables.{Db}
use kinugasa_recording.Application.Errors.{UseCaseError, validated}
use kinugasa_recording.Application.RecordingState.{
  persist_recording_started, stage_finalized_recording,
}
use kinugasa_recording.Application.RecordingState.Traces.{Step, Reach}
use kinugasa_recording.Application.Takes.{
  commit_unit, record_recording_failure, start_task, start_tasks, finish_task, finish_tasks,
}

failure-Reach :
    (start db : Db) (take_id : TakeId) (camera_id : CameraIdentityId) (message : Text)
    (after : Result UseCaseError Db)
    → record_recording_failure take_id camera_id message db ≡ after
    → Reach start db
    → Reach start (commit_unit after db).1
unfolding commit_unit record_recording_failure
failure-Reach start db take_id camera_id message (err error) e r = r
failure-Reach start db take_id camera_id message (ok after) e r =
    let (reason, _, done) = >>=-eq-ok (validated (new_error_reason message)) _ e in
    Reach.next r (Step.recording_failed take_id camera_id reason done)

started-Reach :
    (start db : Db) (take_id : TakeId) (camera_id : CameraIdentityId) (at : Timestamp)
    (after : Result UseCaseError Db)
    → persist_recording_started take_id camera_id at db ≡ after
    → Reach start db
    → Reach start (commit_unit after db).1
unfolding commit_unit
started-Reach start db take_id camera_id at (err error) e r = r
started-Reach start db take_id camera_id at (ok after) e r =
    Reach.next r (Step.recording_started take_id camera_id at e)

staged-Reach :
    (start db : Db) (recording : FinalizedRecording) (after : Result UseCaseError Db)
    → stage_finalized_recording recording db ≡ after
    → Reach start db
    → Reach start (commit_unit after db).1
unfolding commit_unit
staged-Reach start db recording (err error) e r = r
staged-Reach start db recording (ok after) e r = Reach.next r (Step.staged recording e)

start_task-Reach :
    (start db : Db) (take_id : TakeId) (camera_id : CameraIdentityId)
    (answer : Result Text Timestamp)
    → Reach start db
    → Reach start (start_task take_id camera_id answer db).1
unfolding start_task
start_task-Reach start db take_id camera_id (ok at) r =
    started-Reach start db take_id camera_id at (persist_recording_started take_id camera_id at db)
      refl r
start_task-Reach start db take_id camera_id (err message) r =
    failure-Reach start db take_id camera_id message
      (record_recording_failure take_id camera_id message db) refl r

finish_task-Reach :
    (start db : Db) (take_id : TakeId) (camera_id : CameraIdentityId)
    (answer : Result Text FinalizedRecording)
    → Reach start db
    → Reach start (finish_task take_id camera_id answer db).1
unfolding finish_task
finish_task-Reach start db take_id camera_id (ok recording) r =
    staged-Reach start db recording (stage_finalized_recording recording db) refl r
finish_task-Reach start db take_id camera_id (err message) r =
    failure-Reach start db take_id camera_id message
      (record_recording_failure take_id camera_id message db) refl r

pub start_tasks-Reach :
    (start : Db) (take_id : TakeId) (answer : CameraIdentityId → Result Text Timestamp)
    (cameras : List RecordingCamera) (db : Db)
    → Reach start db
    → Reach start (start_tasks take_id answer cameras db).1
unfolding start_tasks
start_tasks-Reach start take_id answer [] db r = r
start_tasks-Reach start take_id answer (camera ∷ cameras) db r =
    let id = camera.camera_identity_id in
    start_tasks-Reach start take_id answer cameras (start_task take_id id (answer id) db).1
      (start_task-Reach start db take_id id (answer id) r)

pub finish_tasks-Reach :
    (start : Db) (take_id : TakeId) (answer : CameraIdentityId → Result Text FinalizedRecording)
    (cameras : List RecordingCamera) (db : Db)
    → Reach start db
    → Reach start (finish_tasks take_id answer cameras db).1
unfolding finish_tasks
finish_tasks-Reach start take_id answer [] db r = r
finish_tasks-Reach start take_id answer (camera ∷ cameras) db r =
    let id = camera.camera_identity_id in
    finish_tasks-Reach start take_id answer cameras (finish_task take_id id (answer id) db).1
      (finish_task-Reach start db take_id id (answer id) r)
