-- ===== src/Application/Takes/Histories.antt =====
-- kinugasa-core/src/application: sequences of use cases on takes and uploads.
use kinugasa_recording.Shared.{ℕ, ◌≡◌, true, List, [], Text, Result}
use kinugasa_recording.Domain.Values.{CameraIdentityId, TakeId, Timestamp}
use kinugasa_recording.Domain.Recording.{FinalizedRecording}
use kinugasa_recording.Domain.Take.{RecordingCamera}
use kinugasa_recording.Mysql.Tables.{Db}
use kinugasa_recording.Application.RecordingState.Settled.{files_of}
use kinugasa_recording.Application.RecordingState.Traces.{Reach}
use kinugasa_recording.Ports.Repository.{PendingUpload}
use kinugasa_recording.Application.UploadCoordinator.{UploadTask, reconcile}
use kinugasa_recording.Application.UploadCoordinator.Report.{reconcile-Reach}
use kinugasa_recording.Application.Takes.{start_take, finish_take}
use kinugasa_recording.Application.Takes.Starting.{start_take-Reach}
use kinugasa_recording.Application.Takes.Finishing.{has_distinct_ids, finish_take-Reach}

Reach-trans : {a b c : Db} → Reach a b → Reach b c → Reach a c
Reach-trans r Reach.here = r
Reach-trans r (Reach.next s step) = Reach.next (Reach-trans r s) step

-- Sequences of whole use cases, each with any answers of the media server and of the object storage,
-- and any order of its tasks. A take starts under an identifier to which no video file
-- refers; a take is finished in a database whose takes have different identifiers.
pub data UseCases (db : Db) : Db → Type 0 where
  none_yet : UseCases db db
  started_take :
      (take_id : TakeId) (now : Timestamp) (answer : CameraIdentityId → Result Text Timestamp)
      (order : List RecordingCamera → List RecordingCamera) (session take : Text)
      (names : List Text) {before : Db}
      → files_of take_id before ≡ []
      → UseCases db before
      → UseCases db (start_take take_id now answer order session take names before).1
  finished_take :
      (now : Timestamp) (answer : CameraIdentityId → Result Text FinalizedRecording)
      (order : List RecordingCamera → List RecordingCamera) (session : Text) {before : Db}
      → has_distinct_ids before.takes ≡ true
      → UseCases db before
      → UseCases db (finish_take now answer order session before).1
  reconciled :
      (limit : ℕ) (tasks : List PendingUpload → List UploadTask) {before : Db}
      → UseCases db before
      → UseCases db (reconcile limit tasks before).1

-- Any sequence of starting takes, finishing takes and reconciling uploads, with any answers of the
-- media server and of the object storage and any order of the tasks, takes the database only through
-- the units of work on takes and recordings. A take is started under an identifier to which no video
-- file refers, and finished while the takes in the database have different identifiers.
pub UseCases-Reach : {db db' : Db} → UseCases db db' → Reach db db'
UseCases-Reach UseCases.none_yet = Reach.here
UseCases-Reach {db}
      (UseCases.started_take take_id now answer order session take names {before} fresh h) =
    start_take-Reach db take_id now answer order session take names before fresh (UseCases-Reach h)
UseCases-Reach {db} (UseCases.finished_take now answer order session {before} distinct h) =
    finish_take-Reach db before now answer order session distinct (UseCases-Reach h)
UseCases-Reach (UseCases.reconciled limit tasks {before} h) =
    Reach-trans (UseCases-Reach h) (reconcile-Reach limit tasks before)
