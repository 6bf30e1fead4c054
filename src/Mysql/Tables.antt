-- ===== src/Mysql/Tables.antt =====
-- kinugasa-mysql/migrations and src/model.rs: the tables, as lists of rows in insertion order. A row
-- holds what its columns decode to. A unit of work is a function from the tables to new tables: an
-- error leaves the tables that it started from, as the rollback of a dropped transaction does.
use kinugasa_recording.Shared.{
  ◌*◌, ◌/◌, Bool, true, false, ◌&&◌, List, [], ◌∷◌, Text, leb, ◌==◌, if◌then◌else◌,
}
use kinugasa_recording.Domain.Values.{SessionId, CameraIdentityId, TakeId, Timestamp}
use kinugasa_recording.Domain.Camera.{CameraIdentity, CameraConnection}
use kinugasa_recording.Domain.Recording.{FinalizedRecording}
use kinugasa_recording.Domain.Take.{FinishedTakeState, RecordingCamera, FinishedTake, VideoFile}

pub data RepositoryError : Type 0 where
  not_found conflict corrupt_data unavailable unexpected : RepositoryError

pub data SessionState : Type 0 where
  active inactive : SessionState

pub record Session : Type 0 where
  pub id : SessionId
  pub name : Text
  pub state : SessionState
  pub created_at : Timestamp

-- The columns `phase`, `state`, `finished_at` and `error` of `takes`, under `takes_phase_valid`.
pub data Phase : Type 0 where
  ongoing : Phase
  finished : FinishedTakeState → Timestamp → Phase

pub record TakeRow : Type 0 where
  pub id : TakeId
  pub session_id : SessionId
  pub name : Text
  pub started_at : Timestamp
  pub phase : Phase

pub record RecordingCameraRow : Type 0 where
  pub session_id : SessionId
  pub camera : RecordingCamera

pub record VideoFileRow : Type 0 where
  pub session_id : SessionId
  pub file : VideoFile

pub record Db : Type 0 where
  pub sessions : List Session
  pub camera_identities : List CameraIdentity
  pub camera_connections : List CameraConnection
  pub takes : List TakeRow
  pub recording_cameras : List RecordingCameraRow
  pub video_files : List VideoFileRow
  pub finalized_recordings : List FinalizedRecording

pub data TakeSnapshot : Type 0 where
  ongoing : TakeSnapshot
  finished : FinishedTake → TakeSnapshot

-- A timestamp as a DATETIME(6) column gives it back: in whole microseconds.
unfoldable pub naive : Timestamp → Timestamp
naive value = value / 1000 * 1000

-- The keys of the `WHERE` clauses.
abbrev pub has_id : TakeId → TakeRow → Bool
has_id id row = row.id == id

abbrev pub is_ongoing : Phase → Bool
is_ongoing Phase.ongoing = true
is_ongoing (Phase.finished state finished_at) = false

abbrev pub records : TakeId → CameraIdentityId → RecordingCameraRow → Bool
records take_id camera_id row =
    row.camera.ongoing_take_id == take_id && row.camera.camera_identity_id == camera_id

abbrev pub of_take : TakeId → VideoFileRow → Bool
of_take take_id row = row.file.finished_take_id == take_id

abbrev pub is_file : TakeId → CameraIdentityId → VideoFileRow → Bool
is_file take_id camera_id row =
    row.file.finished_take_id == take_id && row.file.camera_identity_id == camera_id

abbrev pub finalizes : TakeId → CameraIdentityId → FinalizedRecording → Bool
finalizes take_id camera_id row = row.take_id == take_id && row.camera_identity_id == camera_id

-- The foreign keys (take_id, session_id) and (camera_identity_id, session_id).
abbrev pub take_in : TakeId → SessionId → TakeRow → Bool
take_in id session_id row = row.id == id && row.session_id == session_id

abbrev pub identity_in : CameraIdentityId → SessionId → CameraIdentity → Bool
identity_in id session_id row = row.id == id && row.session_id == session_id

-- `ORDER BY`: a stable insertion sort by the test "comes no later than".
unfoldable pub insert_sorted {ℓ} : {A : Type ℓ} → (A → A → Bool) → A → List A → List A
insert_sorted le x [] = x ∷ []
insert_sorted le x (y ∷ ys) = if le x y then x ∷ y ∷ ys else y ∷ insert_sorted le x ys

unfoldable pub order_by {ℓ} : {A : Type ℓ} → (A → A → Bool) → List A → List A
unfolding insert_sorted
order_by le [] = []
order_by le (x ∷ xs) = insert_sorted le x (order_by le xs)

abbrev pub by_camera : VideoFileRow → VideoFileRow → Bool
by_camera a b = leb a.file.camera_identity_id b.file.camera_identity_id
