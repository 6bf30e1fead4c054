-- ===== src/Application/Takes.antt =====
-- kinugasa-core/src/application/take.rs: `start_take` and `finish_take`. The new identifier, the time
-- and the answers of the media server are inputs; the tasks of the cameras commit one after another, in
-- the order that `order` gives. The last unit of work of `finish_take`, which reads the take again, is left out.
pub mod Tasks
pub mod Starting
pub mod Finishing
pub mod Histories
pub mod Examples
use kinugasa_recording.Shared.{
  ℕ, Bool, true, false, not, ◌&&◌, ◌||◌, Option, none, some, List, [], ◌∷◌, map, Text, text_eq,
  codes, ltb, ◌==◌, if◌then◌else◌, is_empty, length, find, select, Result, ok, err, ok_or, ensure,
  ◌>>=◌, ◌>>◌,
}
use kinugasa_recording.Domain.Values.{
  SessionId, CameraIdentityId, TakeId, Timestamp, new_session_name, new_take_name, new_camera_name,
  new_error_reason, ValidationError,
}
use kinugasa_recording.Domain.Camera.{Camera, CameraConnectionState}
use kinugasa_recording.Domain.Recording.{FinalizedRecording}
use kinugasa_recording.Domain.Take.{
  RecordingCameraState, RecordingCamera, OngoingTake, new_ongoing_take, FinishedTake,
}
use kinugasa_recording.Mysql.Tables.{RepositoryError, SessionState, Session, Db, order_by}
use kinugasa_recording.Mysql.Cameras.{get_camera_by_name}
use kinugasa_recording.Mysql.Takes.{insert_ongoing_take, get_ongoing}
use kinugasa_recording.Application.Errors.{
  UseCaseError, use_case_conflict, in_repository, validated,
}
use kinugasa_recording.Application.RecordingState.{
  persist_recording_started, persist_recording_failure, stage_finalized_recording,
  finish_ongoing_take,
}
use kinugasa_recording.Application.Tasks.{Joined, collect_tasks}

-- `collect` of the validated camera names.
unfoldable pub camera_names_of : List Text → Result UseCaseError (List Text)
unfolding new_camera_name
camera_names_of [] = ok []
camera_names_of (name ∷ names) = do
  first ← validated (new_camera_name name)
  rest ← camera_names_of names
  ok (first ∷ rest)

-- `Ord` on names: code point by code point.
unfoldable pub text_le : Text → Text → Bool
text_le [] t = true
text_le (c ∷ s) [] = false
text_le (c ∷ s) (d ∷ t) = ltb c d || (c == d && text_le s t)

-- `Vec::dedup`: of neighbours that are equal the first stays.
abbrev pub keep_new : Text → List Text → List Text
keep_new name [] = name ∷ []
keep_new name (next ∷ rest) = if text_eq name next then name ∷ rest else name ∷ next ∷ rest

unfoldable pub dedup : List Text → List Text
dedup [] = []
dedup (name ∷ rest) = keep_new name (dedup rest)

unfoldable pub are_unique : List Text → Bool
unfolding dedup text_le order_by
are_unique names = length (dedup (order_by text_le names)) == length names

unfoldable pub get_session : Text → Db → Result RepositoryError Session
get_session name db = ok_or (find (λ s. text_eq s.name name) db.sessions) RepositoryError.not_found

abbrev pub is_active : SessionState → Bool
is_active SessionState.active = true
is_active SessionState.inactive = false

abbrev pub is_connected : CameraConnectionState → Bool
is_connected (CameraConnectionState.connected url) = true
is_connected _ = false

-- The loop over the camera names, under the locks of their rows.
unfoldable pub recording_cameras :
    Text → TakeId → Timestamp → List Text → Db → Result UseCaseError (List RecordingCamera)
unfolding get_camera_by_name
recording_cameras session_name take_id requested_at [] db = ok []
recording_cameras session_name take_id requested_at (name ∷ names) db = do
  camera ← in_repository (get_camera_by_name session_name name db)
  ensure (is_connected camera.connection.state) use_case_conflict
  rest ← recording_cameras session_name take_id requested_at names db
  ok (
      record {
        ongoing_take_id = take_id;
        camera_identity_id = camera.identity.id;
        state = RecordingCameraState.recording;
        started_at = requested_at;
      }
      ∷ rest)

-- The checks of the request and the first unit of work of `start_take`.
unfoldable pub prepare_take :
    TakeId → Timestamp → Text → Text → List Text → Db → Result UseCaseError OngoingTake
unfolding camera_names_of are_unique get_session recording_cameras
prepare_take take_id now session take camera_names db = do
  ensure (not (is_empty camera_names)) (
      UseCaseError.invalid_argument
        (record { field = "camera_names"; reason = "must contain at least one camera" }))
  session_name ← validated (new_session_name session)
  take_name ← validated (new_take_name take)
  names ← camera_names_of camera_names
  ensure (are_unique names)
      (UseCaseError.invalid_argument (record { field = "camera_names"; reason = "must be unique" }))
  row ← in_repository (get_session session_name db)
  ensure (is_active row.state) use_case_conflict
  cameras ← recording_cameras session_name take_id now names db
  validated (new_ongoing_take take_id row.id take_name now cameras)

unfoldable pub insert_take :
    Result UseCaseError OngoingTake → Db → Result UseCaseError (OngoingTake × Db)
unfolding insert_ongoing_take
insert_take (err error) db = err error
insert_take (ok take) db = do after ← in_repository (insert_ongoing_take take db); ok (take, after)

-- A unit of work: an error leaves the tables as they were.
unfoldable pub commit_unit : Result UseCaseError Db → Db → Joined (Unit {0}) × Db
commit_unit (ok after) db = (Joined.returned (ok tt), after)
commit_unit (err error) db = (Joined.returned (err error), db)

-- `record_recording_failure`, on the text of the error.
unfoldable pub record_recording_failure :
    TakeId → CameraIdentityId → Text → Db → Result UseCaseError Db
unfolding new_error_reason
record_recording_failure take_id camera_id message db = do
  reason ← validated (new_error_reason message)
  persist_recording_failure take_id camera_id reason db

-- The task of a camera in `start_take`: the media server answers with a start, or an error's text.
unfoldable pub start_task :
    TakeId → CameraIdentityId → Result Text Timestamp → Db → Joined (Unit {0}) × Db
unfolding commit_unit record_recording_failure
start_task take_id camera_id (ok started_at) db =
    commit_unit (persist_recording_started take_id camera_id started_at db) db
start_task take_id camera_id (err message) db =
    commit_unit (record_recording_failure take_id camera_id message db) db

unfoldable pub start_tasks :
    TakeId
    → (CameraIdentityId → Result Text Timestamp)
    → List RecordingCamera
    → Db
    → List (Joined (Unit {0})) × Db
unfolding start_task
start_tasks take_id answer [] db = ([], db)
start_tasks take_id answer (camera ∷ cameras) db =
    let (done, after) =
      start_task take_id camera.camera_identity_id (answer camera.camera_identity_id) db in
    let (all_done, last) = start_tasks take_id answer cameras after in (done ∷ all_done, last)

-- The last unit of work of `start_take`.
unfoldable pub read_started :
    Text → Result UseCaseError (List (Unit {0})) → Db → Result UseCaseError OngoingTake
unfolding get_ongoing
read_started session (err error) db = err error
read_started session (ok done) db = do
  session_name ← validated (new_session_name session)
  take ← in_repository (get_ongoing session_name db)
  ok_or take use_case_conflict

unfoldable pub start_inserted :
    Text
    → (CameraIdentityId → Result Text Timestamp)
    → (List RecordingCamera → List RecordingCamera)
    → Result UseCaseError (OngoingTake × Db)
    → Db
    → Result UseCaseError OngoingTake × Db
unfolding start_tasks read_started collect_tasks
start_inserted session answer order (err error) db = (err error, db)
start_inserted session answer order (ok (take, inserted)) db =
    let (results, after) = start_tasks take.id answer (order take.cameras) inserted in
    (read_started session (collect_tasks results) after, after)

unfoldable pub start_take :
    TakeId
    → Timestamp
    → (CameraIdentityId → Result Text Timestamp)
    → (List RecordingCamera → List RecordingCamera)
    → Text
    → Text
    → List Text
    → Db
    → Result UseCaseError OngoingTake × Db
unfolding prepare_take insert_take start_inserted
start_take take_id now answer order session take camera_names db =
    start_inserted session answer order
      (insert_take (prepare_take take_id now session take camera_names db) db) db

-- The task of a camera in `finish_take`; a camera whose recording has failed has none.
unfoldable pub finish_task :
    TakeId → CameraIdentityId → Result Text FinalizedRecording → Db → Joined (Unit {0}) × Db
unfolding commit_unit record_recording_failure
finish_task take_id camera_id (ok recording) db =
    commit_unit (stage_finalized_recording recording db) db
finish_task take_id camera_id (err message) db =
    commit_unit (record_recording_failure take_id camera_id message db) db

abbrev pub is_recorded : RecordingCamera → Bool
is_recorded camera = elim camera.state [
  | RecordingCameraState.recording ↦ true
  | RecordingCameraState.errored reason ↦ false
]

unfoldable pub finish_tasks :
    TakeId
    → (CameraIdentityId → Result Text FinalizedRecording)
    → List RecordingCamera
    → Db
    → List (Joined (Unit {0})) × Db
unfolding finish_task
finish_tasks take_id answer [] db = ([], db)
finish_tasks take_id answer (camera ∷ cameras) db =
    let (done, after) =
      finish_task take_id camera.camera_identity_id (answer camera.camera_identity_id) db in
    let (all_done, last) = finish_tasks take_id answer cameras after in (done ∷ all_done, last)

-- The first unit of work of `finish_take`.
unfoldable pub finish_first :
    Timestamp → Text → Db → Result UseCaseError (OngoingTake × FinishedTake × Db)
unfolding get_ongoing
finish_first now session db = do
  session_name ← validated (new_session_name session)
  found ← in_repository (get_ongoing session_name db)
  ongoing ← ok_or found use_case_conflict
  finished ← finish_ongoing_take ongoing now db
  ok (ongoing, finished.0, finished.1)

unfoldable pub finish_rest :
    (CameraIdentityId → Result Text FinalizedRecording)
    → (List RecordingCamera → List RecordingCamera)
    → Result UseCaseError (OngoingTake × FinishedTake × Db)
    → Db
    → Result UseCaseError (List (Unit {0})) × Db
unfolding finish_tasks collect_tasks
finish_rest answer order (err error) db = (err error, db)
finish_rest answer order (ok (ongoing, finished, first)) db =
    let (results, after) =
      finish_tasks ongoing.id answer (order (select is_recorded ongoing.cameras)) first in
    (collect_tasks results, after)

unfoldable pub finish_take :
    Timestamp
    → (CameraIdentityId → Result Text FinalizedRecording)
    → (List RecordingCamera → List RecordingCamera)
    → Text
    → Db
    → Result UseCaseError (List (Unit {0})) × Db
unfolding finish_first finish_rest
finish_take now answer order session db = finish_rest answer order (finish_first now session db) db
