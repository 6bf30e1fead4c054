-- ===== src/Application/Takes/Starting.antt =====
-- kinugasa-core/src/application/take.rs: what starting a take does to the database.
use kinugasa_recording.Shared.{
  ◌≡◌, refl, ap, ◌∙◌, not, List, [], Text, is_empty, Result, ok, err, ensure, >>=-eq-ok,
  map_err-eq-ok, arith, ◌>>=◌,
}
use kinugasa_recording.Domain.Values.{
  CameraIdentityId, TakeId, Timestamp, SessionId, new_session_name, new_take_name,
}
use kinugasa_recording.Domain.Take.{RecordingCamera, OngoingTake, new_ongoing_take}
use kinugasa_recording.Mysql.Tables.{RepositoryError, Db}
use kinugasa_recording.Mysql.Takes.{insert_ongoing_take}
use kinugasa_recording.Application.Errors.{UseCaseError, in_repository, validated}
use kinugasa_recording.Application.RecordingState.Settled.{files_of}
use kinugasa_recording.Application.RecordingState.Traces.{Step, Reach}
use kinugasa_recording.Application.Takes.{
  camera_names_of, are_unique, get_session, is_active, recording_cameras, prepare_take, insert_take,
  start_inserted, start_take,
}
use kinugasa_recording.Application.Takes.Tasks.{start_tasks-Reach}

-- A new take has the identifier that was generated for it.
new_ongoing_take-id :
    (id : TakeId) (session_id : SessionId) (name : Text) (at : Timestamp)
    (cameras : List RecordingCamera) {take : OngoingTake}
    → new_ongoing_take id session_id name at cameras ≡ ok take
    → take.id ≡ id
unfolding new_ongoing_take
new_ongoing_take-id id session_id name at cameras {take} h = ground arith

prepare_take-id :
    (take_id : TakeId) (now : Timestamp) (session take : Text) (names : List Text) (db : Db)
    {made : OngoingTake}
    → prepare_take take_id now session take names db ≡ ok made
    → made.id ≡ take_id
unfolding prepare_take
prepare_take-id take_id now session take names db {made} h0 =
    let (_, _, h1) = >>=-eq-ok (ensure (not (is_empty names)) _) _ h0 in
    let (session_name, _, h2) = >>=-eq-ok (validated (new_session_name session)) _ h1 in
    let (take_name, _, h3) = >>=-eq-ok (validated (new_take_name take)) _ h2 in
    let (checked, _, h4) = >>=-eq-ok (camera_names_of names) _ h3 in
    let (_, _, h5) = >>=-eq-ok (ensure (are_unique checked) _) _ h4 in
    let (row, _, h6) = >>=-eq-ok (in_repository (get_session session_name db)) _ h5 in
    let (_, _, h7) = >>=-eq-ok (ensure (is_active row.state) _) _ h6 in
    let (cameras, _, h8) = >>=-eq-ok (recording_cameras session_name take_id now checked db) _ h7 in
    new_ongoing_take-id take_id row.id take_name now cameras {take = made}
      (map_err-eq-ok UseCaseError.invalid_argument _ h8)

inserted-Reach :
    (start : Db) (session : Text) (answer : CameraIdentityId → Result Text Timestamp)
    (order : List RecordingCamera → List RecordingCamera) (take : OngoingTake) (db : Db)
    (inserted : Result RepositoryError Db)
    → insert_ongoing_take take db ≡ inserted
    → files_of take.id db ≡ []
    → Reach start db
    → Reach start
        (start_inserted session answer order
          (in_repository inserted >>= (λ (after : Db). ok (take, after)))
          db).1
unfolding start_inserted
inserted-Reach start session answer order take db (err error) e fresh r = r
inserted-Reach start session answer order take db (ok after) e fresh r =
    start_tasks-Reach start take.id answer (order take.cameras) after
      (Reach.next r (Step.started_take take fresh e))

insert_take-Reach :
    (start : Db) (session : Text) (answer : CameraIdentityId → Result Text Timestamp)
    (order : List RecordingCamera → List RecordingCamera)
    (prepared : Result UseCaseError OngoingTake) (db : Db)
    → ((take : OngoingTake) → prepared ≡ ok take → files_of take.id db ≡ [])
    → Reach start db
    → Reach start (start_inserted session answer order (insert_take prepared db) db).1
unfolding insert_take
insert_take-Reach start session answer order (err error) db fresh r = unfold start_inserted in r
insert_take-Reach start session answer order (ok take) db fresh r =
    inserted-Reach start session answer order take db (insert_ongoing_take take db) refl
      (fresh take refl) r

pub start_take-Reach :
    (start : Db) (take_id : TakeId) (now : Timestamp)
    (answer : CameraIdentityId → Result Text Timestamp)
    (order : List RecordingCamera → List RecordingCamera) (session take : Text) (names : List Text)
    (db : Db)
    → files_of take_id db ≡ []
    → Reach start db
    → Reach start (start_take take_id now answer order session take names db).1
unfolding start_take
start_take-Reach start take_id now answer order session take names db fresh r =
    insert_take-Reach start session answer order (prepare_take take_id now session take names db) db
      (λ made e.
        ap (λ (id : TakeId). files_of id db)
          (prepare_take-id take_id now session take names db {made = made} e)
        ∙ fresh)
      r
