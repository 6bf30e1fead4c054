-- ===== src/Application/RecordingState/Traces.antt =====
-- Every sequence of units of work on takes and recordings: what starts a take, and the
-- transitions of recording_state.rs.
use kinugasa_recording.Shared.{
  ◌≡◌, sym, ap, ◌∙◌, false, not, ◌&&◌, some, List, [], ◌∷◌, ◌++◌, ◌==◌, find, any, ok, arith,
  Option-cases, inl, inr, find-append, find-append_none, eq_of_==, >>=-eq-ok, ensure, text_eq,
}
use kinugasa_recording.Domain.Values.{TakeId, SessionId, CameraIdentityId, ErrorReason, Timestamp}
use kinugasa_recording.Domain.Take.{FinishedTake, RecordingCamera, OngoingTake, new_ongoing_take}
use kinugasa_recording.Domain.Recording.{FinalizedRecording, UploadResult}
use kinugasa_recording.Mysql.Tables.{Phase, TakeRow, Db, has_id, naive, is_ongoing}
use kinugasa_recording.Mysql.Takes.{
  insert_recording_camera, insert_recording_cameras, insert_ongoing_take, load_ongoing,
}
use kinugasa_recording.Application.RecordingState.{
  persist_recording_started, persist_recording_failure, fail_upload, finish_ongoing_take,
  stage_finalized_recording, persist_upload_result,
}
use kinugasa_recording.Application.RecordingState.Settled.{files_of, IsSettled}
use kinugasa_recording.Application.RecordingState.Invariant.{
  persist_recording_started-IsSettled, persist_recording_failure-IsSettled, fail_upload-IsSettled,
}
use kinugasa_recording.Application.RecordingState.Uploads.{
  stage_finalized_recording-IsSettled, persist_upload_result-IsSettled,
}
use kinugasa_recording.Application.RecordingState.Finish.{finish_ongoing_take-IsSettled}

-- One committed unit of work. A take starts under an identifier that no video file refers to (it
-- is freshly generated, and the files' foreign key keeps their takes); a take is finished as it was
-- read from its row.
pub data Step (db : Db) : Db → Type 0 where
  started_take :
      (take : OngoingTake) {db' : Db}
      → files_of take.id db ≡ []
      → insert_ongoing_take take db ≡ ok db'
      → Step db db'
  recording_started :
      (id : TakeId) (camera_id : CameraIdentityId) (at : Timestamp) {db' : Db}
      → persist_recording_started id camera_id at db ≡ ok db'
      → Step db db'
  recording_failed :
      (id : TakeId) (camera_id : CameraIdentityId) (reason : ErrorReason) {db' : Db}
      → persist_recording_failure id camera_id reason db ≡ ok db'
      → Step db db'
  finished_take :
      (row : TakeRow) (ongoing : OngoingTake) (at : Timestamp) {take : FinishedTake} {db' : Db}
      → find (has_id row.id) db.takes ≡ some row
      → row.phase ≡ Phase.ongoing
      → load_ongoing row db ≡ ok ongoing
      → finish_ongoing_take ongoing at db ≡ ok (take, db')
      → Step db db'
  staged :
      (recording : FinalizedRecording) {db' : Db}
      → stage_finalized_recording recording db ≡ ok db'
      → Step db db'
  uploaded :
      (result : UploadResult) {db' : Db} → persist_upload_result result db ≡ ok db' → Step db db'
  upload_failed :
      (id : TakeId) (camera_id : CameraIdentityId) (reason : ErrorReason) {db' : Db}
      → fail_upload id camera_id reason db ≡ ok db'
      → Step db db'

pub data Reach (db : Db) : Db → Type 0 where
  here : Reach db db
  next : {db' db'' : Db} → Reach db db' → Step db' db'' → Reach db db''

-- Starting a take.
insert_recording_cameras_same :
    (id : TakeId) (session_id : SessionId) (cameras : List RecordingCamera) (db : Db) {db' : Db}
    → insert_recording_cameras id session_id cameras db ≡ ok db'
    → (db'.takes ≡ db.takes) × (db'.video_files ≡ db.video_files)
unfolding insert_recording_cameras insert_recording_camera
insert_recording_cameras_same id session_id [] db {db'} h = (ground arith, ground arith)
insert_recording_cameras_same id session_id (camera ∷ cameras) db {db'} h =
    let (mid, first, rest) =
      >>=-eq-ok (insert_recording_camera session_id (record camera { ongoing_take_id = id }) db) _
        h in
    let (takes, files) = insert_recording_cameras_same id session_id cameras mid {db' = db'} rest in
    let takes1 : mid.takes ≡ db.takes = ground (arith, first) in
    let files1 : mid.video_files ≡ db.video_files = ground (arith, first) in
    (takes ∙ takes1, files ∙ files1)

unfoldable pub started_row : OngoingTake → TakeRow
unfolding naive
started_row take = record {
  id = take.id;
  session_id = take.session_id;
  name = take.name;
  started_at = naive take.started_at;
  phase = Phase.ongoing;
}

pub insert_ongoing_take_parts :
    (take : OngoingTake) (db : Db) {db' : Db}
    → insert_ongoing_take take db ≡ ok db'
    → (any (has_id take.id) db.takes ≡ false)
      × (db'.takes ≡ db.takes ++ started_row take ∷ [])
      × (db'.video_files ≡ db.video_files)
unfolding insert_ongoing_take started_row
insert_ongoing_take_parts take db {db'} h =
    let (_, fresh, rest) = >>=-eq-ok (ensure (not (any (has_id take.id) db.takes)) _) _ h in
    let (_, _, rest1) =
      >>=-eq-ok
        (ensure
          (not (any (λ t. t.session_id == take.session_id && text_eq t.name take.name) db.takes)) _)
        _ rest in
    let (_, _, rest2) =
      >>=-eq-ok
        (ensure (not (any (λ t. t.session_id == take.session_id && is_ongoing t.phase) db.takes)) _)
        _ rest1 in
    let (_, _, rest3) =
      >>=-eq-ok (ensure (any (λ s. s.id == take.session_id) db.sessions) _) _ rest2 in
    let inserted : Db = record db { takes = db.takes ++ started_row take ∷ [] } in
    let (takes, files) =
      insert_recording_cameras_same take.id take.session_id take.cameras inserted {db' = db'}
        rest3 in
    (ground (arith, fresh), takes, files)

insert_ongoing_take-IsSettled :
    (take : OngoingTake) (db : Db) {db' : Db}
    → IsSettled db
    → files_of take.id db ≡ []
    → insert_ongoing_take take db ≡ ok db'
    → IsSettled db'
unfolding started_row
insert_ongoing_take-IsSettled take db {db'} inv none_yet h j t e =
    let (fresh, takes, files) = insert_ongoing_take_parts take db {db' = db'} h in
    elim (Option-cases (find (has_id j) db.takes)) [
      | inr (a, found) ↦
          let same : t ≡ a = ground (
            arith,
            e,
            takes,
            find-append (has_id j) db.takes (started_row take ∷ []) {a = a} found,
          ) in
          rw (same, files) (inv j a found)
      | inl miss ↦
          let last : find (has_id j) (started_row take ∷ []) ≡ some t =
            sym (find-append_none (has_id j) db.takes (started_row take ∷ []) miss)
            ∙ ap (λ l. find (has_id j) l) (sym takes)
            ∙ e in
          let is_row : t ≡ started_row take = ground (arith, last) in
          let same : take.id ≡ j = ground (arith, last, eq_of_== take.id j) in
          rw (is_row, files, ← same) none_yet
    ]

load_ongoing_parts :
    (row : TakeRow) (db : Db) {ongoing : OngoingTake}
    → load_ongoing row db ≡ ok ongoing
    → (ongoing.id ≡ row.id) × (ongoing.session_id ≡ row.session_id)
unfolding load_ongoing new_ongoing_take
load_ongoing_parts row db {ongoing} h = (ground arith, ground arith)

Step-IsSettled : {db db' : Db} → IsSettled db → Step db db' → IsSettled db'
Step-IsSettled {db} {db'} inv (Step.started_take take fresh h) =
    insert_ongoing_take-IsSettled take db {db' = db'} inv fresh h
Step-IsSettled {db} {db'} inv (Step.recording_started id camera_id at h) =
    persist_recording_started-IsSettled id camera_id at db {db' = db'} inv h
Step-IsSettled {db} {db'} inv (Step.recording_failed id camera_id reason h) =
    persist_recording_failure-IsSettled id camera_id reason db {db' = db'} inv h
Step-IsSettled {db} {db'} inv
      (Step.finished_take row ongoing at {take = take} found running loaded h) =
    let (same, session) = load_ongoing_parts row db {ongoing = ongoing} loaded in
    finish_ongoing_take-IsSettled ongoing at db row inv (rw same found) running (sym session)
      {take = take} {db' = db'} h
Step-IsSettled {db} {db'} inv (Step.staged recording h) =
    stage_finalized_recording-IsSettled recording db {db' = db'} inv h
Step-IsSettled {db} {db'} inv (Step.uploaded result h) =
    persist_upload_result-IsSettled result db {db' = db'} inv h
Step-IsSettled {db} {db'} inv (Step.upload_failed id camera_id reason h) =
    fail_upload-IsSettled id camera_id reason db {db' = db'} inv h

-- In a database reached from a settled one by any units of work on takes and recordings, every take
-- is settled: an ongoing take has no video file, an uploading take has an uploading file, a
-- completed take has files and none that is uploading or errored, an errored take none uploading.
pub Reach-IsSettled : {db db' : Db} → Reach db db' → IsSettled db → IsSettled db'
Reach-IsSettled Reach.here inv = inv
Reach-IsSettled (Reach.next before step) inv = Step-IsSettled (Reach-IsSettled before inv) step
