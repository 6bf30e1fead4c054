-- ===== src/Application/RecordingState/Finish.antt =====
-- kinugasa-core/src/application/recording_state.rs: `finish_ongoing_take`, against the settled
-- databases.
use kinugasa_recording.Shared.{
  ℕ, ◌≡◌, ◌≢◌, refl, sym, ap, ◌∙◌, Bool, true, false, ◌&&◌, ◌||◌, some, List, [], ◌∷◌, ◌++◌, ◌==◌,
  find, select, any, all, ok, arith, if◌then◌else◌, Bool-cases, inl, inr, find_holds, find-update,
  &&-elim, select-append, select-append_miss, any-append, eq_of_==, >>=-eq-ok, map_err-eq-ok,
}
use kinugasa_recording.Domain.Values.{TakeId, SessionId, Timestamp}
use kinugasa_recording.Domain.Take.{
  FinishedTakeState, FinishedTake, VideoFile, is_uploading, new_video_file, new_finished_take,
  RecordingCamera, RecordingCameraState, OngoingTake,
}
use kinugasa_recording.Domain.Intervals.{new_video_file_parts, new_finished_take_parts}
use kinugasa_recording.Mysql.Tables.{
  Phase, TakeRow, VideoFileRow, Db, has_id, of_take, take_in, is_ongoing, naive,
}
use kinugasa_recording.Mysql.Takes.{
  insert_video_file, insert_video_files, finish_row, replace_ongoing_with_finished,
  delete_recording_cameras,
}
use kinugasa_recording.Mysql.Recordings.{is_recording}
use kinugasa_recording.Application.Errors.{validated, in_repository}
use kinugasa_recording.Application.RecordingState.{
  upload_failure, file_state, finished_files, has_uploading, initial_state, finish_ongoing_take,
}
use kinugasa_recording.Application.RecordingState.Settled.{
  row_uploading, files_of, Settled, IsSettled,
}
use kinugasa_recording.Application.RecordingState.Converge.{upload_failure_ok}
use kinugasa_recording.Application.RecordingState.Invariant.{IsSettled-same}

abbrev in_take : TakeId → VideoFile → Bool
in_take id video = video.finished_take_id == id

file_state-uploading : (s : RecordingCameraState) → is_uploading (file_state s) ≡ is_recording s
unfolding file_state is_uploading
file_state-uploading RecordingCameraState.recording = refl
file_state-uploading (RecordingCameraState.errored reason) = refl

-- The files made from the recordings: one uploading for each camera still recording, all of the take.
pub finished_files_parts :
    (id : TakeId) (at : Timestamp) (cameras : List RecordingCamera) {videos : List VideoFile}
    → finished_files id at cameras ≡ ok videos
    → (all (in_take id) videos ≡ true)
      × (any (λ v. is_uploading v.state) videos ≡ has_uploading cameras)
unfolding finished_files has_uploading
finished_files_parts id at [] {videos} h = (ground arith, ground arith)
finished_files_parts id at (camera ∷ cameras) {videos} h =
    let (video, built, rest) = >>=-eq-ok (validated (new_video_file _ _ _ _ _)) _ h in
    let (later, made, last) = >>=-eq-ok (finished_files id at cameras) _ rest in
    let (parts, _) = new_video_file_parts _ _ _ _ _ {video = video} (map_err-eq-ok _ _ built) in
    let (members, up) = finished_files_parts id at cameras {videos = later} made in
    (
      ground (arith, parts, members, last),
      ground (arith, parts, up, last, file_state-uploading camera.state),
    )

-- Inserting one file adds it to the files of its take.
insert_video_file_files :
    (session_id : SessionId) (video : VideoFile) (db : Db) {db' : Db} (j : TakeId)
    → insert_video_file session_id video db ≡ ok db'
    → (db'.takes ≡ db.takes)
      × (video.finished_take_id ≢ j → files_of j db' ≡ files_of j db)
      × (any row_uploading (files_of j db') ≡ (
          any row_uploading (files_of j db)
          || (video.finished_take_id == j && is_uploading video.state)))
unfolding insert_video_file
insert_video_file_files session_id video db {db'} j h =
    let row : VideoFileRow = record {
      session_id = session_id;
      file = record video {
        started_at = naive video.started_at;
        finished_at = naive video.finished_at;
      };
    } in
    let files : db'.video_files ≡ db.video_files ++ row ∷ [] = ground arith in
    (
      ground arith,
      (λ ne. rw files (
          select-append_miss (of_take j) db.video_files row
            (ground (arith, ne, eq_of_== video.finished_take_id j)))),
      rw
          (
            files,
            select-append (of_take j) db.video_files (row ∷ []),
            any-append row_uploading (select (of_take j) db.video_files)
                (select (of_take j) (row ∷ [])),
          )
          (ground arith),
    )

insert_video_files_files :
    (session_id : SessionId) (id : TakeId) (videos : List VideoFile) (db : Db) {db' : Db}
    → all (in_take id) videos ≡ true
    → insert_video_files session_id videos db ≡ ok db'
    → (db'.takes ≡ db.takes)
      × ((j : TakeId) → j ≢ id → files_of j db' ≡ files_of j db)
      × (any row_uploading (files_of id db')
          ≡ (any row_uploading (files_of id db) || any (λ v. is_uploading v.state) videos))
unfolding insert_video_files
insert_video_files_files session_id id [] db {db'} members h =
    let kept : db' ≡ db = ground arith in (rw kept, (λ j ne. rw kept), rw kept (ground arith))
insert_video_files_files session_id id (video ∷ videos) db {db'} members h =
    let (mid, first, rest) = >>=-eq-ok (insert_video_file session_id video db) _ h in
    let (hit, later) = &&-elim (in_take id video) (all (in_take id) videos) members in
    let same : video.finished_take_id ≡ id = eq_of_== video.finished_take_id id hit in
    let (takes, others, up) =
      insert_video_files_files session_id id videos mid {db' = db'} later rest in
    let (takes1, _, up1) = insert_video_file_files session_id video db {db' = mid} id first in
    (
      takes ∙ takes1,
      (λ j ne.
          let (_, other, _) = insert_video_file_files session_id video db {db' = mid} j first in
          others j ne ∙ other (λ e. ne (sym e ∙ same))),
      ground (arith, up, up1, hit),
    )

-- The row found once the take has been marked as finished.
find-finish_row :
    (j : TakeId) (take : FinishedTake) (db : Db) (t : TakeRow)
    → find (has_id j) (finish_row take db).takes ≡ some t
    → (a : TakeRow) × (find (has_id j) db.takes ≡ some a)
      × (t.phase ≡ (
          if take_in take.id take.session_id a && is_ongoing a.phase
          then Phase.finished take.state (naive take.finished_at)
          else a.phase))
unfolding finish_row
find-finish_row j take db t e =
    let (a, found, written) = find-update _ _ (has_id j) db.takes {b = t} (λ x. refl) e in
    (a, found, ground (arith, written))

-- The state of a take that has just finished, by whether a camera was still recording.
initial_state-Settled :
    (cameras : List RecordingCamera) {state : FinishedTakeState} (files : List VideoFileRow)
    (at : ℕ)
    → initial_state cameras ≡ ok state
    → any row_uploading files ≡ has_uploading cameras
    → Settled (Phase.finished state at) files
unfolding initial_state
initial_state-Settled cameras {state} files at h up = elim (Bool-cases (has_uploading cameras)) [
  | inl e ↦ let p : state ≡ FinishedTakeState.uploading = ground arith in rw p (up ∙ e)
  | inr e ↦
      let p : state ≡ FinishedTakeState.errored upload_failure =
        ground (arith, upload_failure_ok) in
      rw p (up ∙ e)
]

files_of-delete :
    (j id : TakeId) (b : Bool) (db : Db)
    → ((if b then db else delete_recording_cameras id db).takes ≡ db.takes)
      × ((if b then db else delete_recording_cameras id db).video_files ≡ db.video_files)
unfolding delete_recording_cameras
files_of-delete j id true db = (refl, refl)
files_of-delete j id false db = (refl, refl)

files_of-finish_row :
    (j : TakeId) (take : FinishedTake) (db : Db) → files_of j (finish_row take db) ≡ files_of j db
unfolding finish_row
files_of-finish_row j take db = refl

module _ (ongoing : OngoingTake) (finished_at : Timestamp) (db : Db) (row : TakeRow)
    (inv : IsSettled db) (here : find (has_id ongoing.id) db.takes ≡ some row)
    (running : row.phase ≡ Phase.ongoing) (session : row.session_id ≡ ongoing.session_id) where
  replaced-IsSettled :
      (take : FinishedTake) (videos : List VideoFile) {db' : Db}
      → take.id ≡ ongoing.id
      → take.session_id ≡ ongoing.session_id
      → initial_state ongoing.cameras ≡ ok take.state
      → all (in_take ongoing.id) videos ≡ true
      → any (λ v. is_uploading v.state) videos ≡ has_uploading ongoing.cameras
      → replace_ongoing_with_finished take videos db ≡ ok db'
      → IsSettled db'
  unfolding replace_ongoing_with_finished
  replaced-IsSettled take videos {db'} same_id same_session state members up h j t e =
      let (takes, others, files_up) =
        insert_video_files_files take.session_id ongoing.id videos (finish_row take db) {db' = db'}
          members h in
      let (a, found, written) = find-finish_row j take db t (rw (← takes) e) in
      elim (Bool-cases (j == ongoing.id)) [
        | inl hit ↦
            let same : j ≡ ongoing.id = eq_of_== j ongoing.id hit in
            let a_row : a ≡ row = ground (arith, found, here, same) in
            let none_before : files_of ongoing.id db ≡ [] =
              rw running at (inv ongoing.id row here) in
            let now_up : any row_uploading (files_of ongoing.id db')
                ≡ has_uploading ongoing.cameras =
              files_up ∙ rw (files_of-finish_row ongoing.id take db, none_before) up in
            let p : t.phase ≡ Phase.finished take.state (naive take.finished_at) = ground (
              arith,
              written,
              a_row,
              running,
              same_id,
              same_session,
              session,
              find_holds (has_id ongoing.id) db.takes row,
            ) in
            rw (p, same)
              (initial_state-Settled ongoing.cameras {state = take.state} _ _ state now_up)
        | inr miss ↦
            let ne : j ≢ ongoing.id = (λ same. ground (arith, same)) in
            let p : t.phase ≡ a.phase =
              ground (arith, written, find_holds (has_id j) db.takes a, same_id) in
            rw (p, others j ne, files_of-finish_row j take db) (inv j a found)
      ]

  -- In a database where every take is settled and the row of the take is ongoing in its session,
  -- finishing the take, when it succeeds, leaves every take settled.
  pub finish_ongoing_take-IsSettled :
      {take : FinishedTake} {db' : Db}
      → finish_ongoing_take ongoing finished_at db ≡ ok (take, db')
      → IsSettled db'
  unfolding finish_ongoing_take
  finish_ongoing_take-IsSettled {take} {db'} h =
      let (videos, made, rest) =
        >>=-eq-ok (finished_files ongoing.id finished_at ongoing.cameras) _ h in
      let (state, initial, rest1) = >>=-eq-ok (initial_state ongoing.cameras) _ rest in
      let (finished, built, rest2) =
        >>=-eq-ok (validated (new_finished_take _ _ _ _ _ _)) _ rest1 in
      let (mid, replaced, rest3) =
        >>=-eq-ok (in_repository (replace_ongoing_with_finished finished videos db)) _ rest2 in
      let (parts, _) =
        new_finished_take_parts _ _ _ _ _ _ {take = finished} (map_err-eq-ok _ _ built) in
      let (members, up) =
        finished_files_parts ongoing.id finished_at ongoing.cameras {videos = videos} made in
      let settled : IsSettled mid =
        replaced-IsSettled finished videos {db' = mid} (rw parts) (rw parts) (rw parts initial)
          members up (map_err-eq-ok _ _ replaced) in
      let final : db' ≡ (
          if has_uploading ongoing.cameras then mid else delete_recording_cameras ongoing.id mid) =
        ground (arith, rest3) in
      let (takes, files) =
        files_of-delete ongoing.id ongoing.id (has_uploading ongoing.cameras) mid in
      IsSettled-same mid db' (ap (λ d. d.takes) final ∙ takes)
        (ap (λ d. d.video_files) final ∙ files) settled
