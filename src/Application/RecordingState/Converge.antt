-- ===== src/Application/RecordingState/Converge.antt =====
-- kinugasa-core/src/application/recording_state.rs: lemmas on writing a video file and converging
-- its take.
use kinugasa_recording.Shared.{
  ℕ, ◌≡◌, ◌≢◌, refl, ◌∙◌, Bool, true, false, not, ◌&&◌, ◌||◌, some, List, ◌==◌, find, update, any,
  is_empty, ok, arith, if◌then◌else◌, Bool-cases, inl, inr, find_holds, find-any, find-select,
  any-map, is_empty-map, is_empty-update, select-update, update_none, any-select-false, find-update,
  eq_of_==, &&-elim, ◌⊎◌,
}
use kinugasa_recording.Domain.Values.{TakeId, CameraIdentityId, new_error_reason}
use kinugasa_recording.Domain.Take.{
  FinishedTakeState, FinishedTake, VideoFile, is_uploading, is_errored, new_finished_take,
}
use kinugasa_recording.Mysql.Tables.{
  Phase, TakeRow, VideoFileRow, Db, TakeSnapshot, has_id, of_take, is_file, by_camera, take_in,
  is_ongoing, naive, order_by,
}
use kinugasa_recording.Mysql.Order.{any-order_by, is_empty-order_by}
use kinugasa_recording.Mysql.Takes.{
  get_take_for_update, save_finished_take, delete_recording_cameras,
}
use kinugasa_recording.Mysql.Recordings.{
  list_video_files_for_take_for_update, save_video_file, write_file,
}
use kinugasa_recording.Application.RecordingState.{
  upload_failure, converged_state, converge_finished_take,
}
use kinugasa_recording.Application.RecordingState.Settled.{
  row_uploading, row_errored, files_of, Settled, IsSettled, Settled-uploading, snapshot-finished,
}

-- The tests of `converge_finished_take`, on the rows.
listed-any :
    (p : VideoFile → Bool) (id : TakeId) (db : Db)
    → any p (list_video_files_for_take_for_update id db) ≡ any (λ row. p row.file) (files_of id db)
unfolding list_video_files_for_take_for_update
listed-any p id db =
    any-map p (λ row. row.file) (order_by by_camera (files_of id db))
    ∙ any-order_by by_camera (λ row. p row.file) (files_of id db)

listed-is_empty :
    (id : TakeId) (db : Db)
    → is_empty (list_video_files_for_take_for_update id db) ≡ is_empty (files_of id db)
unfolding list_video_files_for_take_for_update
listed-is_empty id db =
    is_empty-map (λ row. row.file) (order_by by_camera (files_of id db))
    ∙ is_empty-order_by by_camera (files_of id db)

-- The state that the rows of a take call for once none of them is uploading.
unfoldable pub target : List VideoFileRow → FinishedTakeState
target files =
    if any row_errored files
    then FinishedTakeState.errored upload_failure
    else FinishedTakeState.completed

pub upload_failure_ok : new_error_reason upload_failure ≡ ok upload_failure
unfolding new_error_reason upload_failure
upload_failure_ok = refl

pub converged_state-target :
    (id : TakeId) (db : Db)
    → converged_state (list_video_files_for_take_for_update id db) ≡ ok (target (files_of id db))
unfolding converged_state target
converged_state-target id db =
    rw (listed-any (λ video. is_errored video.state) id db, upload_failure_ok)
      (elim (Bool-cases (any row_errored (files_of id db))) [ inl e ↦ rw e | inr e ↦ rw e ])

abbrev pub converged : FinishedTake → Db → FinishedTake
converged take db = record take { state = target (files_of take.id db) }

-- Converging does nothing while a file is uploading, and else writes the state that the files call
-- for and forgets the take's recording cameras.
pub converge_cases :
    (take : FinishedTake) (db : Db) {db' : Db}
    → converge_finished_take take db ≡ ok db'
    → ((db' ≡ db)
        × ((is_empty (files_of take.id db) || any row_uploading (files_of take.id db)) ≡ true))
      ⊎ ((db' ≡ delete_recording_cameras take.id (save_finished_take (converged take db) db))
          × (is_empty (files_of take.id db) ≡ false)
          × (any row_uploading (files_of take.id db) ≡ false))
unfolding converge_finished_take new_finished_take
converge_cases take db {db'} h = ground (
  arith,
  listed-any (λ (video : VideoFile). is_uploading video.state) take.id db,
  listed-is_empty take.id db,
  converged_state-target take.id db,
)

of_take_eq :
    (id : TakeId) (row : VideoFileRow) → of_take id row ≡ true → row.file.finished_take_id ≡ id
of_take_eq id row h = eq_of_== row.file.finished_take_id id h

-- The files of a take after one file is written.
pub files_of-save :
    (id : TakeId) (video : VideoFile) (db : Db)
    → files_of id (save_video_file video db)
      ≡ update
          (is_file video.finished_take_id video.camera_identity_id)
          (write_file video)
          (files_of id db)
unfolding save_video_file
files_of-save id video db =
    select-update _ (write_file video) (of_take id) db.video_files (λ x. refl)

pub files_of-save_ne :
    (id : TakeId) (video : VideoFile) (db : Db)
    → id ≢ video.finished_take_id
    → files_of id (save_video_file video db) ≡ files_of id db
files_of-save_ne id video db ne =
    files_of-save id video db
    ∙ update_none _ (write_file video) (files_of id db) (
        any-select-false _ (of_take id) db.video_files
          (λ row h. ground (arith, of_take_eq id row h, ne)))

-- A file found under its key is one of its take's files.
pub file-any :
    (id : TakeId) (camera_id : CameraIdentityId) (db : Db) (q : VideoFileRow → Bool)
    (row : VideoFileRow)
    → find (is_file id camera_id) db.video_files ≡ some row
    → q row ≡ true
    → any q (files_of id db) ≡ true
file-any id camera_id db q row e h =
    find-any (is_file id camera_id) q (files_of id db) row
      (find-select _ (of_take id) db.video_files (λ x hx. (&&-elim _ _ hx).0) ∙ e) h

target-Settled :
    (files : List VideoFileRow) (at : ℕ)
    → is_empty files ≡ false
    → any row_uploading files ≡ false
    → Settled (Phase.finished (target files) at) files
unfolding target
target-Settled files at full none_up = elim (Bool-cases (any row_errored files)) [
  | inl e ↦ rw e none_up
  | inr e ↦ rw e (full, none_up, e)
]

-- The row that a lookup finds after the take has been saved and its recording cameras forgotten.
pub find_take-save_finished :
    (j : TakeId) (take : FinishedTake) (db : Db) (t : TakeRow)
    → find (has_id j) (delete_recording_cameras take.id (save_finished_take take db)).takes ≡ some t
    → (a : TakeRow) × (find (has_id j) db.takes ≡ some a)
      × (t.phase ≡ (
          if take_in take.id take.session_id a && not (is_ongoing a.phase)
          then Phase.finished take.state (naive take.finished_at)
          else a.phase))
unfolding delete_recording_cameras save_finished_take
find_take-save_finished j take db t e =
    let (a, found, written) = find-update _ _ (has_id j) db.takes {b = t} (λ x. refl) e in
    (a, found, ground (arith, written))

pub files_of-save_finished :
    (j : TakeId) (take : FinishedTake) (db : Db)
    → files_of j (delete_recording_cameras take.id (save_finished_take take db)) ≡ files_of j db
unfolding delete_recording_cameras save_finished_take
files_of-save_finished j take db = refl

pub takes-save_video_file :
    (video : VideoFile) (db : Db) → (save_video_file video db).takes ≡ db.takes
unfolding save_video_file
takes-save_video_file video db = refl

module _ (id : TakeId) (db : Db) (take : FinishedTake) (video : VideoFile) (inv : IsSettled db)
    (taken : get_take_for_update id db ≡ ok (TakeSnapshot.finished take))
    (of_this : video.finished_take_id ≡ id) (up : any row_uploading (files_of id db) ≡ true) where
  saved_full : is_empty (files_of id (save_video_file video db)) ≡ false
  saved_full =
      rw (files_of-save id video db, is_empty-update _ (write_file video) (files_of id db))
        (ground (arith, up))

  other :
      (j : TakeId) (t : TakeRow)
      → j ≢ id
      → find (has_id j) db.takes ≡ some t
      → Settled t.phase (files_of j (save_video_file video db))
  other j t ne e = rw (files_of-save_ne j video db (λ same. ne (same ∙ of_this))) (inv j t e)

  pub still :
      any row_uploading (files_of id (save_video_file video db)) ≡ true
      → IsSettled (save_video_file video db)
  unfolding save_video_file
  still h j t e = elim (Bool-cases (j == id)) [
    | inl hit ↦
        let same : j ≡ id = eq_of_== j id hit in
        let (at, p) = Settled-uploading t.phase (files_of id db) (inv id t (rw (← same) e)) up in
        rw (p, same) h
    | inr miss ↦ other j t (λ same. ground (arith, same)) e
  ]

  abbrev saved : Db
  saved = save_video_file video db

  done :
      any row_uploading (files_of id saved) ≡ false
      → IsSettled
          (delete_recording_cameras take.id (save_finished_take (converged take saved) saved))
  unfolding save_video_file
  done h j t e =
      let (a, found, written) = find_take-save_finished j (converged take saved) saved t e in
      let (row, here, phase, same_id, same_session) = snapshot-finished id db {take = take} taken in
      rw (files_of-save_finished j (converged take saved) saved) (elim (Bool-cases (j == id)) [
        | inl hit ↦
            let same : j ≡ id = eq_of_== j id hit in
            let a_row : a ≡ row = ground (arith, found, here, same) in
            let p : t.phase ≡ Phase.finished (target (files_of id saved)) (naive take.finished_at) =
              ground (
                arith,
                written,
                a_row,
                phase,
                same_id,
                same_session,
                find_holds (has_id id) db.takes row,
              ) in
            rw (p, same) (target-Settled (files_of id saved) _ saved_full h)
        | inr miss ↦
            let p : t.phase ≡ a.phase =
              ground (arith, written, find_holds (has_id j) db.takes a, same_id) in
            rw p (other j a (λ same. ground (arith, same)) found)
      ])

  -- Writing a file of a take with an uploading file, and converging the take, keeps all settled.
  pub write_converge-IsSettled :
      {db' : Db} → converge_finished_take take saved ≡ ok db' → IsSettled db'
  write_converge-IsSettled {db'} h =
      let (row, here, phase, same_id, same_session) = snapshot-finished id db {take = take} taken in
      elim (converge_cases take saved {db' = db'} h) [
        | inl (e, some_up) ↦ rw e (still (ground (arith, some_up, same_id, saved_full)))
        | inr (e, full, none_up) ↦ rw e (done (rw (← same_id) none_up))
      ]
