-- ===== src/Application/RecordingState/Settled.antt =====
-- The states of a finished take and of its video files fit together, as the requirements on the
-- logical database ask and as `FinishedTakeDetail::new` checks when a take is read.
use kinugasa_recording.Shared.{
  ℕ, ◌≡◌, refl, Bool, true, false, some, List, [], find, select, any, is_empty, ok, arith,
  Option-cases, inl, inr, find_holds,
}
use kinugasa_recording.Domain.Values.{TakeId}
use kinugasa_recording.Domain.Take.{
  FinishedTakeState, FinishedTake, is_uploading, is_errored, new_finished_take,
}
use kinugasa_recording.Mysql.Tables.{
  Phase, TakeRow, VideoFileRow, Db, TakeSnapshot, has_id, of_take,
}
use kinugasa_recording.Mysql.Takes.{get_take_for_update, snapshot}

abbrev pub row_uploading : VideoFileRow → Bool
row_uploading row = is_uploading row.file.state

abbrev pub row_errored : VideoFileRow → Bool
row_errored row = is_errored row.file.state

abbrev pub files_of : TakeId → Db → List VideoFileRow
files_of id db = select (of_take id) db.video_files

-- An ongoing take has no files; an uploading one has an uploading file; a completed one has files,
-- none of them uploading or errored; an errored one has no uploading file.
abbrev pub Settled : Phase → List VideoFileRow → Type 0
Settled Phase.ongoing files = files ≡ []
Settled (Phase.finished FinishedTakeState.uploading finished_at) files =
    any row_uploading files ≡ true
Settled (Phase.finished FinishedTakeState.completed finished_at) files =
    (is_empty files ≡ false) × (any row_uploading files ≡ false) × (any row_errored files ≡ false)
Settled (Phase.finished (FinishedTakeState.errored reason) finished_at) files =
    any row_uploading files ≡ false

abbrev pub IsSettledAt : Db → TakeId → Type 0
IsSettledAt db id =
    (t : TakeRow) → find (has_id id) db.takes ≡ some t → Settled t.phase (files_of id db)

-- Every take of the database is settled.
abbrev pub IsSettled : Db → Type 0
IsSettled db = (id : TakeId) → IsSettledAt db id

-- A take that still has an uploading file is ongoing in no case, and its state is `uploading`.
pub Settled-uploading :
    (phase : Phase) (files : List VideoFileRow)
    → Settled phase files
    → any row_uploading files ≡ true
    → (at : ℕ) × (phase ≡ Phase.finished FinishedTakeState.uploading at)
Settled-uploading Phase.ongoing files h e = absurd (ground (arith, h))
Settled-uploading (Phase.finished FinishedTakeState.uploading at) files h e = (at, refl)
Settled-uploading (Phase.finished FinishedTakeState.completed at) files h e = cc
Settled-uploading (Phase.finished (FinishedTakeState.errored reason) at) files h e = cc

snapshot_parts :
    (row : TakeRow) (phase : Phase) {take : FinishedTake}
    → snapshot row phase ≡ ok (TakeSnapshot.finished take)
    → (phase ≡ Phase.finished take.state take.finished_at)
      × (take.id ≡ row.id)
      × (take.session_id ≡ row.session_id)
      × (take.started_at ≡ row.started_at)
unfolding snapshot new_finished_take
snapshot_parts row Phase.ongoing h = ground arith
snapshot_parts row (Phase.finished state at) h =
    (ground arith, ground arith, ground arith, ground arith)

-- What a snapshot of a finished take says of its row.
pub snapshot-finished :
    (id : TakeId) (db : Db) {take : FinishedTake}
    → get_take_for_update id db ≡ ok (TakeSnapshot.finished take)
    → (row : TakeRow) × (find (has_id id) db.takes ≡ some row)
      × (row.phase ≡ Phase.finished take.state take.finished_at)
      × (take.id ≡ id)
      × (take.session_id ≡ row.session_id)
unfolding get_take_for_update
snapshot-finished id db {take} h = elim (Option-cases (find (has_id id) db.takes)) [
  | inl e ↦ cc
  | inr (row, e) ↦
      let (phase, same, session, _) = snapshot_parts row row.phase {take = take} (ground arith) in
      (row, e, phase, ground (arith, find_holds (has_id id) db.takes row), session)
]
