-- ===== src/Application/RecordingState/Written.antt =====
-- kinugasa-core/src/application/recording_state.rs: the take and the video file as they are read
-- after a file has been written and its take has converged.
use kinugasa_recording.Shared.{
  ℕ, ◌≡◌, ◌≤◌, refl, sym, ap, ◌∙◌, Bool, true, not, ◌&&◌, some, find, ok, arith, Option-cases, inl,
  inr, find_holds, find-update-some, text_eq_refl, ==-refl,
}
use kinugasa_recording.Domain.Values.{TakeId, CameraIdentityId}
use kinugasa_recording.Domain.Recording.{check_interval, stored_eq}
use kinugasa_recording.Domain.Take.{
  FinishedTake, VideoFileState, VideoFile, new_finished_take, video_state_eq,
}
use kinugasa_recording.Mysql.Tables.{
  Phase, TakeRow, VideoFileRow, Db, TakeSnapshot, has_id, is_ongoing, take_in, naive, is_file,
}
use kinugasa_recording.Mysql.Takes.{
  get_take_for_update, snapshot, save_finished_take, delete_recording_cameras,
}
use kinugasa_recording.Mysql.Recordings.{get_video_file_for_update, save_video_file, write_file}
use kinugasa_recording.Application.RecordingState.{get_finished_for_update, converge_finished_take}
use kinugasa_recording.Application.RecordingState.Converge.{converge_cases, converged}
use kinugasa_recording.Application.RecordingState.Settled.{snapshot-finished}
use kinugasa_recording.Application.RecordingState.Terminal.{converge_files}
use kinugasa_recording.Application.RecordingState.Invariant.{video-row}

pub video_state_eq_refl : (s : VideoFileState) → video_state_eq s s ≡ true
unfolding video_state_eq stored_eq
video_state_eq_refl VideoFileState.uploading = refl
video_state_eq_refl (VideoFileState.completed stored) =
    rw (text_eq_refl stored.object_key, text_eq_refl stored.hash, ==-refl stored.size) refl
video_state_eq_refl (VideoFileState.errored reason) = text_eq_refl reason

naive_mono : (a b : ℕ) → a ≤ b → naive a ≤ naive b
unfolding naive
naive_mono a b h = omega arith

-- A finished take that has been saved is read back, in the same session.
saved-finished :
    (id : TakeId) (db db1 : Db) (take new : FinishedTake)
    → get_take_for_update id db ≡ ok (TakeSnapshot.finished take)
    → db1.takes ≡ db.takes
    → new.id ≡ take.id
    → new.session_id ≡ take.session_id
    → new.started_at ≤ new.finished_at
    → (again : FinishedTake) × (get_finished_for_update id
          (delete_recording_cameras take.id (save_finished_take new db1))
        ≡ ok again)
      × (again.session_id ≡ take.session_id)
unfolding get_finished_for_update get_take_for_update save_finished_take delete_recording_cameras
    snapshot new_finished_take check_interval
saved-finished id db db1 take new taken takes same_id same_session interval =
    let (row, found, phase, is_id, session) = snapshot-finished id db {take = take} taken in
    let written =
      find-update-some (λ t. take_in new.id new.session_id t && not (is_ongoing t.phase))
        (λ t. record t {
          started_at = naive new.started_at;
          phase = Phase.finished new.state (naive new.finished_at);
        })
        (has_id id) db1.takes {a = row} (λ x. refl) (rw takes found) in
    let hit : take_in new.id new.session_id row && not (is_ongoing row.phase) ≡ true = ground (
      arith,
      phase,
      is_id,
      session,
      same_id,
      same_session,
      find_holds (has_id id) db.takes row found,
    ) in
    let apart = naive_mono new.started_at new.finished_at interval in
    (
      record {
        id = row.id;
        session_id = row.session_id;
        name = row.name;
        state = new.state;
        started_at = naive new.started_at;
        finished_at = naive new.finished_at;
      },
      rw (written, hit) (ground (arith, apart)),
      sym session,
    )

snapshot-interval :
    (row : TakeRow) (phase : Phase) {take : FinishedTake}
    → snapshot row phase ≡ ok (TakeSnapshot.finished take)
    → take.started_at ≤ take.finished_at
unfolding snapshot new_finished_take check_interval
snapshot-interval row Phase.ongoing h = ground arith
snapshot-interval row (Phase.finished state at) h = ground arith

pub taken-interval :
    (id : TakeId) (db : Db) {take : FinishedTake}
    → get_take_for_update id db ≡ ok (TakeSnapshot.finished take)
    → take.started_at ≤ take.finished_at
unfolding get_take_for_update
taken-interval id db {take} h = elim (Option-cases (find (has_id id) db.takes)) [
  | inl e ↦ cc
  | inr (row, e) ↦ snapshot-interval row row.phase {take = take} (ground (arith, e))
]

pub finished-same :
    (id : TakeId) (db db' : Db)
    → db'.takes ≡ db.takes
    → get_finished_for_update id db' ≡ get_finished_for_update id db
unfolding get_finished_for_update get_take_for_update
finished-same id db db' same = rw same

-- After a video file has been written and its take has converged: the take is still finished, in
-- its session, and the file is the one that was written.
module _ (id : TakeId) (camera_id : CameraIdentityId) (db : Db) (take : FinishedTake)
    (old new : VideoFile) (taken : get_take_for_update id db ≡ ok (TakeSnapshot.finished take))
    (got : get_finished_for_update id db ≡ ok take)
    (locked : get_video_file_for_update id camera_id db ≡ some old)
    (same_id : new.finished_take_id ≡ old.finished_take_id)
    (same_camera : new.camera_identity_id ≡ old.camera_identity_id) where
  pub converged-finished :
      {db' : Db}
      → converge_finished_take take (save_video_file new db) ≡ ok db'
      → (again : FinishedTake) × (get_finished_for_update id db' ≡ ok again)
        × (again.session_id ≡ take.session_id)
  unfolding save_video_file
  converged-finished {db'} h = elim (converge_cases take (save_video_file new db) {db' = db'} h) [
    | inl (same, _) ↦ (take, finished-same id db db' (ap (λ d. d.takes) same) ∙ got, refl)
    | inr (same, _, _) ↦
        let (again, found, session) =
          saved-finished id db (save_video_file new db) take
            (converged take (save_video_file new db)) taken refl refl refl
            (taken-interval id db {take = take} taken) in
        (again, ap (get_finished_for_update id) same ∙ found, session)
  ]

  pub written-video :
      {db' : Db}
      → converge_finished_take take (save_video_file new db) ≡ ok db'
      → (video : VideoFile) × (get_video_file_for_update id camera_id db' ≡ some video)
        × (video.state ≡ new.state)
  unfolding get_video_file_for_update save_video_file
  written-video {db'} h =
      let (row, found, same, of_this, by_this) = video-row id camera_id db {video = old} locked in
      let key : VideoFileRow → Bool = is_file new.finished_take_id new.camera_identity_id in
      let written =
        find-update-some key (write_file new) (is_file id camera_id) db.video_files {a = row}
          (λ x. refl) found in
      let hit : key row ≡ true = ground (
        arith,
        same,
        of_this,
        by_this,
        find_holds (is_file id camera_id) db.video_files row found,
      ) in
      let files : db'.video_files ≡ (save_video_file new db).video_files =
        converge_files take (save_video_file new db) {db' = db'} h in
      ((write_file new row).file, rw (files, written, hit), refl)
