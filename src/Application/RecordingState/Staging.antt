-- ===== src/Application/RecordingState/Staging.antt =====
-- kinugasa-core/src/application/recording_state.rs: a finalized recording that is staged again.
use kinugasa_recording.Shared.{
  ◌≡◌, refl, ap, ◌∙◌, Bool, true, not, Option, none, some, List, [], ◌∷◌, ◌++◌, ◌==◌, any, find,
  update, ok, arith, Bool-cases, inl, inr, >>=-eq-ok, map_err-eq-ok, ok_or, ok_or-eq-ok, ensure,
  ensure-true, ==-refl, text_eq_refl, find-append_none, find-update-some, find_holds, ℕ,
}
use kinugasa_recording.Domain.Recording.{FinalizedRecording}
use kinugasa_recording.Domain.Take.{
  FinishedTake, VideoFileState, VideoFile, is_uploading, new_video_file,
}
use kinugasa_recording.Mysql.Tables.{
  VideoFileRow, Db, is_file, finalizes, take_in, identity_in, naive,
}
use kinugasa_recording.Mysql.Recordings.{
  is_recording, write_file, save_video_file, get_video_file_for_update,
  get_finalized_recording_for_update, insert_finalized_recording, get_recording_camera_for_update,
}
use kinugasa_recording.Application.Errors.{validated}
use kinugasa_recording.Application.RecordingState.{
  get_finished_for_update, timestamp_micros, same_finalized_recording, stage_row, stage_file,
  stage_finalized_recording,
}
use kinugasa_recording.Application.RecordingState.Invariant.{video-row}
use kinugasa_recording.Application.RecordingState.Written.{finished-same}
use kinugasa_recording.Application.RecordingState.Redelivery.{finalized-same}
use kinugasa_recording.Domain.Intervals.{new_video_file_parts}

naive-micros : (t : ℕ) → timestamp_micros (naive t) ≡ timestamp_micros t
unfolding timestamp_micros naive
naive-micros t = omega arith

-- The row of a recording is the same as the recording, to the microsecond.
same-stored :
    (r : FinalizedRecording)
    → same_finalized_recording
        (record r { started_at = naive r.started_at; finished_at = naive r.finished_at })
        r
      ≡ true
unfolding same_finalized_recording
same-stored r =
    rw
      (
        ==-refl r.take_id,
        ==-refl r.camera_identity_id,
        ==-refl r.session_id,
        naive-micros r.started_at,
        naive-micros r.finished_at,
        ==-refl (timestamp_micros r.started_at),
        ==-refl (timestamp_micros r.finished_at),
        text_eq_refl r.relative_path,
        text_eq_refl r.media_type,
      )
      refl

-- What a staged row leaves: the same recording is found, and only the recordings may have changed.
abbrev Stored : FinalizedRecording → Db → Db → Type 0
Stored r db db' =
    ((existing : FinalizedRecording) × (get_finalized_recording_for_update r.take_id
          r.camera_identity_id db'
        ≡ some existing)
      × (same_finalized_recording existing r ≡ true))
    × (db'.takes ≡ db.takes)
    × (db'.video_files ≡ db.video_files)

inserted-Stored :
    (r : FinalizedRecording) (db : Db) {db' : Db}
    → get_finalized_recording_for_update r.take_id r.camera_identity_id db ≡ none
    → insert_finalized_recording r db ≡ ok db'
    → Stored r db db'
unfolding insert_finalized_recording get_finalized_recording_for_update
inserted-Stored r db {db'} missing h =
    let (_, _, h1) =
      >>=-eq-ok
        (ensure (not (any (finalizes r.take_id r.camera_identity_id) db.finalized_recordings)) _) _
        h in
    let (_, _, h2) = >>=-eq-ok (ensure (any (take_in r.take_id r.session_id) db.takes) _) _ h1 in
    let (_, _, h3) =
      >>=-eq-ok
        (ensure (any (identity_in r.camera_identity_id r.session_id) db.camera_identities) _) _
        h2 in
    let stored : FinalizedRecording = record r {
      started_at = naive r.started_at;
      finished_at = naive r.finished_at;
    } in
    let is_after : db'
        ≡ record db { finalized_recordings = db.finalized_recordings ++ stored ∷ [] } =
      ground (arith, h3) in
    let here : find (finalizes r.take_id r.camera_identity_id) (stored ∷ []) ≡ some stored =
      rw (==-refl r.take_id, ==-refl r.camera_identity_id) refl in
    rw is_after (
      (
        stored,
        find-append_none (finalizes r.take_id r.camera_identity_id) db.finalized_recordings
              (stored ∷ []) missing
            ∙ here,
        same-stored r,
      ),
      refl,
      refl,
    )

stage_row-Stored :
    (found : Option FinalizedRecording) (r : FinalizedRecording) (db : Db) {db' : Db}
    → get_finalized_recording_for_update r.take_id r.camera_identity_id db ≡ found
    → stage_row found r db ≡ ok db'
    → Stored r db db'
unfolding stage_row
stage_row-Stored (some existing) r db {db'} got h =
    elim (Bool-cases (same_finalized_recording existing r)) [
      | inl same ↦
          let kept : db' ≡ db = ground (arith, same) in rw kept ((existing, got, same), refl, refl)
      | inr differs ↦ absurd (ground (arith, h, differs))
    ]
stage_row-Stored none r db {db'} got h =
    let (source, _, h1) =
      >>=-eq-ok (ok_or (get_recording_camera_for_update r.take_id r.camera_identity_id db) _) _ h in
    let (_, _, h2) = >>=-eq-ok (ensure (is_recording source.state) _) _ h1 in
    inserted-Stored r db {db' = db'} got (map_err-eq-ok _ _ h2)

update-again {ℓ} :
    {A : Type ℓ} (p : A → Bool) (f : A → A) (xs : List A)
    → ((x : A) → p (f x) ≡ p x)
    → ((x : A) → f (f x) ≡ f x)
    → update p f (update p f xs) ≡ update p f xs
update-again p f [] kept same = refl
update-again p f (x ∷ xs) kept same = elim (Bool-cases (p x)) [
  | inl hit ↦ rw (hit, kept x, hit, same x, update-again p f xs kept same) refl
  | inr miss ↦ rw (miss, miss, update-again p f xs kept same) refl
]

-- The statement is one that may be repeated.
save_video_file-again :
    (video : VideoFile) (db : Db)
    → save_video_file video (save_video_file video db) ≡ save_video_file video db
unfolding save_video_file
save_video_file-again video db =
    ap (λ (rows : List VideoFileRow). record db { video_files = rows })
      (update-again (is_file video.finished_take_id video.camera_identity_id) (write_file video)
        db.video_files (λ row. refl) (λ row. refl))

-- What a staged file leaves: it is found, and staging it once more changes nothing.
abbrev Staged : FinalizedRecording → Db → Db → Type 0
Staged r db db' =
    ((video : VideoFile) × (get_video_file_for_update r.take_id r.camera_identity_id db'
        ≡ some video)
      × (stage_file video r db' ≡ ok db'))
    × (db'.takes ≡ db.takes)
    × (db'.finalized_recordings ≡ db.finalized_recordings)

stage_uploading :
    (video new : VideoFile) (r : FinalizedRecording) (db : Db)
    → is_uploading video.state ≡ true
    → new_video_file video.finished_take_id video.camera_identity_id VideoFileState.uploading
        r.started_at r.finished_at
      ≡ ok new
    → stage_file video r db ≡ ok (save_video_file new db)
unfolding stage_file
stage_uploading video new r db up built = rw (up, built) refl

saved-Staged :
    (video new : VideoFile) (r : FinalizedRecording) (db : Db)
    → get_video_file_for_update r.take_id r.camera_identity_id db ≡ some video
    → new_video_file video.finished_take_id video.camera_identity_id VideoFileState.uploading
        r.started_at r.finished_at
      ≡ ok new
    → Staged r db (save_video_file new db)
unfolding save_video_file get_video_file_for_update is_uploading
saved-Staged video new r db got built =
    let (row, found, same, of_this, by_this) =
      video-row r.take_id r.camera_identity_id db {video = video} got in
    let (parts, _) = new_video_file_parts _ _ _ _ _ {video = new} built in
    let key : VideoFileRow → Bool = is_file new.finished_take_id new.camera_identity_id in
    let hit : key row ≡ true = ground (
      arith,
      parts,
      of_this,
      by_this,
      find_holds (is_file r.take_id r.camera_identity_id) db.video_files row found,
    ) in
    let written =
      find-update-some key (write_file new) (is_file r.take_id r.camera_identity_id) db.video_files
        {a = row} (λ x. refl) found in
    let after : VideoFile = (write_file new row).file in
    let here : new_video_file row.file.finished_take_id row.file.camera_identity_id
          VideoFileState.uploading r.started_at r.finished_at
        ≡ ok new =
      rw same built in
    let up : is_uploading after.state ≡ true = rw (ap (λ (v : VideoFile). v.state) parts) refl in
    (
      (
        after,
        rw (written, hit) refl,
        stage_uploading after new r (save_video_file new db) up here
            ∙ ap ok (save_video_file-again new db),
      ),
      refl,
      refl,
    )

stage_file-Staged :
    (video : VideoFile) (r : FinalizedRecording) (db : Db) {db' : Db}
    → get_video_file_for_update r.take_id r.camera_identity_id db ≡ some video
    → stage_file video r db ≡ ok db'
    → Staged r db db'
unfolding stage_file
stage_file-Staged video r db {db'} got h = elim (Bool-cases (is_uploading video.state)) [
  | inr settled ↦
      let kept : db' ≡ db = ground (arith, settled) in
      rw kept ((video, got, rw settled refl), refl, refl)
  | inl up ↦
      let (new, built, done) =
        >>=-eq-ok
          (validated (
            new_video_file video.finished_take_id video.camera_identity_id VideoFileState.uploading
              r.started_at r.finished_at))
          _ (rw up at h) in
      let saved : db' ≡ save_video_file new db = ground (arith, done) in
      rw saved (saved-Staged video new r db got (map_err-eq-ok _ _ built))
]

-- What staging does once its preconditions hold and the recording is there.
stage-from :
    (r : FinalizedRecording) (db : Db) (take : FinishedTake) (existing : FinalizedRecording)
    (video : VideoFile)
    → get_finished_for_update r.take_id db ≡ ok take
    → (take.session_id == r.session_id) ≡ true
    → get_finalized_recording_for_update r.take_id r.camera_identity_id db ≡ some existing
    → same_finalized_recording existing r ≡ true
    → get_video_file_for_update r.take_id r.camera_identity_id db ≡ some video
    → stage_finalized_recording r db ≡ stage_file video r db
unfolding stage_finalized_recording stage_row
stage-from r db take existing video a b c d e = rw (a, b, c, d, e) refl

-- Once a finalized recording has been staged, staging it again succeeds and changes nothing.
pub stage_finalized_recording_again :
    (r : FinalizedRecording) (db db' : Db)
    → stage_finalized_recording r db ≡ ok db'
    → stage_finalized_recording r db' ≡ ok db'
unfolding stage_finalized_recording
stage_finalized_recording_again r db db' h =
    let (take, got, h1) = >>=-eq-ok (get_finished_for_update r.take_id db) _ h in
    let (_, session, h2) = >>=-eq-ok (ensure (take.session_id == r.session_id) _) _ h1 in
    let stored = get_finalized_recording_for_update r.take_id r.camera_identity_id db in
    let (mid, staged, h3) = >>=-eq-ok (stage_row stored r db) _ h2 in
    let (video, locked, h4) =
      >>=-eq-ok (ok_or (get_video_file_for_update r.take_id r.camera_identity_id mid) _) _ h3 in
    let ((existing, found, same), takes, files) =
      stage_row-Stored stored r db {db' = mid} refl staged in
    let ((after, found_file, again), takes', rows) =
      stage_file-Staged video r mid {db' = db'} (ok_or-eq-ok _ _ locked) h4 in
    stage-from r db' take existing after (finished-same r.take_id db db' (takes' ∙ takes) ∙ got)
      (ensure-true _ _ session) (finalized-same r.take_id r.camera_identity_id mid db' rows ∙ found)
      same found_file
    ∙ again
