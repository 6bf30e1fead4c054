-- ===== src/Application/RecordingState/Terminal.antt =====
-- kinugasa-core/src/application/recording_state.rs: lemmas on the video files that are no longer
-- uploading, for each transition.
use kinugasa_recording.Shared.{
  ◌≡◌, refl, ap, Bool, true, false, some, ◌==◌, ok, arith, Bool-cases, inl, inr, find-update-some,
  >>=-eq-ok, map_err-eq-ok, ok_or, ok_or-eq-ok, ensure,
}
use kinugasa_recording.Domain.Values.{TakeId, CameraIdentityId, ErrorReason}
use kinugasa_recording.Domain.Take.{
  FinishedTake, VideoFileState, VideoFile, is_uploading, new_video_file,
}
use kinugasa_recording.Domain.Recording.{FinalizedRecording, UploadResult}
use kinugasa_recording.Domain.Intervals.{new_video_file_parts}
use kinugasa_recording.Mysql.Tables.{VideoFileRow, Db, TakeSnapshot, is_file}
use kinugasa_recording.Mysql.Takes.{
  get_take_for_update, save_finished_take, delete_recording_cameras,
}
use kinugasa_recording.Mysql.Recordings.{
  get_video_file_for_update, get_recording_camera_for_update, get_finalized_recording_for_update,
  save_video_file, write_file,
}
use kinugasa_recording.Application.Errors.{validated, in_repository}
use kinugasa_recording.Application.RecordingState.{
  fail_in_state, fail_video_file, fail_recording_row, fail_file_of, persist_recording_failure,
  fail_upload, get_finished_for_update, stage_row, stage_file, stage_finalized_recording,
  settle_file, wanted, persist_upload_result, converge_finished_take,
}
use kinugasa_recording.Application.RecordingState.Converge.{converge_cases}
use kinugasa_recording.Application.RecordingState.Invariant.{video-row, fail_recording_row_same}
use kinugasa_recording.Application.RecordingState.Uploads.{stage_row_same}

-- The video file of a take and a camera stays as it is unless it is uploading.
abbrev pub IsKept : TakeId → CameraIdentityId → Db → Db → Type 0
IsKept id camera_id db db' =
    (video : VideoFile)
    → get_video_file_for_update id camera_id db ≡ some video
    → is_uploading video.state ≡ false
    → get_video_file_for_update id camera_id db' ≡ some video

pub IsKept-same :
    (id : TakeId) (camera_id : CameraIdentityId) (db db' : Db)
    → db'.video_files ≡ db.video_files
    → IsKept id camera_id db db'
unfolding get_video_file_for_update
IsKept-same id camera_id db db' same video e settled = rw same e

-- Converging a take writes no video file.
pub converge_files :
    (take : FinishedTake) (db : Db) {db' : Db}
    → converge_finished_take take db ≡ ok db'
    → db'.video_files ≡ db.video_files
unfolding save_finished_take delete_recording_cameras
converge_files take db {db'} h = elim (converge_cases take db {db' = db'} h) [
  | inl (e, _) ↦ ap (λ d. d.video_files) e
  | inr (e, _, _) ↦ ap (λ d. d.video_files) e
]

-- Writing a file that was uploading touches no other.
save_video_file-IsKept :
    (id : TakeId) (camera_id : CameraIdentityId) (db : Db) (old new : VideoFile)
    → get_video_file_for_update old.finished_take_id old.camera_identity_id db ≡ some old
    → is_uploading old.state ≡ true
    → new.finished_take_id ≡ old.finished_take_id
    → new.camera_identity_id ≡ old.camera_identity_id
    → IsKept id camera_id db (save_video_file new db)
unfolding save_video_file get_video_file_for_update
save_video_file-IsKept id camera_id db old new locked up same_id same_camera video e settled =
    let (row, found, same, of_this, by_this) = video-row id camera_id db {video = video} e in
    let key : VideoFileRow → Bool = is_file new.finished_take_id new.camera_identity_id in
    let kept =
      find-update-some key (write_file new) (is_file id camera_id) db.video_files {a = row}
        (λ x. refl) found in
    elim (Bool-cases (key row)) [
      | inl hit ↦
          let here : video.finished_take_id ≡ old.finished_take_id = ground arith in
          let this : video.camera_identity_id ≡ old.camera_identity_id = ground arith in
          absurd (ground (arith, locked, up, settled, e, here, this, of_this, by_this))
      | inr miss ↦ rw kept (ground (arith, miss, same))
    ]

module _ (id : TakeId) (camera_id : CameraIdentityId) where
  -- Writing a new state to an uploading file of some take, and converging that take.
  resolve-IsKept :
      (take : FinishedTake) (db : Db) (old new : VideoFile) (state : VideoFileState) {db' : Db}
      → get_video_file_for_update old.finished_take_id old.camera_identity_id db ≡ some old
      → is_uploading old.state ≡ true
      → new_video_file old.finished_take_id old.camera_identity_id state old.started_at
          old.finished_at
        ≡ ok new
      → converge_finished_take take (save_video_file new db) ≡ ok db'
      → IsKept id camera_id db db'
  resolve-IsKept take db old new state {db'} locked up built h video e settled =
      let (parts, _) = new_video_file_parts _ _ _ _ _ {video = new} built in
      IsKept-same id camera_id (save_video_file new db) db'
        (converge_files take (save_video_file new db) {db' = db'} h) video
        (save_video_file-IsKept id camera_id db old new locked up
          (ap (λ v. v.finished_take_id) parts) (ap (λ v. v.camera_identity_id) parts) video e
          settled)
        settled

  -- A locked file is found under its own key.
  relocked :
      (k : TakeId) (c : CameraIdentityId) (db : Db) {video : VideoFile}
      → get_video_file_for_update k c db ≡ some video
      → get_video_file_for_update video.finished_take_id video.camera_identity_id db ≡ some video
  relocked k c db {video} e =
      let (_, _, _, of_this, by_this) = video-row k c db {video = video} e in
      ground (arith, of_this, by_this, e)

  fail_in_state-IsKept :
      (state : VideoFileState) (old : VideoFile) (take : FinishedTake) (reason : ErrorReason)
      (strict : Bool) (db : Db) {db' : Db}
      → get_video_file_for_update old.finished_take_id old.camera_identity_id db ≡ some old
      → old.state ≡ state
      → fail_in_state state old take reason strict db ≡ ok db'
      → IsKept id camera_id db db'
  unfolding fail_in_state is_uploading
  fail_in_state-IsKept VideoFileState.uploading old take reason strict db {db'} locked same h =
      let (new, built, rest) = >>=-eq-ok (validated (new_video_file _ _ _ _ _)) _ h in
      resolve-IsKept take db old new (VideoFileState.errored reason) {db' = db'} locked (rw same)
        (map_err-eq-ok _ _ built) rest
  fail_in_state-IsKept (VideoFileState.completed stored) old take reason strict db {db'} locked same
        h =
      let kept : db' ≡ db = ground arith in IsKept-same id camera_id db db' (rw kept)
  fail_in_state-IsKept (VideoFileState.errored current) old take reason strict db {db'} locked same
        h =
      let kept : db' ≡ db = ground arith in IsKept-same id camera_id db db' (rw kept)

  fail_video_file-IsKept :
      (take : FinishedTake) (c : CameraIdentityId) (reason : ErrorReason) (strict : Bool) (db : Db)
      {db' : Db}
      → fail_video_file take c reason strict db ≡ ok db'
      → IsKept id camera_id db db'
  unfolding fail_video_file
  fail_video_file-IsKept take c reason strict db {db'} h =
      let (old, got, rest) = >>=-eq-ok (ok_or (get_video_file_for_update take.id c db) _) _ h in
      fail_in_state-IsKept old.state old take reason strict db {db' = db'}
        (relocked take.id c db {video = old} (ok_or-eq-ok _ _ got)) refl rest

  fail_file_of-IsKept :
      (take : TakeSnapshot) (c : CameraIdentityId) (reason : ErrorReason) (db : Db) {db' : Db}
      → fail_file_of take c reason db ≡ ok db'
      → IsKept id camera_id db db'
  unfolding fail_file_of
  fail_file_of-IsKept TakeSnapshot.ongoing c reason db {db'} h =
      let kept : db' ≡ db = ground arith in IsKept-same id camera_id db db' (rw kept)
  fail_file_of-IsKept (TakeSnapshot.finished take) c reason db {db'} h =
      fail_video_file-IsKept take c reason true db {db' = db'} h

  pub persist_recording_failure-IsKept :
      (k : TakeId) (c : CameraIdentityId) (reason : ErrorReason) (db : Db) {db' : Db}
      → persist_recording_failure k c reason db ≡ ok db'
      → IsKept id camera_id db db'
  unfolding persist_recording_failure
  persist_recording_failure-IsKept k c reason db {db'} h video e settled =
      let (take, got, rest) = >>=-eq-ok (in_repository (get_take_for_update k db)) _ h in
      let (mid, row, last) =
        >>=-eq-ok (fail_recording_row take (get_recording_camera_for_update k c db) k c reason db) _
          rest in
      let (_, files, _) = fail_recording_row_same take _ k c reason db {db' = mid} row in
      fail_file_of-IsKept take c reason mid {db' = db'} last video
        (IsKept-same id camera_id db mid files video e settled) settled

  pub fail_upload-IsKept :
      (k : TakeId) (c : CameraIdentityId) (reason : ErrorReason) (db : Db) {db' : Db}
      → fail_upload k c reason db ≡ ok db'
      → IsKept id camera_id db db'
  unfolding fail_upload
  fail_upload-IsKept k c reason db {db'} h =
      let (take, got, rest) = >>=-eq-ok (get_finished_for_update k db) _ h in
      fail_video_file-IsKept take c reason false db {db' = db'} rest

  stage_file-IsKept :
      (old : VideoFile) (recording : FinalizedRecording) (db : Db) {db' : Db}
      → get_video_file_for_update old.finished_take_id old.camera_identity_id db ≡ some old
      → stage_file old recording db ≡ ok db'
      → IsKept id camera_id db db'
  unfolding stage_file
  stage_file-IsKept old recording db {db'} locked h = elim (Bool-cases (is_uploading old.state)) [
    | inr settled ↦
        let kept : db' ≡ db = ground (arith, settled) in IsKept-same id camera_id db db' (rw kept)
    | inl up ↦
        let (new, built, rest) =
          >>=-eq-ok
            (validated (
              new_video_file old.finished_take_id old.camera_identity_id VideoFileState.uploading
                recording.started_at recording.finished_at))
            _ (rw up at h) in
        let (parts, _) = new_video_file_parts _ _ _ _ _ {video = new} (map_err-eq-ok _ _ built) in
        let written : db' ≡ save_video_file new db = ground (arith, rest) in
        rw written (
          save_video_file-IsKept id camera_id db old new locked up
            (ap (λ v. v.finished_take_id) parts) (ap (λ v. v.camera_identity_id) parts))
  ]

  pub stage_finalized_recording-IsKept :
      (recording : FinalizedRecording) (db : Db) {db' : Db}
      → stage_finalized_recording recording db ≡ ok db'
      → IsKept id camera_id db db'
  unfolding stage_finalized_recording
  stage_finalized_recording-IsKept recording db {db'} h video e settled =
      let (take, got, rest) = >>=-eq-ok (get_finished_for_update recording.take_id db) _ h in
      let (_, _, rest') = >>=-eq-ok (ensure (take.session_id == recording.session_id) _) _ rest in
      let (mid, row, last) = >>=-eq-ok (stage_row _ recording db) _ rest' in
      let (_, files) = stage_row_same _ recording db {db' = mid} row in
      let (old, locked, final) =
        >>=-eq-ok
          (ok_or (get_video_file_for_update recording.take_id recording.camera_identity_id mid) _) _
          last in
      stage_file-IsKept old recording mid {db' = db'}
        (relocked recording.take_id recording.camera_identity_id mid {video = old}
          (ok_or-eq-ok _ _ locked))
        final video (IsKept-same id camera_id db mid files video e settled) settled

  settle_file-IsKept :
      (old : VideoFile) (take : FinishedTake) (state : VideoFileState) (db : Db) {db' : Db}
      → get_video_file_for_update old.finished_take_id old.camera_identity_id db ≡ some old
      → settle_file old take state db ≡ ok db'
      → IsKept id camera_id db db'
  unfolding settle_file
  settle_file-IsKept old take state db {db'} locked h = elim (Bool-cases (is_uploading old.state)) [
    | inr settled ↦
        let kept : db' ≡ db = ground (arith, settled) in IsKept-same id camera_id db db' (rw kept)
    | inl up ↦
        let (new, built, rest) = >>=-eq-ok (validated (new_video_file _ _ _ _ _)) _ (rw up at h) in
        resolve-IsKept take db old new state {db' = db'} locked up (map_err-eq-ok _ _ built) rest
  ]

  pub persist_upload_result-IsKept :
      (result : UploadResult) (db : Db) {db' : Db}
      → persist_upload_result result db ≡ ok db'
      → IsKept id camera_id db db'
  unfolding persist_upload_result
  persist_upload_result-IsKept result db {db'} h =
      let k : TakeId = result.take_id in
      let c : CameraIdentityId = result.camera_identity_id in
      let (take, got, rest) = >>=-eq-ok (get_finished_for_update k db) _ h in
      let (_, _, rest') = >>=-eq-ok (ensure (take.session_id == result.session_id) _) _ rest in
      let (finalized, _, rest'') =
        >>=-eq-ok (ok_or (get_finalized_recording_for_update k c db) _) _ rest' in
      let (_, _, last) =
        >>=-eq-ok (ensure (finalized.session_id == result.session_id) _) _ rest'' in
      let (old, locked, final) = >>=-eq-ok (ok_or (get_video_file_for_update k c db) _) _ last in
      settle_file-IsKept old take (wanted result.outcome) db {db' = db'}
        (relocked k c db {video = old} (ok_or-eq-ok _ _ locked)) final
