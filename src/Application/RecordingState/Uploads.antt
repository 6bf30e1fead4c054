-- ===== src/Application/RecordingState/Uploads.antt =====
-- kinugasa-core/src/application/recording_state.rs: staged recordings and results of uploads, against
-- the settled databases.
use kinugasa_recording.Shared.{
  ◌≡◌, ◌∙◌, true, Option, none, some, ◌==◌, any, ok, arith, Bool-cases, inl, inr, any-update-true,
  >>=-eq-ok, map_err-eq-ok, ok_or, ok_or-eq-ok, ensure,
}
use kinugasa_recording.Domain.Values.{TakeId, CameraIdentityId}
use kinugasa_recording.Domain.Take.{
  FinishedTake, VideoFileState, VideoFile, is_uploading, new_video_file,
}
use kinugasa_recording.Domain.Recording.{FinalizedRecording, UploadResult}
use kinugasa_recording.Domain.Intervals.{new_video_file_parts}
use kinugasa_recording.Mysql.Tables.{Db, TakeSnapshot}
use kinugasa_recording.Mysql.Takes.{get_take_for_update}
use kinugasa_recording.Mysql.Recordings.{
  get_video_file_for_update, get_finalized_recording_for_update, insert_finalized_recording,
  save_video_file, write_file,
}
use kinugasa_recording.Application.Errors.{validated}
use kinugasa_recording.Application.RecordingState.{
  get_finished_for_update, stage_row, stage_file, stage_finalized_recording, settle_file, wanted,
  persist_upload_result,
}
use kinugasa_recording.Application.RecordingState.Settled.{row_uploading, files_of, IsSettled}
use kinugasa_recording.Application.RecordingState.Converge.{still, files_of-save, file-any}
use kinugasa_recording.Application.RecordingState.Invariant.{
  IsSettled-same, video-row, resolve-IsSettled, get_take-same, finished-snapshot,
}

pub stage_row_same :
    (found : Option FinalizedRecording) (recording : FinalizedRecording) (db : Db) {db' : Db}
    → stage_row found recording db ≡ ok db'
    → (db'.takes ≡ db.takes) × (db'.video_files ≡ db.video_files)
unfolding stage_row insert_finalized_recording
stage_row_same none recording db h = (ground arith, ground arith)
stage_row_same (some existing) recording db h = (ground arith, ground arith)

-- Rewriting the interval of an uploading file leaves every take settled.
stage_file-IsSettled :
    (id : TakeId) (camera_id : CameraIdentityId) (take : FinishedTake) (video : VideoFile)
    (recording : FinalizedRecording) (db : Db) {db' : Db}
    → IsSettled db
    → get_take_for_update id db ≡ ok (TakeSnapshot.finished take)
    → get_video_file_for_update id camera_id db ≡ some video
    → stage_file video recording db ≡ ok db'
    → IsSettled db'
unfolding stage_file is_uploading
stage_file-IsSettled id camera_id take video recording db {db'} inv taken locked h =
    elim (Bool-cases (is_uploading video.state)) [
      | inr settled ↦ let kept : db' ≡ db = ground (arith, settled) in rw kept inv
      | inl up ↦
          let (row, found, same, of_this, _) = video-row id camera_id db {video = video} locked in
          let (new, built, rest) =
            >>=-eq-ok
              (validated (
                new_video_file video.finished_take_id video.camera_identity_id
                  VideoFileState.uploading recording.started_at recording.finished_at))
              _ (rw up at h) in
          let now_up : any row_uploading (files_of id db) ≡ true =
            file-any id camera_id db row_uploading row found (rw same up) in
          let (parts, _) = new_video_file_parts _ _ _ _ _ {video = new} (map_err-eq-ok _ _ built) in
          let new_up : is_uploading new.state ≡ true = rw parts in
          let stays : any row_uploading (files_of id (save_video_file new db)) ≡ true =
            rw (files_of-save id new db) (
              any-update-true _ (write_file new) row_uploading (files_of id db) (λ x. new_up)
                now_up) in
          let written : db' ≡ save_video_file new db = ground (arith, rest) in
          rw written (still id db take new inv taken (rw parts of_this) now_up stays)
    ]

-- In a database where every take is settled, staging a finalized recording, when it succeeds, leaves
-- every take settled.
pub stage_finalized_recording-IsSettled :
    (recording : FinalizedRecording) (db : Db) {db' : Db}
    → IsSettled db
    → stage_finalized_recording recording db ≡ ok db'
    → IsSettled db'
unfolding stage_finalized_recording
stage_finalized_recording-IsSettled recording db {db'} inv h =
    let (take, got, rest) = >>=-eq-ok (get_finished_for_update recording.take_id db) _ h in
    let (_, _, rest') = >>=-eq-ok (ensure (take.session_id == recording.session_id) _) _ rest in
    let (mid, row, last) = >>=-eq-ok (stage_row _ recording db) _ rest' in
    let (takes, files) = stage_row_same _ recording db {db' = mid} row in
    let (video, locked, final) =
      >>=-eq-ok
        (ok_or (get_video_file_for_update recording.take_id recording.camera_identity_id mid) _) _
        last in
    stage_file-IsSettled recording.take_id recording.camera_identity_id take video recording mid
      {db' = db'} (IsSettled-same db mid takes files inv)
      (get_take-same recording.take_id db mid takes
        ∙ finished-snapshot recording.take_id db {take = take} got)
      (ok_or-eq-ok _ _ locked) final

settle_file-IsSettled :
    (id : TakeId) (camera_id : CameraIdentityId) (take : FinishedTake) (video : VideoFile)
    (state : VideoFileState) (db : Db) {db' : Db}
    → IsSettled db
    → get_take_for_update id db ≡ ok (TakeSnapshot.finished take)
    → get_video_file_for_update id camera_id db ≡ some video
    → settle_file video take state db ≡ ok db'
    → IsSettled db'
unfolding settle_file
settle_file-IsSettled id camera_id take video state db {db'} inv taken locked h =
    elim (Bool-cases (is_uploading video.state)) [
      | inr settled ↦ let kept : db' ≡ db = ground (arith, settled) in rw kept inv
      | inl up ↦
          let (new, built, rest) =
            >>=-eq-ok (validated (new_video_file _ _ _ _ _)) _ (rw up at h) in
          resolve-IsSettled id camera_id db take video state inv taken locked up new {db' = db'}
            (map_err-eq-ok _ _ built) rest
    ]

-- In a database where every take is settled, persisting the result of an upload, when it succeeds,
-- leaves every take settled.
pub persist_upload_result-IsSettled :
    (result : UploadResult) (db : Db) {db' : Db}
    → IsSettled db
    → persist_upload_result result db ≡ ok db'
    → IsSettled db'
unfolding persist_upload_result
persist_upload_result-IsSettled result db {db'} inv h =
    let id : TakeId = result.take_id in
    let camera_id : CameraIdentityId = result.camera_identity_id in
    let (take, got, rest) = >>=-eq-ok (get_finished_for_update id db) _ h in
    let (_, _, rest') = >>=-eq-ok (ensure (take.session_id == result.session_id) _) _ rest in
    let (finalized, _, rest'') =
      >>=-eq-ok (ok_or (get_finalized_recording_for_update id camera_id db) _) _ rest' in
    let (_, _, last) = >>=-eq-ok (ensure (finalized.session_id == result.session_id) _) _ rest'' in
    let (video, locked, final) =
      >>=-eq-ok (ok_or (get_video_file_for_update id camera_id db) _) _ last in
    settle_file-IsSettled id camera_id take video (wanted result.outcome) db {db' = db'} inv
      (finished-snapshot id db {take = take} got) (ok_or-eq-ok _ _ locked) final
