-- ===== src/Application/RecordingState/Redelivery.antt =====
-- kinugasa-core/src/application/recording_state.rs: the result of an upload that is delivered again.
use kinugasa_recording.Shared.{
  ◌≡◌, refl, ap, ◌∙◌, true, false, some, ◌==◌, ok, arith, Bool-cases, inl, inr, >>=-eq-ok,
  map_err-eq-ok, ok_or, ok_or-eq-ok, ensure, ensure-true,
}
use kinugasa_recording.Domain.Values.{TakeId, CameraIdentityId}
use kinugasa_recording.Domain.Recording.{UploadResult, UploadOutcome, FinalizedRecording}
use kinugasa_recording.Domain.Take.{
  FinishedTake, VideoFileState, VideoFile, is_uploading, new_video_file,
}
use kinugasa_recording.Domain.Intervals.{new_video_file_parts}
use kinugasa_recording.Mysql.Tables.{Db}
use kinugasa_recording.Mysql.Takes.{save_finished_take, delete_recording_cameras}
use kinugasa_recording.Mysql.Recordings.{
  get_video_file_for_update, save_video_file, get_finalized_recording_for_update,
}
use kinugasa_recording.Application.Errors.{validated}
use kinugasa_recording.Application.RecordingState.{
  get_finished_for_update, settle_file, wanted, persist_upload_result, converge_finished_take,
}
use kinugasa_recording.Application.RecordingState.Converge.{converge_cases}
use kinugasa_recording.Application.RecordingState.Invariant.{finished-snapshot}
use kinugasa_recording.Application.RecordingState.Written.{
  video_state_eq_refl, converged-finished, written-video,
}

settle_file-again :
    (video : VideoFile) (take : FinishedTake) (state : VideoFileState) (db : Db)
    → is_uploading state ≡ false
    → video.state ≡ state
    → settle_file video take state db ≡ ok db
unfolding settle_file
settle_file-again video take state db settled same =
    rw (same, settled, video_state_eq_refl state) refl

pub wanted-settled : (outcome : UploadOutcome) → is_uploading (wanted outcome) ≡ false
unfolding wanted is_uploading
wanted-settled (UploadOutcome.completed stored) = refl
wanted-settled (UploadOutcome.errored reason) = refl

-- What persisting a result does once its preconditions hold.
pub persist_upload_result-from :
    (result : UploadResult) (db : Db) (take : FinishedTake) (finalized : FinalizedRecording)
    (video : VideoFile)
    → get_finished_for_update result.take_id db ≡ ok take
    → (take.session_id == result.session_id) ≡ true
    → get_finalized_recording_for_update result.take_id result.camera_identity_id db
      ≡ some finalized
    → (finalized.session_id == result.session_id) ≡ true
    → get_video_file_for_update result.take_id result.camera_identity_id db ≡ some video
    → persist_upload_result result db ≡ settle_file video take (wanted result.outcome) db
unfolding persist_upload_result
persist_upload_result-from result db take finalized video a b c d e = rw (a, b, c, d, e) refl

converge_finalized :
    (take : FinishedTake) (db : Db) {db' : Db}
    → converge_finished_take take db ≡ ok db'
    → db'.finalized_recordings ≡ db.finalized_recordings
unfolding save_finished_take delete_recording_cameras
converge_finalized take db {db'} h = elim (converge_cases take db {db' = db'} h) [
  | inl (e, _) ↦ ap (λ d. d.finalized_recordings) e
  | inr (e, _, _) ↦ ap (λ d. d.finalized_recordings) e
]

pub finalized-same :
    (id : TakeId) (camera_id : CameraIdentityId) (db db' : Db)
    → db'.finalized_recordings ≡ db.finalized_recordings
    → get_finalized_recording_for_update id camera_id db'
      ≡ get_finalized_recording_for_update id camera_id db
unfolding get_finalized_recording_for_update
finalized-same id camera_id db db' same = rw same

settled_again :
    (result : UploadResult) (db db' : Db) (take : FinishedTake) (finalized : FinalizedRecording)
    (old : VideoFile)
    → get_finished_for_update result.take_id db ≡ ok take
    → (take.session_id == result.session_id) ≡ true
    → get_finalized_recording_for_update result.take_id result.camera_identity_id db
      ≡ some finalized
    → (finalized.session_id == result.session_id) ≡ true
    → get_video_file_for_update result.take_id result.camera_identity_id db ≡ some old
    → settle_file old take (wanted result.outcome) db ≡ ok db'
    → persist_upload_result result db' ≡ ok db'
unfolding settle_file save_video_file
settled_again result db db' take finalized old got session found session' locked h =
    let id : TakeId = result.take_id in
    let camera_id : CameraIdentityId = result.camera_identity_id in
    elim (Bool-cases (is_uploading old.state)) [
      | inr settled ↦
          let kept : db' ≡ db = ground (arith, settled) in
          rw kept (
            persist_upload_result-from result db take finalized old got session found session'
              locked
            ∙ rw settled (ground (arith, settled)))
      | inl up ↦
          let (new, built, rest) =
            >>=-eq-ok
              (validated (
                new_video_file old.finished_take_id old.camera_identity_id (wanted result.outcome)
                  old.started_at old.finished_at))
              _ (rw up at h) in
          let (parts, _) = new_video_file_parts _ _ _ _ _ {video = new} (map_err-eq-ok _ _ built) in
          let taken = finished-snapshot id db {take = take} got in
          let same_id = ap (λ v. v.finished_take_id) parts in
          let same_camera = ap (λ v. v.camera_identity_id) parts in
          let (again, got', session'') =
            converged-finished id camera_id db take old new taken got locked same_id same_camera
              {db' = db'} rest in
          let (video, locked', state) =
            written-video id camera_id db take old new taken got locked same_id same_camera
              {db' = db'} rest in
          persist_upload_result-from result db' again finalized video got' (rw session'' session)
            (finalized-same id camera_id db db'
                (converge_finalized take (save_video_file new db) {db' = db'} rest)
              ∙ found)
            session' locked'
          ∙ settle_file-again video again (wanted result.outcome) db'
              (wanted-settled result.outcome) (state ∙ ap (λ v. v.state) parts)
    ]

-- Once the result of an upload has been persisted, delivering it again succeeds and changes nothing.
pub persist_upload_result_again :
    (result : UploadResult) (db db' : Db)
    → persist_upload_result result db ≡ ok db'
    → persist_upload_result result db' ≡ ok db'
unfolding persist_upload_result
persist_upload_result_again result db db' h =
    let id : TakeId = result.take_id in
    let camera_id : CameraIdentityId = result.camera_identity_id in
    let (take, got, rest) = >>=-eq-ok (get_finished_for_update id db) _ h in
    let (_, session, rest') = >>=-eq-ok (ensure (take.session_id == result.session_id) _) _ rest in
    let (finalized, found, rest'') =
      >>=-eq-ok (ok_or (get_finalized_recording_for_update id camera_id db) _) _ rest' in
    let (_, session', last) =
      >>=-eq-ok (ensure (finalized.session_id == result.session_id) _) _ rest'' in
    let (old, locked, final) =
      >>=-eq-ok (ok_or (get_video_file_for_update id camera_id db) _) _ last in
    settled_again result db db' take finalized old got (ensure-true _ _ session)
      (ok_or-eq-ok _ _ found) (ensure-true _ _ session') (ok_or-eq-ok _ _ locked) final
