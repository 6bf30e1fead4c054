-- ===== src/Application/RecordingState/Aborting.antt =====
-- kinugasa-core/src/application/recording_state.rs: an upload that is failed again.
use kinugasa_recording.Shared.{
  ◌≡◌, refl, ap, ◌∙◌, false, some, ok, arith, >>=-eq-ok, map_err-eq-ok, ok_or, ok_or-eq-ok,
}
use kinugasa_recording.Domain.Values.{TakeId, CameraIdentityId, ErrorReason}
use kinugasa_recording.Domain.Take.{
  FinishedTake, VideoFileState, VideoFile, is_uploading, new_video_file,
}
use kinugasa_recording.Domain.Intervals.{new_video_file_parts}
use kinugasa_recording.Mysql.Tables.{Db}
use kinugasa_recording.Mysql.Recordings.{get_video_file_for_update}
use kinugasa_recording.Application.Errors.{validated}
use kinugasa_recording.Application.RecordingState.{
  get_finished_for_update, fail_in_state, fail_video_file, fail_upload,
}
use kinugasa_recording.Application.RecordingState.Settled.{snapshot-finished}
use kinugasa_recording.Application.RecordingState.Invariant.{finished-snapshot}
use kinugasa_recording.Application.RecordingState.Written.{converged-finished, written-video}

-- A decided file stays as it is.
fail_in_state-decided :
    (state : VideoFileState) (video : VideoFile) (take : FinishedTake) (reason : ErrorReason)
    (db : Db)
    → is_uploading state ≡ false
    → fail_in_state state video take reason false db ≡ ok db
unfolding fail_in_state is_uploading
fail_in_state-decided VideoFileState.uploading video take reason db h = ground arith
fail_in_state-decided (VideoFileState.completed stored) video take reason db h = refl
fail_in_state-decided (VideoFileState.errored current) video take reason db h = refl

errored_settled :
    (state : VideoFileState) (reason : ErrorReason)
    → state ≡ VideoFileState.errored reason
    → is_uploading state ≡ false
unfolding is_uploading
errored_settled state reason same = rw same refl

finished-id :
    (id : TakeId) (db : Db) {take : FinishedTake}
    → get_finished_for_update id db ≡ ok take
    → take.id ≡ id
finished-id id db {take} got =
    let (_, _, _, same, _) =
      snapshot-finished id db {take = take} (finished-snapshot id db {take = take} got) in
    same

-- What failing an upload does once the take and its file have been read.
fail_upload-from :
    (id : TakeId) (camera_id : CameraIdentityId) (reason : ErrorReason) (db : Db)
    (take : FinishedTake) (video : VideoFile)
    → get_finished_for_update id db ≡ ok take
    → get_video_file_for_update id camera_id db ≡ some video
    → fail_upload id camera_id reason db ≡ fail_in_state video.state video take reason false db
unfolding fail_upload fail_video_file
fail_upload-from id camera_id reason db take video got locked =
    rw (got, finished-id id db {take = take} got, locked) refl

failed_again :
    (state : VideoFileState) (id : TakeId) (camera_id : CameraIdentityId)
    (reason other : ErrorReason) (db : Db) (take : FinishedTake) (video : VideoFile) {db' : Db}
    → get_finished_for_update id db ≡ ok take
    → get_video_file_for_update id camera_id db ≡ some video
    → video.state ≡ state
    → fail_in_state state video take reason false db ≡ ok db'
    → fail_upload id camera_id other db' ≡ ok db'
unfolding fail_in_state
failed_again VideoFileState.uploading id camera_id reason other db take video {db'} got locked same
      h =
    let (new, built, rest) = >>=-eq-ok (validated (new_video_file _ _ _ _ _)) _ h in
    let (parts, _) = new_video_file_parts _ _ _ _ _ {video = new} (map_err-eq-ok _ _ built) in
    let taken = finished-snapshot id db {take = take} got in
    let same_id = ap (λ (v : VideoFile). v.finished_take_id) parts in
    let same_camera = ap (λ (v : VideoFile). v.camera_identity_id) parts in
    let (again, got', _) =
      converged-finished id camera_id db take video new taken got locked same_id same_camera
        {db' = db'} rest in
    let (after, locked', state) =
      written-video id camera_id db take video new taken got locked same_id same_camera {db' = db'}
        rest in
    let errored = state ∙ ap (λ (v : VideoFile). v.state) parts in
    fail_upload-from id camera_id other db' again after got' locked'
    ∙ fail_in_state-decided after.state after again other db'
        (errored_settled after.state reason errored)
failed_again (VideoFileState.completed stored) id camera_id reason other db take video {db'} got
      locked same h =
    let kept : db' ≡ db = ground arith in
    rw kept (fail_upload-from id camera_id other db take video got locked ∙ rw same refl)
failed_again (VideoFileState.errored current) id camera_id reason other db take video {db'} got
      locked same h =
    let kept : db' ≡ db = ground arith in
    rw kept (fail_upload-from id camera_id other db take video got locked ∙ rw same refl)

-- Once failing an upload has succeeded, failing it again, for whatever reason, succeeds and changes
-- nothing.
pub fail_upload_again :
    (id : TakeId) (camera_id : CameraIdentityId) (reason other : ErrorReason) (db db' : Db)
    → fail_upload id camera_id reason db ≡ ok db'
    → fail_upload id camera_id other db' ≡ ok db'
unfolding fail_upload fail_video_file
fail_upload_again id camera_id reason other db db' h =
    let (take, got, rest) = >>=-eq-ok (get_finished_for_update id db) _ h in
    let (video, found, last) =
      >>=-eq-ok (ok_or (get_video_file_for_update take.id camera_id db) _) _ rest in
    let locked : get_video_file_for_update id camera_id db ≡ some video =
      rw (← finished-id id db {take = take} got) (ok_or-eq-ok _ _ found) in
    failed_again video.state id camera_id reason other db take video {db' = db'} got locked refl
      last
