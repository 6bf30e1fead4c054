-- ===== src/Application/RecordingState/Invariant.antt =====
-- kinugasa-core/src/application/recording_state.rs: started and failed recordings and failed uploads,
-- against the settled databases.
use kinugasa_recording.Shared.{
  ◌≡◌, refl, sym, ap, ◌∙◌, Bool, true, false, Option, none, some, find, ok, arith, Option-cases,
  inl, inr, find_holds, >>=-eq-ok, map_err-eq-ok, ok_or, ok_or-eq-ok,
}
use kinugasa_recording.Domain.Values.{TakeId, CameraIdentityId, ErrorReason, Timestamp}
use kinugasa_recording.Domain.Take.{
  FinishedTake, VideoFileState, VideoFile, is_uploading, new_video_file, RecordingCamera,
}
use kinugasa_recording.Mysql.Tables.{VideoFileRow, Db, TakeSnapshot, is_file}
use kinugasa_recording.Mysql.Takes.{get_take_for_update}
use kinugasa_recording.Mysql.Recordings.{
  save_recording_camera, get_video_file_for_update, get_recording_camera_for_update,
  save_video_file,
}
use kinugasa_recording.Application.Errors.{validated, in_repository}
use kinugasa_recording.Application.RecordingState.{
  persist_recording_started, fail_in_state, fail_video_file, fail_recording_row, fail_file_of,
  persist_recording_failure, fail_upload, get_finished_for_update, converge_finished_take,
}
use kinugasa_recording.Application.RecordingState.Settled.{
  row_uploading, IsSettled, snapshot-finished,
}
use kinugasa_recording.Application.RecordingState.Converge.{write_converge-IsSettled, file-any}

-- A settled database stays so when neither takes nor video files change.
pub IsSettled-same :
    (db db' : Db)
    → db'.takes ≡ db.takes
    → db'.video_files ≡ db.video_files
    → IsSettled db
    → IsSettled db'
IsSettled-same db db' same_takes same_files inv j t e = rw same_files (inv j t (rw same_takes at e))

save_recording_camera-IsSettled :
    (recording : RecordingCamera) (db : Db)
    → IsSettled db
    → IsSettled (save_recording_camera recording db)
unfolding save_recording_camera
save_recording_camera-IsSettled recording db inv =
    IsSettled-same db (save_recording_camera recording db) refl refl inv

-- A video file that a locked read returns stands in a row.
pub video-row :
    (id : TakeId) (camera_id : CameraIdentityId) (db : Db) {video : VideoFile}
    → get_video_file_for_update id camera_id db ≡ some video
    → (row : VideoFileRow) × (find (is_file id camera_id) db.video_files ≡ some row)
      × (row.file ≡ video)
      × (video.finished_take_id ≡ id)
      × (video.camera_identity_id ≡ camera_id)
unfolding get_video_file_for_update
video-row id camera_id db {video} h =
    elim (Option-cases (find (is_file id camera_id) db.video_files)) [
      | inl e ↦ cc
      | inr (row, e) ↦
          let held = find_holds (is_file id camera_id) db.video_files row e in
          (row, e, ground arith, ground (arith, held), ground (arith, held))
    ]

-- Writing a new state to an uploading file, with its interval, and converging.
module _ (id : TakeId) (camera_id : CameraIdentityId) (db : Db) (take : FinishedTake)
    (video : VideoFile) (state : VideoFileState) (inv : IsSettled db)
    (taken : get_take_for_update id db ≡ ok (TakeSnapshot.finished take))
    (locked : get_video_file_for_update id camera_id db ≡ some video)
    (up : is_uploading video.state ≡ true) where
  pub resolve-IsSettled :
      (new : VideoFile) {db' : Db}
      → new_video_file video.finished_take_id video.camera_identity_id state video.started_at
          video.finished_at
        ≡ ok new
      → converge_finished_take take (save_video_file new db) ≡ ok db'
      → IsSettled db'
  unfolding new_video_file
  resolve-IsSettled new {db'} built h =
      let (row, found, same, of_this, _) = video-row id camera_id db {video = video} locked in
      write_converge-IsSettled id db take new inv taken (ground (arith, of_this))
        (file-any id camera_id db row_uploading row found (rw same up)) {db' = db'} h

module _ (id : TakeId) (camera_id : CameraIdentityId) (take : FinishedTake) (db : Db)
    (inv : IsSettled db) (taken : get_take_for_update id db ≡ ok (TakeSnapshot.finished take)) where
  fail_in_state-IsSettled :
      (state : VideoFileState) (video : VideoFile) (reason : ErrorReason) (strict : Bool) {db' : Db}
      → get_video_file_for_update id camera_id db ≡ some video
      → video.state ≡ state
      → fail_in_state state video take reason strict db ≡ ok db'
      → IsSettled db'
  unfolding fail_in_state is_uploading
  fail_in_state-IsSettled VideoFileState.uploading video reason strict {db'} locked same h =
      let (new, built, rest) = >>=-eq-ok (validated (new_video_file _ _ _ _ _)) _ h in
      resolve-IsSettled id camera_id db take video (VideoFileState.errored reason) inv taken locked
        (rw same) new {db' = db'} (map_err-eq-ok _ _ built) rest
  fail_in_state-IsSettled (VideoFileState.completed stored) video reason strict {db'} locked same
        h =
      let kept : db' ≡ db = ground arith in rw kept inv
  fail_in_state-IsSettled (VideoFileState.errored current) video reason strict {db'} locked same h =
      let kept : db' ≡ db = ground arith in rw kept inv

  fail_video_file-IsSettled :
      (reason : ErrorReason) (strict : Bool) {db' : Db}
      → fail_video_file take camera_id reason strict db ≡ ok db'
      → IsSettled db'
  unfolding fail_video_file
  fail_video_file-IsSettled reason strict {db'} h =
      let (row, here, phase, same_id, session) = snapshot-finished id db {take = take} taken in
      let (video, got, rest) =
        >>=-eq-ok (ok_or (get_video_file_for_update take.id camera_id db) _) _ h in
      fail_in_state-IsSettled video.state video reason strict {db' = db'}
        (ap (λ k. get_video_file_for_update k camera_id db) (sym same_id) ∙ ok_or-eq-ok _ _ got)
        refl rest

pub get_take-same :
    (id : TakeId) (db db' : Db)
    → db'.takes ≡ db.takes
    → get_take_for_update id db' ≡ get_take_for_update id db
unfolding get_take_for_update
get_take-same id db db' same = rw same

-- Failing a recording's row touches neither takes nor files.
pub fail_recording_row_same :
    (take : TakeSnapshot) (found : Option RecordingCamera) (id : TakeId)
    (camera_id : CameraIdentityId) (reason : ErrorReason) (db : Db) {db' : Db}
    → fail_recording_row take found id camera_id reason db ≡ ok db'
    → (db'.takes ≡ db.takes)
      × (db'.video_files ≡ db.video_files)
      × (db'.finalized_recordings ≡ db.finalized_recordings)
unfolding fail_recording_row save_recording_camera
fail_recording_row_same TakeSnapshot.ongoing none id camera_id reason db h = cc
fail_recording_row_same (TakeSnapshot.finished take) none id camera_id reason db h =
    (ground arith, ground arith, ground arith)
fail_recording_row_same TakeSnapshot.ongoing (some r) id camera_id reason db h =
    (ground arith, ground arith, ground arith)
fail_recording_row_same (TakeSnapshot.finished take) (some r) id camera_id reason db h =
    (ground arith, ground arith, ground arith)

fail_file_of-IsSettled :
    (id : TakeId) (camera_id : CameraIdentityId) (take : TakeSnapshot) (reason : ErrorReason)
    (db : Db) {db' : Db}
    → IsSettled db
    → get_take_for_update id db ≡ ok take
    → fail_file_of take camera_id reason db ≡ ok db'
    → IsSettled db'
unfolding fail_file_of
fail_file_of-IsSettled id camera_id TakeSnapshot.ongoing reason db {db'} inv taken h =
    let kept : db' ≡ db = ground arith in rw kept inv
fail_file_of-IsSettled id camera_id (TakeSnapshot.finished take) reason db {db'} inv taken h =
    fail_video_file-IsSettled id camera_id take db inv taken reason true {db' = db'} h

-- In a database where every take is settled, failing a recording, when it succeeds, leaves every take
-- settled.
pub persist_recording_failure-IsSettled :
    (id : TakeId) (camera_id : CameraIdentityId) (reason : ErrorReason) (db : Db) {db' : Db}
    → IsSettled db
    → persist_recording_failure id camera_id reason db ≡ ok db'
    → IsSettled db'
unfolding persist_recording_failure
persist_recording_failure-IsSettled id camera_id reason db {db'} inv h =
    let (take, got, rest) = >>=-eq-ok (in_repository (get_take_for_update id db)) _ h in
    let (mid, row, last) =
      >>=-eq-ok
        (fail_recording_row take (get_recording_camera_for_update id camera_id db) id camera_id
          reason db)
        _ rest in
    let (takes, files, _) = fail_recording_row_same take _ id camera_id reason db {db' = mid} row in
    fail_file_of-IsSettled id camera_id take reason mid {db' = db'}
      (IsSettled-same db mid takes files inv)
      (get_take-same id db mid takes ∙ map_err-eq-ok _ _ got) last

pub finished-snapshot :
    (id : TakeId) (db : Db) {take : FinishedTake}
    → get_finished_for_update id db ≡ ok take
    → get_take_for_update id db ≡ ok (TakeSnapshot.finished take)
unfolding get_finished_for_update
finished-snapshot id db {take} h =
    let (found, got, only) = >>=-eq-ok (in_repository (get_take_for_update id db)) _ h in
    map_err-eq-ok _ _ got ∙ ground (arith, only)

pub persist_recording_started-IsSettled :
    (id : TakeId) (camera_id : CameraIdentityId) (at : Timestamp) (db : Db) {db' : Db}
    → IsSettled db
    → persist_recording_started id camera_id at db ≡ ok db'
    → IsSettled db'
unfolding persist_recording_started save_recording_camera
persist_recording_started-IsSettled id camera_id at db {db'} inv h =
    IsSettled-same db db' (ground arith) (ground arith) inv

-- In a database where every take is settled, failing an upload, when it succeeds, leaves every take
-- settled.
pub fail_upload-IsSettled :
    (id : TakeId) (camera_id : CameraIdentityId) (reason : ErrorReason) (db : Db) {db' : Db}
    → IsSettled db
    → fail_upload id camera_id reason db ≡ ok db'
    → IsSettled db'
unfolding fail_upload
fail_upload-IsSettled id camera_id reason db {db'} inv h =
    let (take, got, rest) = >>=-eq-ok (get_finished_for_update id db) _ h in
    fail_video_file-IsSettled id camera_id take db inv (finished-snapshot id db {take = take} got)
      reason false {db' = db'} rest
