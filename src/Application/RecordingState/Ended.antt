-- ===== src/Application/RecordingState/Ended.antt =====
-- kinugasa-core/src/application/recording_state.rs: which recordings are active after one has failed.
use kinugasa_recording.Shared.{
  ◌≡◌, refl, sym, ◌∙◌, Bool, true, false, not, Option, none, some, List, ◌==◌, any, find, ok, arith,
  Bool-cases, Option-cases, inl, inr, >>=-eq-ok, ok_or,
}
use kinugasa_recording.Domain.Values.{TakeId, CameraIdentityId, ErrorReason}
use kinugasa_recording.Domain.Take.{
  RecordingCameraState, RecordingCamera, FinishedTake, VideoFileState, VideoFile, new_video_file,
}
use kinugasa_recording.Mysql.Tables.{RecordingCameraRow, Db, TakeSnapshot, records}
use kinugasa_recording.Mysql.Takes.{
  get_take_for_update, delete_recording_cameras, save_finished_take,
}
use kinugasa_recording.Mysql.Recordings.{
  is_recording, get_recording_camera_for_update, save_recording_camera, get_video_file_for_update,
  save_video_file,
}
use kinugasa_recording.Application.Errors.{in_repository, validated}
use kinugasa_recording.Application.RecordingState.{
  converge_finished_take, fail_in_state, fail_video_file, fail_recording_row, fail_file_of,
  persist_recording_failure,
}
use kinugasa_recording.Application.RecordingState.Converge.{converge_cases}
use kinugasa_recording.Mysql.ActiveRecordings.{
  has_distinct_keys, active, IsLess, IsLess-refl, IsLess-trans, update-IsLess, update-ended,
  select-IsLess, active-missing, active-found,
}

save_recording-IsLess :
    (recording : RecordingCamera) (db : Db)
    → is_recording recording.state ≡ false
    → IsLess db.recording_cameras (save_recording_camera recording db).recording_cameras
unfolding save_recording_camera
save_recording-IsLess recording db stopped =
    update-IsLess (records recording.ongoing_take_id recording.camera_identity_id) _
      (λ id camera_id row. refl) (λ row. refl) (λ row. refl) (λ row. stopped) db.recording_cameras

save_recording-ended :
    (recording : RecordingCamera) (db : Db)
    → is_recording recording.state ≡ false
    → any
        (active recording.ongoing_take_id recording.camera_identity_id)
        (save_recording_camera recording db).recording_cameras
      ≡ false
unfolding save_recording_camera
save_recording-ended recording db stopped =
    update-ended (records recording.ongoing_take_id recording.camera_identity_id) _
      (λ id camera_id row. refl) (λ row. refl) (λ row. refl) (λ row. stopped) db.recording_cameras
      recording.ongoing_take_id recording.camera_identity_id (λ row h. h)

-- The recording under the key has ended, and no other has become active.
abbrev pub Ends : TakeId → CameraIdentityId → Db → Db → Type 0
Ends id camera_id before after =
    IsLess before.recording_cameras after.recording_cameras
    × (any (active id camera_id) after.recording_cameras ≡ false)

Ends-same :
    (id : TakeId) (camera_id : CameraIdentityId) (db : Db) {db' : Db}
    → db' ≡ db
    → any (active id camera_id) db.recording_cameras ≡ false
    → Ends id camera_id db db'
Ends-same id camera_id db {db'} same ended = rw same (IsLess-refl db.recording_cameras, ended)

not_recorded :
    (id : TakeId) (camera_id : CameraIdentityId) (db : Db)
    → get_recording_camera_for_update id camera_id db ≡ none
    → any (active id camera_id) db.recording_cameras ≡ false
unfolding get_recording_camera_for_update
not_recorded id camera_id db h =
    elim (Option-cases (find (records id camera_id) db.recording_cameras)) [
      | inl e ↦ active-missing id camera_id db.recording_cameras e
      | inr (row, e) ↦ absurd (ground (arith, e, h))
    ]

recorded_errored :
    (id : TakeId) (camera_id : CameraIdentityId) (db : Db) {recording : RecordingCamera}
    → has_distinct_keys db.recording_cameras ≡ true
    → get_recording_camera_for_update id camera_id db ≡ some recording
    → is_recording recording.state ≡ false
    → any (active id camera_id) db.recording_cameras ≡ false
unfolding get_recording_camera_for_update
recorded_errored id camera_id db {recording} distinct h stopped =
    elim (Option-cases (find (records id camera_id) db.recording_cameras)) [
      | inl e ↦ active-missing id camera_id db.recording_cameras e
      | inr (row, e) ↦
          let same : row.camera ≡ recording = ground (arith, e, h) in
          active-found id camera_id db.recording_cameras row distinct e (rw same stopped)
    ]

fail_recording-Ends :
    (state : RecordingCameraState) (take : TakeSnapshot) (recording : RecordingCamera) (id : TakeId)
    (camera_id : CameraIdentityId) (reason : ErrorReason) (db : Db) {db' : Db}
    → has_distinct_keys db.recording_cameras ≡ true
    → get_recording_camera_for_update id camera_id db ≡ some recording
    → recording.state ≡ state
    → fail_recording_row take (some recording) id camera_id reason db ≡ ok db'
    → Ends id camera_id db db'
unfolding fail_recording_row
fail_recording-Ends RecordingCameraState.recording take recording id camera_id reason db {db'}
      distinct got e h =
    let written : RecordingCamera = record {
      ongoing_take_id = id;
      camera_identity_id = camera_id;
      state = RecordingCameraState.errored reason;
      started_at = recording.started_at;
    } in
    let saved : db' ≡ save_recording_camera written db = ground (arith, e) in
    rw saved (save_recording-IsLess written db refl, save_recording-ended written db refl)
fail_recording-Ends (RecordingCameraState.errored current) take recording id camera_id reason db
      {db'} distinct got e h =
    Ends-same id camera_id db {db' = db'} (ground (arith, e))
      (recorded_errored id camera_id db {recording = recording} distinct got (rw e refl))

fail_recording_row-Ends :
    (take : TakeSnapshot) (found : Option RecordingCamera) (id : TakeId)
    (camera_id : CameraIdentityId) (reason : ErrorReason) (db : Db) {db' : Db}
    → has_distinct_keys db.recording_cameras ≡ true
    → get_recording_camera_for_update id camera_id db ≡ found
    → fail_recording_row take found id camera_id reason db ≡ ok db'
    → Ends id camera_id db db'
unfolding fail_recording_row
fail_recording_row-Ends TakeSnapshot.ongoing none id camera_id reason db {db'} distinct got h = cc
fail_recording_row-Ends (TakeSnapshot.finished take) none id camera_id reason db {db'} distinct got
      h =
    Ends-same id camera_id db {db' = db'} (ground arith) (not_recorded id camera_id db got)
fail_recording_row-Ends take (some recording) id camera_id reason db {db'} distinct got h =
    fail_recording-Ends recording.state take recording id camera_id reason db {db' = db'} distinct
      got refl h

converge-IsLess :
    (take : FinishedTake) (db : Db) {db' : Db}
    → converge_finished_take take db ≡ ok db'
    → IsLess db.recording_cameras db'.recording_cameras
unfolding delete_recording_cameras save_finished_take
converge-IsLess take db {db'} h = elim (converge_cases take db {db' = db'} h) [
  | inl (same, _) ↦ rw same (IsLess-refl db.recording_cameras)
  | inr (same, _, _) ↦
      rw same
        (select-IsLess (λ row. not (row.camera.ongoing_take_id == take.id)) db.recording_cameras)
]

fail_in_state-IsLess :
    (state : VideoFileState) (video : VideoFile) (take : FinishedTake) (reason : ErrorReason)
    (strict : Bool) (db : Db) {db' : Db}
    → fail_in_state state video take reason strict db ≡ ok db'
    → IsLess db.recording_cameras db'.recording_cameras
unfolding fail_in_state save_video_file
fail_in_state-IsLess VideoFileState.uploading video take reason strict db {db'} h =
    let (new, built, rest) = >>=-eq-ok (validated (new_video_file _ _ _ _ _)) _ h in
    converge-IsLess take (save_video_file new db) {db' = db'} rest
fail_in_state-IsLess (VideoFileState.completed s) video take reason strict db {db'} h =
    let kept : db' ≡ db = ground arith in rw kept (IsLess-refl db.recording_cameras)
fail_in_state-IsLess (VideoFileState.errored current) video take reason strict db {db'} h =
    let kept : db' ≡ db = ground arith in rw kept (IsLess-refl db.recording_cameras)

fail_file_of-IsLess :
    (take : TakeSnapshot) (camera_id : CameraIdentityId) (reason : ErrorReason) (db : Db) {db' : Db}
    → fail_file_of take camera_id reason db ≡ ok db'
    → IsLess db.recording_cameras db'.recording_cameras
unfolding fail_file_of fail_video_file
fail_file_of-IsLess TakeSnapshot.ongoing camera_id reason db {db'} h =
    let kept : db' ≡ db = ground arith in rw kept (IsLess-refl db.recording_cameras)
fail_file_of-IsLess (TakeSnapshot.finished take) camera_id reason db {db'} h =
    let (video, got, rest) =
      >>=-eq-ok (ok_or (get_video_file_for_update take.id camera_id db) _) _ h in
    fail_in_state-IsLess video.state video take reason true db {db' = db'} rest

none_left :
    (id : TakeId) (camera_id : CameraIdentityId) (before after : List RecordingCameraRow)
    → IsLess before after
    → any (active id camera_id) before ≡ false
    → any (active id camera_id) after ≡ false
none_left id camera_id before after (_, fewer) h =
    elim (Bool-cases (any (active id camera_id) after)) [
      | inr e ↦ e
      | inl e ↦ e ∙ sym (fewer id camera_id e) ∙ h
    ]

-- A failed recording has ended.
pub persist_recording_failure-Ends :
    (id : TakeId) (camera_id : CameraIdentityId) (reason : ErrorReason) (db : Db) {db' : Db}
    → has_distinct_keys db.recording_cameras ≡ true
    → persist_recording_failure id camera_id reason db ≡ ok db'
    → Ends id camera_id db db'
unfolding persist_recording_failure
persist_recording_failure-Ends id camera_id reason db {db'} distinct h =
    let (take, got, rest) = >>=-eq-ok (in_repository (get_take_for_update id db)) _ h in
    let found = get_recording_camera_for_update id camera_id db in
    let (mid, row, last) =
      >>=-eq-ok (fail_recording_row take found id camera_id reason db) _ rest in
    let (less, ended) =
      fail_recording_row-Ends take found id camera_id reason db {db' = mid} distinct refl row in
    let fewer = fail_file_of-IsLess take camera_id reason mid {db' = db'} last in
    (
      IsLess-trans db.recording_cameras mid.recording_cameras db'.recording_cameras less fewer,
      none_left id camera_id mid.recording_cameras db'.recording_cameras fewer ended,
    )
