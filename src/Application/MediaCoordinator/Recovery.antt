-- ===== src/Application/MediaCoordinator/Recovery.antt =====
-- kinugasa-core/src/application/media_coordinator.rs: a restart while a take with an uploaded video
-- file is still uploading another.
use kinugasa_recording.Shared.{
  ◌≡◌, ◌≢◌, ap, ◌∙◌, Bool, true, false, ◌&&◌, some, List, [], ◌∷◌, ◌==◌, find, any, ok, arith,
  Option-cases, inl, inr, >>=-eq-ok, map_err-eq-ok, ok_or, Bool-cases, &&-elim, eq_of_==, map,
  any-map, any-select,
}
use kinugasa_recording.Domain.Values.{TakeId, CameraIdentityId, ErrorReason, new_error_reason}
use kinugasa_recording.Domain.Recording.{StoredObject}
use kinugasa_recording.Domain.Take.{
  FinishedTake, VideoFileState, VideoFile, is_uploading, RecordingCamera, new_video_file,
}
use kinugasa_recording.Mysql.Tables.{TakeRow, Db, TakeSnapshot, has_id, is_ongoing, records}
use kinugasa_recording.Mysql.Order.{any-order_by}
use kinugasa_recording.Mysql.Takes.{get_take_for_update, snapshot}
use kinugasa_recording.Mysql.Recordings.{
  get_video_file_for_update, get_recording_camera_for_update, list_active_recordings,
  save_video_file, is_recording,
}
use kinugasa_recording.Application.Errors.{in_repository, validated}
use kinugasa_recording.Application.RecordingState.{
  fail_in_state, fail_video_file, fail_recording_row, fail_file_of, persist_recording_failure,
  converge_finished_take,
}
use kinugasa_recording.Application.RecordingState.Converge.{
  converge_cases, converged, find_take-save_finished,
}
use kinugasa_recording.Application.RecordingState.Settled.{snapshot-finished}
use kinugasa_recording.Application.RecordingState.Invariant.{fail_recording_row_same}
use kinugasa_recording.Application.RecordingState.Terminal.{persist_recording_failure-IsKept}
use kinugasa_recording.Application.MediaCoordinator.{
  fail_recordings, recover_recordings, recording_interrupted,
}

-- The take has finished and the video file of the camera has been uploaded.
abbrev pub IsUploaded : TakeId → CameraIdentityId → StoredObject → Db → Type 0
IsUploaded id camera_id stored db =
    ((t : TakeRow) → find (has_id id) db.takes ≡ some t → is_ongoing t.phase ≡ false)
    × ((video : VideoFile) × (get_video_file_for_update id camera_id db ≡ some video)
        × (video.state ≡ VideoFileState.completed stored))

finished-phase :
    (id : TakeId) (db : Db)
    → ((t : TakeRow) → find (has_id id) db.takes ≡ some t → is_ongoing t.phase ≡ false)
    → get_take_for_update id db ≢ ok TakeSnapshot.ongoing
unfolding get_take_for_update snapshot
finished-phase id db finished h = elim (Option-cases (find (has_id id) db.takes)) [
  | inl e ↦ cc
  | inr (row, e) ↦ ground (arith, finished row e)
]

-- Failing the upload of a video file that has been uploaded is refused.
failed-uploaded :
    (take : TakeSnapshot) (id : TakeId) (camera_id : CameraIdentityId) (reason : ErrorReason)
    (stored : StoredObject) (db : Db) {db' : Db}
    → IsUploaded id camera_id stored db
    → get_take_for_update id db ≡ ok take
    → fail_file_of take camera_id reason db ≢ ok db'
unfolding fail_file_of fail_video_file fail_in_state
failed-uploaded TakeSnapshot.ongoing id camera_id reason stored db uploaded taken h =
    finished-phase id db uploaded.0 taken
failed-uploaded (TakeSnapshot.finished take) id camera_id reason stored db (_, (video, held, state))
      taken h =
    let (_, _, _, same, _) = snapshot-finished id db {take = take} taken in
    ground (arith, held, state, same)

taken-same :
    (id : TakeId) (db db' : Db)
    → db'.takes ≡ db.takes
    → get_take_for_update id db' ≡ get_take_for_update id db
unfolding get_take_for_update
taken-same id db db' same = rw same

IsUploaded-same :
    (id : TakeId) (camera_id : CameraIdentityId) (stored : StoredObject) (db db' : Db)
    → db'.takes ≡ db.takes
    → db'.video_files ≡ db.video_files
    → IsUploaded id camera_id stored db
    → IsUploaded id camera_id stored db'
unfolding get_video_file_for_update
IsUploaded-same id camera_id stored db db' takes files (finished, (video, held, state)) =
    ((λ t e. finished t (rw (← takes) e)), (video, rw files held, state))

persist_recording_failure-IsUploaded :
    (id : TakeId) (camera_id : CameraIdentityId) (reason : ErrorReason) (stored : StoredObject)
    (db : Db) {db' : Db}
    → IsUploaded id camera_id stored db
    → persist_recording_failure id camera_id reason db ≢ ok db'
unfolding persist_recording_failure
persist_recording_failure-IsUploaded id camera_id reason stored db {db'} uploaded h =
    let (take, got, rest) = >>=-eq-ok (in_repository (get_take_for_update id db)) _ h in
    let (mid, row, last) =
      >>=-eq-ok
        (fail_recording_row take (get_recording_camera_for_update id camera_id db) id camera_id
          reason db)
        _ rest in
    let (takes, files, _) = fail_recording_row_same take _ id camera_id reason db {db' = mid} row in
    failed-uploaded take id camera_id reason stored mid {db' = db'}
      (IsUploaded-same id camera_id stored db mid takes files uploaded)
      (taken-same id db mid takes ∙ map_err-eq-ok _ _ got) last

-- No transition below makes a finished take ongoing again.
abbrev IsFinished : TakeId → Db → Type 0
IsFinished id db = (t : TakeRow) → find (has_id id) db.takes ≡ some t → is_ongoing t.phase ≡ false

converge-IsFinished :
    (id : TakeId) (take : FinishedTake) (db : Db) {db' : Db}
    → IsFinished id db
    → converge_finished_take take db ≡ ok db'
    → IsFinished id db'
converge-IsFinished id take db {db'} finished h t e = elim (converge_cases take db {db' = db'} h) [
  | inl (same, _) ↦ finished t (rw (← ap (λ d. d.takes) same) e)
  | inr (same, _, _) ↦
      let (a, found, written) =
        find_take-save_finished id (converged take db) db t (rw (← ap (λ d. d.takes) same) e) in
      ground (arith, written, finished a found)
]

fail_in_state-IsFinished :
    (id : TakeId) (state : VideoFileState) (video : VideoFile) (take : FinishedTake)
    (reason : ErrorReason) (db : Db) {db' : Db}
    → IsFinished id db
    → fail_in_state state video take reason true db ≡ ok db'
    → IsFinished id db'
unfolding fail_in_state save_video_file
fail_in_state-IsFinished id VideoFileState.uploading video take reason db {db'} finished h =
    let (new, built, rest) = >>=-eq-ok (validated (new_video_file _ _ _ _ _)) _ h in
    converge-IsFinished id take (save_video_file new db) {db' = db'} finished rest
fail_in_state-IsFinished id (VideoFileState.completed s) video take reason db {db'} finished h = cc
fail_in_state-IsFinished id (VideoFileState.errored current) video take reason db {db'} finished h =
    let kept : db' ≡ db = ground arith in rw kept finished

fail_file_of-IsFinished :
    (id : TakeId) (take : TakeSnapshot) (camera_id : CameraIdentityId) (reason : ErrorReason)
    (db : Db) {db' : Db}
    → IsFinished id db
    → fail_file_of take camera_id reason db ≡ ok db'
    → IsFinished id db'
unfolding fail_file_of fail_video_file
fail_file_of-IsFinished id TakeSnapshot.ongoing camera_id reason db {db'} finished h =
    let kept : db' ≡ db = ground arith in rw kept finished
fail_file_of-IsFinished id (TakeSnapshot.finished take) camera_id reason db {db'} finished h =
    let (video, got, rest) =
      >>=-eq-ok (ok_or (get_video_file_for_update take.id camera_id db) _) _ h in
    fail_in_state-IsFinished id video.state video take reason db {db' = db'} finished rest

IsUploaded-failure :
    (id : TakeId) (camera_id : CameraIdentityId) (stored : StoredObject) (k : TakeId)
    (c : CameraIdentityId) (reason : ErrorReason) (db : Db) {db' : Db}
    → IsUploaded id camera_id stored db
    → persist_recording_failure k c reason db ≡ ok db'
    → IsUploaded id camera_id stored db'
unfolding persist_recording_failure is_uploading
IsUploaded-failure id camera_id stored k c reason db {db'} (finished, (video, held, state)) h =
    let (take, got, rest) = >>=-eq-ok (in_repository (get_take_for_update k db)) _ h in
    let (mid, row, last) =
      >>=-eq-ok (fail_recording_row take (get_recording_camera_for_update k c db) k c reason db) _
        rest in
    let (takes, files, _) = fail_recording_row_same take _ k c reason db {db' = mid} row in
    let mid_finished : IsFinished id mid = (λ t e. finished t (rw (← takes) e)) in
    (
      fail_file_of-IsFinished id take c reason mid {db' = db'} mid_finished last,
      (
        video,
        persist_recording_failure-IsKept id camera_id k c reason db {db' = db'} h video held
            (rw state),
        state,
      ),
    )

abbrev pub of_recording : TakeId → CameraIdentityId → RecordingCamera → Bool
of_recording id camera_id r = r.ongoing_take_id == id && r.camera_identity_id == camera_id

fail_recordings-IsUploaded :
    (id : TakeId) (camera_id : CameraIdentityId) (stored : StoredObject) (reason : ErrorReason)
    (recordings : List RecordingCamera) (db : Db) {db' : Db}
    → any (of_recording id camera_id) recordings ≡ true
    → IsUploaded id camera_id stored db
    → fail_recordings reason recordings db ≢ ok db'
unfolding fail_recordings
fail_recordings-IsUploaded id camera_id stored reason [] db here uploaded h = cc
fail_recordings-IsUploaded id camera_id stored reason (r ∷ recordings) db {db'} here uploaded h =
    let (mid, first, rest) =
      >>=-eq-ok (persist_recording_failure r.ongoing_take_id r.camera_identity_id reason db) _ h in
    elim (Bool-cases (of_recording id camera_id r)) [
      | inl hit ↦
          let (a, b) = &&-elim _ _ hit in
          let failed : persist_recording_failure id camera_id reason db ≡ ok mid =
            rw (← eq_of_== r.ongoing_take_id id a, ← eq_of_== r.camera_identity_id camera_id b)
              first in
          persist_recording_failure-IsUploaded id camera_id reason stored db {db' = mid} uploaded
            failed
      | inr miss ↦
          fail_recordings-IsUploaded id camera_id stored reason recordings mid {db' = db'}
            (ground (arith, here, miss))
            (IsUploaded-failure id camera_id stored r.ongoing_take_id r.camera_identity_id reason db
              {db' = mid} uploaded first)
            rest
    ]

pub listed :
    (id : TakeId) (camera_id : CameraIdentityId) (db : Db)
    → any (λ row. records id camera_id row && is_recording row.camera.state) db.recording_cameras
      ≡ true
    → any (of_recording id camera_id) (list_active_recordings db) ≡ true
unfolding list_active_recordings
listed id camera_id db h =
    any-order_by _ (of_recording id camera_id) (map (λ row. row.camera) _)
    ∙ any-map (of_recording id camera_id) (λ row. row.camera) _
    ∙ any-select (records id camera_id) (λ row. is_recording row.camera.state) db.recording_cameras
    ∙ h

-- When some take has finished, the video file of one of its cameras has been uploaded, and the row of
-- that camera's recording is still `recording`, recovery after a restart succeeds with no database.
pub recover_recordings-IsUploaded :
    (id : TakeId) (camera_id : CameraIdentityId) (stored : StoredObject) (db db' : Db)
    → IsUploaded id camera_id stored db
    → any (λ row. records id camera_id row && is_recording row.camera.state) db.recording_cameras
      ≡ true
    → recover_recordings db ≢ ok db'
unfolding recover_recordings
recover_recordings-IsUploaded id camera_id stored db db' uploaded here h =
    let (reason, _, rest) = >>=-eq-ok (validated (new_error_reason recording_interrupted)) _ h in
    fail_recordings-IsUploaded id camera_id stored reason (list_active_recordings db) db {db' = db'}
      (listed id camera_id db here) uploaded rest
