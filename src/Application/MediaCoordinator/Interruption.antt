-- ===== src/Application/MediaCoordinator/Interruption.antt =====
-- kinugasa-core/src/application/media_coordinator.rs: which recordings an event of the media server
-- ends.
use kinugasa_recording.Shared.{
  ◌≡◌, refl, sym, ◌∙◌, Bool, true, false, ◌&&◌, ◌==◌, Option, none, some, List, [], ◌∷◌, any, map,
  select, ok, arith, Bool-cases, inl, inr, >>=-eq-ok, &&-elim, eq_of_==, any-map, any-select,
  any_weaken, map_err-eq-ok,
}
use kinugasa_recording.Domain.Values.{TakeId, CameraIdentityId, ErrorReason, new_error_reason}
use kinugasa_recording.Domain.Take.{RecordingCamera}
use kinugasa_recording.Domain.Camera.{CameraInputState, apply_input_state}
use kinugasa_recording.Mysql.Tables.{RecordingCameraRow, TakeRow, Db, is_ongoing}
use kinugasa_recording.Mysql.Order.{any-order_by}
use kinugasa_recording.Mysql.Recordings.{
  is_recording, at_most_one, get_ongoing_recording_for_camera,
}
use kinugasa_recording.Mysql.Cameras.{get_camera_by_id_for_update, save_camera_connection}
use kinugasa_recording.Application.Errors.{in_repository, validated}
use kinugasa_recording.Application.RecordingState.{persist_recording_failure}
use kinugasa_recording.Application.RecordingState.Ended.{persist_recording_failure-Ends}
use kinugasa_recording.Mysql.ActiveRecordings.{has_distinct_keys, active}
use kinugasa_recording.Application.MediaCoordinator.{
  recording_error, fail_active, fail_ongoing, process_event,
}
use kinugasa_recording.Application.MediaCoordinator.Recovery.{of_recording}

abbrev holds : (RecordingCamera → Bool) → Option RecordingCamera → Bool
holds p none = false
holds p (some recording) = p recording

any-at_most_one :
    (p : RecordingCamera → Bool) (recordings : List RecordingCamera)
    {found : Option RecordingCamera}
    → at_most_one recordings ≡ ok found
    → any p recordings ≡ holds p found
any-at_most_one p [] h = ground arith
any-at_most_one p (a ∷ []) h = ground arith
any-at_most_one p (a ∷ b ∷ rest) h = cc

abbrev takes_part : TakeId → List TakeRow → Bool
takes_part id takes = any (λ t. t.id == id && is_ongoing t.phase) takes

abbrev running : TakeId → CameraIdentityId → RecordingCamera → Bool
running id camera_id recording = of_recording id camera_id recording && is_recording recording.state

-- An active recording of an ongoing take is the one that is found for its camera.
found-active :
    (id : TakeId) (camera_id : CameraIdentityId) (db : Db) {found : Option RecordingCamera}
    → takes_part id db.takes ≡ true
    → get_ongoing_recording_for_camera camera_id db ≡ ok found
    → any (active id camera_id) db.recording_cameras ≡ true
    → holds (running id camera_id) found ≡ true
unfolding get_ongoing_recording_for_camera
found-active id camera_id db {found} ongoing h e =
    let of_camera : RecordingCameraRow → Bool = λ row.
      row.camera.camera_identity_id == camera_id
      && takes_part row.camera.ongoing_take_id db.takes in
    sym (any-at_most_one (running id camera_id) _ {found = found} h)
    ∙ any-order_by _ (running id camera_id)
        (map (λ row. row.camera) (select of_camera db.recording_cameras))
    ∙ any-map (running id camera_id) (λ row. row.camera) (select of_camera db.recording_cameras)
    ∙ any-select (λ row. running id camera_id row.camera) of_camera db.recording_cameras
    ∙ any_weaken (active id camera_id) (λ row. running id camera_id row.camera && of_camera row)
        db.recording_cameras
        (λ row held.
          let same = eq_of_== row.camera.ongoing_take_id id (ground (arith, held)) in
          let part : takes_part row.camera.ongoing_take_id db.takes ≡ true = rw same ongoing in
          ground (arith, held, part))
        e

-- A loss and an error of the input end the camera's recording.
abbrev pub keeps_recording : CameraInputState → Bool
keeps_recording CameraInputState.connected = true
keeps_recording CameraInputState.waiting = false
keeps_recording (CameraInputState.errored reason) = false

module _ (id : TakeId) (camera_id : CameraIdentityId) (db : Db)
    (distinct : has_distinct_keys db.recording_cameras ≡ true) where
  running-ended :
      (recording : RecordingCamera) (reason : ErrorReason) {db' : Db}
      → running id camera_id recording ≡ true
      → fail_active (some recording) reason db ≡ ok db'
      → any (active id camera_id) db'.recording_cameras ≡ false
  unfolding fail_active
  running-ended recording reason {db'} held h =
      let (key, runs) = &&-elim _ _ held in
      let (a, b) = &&-elim _ _ key in
      let failed : persist_recording_failure recording.ongoing_take_id recording.camera_identity_id
            reason db
          ≡ ok db' =
        rw runs at h in
      let (_, ended) =
        persist_recording_failure-Ends recording.ongoing_take_id recording.camera_identity_id reason
          db {db' = db'} distinct failed in
      rw
        (
          ← eq_of_== recording.ongoing_take_id id a,
          ← eq_of_== recording.camera_identity_id camera_id b,
        )
        ended

  fail_active-fewer :
      (found : Option RecordingCamera) (reason : ErrorReason) {db' : Db}
      → fail_active found reason db ≡ ok db'
      → any (active id camera_id) db'.recording_cameras ≡ true
      → any (active id camera_id) db.recording_cameras ≡ true
  unfolding fail_active
  fail_active-fewer none reason {db'} h e = let kept : db' ≡ db = ground arith in rw kept at e
  fail_active-fewer (some r) reason {db'} h e = elim (Bool-cases (is_recording r.state)) [
    | inr stopped ↦ let kept : db' ≡ db = ground (arith, stopped) in rw kept at e
    | inl runs ↦
        let ((_, fewer), _) =
          persist_recording_failure-Ends r.ongoing_take_id r.camera_identity_id reason db
            {db' = db'} distinct (rw runs at h) in
        fewer id camera_id e
  ]

  fail_active-ended :
      (found : Option RecordingCamera) (reason : ErrorReason) {db' : Db}
      → (any (active id camera_id) db.recording_cameras ≡ true
          → holds (running id camera_id) found ≡ true)
      → fail_active found reason db ≡ ok db'
      → any (active id camera_id) db'.recording_cameras ≡ false
  fail_active-ended none reason {db'} is_found h =
      elim (Bool-cases (any (active id camera_id) db'.recording_cameras)) [
        | inr e ↦ e
        | inl e ↦ absurd (ground (arith, is_found (fail_active-fewer none reason {db' = db'} h e)))
      ]
  fail_active-ended (some r) reason {db'} is_found h =
      elim (Bool-cases (any (active id camera_id) db'.recording_cameras)) [
        | inr e ↦ e
        | inl e ↦
            running-ended r reason {db' = db'}
              (is_found (fail_active-fewer (some r) reason {db' = db'} h e)) h
      ]

  fail_ongoing-ended :
      (reason : ErrorReason) {db' : Db}
      → takes_part id db.takes ≡ true
      → fail_ongoing (some reason) camera_id db ≡ ok db'
      → any (active id camera_id) db'.recording_cameras ≡ false
  unfolding fail_ongoing
  fail_ongoing-ended reason {db'} ongoing h =
      let (found, got, rest) =
        >>=-eq-ok (in_repository (get_ongoing_recording_for_camera camera_id db)) _ h in
      fail_active-ended found reason {db' = db'}
        (found-active id camera_id db {found = found} ongoing (map_err-eq-ok _ _ got)) rest

recording_error-ended :
    (state : CameraInputState) (id : TakeId) (camera_id : CameraIdentityId) (db : Db)
    (reason : Option ErrorReason) {db' : Db}
    → has_distinct_keys db.recording_cameras ≡ true
    → takes_part id db.takes ≡ true
    → recording_error state ≡ ok reason
    → fail_ongoing reason camera_id db ≡ ok db'
    → any (active id camera_id) db'.recording_cameras
      ≡ (keeps_recording state && any (active id camera_id) db.recording_cameras)
unfolding recording_error fail_ongoing
recording_error-ended CameraInputState.connected id camera_id db none {db'} distinct ongoing e h =
    let kept : db' ≡ db = ground arith in rw kept refl
recording_error-ended CameraInputState.connected id camera_id db (some reason) {db'} distinct
      ongoing e h =
    cc
recording_error-ended CameraInputState.waiting id camera_id db none {db'} distinct ongoing e h =
    let (reason, _, same) = >>=-eq-ok (validated (new_error_reason _)) _ e in ground (arith, same)
recording_error-ended CameraInputState.waiting id camera_id db (some reason) {db'} distinct ongoing
      e h =
    fail_ongoing-ended id camera_id db distinct reason {db' = db'} ongoing h
recording_error-ended (CameraInputState.errored r) id camera_id db none {db'} distinct ongoing e h =
    cc
recording_error-ended (CameraInputState.errored r) id camera_id db (some reason) {db'} distinct
      ongoing e h =
    fail_ongoing-ended id camera_id db distinct reason {db' = db'} ongoing h

-- When an event of a camera's input has been applied, on tables in which no two recordings have the
-- same take and camera, the camera's recording of a take that was ongoing is active exactly when it was
-- so before and the input is connected: a lost input and one in error end it.
pub process_event-active :
    (take_id : TakeId) (camera_id : CameraIdentityId) (state : CameraInputState) (db : Db)
    {db' : Db}
    → has_distinct_keys db.recording_cameras ≡ true
    → any (λ t. t.id == take_id && is_ongoing t.phase) db.takes ≡ true
    → process_event camera_id state db ≡ ok db'
    → any (active take_id camera_id) db'.recording_cameras
      ≡ (keeps_recording state && any (active take_id camera_id) db.recording_cameras)
unfolding process_event save_camera_connection
process_event-active take_id camera_id state db {db'} distinct ongoing h =
    let (camera, _, rest) =
      >>=-eq-ok (in_repository (get_camera_by_id_for_update camera_id db)) _ h in
    let (connection, _, rest1) =
      >>=-eq-ok (validated (apply_input_state state camera.connection)) _ rest in
    let (reason, found, rest2) = >>=-eq-ok (recording_error state) _ rest1 in
    recording_error-ended state take_id camera_id (save_camera_connection connection db) reason
      {db' = db'} distinct ongoing found rest2
