-- ===== src/Application/MediaCoordinator/Completion.antt =====
-- kinugasa-core/src/application/media_coordinator.rs: what a recovery after a restart leaves to recover.
use kinugasa_recording.Shared.{
  ◌≡◌, refl, true, false, List, [], ◌∷◌, any, ok, arith, Bool-cases, inl, inr, >>=-eq-ok, &&-elim,
  eq_of_==, ==-refl, select_none,
}
use kinugasa_recording.Domain.Values.{TakeId, CameraIdentityId, ErrorReason, new_error_reason}
use kinugasa_recording.Domain.Take.{RecordingCamera}
use kinugasa_recording.Mysql.Tables.{RecordingCameraRow, Db, order_by}
use kinugasa_recording.Mysql.Recordings.{is_recording, list_active_recordings}
use kinugasa_recording.Application.Errors.{validated}
use kinugasa_recording.Application.RecordingState.{persist_recording_failure}
use kinugasa_recording.Application.RecordingState.Ended.{persist_recording_failure-Ends}
use kinugasa_recording.Mysql.ActiveRecordings.{has_distinct_keys, active}
use kinugasa_recording.Application.MediaCoordinator.{
  fail_recordings, recover_recordings, recording_interrupted,
}
use kinugasa_recording.Application.MediaCoordinator.Recovery.{of_recording, listed}

-- A recording that is active after the loop was so before, and is not one of those in the list.
fail_recordings-active :
    (reason : ErrorReason) (recordings : List RecordingCamera) (db : Db) (id : TakeId)
    (camera_id : CameraIdentityId) {db' : Db}
    → has_distinct_keys db.recording_cameras ≡ true
    → fail_recordings reason recordings db ≡ ok db'
    → any (active id camera_id) db'.recording_cameras ≡ true
    → (any (active id camera_id) db.recording_cameras ≡ true)
      × (any (of_recording id camera_id) recordings ≡ false)
unfolding fail_recordings
fail_recordings-active reason [] db id camera_id {db'} distinct h e =
    let kept : db' ≡ db = ground arith in (rw kept at e, refl)
fail_recordings-active reason (r ∷ recordings) db id camera_id {db'} distinct h e =
    let (mid, first, rest) =
      >>=-eq-ok (persist_recording_failure r.ongoing_take_id r.camera_identity_id reason db) _ h in
    let ((keys, fewer), ended) =
      persist_recording_failure-Ends r.ongoing_take_id r.camera_identity_id reason db {db' = mid}
        distinct first in
    let (before, others) =
      fail_recordings-active reason recordings mid id camera_id {db' = db'} (keys distinct) rest
        e in
    (
      fewer id camera_id before,
      elim (Bool-cases (of_recording id camera_id r)) [
        | inr miss ↦ ground (arith, miss, others)
        | inl hit ↦
            let (a, b) = &&-elim _ _ hit in
            let gone : any (active id camera_id) mid.recording_cameras ≡ false =
              rw (← eq_of_== r.ongoing_take_id id a, ← eq_of_== r.camera_identity_id camera_id b)
                ended in
            absurd (ground (arith, gone, before))
      ],
    )

-- A row that is recording is active under its own key.
active-own :
    (rows : List RecordingCameraRow)
    → any (λ row. is_recording row.camera.state) rows ≡ true
    → (row : RecordingCameraRow) × (any
          (active row.camera.ongoing_take_id row.camera.camera_identity_id)
          rows
        ≡ true)
active-own [] h = absurd (ground arith)
active-own (row ∷ rows) h = elim (Bool-cases (is_recording row.camera.state)) [
  | inl hit ↦ (
    row,
    rw (==-refl row.camera.ongoing_take_id, ==-refl row.camera.camera_identity_id, hit) refl,
  )
  | inr miss ↦
      let (found, here) = active-own rows (ground (arith, h, miss)) in (found, ground (arith, here))
]

all-ended :
    (rows : List RecordingCameraRow)
    → ((id : TakeId) (camera_id : CameraIdentityId) → any (active id camera_id) rows ≡ true → ⊥)
    → any (λ row. is_recording row.camera.state) rows ≡ false
all-ended rows h = elim (Bool-cases (any (λ row. is_recording row.camera.state) rows)) [
  | inr e ↦ e
  | inl e ↦
      let (row, here) = active-own rows e in
      absurd (h row.camera.ongoing_take_id row.camera.camera_identity_id here)
]

none_active :
    (db : Db)
    → any (λ row. is_recording row.camera.state) db.recording_cameras ≡ false
    → list_active_recordings db ≡ []
unfolding list_active_recordings order_by
none_active db h =
    rw (select_none (λ row. is_recording row.camera.state) db.recording_cameras h) refl

-- Recovery after a restart, when it succeeds on tables in which no two recordings have the same take
-- and camera, leaves no recording active, neither of an ongoing nor of a finished take.
pub recover_recordings-active :
    (db : Db) {db' : Db}
    → has_distinct_keys db.recording_cameras ≡ true
    → recover_recordings db ≡ ok db'
    → list_active_recordings db' ≡ []
unfolding recover_recordings
recover_recordings-active db {db'} distinct h =
    let (reason, _, rest) = >>=-eq-ok (validated (new_error_reason recording_interrupted)) _ h in
    none_active db' (
      all-ended db'.recording_cameras (λ id camera_id e.
        let (before, others) =
          fail_recordings-active reason (list_active_recordings db) db id camera_id {db' = db'}
            distinct rest e in
        let there = listed id camera_id db before in ground (arith, there, others)))
