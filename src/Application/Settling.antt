-- ===== src/Application/Settling.antt =====
-- kinugasa-core/src/application/camera.rs: the deletion of a camera, against the settled databases.
use kinugasa_recording.Shared.{
  ◌≡◌, refl, Bool, true, false, not, ◌||◌, Option, none, some, List, [], ◌∷◌, Text, is_some,
  is_empty, ok, arith, >>=-eq-ok, ensure, ensure-true, map_err-eq-ok,
}
use kinugasa_recording.Domain.Values.{
  CameraIdentityId, Timestamp, ErrorReason, new_session_name, new_camera_name, new_error_reason,
  new_resource_name,
}
use kinugasa_recording.Domain.Take.{VideoFile, RecordingCamera}
use kinugasa_recording.Domain.Camera.{CameraConnection, request_deletion, Camera}
use kinugasa_recording.Mysql.Tables.{Db}
use kinugasa_recording.Mysql.Recordings.{
  get_ongoing_recording_for_camera, list_uploading_video_files_for_camera,
}
use kinugasa_recording.Mysql.Cameras.{get_camera_by_name, save_camera_connection}
use kinugasa_recording.Application.Errors.{in_repository, validated}
use kinugasa_recording.Application.RecordingState.{fail_upload}
use kinugasa_recording.Application.RecordingState.Settled.{IsSettled}
use kinugasa_recording.Application.RecordingState.Invariant.{IsSettled-same, fail_upload-IsSettled}
use kinugasa_recording.Application.Cameras.{
  aborted_by_deletion, fail_uploads, abort_uploads, delete_camera,
}

save_camera_connection-IsSettled :
    (connection : CameraConnection) (db : Db)
    → IsSettled db
    → IsSettled (save_camera_connection connection db)
unfolding save_camera_connection
save_camera_connection-IsSettled connection db inv =
    IsSettled-same db (save_camera_connection connection db) refl refl inv

fail_uploads-IsSettled :
    (camera_id : CameraIdentityId) (reason : ErrorReason) (videos : List VideoFile) (db : Db)
    {db' : Db}
    → IsSettled db
    → fail_uploads camera_id reason videos db ≡ ok db'
    → IsSettled db'
unfolding fail_uploads
fail_uploads-IsSettled camera_id reason [] db {db'} inv h =
    let kept : db' ≡ db = ground arith in rw kept inv
fail_uploads-IsSettled camera_id reason (video ∷ videos) db {db'} inv h =
    let (mid, first, rest) =
      >>=-eq-ok (fail_upload video.finished_take_id camera_id reason db) _ h in
    fail_uploads-IsSettled camera_id reason videos mid {db' = db'}
      (fail_upload-IsSettled video.finished_take_id camera_id reason db {db' = mid} inv first) rest

abort_uploads-IsSettled :
    (force : Bool) (camera_id : CameraIdentityId) (videos : List VideoFile) (db : Db) {db' : Db}
    → IsSettled db
    → abort_uploads force camera_id videos db ≡ ok db'
    → IsSettled db'
unfolding abort_uploads
abort_uploads-IsSettled false camera_id videos db {db'} inv h =
    let kept : db' ≡ db = ground arith in rw kept inv
abort_uploads-IsSettled true camera_id videos db {db'} inv h =
    let (reason, _, rest) = >>=-eq-ok (validated (new_error_reason aborted_by_deletion)) _ h in
    fail_uploads-IsSettled camera_id reason videos db {db' = db'} inv rest

no_recording :
    (id : CameraIdentityId) (db : Db) (found : Option RecordingCamera)
    → in_repository (get_ongoing_recording_for_camera id db) ≡ ok found
    → not (is_some found) ≡ true
    → get_ongoing_recording_for_camera id db ≡ ok none
no_recording id db none h e = map_err-eq-ok _ _ h
no_recording id db (some r) h e = ground (arith, e)

-- In a database where every take is settled, deleting a camera succeeds only when the session has the
-- camera, no ongoing take records it, and none of its files is uploading or the deletion is forced;
-- and then it leaves every take settled.
pub delete_camera-IsSettled :
    (session_name camera_name : Text) (force : Bool) (now : Timestamp) (db : Db) {db' : Db}
    → IsSettled db
    → delete_camera session_name camera_name force now db ≡ ok db'
    → ((camera : Camera) × (get_camera_by_name session_name camera_name db ≡ ok camera)
        × (get_ongoing_recording_for_camera camera.identity.id db ≡ ok none)
        × ((is_empty (list_uploading_video_files_for_camera camera.identity.id db) || force)
            ≡ true))
      × IsSettled db'
unfolding delete_camera new_session_name new_camera_name new_resource_name
delete_camera-IsSettled session_name camera_name force now db {db'} inv h =
    let (session, first, rest) = >>=-eq-ok (validated (new_session_name session_name)) _ h in
    let (name, second, rest1) = >>=-eq-ok (validated (new_camera_name camera_name)) _ rest in
    let (camera, held, rest2) =
      >>=-eq-ok (in_repository (get_camera_by_name session name db)) _ rest1 in
    let id : CameraIdentityId = camera.identity.id in
    let (recording, got, rest3) =
      >>=-eq-ok (in_repository (get_ongoing_recording_for_camera id db)) _ rest2 in
    let (_, idle, rest4) = >>=-eq-ok (ensure (not (is_some recording)) _) _ rest3 in
    let (_, allowed, rest5) =
      >>=-eq-ok (ensure (is_empty (list_uploading_video_files_for_camera id db) || force) _) _
        rest4 in
    let (mid, aborted, last) =
      >>=-eq-ok (abort_uploads force id (list_uploading_video_files_for_camera id db) db) _ rest5 in
    let final : db' ≡ save_camera_connection (request_deletion now camera.connection) mid =
      ground (arith, last) in
    let same_session : session ≡ session_name = ground (arith, first) in
    let same_name : name ≡ camera_name = ground (arith, second) in
    let here : get_camera_by_name session_name camera_name db ≡ ok camera =
      rw (← same_session, ← same_name) (map_err-eq-ok _ _ held) in
    (
      (
        camera,
        here,
        no_recording id db recording got (ensure-true _ _ idle),
        ensure-true _ _ allowed,
      ),
      rw final (
          save_camera_connection-IsSettled (request_deletion now camera.connection) mid (
            abort_uploads-IsSettled force id (list_uploading_video_files_for_camera id db) db
              {db' = mid} inv aborted)),
    )
