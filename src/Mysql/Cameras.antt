-- ===== src/Mysql/Cameras.antt =====
-- kinugasa-mysql/src/camera.rs: the statements on cameras.
use kinugasa_recording.Shared.{
  Bool, not, ◌&&◌, ◌||◌, [], ◌∷◌, ◌++◌, Text, ◌==◌, any, find, select, update, text_eq, is_some,
  Result, ok, ◌>>=◌, ◌>>◌, ensure, ok_or, map_err,
}
use kinugasa_recording.Domain.Values.{CameraIdentityId}
use kinugasa_recording.Domain.Camera.{CameraIdentity, CameraConnection, Camera, new_camera}
use kinugasa_recording.Mysql.Tables.{RepositoryError, not_found, corrupt_data, Db, naive}
use kinugasa_recording.Mysql.Takes.{in_session}
use kinugasa_recording.Mysql.Recordings.{option_map}

abbrev pub of_identity : CameraIdentityId → CameraConnection → Bool
of_identity id connection = connection.camera_identity_id == id

-- What the column `deletion_requested_at` keeps.
abbrev pub stored_connection : CameraConnection → CameraConnection
stored_connection connection = record connection {
  deletion_requested_at = option_map naive connection.deletion_requested_at;
}

unfoldable pub create_camera : Camera → Db → Result RepositoryError Db
create_camera camera db = do
  ensure
      (not (
        any
          (λ i.
            i.id == camera.identity.id
            || (i.session_id == camera.identity.session_id && text_eq i.name camera.identity.name))
          db.camera_identities))
      RepositoryError.conflict
  ensure (any (λ s. s.id == camera.identity.session_id) db.sessions) RepositoryError.conflict
  ensure (not (any (of_identity camera.connection.camera_identity_id) db.camera_connections))
      RepositoryError.conflict
  ok (record db {
    camera_identities =
        db.camera_identities
        ++ (record (camera.identity) { created_at = naive camera.identity.created_at }) ∷ [];
    camera_connections = db.camera_connections ++ stored_connection camera.connection ∷ [];
  })

-- `JOIN camera_connections AS cc ON cc.camera_identity_id = ci.id`, and `CameraRow::into_camera`.
unfoldable pub load_camera : CameraIdentity → Db → Result RepositoryError Camera
load_camera identity db = do
  connection ← ok_or (find (of_identity identity.id) db.camera_connections) not_found
  map_err (λ _. corrupt_data) (new_camera identity connection)

unfoldable pub get_camera_by_id_for_update : CameraIdentityId → Db → Result RepositoryError Camera
get_camera_by_id_for_update camera_id db = do
  identity ← ok_or (find (λ i. i.id == camera_id) db.camera_identities) not_found
  load_camera identity db

-- With `cc.deletion_requested_at IS NULL`.
unfoldable pub get_camera_by_name : Text → Text → Db → Result RepositoryError Camera
get_camera_by_name session_name camera_name db = do
  identity ←
      ok_or
        (find
          (λ i.
            in_session session_name db i.session_id
            && (text_eq i.name camera_name
                && any (λ c. of_identity i.id c && not (is_some c.deletion_requested_at))
                    db.camera_connections))
          db.camera_identities)
        not_found
  load_camera identity db

unfoldable pub save_camera_connection : CameraConnection → Db → Db
save_camera_connection connection db = record db {
  camera_connections =
      update (of_identity connection.camera_identity_id) (λ _. stored_connection connection)
        db.camera_connections;
}

-- The rows of `recording_cameras` refer to the connection of their camera.
unfoldable pub delete_camera_connection : CameraIdentityId → Db → Result RepositoryError Db
delete_camera_connection camera_id db = do
  ensure (not (any (λ r. r.camera.camera_identity_id == camera_id) db.recording_cameras))
      RepositoryError.conflict
  ensure (any (of_identity camera_id) db.camera_connections) not_found
  ok (record db {
    camera_connections = select (λ c. not (of_identity camera_id c)) db.camera_connections;
  })
