-- ===== src/Mysql/Takes.antt =====
-- kinugasa-mysql/src/take.rs: the statements on takes.
use kinugasa_recording.Shared.{
  Bool, not, ◌&&◌, Option, none, some, List, [], ◌∷◌, ◌++◌, map, Text, leb, ◌==◌, if◌then◌else◌,
  any, find, select, update, text_eq, Result, ok, err, ◌>>=◌, ◌>>◌, ensure, ok_or, map_err,
}
use kinugasa_recording.Domain.Values.{SessionId, TakeId}
use kinugasa_recording.Domain.Take.{
  RecordingCamera, OngoingTake, FinishedTake, VideoFile, FinishedTakeDetail, new_ongoing_take,
  new_finished_take, new_finished_take_detail,
}
use kinugasa_recording.Mysql.Tables.{
  RepositoryError, not_found, corrupt_data, Phase, TakeRow, Db, TakeSnapshot, has_id, is_ongoing,
  records, of_take, is_file, take_in, identity_in, by_camera, naive, order_by,
}

-- What breaks a unique index or a foreign key is classified as a conflict.
unfoldable pub insert_recording_camera :
    SessionId → RecordingCamera → Db → Result RepositoryError Db
unfolding naive
insert_recording_camera session_id camera db = do
  ensure (not (any (records camera.ongoing_take_id camera.camera_identity_id) db.recording_cameras))
      RepositoryError.conflict
  ensure (any (take_in camera.ongoing_take_id session_id) db.takes) RepositoryError.conflict
  ensure (any (identity_in camera.camera_identity_id session_id) db.camera_identities)
      RepositoryError.conflict
  ensure (any (λ c. c.camera_identity_id == camera.camera_identity_id) db.camera_connections)
      RepositoryError.conflict
  ok (record db {
    recording_cameras =
        db.recording_cameras
        ++ (record {
          session_id = session_id;
          camera = record camera { started_at = naive camera.started_at };
        })
          ∷ [];
  })

unfoldable pub insert_recording_cameras :
    TakeId → SessionId → List RecordingCamera → Db → Result RepositoryError Db
unfolding insert_recording_camera
insert_recording_cameras take_id session_id [] db = ok db
insert_recording_cameras take_id session_id (camera ∷ cameras) db = do
  db' ← insert_recording_camera session_id (record camera { ongoing_take_id = take_id }) db
  insert_recording_cameras take_id session_id cameras db'

unfoldable pub insert_ongoing_take : OngoingTake → Db → Result RepositoryError Db
unfolding insert_recording_cameras text_eq
insert_ongoing_take take db = do
  ensure (not (any (has_id take.id) db.takes)) RepositoryError.conflict
  ensure (not (any (λ t. t.session_id == take.session_id && text_eq t.name take.name) db.takes))
      RepositoryError.conflict
  ensure (not (any (λ t. t.session_id == take.session_id && is_ongoing t.phase) db.takes))
      RepositoryError.conflict
  ensure (any (λ s. s.id == take.session_id) db.sessions) RepositoryError.conflict
  insert_recording_cameras take.id take.session_id take.cameras (record db {
    takes =
        db.takes
        ++ (record {
          id = take.id;
          session_id = take.session_id;
          name = take.name;
          started_at = naive take.started_at;
          phase = Phase.ongoing;
        })
          ∷ [];
  })

-- `FinishedTakeRow::into_domain` on the row that `load_finished_take` selects.
unfoldable pub snapshot : TakeRow → Phase → Result RepositoryError TakeSnapshot
unfolding new_finished_take
snapshot row Phase.ongoing = ok TakeSnapshot.ongoing
snapshot row (Phase.finished state finished_at) = do
  take ←
      map_err (λ _. corrupt_data)
        (new_finished_take row.id row.session_id row.name state row.started_at finished_at)
  ok (TakeSnapshot.finished take)

unfoldable pub get_take_for_update : TakeId → Db → Result RepositoryError TakeSnapshot
unfolding snapshot
get_take_for_update take_id db = do
  row ← ok_or (find (has_id take_id) db.takes) not_found
  snapshot row row.phase

unfoldable pub insert_video_file : SessionId → VideoFile → Db → Result RepositoryError Db
unfolding naive
insert_video_file session_id video db = do
  ensure (not (any (is_file video.finished_take_id video.camera_identity_id) db.video_files))
      RepositoryError.conflict
  ensure (any (take_in video.finished_take_id session_id) db.takes) RepositoryError.conflict
  ensure (any (identity_in video.camera_identity_id session_id) db.camera_identities)
      RepositoryError.conflict
  ok (record db {
    video_files =
        db.video_files
        ++ (record {
          session_id = session_id;
          file = record video {
            started_at = naive video.started_at;
            finished_at = naive video.finished_at;
          };
        })
          ∷ [];
  })

unfoldable pub insert_video_files : SessionId → List VideoFile → Db → Result RepositoryError Db
unfolding insert_video_file
insert_video_files session_id [] db = ok db
insert_video_files session_id (video ∷ videos) db = do
  db' ← insert_video_file session_id video db
  insert_video_files session_id videos db'

-- `UPDATE takes SET phase = 'finished', … WHERE id = ? AND session_id = ? AND phase = 'ongoing'`
unfoldable pub finish_row : FinishedTake → Db → Db
unfolding naive
finish_row take db = record db {
  takes =
      update (λ t. take_in take.id take.session_id t && is_ongoing t.phase)
        (λ t. record t { phase = Phase.finished take.state (naive take.finished_at) }) db.takes;
}

unfoldable pub replace_ongoing_with_finished :
    FinishedTake → List VideoFile → Db → Result RepositoryError Db
unfolding finish_row insert_video_files
replace_ongoing_with_finished take videos db =
    insert_video_files take.session_id videos (finish_row take db)

unfoldable pub save_finished_take : FinishedTake → Db → Db
unfolding naive
save_finished_take take db = record db {
  takes =
      update (λ t. take_in take.id take.session_id t && not (is_ongoing t.phase))
        (λ t. record t {
          started_at = naive take.started_at;
          phase = Phase.finished take.state (naive take.finished_at);
        })
        db.takes;
}

unfoldable pub delete_recording_cameras : TakeId → Db → Db
delete_recording_cameras take_id db = record db {
  recording_cameras =
      select (λ row. not (row.camera.ongoing_take_id == take_id)) db.recording_cameras;
}

-- `JOIN sessions AS s ON s.id = t.session_id WHERE s.name = ?`
abbrev pub in_session : Text → Db → SessionId → Bool
in_session session_name db id = any (λ s. text_eq s.name session_name && s.id == id) db.sessions

-- `load_recording_cameras` and `OngoingTakeRow::into_domain`.
unfoldable pub load_ongoing : TakeRow → Db → Result RepositoryError OngoingTake
unfolding order_by new_ongoing_take
load_ongoing row db =
    map_err (λ _. corrupt_data)
      (new_ongoing_take row.id row.session_id row.name row.started_at (
        order_by (λ a b. leb a.camera_identity_id b.camera_identity_id)
          (map (λ r. r.camera)
            (select (λ r. r.camera.ongoing_take_id == row.id) db.recording_cameras))))

-- The row that was found, or whether the session is there at all.
unfoldable pub load_found : Bool → Option TakeRow → Db → Result RepositoryError (Option OngoingTake)
unfolding load_ongoing
load_found known none db = if known then ok none else err not_found
load_found known (some row) db = do take ← load_ongoing row db; ok (some take)

unfoldable pub get_ongoing : Text → Db → Result RepositoryError (Option OngoingTake)
unfolding load_found text_eq
get_ongoing session_name db =
    load_found (any (λ s. text_eq s.name session_name) db.sessions)
      (find (λ t. in_session session_name db t.session_id && is_ongoing t.phase) db.takes) db

-- The `finished_detail` of a take: its video files, ordered by camera.
unfoldable pub load_detail : FinishedTake → Db → Result RepositoryError FinishedTakeDetail
unfolding order_by new_finished_take_detail
load_detail take db =
    map_err (λ _. corrupt_data)
      (new_finished_take_detail take
        (map (λ row. row.file) (order_by by_camera (select (of_take take.id) db.video_files))))
