-- ===== src/Mysql/Pending.antt =====
-- kinugasa-mysql/src/recording.rs: the pending uploads.
use kinugasa_recording.Shared.{
  ℕ, zero, suc, Bool, ◌&&◌, List, [], ◌∷◌, ◌++◌, map, ltb, leb, ◌==◌, if◌then◌else◌, select, Result,
  ok, map_err, ◌>>=◌,
}
use kinugasa_recording.Domain.Recording.{FinalizedRecording, new_finalized_recording}
use kinugasa_recording.Domain.Take.{VideoFile, is_uploading, new_video_file}
use kinugasa_recording.Mysql.Tables.{RepositoryError, VideoFileRow, Db, corrupt_data, order_by}
use kinugasa_recording.Ports.Repository.{PendingUpload, new_pending_upload}

-- A row of the join.
pub record PendingRow : Type 0 where
  pub recording : FinalizedRecording
  pub video : VideoFile

-- `ON vf.take_id = fr.take_id AND …`, with `WHERE vf.state = 'uploading'`.
abbrev pub is_pending : FinalizedRecording → VideoFileRow → Bool
is_pending recording row =
    (row.file.finished_take_id == recording.take_id
      && row.file.camera_identity_id == recording.camera_identity_id
      && row.session_id == recording.session_id)
    && is_uploading row.file.state

abbrev pub join_rows : FinalizedRecording → List VideoFileRow → List PendingRow
join_rows recording rows =
    map (λ (row : VideoFileRow). record { recording = recording; video = row.file })
      (select (is_pending recording) rows)

unfoldable pub pending_rows : List FinalizedRecording → List VideoFileRow → List PendingRow
unfolding is_uploading
pending_rows [] rows = []
pending_rows (recording ∷ rest) rows = join_rows recording rows ++ pending_rows rest rows

-- `ORDER BY vf.finished_at ASC, vf.take_id, vf.camera_identity_id`
abbrev pub by_age : PendingRow → PendingRow → Bool
by_age a b =
    if a.video.finished_at == b.video.finished_at
    then (if a.video.finished_take_id == b.video.finished_take_id
        then leb a.video.camera_identity_id b.video.camera_identity_id
        else ltb a.video.finished_take_id b.video.finished_take_id)
    else ltb a.video.finished_at b.video.finished_at

-- `LIMIT`
abbrev pub take {ℓ} : {A : Type ℓ} → ℕ → List A → List A
take zero xs = []
take (suc n) [] = []
take (suc n) (x ∷ xs) = x ∷ take n xs

-- `PendingUploadRow::into_domain`
unfoldable pub into_pending : PendingRow → Result RepositoryError PendingUpload
into_pending row = do
  recording ←
      map_err (λ error. corrupt_data)
        (new_finalized_recording row.recording.take_id row.recording.camera_identity_id
          row.recording.session_id row.recording.started_at row.recording.finished_at
          row.recording.relative_path row.recording.media_type)
  video ←
      map_err (λ error. corrupt_data)
        (new_video_file row.video.finished_take_id row.video.camera_identity_id row.video.state
          row.video.started_at row.video.finished_at)
  map_err (λ error. corrupt_data) (new_pending_upload recording video)

-- `collect` into a result.
unfoldable pub into_all : List PendingRow → Result RepositoryError (List PendingUpload)
unfolding into_pending
into_all [] = ok []
into_all (row ∷ rows) = do upload ← into_pending row; uploads ← into_all rows; ok (upload ∷ uploads)

unfoldable pub list_pending_uploads : ℕ → Db → Result RepositoryError (List PendingUpload)
unfolding pending_rows order_by into_all
list_pending_uploads limit db =
    into_all (take limit (order_by by_age (pending_rows db.finalized_recordings db.video_files)))
