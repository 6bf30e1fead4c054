-- ===== src/Ports/Repository.antt =====
-- kinugasa-core/src/ports/repository.rs: pages, finished takes with the names of their cameras, and
-- pending uploads. A BTreeMap is the list of its entries.
use kinugasa_recording.Shared.{
  ℕ, ◌-◌, ◌*◌, ◌%◌, Bool, not, ◌&&◌, ◌||◌, List, Text, ltb, ◌==◌, if◌then◌else◌, length, any,
  Result, ok, err, ensure, ◌>>◌,
}
use kinugasa_recording.Domain.Values.{ValidationError, CameraIdentityId}
use kinugasa_recording.Domain.Recording.{FinalizedRecording}
use kinugasa_recording.Domain.Take.{FinishedTakeDetail, VideoFile, is_uploading}

pub record PageRequest : Type 0 where
  pub page : ℕ
  pub page_size : ℕ

abbrev pub max_page_size : ℕ
max_page_size = 100

unfoldable pub new_page_request : ℕ → ℕ → Result ValidationError PageRequest
new_page_request page page_size =
    if page == 0
    then err (record { field = "page"; reason = "must be at least 1" })
    else if page_size == 0 || ltb max_page_size page_size
    then err (record { field = "page_size"; reason = "must be between 1 and 100" })
    else ok (record { page = page; page_size = page_size })

-- `u64` arithmetic.
unfoldable pub offset : PageRequest → ℕ
offset request = (request.page - 1) * request.page_size % 18446744073709551616

pub record CameraNameEntry : Type 0 where
  pub camera_identity_id : CameraIdentityId
  pub camera_name : Text

pub record NamedFinishedTakeDetail : Type 0 where
  pub detail : FinishedTakeDetail
  pub camera_names : List CameraNameEntry

unfoldable pub contains_key : CameraIdentityId → List CameraNameEntry → Bool
contains_key id names = any (λ entry. entry.camera_identity_id == id) names

unfoldable pub new_named_finished_take_detail :
    FinishedTakeDetail → List CameraNameEntry → Result ValidationError NamedFinishedTakeDetail
unfolding contains_key
new_named_finished_take_detail detail camera_names =
    if not (length detail.video_files == length camera_names)
      || any (λ file. not (contains_key file.camera_identity_id camera_names)) detail.video_files
    then err (record {
      field = "camera_names";
      reason = "must contain exactly one name for every video file";
    })
    else ok (record { detail = detail; camera_names = camera_names })

pub record PendingUpload : Type 0 where
  pub recording : FinalizedRecording
  pub video_file : VideoFile

unfoldable pub new_pending_upload :
    FinalizedRecording → VideoFile → Result ValidationError PendingUpload
unfolding is_uploading
new_pending_upload recording video_file = do
  ensure (is_uploading video_file.state)
      (record { field = "video_file.state"; reason = "must be uploading" })
  ensure
      (recording.take_id == video_file.finished_take_id
        && recording.camera_identity_id == video_file.camera_identity_id)
      (record { field = "video_file"; reason = "must identify the finalized recording" })
  ok (record { recording = recording; video_file = video_file })
