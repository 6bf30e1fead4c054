-- ===== src/Ports/Examples.antt =====
-- The third page of ten, a take of two cameras, and a hash of equal bytes.
use kinugasa_recording.Shared.{
  ℕ, ◌+◌, ◌-◌, ◌*◌, ◌/◌, ◌<◌, ◌≤◌, ◌≡◌, ◌↔◌, refl, List, [], ◌∷◌, codes, ok, arith,
}
use kinugasa_recording.Domain.Values.{CameraIdentityId}
use kinugasa_recording.Domain.Take.{
  FinishedTakeDetail, FinishedTakeState, VideoFile, VideoFileState,
}
use kinugasa_recording.Media.Sets.{member}
use kinugasa_recording.Ports.Repository.{
  PageRequest, new_page_request, offset, CameraNameEntry, new_named_finished_take_detail,
}
use kinugasa_recording.Ports.Pages.{offset-page}
use kinugasa_recording.Ports.Names.{cameras_of, keys, new_named_finished_take_detail-keys}
use kinugasa_recording.Ports.Hex.{to_hex}
use kinugasa_recording.Ports.Certificates.{from_hex, from_hex-to_hex}

abbrev third : PageRequest
third = record { page = 3; page_size = 10 }

accepted : new_page_request 3 10 ≡ ok third
unfolding new_page_request
accepted = refl

offset-page_example :
    (offset third + third.page_size < 18446744073709551616)
    × (offset third ≡ (3 - 1) * 10)
    × (((offset third ≤ 25) × (25 < offset third + third.page_size)) ↔ (25 / 10 + 1 ≡ 3))
offset-page_example = offset-page 3 10 25 (omega arith) accepted

abbrev file_of : CameraIdentityId → VideoFile
file_of id = record {
  finished_take_id = 1;
  camera_identity_id = id;
  state = VideoFileState.uploading;
  started_at = 10;
  finished_at = 20;
}

abbrev detail : FinishedTakeDetail
detail = record {
  take = record {
    id = 1;
    session_id = 1;
    name = codes "opening";
    state = FinishedTakeState.uploading;
    started_at = 10;
    finished_at = 20;
  };
  video_files = file_of 7 ∷ file_of 8 ∷ [];
}

abbrev names : List CameraNameEntry
names =
    record { camera_identity_id = 7; camera_name = codes "front" }
    ∷ record { camera_identity_id = 8; camera_name = codes "side" }
    ∷ []

new_named_finished_take_detail-keys_example :
    (new_named_finished_take_detail detail names
      ≡ ok (record { detail = detail; camera_names = names }))
    ↔ ((id : CameraIdentityId) → member id (cameras_of detail.video_files) ≡ member id (keys names))
new_named_finished_take_detail-keys_example =
    new_named_finished_take_detail-keys detail names refl refl

abbrev hash : List ℕ
hash =
    171 ∷ 171 ∷ 171 ∷ 171 ∷ 171 ∷ 171 ∷ 171 ∷ 171 ∷ 18 ∷ 18 ∷ 18 ∷ 18 ∷ 18 ∷ 18 ∷ 18 ∷ 18 ∷ 52 ∷ 52
    ∷ 52 ∷ 52 ∷ 52 ∷ 52 ∷ 52 ∷ 52 ∷ 255 ∷ 255 ∷ 255 ∷ 255 ∷ 0 ∷ 0 ∷ 0 ∷ 0 ∷ []

from_hex-to_hex_example : from_hex (to_hex hash) ≡ ok hash
from_hex-to_hex_example = from_hex-to_hex hash refl refl
