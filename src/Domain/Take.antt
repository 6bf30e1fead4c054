-- ===== src/Domain/Take.antt =====
-- kinugasa-core/src/domain/take.rs: ongoing takes, finished takes and their video files.
use kinugasa_recording.Shared.{
  ℕ, suc, Bool, true, false, not, ◌||◌, List, [], ◌∷◌, Text, ◌==◌, if◌then◌else◌, is_empty, any,
  text_eq, Result, ok, err, ◌>>=◌, ◌>>◌, ensure,
}
use kinugasa_recording.Domain.Values.{
  ValidationError, SessionId, CameraIdentityId, TakeId, Timestamp, ErrorReason,
}
use kinugasa_recording.Domain.Recording.{StoredObject, stored_eq, check_interval}

pub data RecordingCameraState : Type 0 where
  recording : RecordingCameraState
  errored : ErrorReason → RecordingCameraState

pub record RecordingCamera : Type 0 where
  pub ongoing_take_id : TakeId
  pub camera_identity_id : CameraIdentityId
  pub state : RecordingCameraState
  pub started_at : Timestamp

pub record OngoingTake : Type 0 where
  pub id : TakeId
  pub session_id : SessionId
  pub name : Text
  pub started_at : Timestamp
  pub cameras : List RecordingCamera

-- `HashSet::insert` returns whether the value was new.
unfoldable pub is_member : ℕ → List ℕ → Bool
is_member x seen = any (λ y. y == x) seen

-- The loop of `OngoingTake::new`, over the set of camera identifiers seen so far.
unfoldable pub check_recording_cameras :
    TakeId → List CameraIdentityId → List RecordingCamera → Result ValidationError (Unit {0})
unfolding is_member
check_recording_cameras id seen [] = ok tt
check_recording_cameras id seen (camera ∷ cameras) =
    let rest = check_recording_cameras id (camera.camera_identity_id ∷ seen) cameras in
    if not (camera.ongoing_take_id == id)
    then err (record { field = "cameras.ongoing_take_id"; reason = "must match the ongoing take" })
    else if is_member camera.camera_identity_id seen
    then err
        (record { field = "cameras.camera_identity_id"; reason = "must be unique within the take" })
    else rest

unfoldable pub new_ongoing_take :
    TakeId
    → SessionId
    → Text
    → Timestamp
    → List RecordingCamera
    → Result ValidationError OngoingTake
unfolding check_recording_cameras
new_ongoing_take id session_id name started_at cameras = do
  ensure (not (is_empty cameras))
      (record { field = "cameras"; reason = "must contain at least one camera" })
  check_recording_cameras id [] cameras
  ok (record {
    id = id;
    session_id = session_id;
    name = name;
    started_at = started_at;
    cameras = cameras;
  })

pub data FinishedTakeState : Type 0 where
  uploading completed : FinishedTakeState
  errored : ErrorReason → FinishedTakeState

pub record FinishedTake : Type 0 where
  pub id : TakeId
  pub session_id : SessionId
  pub name : Text
  pub state : FinishedTakeState
  pub started_at : Timestamp
  pub finished_at : Timestamp

unfoldable pub new_finished_take :
    TakeId
    → SessionId
    → Text
    → FinishedTakeState
    → Timestamp
    → Timestamp
    → Result ValidationError FinishedTake
unfolding check_interval
new_finished_take id session_id name state started_at finished_at =
    check_interval started_at finished_at (record {
      id = id;
      session_id = session_id;
      name = name;
      state = state;
      started_at = started_at;
      finished_at = finished_at;
    })

pub data VideoFileState : Type 0 where
  uploading : VideoFileState
  completed : StoredObject → VideoFileState
  errored : ErrorReason → VideoFileState

-- The derived `==`.
unfoldable pub video_state_eq : VideoFileState → VideoFileState → Bool
unfolding stored_eq
video_state_eq VideoFileState.uploading VideoFileState.uploading = true
video_state_eq (VideoFileState.completed a) (VideoFileState.completed b) = stored_eq a b
video_state_eq (VideoFileState.errored a) (VideoFileState.errored b) = text_eq a b
video_state_eq _ _ = false

unfoldable pub is_uploading : VideoFileState → Bool
is_uploading VideoFileState.uploading = true
is_uploading _ = false

unfoldable pub is_errored : VideoFileState → Bool
is_errored (VideoFileState.errored reason) = true
is_errored _ = false

pub record VideoFile : Type 0 where
  pub finished_take_id : TakeId
  pub camera_identity_id : CameraIdentityId
  pub state : VideoFileState
  pub started_at : Timestamp
  pub finished_at : Timestamp

unfoldable pub new_video_file :
    TakeId
    → CameraIdentityId
    → VideoFileState
    → Timestamp
    → Timestamp
    → Result ValidationError VideoFile
unfolding check_interval
new_video_file take_id camera_id state started_at finished_at =
    check_interval started_at finished_at (record {
      finished_take_id = take_id;
      camera_identity_id = camera_id;
      state = state;
      started_at = started_at;
      finished_at = finished_at;
    })

pub record FinishedTakeDetail : Type 0 where
  pub take : FinishedTake
  pub video_files : List VideoFile

-- The files counted by the loop of `FinishedTakeDetail::new`.
pub record Tally : Type 0 where
  pub uploading : ℕ
  pub errored : ℕ

unfoldable pub count_state : VideoFileState → Tally → Tally
count_state VideoFileState.uploading t = record t { uploading = suc t.uploading }
count_state (VideoFileState.errored reason) t = record t { errored = suc t.errored }
count_state (VideoFileState.completed stored) t = t

unfoldable pub tally_files :
    TakeId → List CameraIdentityId → Tally → List VideoFile → Result ValidationError Tally
unfolding is_member count_state
tally_files id seen t [] = ok t
tally_files id seen t (file ∷ files) =
    let rest = tally_files id (file.camera_identity_id ∷ seen) (count_state file.state t) files in
    if not (file.finished_take_id == id)
    then err
        (record { field = "video_files.finished_take_id"; reason = "must match the finished take" })
    else if is_member file.camera_identity_id seen
    then err (record {
      field = "video_files.camera_identity_id";
      reason = "must be unique within the take";
    })
    else rest

-- The final `match take.state()`.
unfoldable pub check_take_state :
    FinishedTakeState → List VideoFile → Tally → Result ValidationError (Unit {0})
check_take_state FinishedTakeState.uploading files t =
    if t.uploading == 0
    then err (record {
      field = "video_files";
      reason = "an uploading take must contain an uploading file";
    })
    else ok tt
check_take_state FinishedTakeState.completed files t =
    if is_empty files || (not (t.uploading == 0) || not (t.errored == 0))
    then err (record {
      field = "video_files";
      reason = "a completed take must contain only completed files";
    })
    else ok tt
check_take_state (FinishedTakeState.errored reason) files t =
    if not (t.uploading == 0)
    then err (record {
      field = "video_files";
      reason = "an errored take cannot contain uploading files";
    })
    else ok tt

unfoldable pub new_finished_take_detail :
    FinishedTake → List VideoFile → Result ValidationError FinishedTakeDetail
unfolding tally_files check_take_state
new_finished_take_detail take files = do
  tally ← tally_files take.id [] (record { uploading = 0; errored = 0 }) files
  check_take_state take.state files tally
  ok (record { take = take; video_files = files })
