-- ===== src/Domain/Intervals.antt =====
-- What the constructors with a checked interval build.
use kinugasa_recording.Shared.{◌≤◌, ◌≡◌, Text, ok, arith}
use kinugasa_recording.Domain.Values.{TakeId, SessionId, CameraIdentityId, Timestamp}
use kinugasa_recording.Domain.Take.{
  VideoFileState, VideoFile, new_video_file, FinishedTakeState, FinishedTake, new_finished_take,
}

pub new_video_file_parts :
    (id : TakeId) (camera_id : CameraIdentityId) (state : VideoFileState)
    (started finished : Timestamp) {video : VideoFile}
    → new_video_file id camera_id state started finished ≡ ok video
    → (video ≡ record {
      finished_take_id = id;
      camera_identity_id = camera_id;
      state = state;
      started_at = started;
      finished_at = finished;
    })
      × (started ≤ finished)
unfolding new_video_file
new_video_file_parts id camera_id state started finished h = (ground arith, ground arith)

pub new_finished_take_parts :
    (id : TakeId) (session_id : SessionId) (name : Text) (state : FinishedTakeState)
    (started finished : Timestamp) {take : FinishedTake}
    → new_finished_take id session_id name state started finished ≡ ok take
    → (take ≡ record {
      id = id;
      session_id = session_id;
      name = name;
      state = state;
      started_at = started;
      finished_at = finished;
    })
      × (started ≤ finished)
unfolding new_finished_take
new_finished_take_parts id session_id name state started finished h = (ground arith, ground arith)
