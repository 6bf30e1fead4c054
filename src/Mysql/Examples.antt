-- ===== src/Mysql/Examples.antt =====
-- States written to columns and read back.
use kinugasa_recording.Shared.{
  ℕ, zero, suc, ◌≡◌, refl, false, Option, some, List, [], ◌∷◌, Text, codes, is_whitespace, is_blank,
  ok,
}
use kinugasa_recording.Domain.Recording.{StoredObject}
use kinugasa_recording.Domain.Take.{RecordingCameraState, FinishedTakeState, VideoFileState}
use kinugasa_recording.Domain.Camera.{CameraConnectionState, Url}
use kinugasa_recording.Mysql.Columns.{
  recording_state, parse_recording_state, finished_state, parse_finished_state, video_state,
  parse_video_state, connection_values, parse_camera_connection_state,
}
use kinugasa_recording.Mysql.Columns.RoundTrips.{
  parse-recording_state, parse-video_state, parse-finished_state, parse-connection_values,
}

lost : is_blank (codes "lost") ≡ false
unfolding is_blank is_whitespace
lost = refl

abbrev bytes : ℕ → List ℕ
bytes zero = []
bytes (suc n) = 0 ∷ bytes n

abbrev stored : StoredObject
stored = record { object_key = codes "lost"; hash = bytes 32; size = 7 }

parse-recording_state_example :
    parse_recording_state (recording_state (RecordingCameraState.errored (codes "lost")))
    ≡ ok (RecordingCameraState.errored (codes "lost"))
parse-recording_state_example =
    parse-recording_state (RecordingCameraState.errored (codes "lost")) lost

parse-finished_state_example :
    parse_finished_state (finished_state (FinishedTakeState.errored (codes "lost")))
    ≡ ok (FinishedTakeState.errored (codes "lost"))
parse-finished_state_example = parse-finished_state (FinishedTakeState.errored (codes "lost")) lost

parse-video_state_example :
    parse_video_state (video_state (VideoFileState.completed stored))
    ≡ ok (VideoFileState.completed stored)
parse-video_state_example = parse-video_state (VideoFileState.completed stored) (lost, refl)

-- A parser that accepts every text.
abbrev any_url : Text → Option Url
any_url text = some text

parse-connection_values_example :
    parse_camera_connection_state any_url
      (connection_values (CameraConnectionState.errored (codes "rist") (codes "lost")))
    ≡ ok (CameraConnectionState.errored (codes "rist") (codes "lost"))
parse-connection_values_example =
    parse-connection_values any_url (CameraConnectionState.errored (codes "rist") (codes "lost"))
      (refl, lost)
