-- ===== src/Media/Worker/Examples.antt =====
-- A camera that connects, is recorded for two packets, and is asked to finish.
use kinugasa_recording.Shared.{
  ℕ, ◌≡◌, refl, true, false, none, some, List, [], ◌∷◌, codes, ok, err, all,
}
use kinugasa_recording.Domain.Recording.{FinalizedRecording, new_finalized_recording}
use kinugasa_recording.Domain.Camera.{CameraConnection, CameraConnectionState, endpoint, status}
use kinugasa_recording.Media.Recorder.{
  StartRecordingRequest, IoError, Component, CreateCalls, RecordingFile, FinishCalls,
  prepare_component, prepare_components, prepare_parent, create, create_component, take_id, finish,
}
use kinugasa_recording.Media.Worker.{
  IngressPacket, RecordingStarted, RecordingState, Worker, Input, Reply, new_worker, on_packet,
  begin, on_start, finish_match, on_finish, step, run,
}
use kinugasa_recording.Media.Worker.Events.{
  IsReported, new_worker-IsReported, run-IsReported, follow, follow-run, shown,
}
use kinugasa_recording.Media.Worker.Contents.{is_lossless, payloads, on_finish-IsComplete}

abbrev packet_of : ℕ → IngressPacket
packet_of n = record { camera_identity_id = 7; flow_id = 1; ntp_timestamp = n; payload = n ∷ [] }

abbrev request : StartRecordingRequest
request = record {
  take_id = 3;
  session_id = 1;
  camera_identity_id = 7;
  relative_path = codes "session/take/camera/video.ts";
}

abbrev created : CreateCalls
created = record {
  parent = true;
  relative = ok (Component.normal (err IoError.not_found) (ok tt) (err IoError.other) ∷ []);
  canonicalize = ok tt;
  starts_with_root = true;
  try_exists = ok false;
  file_name = true;
  opened = ok tt;
}

abbrev calls : FinishCalls
calls = record {
  flush = ok tt;
  sync_all = ok tt;
  hard_link = ok tt;
  remove_file = ok tt;
  sync_parent = ok tt;
  now = 90;
}

abbrev begun : RecordingStarted
begun = record { take_id = 3; camera_identity_id = 7; started_at = 10 }

abbrev final : FinalizedRecording
final = record {
  take_id = 3;
  camera_identity_id = 7;
  session_id = 1;
  started_at = 10;
  finished_at = 90;
  relative_path = codes "session/take/camera/video.ts";
  media_type = codes "video/mp2t";
}

abbrev connecting : List Input
connecting = Input.packet (packet_of 71) none ∷ []

abbrev connected_worker : Worker
connected_worker = run 7 connecting new_worker

abbrev recorded : List Input
recorded = Input.packet (packet_of 72) none ∷ Input.packet (packet_of 73) none ∷ []

run-IsReported_example : IsReported (run 7 connecting new_worker)
run-IsReported_example = run-IsReported 7 connecting new_worker new_worker-IsReported

abbrev connection : CameraConnection
connection = record {
  camera_identity_id = 7;
  state = CameraConnectionState.waiting (codes "rist://host:9000");
  virtual_port = some 1024;
  media_process_id = none;
  deletion_requested_at = none;
}

follow-run_example :
    (after : CameraConnection) × (follow (run 7 connecting new_worker).events connection ≡ ok after)
    × (endpoint after.state ≡ some (codes "rist://host:9000"))
    × (status after.state ≡ shown (run 7 connecting new_worker).state)
follow-run_example = follow-run 7 connecting connection (codes "rist://host:9000") refl

starts : (on_start request 10 created connected_worker).0 ≡ Reply.started (ok begun)
unfolding on_start begin create prepare_parent prepare_components prepare_component create_component
    run step on_packet
starts = refl

finishes :
    (on_finish 3 calls (run 7 recorded (on_start request 10 created connected_worker).1)).0
    ≡ Reply.finished (ok final)
unfolding on_finish finish_match take_id finish new_finalized_recording on_start begin create
    prepare_parent prepare_components prepare_component create_component run step on_packet
finishes = refl

on_finish-IsComplete_example :
    (file : RecordingFile) × ((run 7 recorded
        (on_start request 10 created connected_worker).1).state.recording
      ≡ RecordingState.recording file)
    × (file.request ≡ request)
    × (request.take_id ≡ 3)
    × (file.written ≡ payloads recorded)
    × (all is_lossless recorded ≡ true)
    × (connected_worker.overflowed ≡ false)
    × (finish calls file ≡ ok final)
on_finish-IsComplete_example =
    on_finish-IsComplete 7 request 10 created recorded 3 calls connected_worker
      run-IsReported_example starts refl finishes
