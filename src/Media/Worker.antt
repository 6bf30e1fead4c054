-- ===== src/Media/Worker.antt =====
-- kinugasa-media/src/camera.rs: the task of a camera, `run_camera`, and `CameraHandle::ingest`.
pub mod Events
pub mod Contents
pub mod Examples
use kinugasa_recording.Shared.{
  ℕ, Bool, true, false, not, ◌&&◌, ◌||◌, Option, none, some, List, [], ◌∷◌, Text, codes, ◌==◌,
  if◌then◌else◌, Result, ok, err, map_err,
}
use kinugasa_recording.Domain.Values.{CameraIdentityId, TakeId, Timestamp, ErrorReason}
use kinugasa_recording.Domain.Recording.{FinalizedRecording}
use kinugasa_recording.Domain.Camera.{CameraInputState}
use kinugasa_recording.Application.Errors.{MediaError}
use kinugasa_recording.Media.Recorder.{
  StartRecordingRequest, IoError, CreateCalls, RecordingFile, FinishCalls, take_id, create,
  write_packet, finish, abort,
}

pub record IngressPacket : Type 0 where
  pub camera_identity_id : CameraIdentityId
  pub flow_id : ℕ
  pub ntp_timestamp : ℕ
  pub payload : Text

pub record PreviewPacket : Type 0 where
  pub camera_identity_id : CameraIdentityId
  pub ntp_timestamp : ℕ
  pub payload : Text

pub record RecordingStarted : Type 0 where
  pub take_id : TakeId
  pub camera_identity_id : CameraIdentityId
  pub started_at : Timestamp

pub data RecordingState : Type 0 where
  idle : RecordingState
  recording : RecordingFile → RecordingState

pub record WorkerState : Type 0 where
  pub recording : RecordingState
  pub connected : Bool
  pub errored : Bool
  pub input_blocked : Bool

-- The state of the task with the flag that it shares with its handle, and what it has sent to the
-- channels of events and of previews, the last first.
pub record Worker : Type 0 where
  pub state : WorkerState
  pub overflowed : Bool
  pub events : List CameraInputState
  pub preview : List PreviewPacket

-- What happens to the task, with the results of the calls that it makes there: a packet refused by a
-- full queue, an error of the input, or a command. `none` for a write is success.
pub data Input : Type 0 where
  queue_full : Input
  input_error : ErrorReason → Input
  packet : IngressPacket → Option ErrorReason → Input
  disconnected : Input
  start_recording : StartRecordingRequest → Timestamp → CreateCalls → Input
  finish_recording : TakeId → FinishCalls → Input
  abort_recording : TakeId → Result IoError (Unit {0}) → Input

-- What a command's sender is told.
pub data Reply : Type 0 where
  silent : Reply
  started : Result MediaError RecordingStarted → Reply
  finished : Result MediaError FinalizedRecording → Reply
  aborted : Result MediaError (Unit {0}) → Reply

abbrev pub new_worker : Worker
new_worker = record {
  state = record {
    recording = RecordingState.idle;
    connected = false;
    errored = false;
    input_blocked = false;
  };
  overflowed = false;
  events = [];
  preview = [];
}

abbrev pub overflow_reason : ErrorReason
overflow_reason = codes "media ingress queue overflow"

unfoldable pub emit_state : CameraInputState → Worker → Worker
emit_state state w = record w { events = state ∷ w.events }

-- The failure to remove a partial file is logged only.
unfoldable pub fail_recording : Worker → Worker
fail_recording w = record w { state = record w.state { recording = RecordingState.idle } }

-- The four statements that follow every failure of the input.
unfoldable pub fail_input : ErrorReason → Worker → Worker
unfolding fail_recording emit_state
fail_input reason w =
    let failed = fail_recording w in
    let told =
      if w.state.errored then failed else emit_state (CameraInputState.errored reason) failed in
    record told { state = record told.state { connected = false; errored = true } }

-- `if overflowed.swap(false, …)`, up to what a command adds.
unfoldable pub take_overflow : Worker → Worker
unfolding fail_input
take_overflow w =
    if w.overflowed then fail_input overflow_reason (record w { overflowed = false }) else w

unfoldable pub connect : Worker → Worker
unfolding emit_state
connect w =
    if w.state.connected
    then w
    else let told = emit_state CameraInputState.connected w in
      record told { state = record told.state { connected = true; errored = false } }

unfoldable pub send_preview : CameraIdentityId → IngressPacket → Worker → Worker
send_preview camera p w = record w {
  preview =
      record { camera_identity_id = camera; ntp_timestamp = p.ntp_timestamp; payload = p.payload }
      ∷ w.preview;
}

-- `handle_packet` from the test of the recording on, and the branch of its caller for an error.
unfoldable pub write_and_preview :
    CameraIdentityId → IngressPacket → Option ErrorReason → RecordingState → Worker → Worker
unfolding send_preview fail_input write_packet
write_and_preview camera p failure RecordingState.idle w = send_preview camera p w
write_and_preview camera p (some reason) (RecordingState.recording file) w = fail_input reason w
write_and_preview camera p none (RecordingState.recording file) w =
    elim (write_packet (ok tt) p.payload file) [
      | err error ↦ w
      | ok longer ↦
          send_preview camera p
            (record w { state = record w.state { recording = RecordingState.recording longer } })
    ]

unfoldable pub handle_packet :
    CameraIdentityId → IngressPacket → Option ErrorReason → Worker → Worker
unfolding connect write_and_preview
handle_packet camera p failure w =
    let now = connect w in write_and_preview camera p failure now.state.recording now

unfoldable pub on_packet : CameraIdentityId → IngressPacket → Option ErrorReason → Worker → Worker
unfolding take_overflow handle_packet
on_packet camera p failure w =
    if w.state.input_blocked then w else handle_packet camera p failure (take_overflow w)

unfoldable pub on_disconnected : Worker → Worker
unfolding fail_recording emit_state
on_disconnected w =
    let failed = fail_recording w in
    let told =
      if w.state.connected || w.state.errored
      then emit_state CameraInputState.waiting failed
      else failed in
    record told {
      state = record told.state { connected = false; errored = false; input_blocked = false };
    }

unfoldable pub on_input_error : ErrorReason → Worker → Worker
unfolding fail_input
on_input_error reason w =
    let failed = fail_input reason w in
    record failed { state = record failed.state { input_blocked = true } }

abbrev pub is_idle : RecordingState → Bool
is_idle RecordingState.idle = true
is_idle _ = false

-- The match on the created file.
unfoldable pub begin :
    StartRecordingRequest → Timestamp → Result IoError RecordingFile → Worker → Reply × Worker
begin request started_at (err error) w = (Reply.started (err MediaError.unexpected), w)
begin request started_at (ok file) w = (
  Reply.started (
      ok (record {
        take_id = request.take_id;
        camera_identity_id = request.camera_identity_id;
        started_at = started_at;
      })),
  record w { state = record w.state { recording = RecordingState.recording file } },
)

unfoldable pub on_start : StartRecordingRequest → Timestamp → CreateCalls → Worker → Reply × Worker
unfolding begin
on_start request started_at calls w =
    if not w.state.connected || not (is_idle w.state.recording)
    then (Reply.started (err MediaError.conflict), w)
    else begin request started_at (create calls request started_at) w

abbrev pub records_take : TakeId → RecordingState → Bool
records_take id RecordingState.idle = false
records_take id (RecordingState.recording file) = file.request.take_id == id

abbrev pub set_idle : Worker → Worker
set_idle w = record w { state = record w.state { recording = RecordingState.idle } }

-- The match on the recording that was taken out of the state.
unfoldable pub finish_match : TakeId → FinishCalls → RecordingState → Worker → Reply × Worker
unfolding take_id
finish_match id calls RecordingState.idle w = (Reply.finished (err MediaError.conflict), w)
finish_match id calls (RecordingState.recording file) w =
    if take_id file == id
    then (Reply.finished (map_err (λ error. MediaError.unexpected) (finish calls file)), set_idle w)
    else (Reply.finished (err MediaError.conflict), w)

unfoldable pub on_finish : TakeId → FinishCalls → Worker → Reply × Worker
unfolding take_overflow finish_match
on_finish id calls w =
    if w.overflowed
    then (Reply.finished (err MediaError.unavailable), take_overflow w)
    else finish_match id calls w.state.recording w

unfoldable pub abort_match :
    TakeId → Result IoError (Unit {0}) → RecordingState → Worker → Reply × Worker
unfolding take_id
abort_match id removed RecordingState.idle w = (Reply.aborted (err MediaError.not_found), w)
abort_match id removed (RecordingState.recording file) w =
    if take_id file == id
    then (Reply.aborted (map_err (λ error. MediaError.unexpected) (abort removed)), set_idle w)
    else (Reply.aborted (err MediaError.not_found), w)

-- One round of the loop, or the call of a handle that finds the queue full.
unfoldable pub step : CameraIdentityId → Input → Worker → Reply × Worker
unfolding on_packet on_disconnected on_input_error on_start on_finish abort_match
step camera Input.queue_full w = (Reply.silent, record w { overflowed = true })
step camera (Input.input_error reason) w = (Reply.silent, on_input_error reason w)
step camera (Input.packet p failure) w = (Reply.silent, on_packet camera p failure w)
step camera Input.disconnected w = (Reply.silent, on_disconnected w)
step camera (Input.start_recording request started_at calls) w = on_start request started_at calls w
step camera (Input.finish_recording id calls) w = on_finish id calls w
step camera (Input.abort_recording id removed) w = abort_match id removed w.state.recording w

-- The rounds of the loop, in order.
unfoldable pub run : CameraIdentityId → List Input → Worker → Worker
unfolding step
run camera [] w = w
run camera (input ∷ inputs) w = run camera inputs (step camera input w).1

-- After the loop: the commands' channel is closed, or `Shutdown` came.
unfoldable pub stop : Worker → Worker
unfolding fail_recording
stop w = fail_recording w
