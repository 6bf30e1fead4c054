-- ===== src/Media/Worker/Events.antt =====
-- kinugasa-media/src/camera.rs: the events that the task of a camera sends, against its flags, and
-- against the connection that the backend keeps.
use kinugasa_recording.Shared.{
  ◌≡◌, refl, Bool, true, false, not, ◌&&◌, none, some, List, [], ◌∷◌, arith, Result, ok, ◌>>=◌,
  if◌then◌else◌, ap, Option, ◌∙◌,
}
use kinugasa_recording.Domain.Values.{CameraIdentityId, ErrorReason, ValidationError}
use kinugasa_recording.Domain.Camera.{
  Url, CameraInputState, CameraConnection, CameraConnectionState, CameraConnectionStatus, status,
  endpoint, observed, apply_input_state,
}
use kinugasa_recording.Media.Recorder.{write_packet}
use kinugasa_recording.Media.Worker.{
  RecordingState, WorkerState, Worker, Input, new_worker, is_idle, emit_state, fail_recording,
  fail_input, take_overflow, connect, send_preview, write_and_preview, handle_packet, on_packet,
  on_disconnected, on_input_error, begin, on_start, finish_match, on_finish, abort_match, step, run,
  IngressPacket,
}

abbrev pub status_of : CameraInputState → CameraConnectionStatus
status_of CameraInputState.waiting = CameraConnectionStatus.waiting
status_of CameraInputState.connected = CameraConnectionStatus.connected
status_of (CameraInputState.errored reason) = CameraConnectionStatus.errored

abbrev pub status_eq : CameraConnectionStatus → CameraConnectionStatus → Bool
status_eq CameraConnectionStatus.activating CameraConnectionStatus.activating = true
status_eq CameraConnectionStatus.waiting CameraConnectionStatus.waiting = true
status_eq CameraConnectionStatus.connected CameraConnectionStatus.connected = true
status_eq CameraConnectionStatus.errored CameraConnectionStatus.errored = true
status_eq _ _ = false

-- The status that the last event told, at first that of a camera that waits for its input.
abbrev pub told : List CameraInputState → CameraConnectionStatus
told [] = CameraConnectionStatus.waiting
told (event ∷ rest) = status_of event

-- Each event tells another status than the one before.
abbrev pub is_news : List CameraInputState → Bool
is_news [] = true
is_news (event ∷ rest) = not (status_eq (status_of event) (told rest)) && is_news rest

-- The status that the flags stand for.
abbrev pub shown : WorkerState → CameraConnectionStatus
shown s =
    if s.connected
    then CameraConnectionStatus.connected
    else if s.errored
    then CameraConnectionStatus.errored
    else CameraConnectionStatus.waiting

-- A recording needs a connected input; a connected input is not in error; a blocked input is in error
-- until it disconnects; and the events tell what the flags say, without repeating it.
pub record IsReported (w : Worker) : Type 0 where
  pub live : is_idle w.state.recording ≡ false → w.state.connected ≡ true
  pub apart : w.state.connected ≡ true → w.state.errored ≡ false
  pub blocked : w.state.input_blocked ≡ true → w.state.errored ≡ true
  pub current : told w.events ≡ shown w.state
  pub news : is_news w.events ≡ true

pub new_worker-IsReported : IsReported new_worker
new_worker-IsReported = ground arith

fail_input-IsReported :
    (reason : ErrorReason) (w : Worker) → IsReported w → IsReported (fail_input reason w)
unfolding fail_input fail_recording emit_state
fail_input-IsReported reason w h = ground arith

take_overflow-IsReported : (w : Worker) → IsReported w → IsReported (take_overflow w)
unfolding take_overflow fail_input fail_recording emit_state
take_overflow-IsReported w h = ground arith

take_overflow-input_blocked :
    (w : Worker) → (take_overflow w).state.input_blocked ≡ w.state.input_blocked
unfolding take_overflow fail_input fail_recording emit_state
take_overflow-input_blocked w = ground arith

connect-IsReported :
    (w : Worker)
    → w.state.input_blocked ≡ false
    → IsReported w
    → IsReported (connect w) × ((connect w).state.connected ≡ true)
unfolding connect emit_state
connect-IsReported w free h = (ground arith, ground arith)

write_and_preview-IsReported :
    (camera : CameraIdentityId) (p : IngressPacket) (failure : Option ErrorReason)
    (state : RecordingState) (w : Worker)
    → w.state.connected ≡ true
    → IsReported w
    → IsReported (write_and_preview camera p failure state w)
unfolding write_and_preview send_preview write_packet
write_and_preview-IsReported camera p failure RecordingState.idle w live h = ground arith
write_and_preview-IsReported camera p none (RecordingState.recording file) w live h = ground arith
write_and_preview-IsReported camera p (some reason) (RecordingState.recording file) w live h =
    fail_input-IsReported reason w h

if-IsReported :
    (test : Bool) {then_w else_w : Worker}
    → IsReported then_w
    → (test ≡ false → IsReported else_w)
    → IsReported (if test then then_w else else_w)
if-IsReported true h k = h
if-IsReported false h k = k refl

on_packet-IsReported :
    (camera : CameraIdentityId) (p : IngressPacket) (failure : Option ErrorReason) (w : Worker)
    → IsReported w
    → IsReported (on_packet camera p failure w)
unfolding on_packet handle_packet
on_packet-IsReported camera p failure w h =
    let before = take_overflow w in
    if-IsReported w.state.input_blocked h (λ free.
      let (reported, live) =
        connect-IsReported before (take_overflow-input_blocked w ∙ free)
          (take_overflow-IsReported w h) in
      write_and_preview-IsReported camera p failure (connect before).state.recording
        (connect before) live reported)

-- Every round of the loop.
pub step-IsReported :
    (camera : CameraIdentityId) (input : Input) (w : Worker)
    → IsReported w
    → IsReported (step camera input w).1
unfolding step
step-IsReported camera Input.queue_full w h = ground arith
step-IsReported camera (Input.input_error reason) w h =
    unfold on_input_error fail_input fail_recording emit_state in ground arith
step-IsReported camera (Input.packet p failure) w h = on_packet-IsReported camera p failure w h
step-IsReported camera Input.disconnected w h =
    unfold on_disconnected fail_recording emit_state in ground arith
step-IsReported camera (Input.start_recording request started_at calls) w h =
    unfold on_start begin in ground arith
step-IsReported camera (Input.finish_recording id calls) w h =
    unfold on_finish finish_match in ground (arith, take_overflow-IsReported w h)
step-IsReported camera (Input.abort_recording id removed) w h = unfold abort_match in ground arith

-- After any inputs from the start of the task on, a recording is in progress only on a connected
-- input, which is not in error; a blocked input is in error; the last event that was sent is the
-- status that the flags show; and no event repeats the status of the one before it.
pub run-IsReported :
    (camera : CameraIdentityId) (inputs : List Input) (w : Worker)
    → IsReported w
    → IsReported (run camera inputs w)
unfolding run
run-IsReported camera [] w h = h
run-IsReported camera (input ∷ inputs) w h =
    run-IsReported camera inputs (step camera input w).1 (step-IsReported camera input w h)

-- The backend applies the events to the connection one by one, the oldest, which is at the end of the
-- list, first.
unfoldable pub follow :
    List CameraInputState → CameraConnection → Result ValidationError CameraConnection
follow [] connection = ok connection
follow (event ∷ earlier) connection = do
  before ← follow earlier connection
  apply_input_state event before

endpoint-observed :
    (event : CameraInputState) (url : Url) → endpoint (observed event url) ≡ some url
unfolding endpoint observed
endpoint-observed CameraInputState.waiting url = refl
endpoint-observed CameraInputState.connected url = refl
endpoint-observed (CameraInputState.errored reason) url = refl

status-observed :
    (event : CameraInputState) (url : Url) → status (observed event url) ≡ status_of event
unfolding status observed
status-observed CameraInputState.waiting url = refl
status-observed CameraInputState.connected url = refl
status-observed (CameraInputState.errored reason) url = refl

apply_input_state-some :
    (event : CameraInputState) (connection : CameraConnection) (url : Url)
    → endpoint connection.state ≡ some url
    → apply_input_state event connection ≡ ok (record connection { state = observed event url })
unfolding apply_input_state
apply_input_state-some event connection url e = rw e refl

follow-endpoint :
    (events : List CameraInputState) (connection : CameraConnection) (url : Url)
    → connection.state ≡ CameraConnectionState.waiting url
    → (after : CameraConnection) × (follow events connection ≡ ok after)
      × (endpoint after.state ≡ some url)
      × (status after.state ≡ told events)
unfolding follow
follow-endpoint [] connection url e =
    (connection, refl, unfold endpoint in ap endpoint e, unfold status in ap status e)
follow-endpoint (event ∷ earlier) connection url e =
    let (before, done, there, at) = follow-endpoint earlier connection url e in
    let after : CameraConnection = record before { state = observed event url } in
    (
      after,
      rw done (apply_input_state-some event before url there),
      endpoint-observed event url,
      status-observed event url,
    )

-- A connection that waits at an endpoint when the task starts accepts every event of the task, whatever
-- its inputs, and once it has applied them all its endpoint is the same and its status is the one that
-- the task's flags show.
pub follow-run :
    (camera : CameraIdentityId) (inputs : List Input) (connection : CameraConnection) (url : Url)
    → connection.state ≡ CameraConnectionState.waiting url
    → (after : CameraConnection) × (follow (run camera inputs new_worker).events connection
        ≡ ok after)
      × (endpoint after.state ≡ some url)
      × (status after.state ≡ shown (run camera inputs new_worker).state)
follow-run camera inputs connection url e =
    let w = run camera inputs new_worker in
    let (after, done, there, at) = follow-endpoint w.events connection url e in
    let reported = run-IsReported camera inputs new_worker new_worker-IsReported in
    (after, done, there, at ∙ reported.current)
