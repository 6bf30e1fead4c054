-- ===== src/Media/Worker/Contents.antt =====
-- kinugasa-media/src/camera.rs: what a recording holds when its task is asked to finish it.
use kinugasa_recording.Shared.{
  ◌≡◌, refl, sym, Bool, true, false, none, some, Option, List, [], ◌∷◌, ◌++◌, arith, Result, ok,
  err, if◌then◌else◌, Bool-cases, inl, inr, ap, ◌∙◌, ◌⊎◌, Text, ◌==◌, all, any, ||-false, eq_of_==,
  map_err-eq-ok,
}
use mathlib.Core.List.{append_assoc}
use kinugasa_recording.Domain.Values.{ErrorReason, CameraIdentityId, TakeId, Timestamp}
use kinugasa_recording.Domain.Recording.{FinalizedRecording}
use kinugasa_recording.Application.Errors.{MediaError}
use kinugasa_recording.Media.Recorder.{
  write_packet, take_id, RecordingFile, IoError, FinishCalls, finish, StartRecordingRequest,
  CreateCalls, create,
}
use kinugasa_recording.Media.Worker.Events.{IsReported, step-IsReported}
use kinugasa_recording.Media.Worker.{
  RecordingState, Worker, Input, RecordingStarted, Reply, is_idle, emit_state, fail_recording,
  fail_input, take_overflow, connect, send_preview, write_and_preview, handle_packet, on_packet,
  on_disconnected, on_input_error, begin, on_start, finish_match, on_finish, abort_match, step, run,
  IngressPacket,
}

-- The inputs after which nothing of the picture is missing: no packet was refused, no write failed,
-- and the input neither failed nor disconnected.
abbrev pub is_lossless : Input → Bool
is_lossless Input.queue_full = false
is_lossless (Input.input_error reason) = false
is_lossless (Input.packet p none) = true
is_lossless (Input.packet p (some reason)) = false
is_lossless Input.disconnected = false
is_lossless (Input.start_recording request started_at calls) = true
is_lossless (Input.finish_recording id calls) = true
is_lossless (Input.abort_recording id removed) = true

abbrev pub is_start : Input → Bool
is_start (Input.start_recording request started_at calls) = true
is_start _ = false

abbrev pub payload_of : Input → List Text
payload_of (Input.packet p failure) = p.payload ∷ []
payload_of _ = []

-- The payloads of the packets, in order.
abbrev pub payloads : List Input → List Text
payloads [] = []
payloads (input ∷ inputs) = payload_of input ++ payloads inputs

abbrev pub longer : Input → RecordingFile → RecordingFile
longer input file = record file { written = file.written ++ payload_of input }

-- A round either ends the recording or keeps it, with the packet that it brought; and unless a refused
-- packet is still to be noticed, nothing is missing.
abbrev IsKept : Input → RecordingFile → Worker → Worker → Type 0
IsKept input file w after =
    (after.state.recording ≡ RecordingState.idle)
    ⊎ ((after.state.recording ≡ RecordingState.recording (longer input file))
        × (after.overflowed ≡ false → (w.overflowed ≡ false) × (is_lossless input ≡ true)))

append_nil : (xs : List Text) → xs ≡ xs ++ []
append_nil [] = refl
append_nil (x ∷ xs) = ap (λ (t : List Text). x ∷ t) (append_nil xs)

-- A round that leaves the recording as it is.
same-IsKept :
    (file : RecordingFile) (input : Input) (w : Worker)
    → payload_of input ≡ []
    → is_lossless input ≡ true
    → w.state.recording ≡ RecordingState.recording file
    → IsKept input file w w
same-IsKept file input w none_brought lossless e = inr (
  e
      ∙ ap (λ (t : List Text). RecordingState.recording (record file { written = t }))
          (append_nil file.written ∙ ap (λ (t : List Text). file.written ++ t) (sym none_brought)),
  λ clear. (clear, lossless),
)

-- A task that records notices a refused packet at the next one, and gives the recording up.
packet-idle :
    (camera : CameraIdentityId) (p : IngressPacket) (failure : Option ErrorReason)
    (file : RecordingFile) (w : Worker)
    → IsReported w
    → w.state.recording ≡ RecordingState.recording file
    → w.overflowed ≡ true
    → (on_packet camera p failure w).state.recording ≡ RecordingState.idle
unfolding on_packet handle_packet take_overflow fail_input fail_recording emit_state connect
    write_and_preview send_preview
packet-idle camera p failure file w h e lost = ground (arith, e, lost, ap is_idle e)

packet-none :
    (camera : CameraIdentityId) (p : IngressPacket) (file : RecordingFile) (w : Worker)
    → IsReported w
    → w.state.recording ≡ RecordingState.recording file
    → w.overflowed ≡ false
    → (on_packet camera p none w).state.recording
      ≡ RecordingState.recording (longer (Input.packet p none) file)
unfolding on_packet handle_packet take_overflow connect write_and_preview send_preview write_packet
packet-none camera p file w h e clear = ground (arith, e, clear, ap is_idle e)

packet-failed :
    (camera : CameraIdentityId) (p : IngressPacket) (reason : ErrorReason) (file : RecordingFile)
    (w : Worker)
    → IsReported w
    → w.state.recording ≡ RecordingState.recording file
    → w.overflowed ≡ false
    → (on_packet camera p (some reason) w).state.recording ≡ RecordingState.idle
unfolding on_packet handle_packet take_overflow fail_input fail_recording emit_state connect
    write_and_preview
packet-failed camera p reason file w h e clear = ground (arith, e, clear, ap is_idle e)

packet-IsKept :
    (camera : CameraIdentityId) (p : IngressPacket) (failure : Option ErrorReason)
    (file : RecordingFile) (w : Worker)
    → IsReported w
    → w.state.recording ≡ RecordingState.recording file
    → (w.overflowed ≡ true) ⊎ (w.overflowed ≡ false)
    → IsKept (Input.packet p failure) file w (on_packet camera p failure w)
packet-IsKept camera p failure file w h e (inl lost) =
    inl (packet-idle camera p failure file w h e lost)
packet-IsKept camera p none file w h e (inr clear) =
    inr (packet-none camera p file w h e clear, λ after. (clear, refl))
packet-IsKept camera p (some reason) file w h e (inr clear) =
    inl (packet-failed camera p reason file w h e clear)

take_overflow-idle :
    (w : Worker) → w.overflowed ≡ true → (take_overflow w).state.recording ≡ RecordingState.idle
unfolding take_overflow fail_input fail_recording emit_state
take_overflow-idle w lost = ground arith

-- A command on a take ends the recording of that take, and leaves another alone.
if-IsKept :
    (test : Bool) (input : Input) (file : RecordingFile) (w : Worker) (a b : Reply × Worker)
    → (test ≡ true → IsKept input file w a.1)
    → (test ≡ false → IsKept input file w b.1)
    → IsKept input file w (if◌then◌else◌ {A = Reply × Worker} test a b).1
if-IsKept true input file w a b h k = h refl
if-IsKept false input file w a b h k = k refl

finish_match-IsKept :
    (id : TakeId) (calls : FinishCalls) (file : RecordingFile) (state : RecordingState) (w : Worker)
    → w.state.recording ≡ RecordingState.recording file
    → IsKept (Input.finish_recording id calls) file w (finish_match id calls state w).1
unfolding finish_match
finish_match-IsKept id calls file RecordingState.idle w e =
    same-IsKept file (Input.finish_recording id calls) w refl refl e
finish_match-IsKept id calls file (RecordingState.recording other) w e =
    if-IsKept (take_id other == id) (Input.finish_recording id calls) file w _ _ (λ hit. inl refl)
      (λ miss. same-IsKept file (Input.finish_recording id calls) w refl refl e)

abort_match-IsKept :
    (id : TakeId) (removed : Result IoError (Unit {0})) (file : RecordingFile)
    (state : RecordingState) (w : Worker)
    → w.state.recording ≡ RecordingState.recording file
    → IsKept (Input.abort_recording id removed) file w (abort_match id removed state w).1
unfolding abort_match
abort_match-IsKept id removed file RecordingState.idle w e =
    same-IsKept file (Input.abort_recording id removed) w refl refl e
abort_match-IsKept id removed file (RecordingState.recording other) w e =
    if-IsKept (take_id other == id) (Input.abort_recording id removed) file w _ _ (λ hit. inl refl)
      (λ miss. same-IsKept file (Input.abort_recording id removed) w refl refl e)

finish-IsKept :
    (id : TakeId) (calls : FinishCalls) (file : RecordingFile) (w : Worker)
    → w.state.recording ≡ RecordingState.recording file
    → IsKept (Input.finish_recording id calls) file w (on_finish id calls w).1
unfolding on_finish
finish-IsKept id calls file w e =
    if-IsKept w.overflowed (Input.finish_recording id calls) file w _ _
      (λ lost. inl (take_overflow-idle w lost))
      (λ clear. finish_match-IsKept id calls file w.state.recording w e)

step-IsKept :
    (camera : CameraIdentityId) (input : Input) (file : RecordingFile) (w : Worker)
    → is_start input ≡ false
    → IsReported w
    → w.state.recording ≡ RecordingState.recording file
    → IsKept input file w (step camera input w).1
unfolding step
step-IsKept camera Input.queue_full file w s h e = inr (
  e
      ∙ ap (λ (t : List Text). RecordingState.recording (record file { written = t }))
          (append_nil file.written),
  λ clear. cc,
)
step-IsKept camera (Input.input_error reason) file w s h e =
    inl (unfold on_input_error fail_input fail_recording emit_state in ground arith)
step-IsKept camera (Input.packet p failure) file w s h e =
    packet-IsKept camera p failure file w h e (Bool-cases w.overflowed)
step-IsKept camera Input.disconnected file w s h e =
    inl (unfold on_disconnected fail_recording emit_state in ground arith)
step-IsKept camera (Input.start_recording request started_at calls) file w s h e = cc
step-IsKept camera (Input.finish_recording id calls) file w s h e = finish-IsKept id calls file w e
step-IsKept camera (Input.abort_recording id removed) file w s h e =
    abort_match-IsKept id removed file w.state.recording w e

-- Without a new start, no recording begins.
step-idle :
    (camera : CameraIdentityId) (input : Input) (w : Worker)
    → is_start input ≡ false
    → w.state.recording ≡ RecordingState.idle
    → (step camera input w).1.state.recording ≡ RecordingState.idle
unfolding step fail_input fail_recording emit_state
step-idle camera Input.queue_full w s e = e
step-idle camera (Input.input_error reason) w s e = unfold on_input_error in ground arith
step-idle camera (Input.packet p failure) w s e =
    unfold on_packet handle_packet take_overflow connect write_and_preview send_preview in
    ground (arith, e)
step-idle camera Input.disconnected w s e = unfold on_disconnected in ground arith
step-idle camera (Input.start_recording request started_at calls) w s e = cc
step-idle camera (Input.finish_recording id calls) w s e =
    unfold on_finish take_overflow finish_match in ground (arith, e)
step-idle camera (Input.abort_recording id removed) w s e = unfold abort_match in ground (arith, e)

run-idle :
    (camera : CameraIdentityId) (inputs : List Input) (w : Worker)
    → any is_start inputs ≡ false
    → w.state.recording ≡ RecordingState.idle
    → (run camera inputs w).state.recording ≡ RecordingState.idle
unfolding run
run-idle camera [] w s e = e
run-idle camera (input ∷ inputs) w s e =
    let (a, b) = ||-false (is_start input) _ s in
    run-idle camera inputs (step camera input w).1 b (step-idle camera input w a e)

-- A task that records a file goes on, until it has ended the recording or holds every packet.
run-IsKept :
    (camera : CameraIdentityId) (inputs : List Input) (file : RecordingFile) (w : Worker)
    → any is_start inputs ≡ false
    → IsReported w
    → w.state.recording ≡ RecordingState.recording file
    → ((run camera inputs w).state.recording ≡ RecordingState.idle)
      ⊎ (((run camera inputs w).state.recording
            ≡ RecordingState.recording (record file { written = file.written ++ payloads inputs }))
          × ((run camera inputs w).overflowed ≡ false
              → (w.overflowed ≡ false) × (all is_lossless inputs ≡ true)))
unfolding run
run-IsKept camera [] file w s h e = inr (
  e
      ∙ ap (λ (t : List Text). RecordingState.recording (record file { written = t }))
          (append_nil file.written),
  λ clear. (clear, refl),
)
run-IsKept camera (input ∷ inputs) file w s h e =
    let (a, b) = ||-false (is_start input) _ s in
    let after = (step camera input w).1 in
    elim (step-IsKept camera input file w a h e) [
      | inl ended ↦ inl (run-idle camera inputs after b ended)
      | inr (kept, clean) ↦
          elim (run-IsKept camera inputs (longer input file) after b
            (step-IsReported camera input w h) kept) [
              | inl ended ↦ inl ended
              | inr (held, whole) ↦ inr (
                held
                    ∙ ap (λ (t : List Text). RecordingState.recording (record file { written = t }))
                        (append_assoc file.written (payload_of input) (payloads inputs)),
                λ clear.
                    let (quiet, rest) = whole clear in
                    let (before, first) = clean quiet in (before, ground (arith, first, rest)),
              )
            ]
    ]

finish_match-finished :
    (id : TakeId) (calls : FinishCalls) (file : RecordingFile) (w : Worker)
    {final : FinalizedRecording}
    → w.overflowed ≡ false
    → (finish_match id calls (RecordingState.recording file) w).0 ≡ Reply.finished (ok final)
    → (w.overflowed ≡ false)
      × ((other : RecordingFile) × (RecordingState.recording file ≡ RecordingState.recording other)
          × (other.request.take_id ≡ id)
          × (finish calls other ≡ ok final))
unfolding finish_match take_id
finish_match-finished id calls file w {final} clear f =
    elim (Bool-cases (file.request.take_id == id)) [
      | inl same ↦ (
        clear,
        (
          file,
          refl,
          eq_of_== _ _ same,
          map_err-eq-ok (λ error. MediaError.unexpected) (finish calls file) (ground (arith, same)),
        ),
      )
      | inr other ↦ ground (arith, other)
    ]

-- What a task answers to a request to finish, when it hands a recording over.
on_finish-finished :
    (id : TakeId) (calls : FinishCalls) (state : RecordingState) (w : Worker)
    {final : FinalizedRecording}
    → w.state.recording ≡ state
    → (on_finish id calls w).0 ≡ Reply.finished (ok final)
    → (w.overflowed ≡ false)
      × ((file : RecordingFile) × (state ≡ RecordingState.recording file)
          × (file.request.take_id ≡ id)
          × (finish calls file ≡ ok final))
unfolding on_finish finish_match take_id
on_finish-finished id calls RecordingState.idle w {final} e f = ground (arith, e)
on_finish-finished id calls (RecordingState.recording file) w {final} e f =
    elim (Bool-cases w.overflowed) [
      | inl lost ↦ ground (arith, lost)
      | inr clear ↦
          finish_match-finished id calls file w {final = final} clear (ground (arith, clear, e))
    ]

abbrev new_file : StartRecordingRequest → Timestamp → RecordingFile
new_file request started_at = record { request = request; started_at = started_at; written = [] }

create-new :
    (calls : CreateCalls) (request : StartRecordingRequest) (started_at : Timestamp)
    {file : RecordingFile}
    → create calls request started_at ≡ ok file
    → file ≡ new_file request started_at
unfolding create
create-new calls request started_at {file} e = ground arith

create_cases :
    (calls : CreateCalls) (request : StartRecordingRequest) (started_at : Timestamp)
    → ((failure : IoError) × (create calls request started_at ≡ err failure))
      ⊎ (create calls request started_at ≡ ok (new_file request started_at))
create_cases calls request started_at = by_result (create calls request started_at) refl
  where
    by_result :
        (result : Result IoError RecordingFile)
        → create calls request started_at ≡ result
        → ((failure : IoError) × (create calls request started_at ≡ err failure))
          ⊎ (create calls request started_at ≡ ok (new_file request started_at))
    by_result (err failure) e = inl (failure, e)
    by_result (ok file) e = inr (e ∙ ap ok (create-new calls request started_at {file = file} e))

on_start-started :
    (request : StartRecordingRequest) (started_at : Timestamp) (calls : CreateCalls) (w : Worker)
    {begun : RecordingStarted}
    → (on_start request started_at calls w).0 ≡ Reply.started (ok begun)
    → ((on_start request started_at calls w).1.state.recording
        ≡ RecordingState.recording (new_file request started_at))
      × ((on_start request started_at calls w).1.overflowed ≡ w.overflowed)
unfolding on_start begin
on_start-started request started_at calls w {begun} e =
    elim (create_cases calls request started_at) [
      | inl (failure, failed) ↦ ground (arith, failed)
      | inr made ↦ ground (arith, made)
    ]

-- When a task whose flags and events agree starts a recording, and later hands it over at a request to
-- finish it, with no other start between, then the file holds the payload of every packet that
-- came in between, in order; no packet was refused since then, nor at the start unnoticed, no write failed, and the input
-- neither failed nor disconnected.
pub on_finish-IsComplete :
    (camera : CameraIdentityId) (request : StartRecordingRequest) (started_at : Timestamp)
    (created : CreateCalls) (inputs : List Input) (id : TakeId) (calls : FinishCalls) (w : Worker)
    {begun : RecordingStarted} {final : FinalizedRecording}
    → IsReported w
    → (on_start request started_at created w).0 ≡ Reply.started (ok begun)
    → any is_start inputs ≡ false
    → (on_finish id calls (run camera inputs (on_start request started_at created w).1)).0
      ≡ Reply.finished (ok final)
    → (file : RecordingFile) × ((run camera inputs
          (on_start request started_at created w).1).state.recording
        ≡ RecordingState.recording file)
      × (file.request ≡ request)
      × (request.take_id ≡ id)
      × (file.written ≡ payloads inputs)
      × (all is_lossless inputs ≡ true)
      × (w.overflowed ≡ false)
      × (finish calls file ≡ ok final)
on_finish-IsComplete camera request started_at created inputs id calls w {begun} {final} h b s f =
    let file = new_file request started_at in
    let at_start = on_start-started request started_at created w {begun = begun} b in
    let after = (on_start request started_at created w).1 in
    let begun_well =
      step-IsReported camera (Input.start_recording request started_at created) w h in
    let (clear, (held, e, same, done)) =
      on_finish-finished id calls (run camera inputs after).state.recording
        (run camera inputs after) {final = final} refl f in
    elim (run-IsKept camera inputs file after s (unfold step in begun_well) at_start.0) [
      | inl ended ↦ cc
      | inr (kept, whole) ↦
          let one : RecordingState.recording held
              ≡ RecordingState.recording (record file { written = payloads inputs }) =
            sym e ∙ kept in
          let name : held ≡ record file { written = payloads inputs } = cc in
          (
            held,
            e,
            ap (λ (f : RecordingFile). f.request) name,
            ap (λ (f : RecordingFile). f.request.take_id) (sym name) ∙ same,
            ap (λ (f : RecordingFile). f.written) name,
            (whole clear).1,
            sym at_start.1 ∙ (whole clear).0,
            done,
          )
    ]
