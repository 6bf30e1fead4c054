-- ===== src/Media/Recorder.antt =====
-- kinugasa-media/src/recording.rs: the file that a recording is written to. The calls of the file
-- system are inputs: each is passed with what it returned.
use kinugasa_recording.Shared.{
  Bool, true, false, not, List, [], ◌∷◌, ◌++◌, Text, codes, if◌then◌else◌, Result, ok, err, ◌>>=◌,
  ◌>>◌, ensure, map_err,
}
use kinugasa_recording.Domain.Values.{SessionId, CameraIdentityId, TakeId, Timestamp}
use kinugasa_recording.Domain.Recording.{FinalizedRecording, new_finalized_recording}

pub record StartRecordingRequest : Type 0 where
  pub take_id : TakeId
  pub session_id : SessionId
  pub camera_identity_id : CameraIdentityId
  pub relative_path : Text

-- The kinds of `std::io::Error` that the file makes itself, and those of the calls.
pub data IoError : Type 0 where
  invalid_input permission_denied not_a_directory already_exists not_found other : IoError

-- What `symlink_metadata` says of a path that is there.
pub data FileType : Type 0 where
  symlink directory regular : FileType

abbrev pub is_symlink : FileType → Bool
is_symlink FileType.symlink = true
is_symlink _ = false

abbrev pub is_dir : FileType → Bool
is_dir FileType.directory = true
is_dir _ = false

-- A component of the parent's path: not a plain name, or what the first look at it returned, what
-- `create_dir` returned, and the second look.
pub data Component : Type 0 where
  unusual : Component
  normal : Result IoError FileType → Result IoError (Unit {0}) → Result IoError FileType → Component

-- The arm for a directory that another task created meanwhile.
unfoldable pub recheck : Result IoError FileType → Result IoError (Unit {0})
recheck (err error) = err error
recheck (ok kind) =
    ensure (not (if is_symlink kind then true else not (is_dir kind))) IoError.permission_denied

unfoldable pub create_component :
    Result IoError (Unit {0}) → Result IoError FileType → Result IoError (Unit {0})
unfolding recheck
create_component (ok done) second = ok tt
create_component (err IoError.already_exists) second = recheck second
create_component (err error) second = err error

-- The body of the loop of `prepare_parent`.
unfoldable pub prepare_component : Component → Result IoError (Unit {0})
unfolding create_component
prepare_component unusual = err IoError.permission_denied
prepare_component (normal (ok FileType.symlink) created second) = err IoError.permission_denied
prepare_component (normal (ok FileType.directory) created second) = ok tt
prepare_component (normal (ok FileType.regular) created second) = err IoError.not_a_directory
prepare_component (normal (err IoError.not_found) created second) = create_component created second
prepare_component (normal (err error) created second) = err error

unfoldable pub prepare_components : List Component → Result IoError (Unit {0})
unfolding prepare_component
prepare_components [] = ok tt
prepare_components (component ∷ rest) = prepare_component component >> prepare_components rest

-- `strip_prefix` of the root may fail.
unfoldable pub prepare_parent : Result IoError (List Component) → Result IoError (Unit {0})
unfolding prepare_components
prepare_parent (err error) = err IoError.permission_denied
prepare_parent (ok components) = prepare_components components

-- What the calls of `RecordingFile::create` returned.
pub record CreateCalls : Type 0 where
  pub parent : Bool
  pub relative : Result IoError (List Component)
  pub canonicalize : Result IoError (Unit {0})
  pub starts_with_root : Bool
  pub try_exists : Result IoError Bool
  pub file_name : Bool
  pub opened : Result IoError (Unit {0})

-- The bytes that the partial file holds are the payloads that were written, in order.
pub record RecordingFile : Type 0 where
  pub request : StartRecordingRequest
  pub started_at : Timestamp
  pub written : List Text

unfoldable pub take_id : RecordingFile → TakeId
take_id file = file.request.take_id

unfoldable pub create :
    CreateCalls → StartRecordingRequest → Timestamp → Result IoError RecordingFile
unfolding prepare_parent
create calls request started_at = do
  ensure calls.parent IoError.invalid_input
  prepare_parent calls.relative
  calls.canonicalize
  ensure calls.starts_with_root IoError.permission_denied
  exists ← calls.try_exists
  ensure (not exists) IoError.already_exists
  ensure calls.file_name IoError.invalid_input
  calls.opened
  ok (record { request = request; started_at = started_at; written = [] })

unfoldable pub write_packet :
    Result IoError (Unit {0}) → Text → RecordingFile → Result IoError RecordingFile
write_packet written payload file = do
  written
  ok (record file { written = file.written ++ payload ∷ [] })

-- What the calls of `finish` returned, and the time that it read.
pub record FinishCalls : Type 0 where
  pub flush : Result IoError (Unit {0})
  pub sync_all : Result IoError (Unit {0})
  pub hard_link : Result IoError (Unit {0})
  pub remove_file : Result IoError (Unit {0})
  pub sync_parent : Result IoError (Unit {0})
  pub now : Timestamp

unfoldable pub finish : FinishCalls → RecordingFile → Result IoError FinalizedRecording
unfolding new_finalized_recording
finish calls file = do
  calls.flush
  calls.sync_all
  calls.hard_link
  calls.remove_file
  calls.sync_parent
  map_err (λ error. IoError.other)
      (new_finalized_recording file.request.take_id file.request.camera_identity_id
        file.request.session_id file.started_at calls.now file.request.relative_path
        (codes "video/mp2t"))

-- `abort`, from what the removal of the partial file returned.
unfoldable pub abort : Result IoError (Unit {0}) → Result IoError (Unit {0})
abort (ok done) = ok tt
abort (err IoError.not_found) = ok tt
abort (err error) = err error
