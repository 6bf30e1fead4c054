-- ===== src/Domain/Values.antt =====
-- kinugasa-core/src/domain/error.rs and value.rs: validated values. A text is its list of code
-- points; an identifier is its number; a timestamp counts nanoseconds since the Unix epoch.
use kinugasa_recording.Shared.{
  ℕ, String, Bool, false, ◌&&◌, ◌||◌, List, [], ◌∷◌, Text, leb, ◌==◌, if◌then◌else◌, is_empty,
  length, is_blank, Result, ok, err,
}

pub record ValidationError : Type 0 where
  pub field : String
  pub reason : String

abbrev pub SessionId : Type 0
SessionId = ℕ

abbrev pub CameraIdentityId : Type 0
CameraIdentityId = ℕ

abbrev pub TakeId : Type 0
TakeId = ℕ

abbrev pub MediaProcessId : Type 0
MediaProcessId = ℕ

abbrev pub Timestamp : Type 0
Timestamp = ℕ

-- `define_resource_name!`: the regular expression `^[a-z](?:[a-z0-9-]{0,30}[a-z0-9])?$`.
unfoldable pub is_lower : ℕ → Bool
is_lower c = leb b'a' c && leb c b'z'

unfoldable pub is_alphanumeric : ℕ → Bool
unfolding is_lower
is_alphanumeric c = is_lower c || (leb b'0' c && leb c b'9')

unfoldable pub is_inner : ℕ → Bool
unfolding is_alphanumeric
is_inner c = is_alphanumeric c || c == b'-'

-- `[a-z0-9-]*[a-z0-9]`
unfoldable pub ends_alphanumeric : Text → Bool
unfolding is_inner
ends_alphanumeric [] = false
ends_alphanumeric (c ∷ []) = is_alphanumeric c
ends_alphanumeric (c ∷ d ∷ rest) = is_inner c && ends_alphanumeric (d ∷ rest)

unfoldable pub resource_name : Text → Bool
unfolding ends_alphanumeric
resource_name [] = false
resource_name (c ∷ rest) =
    is_lower c && (is_empty rest || (leb (length rest) 31 && ends_alphanumeric rest))

unfoldable pub new_resource_name : String → Text → Result ValidationError Text
unfolding resource_name
new_resource_name field value =
    if resource_name value
    then ok value
    else err (record { field = field; reason = "must match ^[a-z](?:[a-z0-9-]{0,30}[a-z0-9])?$" })

unfoldable pub new_session_name : Text → Result ValidationError Text
unfolding new_resource_name
new_session_name value = new_resource_name "session_name" value

unfoldable pub new_camera_name : Text → Result ValidationError Text
unfolding new_resource_name
new_camera_name value = new_resource_name "camera_name" value

unfoldable pub new_take_name : Text → Result ValidationError Text
unfolding new_resource_name
new_take_name value = new_resource_name "take_name" value

-- `define_non_empty_string!`
abbrev pub ErrorReason : Type 0
ErrorReason = Text

unfoldable pub new_non_empty : String → Text → Result ValidationError Text
unfolding is_blank
new_non_empty field value =
    if is_blank value
    then err (record { field = field; reason = "must not be empty" })
    else ok value

unfoldable pub new_error_reason : Text → Result ValidationError ErrorReason
unfolding new_non_empty
new_error_reason value = new_non_empty "error_reason" value

unfoldable pub new_object_key : Text → Result ValidationError Text
unfolding new_non_empty
new_object_key value = new_non_empty "object_key" value

unfoldable pub new_media_type : Text → Result ValidationError Text
unfolding new_non_empty
new_media_type value = new_non_empty "media_type" value

-- A hash is its 32 bytes.
abbrev pub ContentHash : Type 0
ContentHash = List ℕ

abbrev pub hash_length : ℕ
hash_length = 32

unfoldable pub try_from_slice : List ℕ → Result ValidationError ContentHash
try_from_slice value =
    if length value == hash_length
    then ok value
    else err (record { field = "content_hash"; reason = "must contain exactly 32 bytes" })
