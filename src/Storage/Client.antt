-- ===== src/Storage/Client.antt =====
-- kinugasa-s3/src/lib.rs: `AwsS3Client`, `RemoteObject` and the errors. What the service answers to a
-- request is an input: an output, or the status of a response, or no response.
use kinugasa_recording.Shared.{
  ℕ, Bool, false, ◌&&◌, ◌||◌, Option, none, some, Text, text_eq, leb, ◌==◌, if◌then◌else◌, Result,
  ok, err,
}
use kinugasa_recording.Domain.Values.{ContentHash}
use kinugasa_recording.Domain.Recording.{StoredObject}
use kinugasa_recording.Application.Errors.{ObjectStorageError}

pub data ClientError : Type 0 where
  precondition_failed unavailable unexpected : ClientError

pub record PreparedUpload : Type 0 where
  pub bucket : Text
  pub key : Text
  pub path : Text
  pub hash : ContentHash
  pub hash_hex : Text
  pub size : ℕ
  pub media_type : Text

unfoldable pub stored_object : PreparedUpload → StoredObject
stored_object upload = record { object_key = upload.key; hash = upload.hash; size = upload.size }

pub record RemoteObject : Type 0 where
  pub size : Option ℕ
  pub sha256 : Option Text

abbrev pub size_is : Option ℕ → ℕ → Bool
size_is none n = false
size_is (some m) n = m == n

abbrev pub text_is : Option Text → Text → Bool
text_is none t = false
text_is (some s) t = text_eq s t

-- `RemoteObject::matches`
unfoldable pub matches : RemoteObject → PreparedUpload → Bool
unfolding text_eq
matches remote upload = size_is remote.size upload.size && text_is remote.sha256 upload.hash_hex

abbrev pub is_transient : ℕ → Bool
is_transient status = (status == 408 || status == 409 || status == 429) || leb 500 status

unfoldable pub classify_sdk_error : Option ℕ → ClientError
classify_sdk_error none = ClientError.unavailable
classify_sdk_error (some status) =
    if is_transient status then ClientError.unavailable else ClientError.unexpected

unfoldable pub map_client_error : ClientError → ObjectStorageError
map_client_error ClientError.precondition_failed = ObjectStorageError.conflict
map_client_error ClientError.unavailable = ObjectStorageError.unavailable
map_client_error ClientError.unexpected = ObjectStorageError.unexpected

-- A content length is a signed word; a negative one is no size.
pub data SignedLength : Type 0 where
  non_negative negative : ℕ → SignedLength

abbrev pub to_size : Option SignedLength → Option ℕ
to_size (some (SignedLength.non_negative n)) = some n
to_size _ = none

pub record HeadOutput : Type 0 where
  pub content_length : Option SignedLength
  pub sha256 : Option Text

-- The two branches of `head_object` after `send`.
unfoldable pub head_object : Result (Option ℕ) HeadOutput → Result ClientError (Option RemoteObject)
unfolding classify_sdk_error
head_object (ok output) =
    ok (some (record { size = to_size output.content_length; sha256 = output.sha256 }))
head_object (err none) = err (classify_sdk_error none)
head_object (err (some status)) =
    if status == 404 then ok none else err (classify_sdk_error (some status))

-- The match on what `send` returned in `put_object`.
unfoldable pub put_status : Result (Option ℕ) (Unit {0}) → Result ClientError (Unit {0})
unfolding classify_sdk_error
put_status (ok output) = ok tt
put_status (err none) = err (classify_sdk_error none)
put_status (err (some status)) =
    if status == 412
    then err ClientError.precondition_failed
    else err (classify_sdk_error (some status))

abbrev pub i64_limit : ℕ
i64_limit = 9223372036854775808
