-- ===== src/Storage/Upload.antt =====
-- kinugasa-s3/src/lib.rs: `S3ObjectStorage`. The service is a state with two operations, the requests
-- of `put_object` and `head_object`.
use kinugasa_recording.Shared.{
  ℕ, Bool, Option, none, some, Text, if◌then◌else◌, Result, ok, err, map_err, ◌>>=◌, List, not,
  ◌||◌, ltb,
}
use kinugasa_recording.Domain.Values.{ContentHash}
use kinugasa_recording.Domain.Recording.{FinalizedRecording, StoredObject}
use kinugasa_recording.Application.Errors.{ObjectStorageError}
use kinugasa_recording.Ports.Hex.{to_hex}
use kinugasa_recording.Storage.Keys.{content_addressed_key}
use kinugasa_recording.Storage.Hashing.{ResolveCalls, resolve_recording_path, HashCalls, hash_file}
use kinugasa_recording.Storage.Client.{
  ClientError, PreparedUpload, stored_object, RemoteObject, HeadOutput, matches, map_client_error,
  head_object, put_status, i64_limit,
}

-- What the file system and the service answer, with the service's state: the request of `put_object`
-- carries the condition `If-None-Match: *`.
pub record Service (S : Type 0) : Type 0 where
  pub send_put : PreparedUpload → S → Result (Option ℕ) (Unit {0}) × S
  pub send_head : Text → Text → S → Result (Option ℕ) HeadOutput

unfoldable pub prepare_upload :
    (List ℕ → ContentHash)
    → Text
    → ResolveCalls
    → HashCalls
    → FinalizedRecording
    → Result ObjectStorageError PreparedUpload
unfolding hash_file resolve_recording_path
prepare_upload sha256 bucket resolve hash_calls recording = do
  path ← map_err (λ error. ObjectStorageError.unexpected) (resolve_recording_path resolve)
  hashed ← map_err (λ error. ObjectStorageError.unexpected) (hash_file sha256 hash_calls)
  key ←
      map_err (λ error. ObjectStorageError.unexpected)
        (content_addressed_key recording.relative_path (to_hex hashed.0))
  ok (record {
    bucket = bucket;
    key = key;
    path = path;
    hash = hashed.0;
    hash_hex = to_hex hashed.0;
    size = hashed.1;
    media_type = recording.media_type;
  })

module _ {S : Type 0} (service : Service S) where
  unfoldable pub inspect_existing :
      PreparedUpload → S → Result ObjectStorageError (Option RemoteObject)
  unfolding head_object map_client_error
  inspect_existing upload s =
      map_err map_client_error (head_object (service.send_head upload.bucket upload.key s))

  -- The match on the object that is there.
  unfoldable pub accept_existing :
      PreparedUpload → Option RemoteObject → Result ObjectStorageError StoredObject
  unfolding matches stored_object
  accept_existing upload none = err ObjectStorageError.unavailable
  accept_existing upload (some existing) =
      if matches existing upload then ok (stored_object upload) else err ObjectStorageError.conflict

  -- The match on what `put_object` returned.
  unfoldable pub after_put :
      PreparedUpload → Result ClientError (Unit {0}) → S → Result ObjectStorageError StoredObject
  unfolding inspect_existing accept_existing map_client_error stored_object
  after_put upload (ok done) s = ok (stored_object upload)
  after_put upload (err ClientError.precondition_failed) s =
      inspect_existing upload s >>= accept_existing upload
  after_put upload (err error) s = err (map_client_error error)

  -- `put_object`, from whether the file could be opened.
  unfoldable pub put_object : Bool → PreparedUpload → S → Result ClientError (Unit {0}) × S
  unfolding put_status
  put_object opened upload s =
      if not (ltb upload.size i64_limit) || not opened
      then (err ClientError.unexpected, s)
      else (put_status (service.send_put upload s).0, (service.send_put upload s).1)

  -- `upload` after its preparation. What others do to the service between the two requests is a
  -- parameter.
  unfoldable pub upload_prepared :
      (S → S) → Bool → PreparedUpload → S → Result ObjectStorageError StoredObject × S
  unfolding after_put
  upload_prepared meanwhile opened upload s =
      let (put, after) = put_object opened upload s in
      (after_put upload put (meanwhile after), meanwhile after)
