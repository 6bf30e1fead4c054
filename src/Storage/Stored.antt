-- ===== src/Storage/Stored.antt =====
-- kinugasa-s3/src/lib.rs: what `upload` says about the object in the bucket.
use kinugasa_recording.Shared.{
  ℕ, ◌≡◌, ◌≢◌, refl, sym, ap, ◌∙◌, Bool, true, false, not, ◌||◌, Option, none, some, Text,
  eq_of_text_eq, text_eq_refl, if◌then◌else◌, Result, ok, err, map_err, ◌>>=◌, arith, eq_of_==,
  Bool-cases, inl, inr, &&-elim, ltb, map_err-eq-ok, >>=-eq-ok, ◌⊎◌, ==-refl,
}
use kinugasa_recording.Domain.Recording.{StoredObject}
use kinugasa_recording.Application.Errors.{ObjectStorageError}
use kinugasa_recording.Storage.Client.{
  ClientError, PreparedUpload, stored_object, RemoteObject, HeadOutput, to_size, matches, size_is,
  text_is, head_object, put_status, map_client_error, i64_limit,
}
use kinugasa_recording.Storage.Upload.{
  Service, inspect_existing, accept_existing, after_put, put_object, upload_prepared,
}

-- The object that an upload writes.
abbrev pub object_of : PreparedUpload → RemoteObject
object_of upload = record { size = some upload.size; sha256 = some upload.hash_hex }

size_is-eq : (o : Option ℕ) (n : ℕ) → size_is o n ≡ true → o ≡ some n
size_is-eq none n h = cc
size_is-eq (some m) n h = ap some (eq_of_== m n h)

text_is-eq : (o : Option Text) (t : Text) → text_is o t ≡ true → o ≡ some t
text_is-eq none t h = cc
text_is-eq (some s) t h = ap some (eq_of_text_eq s t h)

matches-eq :
    (remote : RemoteObject) (upload : PreparedUpload)
    → matches remote upload ≡ true
    → remote ≡ object_of upload
unfolding matches
matches-eq remote upload h =
    let (a, b) = &&-elim (size_is remote.size upload.size) _ h in
    λ i. record {
      size = size_is-eq remote.size upload.size a i;
      sha256 = text_is-eq remote.sha256 upload.hash_hex b i;
    }

matches-object_of : (upload : PreparedUpload) → matches (object_of upload) upload ≡ true
unfolding matches
matches-object_of upload = ground (arith, ==-refl upload.size, text_eq_refl upload.hash_hex)

matches-ne :
    (remote : RemoteObject) (upload : PreparedUpload)
    → matches remote upload ≡ false
    → remote ≢ object_of upload
unfolding matches
matches-ne remote upload h e =
    cc (sym h ∙ ap (λ (r : RemoteObject). matches r upload) e ∙ matches-object_of upload)

head_object-conflict :
    (answer : Result (Option ℕ) HeadOutput)
    → map_err map_client_error (head_object answer) ≢ err ObjectStorageError.conflict
unfolding head_object map_client_error
head_object-conflict (ok output) h = cc
head_object-conflict (err none) h = cc
head_object-conflict (err (some status)) h = ground arith

-- The service as it is documented: an object that was put is there, and the head of an object that is
-- there tells its size and its metadata.
module _ {S : Type 0} (service : Service S) (object_at : Text → Text → S → Option RemoteObject)
    (put_stores : (upload : PreparedUpload) (s : S)
      → (service.send_put upload s).0 ≡ ok tt
      → object_at upload.bucket upload.key (service.send_put upload s).1 ≡ some (object_of upload))
    (head_tells : (bucket key : Text) (s : S) (output : HeadOutput)
      → service.send_head bucket key s ≡ ok output
      → object_at bucket key s
        ≡ some (record { size = to_size output.content_length; sha256 = output.sha256 })) where
  head_object-some :
      (bucket key : Text) (s : S) {remote : RemoteObject} (answer : Result (Option ℕ) HeadOutput)
      → service.send_head bucket key s ≡ answer
      → head_object answer ≡ ok (some remote)
      → object_at bucket key s ≡ some remote
  unfolding head_object
  head_object-some bucket key s (ok output) e h = head_tells bucket key s output e ∙ cc
  head_object-some bucket key s (err none) e h = cc
  head_object-some bucket key s (err (some status)) e h = ground arith

  inspect_existing-some :
      (upload : PreparedUpload) (s : S) {remote : RemoteObject}
      → inspect_existing service upload s ≡ ok (some remote)
      → object_at upload.bucket upload.key s ≡ some remote
  unfolding inspect_existing
  inspect_existing-some upload s {remote} h =
      head_object-some upload.bucket upload.key s {remote = remote}
        (service.send_head upload.bucket upload.key s) refl (map_err-eq-ok map_client_error _ h)

  -- An accepted upload leaves the object there, either put or found.
  accept_existing-ok :
      (upload : PreparedUpload) (found : Option RemoteObject) {stored : StoredObject}
      → accept_existing service upload found ≡ ok stored
      → (found ≡ some (object_of upload)) × (stored ≡ stored_object upload)
  unfolding accept_existing
  accept_existing-ok upload none h = cc
  accept_existing-ok upload (some remote) {stored} h = elim (Bool-cases (matches remote upload)) [
    | inl same ↦ (ap some (matches-eq remote upload same), ground (arith, same))
    | inr other ↦ ground (arith, other)
  ]

  accept_existing-conflict :
      (upload : PreparedUpload) (found : Option RemoteObject)
      → accept_existing service upload found ≡ err ObjectStorageError.conflict
      → (remote : RemoteObject) × (found ≡ some remote) × (remote ≢ object_of upload)
  unfolding accept_existing
  accept_existing-conflict upload none h = cc
  accept_existing-conflict upload (some remote) h = elim (Bool-cases (matches remote upload)) [
    | inl same ↦ ground (arith, same)
    | inr other ↦ (remote, refl, matches-ne remote upload other)
  ]

  put_status-ok : (sent : Result (Option ℕ) (Unit {0})) → put_status sent ≡ ok tt → sent ≡ ok tt
  unfolding put_status
  put_status-ok (ok tt) h = refl
  put_status-ok (err none) h = cc
  put_status-ok (err (some status)) h = ground arith

  sent-if :
      (refused : Bool) (upload : PreparedUpload) (s s' : S) (put : Result ClientError (Unit {0}))
      → (put ≡ ok tt → object_at upload.bucket upload.key s' ≡ some (object_of upload))
      → (if◌then◌else◌ {A = Result ClientError (Unit {0}) × S} refused
          (err ClientError.unexpected, s)
          (put, s')).0
        ≡ ok tt
      → object_at upload.bucket upload.key
          (if◌then◌else◌ {A = Result ClientError (Unit {0}) × S} refused
            (err ClientError.unexpected, s)
            (put, s')).1
        ≡ some (object_of upload)
  sent-if true upload s s' put k h = cc
  sent-if false upload s s' put k h = k h

  put_object-ok :
      (opened : Bool) (upload : PreparedUpload) (s : S)
      → (put_object service opened upload s).0 ≡ ok tt
      → object_at upload.bucket upload.key (put_object service opened upload s).1
        ≡ some (object_of upload)
  unfolding put_object
  put_object-ok opened upload s h =
      sent-if (not (ltb upload.size i64_limit) || not opened) upload s (service.send_put upload s).1
        (put_status (service.send_put upload s).0)
        (λ e. put_stores upload s (put_status-ok (service.send_put upload s).0 e)) h

  after_put-ok :
      (upload : PreparedUpload) (put : Result ClientError (Unit {0})) (s : S)
      {stored : StoredObject}
      → after_put service upload put s ≡ ok stored
      → (stored ≡ stored_object upload)
        × ((put ≡ ok tt) ⊎ (object_at upload.bucket upload.key s ≡ some (object_of upload)))
  unfolding after_put
  after_put-ok upload (ok done) s h = (cc, inl refl)
  after_put-ok upload (err ClientError.unavailable) s h = cc
  after_put-ok upload (err ClientError.unexpected) s h = cc
  after_put-ok upload (err ClientError.precondition_failed) s {stored} h =
      let (found, a, b) = >>=-eq-ok (inspect_existing service upload s) _ h in
      let (e, same) = accept_existing-ok upload found {stored = stored} b in
      (same, inr (inspect_existing-some upload s (a ∙ ap ok e)))

  inspect_existing-conflict :
      (upload : PreparedUpload) (s : S)
      → inspect_existing service upload s ≢ err ObjectStorageError.conflict
  unfolding inspect_existing
  inspect_existing-conflict upload s h =
      head_object-conflict (service.send_head upload.bucket upload.key s) h

  after_put-conflict :
      (upload : PreparedUpload) (put : Result ClientError (Unit {0})) (s : S)
      → after_put service upload put s ≡ err ObjectStorageError.conflict
      → (remote : RemoteObject) × (object_at upload.bucket upload.key s ≡ some remote)
        × (remote ≢ object_of upload)
  unfolding after_put
  after_put-conflict upload (ok done) s h = cc
  after_put-conflict upload (err ClientError.unavailable) s h = unfold map_client_error in cc
  after_put-conflict upload (err ClientError.unexpected) s h = unfold map_client_error in cc
  after_put-conflict upload (err ClientError.precondition_failed) s h =
      from_found (inspect_existing service upload s) refl h
    where
      from_found :
          (found : Result ObjectStorageError (Option RemoteObject))
          → inspect_existing service upload s ≡ found
          → (found >>= accept_existing service upload) ≡ err ObjectStorageError.conflict
          → (remote : RemoteObject) × (object_at upload.bucket upload.key s ≡ some remote)
            × (remote ≢ object_of upload)
      from_found (err error) e k = absurd (inspect_existing-conflict upload s (e ∙ cc))
      from_found (ok found) e k =
          let (remote, there, differs) = accept_existing-conflict upload found k in
          (remote, inspect_existing-some upload s (e ∙ ap ok there), differs)

  -- When an upload reports an object as stored, it is the one that was prepared, with its key, hash and
  -- size, and an object of that size and hash was in the bucket under that key: right after the
  -- request that put it, or, when that request found the key taken, at the request that looked there.
  pub upload_prepared-object :
      (meanwhile : S → S) (opened : Bool) (upload : PreparedUpload) (s : S) {stored : StoredObject}
      → (upload_prepared service meanwhile opened upload s).0 ≡ ok stored
      → (stored ≡ stored_object upload)
        × ((object_at upload.bucket upload.key (put_object service opened upload s).1
              ≡ some (object_of upload))
            ⊎ (object_at upload.bucket upload.key
                  (upload_prepared service meanwhile opened upload s).1
                ≡ some (object_of upload)))
  unfolding upload_prepared
  upload_prepared-object meanwhile opened upload s {stored} h =
      let put = put_object service opened upload s in
      let (same, there) = after_put-ok upload put.0 (meanwhile put.1) {stored = stored} h in
      (
        same,
        elim there [ inl sent ↦ inl (put_object-ok opened upload s sent) | inr found ↦ inr found ],
      )

  -- When an upload reports a conflict, then at the request that looked at the key an object of another
  -- size or hash was in the bucket under it.
  pub upload_prepared-conflict :
      (meanwhile : S → S) (opened : Bool) (upload : PreparedUpload) (s : S)
      → (upload_prepared service meanwhile opened upload s).0 ≡ err ObjectStorageError.conflict
      → (remote : RemoteObject) × (object_at upload.bucket upload.key
            (upload_prepared service meanwhile opened upload s).1
          ≡ some remote)
        × (remote ≢ object_of upload)
  unfolding upload_prepared
  upload_prepared-conflict meanwhile opened upload s h =
      let put = put_object service opened upload s in
      after_put-conflict upload put.0 (meanwhile put.1) h
