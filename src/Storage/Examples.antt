-- ===== src/Storage/Examples.antt =====
-- A bucket as a function from names and keys, with the uploads of one recording.
use kinugasa_recording.Shared.{
  ℕ, ◌<◌, ◌≡◌, ◌≢◌, ◌⊎◌, ◌↔◌, refl, Bool, true, ◌&&◌, Option, none, some, List, [], ◌∷◌, Text,
  codes, text_eq, text_eq_refl, length, if◌then◌else◌, Result, ok, err, arith, is_blank,
  is_whitespace, ap, ◌∙◌,
}
use kinugasa_recording.Domain.Values.{ContentHash, new_object_key, new_non_empty}
use kinugasa_recording.Application.Errors.{ObjectStorageError}
use kinugasa_recording.Storage.Keys.{content_addressed_key, rsplit_once, content_addressed_key-inj}
use kinugasa_recording.Storage.Hashing.{
  HashCalls, hash_file, contents, are_read, u64_limit, hash_file-contents,
}
use kinugasa_recording.Storage.Client.{
  PreparedUpload, stored_object, RemoteObject, HeadOutput, SignedLength, to_size,
}
use kinugasa_recording.Storage.Upload.{Service, put_object, upload_prepared}
use kinugasa_recording.Storage.Stored.{object_of, upload_prepared-object, upload_prepared-conflict}

abbrev reads : HashCalls
reads = record { opened = ok tt; reads = ok (71 ∷ 1 ∷ []) ∷ ok (2 ∷ []) ∷ ok [] ∷ [] }

abbrev first_bytes : List ℕ → ContentHash
first_bytes bytes = bytes

hash_file-contents_example : (hash_file first_bytes reads ≡ ok (71 ∷ 1 ∷ 2 ∷ [], 3)) ↔ (
    (are_read reads.reads ≡ true)
    × (length (contents reads.reads) < u64_limit)
    × (◌≡◌ {A = ContentHash × ℕ}
        (71 ∷ 1 ∷ 2 ∷ [], 3)
        (first_bytes (contents reads.reads), length (contents reads.reads))))
hash_file-contents_example = hash_file-contents first_bytes reads (71 ∷ 1 ∷ 2 ∷ [], 3) refl

abbrev video : Text
video = codes "live/opening/front/video.ts"

key_of_video :
    content_addressed_key video (codes "ab12") ≡ ok (codes "live/opening/front/ab12-video.ts")
unfolding content_addressed_key rsplit_once new_object_key new_non_empty is_blank is_whitespace
key_of_video = refl

content_addressed_key-inj_example : (video ≡ video) × (codes "ab12" ≡ codes "ab12")
content_addressed_key-inj_example =
    content_addressed_key-inj video (codes "ab12") video (codes "ab12") refl refl refl refl refl
      key_of_video key_of_video

-- The bucket holds at most one object under a key of the one bucket that is looked at.
abbrev Bucket : Type 0
Bucket = Text → Text → Option RemoteObject

abbrev same_place : Text → Text → Text → Text → Bool
same_place bucket key bucket' key' = text_eq bucket bucket' && text_eq key key'

abbrev put_in : PreparedUpload → Bucket → Bucket
put_in upload s = λ bucket key.
    if same_place upload.bucket upload.key bucket key then some (object_of upload) else s bucket key

abbrev send_put_in :
    Option RemoteObject → PreparedUpload → Bucket → Result (Option ℕ) (Unit {0}) × Bucket
send_put_in none upload s = (ok tt, put_in upload s)
send_put_in (some there) upload s = (err (some 412), s)

abbrev length_of : Option ℕ → Option SignedLength
length_of none = none
length_of (some n) = some (SignedLength.non_negative n)

abbrev head_of : Option RemoteObject → Result (Option ℕ) HeadOutput
head_of none = err (some 404)
head_of (some there) = ok (record { content_length = length_of there.size; sha256 = there.sha256 })

abbrev service : Service Bucket
service = record {
  send_put = λ upload s. send_put_in (s upload.bucket upload.key) upload s;
  send_head = λ bucket key s. head_of (s bucket key);
}

abbrev object_at : Text → Text → Bucket → Option RemoteObject
object_at bucket key s = s bucket key

put_stores_if :
    (found : Option RemoteObject) (upload : PreparedUpload) (s : Bucket)
    → (send_put_in found upload s).0 ≡ ok tt
    → object_at upload.bucket upload.key (send_put_in found upload s).1 ≡ some (object_of upload)
put_stores_if none upload s h = ground (arith, text_eq_refl upload.bucket, text_eq_refl upload.key)
put_stores_if (some there) upload s h = cc

put_stores :
    (upload : PreparedUpload) (s : Bucket)
    → (service.send_put upload s).0 ≡ ok tt
    → object_at upload.bucket upload.key (service.send_put upload s).1 ≡ some (object_of upload)
put_stores upload s h = put_stores_if (s upload.bucket upload.key) upload s h

to_size-length_of : (size : Option ℕ) → size ≡ to_size (length_of size)
to_size-length_of none = refl
to_size-length_of (some n) = refl

ok-inj : (a b : HeadOutput) → ◌≡◌ {A = Result (Option ℕ) HeadOutput} (ok a) (ok b) → a ≡ b
ok-inj a b e = cc

head_tells_if :
    (found : Option RemoteObject) (output : HeadOutput)
    → head_of found ≡ ok output
    → found ≡ some (record { size = to_size output.content_length; sha256 = output.sha256 })
head_tells_if none output h = cc
head_tells_if (some there) output h =
    let told : HeadOutput = record {
      content_length = length_of there.size;
      sha256 = there.sha256;
    } in
    let e : told ≡ output = ok-inj told output h in
    let size : there.size ≡ to_size output.content_length =
      to_size-length_of there.size ∙ ap (λ (o : HeadOutput). to_size o.content_length) e in
    λ i. some (record { size = size i; sha256 = ap (λ (o : HeadOutput). o.sha256) e i })

head_tells :
    (bucket key : Text) (s : Bucket) (output : HeadOutput)
    → service.send_head bucket key s ≡ ok output
    → object_at bucket key s
      ≡ some (record { size = to_size output.content_length; sha256 = output.sha256 })
head_tells bucket key s output h = head_tells_if (s bucket key) output h

abbrev upload : PreparedUpload
upload = record {
  bucket = codes "takes";
  key = codes "live/ab12-video.ts";
  path = codes "/recordings/live/video.ts";
  hash = 171 ∷ 18 ∷ [];
  hash_hex = codes "ab12";
  size = 3;
  media_type = codes "video/mp2t";
}

abbrev empty_bucket : Bucket
empty_bucket = λ bucket key. none

abbrev other_object : RemoteObject
other_object = record { size = some 4; sha256 = some (codes "ab12") }

abbrev taken_bucket : Bucket
taken_bucket = λ bucket key. some other_object

stores : (upload_prepared service (λ s. s) true upload empty_bucket).0 ≡ ok (stored_object upload)
unfolding upload_prepared put_object stored_object
stores = refl

conflicts :
    (upload_prepared service (λ s. s) true upload taken_bucket).0 ≡ err ObjectStorageError.conflict
unfolding upload_prepared put_object
conflicts = refl

upload_prepared-object_example :
    (stored_object upload ≡ stored_object upload)
    × ((object_at upload.bucket upload.key (put_object service true upload empty_bucket).1
          ≡ some (object_of upload))
        ⊎ (object_at upload.bucket upload.key
              (upload_prepared service (λ s. s) true upload empty_bucket).1
            ≡ some (object_of upload)))
upload_prepared-object_example =
    upload_prepared-object service object_at put_stores head_tells (λ s. s) true upload empty_bucket
      stores

upload_prepared-conflict_example :
    (remote : RemoteObject) × (object_at upload.bucket upload.key
        (upload_prepared service (λ s. s) true upload taken_bucket).1
      ≡ some remote)
    × (remote ≢ object_of upload)
upload_prepared-conflict_example =
    upload_prepared-conflict service object_at put_stores head_tells (λ s. s) true upload
      taken_bucket conflicts
