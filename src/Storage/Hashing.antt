-- ===== src/Storage/Hashing.antt =====
-- kinugasa-s3/src/lib.rs: `resolve_recording_path` and `hash_file`. The calls of the file system are
-- passed with what they returned; the hash function is a parameter.
use kinugasa_recording.Shared.{
  ℕ, ◌+◌, ◌<◌, ◌≡◌, refl, sym, ap, ◌∙◌, Bool, true, false, not, ◌||◌, List, [], ◌∷◌, ◌++◌, Text,
  ltb, if◌then◌else◌, length, Result, ok, err, ensure, ◌>>=◌, ◌>>◌, map_err, arith, >>=-eq-ok, ◌↔◌,
}
use mathlib.Core.List.{append_assoc}
use kinugasa_recording.Domain.Values.{ContentHash}
use kinugasa_recording.Media.Recorder.{IoError, FileType, is_symlink}

-- `S3Failure`, by the call that failed.
pub data S3Failure : Type 0 where
  canonicalize inspect not_regular outside open_file hash_read size_overflow build_key : S3Failure

abbrev pub is_regular : FileType → Bool
is_regular FileType.regular = true
is_regular _ = false

pub record ResolveCalls : Type 0 where
  pub root : Result IoError (Unit {0})
  pub symlink_metadata : Result IoError FileType
  pub canonical_path : Result IoError Text
  pub starts_with_root : Bool

unfoldable pub resolve_recording_path : ResolveCalls → Result S3Failure Text
resolve_recording_path calls = do
  map_err (λ error. S3Failure.canonicalize) calls.root
  metadata ← map_err (λ error. S3Failure.inspect) calls.symlink_metadata
  ensure (not (is_symlink metadata || not (is_regular metadata))) S3Failure.not_regular
  path ← map_err (λ error. S3Failure.canonicalize) calls.canonical_path
  ensure calls.starts_with_root S3Failure.outside
  ok path

abbrev pub u64_limit : ℕ
u64_limit = 18446744073709551616

-- `size.checked_add(read as u64)`
unfoldable pub checked_add : ℕ → ℕ → Result S3Failure ℕ
checked_add size read =
    if ltb (size + read) u64_limit then ok (size + read) else err S3Failure.size_overflow

-- The loop, over what the reads returned, with the bytes that the hasher has been given; a read of no
-- byte ends it, and so does the end of the list.
unfoldable pub hash_loop :
    List (Result IoError (List ℕ)) → List ℕ → ℕ → Result S3Failure (List ℕ × ℕ)
unfolding checked_add
hash_loop [] bytes size = ok (bytes, size)
hash_loop (err error ∷ reads) bytes size = err S3Failure.hash_read
hash_loop (ok [] ∷ reads) bytes size = ok (bytes, size)
hash_loop (ok (byte ∷ chunk) ∷ reads) bytes size = do
  more ← checked_add size (length (byte ∷ chunk))
  hash_loop reads (bytes ++ (byte ∷ chunk)) more

pub record HashCalls : Type 0 where
  pub opened : Result IoError (Unit {0})
  pub reads : List (Result IoError (List ℕ))

unfoldable pub hash_file : (List ℕ → ContentHash) → HashCalls → Result S3Failure (ContentHash × ℕ)
hash_file sha256 calls = do
  map_err (λ error. S3Failure.open_file) calls.opened
  (bytes, size) ← hash_loop calls.reads [] 0
  ok (sha256 bytes, size)

-- What the reads give up to the end of the file.
abbrev pub contents : List (Result IoError (List ℕ)) → List ℕ
contents [] = []
contents (err error ∷ reads) = []
contents (ok [] ∷ reads) = []
contents (ok (byte ∷ chunk) ∷ reads) = (byte ∷ chunk) ++ contents reads

-- No read fails before the end of the file.
abbrev pub are_read : List (Result IoError (List ℕ)) → Bool
are_read [] = true
are_read (err error ∷ reads) = false
are_read (ok [] ∷ reads) = true
are_read (ok (byte ∷ chunk) ∷ reads) = are_read reads

length-append : (s t : List ℕ) → length (s ++ t) ≡ length s + length t
length-append [] t = omega arith
length-append (x ∷ s) t = omega (arith, length-append s t)

append_nil : (xs : List ℕ) → xs ≡ xs ++ []
append_nil [] = refl
append_nil (x ∷ xs) = ap (λ (t : List ℕ). x ∷ t) (append_nil xs)

checked_add-ok :
    (size read : ℕ) → size + read < u64_limit → checked_add size read ≡ ok (size + read)
unfolding checked_add
checked_add-ok size read h = ground arith

checked_add-eq-ok :
    (size read : ℕ) {more : ℕ}
    → checked_add size read ≡ ok more
    → (more ≡ size + read) × (more < u64_limit)
unfolding checked_add
checked_add-eq-ok size read h = (ground arith, ground arith)

hash_loop-exact :
    (reads : List (Result IoError (List ℕ))) (bytes : List ℕ) (size : ℕ)
    → are_read reads ≡ true
    → size + length (contents reads) < u64_limit
    → hash_loop reads bytes size ≡ ok (bytes ++ contents reads, size + length (contents reads))
unfolding hash_loop
hash_loop-exact [] bytes size h k =
    let at : size ≡ size + 0 = omega arith in λ i. ok (append_nil bytes i, at i)
hash_loop-exact (err error ∷ reads) bytes size h k = cc
hash_loop-exact (ok [] ∷ reads) bytes size h k =
    let at : size ≡ size + 0 = omega arith in λ i. ok (append_nil bytes i, at i)
hash_loop-exact (ok (byte ∷ chunk) ∷ reads) bytes size h k =
    let long = length-append (byte ∷ chunk) (contents reads) in
    let next =
      hash_loop-exact reads (bytes ++ (byte ∷ chunk)) (size + length (byte ∷ chunk)) h
        (omega arith) in
    let at : (size + length (byte ∷ chunk)) + length (contents reads)
        ≡ size + length (contents (ok (byte ∷ chunk) ∷ reads)) =
      omega arith in
    rw (checked_add-ok size (length (byte ∷ chunk)) (omega arith))
      (next ∙ λ i. ok (append_assoc bytes (byte ∷ chunk) (contents reads) i, at i))

hash_loop-eq-ok :
    (reads : List (Result IoError (List ℕ))) (bytes : List ℕ) (size : ℕ) {all_bytes : List ℕ}
    {n : ℕ}
    → size < u64_limit
    → hash_loop reads bytes size ≡ ok (all_bytes, n)
    → (are_read reads ≡ true) × (size + length (contents reads) < u64_limit)
unfolding hash_loop
hash_loop-eq-ok [] bytes size h e = (refl, omega arith)
hash_loop-eq-ok (err error ∷ reads) bytes size h e = cc
hash_loop-eq-ok (ok [] ∷ reads) bytes size h e = (refl, omega arith)
hash_loop-eq-ok (ok (byte ∷ chunk) ∷ reads) bytes size {all_bytes} {n} h e =
    let (more, a, rest) = >>=-eq-ok (checked_add size (length (byte ∷ chunk))) _ e in
    let (same, small) = checked_add-eq-ok size (length (byte ∷ chunk)) {more = more} a in
    let (read, fits) =
      hash_loop-eq-ok reads (bytes ++ (byte ∷ chunk)) more {all_bytes = all_bytes} {n = n} small
        rest in
    (read, omega (arith, length-append (byte ∷ chunk) (contents reads)))

ok-inj :
    {a b : ContentHash × ℕ} → ◌≡◌ {A = Result S3Failure (ContentHash × ℕ)} (ok a) (ok b) → a ≡ b
ok-inj e = cc

hash_file-exact :
    (sha256 : List ℕ → ContentHash) (calls : HashCalls)
    → calls.opened ≡ ok tt
    → are_read calls.reads ≡ true
    → length (contents calls.reads) < u64_limit
    → hash_file sha256 calls ≡ ok (sha256 (contents calls.reads), length (contents calls.reads))
unfolding hash_file
hash_file-exact sha256 calls opened read small =
    rw (opened, hash_loop-exact calls.reads [] 0 read (omega arith))
      (let same : 0 + length (contents calls.reads) ≡ length (contents calls.reads) = omega arith in
        λ i. ok (sha256 (contents calls.reads), same i))

hash_file-eq-ok :
    (sha256 : List ℕ → ContentHash) (calls : HashCalls) {out : ContentHash × ℕ}
    → calls.opened ≡ ok tt
    → hash_file sha256 calls ≡ ok out
    → (are_read calls.reads ≡ true) × (length (contents calls.reads) < u64_limit)
unfolding hash_file
hash_file-eq-ok sha256 calls {out} opened e =
    let (_, a, rest) = >>=-eq-ok (map_err (λ error. S3Failure.open_file) calls.opened) _ e in
    let ((bytes, size), b, _) = >>=-eq-ok (hash_loop calls.reads [] 0) _ rest in
    let (read, small) =
      hash_loop-eq-ok calls.reads [] 0 {all_bytes = bytes} {n = size} (omega arith) b in
    (read, omega arith)

-- Once the file is open, hashing it gives a hash and a size exactly when no read before its end fails,
-- it has less than 2^64 bytes, the hash is that of all its bytes in order, and the size is their
-- number.
pub hash_file-contents :
    (sha256 : List ℕ → ContentHash) (calls : HashCalls) (out : ContentHash × ℕ)
    → calls.opened ≡ ok tt
    → (hash_file sha256 calls ≡ ok out) ↔ (
        (are_read calls.reads ≡ true)
        × (length (contents calls.reads) < u64_limit)
        × (out ≡ (sha256 (contents calls.reads), length (contents calls.reads))))
hash_file-contents sha256 calls out opened = (
  λ e.
      let (read, small) = hash_file-eq-ok sha256 calls {out = out} opened e in
      (read, small, ok-inj (sym e ∙ hash_file-exact sha256 calls opened read small)),
  λ (read, small, same). hash_file-exact sha256 calls opened read small ∙ ap ok (sym same),
)
