-- ===== src/Ports/Certificates.antt =====
-- kinugasa-core/src/ports/media.rs: `ServerCertificateHash`. A text is its bytes.
use kinugasa_recording.Shared.{
  ℕ, ◌+◌, ◌*◌, ◌/◌, ◌%◌, ◌<◌, ◌≡◌, refl, Bool, true, false, List, [], ◌∷◌, Text, ◌==◌,
  if◌then◌else◌, length, all, ltb, Result, ok, err, ok_or, ◌>>=◌, arith, ap, ◌∙◌, >>=-eq-ok,
  ok_or-eq-ok, sym, eq_of_==,
}
use kinugasa_recording.Domain.Values.{ValidationError}
use kinugasa_recording.Ports.Hex.{to_hex, decode_hex_digit, decode-hex, decode_hex_digit_bound}

abbrev pub certificate_hash_length : ℕ
certificate_hash_length = 32

abbrev pub not_hexadecimal : ValidationError
not_hexadecimal = record {
  field = "server_certificate_hash";
  reason = "must contain only hexadecimal characters";
}

abbrev pub wrong_length : ValidationError
wrong_length = record {
  field = "server_certificate_hash";
  reason = "must contain exactly 64 hexadecimal characters";
}

-- `(high << 4) | low` of two digits; `chunks_exact` leaves a single byte at the end out.
unfoldable pub decode_pairs : Text → Result ValidationError (List ℕ)
unfolding decode_hex_digit
decode_pairs [] = ok []
decode_pairs (c ∷ []) = ok []
decode_pairs (c ∷ d ∷ rest) = do
  high ← ok_or (decode_hex_digit c) not_hexadecimal
  low ← ok_or (decode_hex_digit d) not_hexadecimal
  bytes ← decode_pairs rest
  ok ((high * 16 + low) ∷ bytes)

unfoldable pub from_hex : Text → Result ValidationError (List ℕ)
from_hex value =
    if length value == certificate_hash_length * 2 then decode_pairs value else err wrong_length

abbrev pub are_bytes : List ℕ → Bool
are_bytes bytes = all (λ b. ltb b 256) bytes

length-to_hex : (bytes : List ℕ) → length (to_hex bytes) ≡ length bytes * 2
unfolding to_hex
length-to_hex [] = omega arith
length-to_hex (byte ∷ bytes) = omega (arith, length-to_hex bytes)

decode_pairs-to_hex :
    (bytes : List ℕ) → are_bytes bytes ≡ true → decode_pairs (to_hex bytes) ≡ ok bytes
unfolding decode_pairs to_hex
decode_pairs-to_hex [] h = refl
decode_pairs-to_hex (byte ∷ bytes) h =
    let small : byte < 256 = ground arith in
    rw
      (
        decode-hex (byte / 16) (omega arith),
        decode-hex (byte % 16) (omega arith),
        decode_pairs-to_hex bytes (ground arith),
      )
      (ap (λ (t : ℕ). ok (t ∷ bytes)) (omega arith))

decode_pairs_bounds :
    (value : Text) {bytes : List ℕ}
    → decode_pairs value ≡ ok bytes
    → (are_bytes bytes ≡ true) × (length bytes ≡ length value / 2)
unfolding decode_pairs
decode_pairs_bounds [] h = ground arith
decode_pairs_bounds (c ∷ []) h = ground arith
decode_pairs_bounds (c ∷ d ∷ rest) {bytes} h =
    let (high, a, h1) = >>=-eq-ok (ok_or (decode_hex_digit c) not_hexadecimal) _ h in
    let (low, b, h2) = >>=-eq-ok (ok_or (decode_hex_digit d) not_hexadecimal) _ h1 in
    let (tail, t, h3) = >>=-eq-ok (decode_pairs rest) _ h2 in
    let (small, long) = decode_pairs_bounds rest {bytes = tail} t in
    let x =
      decode_hex_digit_bound c {n = high} (ok_or-eq-ok (decode_hex_digit c) not_hexadecimal a) in
    let y =
      decode_hex_digit_bound d {n = low} (ok_or-eq-ok (decode_hex_digit d) not_hexadecimal b) in
    (ground arith, ground arith)

from_hex-eq :
    (value : Text)
    → length value ≡ certificate_hash_length * 2
    → from_hex value ≡ decode_pairs value
unfolding from_hex
from_hex-eq value e = rw e refl

if-ok {ℓ κ} :
    {E : Type ℓ} {A : Type κ} (test : Bool) (r : Result E A) (failure : E) {a : A}
    → (if test then r else err failure) ≡ ok a
    → test ≡ true
if-ok true r failure h = refl
if-ok false r failure h = cc

from_hex-ok :
    (value : Text) {bytes : List ℕ}
    → from_hex value ≡ ok bytes
    → length value ≡ certificate_hash_length * 2
unfolding from_hex
from_hex-ok value {bytes} h =
    eq_of_== _ _
      (if-ok (length value == certificate_hash_length * 2) (decode_pairs value) wrong_length h)

-- What is read has 32 bytes.
pub from_hex_bounds :
    (value : Text) {bytes : List ℕ}
    → from_hex value ≡ ok bytes
    → (are_bytes bytes ≡ true) × (length bytes ≡ certificate_hash_length)
unfolding from_hex
from_hex_bounds value {bytes} h =
    let exact = from_hex-ok value {bytes = bytes} h in
    let (small, long) =
      decode_pairs_bounds value {bytes = bytes} (sym (from_hex-eq value exact) ∙ h) in
    (small, long ∙ omega arith)

-- The text of a hash of 32 bytes is read back as the hash.
pub from_hex-to_hex :
    (bytes : List ℕ)
    → length bytes ≡ certificate_hash_length
    → are_bytes bytes ≡ true
    → from_hex (to_hex bytes) ≡ ok bytes
from_hex-to_hex bytes long small =
    from_hex-eq (to_hex bytes) (omega (arith, length-to_hex bytes))
    ∙ decode_pairs-to_hex bytes small
