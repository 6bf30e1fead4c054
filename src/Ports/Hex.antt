-- ===== src/Ports/Hex.antt =====
-- The hexadecimal digits of kinugasa-core/src/ports/media.rs (`ServerCertificateHash`) and
-- kinugasa-core/src/domain/value.rs (`ContentHash::to_hex`).
use kinugasa_recording.Shared.{
  ℕ, zero, suc, ◌+◌, ◌-◌, ◌/◌, ◌%◌, ◌<◌, ◌≡◌, refl, Bool, true, false, ◌&&◌, Option, none, some,
  List, [], ◌∷◌, Text, codes, leb, ◌==◌, if◌then◌else◌, arith,
}

-- The table `HEX`, and a byte of it.
abbrev pub hex : Text
hex = codes "0123456789abcdef"

abbrev pub byte_at : Text → ℕ → ℕ
byte_at [] i = 0
byte_at (c ∷ rest) zero = c
byte_at (c ∷ rest) (suc i) = byte_at rest i

-- `byte >> 4` and `byte & 0x0f`.
unfoldable pub to_hex : List ℕ → Text
to_hex [] = []
to_hex (byte ∷ bytes) = byte_at hex (byte / 16) ∷ byte_at hex (byte % 16) ∷ to_hex bytes

unfoldable pub decode_hex_digit : ℕ → Option ℕ
decode_hex_digit value =
    if leb b'0' value && leb value b'9'
    then some (value - b'0')
    else if leb b'a' value && leb value b'f'
    then some (value - b'a' + 10)
    else if leb b'A' value && leb value b'F'
    then some (value - b'A' + 10)
    else none

abbrev all_below : ℕ → (ℕ → Bool) → Bool
all_below zero p = true
all_below (suc n) p = p n && all_below n p

all_below_holds : (n : ℕ) (p : ℕ → Bool) (x : ℕ) → all_below n p ≡ true → x < n → p x ≡ true
all_below_holds zero p x h lt = absurd (omega arith)
all_below_holds (suc n) p x h lt = ground (arith, all_below_holds n p x)

abbrev is_some_of : ℕ → Option ℕ → Bool
is_some_of n none = false
is_some_of n (some m) = m == n

is_some_of-eq : (n : ℕ) (o : Option ℕ) → is_some_of n o ≡ true → o ≡ some n
is_some_of-eq n none h = cc
is_some_of-eq n (some m) h = ground arith

digits_table : all_below 16 (λ n. is_some_of n (decode_hex_digit (byte_at hex n))) ≡ true
unfolding decode_hex_digit
digits_table = refl

pub decode-hex : (n : ℕ) → n < 16 → decode_hex_digit (byte_at hex n) ≡ some n
decode-hex n h =
    is_some_of-eq n (decode_hex_digit (byte_at hex n))
      (all_below_holds 16 (λ n. is_some_of n (decode_hex_digit (byte_at hex n))) n digits_table h)

pub decode_hex_digit_bound : (c : ℕ) {n : ℕ} → decode_hex_digit c ≡ some n → n < 16
unfolding decode_hex_digit
decode_hex_digit_bound c h = ground arith
