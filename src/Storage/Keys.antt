-- ===== src/Storage/Keys.antt =====
-- kinugasa-s3/src/lib.rs: `content_addressed_key`.
use kinugasa_recording.Shared.{
  ℕ, ◌≡◌, refl, sym, ap, ◌∙◌, Bool, true, false, ◌||◌, Option, none, some, [], ◌∷◌, ◌++◌, Text,
  codes, ◌==◌, if◌then◌else◌, is_empty, any, length, Result, ok, arith, ==-refl, eq_of_==,
  any-append,
}
use kinugasa_recording.Domain.Values.{ValidationError, new_object_key}
use kinugasa_recording.Domain.Paths.{slash}

-- `str::rsplit_once`: what stands before the last occurrence, and what stands after it.
unfoldable pub rsplit_step : ℕ → ℕ → Text → Option (Text × Text) → Option (Text × Text)
rsplit_step separator c rest (some (before, last)) = some (c ∷ before, last)
rsplit_step separator c rest none = if c == separator then some ([], rest) else none

unfoldable pub rsplit_once : ℕ → Text → Option (Text × Text)
unfolding rsplit_step
rsplit_once separator [] = none
rsplit_once separator (c ∷ rest) = rsplit_step separator c rest (rsplit_once separator rest)

-- `map_or` on the two parts.
abbrev pub directory_and_name : Text → Option (Text × Text) → Text × Text
directory_and_name relative (some parts) = parts
directory_and_name relative none = ([], relative)

abbrev pub dash : Text
dash = codes "-"

unfoldable pub key_text : Text → Text → Text → Text
key_text hash directory file_name =
    if is_empty directory
    then hash ++ (dash ++ file_name)
    else directory ++ (slash ∷ (hash ++ (dash ++ file_name)))

unfoldable pub content_addressed_key : Text → Text → Result ValidationError Text
unfolding key_text
content_addressed_key relative hash =
    let (directory, file_name) = directory_and_name relative (rsplit_once slash relative) in
    new_object_key (key_text hash directory file_name)

abbrev pub has : ℕ → Text → Bool
has separator s = any (λ c. c == separator) s

rsplit_once-none :
    (separator : ℕ) (s : Text) → has separator s ≡ false → rsplit_once separator s ≡ none
unfolding rsplit_once
rsplit_once-none separator [] h = refl
rsplit_once-none separator (c ∷ rest) h = ground (arith, rsplit_once-none separator rest)

rsplit_once-append :
    (separator : ℕ) (before last : Text)
    → has separator last ≡ false
    → rsplit_once separator (before ++ (separator ∷ last)) ≡ some (before, last)
unfolding rsplit_once
rsplit_once-append separator [] last h =
    ground (arith, rsplit_once-none separator last h, ==-refl separator)
rsplit_once-append separator (c ∷ before) last h =
    rw (rsplit_once-append separator before last h) refl

-- The text is its two parts, and the second has no separator.
Split : ℕ → Text → Option (Text × Text) → Type 0
Split separator s (some (before, last)) =
    (s ≡ before ++ (separator ∷ last)) × (has separator last ≡ false)
Split separator s none = has separator s ≡ false

step-Split :
    (separator c : ℕ) (rest : Text) (parts : Option (Text × Text))
    → Split separator rest parts
    → Split separator (c ∷ rest) (rsplit_step separator c rest parts)
unfolding Split rsplit_step
step-Split separator c rest (some (before, last)) (e, free) = (ap (λ (t : Text). c ∷ t) e, free)
step-Split separator c rest none free = at (c == separator) refl
  where
    at :
        (test : Bool)
        → (c == separator) ≡ test
        → Split separator
            (c ∷ rest)
            (if◌then◌else◌ {A = Option (Text × Text)} test (some ([], rest)) none)
    at true e = (ap (λ (t : ℕ). t ∷ rest) (eq_of_== c separator e), free)
    at false e = ground (arith, e)

rsplit_once-Split : (separator : ℕ) (s : Text) → Split separator s (rsplit_once separator s)
unfolding rsplit_once
rsplit_once-Split separator [] = unfold Split in refl
rsplit_once-Split separator (c ∷ rest) =
    step-Split separator c rest (rsplit_once separator rest) (rsplit_once-Split separator rest)

has-append :
    (separator : ℕ) (s t : Text) → has separator (s ++ t) ≡ (has separator s || has separator t)
has-append separator s t = any-append (λ c. c == separator) s t

-- What a relative path starts with is no slash: it does not have an empty first part.
abbrev pub is_absolute : Text → Bool
is_absolute [] = false
is_absolute (c ∷ rest) = c == slash

join : Text → Text → Text
join directory file_name =
    if is_empty directory then file_name else directory ++ (slash ∷ file_name)

parts-join :
    (relative : Text) (parts : Option (Text × Text))
    → is_absolute relative ≡ false
    → Split slash relative parts
    → (relative ≡ join (directory_and_name relative parts).0 (directory_and_name relative parts).1)
      × (has slash (directory_and_name relative parts).1 ≡ false)
unfolding Split join
parts-join relative none h free = (refl, free)
parts-join relative (some ([], last)) h (e, free) = absurd (cc (sym h ∙ ap is_absolute e))
parts-join relative (some (c ∷ before, last)) h (e, free) = (e, free)

tail-free :
    (hash file_name : Text)
    → has slash hash ≡ false
    → has slash file_name ≡ false
    → has slash (hash ++ (dash ++ file_name)) ≡ false
tail-free hash file_name h k = ground (arith, has-append slash hash (dash ++ file_name))

-- The parts of the key.
key-parts :
    (hash directory file_name : Text)
    → has slash hash ≡ false
    → has slash file_name ≡ false
    → directory_and_name
        (key_text hash directory file_name)
        (rsplit_once slash (key_text hash directory file_name))
      ≡ (directory, hash ++ (dash ++ file_name))
unfolding key_text
key-parts hash [] file_name h k =
    rw (rsplit_once-none slash (hash ++ (dash ++ file_name)) (tail-free hash file_name h k)) refl
key-parts hash (c ∷ directory) file_name h k =
    rw
      (rsplit_once-append slash (c ∷ directory) (hash ++ (dash ++ file_name))
        (tail-free hash file_name h k))
      refl

append-inj : (a b s t : Text) → length a ≡ length b → a ++ s ≡ b ++ t → (a ≡ b) × (s ≡ t)
append-inj [] [] s t h e = (refl, e)
append-inj [] (y ∷ b) s t h e = absurd (omega arith)
append-inj (x ∷ a) [] s t h e = absurd (omega arith)
append-inj (x ∷ a) (y ∷ b) s t h e = let (p, q) = append-inj a b s t (omega arith) (cc) in (cc, q)

object_key-ok : (value : Text) {key : Text} → new_object_key value ≡ ok key → key ≡ value
unfolding new_object_key
object_key-ok value e = ground arith

content_addressed_key-text :
    (relative hash : Text) {key : Text}
    → content_addressed_key relative hash ≡ ok key
    → key
      ≡ key_text hash
          (directory_and_name relative (rsplit_once slash relative)).0
          (directory_and_name relative (rsplit_once slash relative)).1
unfolding content_addressed_key
content_addressed_key-text relative hash {key} e = object_key-ok _ e

-- Two recordings whose paths are relative get the same key only if their paths are the same and their
-- hashes, which are of one length and without a slash, are the same.
pub content_addressed_key-inj :
    (relative hash relative' hash' : Text) {key : Text}
    → is_absolute relative ≡ false
    → is_absolute relative' ≡ false
    → has slash hash ≡ false
    → has slash hash' ≡ false
    → length hash ≡ length hash'
    → content_addressed_key relative hash ≡ ok key
    → content_addressed_key relative' hash' ≡ ok key
    → (relative ≡ relative') × (hash ≡ hash')
content_addressed_key-inj relative hash relative' hash' {key} a a' h h' same e e' =
    let (d, f) = directory_and_name relative (rsplit_once slash relative) in
    let (d', f') = directory_and_name relative' (rsplit_once slash relative') in
    let (j, free) =
      parts-join relative (rsplit_once slash relative) a (rsplit_once-Split slash relative) in
    let (j', free') =
      parts-join relative' (rsplit_once slash relative') a' (rsplit_once-Split slash relative') in
    let k = content_addressed_key-text relative hash {key = key} e in
    let k' = content_addressed_key-text relative' hash' {key = key} e' in
    let p = key-parts hash d f h free in
    let p' = key-parts hash' d' f' h' free' in
    let both : ◌≡◌ {A = Text × Text} (d, hash ++ (dash ++ f)) (d', hash' ++ (dash ++ f')) =
      sym p ∙ ap (λ (t : Text). directory_and_name t (rsplit_once slash t)) (sym k ∙ k') ∙ p' in
    let dirs : d ≡ d' = ap (λ (t : Text × Text). t.0) both in
    let tails : hash ++ (dash ++ f) ≡ hash' ++ (dash ++ f') = ap (λ (t : Text × Text). t.1) both in
    let (hashes, ends) = append-inj hash hash' (dash ++ f) (dash ++ f') same tails in
    let (_, names) = append-inj dash dash f f' refl ends in
    (j ∙ ap (λ (t : Text). join t f) dirs ∙ ap (λ (t : Text). join d' t) names ∙ sym j', hashes)
