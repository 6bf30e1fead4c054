-- ===== src/Domain/Paths/Layout.antt =====
-- kinugasa-core/src/application/config.rs: the parts of the path of a recording.
use kinugasa_recording.Shared.{
  ℕ, ◌≡◌, refl, sym, ap, ◌∙◌, Bool, true, false, ◌&&◌, ◌||◌, [], ◌∷◌, ◌++◌, Text, codes, ◌==◌,
  is_empty, any, text_eq, ok, arith, any-append, Bool-cases, inl, inr, leb, length, ||-false,
  &&-elim, ==-refl, eq_of_==,
}
use kinugasa_recording.Domain.Values.{
  resource_name, is_lower, is_alphanumeric, is_inner, ends_alphanumeric,
}
use kinugasa_recording.Domain.Paths.{
  slash, backslash, contains, starts_with, ends_with, split, is_special, is_invalid_path,
  new_relative_path, RecordingLayout, is_invalid_file_name, path_text, path,
}

-- A text before a separator, and one without any.
split-append :
    (c : ℕ) (part rest : Text)
    → contains c part ≡ false
    → split c (part ++ c ∷ rest) ≡ part ∷ split c rest
unfolding split contains
split-append c [] rest h = rw (==-refl c) refl
split-append c (x ∷ part) rest h =
    let (miss, later) = ||-false (x == c) (any (λ y. y == c) part) h in
    rw (miss, split-append c part rest later) refl

split-whole : (c : ℕ) (part : Text) → contains c part ≡ false → split c part ≡ part ∷ []
unfolding split contains
split-whole c [] h = refl
split-whole c (x ∷ part) h =
    let (miss, later) = ||-false (x == c) (any (λ y. y == c) part) h in
    rw (miss, split-whole c part later) refl

-- The last part decides how a text ends.
ends_with-append :
    (c : ℕ) (xs : Text) (y : ℕ) (ys : Text) → ends_with c (xs ++ y ∷ ys) ≡ ends_with c (y ∷ ys)
unfolding ends_with
ends_with-append c [] y ys = refl
ends_with-append c (x ∷ []) y ys = refl
ends_with-append c (x ∷ z ∷ xs) y ys = ends_with-append c (z ∷ xs) y ys

ends_with-contains : (c : ℕ) (xs : Text) → contains c xs ≡ false → ends_with c xs ≡ false
unfolding ends_with contains
ends_with-contains c [] h = refl
ends_with-contains c (x ∷ []) h = ground arith
ends_with-contains c (x ∷ y ∷ xs) h =
    let (_, later) = ||-false (x == c) (any (λ z. z == c) (y ∷ xs)) h in
    ends_with-contains c (y ∷ xs) later

-- What a resource name cannot contain.
ends_alphanumeric-contains :
    (c : ℕ) (xs : Text) → is_inner c ≡ false → ends_alphanumeric xs ≡ true → contains c xs ≡ false
unfolding ends_alphanumeric contains is_inner
ends_alphanumeric-contains c [] h e = cc
ends_alphanumeric-contains c (x ∷ []) h e = elim (Bool-cases (x == c)) [
  | inl hit ↦
      let same : is_alphanumeric c ≡ true = ap is_alphanumeric (sym (eq_of_== x c hit)) ∙ e in
      absurd (ground (arith, same, h))
  | inr miss ↦ rw miss refl
]
ends_alphanumeric-contains c (x ∷ y ∷ xs) h e =
    let (inner, later) = &&-elim (is_inner x) (ends_alphanumeric (y ∷ xs)) e in
    elim (Bool-cases (x == c)) [
      | inl hit ↦
          let same : is_inner c ≡ true = ap is_inner (sym (eq_of_== x c hit)) ∙ inner in
          absurd (ground (arith, same, h))
      | inr miss ↦ rw miss (ends_alphanumeric-contains c (y ∷ xs) h later)
    ]

resource_name-contains :
    (c : ℕ) (name : Text) → is_inner c ≡ false → resource_name name ≡ true → contains c name ≡ false
unfolding resource_name contains is_inner is_alphanumeric
resource_name-contains c [] h e = cc
resource_name-contains c (x ∷ []) h e = ground arith
resource_name-contains c (x ∷ y ∷ rest) h e =
    let (low, tail) =
      &&-elim (is_lower x) (leb (length (y ∷ rest)) 31 && ends_alphanumeric (y ∷ rest)) e in
    let (_, later) = &&-elim (leb (length (y ∷ rest)) 31) (ends_alphanumeric (y ∷ rest)) tail in
    let free : contains c (y ∷ rest) ≡ false = ends_alphanumeric-contains c (y ∷ rest) h later in
    elim (Bool-cases (x == c)) [
      | inl hit ↦
          let same : is_lower c ≡ true = ap is_lower (sym (eq_of_== x c hit)) ∙ low in
          absurd (ground (arith, same, h))
      | inr miss ↦ rw miss free
    ]

resource_name-special : (name : Text) → resource_name name ≡ true → is_special name ≡ false
unfolding resource_name is_lower is_special text_eq
resource_name-special [] h = cc
resource_name-special (x ∷ rest) h = ground arith

-- What makes the five parts of a path.
record IsNamed (layout : RecordingLayout) (session take camera : Text) : Type 0 where
  session_name : resource_name session ≡ true
  take_name : resource_name take ≡ true
  camera_name : resource_name camera ≡ true
  file_name : is_invalid_file_name layout.file_name ≡ false

file_name-parts :
    (name : Text)
    → is_invalid_file_name name ≡ false
    → (is_special name ≡ false) × (contains slash name ≡ false) × (contains backslash name ≡ false)
unfolding is_invalid_file_name
file_name-parts name h = (ground arith, ground arith, ground arith)

-- The parts of the path between its slashes.
split-path_text :
    (layout : RecordingLayout) (session take camera : Text)
    → IsNamed layout session take camera
    → split slash (path_text layout session take camera)
      ≡ codes "recording" ∷ session ∷ take ∷ camera ∷ layout.file_name ∷ []
unfolding path_text is_inner is_alphanumeric is_lower contains
split-path_text layout session take camera named =
    split-append slash (codes "recording") _ refl
    ∙ ap (λ l. codes "recording" ∷ l)
        (split-append slash session _ (resource_name-contains slash session refl named.session_name)
          ∙ ap (λ l. session ∷ l)
              (split-append slash take _ (resource_name-contains slash take refl named.take_name)
                ∙ ap (λ l. take ∷ l)
                    (split-append slash camera _
                        (resource_name-contains slash camera refl named.camera_name)
                      ∙ ap (λ l. camera ∷ l)
                          (split-whole slash layout.file_name
                            (file_name-parts layout.file_name named.file_name).1))))

last_part :
    (name : Text)
    → (is_special name ≡ false) × (contains slash name ≡ false) × (contains backslash name ≡ false)
    → ends_with slash (slash ∷ name) ≡ false
unfolding ends_with is_special
last_part [] (a, b, c) = ground (arith, a)
last_part (x ∷ name) (a, b, c) = ends_with-contains slash (x ∷ name) b

path_text-starts :
    (layout : RecordingLayout) (session take camera : Text)
    → (is_empty (path_text layout session take camera) ≡ false)
      × (starts_with slash (path_text layout session take camera) ≡ false)
unfolding path_text starts_with
path_text-starts layout session take camera = (refl, refl)

recording_special :
    is_special (codes "recording") || (false || (false || (false || (false || false)))) ≡ false
unfolding is_special text_eq
recording_special = refl

path_text-ends :
    (layout : RecordingLayout) (session take camera : Text)
    → IsNamed layout session take camera
    → ends_with slash (path_text layout session take camera) ≡ false
unfolding path_text
path_text-ends layout session take camera named =
    ends_with-append slash (codes "recording") slash _
    ∙ ends_with-append slash (slash ∷ session) slash _
    ∙ ends_with-append slash (slash ∷ take) slash _
    ∙ ends_with-append slash (slash ∷ camera) slash layout.file_name
    ∙ last_part layout.file_name (file_name-parts layout.file_name named.file_name)

path_text-backslash :
    (layout : RecordingLayout) (session take camera : Text)
    → IsNamed layout session take camera
    → contains backslash (path_text layout session take camera) ≡ false
unfolding path_text contains is_inner is_alphanumeric is_lower
path_text-backslash layout session take camera named =
    let own : Text → Bool = any (λ x. x == backslash) in
    any-append (λ x. x == backslash) session
      (slash ∷ (take ++ (slash ∷ (camera ++ (slash ∷ layout.file_name)))))
    ∙ rw (resource_name-contains backslash session refl named.session_name) (
        any-append (λ x. x == backslash) take (slash ∷ (camera ++ (slash ∷ layout.file_name)))
        ∙ rw (resource_name-contains backslash take refl named.take_name) (
            any-append (λ x. x == backslash) camera (slash ∷ layout.file_name)
            ∙ rw (resource_name-contains backslash camera refl named.camera_name)
                (file_name-parts layout.file_name named.file_name).2))

valid :
    (layout : RecordingLayout) (session take camera : Text)
    → IsNamed layout session take camera
    → is_invalid_path (path_text layout session take camera) ≡ false
unfolding is_invalid_path
valid layout session take camera named =
    let (special, _, _) = file_name-parts layout.file_name named.file_name in
    let start = path_text-starts layout session take camera in
    rw
      (
        start.0,
        start.1,
        path_text-ends layout session take camera named,
        path_text-backslash layout session take camera named,
        split-path_text layout session take camera named,
        resource_name-special session named.session_name,
        resource_name-special take named.take_name,
        resource_name-special camera named.camera_name,
        special,
      )
      recording_special

-- When session, take and camera have resource names and the file name is that of a layout, the path
-- of a recording is accepted as a relative path (its `expect` never fails), and splitting it at its
-- slashes gives back the names and the file name, so that different names never share a path.
pub path-split :
    (layout : RecordingLayout) (session take camera : Text)
    → resource_name session ≡ true
    → resource_name take ≡ true
    → resource_name camera ≡ true
    → is_invalid_file_name layout.file_name ≡ false
    → (path layout session take camera ≡ ok (path_text layout session take camera))
      × (split slash (path_text layout session take camera)
          ≡ codes "recording" ∷ session ∷ take ∷ camera ∷ layout.file_name ∷ [])
unfolding path new_relative_path
path-split layout session take camera a b c d =
    let named : IsNamed layout session take camera = record {
      session_name = a;
      take_name = b;
      camera_name = c;
      file_name = d;
    } in
    (
      rw (valid layout session take camera named) refl,
      split-path_text layout session take camera named,
    )
