-- ===== src/Domain/Paths.antt =====
-- kinugasa-core/src/domain/value.rs (`RelativePath`) and application/config.rs
-- (`RecordingLayout`): where a recording is kept below the recording root.
pub mod Layout
use kinugasa_recording.Shared.{
  ℕ, Bool, false, ◌||◌, List, [], ◌∷◌, ◌++◌, Text, codes, ◌==◌, if◌then◌else◌, is_empty, any,
  text_eq, Result, ok, err,
}
use kinugasa_recording.Domain.Values.{ValidationError}

abbrev pub slash : ℕ
slash = b'/'

abbrev pub backslash : ℕ
backslash = 92

unfoldable pub contains : ℕ → Text → Bool
contains c s = any (λ x. x == c) s

unfoldable pub starts_with : ℕ → Text → Bool
starts_with c [] = false
starts_with c (x ∷ xs) = x == c

unfoldable pub ends_with : ℕ → Text → Bool
ends_with c [] = false
ends_with c (x ∷ []) = x == c
ends_with c (x ∷ y ∷ xs) = ends_with c (y ∷ xs)

-- `str::split`: one part more than there are separators.
abbrev pub cons_head : ℕ → List Text → List Text
cons_head c [] = (c ∷ []) ∷ []
cons_head c (part ∷ parts) = (c ∷ part) ∷ parts

unfoldable pub split : ℕ → Text → List Text
split c [] = [] ∷ []
split c (x ∷ xs) = let parts = split c xs in if x == c then [] ∷ parts else cons_head x parts

unfoldable pub is_special : Text → Bool
unfolding text_eq
is_special part = is_empty part || text_eq part (codes ".") || text_eq part (codes "..")

unfoldable pub is_invalid_path : Text → Bool
unfolding starts_with ends_with contains split is_special
is_invalid_path value =
    is_empty value
    || starts_with slash value
    || ends_with slash value
    || contains backslash value
    || any is_special (split slash value)

unfoldable pub new_relative_path : Text → Result ValidationError Text
unfolding is_invalid_path
new_relative_path value =
    if is_invalid_path value
    then err (record {
      field = "relative_path";
      reason = "must be a normalized, non-empty slash-separated relative path";
    })
    else ok value

pub record RecordingLayout : Type 0 where
  pub file_name : Text

unfoldable pub is_invalid_file_name : Text → Bool
unfolding contains text_eq is_special
is_invalid_file_name file_name =
    is_special file_name || contains slash file_name || contains backslash file_name

unfoldable pub new_recording_layout : Text → Result ValidationError RecordingLayout
unfolding is_invalid_file_name
new_recording_layout file_name =
    if is_invalid_file_name file_name
    then err
        (record { field = "recording_file_name"; reason = "must be a non-empty path component" })
    else ok (record { file_name = file_name })

-- `format!("recording/{session}/{take}/{camera}/{}", self.file_name)`
unfoldable pub path_text : RecordingLayout → Text → Text → Text → Text
path_text layout session take camera =
    codes "recording"
    ++ (slash ∷ (session ++ (slash ∷ (take ++ (slash ∷ (camera ++ (slash ∷ layout.file_name)))))))

-- `err` stands for the panic of `expect`.
unfoldable pub path : RecordingLayout → Text → Text → Text → Result ValidationError Text
unfolding path_text new_relative_path
path layout session take camera = new_relative_path (path_text layout session take camera)
