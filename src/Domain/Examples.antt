-- ===== src/Domain/Examples.antt =====
-- The path of a recording.
use kinugasa_recording.Shared.{◌≡◌, refl, true, false, [], ◌∷◌, codes, text_eq, ok}
use kinugasa_recording.Domain.Values.{
  resource_name, is_lower, is_alphanumeric, is_inner, ends_alphanumeric,
}
use kinugasa_recording.Domain.Paths.{
  slash, split, contains, is_special, RecordingLayout, is_invalid_file_name, path_text, path,
}
use kinugasa_recording.Domain.Paths.Layout.{path-split}

abbrev layout : RecordingLayout
layout = record { file_name = codes "video.ts" }

studio : resource_name (codes "studio-a") ≡ true
unfolding resource_name is_lower is_alphanumeric is_inner ends_alphanumeric
studio = refl

file : is_invalid_file_name (codes "video.ts") ≡ false
unfolding is_invalid_file_name is_special text_eq contains
file = refl

path-split_example :
    (path layout (codes "studio-a") (codes "studio-a") (codes "studio-a")
      ≡ ok (path_text layout (codes "studio-a") (codes "studio-a") (codes "studio-a")))
    × (split slash (path_text layout (codes "studio-a") (codes "studio-a") (codes "studio-a"))
        ≡ codes "recording"
          ∷ codes "studio-a"
          ∷ codes "studio-a"
          ∷ codes "studio-a"
          ∷ codes "video.ts"
          ∷ [])
path-split_example =
    path-split layout (codes "studio-a") (codes "studio-a") (codes "studio-a") studio studio studio
      file
