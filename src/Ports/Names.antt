-- ===== src/Ports/Names.antt =====
-- kinugasa-core/src/ports/repository.rs: `NamedFinishedTakeDetail::new`.
use kinugasa_recording.Shared.{
  ℕ, suc, ◌<◌, ◌≤◌, ◌≡◌, refl, Bool, true, false, not, ◌&&◌, List, [], ◌∷◌, map, ◌==◌, length, any,
  ok, arith, Bool-cases, inl, inr, eq_of_==, ==-refl, ◌↔◌, ap, ◌∙◌, sym,
}
use kinugasa_recording.Domain.Values.{CameraIdentityId}
use kinugasa_recording.Domain.Take.{FinishedTakeDetail, VideoFile}
use kinugasa_recording.Media.Sets.{member, discard, member-discard}
use kinugasa_recording.Ports.Repository.{
  CameraNameEntry, contains_key, new_named_finished_take_detail,
}

abbrev pub is_distinct : List ℕ → Bool
is_distinct [] = true
is_distinct (x ∷ xs) = not (member x xs) && is_distinct xs

abbrev pub cameras_of : List VideoFile → List CameraIdentityId
cameras_of files = map (λ file. file.camera_identity_id) files

abbrev pub keys : List CameraNameEntry → List CameraIdentityId
keys names = map (λ entry. entry.camera_identity_id) names

-- Every element of the first is in the second.
abbrev Within : List ℕ → List ℕ → Type 0
Within xs ys = (x : ℕ) → member x xs ≡ true → member x ys ≡ true

length-discard-le : (x : ℕ) (ys : List ℕ) → length (discard x ys) ≤ length ys
length-discard-le x [] = omega arith
length-discard-le x (y ∷ ys) = ground (arith, length-discard-le x ys)

length-discard-lt : (x : ℕ) (ys : List ℕ) → member x ys ≡ true → length (discard x ys) < length ys
length-discard-lt x [] h = ground arith
length-discard-lt x (y ∷ ys) h = ground (arith, length-discard-le x ys, length-discard-lt x ys)

member_head : (x : ℕ) (xs : List ℕ) → member x (x ∷ xs) ≡ true
member_head x xs = ground (arith, ==-refl x)

member_tail : (y x : ℕ) (xs : List ℕ) → member y xs ≡ true → member y (x ∷ xs) ≡ true
member_tail y x xs h = ground arith

Within-discard :
    (x : ℕ) (xs ys : List ℕ) → member x xs ≡ false → Within (x ∷ xs) ys → Within xs (discard x ys)
Within-discard x xs ys fresh h y m = elim (Bool-cases (x == y)) [
  | inl same ↦
      let e : x ≡ y = eq_of_== x y same in
      let clash : member y xs ≡ false = ap (λ (t : ℕ). member t xs) (sym e) ∙ fresh in cc
  | inr other ↦ ground (arith, other, member-discard y x ys, h y (member_tail y x xs m))
]

-- A list without duplicates is no longer than one that holds its elements.
length-le : (xs ys : List ℕ) → is_distinct xs ≡ true → Within xs ys → length xs ≤ length ys
length-le [] ys d h = omega arith
length-le (x ∷ xs) ys d h =
    let fresh : member x xs ≡ false = ground arith in
    let rest : is_distinct xs ≡ true = ground arith in
    let shorter = length-discard-lt x ys (h x (member_head x xs)) in
    let inside = length-le xs (discard x ys) rest (Within-discard x xs ys fresh h) in omega arith

Within-cons : (k : ℕ) (xs ys : List ℕ) → member k ys ≡ true → Within xs ys → Within (k ∷ xs) ys
Within-cons k xs ys m h y at = elim (Bool-cases (k == y)) [
  | inl same ↦ ap (λ (t : ℕ). member t ys) (sym (eq_of_== k y same)) ∙ m
  | inr other ↦ h y (ground (arith, other))
]

-- When it is as long, it holds every element of the other.
Within-length :
    (xs ys : List ℕ) → is_distinct xs ≡ true → length xs ≡ length ys → Within xs ys → Within ys xs
Within-length xs ys d same h k m = elim (Bool-cases (member k xs)) [
  | inl there ↦ there
  | inr missing ↦
      let longer : length (k ∷ xs) ≤ length ys =
        length-le (k ∷ xs) ys (ground (arith, missing)) (Within-cons k xs ys m h) in
      absurd (omega arith)
]

length-map {ℓ κ} :
    {A : Type ℓ} {B : Type κ} (f : A → B) (xs : List A) → length (map f xs) ≡ length xs
length-map f [] = refl
length-map f (x ∷ xs) = ap suc (length-map f xs)

contains_key-keys :
    (id : CameraIdentityId) (names : List CameraNameEntry)
    → contains_key id names ≡ member id (keys names)
unfolding contains_key
contains_key-keys id [] = refl
contains_key-keys id (entry ∷ names) =
    unfold contains_key in ground (arith, contains_key-keys id names)

unnamed-Within :
    (files : List VideoFile) (names : List CameraNameEntry)
    → any (λ file. not (contains_key file.camera_identity_id names)) files ≡ false
    → Within (cameras_of files) (keys names)
unnamed-Within [] names h x m = cc
unnamed-Within (file ∷ files) names h x m = elim (Bool-cases (file.camera_identity_id == x)) [
  | inl same ↦
      ap (λ (t : ℕ). member t (keys names)) (sym (eq_of_== _ x same))
      ∙ ground (arith, contains_key-keys file.camera_identity_id names)
  | inr other ↦ unnamed-Within files names (ground arith) x (ground (arith, other))
]

Within-unnamed :
    (files : List VideoFile) (names : List CameraNameEntry)
    → Within (cameras_of files) (keys names)
    → any (λ file. not (contains_key file.camera_identity_id names)) files ≡ false
Within-unnamed [] names h = refl
Within-unnamed (file ∷ files) names h =
    let here = h file.camera_identity_id (member_head file.camera_identity_id (cameras_of files)) in
    let rest =
      Within-unnamed files names
        (λ x m. h x (member_tail x file.camera_identity_id (cameras_of files) m)) in
    ground (arith, here, rest, contains_key-keys file.camera_identity_id names)

eq-length :
    (xs ys : List ℕ)
    → is_distinct xs ≡ true
    → is_distinct ys ≡ true
    → Within xs ys
    → Within ys xs
    → length xs ≡ length ys
eq-length xs ys d e h k = omega (arith, length-le xs ys d h, length-le ys xs e k)

eq_of_both : (a b : Bool) → (a ≡ true → b ≡ true) → (b ≡ true → a ≡ true) → a ≡ b
eq_of_both true b h k = sym (h refl)
eq_of_both false true h k = k refl
eq_of_both false false h k = refl

accepted_parts :
    (detail : FinishedTakeDetail) (names : List CameraNameEntry)
    → new_named_finished_take_detail detail names
      ≡ ok (record { detail = detail; camera_names = names })
    → (length detail.video_files ≡ length names)
      × (any (λ file. not (contains_key file.camera_identity_id names)) detail.video_files ≡ false)
unfolding new_named_finished_take_detail
accepted_parts detail names h = (ground arith, ground arith)

accepted_from :
    (detail : FinishedTakeDetail) (names : List CameraNameEntry)
    → length detail.video_files ≡ length names
    → any (λ file. not (contains_key file.camera_identity_id names)) detail.video_files ≡ false
    → new_named_finished_take_detail detail names
      ≡ ok (record { detail = detail; camera_names = names })
unfolding new_named_finished_take_detail
accepted_from detail names h k = ground arith

-- When the video files of a take are of different cameras and the names are a map, so that no camera
-- has two, the constructor accepts them, as they are, exactly when the cameras with a name are the
-- cameras with a file: every camera of the one kind is of the other.
pub new_named_finished_take_detail-keys :
    (detail : FinishedTakeDetail) (names : List CameraNameEntry)
    → is_distinct (cameras_of detail.video_files) ≡ true
    → is_distinct (keys names) ≡ true
    → (new_named_finished_take_detail detail names
        ≡ ok (record { detail = detail; camera_names = names }))
      ↔ ((id : CameraIdentityId)
          → member id (cameras_of detail.video_files) ≡ member id (keys names))
new_named_finished_take_detail-keys detail names d e = (
  λ accepted.
      let (same, named) = accepted_parts detail names accepted in
      let inside = unnamed-Within detail.video_files names named in
      let back =
        Within-length (cameras_of detail.video_files) (keys names) d
          (length-map _ detail.video_files ∙ same ∙ sym (length-map _ names)) inside in
      λ id.
        eq_of_both (member id (cameras_of detail.video_files)) (member id (keys names)) (inside id)
          (back id),
  λ agree.
      let inside : Within (cameras_of detail.video_files) (keys names) = λ x m. sym (agree x) ∙ m in
      let back : Within (keys names) (cameras_of detail.video_files) = λ x m. agree x ∙ m in
      accepted_from detail names
        (sym (length-map _ detail.video_files)
          ∙ eq-length (cameras_of detail.video_files) (keys names) d e inside back
          ∙ length-map _ names)
        (Within-unnamed detail.video_files names inside),
)
