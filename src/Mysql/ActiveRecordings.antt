-- ===== src/Mysql/ActiveRecordings.antt =====
-- kinugasa-mysql/src/recording.rs: rows of recordings under their primary key, and which are active.
use kinugasa_recording.Shared.{
  ◌≡◌, refl, sym, ◌∙◌, Bool, true, false, not, ◌&&◌, none, some, List, [], ◌∷◌, ◌==◌, any, find,
  select, update, arith, Bool-cases, inl, inr, any-select, any_weaken, &&-elim, eq_of_==,
  any-update,
}
use kinugasa_recording.Domain.Values.{TakeId, CameraIdentityId}
use kinugasa_recording.Mysql.Tables.{RecordingCameraRow, records}
use kinugasa_recording.Mysql.Recordings.{is_recording}

-- `PRIMARY KEY (take_id, camera_identity_id)` of the recordings.
abbrev pub has_distinct_keys : List RecordingCameraRow → Bool
has_distinct_keys [] = true
has_distinct_keys (row ∷ rows) =
    not (any (records row.camera.ongoing_take_id row.camera.camera_identity_id) rows)
    && has_distinct_keys rows

abbrev pub active : TakeId → CameraIdentityId → RecordingCameraRow → Bool
active id camera_id row = records id camera_id row && is_recording row.camera.state

-- Rows that keep the primary key, of which no recording becomes active.
abbrev pub IsLess : List RecordingCameraRow → List RecordingCameraRow → Type 0
IsLess before after =
    (has_distinct_keys before ≡ true → has_distinct_keys after ≡ true)
    × ((id : TakeId) (camera_id : CameraIdentityId)
        → any (active id camera_id) after ≡ true
        → any (active id camera_id) before ≡ true)

pub IsLess-refl : (rows : List RecordingCameraRow) → IsLess rows rows
IsLess-refl rows = ((λ h. h), (λ id camera_id h. h))

pub IsLess-trans : (a b c : List RecordingCameraRow) → IsLess a b → IsLess b c → IsLess a c
IsLess-trans a b c (keys, fewer) (keys', fewer') =
    ((λ h. keys' (keys h)), (λ id camera_id h. fewer id camera_id (fewer' id camera_id h)))

-- A write that keeps the keys and starts no recording.
module _ (p : RecordingCameraRow → Bool) (f : RecordingCameraRow → RecordingCameraRow)
    (same : (id : TakeId) (camera_id : CameraIdentityId) (row : RecordingCameraRow)
      → records id camera_id (f row) ≡ records id camera_id row)
    (same_id : (row : RecordingCameraRow)
      → (f row).camera.ongoing_take_id ≡ row.camera.ongoing_take_id)
    (same_camera : (row : RecordingCameraRow)
      → (f row).camera.camera_identity_id ≡ row.camera.camera_identity_id)
    (stopped : (row : RecordingCameraRow) → is_recording (f row).camera.state ≡ false) where
  update-keys :
      (rows : List RecordingCameraRow)
      → has_distinct_keys (update p f rows) ≡ has_distinct_keys rows
  update-keys [] = refl
  update-keys (row ∷ rows) =
      let kept =
        any-update p f (records row.camera.ongoing_take_id row.camera.camera_identity_id) rows
          (same row.camera.ongoing_take_id row.camera.camera_identity_id) in
      elim (Bool-cases (p row)) [
        | inl hit ↦ rw (hit, same_id row, same_camera row, kept, update-keys rows) refl
        | inr miss ↦ rw (miss, kept, update-keys rows) refl
      ]

  update-active :
      (rows : List RecordingCameraRow) (id : TakeId) (camera_id : CameraIdentityId)
      → any (active id camera_id) (update p f rows) ≡ true
      → any (λ row. active id camera_id row && not (p row)) rows ≡ true
  update-active [] id camera_id h = h
  update-active (row ∷ rows) id camera_id h =
      ground (arith, stopped row, update-active rows id camera_id)

  pub update-ended :
      (rows : List RecordingCameraRow) (id : TakeId) (camera_id : CameraIdentityId)
      → ((row : RecordingCameraRow) → records id camera_id row ≡ true → p row ≡ true)
      → any (active id camera_id) (update p f rows) ≡ false
  update-ended [] id camera_id h = refl
  update-ended (row ∷ rows) id camera_id h =
      ground (arith, stopped row, h row, update-ended rows id camera_id h)

  pub update-IsLess : (rows : List RecordingCameraRow) → IsLess rows (update p f rows)
  update-IsLess rows = (
    (λ h. update-keys rows ∙ h),
    (λ id camera_id h.
        any_weaken (λ row. active id camera_id row && not (p row)) (active id camera_id) rows
          (λ row e. (&&-elim _ _ e).0) (update-active rows id camera_id h)),
  )

any_none :
    (p q : RecordingCameraRow → Bool) (rows : List RecordingCameraRow)
    → ((row : RecordingCameraRow) → p row ≡ true → q row ≡ true)
    → any q rows ≡ false
    → any p rows ≡ false
any_none p q [] h e = refl
any_none p q (row ∷ rows) h e = ground (arith, h row, any_none p q rows h)

select-keys :
    (p : RecordingCameraRow → Bool) (rows : List RecordingCameraRow)
    → has_distinct_keys rows ≡ true
    → has_distinct_keys (select p rows) ≡ true
select-keys p [] h = h
select-keys p (row ∷ rows) h =
    let key : RecordingCameraRow → Bool =
      records row.camera.ongoing_take_id row.camera.camera_identity_id in
    let kept : any key (select p rows) ≡ any (λ r. key r && p r) rows = any-select key p rows in
    let fewer = any_none (λ r. key r && p r) key rows (λ r e. (&&-elim _ _ e).0) in
    elim (Bool-cases (any key rows)) [
      | inl taken ↦ absurd (ground (arith, taken, h))
      | inr fresh ↦
          let rest = select-keys p rows (ground (arith, fresh, h)) in
          elim (Bool-cases (p row)) [
            | inl hit ↦ rw (hit, kept, fewer fresh) rest
            | inr miss ↦ rw miss rest
          ]
    ]

pub select-IsLess :
    (p : RecordingCameraRow → Bool) (rows : List RecordingCameraRow) → IsLess rows (select p rows)
select-IsLess p rows = (
  select-keys p rows,
  (λ id camera_id h.
      any_weaken (λ row. active id camera_id row && p row) (active id camera_id) rows
        (λ row e. (&&-elim _ _ e).0) (sym (any-select (active id camera_id) p rows) ∙ h)),
)

-- No recording is active under a key under which none is found, or one that is not active.
pub active-missing :
    (id : TakeId) (camera_id : CameraIdentityId) (rows : List RecordingCameraRow)
    → find (records id camera_id) rows ≡ none
    → any (active id camera_id) rows ≡ false
active-missing id camera_id [] h = refl
active-missing id camera_id (row ∷ rows) h = ground (arith, active-missing id camera_id rows)

pub active-found :
    (id : TakeId) (camera_id : CameraIdentityId) (rows : List RecordingCameraRow)
    (found : RecordingCameraRow)
    → has_distinct_keys rows ≡ true
    → find (records id camera_id) rows ≡ some found
    → is_recording found.camera.state ≡ false
    → any (active id camera_id) rows ≡ false
active-found id camera_id [] found distinct h e = refl
active-found id camera_id (row ∷ rows) found distinct h e =
    elim (Bool-cases (records id camera_id row)) [
      | inl hit ↦
          let parts : ((row.camera.ongoing_take_id == id) ≡ true)
              × ((row.camera.camera_identity_id == camera_id) ≡ true) =
            &&-elim _ _ hit in
          let (a, b) = parts in
          let same : row ≡ found = ground (arith, h, hit) in
          let stopped : is_recording row.camera.state ≡ false = rw same e in
          let fresh : any (records row.camera.ongoing_take_id row.camera.camera_identity_id) rows
              ≡ false =
            ground (arith, distinct) in
          let unique : any (records id camera_id) rows ≡ false =
            rw
              (
                ← eq_of_== row.camera.ongoing_take_id id a,
                ← eq_of_== row.camera.camera_identity_id camera_id b,
              )
              fresh in
          let rest =
            any_none (active id camera_id) (records id camera_id) rows (λ r p. (&&-elim _ _ p).0)
              unique in
          ground (arith, stopped, rest)
      | inr miss ↦
          let rest =
            active-found id camera_id rows found (ground (arith, distinct))
              (ground (arith, h, miss)) e in
          ground (arith, miss, rest)
    ]
