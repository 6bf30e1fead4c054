-- ===== src/Application/Takes/Finishing.antt =====
-- kinugasa-core/src/application/take.rs: what finishing a take does to the database.
use kinugasa_recording.Shared.{
  ◌≡◌, refl, sym, ap, ◌∙◌, Bool, true, false, not, ◌&&◌, none, some, Option, List, [], ◌∷◌, Text,
  ◌==◌, ==-refl, eq_of_==, any, find, select, Result, ok, err, >>=-eq-ok, map_err-eq-ok,
  ok_or-eq-ok, arith, Bool-cases, inl, inr, ok_or, text_eq, find-some-any, find_holds, &&-elim,
}
use mathlib.Core.Path.{subst}
use kinugasa_recording.Domain.Values.{CameraIdentityId, TakeId, Timestamp, new_session_name}
use kinugasa_recording.Domain.Recording.{FinalizedRecording}
use kinugasa_recording.Domain.Take.{RecordingCamera, OngoingTake, FinishedTake}
use kinugasa_recording.Mysql.Tables.{RepositoryError, Db, TakeRow, Phase, has_id, is_ongoing}
use kinugasa_recording.Mysql.Takes.{get_ongoing, load_ongoing, load_found}
use kinugasa_recording.Application.Errors.{
  UseCaseError, in_repository, validated, use_case_conflict,
}
use kinugasa_recording.Application.RecordingState.{finish_ongoing_take}
use kinugasa_recording.Application.RecordingState.Traces.{Step, Reach}
use kinugasa_recording.Application.Takes.{is_recorded, finish_first, finish_rest, finish_take}
use kinugasa_recording.Application.Takes.Tasks.{finish_tasks-Reach}

-- `PRIMARY KEY (id)` of the takes.
abbrev pub has_distinct_ids : List TakeRow → Bool
has_distinct_ids [] = true
has_distinct_ids (row ∷ rows) = not (any (has_id row.id) rows) && has_distinct_ids rows

find-has_id :
    (p : TakeRow → Bool) (rows : List TakeRow) (row : TakeRow)
    → has_distinct_ids rows ≡ true
    → find p rows ≡ some row
    → find (has_id row.id) rows ≡ some row
find-has_id p [] row d e = cc
find-has_id p (first ∷ rest) row d e = elim (Bool-cases (p first)) [
  | inl hit ↦
      let same : first ≡ row = ground (arith, hit, e) in
      let found : find (has_id first.id) (first ∷ rest) ≡ some first =
        ground (arith, ==-refl first.id) in
      ap (λ (t : TakeRow). find (has_id t.id) (first ∷ rest)) (sym same) ∙ found ∙ ap some same
  | inr miss ↦
      let later = find-has_id p rest row (ground arith) (ground (arith, miss, e)) in
      let there = find-some-any (has_id row.id) rest row later in
      elim (Bool-cases (first.id == row.id)) [
        | inl clash ↦
            let same : first.id ≡ row.id = eq_of_== first.id row.id clash in
            let known : any (has_id first.id) rest ≡ true =
              ap (λ (t : TakeId). any (has_id t) rest) same ∙ there in
            ground (arith, known)
        | inr other ↦ ground (arith, other, later)
      ]
]

some-inj :
    (a b : OngoingTake)
    → ◌≡◌ {A = Result RepositoryError (Option OngoingTake)} (ok (some a)) (ok (some b))
    → a ≡ b
some-inj a b e = cc

ongoing_phase : (phase : Phase) → is_ongoing phase ≡ true → phase ≡ Phase.ongoing
ongoing_phase Phase.ongoing h = refl
ongoing_phase (Phase.finished state at) h = cc

last-inj :
    (a b : OngoingTake × FinishedTake × Db)
    → ◌≡◌ {A = Result UseCaseError (OngoingTake × FinishedTake × Db)} (ok a) (ok b)
    → a.2 ≡ b.2
last-inj a b e = let same : a ≡ b = cc in ap (λ (t : OngoingTake × FinishedTake × Db). t.2) same

load_found-some :
    (known : Bool) (found : Option TakeRow) (db : Db) {ongoing : OngoingTake}
    → load_found known found db ≡ ok (some ongoing)
    → (row : TakeRow) × (found ≡ some row) × (load_ongoing row db ≡ ok ongoing)
unfolding load_found
load_found-some true none db e = cc
load_found-some false none db e = cc
load_found-some known (some row) db {ongoing} e =
    let (take, loaded, last) = >>=-eq-ok (load_ongoing row db) _ e in
    (row, refl, loaded ∙ ap ok (some-inj take ongoing last))

-- The first unit of work of `finish_take` is a step, as it reads an ongoing row.
finish_first-Reach :
    (start db : Db) (now : Timestamp) (session : Text) {ongoing : OngoingTake}
    {finished : FinishedTake} {after : Db}
    → has_distinct_ids db.takes ≡ true
    → finish_first now session db ≡ ok (ongoing, finished, after)
    → Reach start db
    → Reach start after
unfolding finish_first get_ongoing
finish_first-Reach start db now session {ongoing} {finished} {after} distinct e r =
    let (session_name, _, e1) = >>=-eq-ok (validated (new_session_name session)) _ e in
    let (found, read, e2) = >>=-eq-ok (in_repository (get_ongoing session_name db)) _ e1 in
    let (take, there, e3) = >>=-eq-ok (ok_or found use_case_conflict) _ e2 in
    let ((made, last), done, e4) = >>=-eq-ok (finish_ongoing_take take now db) _ e3 in
    let is_found = ok_or-eq-ok found use_case_conflict there in
    let fetched = map_err-eq-ok UseCaseError.repository (get_ongoing session_name db) read in
    let (row, at, loaded) =
      load_found-some (any (λ s. text_eq s.name session_name) db.sessions) _ db {ongoing = take}
        (fetched ∙ ap ok is_found) in
    let is_row = find-has_id _ db.takes row distinct at in
    let running = (&&-elim _ _ (find_holds _ db.takes row at)).1 in
    let same : last ≡ after = last-inj (take, made, last) (ongoing, finished, after) e4 in
    subst (Reach start) same (
      Reach.next r
        (Step.finished_take row take now is_row (ongoing_phase row.phase running) loaded done))

finish_rest-Reach :
    (start db : Db) (now : Timestamp) (session : Text)
    (answer : CameraIdentityId → Result Text FinalizedRecording)
    (order : List RecordingCamera → List RecordingCamera)
    (first : Result UseCaseError (OngoingTake × FinishedTake × Db))
    → has_distinct_ids db.takes ≡ true
    → finish_first now session db ≡ first
    → Reach start db
    → Reach start (finish_rest answer order first db).1
unfolding finish_rest
finish_rest-Reach start db now session answer order (err error) distinct e r = r
finish_rest-Reach start db now session answer order (ok (ongoing, finished, after)) distinct e r =
    finish_tasks-Reach start ongoing.id answer (order (select is_recorded ongoing.cameras)) after (
      finish_first-Reach start db now session {ongoing = ongoing} {finished = finished}
        {after = after} distinct e r)

pub finish_take-Reach :
    (start db : Db) (now : Timestamp) (answer : CameraIdentityId → Result Text FinalizedRecording)
    (order : List RecordingCamera → List RecordingCamera) (session : Text)
    → has_distinct_ids db.takes ≡ true
    → Reach start db
    → Reach start (finish_take now answer order session db).1
unfolding finish_take
finish_take-Reach start db now answer order session distinct r =
    finish_rest-Reach start db now session answer order (finish_first now session db) distinct refl
      r
