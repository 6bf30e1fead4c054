-- ===== src/Application/Tasks.antt =====
-- kinugasa-core/src/application/task.rs: the results of concurrent tasks, in the order in which the
-- tasks end.
use kinugasa_recording.Shared.{
  ◌≡◌, refl, sym, ap, ◌∙◌, Option, none, some, List, [], ◌∷◌, ◌++◌, map, Result, ok, err,
}
use mathlib.Core.List.{append_assoc, append-nil}
use kinugasa_recording.Application.Errors.{UseCaseError}

-- What `join_next` gives: what the task returned, or that it panicked or was cancelled.
pub data Joined (A : Type 0) : Type 0 where
  returned : Result UseCaseError A → Joined A
  failed : Joined A

abbrev pub first_of : Option UseCaseError → UseCaseError → Option UseCaseError
first_of none error = some error
first_of (some first) error = some first

-- `first_error.map_or(Ok(values), Err)`
abbrev pub values_or : {A : Type 0} → Option UseCaseError → List A → Result UseCaseError (List A)
values_or none values = ok values
values_or (some error) values = err error

unfoldable pub collect_loop :
    {A : Type 0} → List (Joined A) → List A → Option UseCaseError → Result UseCaseError (List A)
collect_loop [] values first_error = values_or first_error values
collect_loop (Joined.returned (ok value) ∷ rest) values first_error =
    collect_loop rest (values ++ value ∷ []) first_error
collect_loop (Joined.returned (err error) ∷ rest) values first_error =
    collect_loop rest values (first_of first_error error)
collect_loop (Joined.failed ∷ rest) values first_error =
    collect_loop rest values (first_of first_error UseCaseError.task)

unfoldable pub collect_tasks : {A : Type 0} → List (Joined A) → Result UseCaseError (List A)
unfolding collect_loop
collect_tasks tasks = collect_loop tasks [] none

module _ {A : Type 0} where
  collect_loop-error :
      (tasks : List (Joined A)) (values : List A) (error : UseCaseError) {out : List A}
      → collect_loop tasks values (some error) ≡ ok out
      → ⊥
  unfolding collect_loop
  collect_loop-error [] values error h = cc
  collect_loop-error (Joined.returned (ok value) ∷ rest) values error {out} h =
      collect_loop-error rest (values ++ value ∷ []) error {out = out} h
  collect_loop-error (Joined.returned (err other) ∷ rest) values error {out} h =
      collect_loop-error rest values error {out = out} h
  collect_loop-error (Joined.failed ∷ rest) values error {out} h =
      collect_loop-error rest values error {out = out} h

  ok-inj : (a b : List A) → ◌≡◌ {A = Result UseCaseError (List A)} (ok a) (ok b) → a ≡ b
  ok-inj a b e = cc

  collect_loop-ok :
      (tasks : List (Joined A)) (values : List A) {out : List A}
      → collect_loop tasks values none ≡ ok out
      → (new : List A) × (out ≡ values ++ new)
        × (tasks ≡ map (λ (value : A). Joined.returned (ok value)) new)
  unfolding collect_loop
  collect_loop-ok [] values {out} h =
      ([], sym (ok-inj values out h) ∙ sym (append-nil values), refl)
  collect_loop-ok (Joined.returned (ok value) ∷ rest) values {out} h =
      let (new, e, all) = collect_loop-ok rest (values ++ value ∷ []) {out = out} h in
      (
        value ∷ new,
        e ∙ append_assoc values (value ∷ []) new,
        ap (λ (t : List (Joined A)). Joined.returned (ok value) ∷ t) all,
      )
  collect_loop-ok (Joined.returned (err error) ∷ rest) values {out} h =
      absurd (collect_loop-error rest values error {out = out} h)
  collect_loop-ok (Joined.failed ∷ rest) values {out} h =
      absurd (collect_loop-error rest values UseCaseError.task {out = out} h)

  -- The values are collected only when every task has returned one.
  pub collect_tasks-ok :
      (tasks : List (Joined A)) {values : List A}
      → collect_tasks tasks ≡ ok values
      → tasks ≡ map (λ (value : A). Joined.returned (ok value)) values
  unfolding collect_tasks
  collect_tasks-ok tasks {values} h =
      let (new, e, all) = collect_loop-ok tasks [] {out = values} h in
      all ∙ ap (map (λ (value : A). Joined.returned (ok value))) (sym e)
