-- ===== src/Media/Registry/Sessions.antt =====
-- kinugasa-media/src/service.rs: the routes of one session, and the choice of a virtual port.
use kinugasa_recording.Shared.{
  ℕ, ◌≡◌, refl, sym, ap, ◌∙◌, Bool, true, false, not, ◌&&◌, ◌||◌, Option, none, some, List, [], ◌∷◌,
  map, leb, ◌==◌, if◌then◌else◌, is_some, Result, ok, err, ok_or, arith, Bool-cases, inl, inr,
  eq_of_==,
}
use mathlib.Core.Path.{subst}
use kinugasa_recording.Application.Errors.{MediaError}
use kinugasa_recording.Media.Sets.{member}
use kinugasa_recording.Media.Ports.{
  SessionRoutes, first_virtual_port, last_virtual_port, allocate_virtual_port,
}
use kinugasa_recording.Media.Ports.Allocation.{
  IsInRange, allocate_virtual_port-free, allocate_virtual_port-next,
}
use kinugasa_recording.Media.Registry.{
  Route, SessionEntry, camera_at, routes_of, choose_port, without_port,
}

pub camera_at-without_port :
    (port q : ℕ) (routes : List Route)
    → camera_at q (without_port port routes) ≡ (if q == port then none else camera_at q routes)
camera_at-without_port port q [] = ground arith
camera_at-without_port port q (route ∷ rest) = elim (Bool-cases (route.port == port)) [
  | inl gone ↦
      let e : route.port ≡ port = eq_of_== route.port port gone in
      ground (arith, gone, e, camera_at-without_port port q rest)
  | inr stays ↦ elim (Bool-cases (route.port == q)) [
    | inl hit ↦ let e : route.port ≡ q = eq_of_== route.port q hit in ground (arith, stays, hit, e)
    | inr miss ↦ ground (arith, stays, miss, camera_at-without_port port q rest)
  ]
]

member-camera_at :
    (port : ℕ) (routes : List Route)
    → member port (map (λ (route : Route). route.port) routes) ≡ is_some (camera_at port routes)
member-camera_at port [] = refl
member-camera_at port (route ∷ rest) = ground (arith, member-camera_at port rest)

is_some-false : (o : Option ℕ) → is_some o ≡ false → o ≡ none
is_some-false none h = refl
is_some-false (some x) h = cc

-- What choosing a port keeps of the session: all but the next port, which stays in the range.
pub record IsChosen (before : SessionEntry) (port : Result MediaError ℕ) (after : SessionEntry)
    : Type 0 where
  pub name : after.session_name ≡ before.session_name
  pub routes : after.by_virtual_port ≡ before.by_virtual_port
  pub next : IsInRange after.next_virtual_port
  pub free : (p : ℕ) → port ≡ ok p → IsInRange p × (camera_at p before.by_virtual_port ≡ none)

ok-inj : {p q : ℕ} → ◌≡◌ {A = Result MediaError ℕ} (ok p) (ok q) → p ≡ q
ok-inj e = cc

choose_some-IsChosen :
    (test : Bool) (entry : SessionEntry) (port : ℕ)
    → IsInRange entry.next_virtual_port
    → (test ≡ false → IsInRange port × (camera_at port entry.by_virtual_port ≡ none))
    → IsChosen entry
        (if◌then◌else◌ {A = Result MediaError ℕ × SessionEntry} test
          (err MediaError.conflict, entry)
          (ok port, entry)).0
        (if◌then◌else◌ {A = Result MediaError ℕ × SessionEntry} test
          (err MediaError.conflict, entry)
          (ok port, entry)).1
choose_some-IsChosen true entry port range h = record {
  name = refl;
  routes = refl;
  next = range;
  free = λ p e. cc;
}
choose_some-IsChosen false entry port range h = record {
  name = refl;
  routes = refl;
  next = range;
  free = λ p e.
      subst (λ (t : ℕ). IsInRange t × (camera_at t entry.by_virtual_port ≡ none)) (ok-inj e)
        (h refl);
}

some-inj : {p q : ℕ} → ◌≡◌ {A = Option ℕ} (some p) (some q) → p ≡ q
some-inj e = cc

choose_none-IsChosen :
    (entry : SessionEntry) (found : Option ℕ) (next : ℕ)
    → IsInRange next
    → ((p : ℕ) → found ≡ some p → IsInRange p × (camera_at p entry.by_virtual_port ≡ none))
    → IsChosen entry
        (ok_or found MediaError.unavailable)
        (record entry { next_virtual_port = next })
choose_none-IsChosen entry none next range h = record {
  name = refl;
  routes = refl;
  next = range;
  free = λ p e. cc;
}
choose_none-IsChosen entry (some port) next range h = record {
  name = refl;
  routes = refl;
  next = range;
  free = λ p e. h p (ap some (ok-inj e));
}

pub choose_port-IsChosen :
    (wanted : Option ℕ) (entry : SessionEntry)
    → IsInRange entry.next_virtual_port
    → IsChosen entry (choose_port wanted entry).0 (choose_port wanted entry).1
unfolding choose_port
choose_port-IsChosen (some port) entry range =
    choose_some-IsChosen
      (not (leb first_virtual_port port && leb port last_virtual_port)
        || is_some (camera_at port entry.by_virtual_port))
      entry port range (λ clear. ((ground arith, ground arith), is_some-false _ (ground arith)))
choose_port-IsChosen none entry range =
    choose_none-IsChosen entry (allocate_virtual_port (routes_of entry)).0
      (allocate_virtual_port (routes_of entry)).1.next_virtual_port
      (allocate_virtual_port-next (routes_of entry) range)
      (elim (allocate_virtual_port-free (routes_of entry) range) [
        | inl (port, after, found, in_range, free, _, next) ↦ λ p e.
            let same : port ≡ p =
              some-inj (sym (ap (λ (t : Option ℕ × SessionRoutes). t.0) found) ∙ e) in
            subst (λ (t : ℕ). IsInRange t × (camera_at t entry.by_virtual_port ≡ none)) same
              (in_range, is_some-false _ (sym (member-camera_at port entry.by_virtual_port) ∙ free))
        | inr (exhausted, all_taken) ↦ λ p e. cc
      ])
