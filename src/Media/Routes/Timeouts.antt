-- ===== src/Media/Routes/Timeouts.antt =====
-- The invariant of the routes through a timeout.
use kinugasa_recording.Shared.{
  ℕ, ◌≡◌, refl, sym, ap, ◌∙◌, Bool, true, false, not, ◌&&◌, none, some, List, [], ◌∷◌, map, ◌==◌,
  ==-refl, eq_of_==, if◌then◌else◌, any, select, arith, Bool-cases, Option-cases, inl, inr,
  any-select, any_weaken, any-select-false, &&-elim,
}
use kinugasa_recording.Media.Sets.{member, member-discard_all}
use kinugasa_recording.Media.Routes.{
  Sighting, FlowRoutes, sees, seen, release, disconnected, timeout,
}
use kinugasa_recording.Media.Routes.Invariant.{IsRouted}

-- The entry that a timeout removes is that of the flow, and no other.
released :
    (flow q p : ℕ) (r : FlowRoutes)
    → IsRouted r
    → r.port_by_flow flow ≡ some q
    → release (some q) flow r.flow_by_port p ≡ (if p == q then none else r.flow_by_port p)
unfolding release
released flow q p r inv e = ground (arith, inv.there flow q e, ==-refl flow)

release-there :
    (flow f p : ℕ) (r : FlowRoutes)
    → IsRouted r
    → r.flow_by_port p ≡ some f
    → (f == flow) ≡ false
    → release (r.port_by_flow flow) flow r.flow_by_port p ≡ some f
unfolding release
release-there flow f p r inv h ne = elim (Option-cases (r.port_by_flow flow)) [
  | inl e ↦ rw e h
  | inr (q, e) ↦ rw e (
      released flow q p r inv e ∙ elim (Bool-cases (p == q)) [
        | inl hit ↦
            let same : some f ≡ some flow =
              sym h ∙ ap r.flow_by_port (eq_of_== p q hit) ∙ inv.there flow q e in
            absurd (ground (arith, same, ne, ==-refl flow))
        | inr miss ↦ rw miss h
      ])
]

release-back :
    (flow f p : ℕ) (r : FlowRoutes)
    → IsRouted r
    → release (r.port_by_flow flow) flow r.flow_by_port p ≡ some f
    → (r.flow_by_port p ≡ some f) × ((f == flow) ≡ false)
unfolding release
release-back flow f p r inv h = elim (Option-cases (r.port_by_flow flow)) [
  | inl e ↦
      let here : r.flow_by_port p ≡ some f = rw e at h in
      (
        here,
        elim (Bool-cases (f == flow)) [
          | inr miss ↦ miss
          | inl hit ↦
              let same : some p ≡ none =
                sym (inv.back f p here) ∙ ap r.port_by_flow (eq_of_== f flow hit) ∙ e in
              absurd (ground (arith, same))
        ],
      )
  | inr (q, e) ↦
      let now : (if p == q then none else r.flow_by_port p) ≡ some f =
        sym (released flow q p r inv e) ∙ (rw e at h) in
      let here : r.flow_by_port p ≡ some f = ground (arith, now) in
      (
        here,
        elim (Bool-cases (f == flow)) [
          | inr miss ↦ miss
          | inl hit ↦
              let same : some p ≡ some q =
                sym (inv.back f p here) ∙ ap r.port_by_flow (eq_of_== f flow hit) ∙ e in
              absurd (ground (arith, same, now, ==-refl q))
        ],
      )
]

member-select :
    (q : ℕ → Bool) (x : ℕ) (xs : List ℕ) → q x ≡ true → member x (select q xs) ≡ member x xs
member-select q x [] h = refl
member-select q x (y ∷ xs) h = elim (Bool-cases (y == x)) [
  | inl hit ↦
      let held : q y ≡ true = ap q (eq_of_== y x hit) ∙ h in rw (held, hit) (ground (arith, hit))
  | inr miss ↦ ground (arith, miss, member-select q x xs h)
]

seen-others :
    (flow f p : ℕ) (pairs : List Sighting)
    → any (sees f p) (select (λ s. not (s.flow_id == flow)) pairs)
      ≡ (not (f == flow) && any (sees f p) pairs)
seen-others flow f p [] = ground arith
seen-others flow f p (s ∷ pairs) = elim (Bool-cases (s.flow_id == f)) [
  | inl hit ↦
      let same : (s.flow_id == flow) ≡ (f == flow) =
        ap (λ x. x == flow) (eq_of_== s.flow_id f hit) in
      ground (arith, hit, same, seen-others flow f p pairs)
  | inr miss ↦ ground (arith, miss, seen-others flow f p pairs)
]

-- Whether another flow uses the port.
abbrev used_by_other : ℕ → ℕ → List Sighting → Bool
used_by_other flow p pairs = any (λ s. s.virtual_port == p && not (s.flow_id == flow)) pairs

other-in_use :
    (flow p : ℕ) (pairs : List Sighting)
    → any (λ s. s.virtual_port == p) (select (λ s. not (s.flow_id == flow)) pairs)
      ≡ used_by_other flow p pairs
other-in_use flow p pairs =
    any-select (λ s. s.virtual_port == p) (λ s. not (s.flow_id == flow)) pairs

member-own :
    (flow p : ℕ) (pairs : List Sighting)
    → any (λ s. s.virtual_port == p) pairs ≡ true
    → used_by_other flow p pairs ≡ false
    → member p (map (λ s. s.virtual_port) (select (λ s. s.flow_id == flow) pairs)) ≡ true
member-own flow p [] h e = h
member-own flow p (s ∷ pairs) h e = ground (arith, member-own flow p pairs)

-- A port is disconnected by a timeout exactly when it was in use, by the flow alone.
disconnected-alone :
    (flow p : ℕ) (pairs : List Sighting)
    → any (λ s. s.virtual_port == p) pairs ≡ true
    → used_by_other flow p pairs ≡ false
    → member p (disconnected flow pairs) ≡ true
disconnected-alone flow p pairs h e =
    member-select (λ q. not (used_by_other flow q pairs)) p
      (map (λ s. s.virtual_port) (select (λ s. s.flow_id == flow) pairs)) (rw e refl)
    ∙ member-own flow p pairs h e

disconnected-shared :
    (flow p : ℕ) (pairs : List Sighting)
    → used_by_other flow p pairs ≡ true
    → member p (disconnected flow pairs) ≡ false
disconnected-shared flow p pairs h =
    any-select-false (λ y. y == p) (λ q. not (used_by_other flow q pairs))
      (map (λ s. s.virtual_port) (select (λ s. s.flow_id == flow) pairs))
      (λ y alone. elim (Bool-cases (y == p)) [
        | inr miss ↦ miss
        | inl hit ↦
            let same : used_by_other flow y pairs ≡ true =
              ap (λ x. used_by_other flow x pairs) (eq_of_== y p hit) ∙ h in
            absurd (ground (arith, same, alone))
      ])

pub timeout-IsRouted : (flow : ℕ) (r : FlowRoutes) → IsRouted r → IsRouted (timeout flow r).1
unfolding timeout
timeout-IsRouted flow r inv = record {
  there = λ f p h.
      let ne : (f == flow) ≡ false = ground (arith, h) in
      release-there flow f p r inv (inv.there f p (ground (arith, h, ne))) ne;
  back = λ f p h.
      let (here, ne) = release-back flow f p r inv h in ground (arith, ne, inv.back f p here);
  observed = λ f p h.
      let ne : (f == flow) ≡ false = ground (arith, h) in
      seen-others flow f p r.ports_by_flow
      ∙ ground (arith, ne, inv.observed f p (ground (arith, h, ne)));
  routed = λ f p h e.
      let (ne, before) =
        &&-elim (not (f == flow)) (seen f p r) (sym (seen-others flow f p r.ports_by_flow) ∙ h) in
      let shared : used_by_other flow p r.ports_by_flow ≡ true =
        sym (other-in_use flow p r.ports_by_flow)
        ∙ any_weaken (sees f p) (λ s. s.virtual_port == p) _
            (λ s e. (&&-elim (s.flow_id == f) (s.virtual_port == p) e).1) h in
      let free : member p r.errored_ports ≡ false = ground (
        arith,
        e,
        disconnected-shared flow p r.ports_by_flow shared,
        member-discard_all p (disconnected flow r.ports_by_flow) r.errored_ports,
      ) in
      ground (arith, ne, inv.routed f p before free);
  held = λ p h.
      other-in_use flow p r.ports_by_flow
      ∙ elim (Bool-cases (used_by_other flow p r.ports_by_flow)) [
        | inl e ↦ e
        | inr e ↦
            let parts : not (member p (disconnected flow r.ports_by_flow))
                  && member p r.errored_ports
                ≡ true =
              sym (member-discard_all p (disconnected flow r.ports_by_flow) r.errored_ports) ∙ h in
            let (kept, errored) =
              &&-elim (not (member p (disconnected flow r.ports_by_flow)))
                (member p r.errored_ports) parts in
            absurd (
              ground
                (arith, kept, disconnected-alone flow p r.ports_by_flow (inv.held p errored) e))
      ];
}
