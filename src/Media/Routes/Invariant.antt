-- ===== src/Media/Routes/Invariant.antt =====
-- The invariant of the routes, and the steps of an observation.
use kinugasa_recording.Shared.{
  ℕ, ◌≡◌, refl, sym, ap, ◌∙◌, Bool, true, false, ◌&&◌, ◌||◌, none, some, ◌==◌, ==-refl, eq_of_==,
  any, arith, Bool-cases, inl, inr, ◌⊎◌, any_weaken, &&-elim,
}
use kinugasa_recording.Media.Sets.{member, put}
use kinugasa_recording.Media.Routes.{FlowRoutes, default_routes, sees, seen, sight, quarantine}

-- A flow has been observed on the port.
abbrev pub in_use : ℕ → FlowRoutes → Bool
in_use port r = any (λ s. s.virtual_port == port) r.ports_by_flow

-- The two maps are inverse to each other; a routed pair has been observed; a pair observed on a port
-- that is not in quarantine is routed; a port in quarantine is in use.
pub record IsRouted (r : FlowRoutes) : Type 0 where
  pub there : (flow port : ℕ) → r.port_by_flow flow ≡ some port → r.flow_by_port port ≡ some flow
  pub back : (flow port : ℕ) → r.flow_by_port port ≡ some flow → r.port_by_flow flow ≡ some port
  pub observed : (flow port : ℕ) → r.port_by_flow flow ≡ some port → seen flow port r ≡ true
  pub routed :
      (flow port : ℕ)
      → seen flow port r ≡ true
      → member port r.errored_ports ≡ false
      → r.port_by_flow flow ≡ some port
  pub held : (port : ℕ) → member port r.errored_ports ≡ true → in_use port r ≡ true

pub default_routes-IsRouted : IsRouted default_routes
default_routes-IsRouted = record {
  there = λ flow port h. cc;
  back = λ flow port h. cc;
  observed = λ flow port h. cc;
  routed = λ flow port h e. cc;
  held = λ port h. cc;
}

pub seen-in_use : (flow port : ℕ) (r : FlowRoutes) → seen flow port r ≡ true → in_use port r ≡ true
seen-in_use flow port r h =
    any_weaken (sees flow port) (λ s. s.virtual_port == port) r.ports_by_flow
      (λ s e. (&&-elim _ _ e).1) h

-- What an observation leaves of the pairs.
pub seen-sight :
    (flow port f p : ℕ) (r : FlowRoutes)
    → seen f p (sight flow port r) ≡ ((flow == f && port == p) || seen f p r)
unfolding sight
seen-sight flow port f p r = elim (Bool-cases (seen flow port r)) [
  | inr fresh ↦ rw fresh refl
  | inl known ↦ elim (Bool-cases (flow == f && port == p)) [
    | inl hit ↦
        let (a, b) = &&-elim _ _ hit in
        let here : seen f p r ≡ true = rw (← eq_of_== flow f a, ← eq_of_== port p b) known in
        rw (known, here, hit) refl
    | inr miss ↦ rw (known, miss) refl
  ]
]

pub in_use-sight :
    (flow port p : ℕ) (r : FlowRoutes) → in_use p (sight flow port r) ≡ (port == p || in_use p r)
unfolding sight
in_use-sight flow port p r = elim (Bool-cases (seen flow port r)) [
  | inr fresh ↦ rw fresh refl
  | inl known ↦ elim (Bool-cases (port == p)) [
    | inl hit ↦
        let here : in_use p r ≡ true = rw (← eq_of_== port p hit) (seen-in_use flow port r known) in
        rw (known, here, hit) refl
    | inr miss ↦ rw (known, miss) refl
  ]
]

-- Only the pair that is observed is new, and it is routed or its port is in quarantine.
pub sight-IsRouted :
    (flow port : ℕ) (r r' : FlowRoutes)
    → IsRouted r
    → r'.ports_by_flow ≡ (sight flow port r).ports_by_flow
    → r'.port_by_flow ≡ r.port_by_flow
    → r'.flow_by_port ≡ r.flow_by_port
    → ((p : ℕ) → member p r.errored_ports ≡ true → member p r'.errored_ports ≡ true)
    → ((p : ℕ) → member p r'.errored_ports ≡ true → in_use p r' ≡ true)
    → (member port r'.errored_ports ≡ true) ⊎ (r.port_by_flow flow ≡ some port)
    → IsRouted r'
sight-IsRouted flow port r r' inv pairs there back more held new =
    let seen' : (f p : ℕ) → seen f p r' ≡ ((flow == f && port == p) || seen f p r) =
      λ f p. ap (any (sees f p)) pairs ∙ seen-sight flow port f p r in
    record {
      there = λ f p h.
          ground (arith, inv.there f p (ap (λ m. m f) (sym there) ∙ h), ap (λ m. m p) back);
      back =
          λ f p h. ground (arith, inv.back f p (ap (λ m. m p) (sym back) ∙ h), ap (λ m. m f) there);
      observed =
          λ f p h. ground (arith, inv.observed f p (ap (λ m. m f) (sym there) ∙ h), seen' f p);
      routed = λ f p h e. elim (Bool-cases (flow == f && port == p)) [
        | inl hit ↦
            let (a, b) = &&-elim _ _ hit in
            let same_flow : flow ≡ f = eq_of_== flow f a in
            let same_port : port ≡ p = eq_of_== port p b in
            elim new [
              | inl errored ↦ absurd (ground (arith, errored, e, same_port))
              | inr known ↦ ap (λ m. m f) there ∙ rw (← same_flow, ← same_port) known
            ]
        | inr miss ↦
            let before : seen f p r ≡ true = ground (arith, h, seen' f p, miss) in
            ap (λ m. m f) there ∙ inv.routed f p before (ground (arith, more p, e))
      ];
      held = held;
    }

-- A new route, where neither the flow nor the port had one.
pub accept-IsRouted :
    (flow port : ℕ) (r : FlowRoutes)
    → IsRouted r
    → r.port_by_flow flow ≡ none
    → r.flow_by_port port ≡ none
    → IsRouted (record (sight flow port r) {
      port_by_flow = put flow port r.port_by_flow;
      flow_by_port = put port flow r.flow_by_port;
    })
unfolding sight
accept-IsRouted flow port r inv no_port no_flow =
    let errors : (sight flow port r).errored_ports ≡ r.errored_ports = ground arith in
    record {
      there = λ f p h. ground (arith, inv.there f p, eq_of_== f flow, no_flow);
      back = λ f p h. ground (arith, inv.back f p, eq_of_== p port, no_port);
      observed = λ f p h.
          seen-sight flow port f p r
          ∙ ground (arith, inv.observed f p, eq_of_== f flow, ==-refl flow, ==-refl port);
      routed = λ f p h e. ground (
        arith,
        inv.routed f p,
        sym (seen-sight flow port f p r) ∙ h,
        ap (member p) errors,
        e,
        eq_of_== f flow,
        eq_of_== flow f,
        eq_of_== port p,
        ==-refl flow,
        no_port,
      );
      held =
          λ p h. in_use-sight flow port p r ∙ ground (arith, inv.held p, ap (member p) errors, h);
    }

pub sight_maps :
    (flow port : ℕ) (r : FlowRoutes)
    → ((sight flow port r).port_by_flow ≡ r.port_by_flow)
      × ((sight flow port r).flow_by_port ≡ r.flow_by_port)
      × ((sight flow port r).errored_ports ≡ r.errored_ports)
unfolding sight
sight_maps flow port r = elim (Bool-cases (seen flow port r)) [
  | inl e ↦ rw e (refl, refl, refl)
  | inr e ↦ rw e (refl, refl, refl)
]

maps-quarantine :
    (flow port : ℕ) (r : FlowRoutes)
    → ((quarantine flow port (sight flow port r)).1.port_by_flow ≡ r.port_by_flow)
      × ((quarantine flow port (sight flow port r)).1.flow_by_port ≡ r.flow_by_port)
unfolding quarantine
maps-quarantine flow port r =
    let (a, b, _) = sight_maps flow port r in
    elim (Bool-cases (member port (sight flow port r).errored_ports)) [
      | inl e ↦ rw e (a, b)
      | inr e ↦ rw e (a, b)
    ]

errored-quarantine :
    (flow port p : ℕ) (r : FlowRoutes)
    → member p (quarantine flow port (sight flow port r)).1.errored_ports
      ≡ (port == p || member p r.errored_ports)
unfolding quarantine
errored-quarantine flow port p r =
    let (_, _, same) = sight_maps flow port r in
    elim (Bool-cases (member port (sight flow port r).errored_ports)) [
      | inl e ↦
          rw (e, same)
            (elim (Bool-cases (port == p)) [
              | inl hit ↦
                  let here : member p r.errored_ports ≡ true =
                    ap (λ x. member x r.errored_ports) (sym (eq_of_== port p hit))
                    ∙ sym (ap (member port) same)
                    ∙ e in
                  rw (hit, here) refl
              | inr miss ↦ rw miss refl
            ])
      | inr e ↦ rw (e, same) refl
    ]

-- A flow and a port in quarantine.
pub quarantine-IsRouted :
    (flow port : ℕ) (r : FlowRoutes)
    → IsRouted r
    → IsRouted (quarantine flow port (sight flow port r)).1
unfolding quarantine
quarantine-IsRouted flow port r inv =
    let r' : FlowRoutes = (quarantine flow port (sight flow port r)).1 in
    let pairs : r'.ports_by_flow ≡ (sight flow port r).ports_by_flow = ground arith in
    let errors : (p : ℕ) → member p r'.errored_ports ≡ (port == p || member p r.errored_ports) =
      λ p. errored-quarantine flow port p r in
    sight-IsRouted flow port r r' inv pairs (maps-quarantine flow port r).0
      (maps-quarantine flow port r).1 (λ p h. ground (arith, errors p))
      (λ p h.
        ap (any (λ s. s.virtual_port == p)) pairs
        ∙ in_use-sight flow port p r
        ∙ ground (arith, errors p, inv.held p))
      (inl (ground (arith, errors port, ==-refl port)))
