-- ===== src/Media/Routes/Observations.antt =====
-- The invariant of the routes through an observation.
use kinugasa_recording.Shared.{
  ℕ, ◌≡◌, refl, sym, ap, ◌∙◌, Bool, true, false, ◌&&◌, ◌||◌, Option, none, some, List, [], ◌∷◌,
  ◌==◌, ==-refl, eq_of_==, any, arith, Bool-cases, inl, inr,
}
use kinugasa_recording.Media.Sets.{member, extend, member-extend}
use kinugasa_recording.Media.Routes.{
  Sighting, FlowRoutes, sight, option_list, ports_of, collide, route, observe,
}
use kinugasa_recording.Media.Routes.Invariant.{
  in_use, IsRouted, seen-in_use, in_use-sight, sight_maps, sight-IsRouted, accept-IsRouted,
  quarantine-IsRouted,
}

ports_of-in_use :
    (flows : List ℕ) (p : ℕ) (pairs : List Sighting)
    → member p (ports_of flows pairs) ≡ true
    → any (λ s. s.virtual_port == p) pairs ≡ true
ports_of-in_use flows p [] h = cc
ports_of-in_use flows p (s ∷ pairs) h = ground (arith, ports_of-in_use flows p pairs)

held_in :
    (flow port p : ℕ) (existing_port : Option ℕ) (r : FlowRoutes) {b : Bool}
    → IsRouted r
    → r.port_by_flow flow ≡ existing_port
    → (b ≡ true → in_use p (sight flow port r) ≡ true)
    → ((b || (member p (option_list existing_port) || (port == p || false)))
        || member p r.errored_ports)
      ≡ true
    → in_use p (sight flow port r) ≡ true
held_in flow port p none r {b} inv known listed h =
    ground (arith, h, listed, in_use-sight flow port p r, inv.held p)
held_in flow port p (some q) r {b} inv known listed h =
    let there : in_use q r ≡ true = seen-in_use flow q r (inv.observed flow q known) in
    ground (
      arith,
      h,
      listed,
      in_use-sight flow port p r,
      inv.held p,
      there,
      (λ (e : (q == p) ≡ true). ap (λ x. in_use x r) (eq_of_== q p e)),
    )

-- A flow and a port that are routed elsewhere.
collide-IsRouted :
    (flow port : ℕ) (existing_port existing_flow : Option ℕ) (r : FlowRoutes)
    → IsRouted r
    → r.port_by_flow flow ≡ existing_port
    → IsRouted (collide flow port existing_port existing_flow (sight flow port r)).1
unfolding collide
collide-IsRouted flow port existing_port existing_flow r inv known =
    let now : FlowRoutes = sight flow port r in
    let (there, back, same) = sight_maps flow port r in
    let flows : List ℕ = extend (option_list existing_flow) (flow ∷ []) in
    let rest : List ℕ = extend (option_list existing_port) (port ∷ []) in
    let errors : (p : ℕ)
        → member p (extend (extend (ports_of flows now.ports_by_flow) rest) now.errored_ports) ≡ (
            (member p (ports_of flows now.ports_by_flow) || member p rest)
            || member p r.errored_ports) =
      λ p.
        member-extend p (extend (ports_of flows now.ports_by_flow) rest) now.errored_ports
        ∙ ground
            (arith, member-extend p (ports_of flows now.ports_by_flow) rest, ap (member p) same) in
    let own : (p : ℕ)
        → member p rest ≡ (member p (option_list existing_port) || (port == p || false)) =
      λ p. member-extend p (option_list existing_port) (port ∷ []) in
    sight-IsRouted flow port r (collide flow port existing_port existing_flow now).1 inv refl there
      back (λ p h. errors p ∙ ground (arith, h))
      (λ p h.
        held_in flow port p existing_port r inv known (ports_of-in_use flows p now.ports_by_flow)
          (ground (arith, sym (errors p) ∙ h, own p)))
      (inl (errors port ∙ ground (arith, own port, ==-refl port)))

route-IsRouted :
    (flow port : ℕ) (existing_port existing_flow : Option ℕ) (r : FlowRoutes)
    → IsRouted r
    → r.port_by_flow flow ≡ existing_port
    → r.flow_by_port port ≡ existing_flow
    → IsRouted (route flow port existing_port existing_flow (sight flow port r)).1
unfolding route
route-IsRouted flow port none none r inv a b =
    let (there, back, same) = sight_maps flow port r in
    rw (there, back) (accept-IsRouted flow port r inv a b)
route-IsRouted flow port none (some g) r inv a b = collide-IsRouted flow port none (some g) r inv a
route-IsRouted flow port (some p) none r inv a b = collide-IsRouted flow port (some p) none r inv a
route-IsRouted flow port (some p) (some g) r inv a b =
    let (there, back, same) = sight_maps flow port r in
    elim (Bool-cases (p == port && g == flow)) [
      | inl hit ↦ rw hit (
          sight-IsRouted flow port r (sight flow port r) inv refl there back
            (λ q h. ap (member q) same ∙ h)
            (λ q h. in_use-sight flow port q r ∙ ground (arith, inv.held q, ap (member q) same, h))
            (inr (a ∙ ground (arith, hit, eq_of_== p port))))
      | inr miss ↦ rw miss (collide-IsRouted flow port (some p) (some g) r inv a)
    ]

pub observe-IsRouted :
    (flow port : ℕ) (r : FlowRoutes) → IsRouted r → IsRouted (observe flow port r).1
unfolding observe
observe-IsRouted flow port r inv =
    let now : FlowRoutes = sight flow port r in
    let (there, back, same) = sight_maps flow port r in
    elim (Bool-cases (member flow now.collided_flows || member port now.errored_ports)) [
      | inl e ↦ rw e (quarantine-IsRouted flow port r inv)
      | inr e ↦ rw e (
          route-IsRouted flow port (now.port_by_flow flow) (now.flow_by_port port) r inv
            (ap (λ m. m flow) (sym there)) (ap (λ m. m port) (sym back)))
    ]
