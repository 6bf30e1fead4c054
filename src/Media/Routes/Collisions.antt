-- ===== src/Media/Routes/Collisions.antt =====
-- kinugasa-media/src/rist.rs: the routes after observations and timeouts.
use kinugasa_recording.Shared.{
  ℕ, ◌≡◌, ◌≢◌, refl, ap, ◌∙◌, Bool, true, false, not, ◌&&◌, ◌||◌, ◌==◌, List, [], ◌∷◌, Option, none,
  some, arith, any, select, Bool-cases, inl, inr,
}
use kinugasa_recording.Media.Sets.{member}
use kinugasa_recording.Media.Routes.{
  Sighting, FlowRoutes, default_routes, sees, seen, sight, route, quarantine, collide, observe,
  timeout, statistics_port,
}
use kinugasa_recording.Media.Routes.Invariant.{
  in_use, seen-sight, IsRouted, default_routes-IsRouted,
}
use kinugasa_recording.Media.Routes.Observations.{observe-IsRouted}
use kinugasa_recording.Media.Routes.Timeouts.{timeout-IsRouted}

-- The routes reached from the empty ones by any observations and timeouts.
pub data Routing : FlowRoutes → Type 0 where
  started : Routing default_routes
  observed : (flow port : ℕ) {r : FlowRoutes} → Routing r → Routing (observe flow port r).1
  timed_out : (flow : ℕ) {r : FlowRoutes} → Routing r → Routing (timeout flow r).1

Routing-IsRouted : {r : FlowRoutes} → Routing r → IsRouted r
Routing-IsRouted Routing.started = default_routes-IsRouted
Routing-IsRouted (Routing.observed flow port {r} before) =
    observe-IsRouted flow port r (Routing-IsRouted before)
Routing-IsRouted (Routing.timed_out flow {r} before) =
    timeout-IsRouted flow r (Routing-IsRouted before)

seen-errored :
    {r : FlowRoutes} (flow other port : ℕ)
    → Routing r
    → flow ≢ other
    → seen flow port r ≡ true
    → seen other port r ≡ true
    → member port r.errored_ports ≡ true
seen-errored {r} flow other port reached ne a b =
    let inv : IsRouted r = Routing-IsRouted reached in
    elim (Bool-cases (member port r.errored_ports)) [
      | inl e ↦ e
      | inr e ↦
          let one = inv.there flow port (inv.routed flow port a e) in
          let two = inv.there other port (inv.routed other port b e) in
          absurd (ne (ground (arith, one, two)))
    ]

-- What the receivers report.
pub data Event : Type 0 where
  observation : ℕ → ℕ → Event
  loss : ℕ → Event

-- The routes after events, of which the last comes first.
unfoldable pub routes_after : List Event → FlowRoutes
unfolding observe timeout
routes_after [] = default_routes
routes_after (Event.observation flow port ∷ past) = (observe flow port (routes_after past)).1
routes_after (Event.loss flow ∷ past) = (timeout flow (routes_after past)).1

-- The flow has been observed on the port since its last timeout.
abbrev pub is_observed : ℕ → ℕ → List Event → Bool
is_observed flow port [] = false
is_observed flow port (Event.observation f p ∷ past) =
    (f == flow && p == port) || is_observed flow port past
is_observed flow port (Event.loss f ∷ past) = not (f == flow) && is_observed flow port past

routes_after-Routing : (events : List Event) → Routing (routes_after events)
unfolding routes_after
routes_after-Routing [] = Routing.started
routes_after-Routing (Event.observation flow port ∷ past) =
    Routing.observed flow port (routes_after-Routing past)
routes_after-Routing (Event.loss flow ∷ past) = Routing.timed_out flow (routes_after-Routing past)

quarantine-sightings :
    (flow port : ℕ) (r : FlowRoutes) → (quarantine flow port r).1.ports_by_flow ≡ r.ports_by_flow
unfolding quarantine
quarantine-sightings flow port r = elim (Bool-cases (member port r.errored_ports)) [
  | inl e ↦ rw e refl
  | inr e ↦ rw e refl
]

route-sightings :
    (flow port : ℕ) (existing_port existing_flow : Option ℕ) (r : FlowRoutes)
    → (route flow port existing_port existing_flow r).1.ports_by_flow ≡ r.ports_by_flow
unfolding route collide
route-sightings flow port none none r = refl
route-sightings flow port none (some g) r = refl
route-sightings flow port (some p) none r = refl
route-sightings flow port (some p) (some g) r = elim (Bool-cases (p == port && g == flow)) [
  | inl e ↦ rw e refl
  | inr e ↦ rw e refl
]

observe-sightings :
    (flow port : ℕ) (r : FlowRoutes)
    → (observe flow port r).1.ports_by_flow ≡ (sight flow port r).ports_by_flow
unfolding observe
observe-sightings flow port r =
    let now : FlowRoutes = sight flow port r in
    elim (Bool-cases (member flow now.collided_flows || member port now.errored_ports)) [
      | inl e ↦ rw e (quarantine-sightings flow port now)
      | inr e ↦ rw e (route-sightings flow port (now.port_by_flow flow) (now.flow_by_port port) now)
    ]

seen-select :
    (flow port gone : ℕ) (sightings : List Sighting)
    → any (sees flow port) (select (λ s. not (s.flow_id == gone)) sightings)
      ≡ (not (gone == flow) && any (sees flow port) sightings)
seen-select flow port gone [] = ground arith
seen-select flow port gone (s ∷ rest) = ground (arith, seen-select flow port gone rest)

seen-is_observed :
    (flow port : ℕ) (events : List Event)
    → seen flow port (routes_after events) ≡ is_observed flow port events
unfolding routes_after timeout
seen-is_observed flow port [] = refl
seen-is_observed flow port (Event.observation f p ∷ past) =
    ap (any (sees flow port)) (observe-sightings f p (routes_after past))
    ∙ seen-sight f p flow port (routes_after past)
    ∙ ap (λ (b : Bool). (f == flow && p == port) || b) (seen-is_observed flow port past)
seen-is_observed flow port (Event.loss f ∷ past) =
    seen-select flow port f (routes_after past).ports_by_flow
    ∙ ap (λ (b : Bool). not (f == flow) && b) (seen-is_observed flow port past)

-- After any observations and timeouts, a port on which two different flows have been observed, each
-- since its last timeout, is in quarantine.
pub shared-errored :
    (flow other port : ℕ) (events : List Event)
    → flow ≢ other
    → is_observed flow port events ≡ true
    → is_observed other port events ≡ true
    → member port (routes_after events).errored_ports ≡ true
shared-errored flow other port events ne a b =
    seen-errored {r = routes_after events} flow other port (routes_after-Routing events) ne
      (seen-is_observed flow port events ∙ a) (seen-is_observed other port events ∙ b)

-- After any observations and timeouts, a port stays in quarantine only while some flow uses it, and
-- statistics of two different flows are never counted for one port.
pub quarantine-in_use :
    {r : FlowRoutes} (flow other port : ℕ)
    → Routing r
    → (member port r.errored_ports ≡ true → in_use port r ≡ true)
      × (statistics_port flow r ≡ some port → statistics_port other r ≡ some port → flow ≡ other)
unfolding statistics_port
quarantine-in_use {r} flow other port reached =
    let inv : IsRouted r = Routing-IsRouted reached in
    (inv.held port, λ a b. ground (arith, a, b, inv.there flow port, inv.there other port))
