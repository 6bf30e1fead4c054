-- ===== src/Media/Examples.antt =====
-- Two flows on one port, and a session with one camera.
use kinugasa_recording.Shared.{
  ℕ, ◌≡◌, ◌≢◌, ◌⊎◌, refl, true, false, none, some, [], ◌∷◌, List, arith,
}
use kinugasa_recording.Media.Sets.{member}
use kinugasa_recording.Media.Routes.{FlowRoutes, default_routes, observe, statistics_port}
use kinugasa_recording.Media.Routes.Invariant.{in_use}
use kinugasa_recording.Media.Routes.Collisions.{
  Routing, Event, routes_after, shared-errored, quarantine-in_use,
}
use kinugasa_recording.Media.Ports.{SessionRoutes, allocate_virtual_port}
use kinugasa_recording.Media.Ports.Allocation.{IsInRange, allocate_virtual_port-free}

abbrev collided : FlowRoutes
collided = (observe 43 1024 (observe 42 1024 default_routes).1).1

collided-Routing : Routing collided
collided-Routing = Routing.observed 43 1024 (Routing.observed 42 1024 Routing.started)

differ : ◌≢◌ {A = ℕ} 42 43
differ h = omega arith

-- The first flow has timed out and come back.
abbrev reports : List Event
reports =
    Event.observation 42 1024
    ∷ Event.observation 43 1024
    ∷ Event.loss 42
    ∷ Event.observation 42 1024
    ∷ []

shared-errored_example : member 1024 (routes_after reports).errored_ports ≡ true
shared-errored_example = shared-errored 42 43 1024 reports differ refl refl

quarantine-in_use_example :
    (member 1024 collided.errored_ports ≡ true → in_use 1024 collided ≡ true)
    × (statistics_port 42 collided ≡ some 1024
        → statistics_port 43 collided ≡ some 1024
        → ◌≡◌ {A = ℕ} 42 43)
quarantine-in_use_example = quarantine-in_use 42 43 1024 collided-Routing

abbrev session : SessionRoutes
session = record { by_virtual_port = 1024 ∷ []; next_virtual_port = 1024 }

session-IsInRange : IsInRange 1024
session-IsInRange = (omega arith, omega arith)

allocate_virtual_port-free_example :
    ((port : ℕ) × (after : SessionRoutes) × (allocate_virtual_port session ≡ (some port, after))
      × IsInRange port
      × (member port session.by_virtual_port ≡ false)
      × (after.by_virtual_port ≡ session.by_virtual_port)
      × IsInRange after.next_virtual_port)
    ⊎ (((allocate_virtual_port session).0 ≡ none)
        × ((port : ℕ) → IsInRange port → member port session.by_virtual_port ≡ true))
allocate_virtual_port-free_example = allocate_virtual_port-free session session-IsInRange
