-- ===== src/Media/Routes.antt =====
-- kinugasa-media/src/rist.rs (`FlowRoutes`): which RIST flow feeds which virtual port. The sets of
-- ports by flow are kept as one list of the pairs that they hold, since an entry is never empty.
pub mod Invariant
pub mod Observations
pub mod Timeouts
pub mod Collisions
use kinugasa_recording.Shared.{
  ℕ, Bool, true, false, not, ◌&&◌, ◌||◌, Option, none, some, List, [], ◌∷◌, map, ◌==◌, leb,
  if◌then◌else◌, any, select,
}
use kinugasa_recording.Mysql.Tables.{order_by}
use kinugasa_recording.Media.Sets.{member, add, extend, discard, discard_all, Map, put, drop}

pub record Sighting : Type 0 where
  pub flow_id : ℕ
  pub virtual_port : ℕ

pub record FlowRoutes : Type 0 where
  pub ports_by_flow : List Sighting
  pub port_by_flow : Map ℕ
  pub flow_by_port : Map ℕ
  pub collided_flows : List ℕ
  pub errored_ports : List ℕ

pub data RouteDecision : Type 0 where
  accepted rejected : RouteDecision
  collision : List ℕ → Option ℕ → Option ℕ → RouteDecision

abbrev pub default_routes : FlowRoutes
default_routes = record {
  ports_by_flow = [];
  port_by_flow = λ flow. none;
  flow_by_port = λ port. none;
  collided_flows = [];
  errored_ports = [];
}

abbrev pub sees : ℕ → ℕ → Sighting → Bool
sees flow_id port s = s.flow_id == flow_id && s.virtual_port == port

abbrev pub seen : ℕ → ℕ → FlowRoutes → Bool
seen flow_id port r = any (sees flow_id port) r.ports_by_flow

-- `self.ports_by_flow.entry(flow_id).or_default().insert(virtual_port)`
unfoldable pub sight : ℕ → ℕ → FlowRoutes → FlowRoutes
sight flow_id port r = if seen flow_id port r then r else record r {
  ports_by_flow = record { flow_id = flow_id; virtual_port = port } ∷ r.ports_by_flow;
}

abbrev pub option_list : Option ℕ → List ℕ
option_list none = []
option_list (some x) = x ∷ []

-- The ports of the affected flows.
abbrev pub ports_of : List ℕ → List Sighting → List ℕ
ports_of flows sightings =
    map (λ s. s.virtual_port) (select (λ s. member s.flow_id flows) sightings)

-- The last arm of the `match`.
unfoldable pub collide : ℕ → ℕ → Option ℕ → Option ℕ → FlowRoutes → RouteDecision × FlowRoutes
unfolding order_by
collide flow_id port existing_port existing_flow r =
    let affected_flows = extend (option_list existing_flow) (flow_id ∷ []) in
    let affected_ports =
      extend (ports_of affected_flows r.ports_by_flow)
        (extend (option_list existing_port) (port ∷ [])) in
    (
      RouteDecision.collision (order_by leb affected_ports) existing_port existing_flow,
      record r {
        collided_flows = extend affected_flows r.collided_flows;
        errored_ports = extend affected_ports r.errored_ports;
      },
    )

-- `match (existing_port, existing_flow)`
unfoldable pub route : ℕ → ℕ → Option ℕ → Option ℕ → FlowRoutes → RouteDecision × FlowRoutes
route flow_id port none none r = (
  RouteDecision.accepted,
  record r {
    port_by_flow = put flow_id port r.port_by_flow;
    flow_by_port = put port flow_id r.flow_by_port;
  },
)
route flow_id port (some existing_port) (some existing_flow) r =
    if existing_port == port && existing_flow == flow_id
    then (RouteDecision.accepted, r)
    else collide flow_id port (some existing_port) (some existing_flow) r
route flow_id port existing_port existing_flow r =
    collide flow_id port existing_port existing_flow r

-- The early return for a flow or a port in quarantine.
unfoldable pub quarantine : ℕ → ℕ → FlowRoutes → RouteDecision × FlowRoutes
quarantine flow_id port r =
    let held : FlowRoutes = record r { collided_flows = add flow_id r.collided_flows } in
    if member port r.errored_ports then (RouteDecision.rejected, held) else (
      RouteDecision.collision (port ∷ []) (r.port_by_flow flow_id) (r.flow_by_port port),
      record held { errored_ports = port ∷ r.errored_ports },
    )

unfoldable pub observe : ℕ → ℕ → FlowRoutes → RouteDecision × FlowRoutes
observe flow_id port r =
    let now = sight flow_id port r in
    if member flow_id now.collided_flows || member port now.errored_ports
    then quarantine flow_id port now
    else route flow_id port (now.port_by_flow flow_id) (now.flow_by_port port) now

unfoldable pub statistics_port : ℕ → FlowRoutes → Option ℕ
statistics_port flow_id r = if member flow_id r.collided_flows then none else r.port_by_flow flow_id

-- `if let Some(port) = self.port_by_flow.remove(&flow_id) && …`
unfoldable pub release : Option ℕ → ℕ → Map ℕ → Map ℕ
release none flow_id flow_by_port = flow_by_port
release (some port) flow_id flow_by_port = elim (flow_by_port port) [
  | none ↦ flow_by_port
  | some flow ↦ if flow == flow_id then drop port flow_by_port else flow_by_port
]

-- The ports that only the flow had, in the order of the list.
abbrev pub disconnected : ℕ → List Sighting → List ℕ
disconnected flow_id sightings =
    select (λ port. not (any (λ s. s.virtual_port == port && not (s.flow_id == flow_id)) sightings))
      (map (λ s. s.virtual_port) (select (λ s. s.flow_id == flow_id) sightings))

unfoldable pub timeout : ℕ → FlowRoutes → List ℕ × FlowRoutes
timeout flow_id r =
    let ports = disconnected flow_id r.ports_by_flow in
    (
      ports,
      record {
        ports_by_flow = select (λ s. not (s.flow_id == flow_id)) r.ports_by_flow;
        port_by_flow = drop flow_id r.port_by_flow;
        flow_by_port = release (r.port_by_flow flow_id) flow_id r.flow_by_port;
        collided_flows = discard flow_id r.collided_flows;
        errored_ports = discard_all ports r.errored_ports;
      },
    )
