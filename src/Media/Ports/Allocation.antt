-- ===== src/Media/Ports/Allocation.antt =====
-- kinugasa-media/src/service.rs: the search of `allocate_virtual_port`.
use kinugasa_recording.Shared.{
  ℕ, zero, suc, ◌+◌, ◌≤◌, ◌<◌, ◌≡◌, true, false, none, some, ◌==◌, max, arith, Bool-cases,
  Option-cases, ap, inl, inr, eq_of_==, ◌⊎◌,
}
use kinugasa_recording.Media.Sets.{member}
use kinugasa_recording.Media.Ports.{
  first_virtual_port, last_virtual_port, SessionRoutes, port_after, allocate_within,
  allocate_virtual_port, port_count,
}

abbrev pub IsInRange : ℕ → Type 0
IsInRange port = (first_virtual_port ≤ port) × (port ≤ last_virtual_port)

-- A port that is found is in range and free, and the next one to try is in range.
pub allocate_within-some :
    (n : ℕ) (session : SessionRoutes) {port : ℕ} {after : SessionRoutes}
    → session.next_virtual_port ≤ last_virtual_port
    → allocate_within n session ≡ (some port, after)
    → (first_virtual_port ≤ port)
      × (port ≤ last_virtual_port)
      × (member port session.by_virtual_port ≡ false)
      × (after.by_virtual_port ≡ session.by_virtual_port)
      × IsInRange after.next_virtual_port
unfolding allocate_within
allocate_within-some zero session h e = cc
allocate_within-some (suc n) session {port} {after} h e =
    let candidate = max session.next_virtual_port first_virtual_port in
    elim (Bool-cases (member candidate session.by_virtual_port)) [
      | inl taken ↦
          let advanced : SessionRoutes = record session {
            next_virtual_port = port_after candidate;
          } in
          allocate_within-some n advanced {port = port} {after = after} (ground arith)
            (ground (arith, taken))
      | inr free ↦ (
        ground (arith, free),
        ground (arith, free),
        ground (arith, free),
        ground (arith, free),
        (ground (arith, free), ground (arith, free)),
      )
    ]

allocate_within-next :
    (n : ℕ) (session : SessionRoutes)
    → IsInRange session.next_virtual_port
    → IsInRange (allocate_within n session).1.next_virtual_port
unfolding allocate_within
allocate_within-next zero session h = h
allocate_within-next (suc n) session (low, high) =
    let candidate = max session.next_virtual_port first_virtual_port in
    let advanced : SessionRoutes = record session { next_virtual_port = port_after candidate } in
    let here : IsInRange (port_after candidate) = (ground arith, ground arith) in
    let there = allocate_within-next n advanced here in
    elim (Bool-cases (member candidate session.by_virtual_port)) [
      | inl taken ↦ rw taken there
      | inr free ↦ rw free here
    ]

-- The next port stays in the range.
pub allocate_virtual_port-next :
    (session : SessionRoutes)
    → IsInRange session.next_virtual_port
    → IsInRange (allocate_virtual_port session).1.next_virtual_port
unfolding allocate_virtual_port
allocate_virtual_port-next session h = allocate_within-next port_count session h

-- When nothing is found, every port that was tried is taken: those from the next one on, and those
-- that the search came to after starting again at the first.
allocate_within-none :
    (n : ℕ) (session : SessionRoutes) {after : SessionRoutes} (port : ℕ)
    → first_virtual_port ≤ session.next_virtual_port
    → session.next_virtual_port ≤ last_virtual_port
    → port ≤ last_virtual_port
    → first_virtual_port ≤ port
    → ((session.next_virtual_port ≤ port) × (port < session.next_virtual_port + n))
      ⊎ (port + port_count < session.next_virtual_port + n)
    → allocate_within n session ≡ (none, after)
    → member port session.by_virtual_port ≡ true
unfolding allocate_within
allocate_within-none zero session port low high top bottom tried e = ground arith
allocate_within-none (suc n) session {after} port low high top bottom tried e =
    let candidate = max session.next_virtual_port first_virtual_port in
    let advanced : SessionRoutes = record session { next_virtual_port = port_after candidate } in
    let same : candidate ≡ session.next_virtual_port = omega arith in
    elim (Bool-cases (member candidate session.by_virtual_port)) [
      | inr free ↦ ground (arith, free)
      | inl taken ↦ elim (Bool-cases (port == session.next_virtual_port)) [
        | inl hit ↦ ground (arith, hit, same, taken, eq_of_== port session.next_virtual_port)
        | inr miss ↦
            allocate_within-none n advanced {after = after} port (ground arith) (ground arith) top
              bottom (ground (arith, miss, tried, same)) (ground (arith, taken))
      ]
    ]

-- From a session whose next port is in the range, as it is from the first camera on, allocation either
-- finds a port of the range that no camera of the session uses, and leaves the ports in use as they
-- were and the next port in the range, or finds none and every port of the range is in use.
pub allocate_virtual_port-free :
    (session : SessionRoutes)
    → IsInRange session.next_virtual_port
    → ((port : ℕ) × (after : SessionRoutes) × (allocate_virtual_port session ≡ (some port, after))
        × IsInRange port
        × (member port session.by_virtual_port ≡ false)
        × (after.by_virtual_port ≡ session.by_virtual_port)
        × IsInRange after.next_virtual_port)
      ⊎ (((allocate_virtual_port session).0 ≡ none)
          × ((port : ℕ) → IsInRange port → member port session.by_virtual_port ≡ true))
unfolding allocate_virtual_port
allocate_virtual_port-free session (low, high) =
    let after : SessionRoutes = (allocate_within port_count session).1 in
    elim (Option-cases (allocate_within port_count session).0) [
      | inl e ↦
          let failed : allocate_within port_count session ≡ (none, after) =
            ap (λ o. (o, after)) e in
          inr (
            e,
            λ port (bottom, top).
                allocate_within-none port_count session {after = after} port low high top bottom
                  (omega arith) failed,
          )
      | inr (port, e) ↦
          let found : allocate_within port_count session ≡ (some port, after) =
            ap (λ o. (o, after)) e in
          let (a, b, c, d, f) =
            allocate_within-some port_count session {port = port} {after = after} high found in
          inl (port, after, found, (a, b), c, d, f)
    ]
