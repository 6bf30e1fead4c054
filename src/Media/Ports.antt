-- ===== src/Media/Ports.antt =====
-- kinugasa-media/src/service.rs: the virtual ports of a session.
pub mod Allocation
use kinugasa_recording.Shared.{
  ℕ, zero, suc, ◌+◌, Bool, true, false, Option, none, some, List, ◌==◌, if◌then◌else◌, max,
}
use kinugasa_recording.Media.Sets.{member}

abbrev pub first_virtual_port : ℕ
first_virtual_port = 1024

-- `u16::MAX - 1`
abbrev pub last_virtual_port : ℕ
last_virtual_port = 65534

-- The ports in use are the keys of `by_virtual_port`.
pub record SessionRoutes : Type 0 where
  pub by_virtual_port : List ℕ
  pub next_virtual_port : ℕ

abbrev pub port_after : ℕ → ℕ
port_after candidate = if candidate == last_virtual_port then first_virtual_port else candidate + 1

-- The loop of `allocate_virtual_port`, `n` rounds of it.
unfoldable pub allocate_within : ℕ → SessionRoutes → Option ℕ × SessionRoutes
allocate_within zero session = (none, session)
allocate_within (suc n) session =
    let candidate = max session.next_virtual_port first_virtual_port in
    let advanced : SessionRoutes = record session { next_virtual_port = port_after candidate } in
    let rest = allocate_within n advanced in
    if member candidate session.by_virtual_port then rest else (some candidate, advanced)

-- `for _ in FIRST_VIRTUAL_PORT..=LAST_VIRTUAL_PORT`
abbrev pub port_count : ℕ
port_count = 64511

unfoldable pub allocate_virtual_port : SessionRoutes → Option ℕ × SessionRoutes
allocate_virtual_port session = allocate_within port_count session
