-- ===== src/Ports/Pages.antt =====
-- kinugasa-core/src/ports/repository.rs: the pages of a list.
use kinugasa_recording.Shared.{ℕ, ◌+◌, ◌-◌, ◌*◌, ◌/◌, ◌<◌, ◌≤◌, ◌≡◌, ok, arith, ap, ◌∙◌, ◌↔◌}
use kinugasa_recording.Ports.Repository.{PageRequest, new_page_request, offset}

page_request_parts :
    (page size : ℕ) {request : PageRequest}
    → new_page_request page size ≡ ok request
    → (request.page ≡ page) × (request.page_size ≡ size) × (0 < page) × (0 < size) × (size ≤ 100)
unfolding new_page_request
page_request_parts page size h =
    (ground arith, ground arith, ground arith, ground arith, ground arith)

product_bound : (a b : ℕ) → a < 4294967296 → b ≤ 100 → a * b ≤ 429496729600
product_bound a b h k = grind arith

offset_exact :
    (page size : ℕ) {request : PageRequest}
    → page < 4294967296
    → new_page_request page size ≡ ok request
    → offset request ≡ (page - 1) * size
unfolding offset
offset_exact page size {request} h e =
    let (p, s, _, _, small) = page_request_parts page size {request = request} e in
    let bound : (page - 1) * size ≤ 429496729600 =
      product_bound (page - 1) size (omega arith) small in
    let read : (request.page - 1) * request.page_size ≡ (page - 1) * size =
      ap (λ (t : ℕ). (t - 1) * request.page_size) p ∙ ap (λ (t : ℕ). (page - 1) * t) s in
    omega arith

quotient_bounds : (i size : ℕ) → 0 < size → (i / size * size ≤ i) × (i < i / size * size + size)
quotient_bounds i size h = grind arith

block_unique :
    (a b size i : ℕ)
    → a * size ≤ i
    → i < a * size + size
    → b * size ≤ i
    → i < b * size + size
    → a ≡ b
block_unique a b size i h k m n = grind arith

-- A page that is accepted, its number a 32-bit word, starts where the pages before it end: its offset,
-- computed in 64 bits, is the product without wrapping round, with room for the page after it; and an
-- item is on the page exactly when its position divided by the page's size is the number of pages
-- before it, so that the pages of one size share the items out.
pub offset-page :
    (page size i : ℕ) {request : PageRequest}
    → page < 4294967296
    → new_page_request page size ≡ ok request
    → (offset request + request.page_size < 18446744073709551616)
      × (offset request ≡ (page - 1) * size)
      × (((offset request ≤ i) × (i < offset request + request.page_size)) ↔ (i / size + 1 ≡ page))
offset-page page size i {request} h e =
    let (p, s, first, positive, small) = page_request_parts page size {request = request} e in
    let exact = offset_exact page size {request = request} h e in
    let bound = product_bound (page - 1) size (omega arith) small in
    let (a, b) = quotient_bounds i size positive in
    (
      omega arith,
      exact,
      (
        λ (low, high).
            let same : i / size ≡ page - 1 =
              block_unique (i / size) (page - 1) size i a b (omega arith) (omega arith) in
            omega arith,
        λ on.
            let quotient : i / size ≡ page - 1 = omega arith in
            let same : i / size * size ≡ (page - 1) * size = ap (λ (t : ℕ). t * size) quotient in
            (omega arith, omega arith),
      ),
    )
