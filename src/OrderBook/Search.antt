-- ===== src/OrderBook/Search.antt =====
-- The standard library's `sort.Search`, which the book's sorted price slices rest on.
use oktrading.Prelude.{
  ℕ, zero, suc, ◌+◌, ◌/◌, ◌≤◌, ◌<◌, ◌≡◌, Bool, true, false, arith, ltb, if◌then◌else◌,
}

-- `for i < j { h := (i + j) / 2; if !f(h) { i = h + 1 } else { j = h } }; return i`
-- on fuel, which `search` gives enough of: the interval shrinks in every round.
unfoldable pub search_loop : ℕ → (ℕ → Bool) → ℕ → ℕ → ℕ
search_loop zero f i j = i
search_loop (suc fuel) f i j =
    let upper = search_loop fuel f ((i + j) / 2 + 1) j in
    let lower = search_loop fuel f i ((i + j) / 2) in
    if ltb i j then (if f ((i + j) / 2) then lower else upper) else i

unfoldable pub search : ℕ → (ℕ → Bool) → ℕ
unfolding search_loop
search n f = search_loop (suc n) f 0 n

-- The loop, started on an interval outside which the answer cannot lie, ends at the boundary.
search_loop_lem :
    (fuel : ℕ) (f : ℕ → Bool) (i j b : ℕ)
    → ((k : ℕ) → k < b → f k ≡ false)
    → ((k : ℕ) → b ≤ k → k < j → f k ≡ true)
    → i ≤ b
    → b ≤ j
    → j < i + fuel
    → search_loop fuel f i j ≡ b
unfolding search_loop
search_loop_lem zero f i j b below above ib bj h = omega arith
search_loop_lem (suc fuel) f i j b below above ib bj h = ground (
  arith,
  below ((i + j) / 2),
  above ((i + j) / 2),
  search_loop_lem fuel f ((i + j) / 2 + 1) j b below above,
  search_loop_lem fuel f i ((i + j) / 2) b below (λ k p q. above k p (omega arith)),
)

-- `search n f` is the boundary `b` of a test that fails below `b` and holds from `b` to `n`.
pub search_lem :
    (n : ℕ) (f : ℕ → Bool) (b : ℕ)
    → ((k : ℕ) → k < b → f k ≡ false)
    → ((k : ℕ) → b ≤ k → k < n → f k ≡ true)
    → b ≤ n
    → search n f ≡ b
unfolding search
search_lem n f b below above h =
    search_loop_lem (suc n) f 0 n b below above (omega arith) h (omega arith)
