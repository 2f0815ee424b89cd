-- ===== src/OrderBook/Priority.antt =====
-- The order of the queue of a valid side, and takers that its front blocks.
use oktrading.Prelude.{
  ℕ, ◌-◌, ◌≤◌, ◌<◌, ◌≡◌, ◌⊎◌, inr, Bool, true, false, Option, List, [], ◌∷◌, ◌++◌, arith, ltb, All,
  All-append, String,
}
use oktrading.Int64.{bias_nonneg, IsNonneg}
use oktrading.Types.{Order, Trade}
use oktrading.OrderBook.Book.{Half, bid, ask, PriceNode}
use oktrading.OrderBook.Valid.{rank, IsPrice, IsSorted, IsLevel, IsLadder, queue, level}
use oktrading.OrderBook.Match.{beyond}
use oktrading.OrderBook.Match.Spec.{take_queue, IsResting}

abbrev pub RankedFrom : Half → ℕ → List Order → Type 0
RankedFrom h p os = All (λ (o : Order). rank h p ≤ rank h o.price) os

-- In price order, best first.
abbrev pub IsRanked : Half → List Order → Type 0
IsRanked h [] = Unit
IsRanked h (o ∷ os) = RankedFrom h o.price os × IsRanked h os

-- An order that a valid book may hold.
abbrev pub IsOpen : Order → Type 0
IsOpen o = IsPrice o.price × (0 < o.remaining)

level_from :
    (h : Half) (p q : ℕ) (os : List Order)
    → rank h q ≤ rank h p
    → All (IsResting p) os
    → RankedFrom h q os
level_from h p q [] le v = tt
level_from h p q (o ∷ os) le v = (rw (v.0.at_price) le, level_from h p q os le v.1)

level-IsOpen : (p : ℕ) (os : List Order) → IsPrice p → All (IsResting p) os → All IsOpen os
level-IsOpen p [] ok v = tt
level-IsOpen p (o ∷ os) ok v = ((rw (v.0.at_price) ok, v.0.open_qty), level-IsOpen p os ok v.1)

module _ (h : Half) (nodes : ℕ → Option PriceNode) where
  queue_from :
      (p : ℕ) (ps : List ℕ)
      → All (λ q. rank h p < rank h q) ps
      → All (IsLevel nodes) ps
      → RankedFrom h p (queue ps nodes)
  queue_from p [] lt v = tt
  queue_from p (q ∷ ps) lt v =
      let (n, at, vn, ne, ok) = v.0 in
      All-append (λ (o : Order). rank h p ≤ rank h o.price) (level (nodes q)) (queue ps nodes)
        (rw at (level_from h q p n.orders (omega (arith, lt.0)) vn.resting))
        (queue_from p ps lt.1 v.1)

  IsRanked-append :
      (p : ℕ) (os qs : List Order)
      → All (IsResting p) os
      → RankedFrom h p qs
      → IsRanked h qs
      → IsRanked h (os ++ qs)
  IsRanked-append p [] qs v from r = r
  IsRanked-append p (o ∷ os) qs v from r = (
    rw (v.0.at_price) (
        All-append (λ (x : Order). rank h p ≤ rank h x.price) os qs
          (level_from h p p os (omega arith) v.1) from),
    IsRanked-append p os qs v.1 from r,
  )

  -- Best price first.
  pub queue-IsRanked : (ps : List ℕ) → IsLadder h ps nodes → IsRanked h (queue ps nodes)
  queue-IsRanked ps v = go ps v.sorted v.level_of
    where
      go : (ps : List ℕ) → IsSorted h ps → All (IsLevel nodes) ps → IsRanked h (queue ps nodes)
      go [] s v = tt
      go (p ∷ ps) s v =
          let (n, at, vn, ne, ok) = v.0 in
          rw at (
            IsRanked-append p n.orders (queue ps nodes) vn.resting (queue_from p ps s.0 v.1)
              (go ps s.1 v.1))

  -- Every resting order has a price and a quantity that are positive.
  pub queue-IsOpen : (ps : List ℕ) → All (IsLevel nodes) ps → All IsOpen (queue ps nodes)
  queue-IsOpen [] v = tt
  queue-IsOpen (p ∷ ps) v =
      let (n, at, vn, ne, ok) = v.0 in
      All-append IsOpen (level (nodes p)) (queue ps nodes)
        (rw at (level-IsOpen p n.orders ok vn.resting)) (queue-IsOpen ps v.1)

-- The front of the queue is not acceptable, or there is none.
abbrev pub IsBlocked : (ℕ → Bool) → List Order → Type 0
IsBlocked accept [] = Unit
IsBlocked accept (o ∷ os) = accept o.price ≡ false

module _ (symbol : String) (timestamp : ℕ) (accept : ℕ → Bool) where
  -- A taking stops only when the taker has all it wanted or the front of the queue blocks it.
  pub take_queue_stops :
      (want : ℕ) (os : List Order)
      → let t = take_queue symbol timestamp accept want os in (t.left ≡ 0) ⊎ IsBlocked accept t.rest
  unfolding take_queue
  take_queue_stops want [] = inr tt
  take_queue_stops want (m ∷ os) = ground (arith, take_queue_stops (want - m.remaining) os)

  -- It trades at acceptable prices only.
  pub take_queue_accepts :
      (want : ℕ) (os : List Order)
      → All
          (λ (tr : Trade). accept tr.price ≡ true)
          (take_queue symbol timestamp accept want os).trades
  unfolding take_queue
  take_queue_accepts want [] = tt
  take_queue_accepts want (m ∷ os) = ground (arith, take_queue_accepts (want - m.remaining) os)

-- In the half of the makers, a price beyond a limit is a worse price than the limit.
pub beyond_iff :
    (h : Half) (p limit : ℕ)
    → IsNonneg p
    → IsNonneg limit
    → beyond h p limit ≡ ltb (rank h limit) (rank h p)
beyond_iff bid p limit a b = ground (arith, bias_nonneg p a, bias_nonneg limit b)
beyond_iff ask p limit a b = ground (arith, bias_nonneg p a, bias_nonneg limit b)
