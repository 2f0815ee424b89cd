-- ===== src/OrderBook/Match/Queue.antt =====
-- Takings from a queue: the quantities, the validity of the orders, and one level after another.
use oktrading.Prelude.{
  ℕ, ◌+◌, ◌-◌, ◌≡◌, ◌≢◌, ◌⊎◌, inl, refl, Bool, true, List, [], ◌∷◌, ◌++◌, String, arith, All,
}
use oktrading.Prelude.Maps.{delete}
use oktrading.Types.{Order}
use oktrading.OrderBook.Book.{Index}
use oktrading.OrderBook.Match.Spec.{total, traded, take_queue, forget, IsResting}

pub total-append : (xs ys : List Order) → total (xs ++ ys) ≡ total xs + total ys
unfolding total
total-append [] ys = omega arith
total-append (x ∷ xs) ys = omega (arith, total-append xs ys)

pub forget-append :
    (index : Index) (xs ys : List Order) → forget index (xs ++ ys) ≡ forget (forget index xs) ys
unfolding forget
forget-append index [] ys = refl
forget-append index (x ∷ xs) ys = forget-append (delete index x.order_id) xs ys

module _ (symbol : String) (timestamp : ℕ) (accept : ℕ → Bool) where
  -- What the taker gets and what it still wants make up what it wanted.
  pub left-add-traded :
      (want : ℕ) (os : List Order)
      → let t = take_queue symbol timestamp accept want os in t.left + traded t.trades ≡ want
  unfolding take_queue traded
  left-add-traded want [] = omega arith
  left-add-traded want (m ∷ os) = ground (arith, left-add-traded (want - m.remaining) os)

  -- What is left of the queue and what was traded make up the queue.
  pub total_rest-add-traded :
      (want : ℕ) (os : List Order)
      → let t = take_queue symbol timestamp accept want os in
        total t.rest + traded t.trades ≡ total os
  unfolding take_queue traded total
  total_rest-add-traded want [] = omega arith
  total_rest-add-traded want (m ∷ os) =
      ground (arith, total_rest-add-traded (want - m.remaining) os)

  -- The orders that are left may still rest at their price.
  pub take_queue-IsResting :
      (p want : ℕ) (os : List Order)
      → All (IsResting p) os
      → All (IsResting p) (take_queue symbol timestamp accept want os).rest
  unfolding take_queue
  take_queue-IsResting p want [] v = tt
  take_queue-IsResting p want (m ∷ os) v =
      ground
        (arith, v.0.open_qty, v.0.at_price, v.1, take_queue-IsResting p (want - m.remaining) os v.1)

-- A queue of orders that may rest is empty when its quantity is 0.
pub nil_of_total : (p : ℕ) (os : List Order) → All (IsResting p) os → total os ≡ 0 → os ≡ []
unfolding total
nil_of_total p [] v e = refl
nil_of_total p (o ∷ os) v e = absurd (omega (arith, v.0.open_qty))

-- If quantity is left at an acceptable level then the taker has all it wanted.
module _ (symbol : String) (timestamp : ℕ) where
  pub done_of_rest :
      (want : ℕ) (os : List Order)
      → let t = take_queue symbol timestamp (λ p. true) want os in (t.rest ≡ []) ⊎ (t.left ≡ 0)
  unfolding take_queue
  done_of_rest want [] = inl refl
  done_of_rest want (m ∷ os) = ground (arith, done_of_rest (want - m.remaining) os)

  module _ (accept : ℕ → Bool) (p : ℕ) (ok : accept p ≡ true) where
    -- A level that is used up is followed by the rest of the queue.
    pub take_queue-append :
        (want : ℕ) (os qs : List Order)
        → All (IsResting p) os
        → let t = take_queue symbol timestamp (λ p. true) want os in
          let s = take_queue symbol timestamp accept t.left qs in
          t.rest ≡ []
          → take_queue symbol timestamp accept want (os ++ qs) ≡ record {
            trades = t.trades ++ s.trades;
            left = s.left;
            used = t.used ++ s.used;
            rest = s.rest;
          }
    unfolding take_queue
    take_queue-append want [] qs v e = refl
    take_queue-append want (m ∷ os) qs v e =
        ground (arith, ok, v.0.at_price, take_queue-append (want - m.remaining) os qs v.1)

    -- A level that is not used up ends the sweep.
    pub take_queue-append_stop :
        (want : ℕ) (os qs : List Order)
        → All (IsResting p) os
        → let t = take_queue symbol timestamp (λ p. true) want os in
          t.rest ≢ []
          → take_queue symbol timestamp accept want (os ++ qs)
            ≡ record { trades = t.trades; left = t.left; used = t.used; rest = t.rest ++ qs }
    unfolding take_queue
    take_queue-append_stop want [] qs v e = absurd (e refl)
    take_queue-append_stop want (m ∷ os) qs v e =
        ground (arith, ok, v.0.at_price, take_queue-append_stop (want - m.remaining) os qs v.1)
