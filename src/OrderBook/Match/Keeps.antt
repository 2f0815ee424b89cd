-- ===== src/OrderBook/Match/Keeps.antt =====
-- The book that a taking from one of its sides leaves.
use oktrading.Prelude.{
  ℕ, ◌<◌, ◌≡◌, refl, subst, Bool, true, false, Option, some, List, [], ◌∷◌, ◌++◌, String, arith,
  All, contains, Distinct, Distinct-right, Distinct-apart, contains-append, ◌-◌, Bool-cases, inl,
  inr,
}
use oktrading.Types.{Order}
use oktrading.OrderBook.Book.{Half, bid, ask, other, OrderLoc, Ladder, Index, OrderBook, ladder}
use oktrading.OrderBook.Valid.{IsLadder}
use oktrading.OrderBook.Invariant.{
  IsSide, IsBook, IsUncrossed, ladder_queue, book_queue, side_of, store, half_cases,
  ladder-store_self, ladder-store-other, other-ne,
}
use oktrading.OrderBook.Match.Spec.{Taken, take_queue, forget}
use oktrading.OrderBook.Match.Ids.{
  ids, forget_lem, ids-take_queue, take_queue-IsFiled, All-IsFiled-forget, filed_of_contains,
}

-- What holds of every price in a queue holds of every price that a taking leaves.
pub All-take_queue :
    (symbol : String) (timestamp : ℕ) (accept : ℕ → Bool) (P : ℕ → Type 0) (want : ℕ)
    (os : List Order)
    → All (λ (o : Order). P o.price) os
    → All (λ (o : Order). P o.price) (take_queue symbol timestamp accept want os).rest
unfolding take_queue
All-take_queue symbol timestamp accept P want [] v = tt
All-take_queue symbol timestamp accept P want (m ∷ os) v =
    ground (arith, v.0, v.1, All-take_queue symbol timestamp accept P (want - m.remaining) os v.1)

All-mono :
    (P Q : ℕ → Type 0)
    → ((p : ℕ) → P p → Q p)
    → (os : List Order) → All (λ (o : Order). P o.price) os
    → All (λ (o : Order). Q o.price) os
All-mono P Q f [] v = tt
All-mono P Q f (o ∷ os) v = (f o.price v.0, All-mono P Q f os v.1)

IsUncrossed-after :
    (symbol : String) (timestamp : ℕ) (accept : ℕ → Bool) (want : ℕ) (l : Ladder) (index : Index)
    (h : Half) (b : OrderBook)
    → IsUncrossed b
    → ladder_queue l ≡ (take_queue symbol timestamp accept want (book_queue h b)).rest
    → IsUncrossed (store h l index b)
IsUncrossed-after symbol timestamp accept want l index bid b u e = rw e (
    All-take_queue symbol timestamp accept
      (λ p. All (λ (y : Order). p < y.price) (book_queue ask b)) want (book_queue bid b) u)
IsUncrossed-after symbol timestamp accept want l index ask b u e = rw e (
    All-mono (λ p. All (λ (y : Order). p < y.price) (book_queue ask b)) _
      (λ p. All-take_queue symbol timestamp accept (λ q. p < q) want (book_queue ask b))
      (book_queue bid b) u)

-- One key of the index has one value.
pub half_of :
    {o : Option OrderLoc} {h k : Half} {p q : ℕ}
    → o ≡ some (record { half = h; price = p })
    → o ≡ some (record { half = k; price = q })
    → h ≡ k
half_of e f = cc

module _ (h : Half) (b : OrderBook) (v : IsBook b) (symbol : String) (timestamp : ℕ)
    (accept : ℕ → Bool) (want : ℕ) (l : Ladder) where
  abbrev t : Taken
  t = take_queue symbol timestamp accept want (book_queue h b)

  abbrev b' : OrderBook
  b' = store h l (forget b.orders t.used) b

  split : ids (book_queue h b) ≡ ids t.used ++ ids t.rest
  split = ids-take_queue symbol timestamp accept want (book_queue h b)

  distinct : Distinct (ids t.used ++ ids t.rest)
  distinct = subst Distinct split (v.side h).distinct

  -- An id that stands in the other half was not used up.
  elsewhere :
      (id : ℕ)
      → contains id (ids (book_queue (other h) b)) ≡ true
      → contains id (ids t.used) ≡ false
  elsewhere id e = elim (Bool-cases (contains id (ids t.used))) [
    | inl used ↦
        let (p, ep) =
          filed_of_contains b.orders h (side_of h) (book_queue h b) id (v.side h).filed
            (rw (split, contains-append id (ids t.used) (ids t.rest), used) refl) in
        let (q, eq) =
          filed_of_contains b.orders (other h) (side_of (other h)) (book_queue (other h) b) id
            (v.side (other h)).filed e in
        absurd (other-ne h (half_of ep eq))
    | inr unused ↦ unused
  ]

  module _ (vl : IsLadder h l.prices l.nodes) (rest : ladder_queue l ≡ t.rest) where
    IsSide-self : IsSide h l (forget b.orders t.used)
    IsSide-self = record {
      valid = vl;
      filed = rw rest (
          All-IsFiled-forget b.orders h (side_of h) t.used t.rest
            (λ id. Distinct-apart id (ids t.used) (ids t.rest) distinct)
            (take_queue-IsFiled symbol timestamp accept b.orders h (side_of h) want (book_queue h b)
              (v.side h).filed));
      distinct = rw rest (Distinct-right (ids t.used) (ids t.rest) distinct);
    }

    IsSide-other : IsSide (other h) (ladder (other h) b) (forget b.orders t.used)
    IsSide-other = record {
      valid = (v.side (other h)).valid;
      filed =
          All-IsFiled-forget b.orders (other h) (side_of (other h)) t.used (book_queue (other h) b)
            elsewhere (v.side (other h)).filed;
      distinct = (v.side (other h)).distinct;
    }

    kept :
        (id : ℕ) (loc : OrderLoc)
        → forget b.orders t.used id ≡ some loc
        → (contains id (ids t.used) ≡ false) × (b.orders id ≡ some loc)
    kept id loc e = ground (arith, forget_lem b.orders t.used id, e)

    in_rest :
        (id : ℕ)
        → contains id (ids t.used) ≡ false
        → contains id (ids (book_queue h b)) ≡ true
        → contains id (ids t.rest) ≡ true
    in_rest id unused was =
        ground (arith, rw (split, contains-append id (ids t.used) (ids t.rest)) at was, unused)

    still_found :
        (id : ℕ) (loc : OrderLoc)
        → forget b.orders t.used id ≡ some loc
        → contains id (ids (book_queue loc.half b')) ≡ true
    still_found id loc e =
        let (unused, old) = kept id loc e in
        half_cases
          (λ k.
            contains id (ids (book_queue k b)) ≡ true → contains id (ids (book_queue k b')) ≡ true)
          h
          (λ was.
            rw (ladder-store_self h l (forget b.orders t.used) b, rest) (in_rest id unused was))
          (λ was. rw (ladder-store-other h l (forget b.orders t.used) b) was) loc.half
          (v.found id loc old)

    -- The book after a taking from the half `h` is valid.
    pub store-IsBook : IsBook b'
    store-IsBook = record {
      side =
          half_cases (λ k. IsSide k (ladder k b') b'.orders) h
            (rw (ladder-store_self h l (forget b.orders t.used) b) IsSide-self)
            (rw (ladder-store-other h l (forget b.orders t.used) b) IsSide-other);
      found = still_found;
      uncrossed =
          IsUncrossed-after symbol timestamp accept want l (forget b.orders t.used) h b v.uncrossed
            rest;
    }
