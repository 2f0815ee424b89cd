-- ===== src/OrderBook/Match/Sweep.antt =====
-- pkg/orderbook/orderbook.go, the loop of `Match` over one side of a valid book.
use oktrading.Prelude.{
  ℕ, zero, suc, ◌<◌, ◌≡◌, ◌≢◌, inl, inr, refl, sym, ap, ◌∙◌, Bool, true, false, not, ◌&&◌, ◌||◌,
  Option, some, List, [], ◌∷◌, ◌++◌, append-nil, String, arith, ◌==◌, length, All, Bool-cases,
  nil_cases,
}
use mathlib.Core.Option
use oktrading.Prelude.Maps.{update, delete, delete_ne, update_ne, update_self}
use oktrading.Int64.{IsNonneg, slt_nonneg}
use oktrading.Types.{Order}
use oktrading.OrderBook.Book.{Half, PriceNode, Index}
use oktrading.OrderBook.Valid.{queue, IsLadder, IsLadder-delete, IsLadder-update, queue_elsewhere}
use oktrading.OrderBook.Match.{
  Swept, Filled, add_trades, is_limit, beyond, fill_level, loop_ends, sweep,
}
use oktrading.OrderBook.Match.Spec.{total, Taken, take_queue, forget, IsResting, IsNode}
use oktrading.OrderBook.Match.Queue.{
  forget-append, nil_of_total, done_of_rest, take_queue-append, take_queue-append_stop,
  take_queue-IsResting, left-add-traded, total_rest-add-traded,
}
use oktrading.OrderBook.Match.Fill.{Fills, fill_orders_lem}

-- The prices at which a taker trades: all of them, unless it is a `Limit` order.
abbrev pub accepts : Half → Order → ℕ → Bool
accepts h taker p = not (is_limit taker.type && beyond h p taker.price)

-- The sweep `r` of a side is the taking `t` from its queue.
pub record Sweeps (h : Half) (tk : Order) (index : Index) (r : Swept) (t : Taken) : Type 0 where
  pub trades : r.trades ≡ t.trades
  pub taker : r.taker ≡ record tk { remaining = t.left }
  pub orders : r.orders ≡ forget index t.used
  pub rest : queue r.ladder.prices r.ladder.nodes ≡ t.rest
  pub valid : IsLadder h r.ladder.prices r.ladder.nodes

abbrev SweepsTo : Half → String → Order → List ℕ → (ℕ → Option PriceNode) → Index → ℕ → Type 0
SweepsTo h symbol taker prices nodes index fuel =
    (r : Swept) × (sweep fuel h symbol taker prices nodes index ≡ some r)
    × Sweeps h taker index r
        (take_queue symbol taker.timestamp (accepts h taker) taker.remaining (queue prices nodes))

loop_ends_lem :
    (h : Half) (taker : Order) (p : ℕ)
    → IsNonneg taker.remaining
    → loop_ends h taker p ≡ (taker.remaining == 0 || not (accepts h taker p))
unfolding loop_ends
loop_ends_lem h taker p tb = ground (arith, slt_nonneg 0 taker.remaining)

-- With nothing to do the loop leaves everything as it is.
module _ (h : Half) (symbol : String) (taker : Order) (p : ℕ) (ps : List ℕ)
    (nodes : ℕ → Option PriceNode) (index : Index) (v : IsLadder h (p ∷ ps) nodes)
    (tb : IsNonneg taker.remaining)
    (stop : (taker.remaining == 0 || not (accepts h taker p)) ≡ true) where
  sweep_idle :
      (fuel : ℕ)
      → sweep (suc fuel) h symbol taker (p ∷ ps) nodes index
        ≡ some (record {
          trades = [];
          taker = taker;
          ladder = record { prices = p ∷ ps; nodes = nodes };
          orders = index;
        })
  sweep_idle fuel = unfold sweep in rw (loop_ends_lem h taker p tb, stop) refl

-- Taking from a queue that begins with a level at which the taker stops.
take_queue_idle :
    (symbol : String) (timestamp : ℕ) (accept : ℕ → Bool) (p want : ℕ) (os qs : List Order)
    → os ≢ []
    → All (IsResting p) os
    → (want == 0 || not (accept p)) ≡ true
    → take_queue symbol timestamp accept want (os ++ qs)
      ≡ record { trades = []; left = want; used = []; rest = os ++ qs }
unfolding take_queue
take_queue_idle symbol timestamp accept p want [] qs ne v stop = absurd (ne refl)
take_queue_idle symbol timestamp accept p want (o ∷ os) qs ne v stop = rw (v.0.at_price, stop) refl

-- One level of the sweep.
module _ (h : Half) (symbol : String) (taker : Order) (p : ℕ) (ps : List ℕ)
    (nodes : ℕ → Option PriceNode) (index : Index) (n : PriceNode) (v : IsLadder h (p ∷ ps) nodes)
    (tb : IsNonneg taker.remaining) (at : nodes p ≡ some n) (vn : IsNode p n)
    (ok : accepts h taker p ≡ true) (some_left : 0 < taker.remaining) where
  abbrev t : Taken
  t = take_queue symbol taker.timestamp (λ q. true) taker.remaining n.orders

  abbrev filled : Filled
  filled = fill_level symbol taker n index

  filled-Fills : Fills symbol taker n index filled t
  unfolding fill_level
  filled-Fills =
      fill_orders_lem symbol taker n index n.orders tb vn.cached vn.bounded (rw vn.keyed vn.resting)

  rest-IsResting : All (IsResting p) t.rest
  rest-IsResting =
      take_queue-IsResting symbol taker.timestamp (λ q. true) p taker.remaining n.orders vn.resting

  reduced-IsNode : IsNode p (record n { quantity = total t.rest; orders = t.rest })
  reduced-IsNode = record {
    keyed = vn.keyed;
    cached = refl;
    bounded = omega (
      arith,
      vn.bounded,
      total_rest-add-traded symbol taker.timestamp (λ q. true) taker.remaining n.orders,
    );
    resting = rest-IsResting;
  }

  goes_on : loop_ends h taker p ≡ false
  goes_on = ground (arith, loop_ends_lem h taker p tb, ok)

  -- The level is used up: the loop goes on with the next one.
  sweep_cleared :
      (fuel : ℕ)
      → t.rest ≡ []
      → sweep (suc fuel) h symbol taker (p ∷ ps) nodes index
        ≡ Option.map (add_trades t.trades) (
            sweep fuel h symbol
              (record taker { remaining = t.left })
              ps
              (delete nodes p)
              (forget index t.used))
  sweep_cleared fuel e =
      let f = filled-Fills in
      let empty : (total t.rest == 0) ≡ true = rw e (unfold total in refl) in
      unfold sweep in rw (goes_on, at, f.node, empty, f.trades, f.taker, f.orders) refl

  -- It is not: the node stays, and the loop is tested once more.
  sweep_reduced :
      (fuel : ℕ)
      → t.rest ≢ []
      → sweep (suc fuel) h symbol taker (p ∷ ps) nodes index
        ≡ Option.map (add_trades t.trades) (
            sweep fuel h symbol
              (record taker { remaining = t.left })
              (p ∷ ps)
              (update nodes p (record n { quantity = total t.rest; orders = t.rest }))
              (forget index t.used))
  sweep_reduced fuel e =
      let f = filled-Fills in
      let full : (total t.rest == 0) ≡ false =
        ground (arith, λ (z : total t.rest ≡ 0). e (nil_of_total p t.rest rest-IsResting z)) in
      unfold sweep in rw (goes_on, at, f.node, full, f.trades, f.taker, f.orders, f.node) refl

  level_cleared :
      (fuel : ℕ)
      → t.rest ≡ []
      → SweepsTo h symbol
          (record taker { remaining = t.left })
          ps
          (delete nodes p)
          (forget index t.used)
          fuel
      → SweepsTo h symbol taker (p ∷ ps) nodes index (suc fuel)
  level_cleared fuel e (r, er, s) = (
    add_trades t.trades r,
    rw (sweep_cleared fuel e, er) refl,
    rw
        (
          at,
          take_queue-append symbol taker.timestamp (accepts h taker) p ok taker.remaining n.orders
              (queue ps nodes) vn.resting e,
          ← queue_elsewhere h nodes (delete nodes p) p (λ q d. delete_ne nodes d) ps v.sorted.0,
        )
        (record {
          trades = ap (λ x. t.trades ++ x) s.trades;
          taker = s.taker;
          orders = s.orders ∙ sym (forget-append index t.used _);
          rest = s.rest;
          valid = s.valid;
        }),
  )

  level_reduced :
      (fuel : ℕ) → 0 < fuel → t.rest ≢ [] → SweepsTo h symbol taker (p ∷ ps) nodes index (suc fuel)
  level_reduced zero pos e = absurd (omega arith)
  level_reduced (suc fuel) pos e =
      let z : t.left ≡ 0 = elim (done_of_rest symbol taker.timestamp taker.remaining n.orders) [
        | inl nothing ↦ absurd (e nothing)
        | inr z ↦ z
      ] in
      let n' = record n { quantity = total t.rest; orders = t.rest } in
      let taker' = record taker { remaining = t.left } in
      let v' = IsLadder-update h p ps nodes v n' reduced-IsNode e in
      (
        record {
          trades = t.trades ++ [];
          taker = taker';
          ladder = record { prices = p ∷ ps; nodes = update nodes p n' };
          orders = forget index t.used;
        },
        rw
            (
              sweep_reduced (suc fuel) e,
              sweep_idle h symbol taker' p ps (update nodes p n') (forget index t.used) v'
                  (omega arith) (ground arith) fuel,
            )
            refl,
        rw
            (
              at,
              take_queue-append_stop symbol taker.timestamp (accepts h taker) p ok taker.remaining
                  n.orders (queue ps nodes) vn.resting e,
            )
            (record {
              trades = append-nil t.trades;
              taker = refl;
              orders = refl;
              rest = rw (
                update_self nodes p n',
                queue_elsewhere h nodes (update nodes p n') p (λ q d. update_ne nodes n' d) ps
                    v.sorted.0,
              );
              valid = v';
            }),
      )

-- The refinement: with a round for each price and one more the sweep ends, meets no nil node, and
-- takes from the queue of the side.
pub sweep-Sweeps :
    (fuel : ℕ) (h : Half) (symbol : String) (taker : Order) (prices : List ℕ)
    (nodes : ℕ → Option PriceNode) (index : Index)
    → IsLadder h prices nodes
    → IsNonneg taker.remaining
    → length prices < fuel
    → SweepsTo h symbol taker prices nodes index fuel
unfolding forget
sweep-Sweeps zero h symbol taker prices nodes index v tb lt = absurd (omega arith)
sweep-Sweeps (suc fuel) h symbol taker [] nodes index v tb lt =
    unfold sweep take_queue forget in
    (_, refl, record { trades = refl; taker = refl; orders = refl; rest = refl; valid = v })
sweep-Sweeps (suc fuel) h symbol taker (p ∷ ps) nodes index v tb lt =
    let (n, at, vn, ne, pr) = v.level_of.0 in
    elim (Bool-cases (taker.remaining == 0 || not (accepts h taker p))) [
      | inl stop ↦ (
        _,
        sweep_idle h symbol taker p ps nodes index v tb stop fuel,
        rw
            (
              at,
              take_queue_idle symbol taker.timestamp (accepts h taker) p taker.remaining n.orders
                  (queue ps nodes) ne vn.resting stop,
            )
            (record { trades = refl; taker = refl; orders = refl; rest = rw at; valid = v }),
      )
      | inr go ↦
          let ok : accepts h taker p ≡ true = ground arith in
          let pos : 0 < taker.remaining = ground arith in
          let t = take_queue symbol taker.timestamp (λ q. true) taker.remaining n.orders in
          elim (nil_cases t.rest) [
            | inl e ↦ level_cleared h symbol taker p ps nodes index n v tb at vn ok pos fuel e (
                sweep-Sweeps fuel h symbol (record taker { remaining = t.left }) ps (delete nodes p)
                  (forget index t.used) (IsLadder-delete h p ps nodes v)
                  (omega (
                    arith,
                    left-add-traded symbol taker.timestamp (λ q. true) taker.remaining n.orders,
                  ))
                  (omega arith))
            | inr e ↦
                level_reduced h symbol taker p ps nodes index n v tb at vn ok pos fuel (omega arith)
                  e
          ]
    ]
