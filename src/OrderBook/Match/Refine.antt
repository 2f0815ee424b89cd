-- ===== src/OrderBook/Match/Refine.antt =====
-- pkg/orderbook/orderbook.go, `Match`, against a taking from the queue of the other side.
use oktrading.Prelude.{
  ℕ, suc, ◌+◌, ◌-◌, ◌≤◌, ◌≡◌, refl, some, arith, ltb, ◌==◌, if◌then◌else◌, length, ap, subst, ◌∙◌,
  result_unique,
}
use oktrading.Int64.{IsNonneg, slt_nonneg, sub64_lem}
use oktrading.Types.{
  Order, Side, buy, sell, OrderStatus, status_filled, status_partially_filled, filled_qty,
}
use oktrading.OrderBook.Book.{Half, bid, ask, other, OrderBook, ladder}
use oktrading.OrderBook.Invariant.{
  IsBook, book_queue, ladder-store_self, ladder-store-other, symbol-store,
}
use oktrading.OrderBook.Match.{
  Matched, Swept, final_status, finish_match, match_half, match_side, match_order,
}
use oktrading.OrderBook.Match.Spec.{total, traded, Taken, take_queue, forget}
use oktrading.OrderBook.Match.Queue.{left-add-traded, total_rest-add-traded}
use oktrading.OrderBook.Match.Sweep.{accepts, Sweeps, sweep-Sweeps}
use oktrading.OrderBook.Match.Keeps.{store-IsBook}

-- The side of the taker that trades with the makers of a half.
abbrev pub taker_side : Half → Side
taker_side ask = buy
taker_side bid = sell

-- A taker has no more left than it asked for, in `int64` range.
pub record IsTaker (o : Order) : Type 0 where
  pub part : o.remaining ≤ o.quantity
  pub range : IsNonneg o.quantity

-- The status that a taker has when `left` is what it still wants.
abbrev pub status_after : Order → ℕ → OrderStatus
status_after o left =
    if left == 0
    then status_filled
    else if ltb left o.quantity
    then status_partially_filled
    else o.status

-- The taking that `Match` performs.
abbrev pub taking : Half → Order → OrderBook → Taken
taking h taker b =
    take_queue b.symbol taker.timestamp (accepts h taker) taker.remaining (book_queue h b)

pub record Matches (h : Half) (tk : Order) (b : OrderBook) (m : Matched) : Type 0 where
  pub trades : m.trades ≡ (taking h tk b).trades
  pub taker : m.taker ≡ record tk {
    remaining = (taking h tk b).left;
    status = status_after tk (taking h tk b).left;
  }
  pub makers : book_queue h m.book ≡ (taking h tk b).rest
  pub others : ladder (other h) m.book ≡ ladder (other h) b
  pub index : m.book.orders ≡ forget b.orders (taking h tk b).used
  pub same_symbol : m.book.symbol ≡ b.symbol
  pub valid : IsBook m.book

final_status_lem :
    (o : Order) (left : ℕ)
    → left ≤ o.quantity
    → IsNonneg o.quantity
    → final_status (record o { remaining = left }) ≡ status_after o left
unfolding final_status filled_qty
final_status_lem o left le r =
    ground (arith, sub64_lem o.quantity left le, slt_nonneg 0 (o.quantity - left))

finish_match-Matches :
    (h : Half) (taker : Order) (b : OrderBook)
    → IsBook b
    → IsTaker taker
    → (r : Swept) → Sweeps h taker b.orders r (taking h taker b)
    → Matches h taker b (finish_match h b r)
unfolding finish_match
finish_match-Matches h taker b v tk r s =
    let t = taking h taker b in
    let le =
      left-add-traded b.symbol taker.timestamp (accepts h taker) taker.remaining (book_queue h b) in
    record {
      trades = s.trades;
      taker =
          rw (s.taker, final_status_lem taker t.left (omega (arith, le, tk.part)) tk.range) refl;
      makers = rw (ladder-store_self h r.ladder r.orders b) s.rest;
      others = ladder-store-other h r.ladder r.orders b;
      index = s.orders;
      same_symbol = symbol-store h r.ladder r.orders b;
      valid = rw s.orders (
          store-IsBook h b v b.symbol taker.timestamp (accepts h taker) taker.remaining r.ladder
            s.valid s.rest);
    }

match_half-Matches :
    (h : Half) (taker : Order) (b : OrderBook)
    → IsBook b
    → IsTaker taker
    → (m : Matched) × (match_half h taker b ≡ some m) × Matches h taker b m
match_half-Matches h taker b v tk =
    let (r, e, s) =
      sweep-Sweeps (suc (length (ladder h b).prices)) h b.symbol taker (ladder h b).prices
        (ladder h b).nodes b.orders (v.side h).valid (omega (arith, tk.part, tk.range))
        (omega arith) in
    (finish_match h b r, unfold match_half in rw e refl, finish_match-Matches h taker b v tk r s)

match_order-half :
    (h : Half) (taker : Order) (b : OrderBook)
    → taker.side ≡ taker_side h
    → match_order taker b ≡ match_half h taker b
match_order-half bid taker b e = unfold match_order match_side in ap (λ s. match_side s taker b) e
match_order-half ask taker b e = unfold match_order match_side in ap (λ s. match_side s taker b) e

-- For a buyer among the asks and a seller among the bids: on a valid book `Match` returns, its
-- trades are those of a taking from the other side's queue, the taker keeps what the taking leaves
-- and has the status that goes with it, the queue is what the taking leaves, the taker's own side is
-- untouched, and the book is valid.
pub match_order-Matches :
    (h : Half) (taker : Order) (b : OrderBook)
    → IsBook b
    → IsTaker taker
    → taker.side ≡ taker_side h
    → (m : Matched) × (match_order taker b ≡ some m) × Matches h taker b m
match_order-Matches h taker b v tk e =
    let (m, em, s) = match_half-Matches h taker b v tk in (m, match_order-half h taker b e ∙ em, s)

-- Whatever `Match` returns on a valid book is that.
pub matched-Matches :
    (h : Half) (taker : Order) (b : OrderBook) {m : Matched}
    → IsBook b
    → IsTaker taker
    → taker.side ≡ taker_side h
    → match_order taker b ≡ some m
    → Matches h taker b m
matched-Matches h taker b v tk side e =
    let (m', e', s) = match_order-Matches h taker b v tk side in
    subst (Matches h taker b) (result_unique e' e) s

-- On a valid book a match moves quantity from the makers to the taker and loses none: what is traded
-- and what the taker still wants make up what it wanted, and what is traded and what rests
-- afterwards make up what rested.
pub match_order_conserves :
    (h : Half) (taker : Order) (b : OrderBook) (m : Matched)
    → IsBook b
    → IsTaker taker
    → taker.side ≡ taker_side h
    → match_order taker b ≡ some m
    → (m.taker.remaining + traded m.trades ≡ taker.remaining)
      × (total (book_queue h m.book) + traded m.trades ≡ total (book_queue h b))
match_order_conserves h taker b m v tk side e =
    let s = matched-Matches h taker b v tk side e in
    let want =
      left-add-traded b.symbol taker.timestamp (accepts h taker) taker.remaining (book_queue h b) in
    let rest =
      total_rest-add-traded b.symbol taker.timestamp (accepts h taker) taker.remaining
        (book_queue h b) in
    rw (s.trades, s.taker, s.makers) (want, rest)
