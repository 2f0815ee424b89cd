-- ===== src/Engine/Fok.antt =====
-- pkg/engine/engine.go, the fill-or-kill branch of `handleNewOrder`.
pub mod Depth
use oktrading.Prelude.{
  ℕ, zero, suc, ◌+◌, ◌-◌, ◌≤◌, ◌<◌, ◌≡◌, refl, ap, Bool, true, false, Option, some, List, [], ◌∷◌,
  ◌++◌, arith, leb, ◌∙◌, ◌⊎◌, inl, inr, Bool-cases, length, take, All, String, leb→le,
}
use native.Mathlib.Nat.{le_trans}
use oktrading.Int64.{sub64_lem, sle_nonneg, IsNonneg}
use oktrading.Types.{
  Order, Trade, fok, PriceLevel, status_rejected, evt_order_rejected, evt_order_filled,
}
use oktrading.Offheap.{reason_event, order_event}
use oktrading.OrderBook.Book.{Half, bid, ask, PriceNode, OrderBook, ladder}
use oktrading.OrderBook.Valid.{IsLevel, queue, level}
use oktrading.OrderBook.Invariant.{IsBook, book_queue}
use oktrading.OrderBook.Match.{is_limit, match_order, Matched}
use oktrading.OrderBook.Match.Spec.{total, traded, take_queue}
use oktrading.OrderBook.Match.Queue.{total-append, left-add-traded}
use oktrading.OrderBook.Match.Sweep.{accepts}
use oktrading.OrderBook.Match.Refine.{IsTaker, taker_side, match_order-Matches}
use oktrading.OrderBook.Rest.{levels, snapshot}
use oktrading.Engine.Keeps.{book-emit_trades}
use oktrading.Engine.{
  fills, can_fill_side, can_fill_completely, fok_depth, Engine, new_order, finish, emit_trades,
  reject, sweep_then, emit_trade, order_put,
}
use oktrading.Engine.Fok.Depth.{
  within_depth, total-take-le, take_queue_all, can_fill_completely_lem,
}

accepts_any : (h : Half) (o : Order) (p : ℕ) → is_limit o.type ≡ false → accepts h o p ≡ true
accepts_any h o p e = rw e refl

fok_passes :
    (o : Order) (e : Engine) (m : Matched)
    → can_fill_completely o e.book ≡ some true
    → match_order o e.book ≡ some m
    → new_order fok o e
      ≡ some (finish m.taker (emit_trades m.taker m.trades (record e { book = m.book })))
unfolding new_order sweep_then
fok_passes o e m check em = rw (new_order, check, sweep_then, em) refl

fok_fails :
    (o : Order) (e : Engine)
    → can_fill_completely o e.book ≡ some false
    → new_order fok o e ≡ some (reject "insufficient liquidity for FOK" o e)
unfolding new_order
fok_fails o e check = rw (new_order, check) refl

emit_trades-seq :
    (taker : Order) (ts : List Trade) (e : Engine)
    → (emit_trades taker ts e).local_seq ≡ e.local_seq
unfolding emit_trades emit_trade
emit_trades-seq taker [] e = refl
emit_trades-seq taker (t ∷ ts) e = emit_trades-seq taker ts (emit_trade taker t e) ∙ ground arith

-- The order was killed: it is given back as rejected, with one event that says so and why, and there is
-- no trade.
pub record Killed (o : Order) (e e' : Engine) : Type 0 where
  pub same_book : e'.book ≡ e.book
  pub no_trade : e'.trade_seq ≡ e.trade_seq
  pub event :
      e'.outbound
      ≡ e.outbound
        ++ (reason_event evt_order_rejected e.local_seq
              (some (record o { status = status_rejected }))
              "insufficient liquidity for FOK"
            ∷ [])
  pub given_back : e'.pool ≡ e.pool ++ (order_put (record o { status = status_rejected }) ∷ [])

-- The order was filled: behind the trades of the match stands one event that says so, and the order is
-- given back as the match left it.
pub record FilledBy (m : Matched) (e e' : Engine) : Type 0 where
  pub traded_book : e'.book ≡ m.book
  pub event :
      e'.outbound
      ≡ (emit_trades m.taker m.trades (record e { book = m.book })).outbound
        ++ (order_event evt_order_filled e.local_seq (some m.taker) ∷ [])
  pub given_back :
      e'.pool
      ≡ (emit_trades m.taker m.trades (record e { book = m.book })).pool ++ (order_put m.taker ∷ [])

finish-FilledBy :
    (m : Matched) (e : Engine)
    → FilledBy m e (finish m.taker (emit_trades m.taker m.trades (record e { book = m.book })))
unfolding finish
finish-FilledBy m e = record {
  traded_book = book-emit_trades m.taker m.trades (record e { book = m.book });
  event =
      ap
        (λ seq.
          (emit_trades m.taker m.trades (record e { book = m.book })).outbound
          ++ (order_event evt_order_filled seq (some m.taker) ∷ []))
        (emit_trades-seq m.taker m.trades (record e { book = m.book }));
  given_back = refl;
}

reject-Killed : (o : Order) (e : Engine) → Killed o e (reject "insufficient liquidity for FOK" o e)
unfolding reject
reject-Killed o e = record { same_book = refl; no_trade = refl; event = refl; given_back = refl }

-- A fill-or-kill order is filled or killed, whatever its limit price. On a valid book, if the first 4096
-- levels of the other side hold what it wants, the match fills it completely, and behind the events of
-- the trades stands one that reports it filled; if they do not, one event rejects it for insufficient
-- liquidity, and neither the book nor the count of trades changes. Either way the order is given back
-- to the pool.
pub fok_fills_or_kills :
    (h : Half) (o : Order) (e : Engine)
    → IsBook e.book
    → IsTaker o
    → o.side ≡ taker_side h
    → o.type ≡ fok
    → ((o.remaining ≤ within_depth h e.book)
        × ((m : Matched) × (match_order o e.book ≡ some m)
            × (m.taker.remaining ≡ 0)
            × (traded m.trades ≡ o.remaining)
            × (new_order fok o e
                ≡ some (finish m.taker (emit_trades m.taker m.trades (record e { book = m.book }))))
            × FilledBy m e
                (finish m.taker (emit_trades m.taker m.trades (record e { book = m.book })))))
      ⊎ ((within_depth h e.book < o.remaining)
          × ((e' : Engine) × (new_order fok o e ≡ some e') × Killed o e e'))
fok_fills_or_kills h o e v tk side type =
    let nolimit : is_limit o.type ≡ false = ap is_limit type in
    let check = can_fill_completely_lem h o e.book v tk side nolimit in
    elim (Bool-cases (leb o.remaining (within_depth h e.book))) [
      | inl enough ↦
          let (m, em, s) = match_order-Matches h o e.book v tk side in
          let all =
            take_queue_all e.book.symbol o.timestamp (accepts h o) o.remaining (book_queue h e.book)
              (λ p. accepts_any h o p nolimit)
              (le_trans (leb→le _ _ enough)
                (total-take-le fok_depth (ladder h e.book).prices (ladder h e.book).nodes)) in
          let sum =
            left-add-traded e.book.symbol o.timestamp (accepts h o) o.remaining
              (book_queue h e.book) in
          inl (
            ground (arith, enough),
            (
              m,
              em,
              rw (s.taker) all,
              rw (s.trades) (omega (arith, all, sum)),
              fok_passes o e m (check ∙ ap some enough) em,
              finish-FilledBy m e,
            ),
          )
      | inr short ↦ inr (
        ground (arith, short),
        (
          reject "insufficient liquidity for FOK" o e,
          fok_fails o e (check ∙ ap some short),
          reject-Killed o e,
        ),
      )
    ]
