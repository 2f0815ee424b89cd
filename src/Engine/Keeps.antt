-- ===== src/Engine/Keeps.antt =====
-- pkg/engine/engine.go: what an admissible order is, and the remainder of a limit order after its match.
use oktrading.Prelude.{
  ◌+◌, ◌≤◌, ◌<◌, ◌≡◌, ◌⊎◌, inl, inr, refl, ap, ◌∙◌, Bool, true, false, Option, none, some, List, [],
  ◌∷◌, arith, if◌then◌else◌, All, contains,
}
use oktrading.Int64.{IsNonneg}
use oktrading.Types.{Order, Trade, limit, market}
use oktrading.OrderBook.Book.{OrderLoc, Half, bid, ask, other, OrderBook, ladder}
use oktrading.OrderBook.Valid.{IsPrice, level}
use oktrading.OrderBook.Invariant.{IsBook, book_queue}
use oktrading.OrderBook.Match.{Matched, match_order}
use oktrading.OrderBook.Match.Spec.{total}
use oktrading.OrderBook.Match.Ids.{ids, forget_lem}
use oktrading.OrderBook.Match.Queue.{left-add-traded}
use oktrading.OrderBook.Match.Sweep.{accepts}
use oktrading.OrderBook.Match.Refine.{IsTaker, Matches, taking, taker_side}
use oktrading.OrderBook.Match.Limit.{Better, match_limit_lem}
use oktrading.OrderBook.Rest.Add.{IsRestable, add_order-Adds}
use oktrading.Engine.{Engine, emit_trade, emit_trades, accept, sweep_then}

-- What the gateway lets through, for a taker from the half `h`, and what the book must have room for.
pub record IsAdmissible (h : Half) (o : Order) (b : OrderBook) : Type 0 where
  pub taker : IsTaker o
  pub qty : 0 < o.remaining
  pub its_side : o.side ≡ taker_side h
  pub price : (o.type ≡ market) ⊎ IsPrice o.price
  pub fresh : b.orders o.order_id ≡ none
  pub room : IsNonneg (total (level ((ladder (other h) b).nodes o.price)) + o.remaining)

book-emit_trade : (taker : Order) (tr : Trade) (e : Engine) → (emit_trade taker tr e).book ≡ e.book
unfolding emit_trade
book-emit_trade taker tr e = ground arith

pub book-emit_trades :
    (taker : Order) (ts : List Trade) (e : Engine) → (emit_trades taker ts e).book ≡ e.book
unfolding emit_trades
book-emit_trades taker [] e = refl
book-emit_trades taker (tr ∷ ts) e =
    book-emit_trades taker ts (emit_trade taker tr e) ∙ book-emit_trade taker tr e

pub sweep_then-eq :
    (after : Order → Engine → Engine) (o : Order) (e : Engine) {m : Matched}
    → match_order o e.book ≡ some m
    → sweep_then after o e
      ≡ some (after m.taker (emit_trades m.taker m.trades (record e { book = m.book })))
unfolding sweep_then
sweep_then-eq after o e em = rw (sweep_then, em) refl

-- The conditions of `AddOrder`, from those of the two halves apart.
pub restable :
    (h : Half) (o : Order) (b : OrderBook)
    → o.side ≡ taker_side h
    → IsPrice o.price
    → 0 < o.remaining
    → b.orders o.order_id ≡ none
    → IsNonneg (total (level ((ladder (other h) b).nodes o.price)) + o.remaining)
    → All (λ (x : Order). Better h o.price x.price) (book_queue h b)
    → IsRestable (other h) o b
restable bid o b s p q f r a = record {
  its_side = s;
  price = p;
  qty = q;
  fresh = f;
  room = r;
  apart = a;
}
restable ask o b s p q f r a = record {
  its_side = s;
  price = p;
  qty = q;
  fresh = f;
  room = r;
  apart = a;
}

pub accept-IsBook :
    (h : Half) (o : Order) (e : Engine)
    → IsBook e.book
    → IsRestable h o e.book
    → IsBook (accept o e).book
unfolding accept
accept-IsBook h o e v r = (add_order-Adds h o e.book v r).valid

dropped : {r : Option OrderLoc} (c : Bool) → r ≡ none → (if c then none else r) ≡ none
dropped true e = refl
dropped false e = e

-- After the match, what is left of a limit order may rest.
module _ (h : Half) (o : Order) (b : OrderBook) (v : IsBook b) (a : IsAdmissible h o b)
    (type : o.type ≡ limit) (m : Matched) (em : match_order o b ≡ some m)
    (s : Matches h o b m) where
  remainder-le : m.taker.remaining ≤ o.remaining
  remainder-le = rw s.taker (
      omega
        (arith, left-add-traded b.symbol o.timestamp (accepts h o) o.remaining (book_queue h b)))

  id_kept : m.taker.order_id ≡ o.order_id
  id_kept = ap (λ (x : Order). x.order_id) s.taker

  price_kept : m.taker.price ≡ o.price
  price_kept = ap (λ (x : Order). x.price) s.taker

  still_fresh : m.book.orders m.taker.order_id ≡ none
  still_fresh =
      rw (id_kept, s.index, forget_lem b.orders (taking h o b).used o.order_id)
        (dropped (contains o.order_id (ids (taking h o b).used)) a.fresh)

  still_room :
      IsNonneg (total (level ((ladder (other h) m.book).nodes m.taker.price)) + m.taker.remaining)
  still_room = rw (price_kept, s.others) (omega (arith, remainder-le, a.room))

  now_apart :
      IsNonneg o.price
      → 0 < m.taker.remaining
      → All (λ (x : Order). Better h m.taker.price x.price) (book_queue h m.book)
  now_apart p q = elim ((match_limit_lem h o b m v a.taker a.its_side type p em).1) [
    | inl done ↦ absurd (omega (arith, done, q))
    | inr apart ↦ rw price_kept apart
  ]

  pub rest-IsRestable :
      IsPrice o.price → 0 < m.taker.remaining → IsRestable (other h) m.taker m.book
  rest-IsRestable p q =
      restable h m.taker m.book (ap (λ (x : Order). x.side) s.taker ∙ a.its_side) (rw price_kept p)
        q still_fresh still_room (now_apart p.1 q)
