-- ===== src/Engine/Gives/Frees.antt =====
-- pkg/engine/engine.go: what a command gives back to the pool, and the book that it leaves.
use oktrading.Prelude.{
  ◌≡◌, refl, ap, ◌∙◌, false, Option, none, some, List, [], ◌∷◌, ◌++◌, All-append, append-nil,
  String, contains, Distinct, Bool-cases, inl, inr,
}
use oktrading.Int64.{slt}
use oktrading.Types.{Order, Side, buy, sell, other_side}
use oktrading.OrderBook.Book.{Half, OrderBook}
use oktrading.OrderBook.Invariant.{IsBook}
use oktrading.OrderBook.Match.{Matched}
use oktrading.OrderBook.Match.Spec.{forget}
use oktrading.OrderBook.Match.Ids.{ids, ids-append, forget_lem}
use oktrading.OrderBook.Match.Refine.{Matches, taking}
use oktrading.OrderBook.Match.Sweep.{accepts}
use oktrading.OrderBook.Rest.{add_order, add_side, add_half}
use oktrading.Engine.{
  Engine, Put, emit_trades, finish, accept, reject, cancel_residual, rest_or_finish,
  cancel_or_finish,
}
use oktrading.Engine.Keeps.{IsAdmissible, book-emit_trades}
use oktrading.Engine.Gives.{
  given_back, Gives, Gives-then, Gives-as, emit_trades-Gives, finish-Gives, accept-Gives,
  reject-Gives, cancel_residual-Gives,
}
use oktrading.Engine.Gives.Used.{
  AllGone, filled_makers-take_queue, AllGone-forget, Distinct-append_one, AllGone-update,
  used-Distinct, used_fresh,
}

-- The orders given back between the two states: the book does not hold them, and they are all different.
pub record Frees (e e' : Engine) : Type 0 where
  pub puts : List Put
  pub logged : e'.pool ≡ e.pool ++ puts
  pub gone : AllGone e'.book.orders (given_back puts)
  pub once : Distinct (ids (given_back puts))

pub Frees-of :
    {e e' : Engine} {os : List Order}
    → Gives e os e'
    → AllGone e'.book.orders os
    → Distinct (ids os)
    → Frees e e'
Frees-of {e} {e'} g gone once = record {
  puts = g.puts;
  logged = g.logged;
  gone = rw g.orders gone;
  once = rw g.orders once;
}

-- What a handler returns, if it returns, frees what it gives back.
abbrev pub MayFree : Engine → Option Engine → Type 0
MayFree e none = Unit
MayFree e (some e') = Frees e e'

-- A resting order is another entry of the index, or none.
add_side-AllGone :
    (s : Side) (x : Order) (b : OrderBook) (os : List Order)
    → contains x.order_id (ids os) ≡ false
    → AllGone b.orders os
    → AllGone (add_side s x b).orders os
unfolding add_side add_half
add_side-AllGone buy x b os out g = AllGone-update b.orders _ x.order_id os out g
add_side-AllGone sell x b os out g = AllGone-update b.orders _ x.order_id os out g
add_side-AllGone (other_side c) x b os out g = g

accept-AllGone :
    (x : Order) (f : Engine) (os : List Order)
    → contains x.order_id (ids os) ≡ false
    → AllGone f.book.orders os
    → AllGone (accept x f).book.orders os
unfolding accept add_order
accept-AllGone x f os out g = add_side-AllGone x.side _ f.book os out g

-- An order that the book does not hold, where the branch does not match it.
module _ (x : Order) (e : Engine) (fresh : e.book.orders x.order_id ≡ none) where
  pub reject-Frees : (reason : String) → Frees e (reject reason x e)
  reject-Frees reason = Frees-of (reject-Gives reason x e) (unfold reject in (fresh, tt)) (refl, tt)

  pub accept-Frees : Frees e (accept x e)
  accept-Frees = Frees-of (accept-Gives x e) tt tt

module _ (h : Half) (o : Order) (e : Engine) (v : IsBook e.book) (a : IsAdmissible h o e.book)
    (m : Matched) (s : Matches h o e.book m) where
  abbrev used : List Order
  used = (taking h o e.book).used

  abbrev pub matched : Engine
  matched = emit_trades m.taker m.trades (record e { book = m.book })

  -- The engine's log does not depend on its book.
  started_at :
      {os : List Order} {f : Engine} → Gives (record e { book = m.book }) os f → Gives e os f
  started_at g = record { puts = g.puts; logged = g.logged; orders = g.orders }

  matched-Gives : Gives e used matched
  matched-Gives = started_at (
      Gives-as
        (rw s.trades
          (filled_makers-take_queue e.book.symbol o.timestamp (accepts h o) o.remaining _))
        (emit_trades-Gives m.taker m.trades (record e { book = m.book })))

  matched-index : matched.book.orders ≡ forget e.book.orders used
  matched-index =
      ap (λ (b : OrderBook). b.orders)
        (book-emit_trades m.taker m.trades (record e { book = m.book }))
      ∙ s.index

  used_gone : AllGone matched.book.orders used
  used_gone = rw matched-index (AllGone-forget e.book.orders used)

  taker_apart : contains o.order_id (ids used) ≡ false
  taker_apart = used_fresh h o e.book v a.fresh

  taker_gone : matched.book.orders o.order_id ≡ none
  taker_gone = rw (matched-index, forget_lem e.book.orders used o.order_id, taker_apart) a.fresh

  -- The branch ends with the taker given back.
  ended :
      (x : Order) (f : Engine)
      → x.order_id ≡ o.order_id
      → Gives matched (x ∷ []) f
      → f.book ≡ matched.book
      → Frees e f
  ended x f id g same =
      Frees-of (Gives-then matched-Gives g)
        (rw same (
          All-append (λ (y : Order). matched.book.orders y.order_id ≡ none) used (x ∷ []) used_gone
            (rw id taker_gone, tt)))
        (rw (ids-append used (x ∷ []), id)
          (Distinct-append_one (ids used) o.order_id (used-Distinct h o e.book v) taker_apart))

  taker_id : m.taker.order_id ≡ o.order_id
  taker_id = ap (λ (x : Order). x.order_id) s.taker

  pub finished : Frees e (finish m.taker matched)
  finished =
      ended m.taker (finish m.taker matched) taker_id (finish-Gives m.taker matched)
        (unfold finish in refl)

  cancelled : Frees e (cancel_residual m.taker matched)
  cancelled =
      ended _ (cancel_residual m.taker matched) taker_id (cancel_residual-Gives m.taker matched)
        (unfold cancel_residual in refl)

  rested : Frees e (accept m.taker matched)
  rested =
      Frees-of
        (Gives-as (append-nil used) (Gives-then matched-Gives (accept-Gives m.taker matched)))
        (accept-AllGone m.taker matched used (rw taker_id taker_apart) used_gone)
        (used-Distinct h o e.book v)

  pub rest_or_finish-Frees : Frees e (rest_or_finish m.taker matched)
  unfolding rest_or_finish
  rest_or_finish-Frees = elim (Bool-cases (slt 0 m.taker.remaining)) [
    | inl left ↦ rw (rest_or_finish, left) rested
    | inr done ↦ rw (rest_or_finish, done) finished
  ]

  pub cancel_or_finish-Frees : Frees e (cancel_or_finish m.taker matched)
  unfolding cancel_or_finish
  cancel_or_finish-Frees = elim (Bool-cases (slt 0 m.taker.remaining)) [
    | inl left ↦ rw (cancel_or_finish, left) cancelled
    | inr done ↦ rw (cancel_or_finish, done) finished
  ]
