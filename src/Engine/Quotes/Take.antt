-- ===== src/Engine/Quotes/Take.antt =====
-- pkg/engine/engine.go, `handleNewOrder` of an order that takes and never rests, in a book whose orders
-- keep to their side of a price.
use oktrading.Prelude.{
  ℕ, ◌-◌, ◌≤◌, ◌≡◌, ◌⊎◌, inl, inr, refl, ap, ◌∙◌, Bool, true, false, List, [], ◌∷◌, String, Option,
  some, none, arith, All, if◌then◌else◌, contains,
}
use oktrading.Types.{Order, market, ioc}
use oktrading.OrderBook.Book.{Half, other}
use oktrading.OrderBook.Invariant.{book_queue, half_cases}
use oktrading.OrderBook.Match.{Matched, match_order}
use oktrading.OrderBook.Match.Spec.{total, take_queue}
use oktrading.OrderBook.Match.Queue.{total_rest-add-traded}
use oktrading.OrderBook.Match.Ids.{ids, forget_lem}
use oktrading.OrderBook.Match.Sweep.{accepts}
use oktrading.OrderBook.Match.Refine.{IsTaker, Matches, taking, taker_side, match_order-Matches}
use oktrading.Engine.{
  Engine, emit_trades, cancel_or_finish, cancel_residual, finish, sweep_then, new_order,
}
use oktrading.Engine.Keeps.{book-emit_trades, sweep_then-eq}
use oktrading.Engine.Quotes.{IsAway, IsCalm}

-- An order that faces the half `h` and never rests.
pub record IsTaking (h : Half) (o : Order) : Type 0 where
  pub type : (o.type ≡ market) ⊎ (o.type ≡ ioc)
  pub its_side : o.side ≡ taker_side h
  pub taker : IsTaker o

module _ (symbol : String) (timestamp : ℕ) (accept : ℕ → Bool) (P : ℕ → Type 0) where
  take_queue-prices :
      (want : ℕ) (os : List Order)
      → All (λ (x : Order). P x.price) os
      → All (λ (x : Order). P x.price) (take_queue symbol timestamp accept want os).rest
  unfolding take_queue
  take_queue-prices want [] v = tt
  take_queue-prices want (m ∷ os) v =
      ground (arith, v.0, v.1, take_queue-prices (want - m.remaining) os v.1)

dropped : {A : Type 0} {r : Option A} (c : Bool) → r ≡ none → (if c then none else r) ≡ none
dropped true e = refl
dropped false e = e

-- What an engine does with such an order.
pub record Takes (mid : ℕ) (e e' : Engine) : Type 0 where
  pub calm : IsCalm mid e'.book
  pub index : (id : ℕ) → e.book.orders id ≡ none → e'.book.orders id ≡ none
  pub grown : (h : Half) → total (book_queue h e'.book) ≤ total (book_queue h e.book)

module _ (mid : ℕ) (h : Half) (o : Order) (e : Engine) (c : IsCalm mid e.book) (t : IsTaking h o)
    (m : Matched) (em : match_order o e.book ≡ some m) (s : Matches h o e.book m) where
  facing-IsAway : All (λ (x : Order). IsAway mid h x.price) (book_queue h m.book)
  facing-IsAway = rw s.makers (
      take_queue-prices e.book.symbol o.timestamp (accepts h o) (IsAway mid h) o.remaining
        (book_queue h e.book) (c.away h))

  matched-IsCalm : IsCalm mid m.book
  matched-IsCalm = record {
    book = s.valid;
    away =
        half_cases (λ k. All (λ (x : Order). IsAway mid k x.price) (book_queue k m.book)) h
          facing-IsAway (rw s.others (c.away (other h)));
  }

  fewer : (k : Half) → total (book_queue k m.book) ≤ total (book_queue k e.book)
  fewer =
      half_cases (λ k. total (book_queue k m.book) ≤ total (book_queue k e.book)) h
        (rw s.makers (
          omega (
            arith,
            total_rest-add-traded e.book.symbol o.timestamp (accepts h o) o.remaining
                (book_queue h e.book),
          )))
        (rw s.others (omega arith))

  none_stays : (id : ℕ) → e.book.orders id ≡ none → m.book.orders id ≡ none
  none_stays id out =
      rw (s.index, forget_lem e.book.orders (taking h o e.book).used id)
        (dropped (contains id (ids (taking h o e.book).used)) out)

  matched-Takes : (f : Engine) → f.book ≡ m.book → Takes mid e f
  matched-Takes f same = record {
    calm = rw same matched-IsCalm;
    index = λ id out. rw same (none_stays id out);
    grown = λ k. rw same (fewer k);
  }

same_book : (x : Order) (f : Engine) → (cancel_or_finish x f).book ≡ f.book
unfolding cancel_or_finish cancel_residual finish
same_book x f = ground arith

both_types :
    (o : Order) (e : Engine)
    → (o.type ≡ market) ⊎ (o.type ≡ ioc)
    → new_order o.type o e ≡ sweep_then cancel_or_finish o e
unfolding new_order
both_types o e (inl t) = ap (λ x. new_order x o e) t
both_types o e (inr t) = ap (λ x. new_order x o e) t

pub taking-Takes :
    (mid : ℕ) (h : Half) (o : Order) (e : Engine)
    → IsCalm mid e.book
    → IsTaking h o
    → (e' : Engine) × (new_order o.type o e ≡ some e') × Takes mid e e'
taking-Takes mid h o e c t =
    let (m, em, s) = match_order-Matches h o e.book c.book t.taker t.its_side in
    let f = emit_trades m.taker m.trades (record e { book = m.book }) in
    (
      cancel_or_finish m.taker f,
      both_types o e t.type ∙ sweep_then-eq cancel_or_finish o e em,
      matched-Takes mid h o e c t m em s (cancel_or_finish m.taker f)
          (same_book m.taker f ∙ book-emit_trades m.taker m.trades (record e { book = m.book })),
    )
