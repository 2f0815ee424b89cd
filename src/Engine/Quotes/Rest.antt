-- ===== src/Engine/Quotes/Rest.antt =====
-- pkg/engine/engine.go, `handleNewOrder` of a limit order that finds nothing to take.
use oktrading.Prelude.{
  inr, ℕ, ◌+◌, ◌≤◌, ◌≡◌, ◌≢◌, refl, ap, sym, subst, ◌∙◌, true, List, [], ◌∷◌, ◌++◌, some, none,
  arith, All,
}
use oktrading.Prelude.Maps.{update_ne}
use oktrading.Int64.{IsNonneg, slt, slt_nonneg}
use oktrading.Offheap.{order_event}
use oktrading.Types.{Order, limit, status_open, evt_order_accepted}
use oktrading.OrderBook.Book.{Half, other, OrderBook, ladder}
use oktrading.OrderBook.Valid.{level}
use oktrading.OrderBook.Invariant.{book_queue, ladder_queue, half_cases}
use oktrading.OrderBook.Match.{Matched, match_order}
use oktrading.OrderBook.Match.Spec.{total, Taken, forget}
use oktrading.OrderBook.Match.Refine.{Matches, taking, match_order-Matches}
use oktrading.OrderBook.Rest.{add_order}
use oktrading.OrderBook.Rest.Add.{Adds, add_order-Adds}
use oktrading.OrderBook.Rest.Enqueue.{enqueue, All-enqueue}
use oktrading.Engine.{Engine, emit_trades, accept, rest_or_finish, new_order}
use oktrading.Engine.Keeps.{IsAdmissible, sweep_then-eq, rest-IsRestable}
use oktrading.Engine.Quotes.{
  IsAway, IsAway-IsPrice, IsQuote, IsCalm, quote_takes_none, total-enqueue, other-other,
}

-- From the one state to the other the engine has accepted the quote, without a trade.
pub record Rests (mid : ℕ) (o : Order) (e e' : Engine) : Type 0 where
  pub calm : IsCalm mid e'.book
  pub opened : Order
  pub same_id : opened.order_id ≡ o.order_id
  pub event :
      e'.outbound ≡ e.outbound ++ (order_event evt_order_accepted e.local_seq (some opened) ∷ [])
  pub no_trade : e'.trade_seq ≡ e.trade_seq
  pub index : (id : ℕ) → o.order_id ≢ id → e'.book.orders id ≡ e.book.orders id
  pub grown : (h : Half) → total (book_queue h e'.book) ≤ o.remaining + total (book_queue h e.book)

module _ (mid : ℕ) (h : Half) (o : Order) (e : Engine) (c : IsCalm mid e.book) (q : IsQuote mid h o)
    (fresh : e.book.orders o.order_id ≡ none)
    (room : IsNonneg (total (level ((ladder (other h) e.book).nodes o.price)) + o.remaining)) where
  admissible : IsAdmissible h o e.book
  admissible = record {
    taker = record { part = q.part; range = q.range };
    qty = q.qty;
    its_side = q.its_side;
    price = inr (IsAway-IsPrice mid (other h) o.price q.away);
    fresh = fresh;
    room = room;
  }

  nothing :
      taking h o e.book
      ≡ record { trades = []; left = o.remaining; used = []; rest = book_queue h e.book }
  nothing = quote_takes_none mid h o e.book c q

  module _ (m : Matched) (em : match_order o e.book ≡ some m) (s : Matches h o e.book m) where
    abbrev matched : Engine
    matched = record e { book = m.book }

    left_all : m.taker.remaining ≡ o.remaining
    left_all = ap (λ (x : Order). x.remaining) s.taker ∙ ap (λ (t : Taken). t.left) nothing

    taker_id : m.taker.order_id ≡ o.order_id
    taker_id = ap (λ (x : Order). x.order_id) s.taker

    taker_price : m.taker.price ≡ o.price
    taker_price = ap (λ (x : Order). x.price) s.taker

    no_trades : m.trades ≡ []
    no_trades = s.trades ∙ ap (λ (t : Taken). t.trades) nothing

    same_index : m.book.orders ≡ e.book.orders
    same_index =
        s.index ∙ ap (λ (t : Taken). forget e.book.orders t.used) nothing ∙ unfold forget in refl

    facing : book_queue h m.book ≡ book_queue h e.book
    facing = s.makers ∙ ap (λ (t : Taken). t.rest) nothing

    own : book_queue (other h) m.book ≡ book_queue (other h) e.book
    own = ap ladder_queue s.others

    wants : slt 0 m.taker.remaining ≡ true
    wants = ground (arith, slt_nonneg 0 m.taker.remaining, left_all, q.qty, q.part, q.range)

    untraded : emit_trades m.taker m.trades matched ≡ matched
    unfolding emit_trades
    untraded = ap (λ ts. emit_trades m.taker ts matched) no_trades

    accepted : new_order limit o e ≡ some (accept m.taker matched)
    unfolding new_order rest_or_finish
    accepted =
        sweep_then-eq rest_or_finish o e em
        ∙ ap (λ f. some (rest_or_finish m.taker f)) untraded
        ∙ rw (rest_or_finish, wants) refl

    adds : Adds (other h) m.taker m.book (add_order m.taker m.book)
    adds = add_order-Adds (other h) m.taker m.book s.valid (
        rest-IsRestable h o e.book c.book admissible q.type m em s
          (IsAway-IsPrice mid (other h) o.price q.away) (omega (arith, left_all, q.qty)))

    -- The book behind `AddOrder`.
    abbrev added : OrderBook
    added = (add_order m.taker m.book).1

    own_queue :
        (P : List Order → Type 0)
        → P (
            enqueue
              (other h)
              (record (m.taker) { status = status_open })
              (book_queue (other h) e.book))
        → P (book_queue (other h) added)
    own_queue P p = rw (adds.joined, own) p

    facing_queue : book_queue h added ≡ book_queue h e.book
    facing_queue =
        subst (λ k. ladder k added ≡ ladder k m.book → book_queue h added ≡ book_queue h e.book)
          (sym (other-other h)) (λ same. ap ladder_queue same ∙ facing) adds.others

    added-IsCalm : IsCalm mid added
    added-IsCalm = record {
      book = adds.valid;
      away =
          half_cases (λ k. All (λ (x : Order). IsAway mid k x.price) (book_queue k added)) h
            (rw facing_queue (c.away h))
            (own_queue (All (λ (x : Order). IsAway mid (other h) x.price)) (
              All-enqueue (other h) (record (m.taker) { status = status_open })
                (λ x. IsAway mid (other h) x.price) (book_queue (other h) e.book)
                (rw taker_price q.away) (c.away (other h))));
    }

    added-total :
        (k : Half) → total (book_queue k added) ≤ o.remaining + total (book_queue k e.book)
    added-total =
        half_cases (λ k. total (book_queue k added) ≤ o.remaining + total (book_queue k e.book)) h
          (rw facing_queue (omega arith))
          (own_queue (λ os. total os ≤ o.remaining + total (book_queue (other h) e.book))
            (omega (
              arith,
              left_all,
              total-enqueue (other h) (record (m.taker) { status = status_open })
                  (book_queue (other h) e.book),
            )))

    elsewhere : (id : ℕ) → o.order_id ≢ id → added.orders id ≡ e.book.orders id
    elsewhere id ne =
        ap (λ i. i id) adds.index
        ∙ update_ne m.book.orders _ (λ eq. ne (sym taker_id ∙ eq))
        ∙ ap (λ i. i id) same_index

    accept-Rests : Rests mid o e (accept m.taker matched)
    unfolding accept
    accept-Rests = record {
      calm = added-IsCalm;
      opened = (add_order m.taker m.book).0;
      same_id = ap (λ (x : Order). x.order_id) adds.order ∙ taker_id;
      event = refl;
      no_trade = refl;
      index = elsewhere;
      grown = added-total;
    }

  pub quote-Rests : (e' : Engine) × (new_order limit o e ≡ some e') × Rests mid o e e'
  quote-Rests =
      let (m, em, s) = match_order-Matches h o e.book c.book admissible.taker q.its_side in
      (accept m.taker (matched m em s), accepted m em s, accept-Rests m em s)
