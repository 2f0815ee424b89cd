-- ===== src/Engine/Quotes/Session.antt =====
-- pkg/engine/engine.go, `process` and `run` of commands that place quotes.
use oktrading.Prelude.{
  ℕ, ◌+◌, ◌≤◌, ◌≡◌, ◌≢◌, refl, ap, sym, ◌∙◌, false, List, [], ◌∷◌, ◌++◌, map, append_assoc,
  append-nil, Option, some, none, arith, All, Distinct, contains, Bool-cases, inl, inr, ◌==◌,
  ==_iff,
}
use oktrading.Int64.{IsNonneg, add64}
use oktrading.Offheap.{RawEvent, order_event}
use oktrading.Types.{Order, Command, cmd_new_order, limit, evt_order_accepted, event_code}
use oktrading.OrderBook.Book.{Half, other, ladder, PriceNode, OrderLoc}
use oktrading.OrderBook.Valid.{level, queue}
use oktrading.OrderBook.Invariant.{book_queue}
use oktrading.OrderBook.Match.Spec.{total}
use oktrading.OrderBook.Match.Queue.{total-append}
use oktrading.Engine.{
  Engine, put, command_put, stamp, new_order, handle_new_order, dispatch, process, run,
}
use oktrading.Engine.Log.{numbered}
use oktrading.Engine.Quotes.{IsQuote, IsCalm}
use oktrading.Engine.Quotes.Rest.{Rests, quote-Rests}

-- The command of a new order.
abbrev pub command_of : Order → Command
command_of o = record {
  type = cmd_new_order;
  order = some o;
  cancel_id = 0;
  user_id = 0;
  sequence_no = 0;
}

level_le :
    (p : ℕ) (ps : List ℕ) (nodes : ℕ → Option PriceNode)
    → (contains p ps ≡ false → nodes p ≡ none)
    → total (level (nodes p)) ≤ total (queue ps nodes)
unfolding total
level_le p [] nodes out = rw (out refl) (omega arith)
level_le p (q ∷ ps) nodes out = elim (Bool-cases (p == q)) [
  | inl same ↦
      rw ((==_iff p q).0 same) (omega (arith, total-append (level (nodes q)) (queue ps nodes)))
  | inr ne ↦ omega (
    arith,
    level_le p ps nodes (λ e. out (ground (arith, ne, e))),
    total-append (level (nodes q)) (queue ps nodes),
  )
]

module _ (mid now : ℕ) (h : Half) (o : Order) (e : Engine) (c : IsCalm mid e.book)
    (q : IsQuote mid h o) (fresh : e.book.orders o.order_id ≡ none)
    (room : IsNonneg (total (book_queue (other h) e.book) + o.remaining)) where
  abbrev stamped : Order
  stamped = stamp now (add64 e.local_seq 1) o

  stamped-IsQuote : IsQuote mid h stamped
  stamped-IsQuote = record {
    type = q.type;
    its_side = q.its_side;
    away = q.away;
    qty = q.qty;
    part = q.part;
    range = q.range;
  }

  at_level : IsNonneg (total (level ((ladder (other h) e.book).nodes o.price)) + o.remaining)
  at_level = omega (
    arith,
    room,
    level_le o.price (ladder (other h) e.book).prices (ladder (other h) e.book).nodes
        ((c.book.side (other h)).valid.only o.price),
  )

  handled :
      (e' : Engine) × (new_order limit stamped (numbered e) ≡ some e')
      × Rests mid stamped (numbered e) e'
  handled = quote-Rests mid h stamped (numbered e) c stamped-IsQuote fresh at_level

  pub process_quote :
      (e' : Engine) × (process now (command_of o) e ≡ some e') × Rests mid stamped (numbered e) e'
  unfolding process dispatch handle_new_order
  process_quote =
      let (f, eq, r) = handled in
      (
        put
            (command_put
              (record (command_of o) { order = none; sequence_no = add64 e.local_seq 1 }))
            f,
        rw (process, ap (λ t. new_order t stamped (numbered e)) q.type ∙ eq) refl,
        record {
          calm = r.calm;
          opened = r.opened;
          same_id = r.same_id;
          event = r.event;
          no_trade = r.no_trade;
          index = r.index;
          grown = r.grown;
        },
      )

-- The ids and the quantities of the orders, each with the clock's reading when it is handled.
abbrev pub order_ids : List (ℕ × Order) → List ℕ
order_ids qs = map (λ (q : ℕ × Order). q.1.order_id) qs

unfoldable pub wanted : List (ℕ × Order) → ℕ
wanted [] = 0
wanted (q ∷ qs) = q.1.remaining + wanted qs

abbrev pub commands : List (ℕ × Order) → List (ℕ × Command)
commands qs = map (λ (q : ℕ × Order). (q.0, command_of q.1)) qs

-- The events accept these orders, one by one.
abbrev pub Accepts : List (ℕ × Order) → List RawEvent → Type 0
Accepts qs evts =
    All (λ (v : RawEvent). v.evt_type ≡ event_code evt_order_accepted) evts
    × (map (λ (v : RawEvent). v.order_id) evts ≡ order_ids qs)

-- What an engine does with quotes.
pub record RestsAll (mid : ℕ) (qs : List (ℕ × Order)) (e e' : Engine) : Type 0 where
  pub calm : IsCalm mid e'.book
  pub events : List RawEvent
  pub logged : e'.outbound ≡ e.outbound ++ events
  pub accepts : Accepts qs events
  pub no_trade : e'.trade_seq ≡ e.trade_seq
  pub index :
      (id : ℕ)
      → contains id (order_ids qs) ≡ false
      → e.book.orders id ≡ none
      → e'.book.orders id ≡ none
  pub grown : (h : Half) → total (book_queue h e'.book) ≤ wanted qs + total (book_queue h e.book)

Accepts_cons :
    (q : ℕ × Order) (qs : List (ℕ × Order)) (opened : Order) (seq : ℕ) (evts : List RawEvent)
    → opened.order_id ≡ q.1.order_id
    → Accepts qs evts
    → Accepts (q ∷ qs) (order_event evt_order_accepted seq (some opened) ∷ evts)
unfolding order_event
Accepts_cons q qs opened seq evts same a = (
  (refl, a.0),
  ap (λ id. id ∷ map (λ (v : RawEvent). v.order_id) evts) same
      ∙ ap (λ rest. q.1.order_id ∷ rest) a.1,
)

pub still_fresh :
    (index index' : ℕ → Option OrderLoc) (id : ℕ) (qs : List (ℕ × Order))
    → ((x : ℕ) → id ≢ x → index x ≡ none → index' x ≡ none)
    → contains id (order_ids qs) ≡ false
    → All (λ (q : ℕ × Order). index q.1.order_id ≡ none) qs
    → All (λ (q : ℕ × Order). index' q.1.order_id ≡ none) qs
still_fresh index index' id [] same out v = tt
still_fresh index index' id (q ∷ qs) same out v = (
  same q.1.order_id (λ e. ground (arith, e, out)) v.0,
  still_fresh index index' id qs same (ground (arith, out)) v.1,
)

abbrev IsQuoted : ℕ → ℕ × Order → Type 0
IsQuoted mid q = (h : Half) × IsQuote mid h q.1

pub run_quotes :
    (mid : ℕ) (qs : List (ℕ × Order)) (e : Engine)
    → IsCalm mid e.book
    → All (λ (q : ℕ × Order). (h : Half) × IsQuote mid h q.1) qs
    → Distinct (order_ids qs)
    → All (λ (q : ℕ × Order). e.book.orders q.1.order_id ≡ none) qs
    → ((h : Half) → IsNonneg (total (book_queue h e.book) + wanted qs))
    → (e' : Engine) × (run (commands qs) e ≡ some e') × RestsAll mid qs e e'
unfolding run wanted
run_quotes mid [] e c v d fresh room = (
  e,
  refl,
  record {
    calm = c;
    events = [];
    logged = sym (append-nil e.outbound);
    accepts = (tt, refl);
    no_trade = refl;
    index = λ id out unknown. unknown;
    grown = λ h. omega arith;
  },
)
run_quotes mid (q ∷ qs) e c ((h, vq), v) d fresh room =
    let (e1, eq1, r1) =
      process_quote mid q.0 h q.1 e c vq fresh.0 (omega (arith, room (other h))) in
    let (e2, eq2, r2) =
      run_quotes mid qs e1 r1.calm v d.1
        (still_fresh e.book.orders e1.book.orders q.1.order_id qs (λ x ne out. r1.index x ne ∙ out)
          d.0 fresh.1)
        (λ k. omega (arith, room k, r1.grown k)) in
    (
      e2,
      rw (run, eq1) eq2,
      record {
        calm = r2.calm;
        events = order_event evt_order_accepted (add64 e.local_seq 1) (some r1.opened) ∷ r2.events;
        logged =
            r2.logged ∙ ap (λ l. l ++ r2.events) r1.event ∙ append_assoc e.outbound _ r2.events;
        accepts = Accepts_cons q qs r1.opened (add64 e.local_seq 1) r2.events r1.same_id r2.accepts;
        no_trade = r2.no_trade ∙ r1.no_trade;
        index = λ id out unknown.
            r2.index id (ground (arith, out)) (r1.index id (λ e. ground (arith, e, out)) ∙ unknown);
        grown = λ k. omega (arith, r1.grown k, r2.grown k);
      },
    )
