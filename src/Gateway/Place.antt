-- ===== src/Gateway/Place.antt =====
-- pkg/gateway/gateway.go, `PlaceOrder`, when it returns no error.
use oktrading.Prelude.{
  ℕ, ◌+◌, ◌/◌, ◌%◌, ◌^◌, ◌<◌, ◌≢◌, ◌⊎◌, [], arith, same_text, String, ◌≡◌, refl, sym, subst, Bool,
  true, false, Option, none, some, same_text_refl, if◌then◌else◌, ◌==◌, Bool-cases, Option-cases,
  inl, inr,
}
use oktrading.Int64.{add64, sub64, slt}
use oktrading.Types.{Order, Command, cmd_new_order}
use oktrading.Mpsc.{Ring, is_full, slot_of, try_submit}
use oktrading.Mpsc
use oktrading.Engine
use oktrading.OrderBook.Book
use oktrading.Shard.{Shard, Manager, new_shard, get_or_create, try_submit_to}
use oktrading.Gateway.{
  OrderError, Error, invalid_order, rate_limited, buffer_full, validate_order, Float64, Gateway,
  within_rate, dispatch_order, place_order,
}
use oktrading.Gateway.Orders.{IsValidOrder, validate_order-IsValidOrder}

-- The command that carries an order in.
abbrev pub new_order_command : Order → Command
new_order_command o = record {
  type = cmd_new_order;
  order = some o;
  cancel_id = 0;
  user_id = 0;
  sequence_no = 0;
}

-- The order as `PlaceOrder` stamps it.
abbrev pub stamped_order : ℕ → ℕ → Order → Order
stamped_order id stamped o = record o {
  order_id = id;
  timestamp = if o.timestamp == 0 then stamped else o.timestamp;
}

-- A ring that has accepted a command: it had room, and the command stands alone in the slot of the old
-- cursor, published for its lap; all other slots are as they were.
pub record Accepted (c : Command) (r r' : Ring) : Type 0 where
  pub room : sub64 r.cursor r.tail < r.mask + 1
  pub cursor : r'.cursor ≡ add64 r.cursor 1
  pub written :
      r'.slots (r.cursor % (r.mask + 1)) ≡ record { lap = r.cursor / 2 ^ r.log2; cmd = some c }
  pub others : (i : ℕ) → r.cursor % (r.mask + 1) ≢ i → r'.slots i ≡ r.slots i
  pub same_tail : r'.tail ≡ r.tail
  pub same_mask : r'.mask ≡ r.mask
  pub same_log2 : r'.log2 ≡ r.log2

-- A shard that was just made: no order rests, no command was processed, no event published, and the ring
-- is empty.
pub record IsFresh (symbol : String) (s : Shard) : Type 0 where
  pub symbol_of : s.engine.symbol ≡ symbol
  pub book_of : s.engine.book.symbol ≡ symbol
  pub no_orders : (id : ℕ) → s.engine.book.orders id ≡ none
  pub no_bids : s.engine.book.bids.prices ≡ []
  pub no_asks : s.engine.book.asks.prices ≡ []
  pub no_commands : s.engine.local_seq ≡ 0
  pub no_trades : s.engine.trade_seq ≡ 0
  pub no_events : s.engine.outbound ≡ []
  pub no_claims : s.inbound.cursor ≡ 0
  pub no_pops : s.inbound.tail ≡ 0
  pub nil_slots : (i : ℕ) → (s.inbound.slots i).cmd ≡ none

-- The engine of the symbol: the one that there was, or else a new one, which is counted.
abbrev pub Serves : String → Manager → Shard → ℕ → Type 0
Serves symbol m s count =
    ((m.engines symbol ≡ some s) × (count ≡ m.count))
    ⊎ ((m.engines symbol ≡ none) × IsFresh symbol s × (count ≡ add64 m.count 1))

-- The order was valid, its id is the next one, and the engine of its symbol, made if there was none, has
-- accepted the command with it; no other engine is touched.
pub record Placed {ℓ} {F : Type ℓ} {float : Float64 F} (stamped : ℕ) (o : Order) (seq : ℕ)
    (m : Manager) (r : Option Error × Order × Gateway float) : Type 0 where
  pub valid : IsValidOrder o
  pub order : r.1 ≡ stamped_order (add64 seq 1) stamped o
  pub next_id : r.2.order_seq ≡ r.1.order_id
  pub shard : Shard
  pub serves : Serves o.symbol m shard r.2.manager.count
  pub inbound : Ring
  pub accepted : Accepted (new_order_command r.1) shard.inbound inbound
  pub routed :
      r.2.manager.engines o.symbol ≡ some (record { engine = shard.engine; inbound = inbound })
  pub elsewhere :
      (other : String)
      → same_text o.symbol other ≡ false
      → r.2.manager.engines other ≡ m.engines other

full_refuses : (c : Command) (r : Ring) → is_full r r.cursor ≡ true → (try_submit c r).0 ≡ false
unfolding try_submit
full_refuses c r full = rw (try_submit, full) refl

try_submit-Accepted :
    (c : Command) (r : Ring) → (try_submit c r).0 ≡ true → Accepted c r (try_submit c r).1
unfolding try_submit
try_submit-Accepted c r e = elim (Bool-cases (is_full r r.cursor)) [
  | inl full ↦ let refused = full_refuses c r full in absurd (cc (e, refused))
  | inr room ↦
      rw (try_submit, room)
        (record {
          room = ground (arith, room);
          cursor = refl;
          written = ground arith;
          others = λ i ne. ground (arith, ne);
          same_tail = refl;
          same_mask = refl;
          same_log2 = refl;
        })
]

new_shard-IsFresh : (cap : ℕ) (symbol : String) → IsFresh symbol (new_shard cap symbol)
unfolding new_shard Engine.new Book.new Mpsc.new
new_shard-IsFresh cap symbol = record {
  symbol_of = refl;
  book_of = refl;
  no_orders = λ id. refl;
  no_bids = refl;
  no_asks = refl;
  no_commands = refl;
  no_trades = refl;
  no_events = refl;
  no_claims = refl;
  no_pops = refl;
  nil_slots = λ i. refl;
}

get_or_create-Serves :
    (symbol : String) (m : Manager)
    → Serves symbol m (get_or_create symbol m).0 (get_or_create symbol m).1.count
unfolding get_or_create
get_or_create-Serves symbol m = elim (Option-cases (m.engines symbol)) [
  | inl none_yet ↦
      rw (get_or_create, none_yet) (inr (refl, new_shard-IsFresh m.inbound_cap symbol, refl))
  | inr (s, known) ↦ rw (get_or_create, known) (inl (refl, refl))
]

get_or_create_elsewhere :
    (symbol : String) (m : Manager) (other : String)
    → same_text symbol other ≡ false
    → (get_or_create symbol m).1.engines other ≡ m.engines other
unfolding get_or_create
get_or_create_elsewhere symbol m other ne = elim (Option-cases (m.engines symbol)) [
  | inl none_yet ↦ rw (get_or_create, none_yet, ne) refl
  | inr (s, known) ↦ rw (get_or_create, known) refl
]

module _ {ℓ} {F : Type ℓ} (float : Float64 F) (made now stamped : ℕ) (o : Order)
    (g : Gateway float) where
  rate_keeps :
      ((within_rate float made now o g).1.manager ≡ g.manager)
      × ((within_rate float made now o g).1.order_seq ≡ g.order_seq)
  unfolding within_rate
  rate_keeps = elim (Bool-cases (slt 0 g.max_orders_per_second)) [
    | inl limited ↦ rw (within_rate, limited) (refl, refl)
    | inr free ↦ rw (within_rate, free) (refl, refl)
  ]

  goes_on :
      validate_order o ≡ none
      → (within_rate float made now o g).0 ≡ true
      → place_order float made now stamped o g
        ≡ dispatch_order float stamped o (within_rate float made now o g).1
  unfolding place_order
  goes_on v w = rw (place_order, v, w) refl

  invalid :
      (x : OrderError)
      → validate_order o ≡ some x
      → (place_order float made now stamped o g).0 ≡ some (invalid_order x)
  unfolding place_order
  invalid x v = rw (place_order, v) refl

  limited :
      validate_order o ≡ none
      → (within_rate float made now o g).0 ≡ false
      → (place_order float made now stamped o g).0 ≡ some rate_limited
  unfolding place_order
  limited v w = rw (place_order, v, w) refl

  refused : {r : Option Error} {x : Error} → r ≡ none → r ≡ some x → ⊥
  refused a b = cc

  passes :
      (place_order float made now stamped o g).0 ≡ none
      → (validate_order o ≡ none) × ((within_rate float made now o g).0 ≡ true)
  passes e = elim (Option-cases (validate_order o)) [
    | inr (x, v) ↦ absurd (refused e (invalid x v))
    | inl v ↦ elim (Bool-cases (within_rate float made now o g).0) [
      | inl w ↦ (v, w)
      | inr w ↦ absurd (refused e (limited v w))
    ]
  ]

  accepted_of : (done : Bool) → (if done then none else some buffer_full) ≡ none → done ≡ true
  accepted_of true e = refl
  accepted_of false e = cc

  dispatch_order-Placed :
      IsValidOrder o
      → (dispatch_order float stamped o g).0 ≡ none
      → Placed stamped o g.order_seq g.manager (dispatch_order float stamped o g)
  unfolding dispatch_order try_submit_to
  dispatch_order-Placed v e = record {
    valid = v;
    order = refl;
    next_id = refl;
    shard = (get_or_create o.symbol g.manager).0;
    serves = get_or_create-Serves o.symbol g.manager;
    inbound = _;
    accepted = try_submit-Accepted _ _ (accepted_of _ e);
    routed = rw (same_text_refl o.symbol) refl;
    elsewhere = λ other ne. rw ne (get_or_create_elsewhere o.symbol g.manager other ne);
  }

-- When `PlaceOrder` returns no error, the order names a symbol, has one of the two sides, a positive
-- quantity and, unless it is a market order, a positive price; it carries the next order id; the engine of
-- its symbol is the one that there was or, if there was none, a fresh one that is counted; its inbound
-- ring had room, and has the command with exactly that order published in the slot of its old cursor,
-- and nothing else changed in it; and the engines of other symbols are left alone.
pub place_order-Placed {ℓ} :
    {F : Type ℓ} (float : Float64 F) (made now stamped : ℕ) (o : Order) (g : Gateway float)
    → (place_order float made now stamped o g).0 ≡ none
    → Placed stamped o g.order_seq g.manager (place_order float made now stamped o g)
place_order-Placed float made now stamped o g e =
    let (v, w) = passes float made now stamped o g e in
    let g1 = (within_rate float made now o g).1 in
    let eq = goes_on float made now stamped o g v w in
    let (same_manager, same_seq) = rate_keeps float made now stamped o g in
    let p =
      dispatch_order-Placed float made now stamped o g1 (validate_order-IsValidOrder o v)
        (rw eq at e) in
    subst (Placed stamped o g.order_seq g.manager) (sym eq) (
      subst (λ seq. Placed stamped o seq g.manager (dispatch_order float stamped o g1)) same_seq
        (subst (λ m. Placed stamped o g1.order_seq m (dispatch_order float stamped o g1))
          same_manager p))
