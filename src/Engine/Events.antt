-- ===== src/Engine/Events.antt =====
-- pkg/engine/engine.go: the events that a command publishes.
use oktrading.Prelude.{
  ℕ, ◌≡◌, refl, ap, sym, subst, ◌∙◌, false, Option, none, some, List, [], ◌∷◌, ◌++◌, append-nil,
  append_assoc, All, ◌==◌, if◌then◌else◌, All-append, String, Bool-cases, inl, inr,
}
use oktrading.Int64.{add64}
use oktrading.Types.{
  Order, Trade, EventType, event_code, evt_trade, evt_order_rejected, evt_order_accepted,
  evt_order_filled, evt_order_cancelled, status_rejected, status_cancelled,
}
use oktrading.Offheap.{RawEvent, order_event, reason_event, trade_event}
use oktrading.OrderBook.Rest.{add_order}
use oktrading.Engine.{
  Engine, is_filled, emit_trade, emit_trades, finish, accept, reject, cancel_residual,
}

abbrev pub AllNumbered : ℕ → List RawEvent → Type 0
AllNumbered seq evs = All (λ (x : RawEvent). x.seq_no ≡ seq) evs

-- The trade events among them are numbered from `n` on, without a gap, up to `n'`.
abbrev pub TradeIds : ℕ → List RawEvent → ℕ → Type 0
TradeIds n [] n' = n ≡ n'
TradeIds n (x ∷ xs) n' =
    if x.evt_type == event_code evt_trade
    then (x.trade_id ≡ add64 n 1) × TradeIds (add64 n 1) xs n'
    else TradeIds n xs n'

pub TradeIds-append :
    (n m k : ℕ) (xs ys : List RawEvent)
    → TradeIds n xs m
    → TradeIds m ys k
    → TradeIds n (xs ++ ys) k
TradeIds-append n m k [] ys a b = subst (λ i. TradeIds i ys k) (sym a) b
TradeIds-append n m k (x ∷ xs) ys a b = elim (Bool-cases (x.evt_type == event_code evt_trade)) [
  | inl trade ↦
      let a' : (x.trade_id ≡ add64 n 1) × TradeIds (add64 n 1) xs m = rw trade at a in
      rw trade (a'.0, TradeIds-append (add64 n 1) m k xs ys a'.1 b)
  | inr other ↦
      let a' : TradeIds n xs m = rw other at a in rw other (TradeIds-append n m k xs ys a' b)
]

-- The log of `e'` is that of `e` with events behind it, all of which carry the number of `e`, and of
-- which those of trades have the trade ids between those of `e` and `e'`.
pub record Publishes (e e' : Engine) : Type 0 where
  pub events : List RawEvent
  pub logged : e'.outbound ≡ e.outbound ++ events
  pub numbered : AllNumbered e.local_seq events
  pub trades : TradeIds e.trade_seq events e'.trade_seq
  pub same_seq : e'.local_seq ≡ e.local_seq

-- A list of steps.
pub Publishes-nothing : (e : Engine) → Publishes e e
Publishes-nothing e = record {
  events = [];
  logged = sym (append-nil e.outbound);
  numbered = tt;
  trades = refl;
  same_seq = refl;
}

pub Publishes-then : {e e1 e2 : Engine} → Publishes e e1 → Publishes e1 e2 → Publishes e e2
Publishes-then {e} {e1} {e2} p q = record {
  events = p.events ++ q.events;
  logged = q.logged ∙ ap (λ l. l ++ q.events) p.logged ∙ append_assoc e.outbound p.events q.events;
  numbered =
      All-append (λ (x : RawEvent). x.seq_no ≡ e.local_seq) p.events q.events p.numbered
        (subst (λ n. AllNumbered n q.events) p.same_seq q.numbered);
  trades =
      TradeIds-append e.trade_seq e1.trade_seq e2.trade_seq p.events q.events p.trades q.trades;
  same_seq = q.same_seq ∙ p.same_seq;
}

-- One event that is no trade.
pub Publishes-update :
    (t : EventType) (o : Order) (e e' : Engine)
    → e'.outbound ≡ e.outbound ++ (order_event t e.local_seq (some o) ∷ [])
    → (event_code t == event_code evt_trade) ≡ false
    → e'.trade_seq ≡ e.trade_seq
    → e'.local_seq ≡ e.local_seq
    → Publishes e e'
unfolding order_event
Publishes-update t o e e' out plain ids seq = record {
  events = order_event t e.local_seq (some o) ∷ [];
  logged = out;
  numbered = (refl, tt);
  trades = rw plain (sym ids);
  same_seq = seq;
}

pub Publishes-reason :
    (o : Option Order) (reason : String) (e e' : Engine)
    → e'.outbound ≡ e.outbound ++ (reason_event evt_order_rejected e.local_seq o reason ∷ [])
    → e'.trade_seq ≡ e.trade_seq
    → e'.local_seq ≡ e.local_seq
    → Publishes e e'
unfolding reason_event
Publishes-reason none reason e e' out ids seq = record {
  events = reason_event evt_order_rejected e.local_seq none reason ∷ [];
  logged = out;
  numbered = (refl, tt);
  trades = sym ids;
  same_seq = seq;
}
Publishes-reason (some o) reason e e' out ids seq = record {
  events = reason_event evt_order_rejected e.local_seq (some o) reason ∷ [];
  logged = out;
  numbered = (refl, tt);
  trades = sym ids;
  same_seq = seq;
}

emit_trade-Publishes :
    (taker : Order) (tr : Trade) (e : Engine) → Publishes e (emit_trade taker tr e)
unfolding emit_trade trade_event
emit_trade-Publishes taker tr e = elim (Bool-cases (is_filled tr.maker_order.status)) [
  | inl filled ↦
      rw (emit_trade, filled)
        (record {
          events = _ ∷ [];
          logged = refl;
          numbered = (refl, tt);
          trades = (refl, refl);
          same_seq = refl;
        })
  | inr open_still ↦
      rw (emit_trade, open_still)
        (record {
          events = _ ∷ [];
          logged = refl;
          numbered = (refl, tt);
          trades = (refl, refl);
          same_seq = refl;
        })
]

pub emit_trades-Publishes :
    (taker : Order) (ts : List Trade) (e : Engine) → Publishes e (emit_trades taker ts e)
unfolding emit_trades
emit_trades-Publishes taker [] e = Publishes-nothing e
emit_trades-Publishes taker (tr ∷ ts) e =
    Publishes-then (emit_trade-Publishes taker tr e)
      (emit_trades-Publishes taker ts (emit_trade taker tr e))

pub finish-Publishes : (o : Order) (e : Engine) → Publishes e (finish o e)
unfolding finish
finish-Publishes o e = Publishes-update evt_order_filled o e (finish o e) refl refl refl refl

pub accept-Publishes : (o : Order) (e : Engine) → Publishes e (accept o e)
unfolding accept
accept-Publishes o e =
    Publishes-update evt_order_accepted (add_order o e.book).0 e (accept o e) refl refl refl refl

pub reject-Publishes : (reason : String) (o : Order) (e : Engine) → Publishes e (reject reason o e)
unfolding reject
reject-Publishes reason o e =
    Publishes-reason (some (record o { status = status_rejected })) reason e (reject reason o e)
      refl refl refl

pub cancel_residual-Publishes : (o : Order) (e : Engine) → Publishes e (cancel_residual o e)
unfolding cancel_residual
cancel_residual-Publishes o e =
    Publishes-update evt_order_cancelled (record o { status = status_cancelled }) e
      (cancel_residual o e) refl refl refl refl
