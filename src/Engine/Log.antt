-- ===== src/Engine/Log.antt =====
-- pkg/engine/engine.go: the log of `outbound` events and the counters, through `process` and `run`.
use oktrading.Prelude.{
  ℕ, ◌≡◌, refl, true, false, Option, none, some, Bool-cases, Option-cases, inl, inr,
}
use oktrading.Int64.{add64, slt}
use oktrading.Types.{
  Order, Command, CommandType, cmd_new_order, cmd_cancel_order, other_command, OrderType, limit,
  market, ioc, fok, post_only, other_type, evt_order_cancelled,
}
use oktrading.OrderBook.Match.{Matched, match_order}
use oktrading.OrderBook.Rest.{cancel_order}
use oktrading.Engine.{
  Engine, emit_trades, finish, rest_or_finish, cancel_or_finish, sweep_then, new_order, would_cross,
  can_fill_completely, handle_new_order, handle_cancel_order, dispatch, process, stamp,
}
use oktrading.Engine.Events.{
  Publishes, Publishes-nothing, Publishes-then, Publishes-reason, Publishes-update,
  emit_trades-Publishes, finish-Publishes, accept-Publishes, reject-Publishes,
  cancel_residual-Publishes,
}

-- What a handler returns, if it returns, has published its events.
abbrev Logs : Engine → Option Engine → Type 0
Logs e none = Unit
Logs e (some e') = Publishes e e'

rest_or_finish-Publishes : (o : Order) (e : Engine) → Publishes e (rest_or_finish o e)
unfolding rest_or_finish
rest_or_finish-Publishes o e = elim (Bool-cases (slt 0 o.remaining)) [
  | inl left ↦ rw (rest_or_finish, left) (accept-Publishes o e)
  | inr done ↦ rw (rest_or_finish, done) (finish-Publishes o e)
]

cancel_or_finish-Publishes : (o : Order) (e : Engine) → Publishes e (cancel_or_finish o e)
unfolding cancel_or_finish
cancel_or_finish-Publishes o e = elim (Bool-cases (slt 0 o.remaining)) [
  | inl left ↦ rw (cancel_or_finish, left) (cancel_residual-Publishes o e)
  | inr done ↦ rw (cancel_or_finish, done) (finish-Publishes o e)
]

-- The book is no part of what is published.
with_book :
    (e e' : Engine) (m : Matched) → Publishes (record e { book = m.book }) e' → Publishes e e'
with_book e e' m p = record {
  events = p.events;
  logged = p.logged;
  numbered = p.numbered;
  trades = p.trades;
  same_seq = p.same_seq;
}

sweep_then-Logs :
    (after : Order → Engine → Engine)
    → ((o : Order) (e : Engine) → Publishes e (after o e))
    → (o : Order) (e : Engine) → Logs e (sweep_then after o e)
unfolding sweep_then
sweep_then-Logs after publishes o e = elim (Option-cases (match_order o e.book)) [
  | inl panic ↦ rw (sweep_then, panic) tt
  | inr (m, em) ↦
      let swept = emit_trades-Publishes m.taker m.trades (record e { book = m.book }) in
      rw (sweep_then, em)
        (with_book e _ m (
          Publishes-then swept
            (publishes m.taker (emit_trades m.taker m.trades (record e { book = m.book })))))
]

new_order-Logs : (t : OrderType) (o : Order) (e : Engine) → Logs e (new_order t o e)
unfolding new_order
new_order-Logs limit o e = sweep_then-Logs rest_or_finish rest_or_finish-Publishes o e
new_order-Logs market o e = sweep_then-Logs cancel_or_finish cancel_or_finish-Publishes o e
new_order-Logs ioc o e = sweep_then-Logs cancel_or_finish cancel_or_finish-Publishes o e
new_order-Logs fok o e = elim (Option-cases (can_fill_completely o e.book)) [
  | inl panic ↦ rw (new_order, panic) tt
  | inr (true, ok) ↦ rw (new_order, ok) (sweep_then-Logs finish finish-Publishes o e)
  | inr (false, ok) ↦ rw (new_order, ok) (reject-Publishes _ o e)
]
new_order-Logs post_only o e = elim (Bool-cases (would_cross o e.book)) [
  | inl cross ↦ rw (new_order, cross) (reject-Publishes _ o e)
  | inr clear ↦ rw (new_order, clear) (accept-Publishes o e)
]
new_order-Logs (other_type c) o e = reject-Publishes _ o e

handle_cancel_order-Logs : (c : Command) (e : Engine) → Logs e (handle_cancel_order c e)
unfolding handle_cancel_order
handle_cancel_order-Logs c e = elim (Option-cases (cancel_order c.cancel_id e.book)) [
  | inl panic ↦ rw (handle_cancel_order, panic) tt
  | inr ((none, b), ok) ↦ rw (handle_cancel_order, ok) (Publishes-reason none _ e _ refl refl refl)
  | inr ((some o, b), ok) ↦
      rw (handle_cancel_order, ok) (Publishes-update evt_order_cancelled o e _ refl refl refl refl)
]

dispatch-Logs : (t : CommandType) (now : ℕ) (c : Command) (e : Engine) → Logs e (dispatch t now c e)
unfolding dispatch handle_new_order
dispatch-Logs cmd_new_order now c e = elim (Option-cases c.order) [
  | inl nil ↦ rw (handle_new_order, nil) tt
  | inr (o, ok) ↦
      rw (handle_new_order, ok)
        (new_order-Logs (stamp now c.sequence_no o).type (stamp now c.sequence_no o) e)
]
dispatch-Logs cmd_cancel_order now c e = handle_cancel_order-Logs c e
dispatch-Logs (other_command k) now c e = Publishes-nothing e

-- The engine as it numbers the next command.
abbrev pub numbered : Engine → Engine
numbered e = record e { local_seq = add64 e.local_seq 1 }

process-Logs : (now : ℕ) (c : Command) (e : Engine) → Logs (numbered e) (process now c e)
unfolding process
process-Logs now c e =
    let c' : Command = record c { sequence_no = add64 e.local_seq 1 } in
    let logs = dispatch-Logs c.type now c' (numbered e) in
    elim (Option-cases (dispatch c.type now c' (numbered e))) [
      | inl panic ↦ rw (process, panic) tt
      | inr (e', ok) ↦
          let p : Publishes (numbered e) e' = rw ok at logs in
          rw (process, ok)
            (record {
              events = p.events;
              logged = p.logged;
              numbered = p.numbered;
              trades = p.trades;
              same_seq = p.same_seq;
            })
    ]

-- A command takes the next sequence number. Every event that it publishes carries that number, the
-- events published before it are left alone, and the trades among its events take the next trade ids
-- without a gap.
pub process-Publishes :
    (now : ℕ) (c : Command) (e e' : Engine) → process now c e ≡ some e' → Publishes (numbered e) e'
process-Publishes now c e e' eq = rw eq at (process-Logs now c e)
