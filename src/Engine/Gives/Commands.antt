-- ===== src/Engine/Gives/Commands.antt =====
-- pkg/engine/engine.go, `process`: what each kind of command gives back to the pool.
use oktrading.Prelude.{
  ◌≡◌, refl, sym, ap, ◌∙◌, ℕ, true, false, none, some, List, [], ◌∷◌, append-nil, append_assoc,
  ◌++◌, ◌==◌, arith, Bool-cases, Option-cases, inl, inr,
}
use oktrading.Prelude.Maps.{delete_self}
use oktrading.Int64.{add64}
use oktrading.Types.{
  Order, OrderType, limit, market, ioc, fok, post_only, other_type, Command, CommandType,
  cmd_new_order, cmd_cancel_order, other_command,
}
use oktrading.OrderBook.Book.{Half}
use oktrading.OrderBook.Invariant.{IsBook, book_queue}
use oktrading.OrderBook.Match.{Matched}
use oktrading.OrderBook.Match.Refine.{Matches, match_order-Matches}
use oktrading.OrderBook.Rest.{find_order}
use oktrading.OrderBook.Rest.Cancel.{cancel_order_lem}
use oktrading.Engine.{
  Engine, Put, order_put, command_put, finish, sweep_then, rest_or_finish, cancel_or_finish,
  new_order, would_cross, can_fill_completely, stamp, handle_new_order, handle_cancel_order,
  dispatch, process,
}
use oktrading.Engine.Keeps.{IsAdmissible, sweep_then-eq}
use oktrading.Engine.Log.{numbered}
use oktrading.Engine.Returns.{Admits, Admits-numbered}
use oktrading.Engine.Gives.{given_back, given_back-append}
use oktrading.Engine.Gives.Frees.{
  Frees, MayFree, reject-Frees, accept-Frees, matched, rest_or_finish-Frees, cancel_or_finish-Frees,
  finished,
}

module _ (h : Half) (o : Order) (e : Engine) (v : IsBook e.book) (a : IsAdmissible h o e.book) where
  sweep_then-MayFree :
      (after : Order → Engine → Engine)
      → ((m : Matched) (s : Matches h o e.book m) → Frees e (after m.taker (matched h o e v a m s)))
      → MayFree e (sweep_then after o e)
  sweep_then-MayFree after frees =
      let (m, em, s) = match_order-Matches h o e.book v a.taker a.its_side in
      rw (sweep_then-eq after o e em) (frees m s)

  new_order-MayFree : (t : OrderType) → MayFree e (new_order t o e)
  unfolding new_order
  new_order-MayFree limit = sweep_then-MayFree rest_or_finish (rest_or_finish-Frees h o e v a)
  new_order-MayFree market = sweep_then-MayFree cancel_or_finish (cancel_or_finish-Frees h o e v a)
  new_order-MayFree ioc = sweep_then-MayFree cancel_or_finish (cancel_or_finish-Frees h o e v a)
  new_order-MayFree fok = elim (Option-cases (can_fill_completely o e.book)) [
    | inl panic ↦ rw (new_order, panic) tt
    | inr (true, ok) ↦ rw (new_order, ok) (sweep_then-MayFree finish (finished h o e v a))
    | inr (false, ok) ↦ rw (new_order, ok) (reject-Frees o e a.fresh _)
  ]
  new_order-MayFree post_only = elim (Bool-cases (would_cross o e.book)) [
    | inl cross ↦ rw (new_order, cross) (reject-Frees o e a.fresh _)
    | inr clear ↦ rw (new_order, clear) (accept-Frees o e a.fresh)
  ]
  new_order-MayFree (other_type c) = reject-Frees o e a.fresh _

-- The order that is found has the id that was looked for.
found_id : (id : ℕ) (o : Order) (os : List Order) → find_order id os ≡ some o → o.order_id ≡ id
unfolding find_order
found_id id o [] eq = cc
found_id id o (x ∷ os) eq = elim (Bool-cases (x.order_id == id)) [
  | inl same ↦ ground (arith, eq, same)
  | inr ne ↦ found_id id o os (ground (arith, eq, ne))
]

handle_cancel_order-MayFree :
    (c : Command) (e : Engine) → IsBook e.book → MayFree e (handle_cancel_order c e)
unfolding handle_cancel_order
handle_cancel_order-MayFree c e v = elim (cancel_order_lem c.cancel_id e.book v) [
  | inl (unknown, eq) ↦
      rw (handle_cancel_order, eq)
        (record { puts = []; logged = sym (append-nil e.pool); gone = tt; once = tt })
  | inr (loc, known, (r, eq, l)) ↦
      rw (handle_cancel_order, eq ∙ ap (λ x. some (x, r.1)) l.returned)
        (record {
          puts = order_put _ ∷ [];
          logged = refl;
          gone = (
            rw (l.index, found_id c.cancel_id l.order (book_queue loc.half e.book) l.found)
                (delete_self e.book.orders c.cancel_id),
            tt,
          );
          once = (refl, tt);
        })
]

dispatch-MayFree :
    (t : CommandType) (now : ℕ) (c : Command) (e : Engine)
    → IsBook e.book
    → Admits t now c.sequence_no c e.book
    → MayFree e (dispatch t now c e)
unfolding dispatch handle_new_order
dispatch-MayFree cmd_new_order now c e v (o, eq, (h, a)) =
    rw (handle_new_order, eq) (new_order-MayFree h (stamp now c.sequence_no o) e v a _)
dispatch-MayFree cmd_cancel_order now c e v a = handle_cancel_order-MayFree c e v
dispatch-MayFree (other_command k) now c e v a = record {
  puts = [];
  logged = sym (append-nil e.pool);
  gone = tt;
  once = tt;
}

given_back_same :
    (ps : List Put) (c : Command) → given_back (ps ++ (command_put c ∷ [])) ≡ given_back ps
given_back_same ps c = given_back-append ps (command_put c ∷ []) ∙ append-nil (given_back ps)

-- The command as it is numbered, and as it is given back.
abbrev taken_up : Command → Engine → Command
taken_up c e = record c { sequence_no = add64 e.local_seq 1 }

abbrev emptied : Command → Engine → Command
emptied c e = record (taken_up c e) { order = none }

-- The command itself is given back, too.
with_command :
    (c : Command) (e f : Engine)
    → Frees (numbered e) f
    → Frees e (record f { pool = f.pool ++ (command_put (emptied c e) ∷ []) })
with_command c e f p = record {
  puts = p.puts ++ (command_put (emptied c e) ∷ []);
  logged =
      ap (λ l. l ++ (command_put (emptied c e) ∷ [])) p.logged
      ∙ append_assoc e.pool p.puts (command_put (emptied c e) ∷ []);
  gone = rw (given_back_same p.puts (emptied c e)) p.gone;
  once = rw (given_back_same p.puts (emptied c e)) p.once;
}

process-MayFree :
    (now : ℕ) (c : Command) (e : Engine)
    → IsBook e.book
    → Admits c.type now (add64 e.local_seq 1) c e.book
    → MayFree e (process now c e)
unfolding process
process-MayFree now c e v a =
    let frees =
      dispatch-MayFree c.type now (taken_up c e) (numbered e) v
        (Admits-numbered c.type now (add64 e.local_seq 1) c e.book a) in
    elim (Option-cases (dispatch c.type now (taken_up c e) (numbered e))) [
      | inl panic ↦ rw (process, panic) tt
      | inr (f, ok) ↦ rw (process, ok) (with_command c e f (rw ok at frees))
    ]

-- On a valid book, with an admissible command: the orders that a processed command gives back to the
-- pool are no longer in the book, and none of them is given back twice.
pub process-Frees :
    (now : ℕ) (c : Command) (e e' : Engine)
    → IsBook e.book
    → Admits c.type now (add64 e.local_seq 1) c e.book
    → process now c e ≡ some e'
    → Frees e e'
process-Frees now c e e' v a eq = rw eq at (process-MayFree now c e v a)
