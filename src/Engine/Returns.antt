-- ===== src/Engine/Returns.antt =====
-- pkg/engine/engine.go: `process` and `run` on an engine whose book is valid.
use oktrading.Prelude.{ℕ, ◌≡◌, refl, ap, ◌∙◌, Option, some, List, [], ◌∷◌, inl, inr}
use oktrading.Int64.{add64}
use oktrading.Types.{Order, Command, CommandType, cmd_new_order, cmd_cancel_order, other_command}
use oktrading.OrderBook.Book.{Half, OrderBook}
use oktrading.OrderBook.Invariant.{IsBook}
use oktrading.OrderBook.Rest.Cancel.{cancel_order_lem}
use oktrading.Engine.{Engine, stamp, handle_new_order, handle_cancel_order, dispatch, process, run}
use oktrading.Engine.Keeps.{IsAdmissible}
use oktrading.Engine.Admit.{new_order-IsBook}

-- A command that the engine may meet: a new order that is admissible once it is stamped, or any other
-- command.
abbrev pub Admits : CommandType → ℕ → ℕ → Command → OrderBook → Type 0
Admits cmd_new_order now seq c b =
    (o : Order) × (c.order ≡ some o) × ((h : Half) × IsAdmissible h (stamp now seq o) b)
Admits cmd_cancel_order now seq c b = Unit
Admits (other_command k) now seq c b = Unit

-- Every command of the list is admissible when its turn comes.
abbrev pub AdmitsAll : List (ℕ × Command) → Engine → Type 0
AdmitsAll [] e = Unit
AdmitsAll ((now, c) ∷ cmds) e =
    Admits c.type now (add64 e.local_seq 1) c e.book
    × ((e' : Engine) → process now c e ≡ some e' → AdmitsAll cmds e')

-- The handler returns, and leaves a valid book.
abbrev Keeps : Option Engine → Type 0
Keeps r = (e' : Engine) × (r ≡ some e') × IsBook e'.book

handle_new_order-Keeps :
    (now : ℕ) (c : Command) (o : Order) (h : Half) (e : Engine)
    → IsBook e.book
    → c.order ≡ some o
    → IsAdmissible h (stamp now c.sequence_no o) e.book
    → Keeps (handle_new_order now c e)
unfolding handle_new_order
handle_new_order-Keeps now c o h e v eq a =
    rw (handle_new_order, eq) (new_order-IsBook h (stamp now c.sequence_no o) e v a)

handle_cancel_order-Keeps :
    (c : Command) (e : Engine) → IsBook e.book → Keeps (handle_cancel_order c e)
unfolding handle_cancel_order
handle_cancel_order-Keeps c e v = elim (cancel_order_lem c.cancel_id e.book v) [
  | inl (unknown, eq) ↦ rw (handle_cancel_order, eq) (_, refl, v)
  | inr (loc, known, (r, eq, l)) ↦
      rw (handle_cancel_order, eq ∙ ap (λ x. some (x, r.1)) l.returned) (_, refl, l.valid)
]

dispatch-Keeps :
    (t : CommandType) (now : ℕ) (c : Command) (e : Engine)
    → IsBook e.book
    → Admits t now c.sequence_no c e.book
    → Keeps (dispatch t now c e)
unfolding dispatch
dispatch-Keeps cmd_new_order now c e v (o, eq, (h, a)) = handle_new_order-Keeps now c o h e v eq a
dispatch-Keeps cmd_cancel_order now c e v a = handle_cancel_order-Keeps c e v
dispatch-Keeps (other_command k) now c e v a = (e, refl, v)

pub Admits-numbered :
    (t : CommandType) (now seq : ℕ) (c : Command) (b : OrderBook)
    → Admits t now seq c b
    → Admits t now seq (record c { sequence_no = seq }) b
Admits-numbered cmd_new_order now seq c b a = a
Admits-numbered cmd_cancel_order now seq c b a = tt
Admits-numbered (other_command k) now seq c b a = tt

pub process-Keeps :
    (now : ℕ) (c : Command) (e : Engine)
    → IsBook e.book
    → Admits c.type now (add64 e.local_seq 1) c e.book
    → (e' : Engine) × (process now c e ≡ some e') × IsBook e'.book
unfolding process
process-Keeps now c e v a =
    let seq = add64 e.local_seq 1 in
    let c' : Command = record c { sequence_no = seq } in
    let (e', eq, v') =
      dispatch-Keeps c.type now c' (record e { local_seq = seq }) v
        (Admits-numbered c.type now seq c e.book a) in
    rw (process, eq) (_, refl, v')

-- An engine with a valid book processes any list of commands, each admissible when its turn comes, to
-- the end without a panic, and its book is valid afterwards.
pub run-IsBook :
    (cmds : List (ℕ × Command)) (e : Engine)
    → IsBook e.book
    → AdmitsAll cmds e
    → (e' : Engine) × (run cmds e ≡ some e') × IsBook e'.book
unfolding run
run-IsBook [] e v a = (e, refl, v)
run-IsBook ((now, c) ∷ cmds) e v a =
    let (e1, eq, v1) = process-Keeps now c e v a.0 in
    let (e2, eq2, v2) = run-IsBook cmds e1 v1 (a.1 e1 eq) in (e2, rw (run, eq) eq2, v2)
