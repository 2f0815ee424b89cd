-- ===== src/Engine/Quotes/Mixed.antt =====
-- pkg/engine/engine.go, `process` and `run` of commands that place quotes and of commands that take.
use oktrading.Prelude.{
  ℕ, ◌+◌, ◌≤◌, ◌≡◌, ◌≢◌, ◌⊎◌, inl, inr, refl, ◌∙◌, List, [], ◌∷◌, some, none, arith, All, Distinct,
}
use oktrading.Int64.{IsNonneg, add64}
use oktrading.Types.{Order}
use oktrading.OrderBook.Book.{Half, other}
use oktrading.OrderBook.Invariant.{book_queue}
use oktrading.OrderBook.Match.Spec.{total}
use oktrading.Engine.{Engine, put, command_put, stamp, handle_new_order, dispatch, process, run}
use oktrading.Engine.Log.{numbered}
use oktrading.Engine.Quotes.{IsQuote, IsCalm}
use oktrading.Engine.Quotes.Session.{
  command_of, process_quote, order_ids, wanted, commands, still_fresh,
}
use oktrading.Engine.Quotes.Take.{IsTaking, taking-Takes}

-- What an engine does with either kind of order.
record Proceeds (mid : ℕ) (o : Order) (e e' : Engine) : Type 0 where
  calm : IsCalm mid e'.book
  index : (id : ℕ) → o.order_id ≢ id → e.book.orders id ≡ none → e'.book.orders id ≡ none
  grown : (h : Half) → total (book_queue h e'.book) ≤ o.remaining + total (book_queue h e.book)

process_taking :
    (mid now : ℕ) (h : Half) (o : Order) (e : Engine)
    → IsCalm mid e.book
    → IsTaking h o
    → (e' : Engine) × (process now (command_of o) e ≡ some e') × Proceeds mid o e e'
unfolding process dispatch handle_new_order
process_taking mid now h o e c t =
    let t' : IsTaking h (stamp now (add64 e.local_seq 1) o) = record {
      type = t.type;
      its_side = t.its_side;
      taker = record { part = t.taker.part; range = t.taker.range };
    } in
    let (f, eq, r) = taking-Takes mid h (stamp now (add64 e.local_seq 1) o) (numbered e) c t' in
    (
      put (command_put (record (command_of o) { order = none; sequence_no = add64 e.local_seq 1 }))
          f,
      rw (process, eq) refl,
      record {
        calm = r.calm;
        index = λ id ne out. r.index id out;
        grown = λ k. omega (arith, r.grown k);
      },
    )

-- A quote, or an order that takes.
abbrev pub IsEither : ℕ → Order → Type 0
IsEither mid o = (h : Half) × (IsQuote mid h o ⊎ IsTaking h o)

process_either :
    (mid now : ℕ) (o : Order) (e : Engine)
    → IsCalm mid e.book
    → IsEither mid o
    → e.book.orders o.order_id ≡ none
    → ((h : Half) → IsNonneg (total (book_queue h e.book) + o.remaining))
    → (e' : Engine) × (process now (command_of o) e ≡ some e') × Proceeds mid o e e'
process_either mid now o e c (h, inl q) fresh room =
    let (e', eq, r) = process_quote mid now h o e c q fresh (room (other h)) in
    (e', eq, record { calm = r.calm; index = λ id ne out. r.index id ne ∙ out; grown = r.grown })
process_either mid now o e c (h, inr t) fresh room = process_taking mid now h o e c t

pub run_mixed :
    (mid : ℕ) (qs : List (ℕ × Order)) (e : Engine)
    → IsCalm mid e.book
    → All (λ (q : ℕ × Order). IsEither mid q.1) qs
    → Distinct (order_ids qs)
    → All (λ (q : ℕ × Order). e.book.orders q.1.order_id ≡ none) qs
    → ((h : Half) → IsNonneg (total (book_queue h e.book) + wanted qs))
    → (e' : Engine) × (run (commands qs) e ≡ some e') × IsCalm mid e'.book
unfolding run wanted
run_mixed mid [] e c v d fresh room = (e, refl, c)
run_mixed mid (q ∷ qs) e c v d fresh room =
    let (e1, eq1, r1) = process_either mid q.0 q.1 e c v.0 fresh.0 (λ h. omega (arith, room h)) in
    let (e2, eq2, calm) =
      run_mixed mid qs e1 r1.calm v.1 d.1
        (still_fresh e.book.orders e1.book.orders q.1.order_id qs r1.index d.0 fresh.1)
        (λ k. omega (arith, room k, r1.grown k)) in
    (e2, rw (run, eq1) eq2, calm)
