-- ===== src/OrderBook/Rest/Undo.antt =====
-- pkg/orderbook/orderbook.go: `CancelOrder` right after `AddOrder`.
use oktrading.Prelude.{
  ℕ, ◌≡◌, refl, sym, ap, ◌∙◌, false, none, some, List, [], ◌∷◌, arith, ◌==◌, contains, fun_ext,
  Bool-cases, inl, inr, ==_iff, result_unique,
}
use oktrading.Prelude.Maps.{update, delete, update_self}
use oktrading.Types.{Order, status_open, status_cancelled}
use oktrading.OrderBook.Book.{Half, OrderLoc, Index, Ladder, OrderBook}
use oktrading.OrderBook.Valid.{queue}
use oktrading.OrderBook.Invariant.{IsBook, book_queue, half_cases}
use oktrading.OrderBook.Match.Ids.{ids}
use oktrading.OrderBook.Rest.{find_order, remove_order, add_order, cancel_order}
use oktrading.OrderBook.Rest.Enqueue.{enqueue}
use oktrading.OrderBook.Rest.Add.{IsRestable, add_order-Adds, absent}
use oktrading.OrderBook.Rest.Cancel.{cancel_order-Cancels}

module _ (h : Half) (o : Order) where
  find_order-enqueue :
      (qs : List Order)
      → contains o.order_id (ids qs) ≡ false
      → find_order o.order_id (enqueue h o qs) ≡ some o
  unfolding find_order enqueue
  find_order-enqueue [] out = ground arith
  find_order-enqueue (x ∷ qs) out = ground (arith, out, find_order-enqueue qs)

  remove_order-enqueue :
      (qs : List Order)
      → contains o.order_id (ids qs) ≡ false
      → remove_order o.order_id (enqueue h o qs) ≡ qs
  unfolding remove_order enqueue
  remove_order-enqueue [] out = ground arith
  remove_order-enqueue (x ∷ qs) out = ground (arith, out, remove_order-enqueue qs)

delete-update :
    (index : Index) (id : ℕ) (loc : OrderLoc)
    → index id ≡ none
    → delete (update index id loc) id ≡ index
unfolding delete update
delete-update index id loc fresh = fun_ext λ j. elim (Bool-cases (id == j)) [
  | inl same ↦ rw same (sym (rw ((==_iff id j).0 same) at fresh))
  | inr ne ↦ rw ne refl
]

-- The book as clients see it: the two queues and the index.
pub record Restores (b b' : OrderBook) : Type 0 where
  pub queues : (k : Half) → book_queue k b' ≡ book_queue k b
  pub index : b'.orders ≡ b.orders
  pub valid : IsBook b'

-- Cancelling an order that was just put into a valid book gives the order back as cancelled, and
-- restores both queues and the index.
pub cancel_order-add_order :
    (h : Half) (o : Order) (b : OrderBook)
    → IsBook b
    → IsRestable h o b
    → (b' : OrderBook) × (cancel_order o.order_id (add_order o b).1
        ≡ some (some (record o { status = status_cancelled }), b'))
      × Restores b b'
cancel_order-add_order h o b v r =
    let a = add_order-Adds h o b v r in
    let o' : Order = record o { status = status_open } in
    let known = ap (λ (f : Index). f o.order_id) a.index ∙ update_self b.orders o.order_id _ in
    let (r', e, c) = cancel_order-Cancels o.order_id (add_order o b).1 _ a.valid known in
    let out = absent h o b v r h in
    let same : c.order ≡ o' =
      result_unique c.found
        (ap (find_order o.order_id) a.joined ∙ find_order-enqueue h o' (book_queue h b) out) in
    let returned =
      c.returned ∙ ap (λ (x : Order). some (record x { status = status_cancelled })) same in
    (
      r'.1,
      e ∙ ap (λ x. some (x, r'.1)) returned,
      record {
        queues =
            half_cases (λ k. book_queue k r'.1 ≡ book_queue k b) h
              (c.left
                ∙ ap (remove_order o.order_id) a.joined
                ∙ remove_order-enqueue h o' (book_queue h b) out)
              (ap (λ (l : Ladder). queue l.prices l.nodes) c.others
                ∙ ap (λ (l : Ladder). queue l.prices l.nodes) a.others);
        index =
            c.index
            ∙ ap (λ (f : Index). delete f o.order_id) a.index
            ∙ delete-update b.orders o.order_id _ r.fresh;
        valid = c.valid;
      },
    )
