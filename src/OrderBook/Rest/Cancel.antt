-- ===== src/OrderBook/Rest/Cancel.antt =====
-- pkg/orderbook/orderbook.go, `CancelOrder`, on a valid book.
use oktrading.Prelude.{
  ℕ, ◌≡◌, ◌≢◌, refl, sym, ◌∙◌, true, false, Option, none, some, arith, ◌==◌, contains, Bool-cases,
  ◌⊎◌, Option-cases, inl, inr, ==_iff,
}
use oktrading.Prelude.Maps.{delete, delete_self, delete_ne}
use oktrading.Types.{Order, status_cancelled}
use oktrading.OrderBook.Book.{Half, other, OrderLoc, Ladder, Index, OrderBook, ladder}
use oktrading.OrderBook.Invariant.{
  IsSide, IsBook, book_queue, side_of, store, half_cases, ladder-store_self, ladder-store-other,
  other-ne, symbol-store,
}
use oktrading.OrderBook.Match.Ids.{ids, IsFiled, filed_of_contains}
use oktrading.OrderBook.Match.Keeps.{half_of}
use oktrading.OrderBook.Rest.{find_order, remove_order, cancel_order}
use oktrading.OrderBook.Rest.Remove.{All-remove_order, contains-remove_order, remove_order-Distinct}
use oktrading.OrderBook.Rest.Leave.{
  Stands, All-IsFiled-delete, none_not_some, IsUncrossed-remove, level_at,
}
use oktrading.OrderBook.Rest.Leave

module _ (id : ℕ) (b : OrderBook) (v : IsBook b) (loc : OrderLoc)
    (known : b.orders id ≡ some loc) where
  abbrev h : Half
  h = loc.half

  abbrev l : Ladder
  l = ladder h b

  abbrev s : Stands id l.prices l.nodes
  s = Leave.s id b v loc known

  abbrev leaves : (l' : Ladder) × Leave.Leaves id b v loc known l'
  leaves = Leave.leaves id b v loc known

  abbrev l' : Ladder
  l' = leaves.0

  abbrev index' : Index
  index' = delete b.orders id

  abbrev b' : OrderBook
  b' = store h l' index' b

  IsSide-self : IsSide h l' index'
  IsSide-self =
      let (d, out) = remove_order-Distinct id (book_queue h b) (v.side h).distinct in
      record {
        valid = leaves.1.valid;
        filed = rw leaves.1.left (
            All-IsFiled-delete b.orders id h (side_of h) (remove_order id (book_queue h b)) out (
              All-remove_order id (IsFiled b.orders h (side_of h)) (book_queue h b)
                (v.side h).filed));
        distinct = rw leaves.1.left d;
      }

  elsewhere : contains id (ids (book_queue (other h) b)) ≡ false
  elsewhere = elim (Bool-cases (contains id (ids (book_queue (other h) b)))) [
    | inl there ↦
        let (p, e) =
          filed_of_contains b.orders (other h) (side_of (other h)) (book_queue (other h) b) id
            (v.side (other h)).filed there in
        absurd (other-ne h (half_of known e))
    | inr out ↦ out
  ]

  IsSide-other : IsSide (other h) (ladder (other h) b) index'
  IsSide-other = record {
    valid = (v.side (other h)).valid;
    filed =
        All-IsFiled-delete b.orders id (other h) (side_of (other h)) (book_queue (other h) b)
          elsewhere (v.side (other h)).filed;
    distinct = (v.side (other h)).distinct;
  }

  queue_self : book_queue h b' ≡ remove_order id (book_queue h b)
  queue_self = rw (ladder-store_self h l' index' b) leaves.1.left

  still_there :
      (x : ℕ)
      → x ≢ id
      → (k : Half) → contains x (ids (book_queue k b)) ≡ true
      → contains x (ids (book_queue k b')) ≡ true
  still_there x ne =
      half_cases
        (λ k. contains x (ids (book_queue k b)) ≡ true → contains x (ids (book_queue k b')) ≡ true)
        h (λ was. rw (queue_self, contains-remove_order id x (book_queue h b) ne) was)
        (λ was. rw (ladder-store-other h l' index' b) was)

  still_found :
      (x : ℕ) (k : OrderLoc) → index' x ≡ some k → contains x (ids (book_queue k.half b')) ≡ true
  still_found x k e = elim (Bool-cases (id == x)) [
    | inl same ↦
        let eq : id ≡ x = (==_iff id x).0 same in
        absurd (none_not_some (rw (← eq) (delete_self b.orders id)) e)
    | inr ne ↦
        let apart : id ≢ x = ground (arith, ne) in
        still_there x (λ eq. apart (sym eq)) k.half
          (v.found x k (sym (delete_ne b.orders apart) ∙ e))
  ]

  cancel-IsBook : IsBook b'
  cancel-IsBook = record {
    side =
        half_cases (λ k. IsSide k (ladder k b') b'.orders) h
          (rw (ladder-store_self h l' index' b) IsSide-self)
          (rw (ladder-store-other h l' index' b) IsSide-other);
    found = still_found;
    uncrossed = IsUncrossed-remove id h b l' index' v.uncrossed leaves.1.left;
  }

  -- `CancelOrder` computes that book.
  cancels : cancel_order id b ≡ some (some (record (s.order) { status = status_cancelled }), b')
  unfolding cancel_order
  cancels = rw (cancel_order, known, level_at id b v loc known, s.found, leaves.1.result) refl

-- What `CancelOrder` of an order in the half `h` returns and leaves.
pub record Cancels (id : ℕ) (h : Half) (b : OrderBook) (r : Option Order × OrderBook) : Type 0 where
  pub order : Order
  pub found : find_order id (book_queue h b) ≡ some order
  pub returned : r.0 ≡ some (record order { status = status_cancelled })
  pub left : book_queue h r.1 ≡ remove_order id (book_queue h b)
  pub others : ladder (other h) r.1 ≡ ladder (other h) b
  pub index : r.1.orders ≡ delete b.orders id
  pub same_symbol : r.1.symbol ≡ b.symbol
  pub valid : IsBook r.1

-- On a valid book, an order that the index knows is found in its queue, is returned as cancelled,
-- and leaves its queue and the index; all other orders keep their places, and the book stays valid.
pub cancel_order-Cancels :
    (id : ℕ) (b : OrderBook) (loc : OrderLoc)
    → IsBook b
    → b.orders id ≡ some loc
    → (r : Option Order × OrderBook) × (cancel_order id b ≡ some r) × Cancels id loc.half b r
cancel_order-Cancels id b loc v known = (
  (some (record ((s id b v loc known).order) { status = status_cancelled }), b' id b v loc known),
  cancels id b v loc known,
  record {
    order = (s id b v loc known).order;
    found = (s id b v loc known).in_queue;
    returned = refl;
    left = queue_self id b v loc known;
    others = ladder-store-other loc.half (l' id b v loc known) (index' id b v loc known) b;
    index = refl;
    same_symbol = symbol-store loc.half (l' id b v loc known) (index' id b v loc known) b;
    valid = cancel-IsBook id b v loc known;
  },
)

-- On a valid book `CancelOrder` returns. An id that the book does not hold is refused, and the book is
-- left alone; any other order leaves it as `Cancels` says.
pub cancel_order_lem :
    (id : ℕ) (b : OrderBook)
    → IsBook b
    → ((b.orders id ≡ none) × (cancel_order id b ≡ some (none, b)))
      ⊎ ((loc : OrderLoc) × (b.orders id ≡ some loc)
          × ((r : Option Order × OrderBook) × (cancel_order id b ≡ some r)
              × Cancels id loc.half b r))
cancel_order_lem id b v = elim (Option-cases (b.orders id)) [
  | inl unknown ↦ inl (unknown, unfold cancel_order in rw (cancel_order, unknown) refl)
  | inr (loc, known) ↦ inr (loc, known, cancel_order-Cancels id b loc v known)
]
