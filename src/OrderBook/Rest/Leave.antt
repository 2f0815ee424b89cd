-- ===== src/OrderBook/Rest/Leave.antt =====
-- pkg/orderbook/orderbook.go, `CancelOrder`: the level of an id, and what is left of its side.
use oktrading.Prelude.{
  ℕ, ◌<◌, ◌≡◌, ◌≢◌, refl, sym, ap, ◌∙◌, true, false, Option, none, some, List, [], ◌∷◌, arith, All,
  contains, contains-append, Bool-cases, inl, inr, result_unique, nil_cases, fun_ext,
}
use oktrading.Prelude.Maps.{update, delete, delete_ne}
use oktrading.Types.{Order, Side}
use oktrading.OrderBook.Book.{
  Half, bid, ask, OrderLoc, Ladder, Index, OrderBook, PriceNode, ladder, remove_price,
}
use oktrading.OrderBook.Valid.{IsLadder, IsLevel, queue}
use oktrading.OrderBook.Invariant.{IsBook, IsUncrossed, ladder_queue, book_queue, side_of, store}
use oktrading.OrderBook.Match.Spec.{IsResting}
use oktrading.OrderBook.Match.Ids.{ids, ids-append, IsFiled}
use oktrading.OrderBook.Rest.{find_order, remove_order, cancel_at, prune, prune_half, is_empty}
use oktrading.OrderBook.Rest.Remove.{
  find_order-of, find_order-append, find_order-append_right, find_order-id, All-find_order,
  All-remove_order,
}
use oktrading.OrderBook.Rest.Level.{IsNode-of}
use oktrading.OrderBook.Rest.Prune.{without, remove_price_lem, IsLadder-without}
use oktrading.OrderBook.Rest.Shrink.{shrunk, shrunk-IsLadder, queue_shrinks, queue_goes}

-- The level at which an id stands, and the order with that id.
pub record Stands (id : ℕ) (prices : List ℕ) (nodes : ℕ → Option PriceNode) : Type 0 where
  pub price : ℕ
  pub node_of : PriceNode
  pub order : Order
  pub at : nodes price ≡ some node_of
  pub found : find_order id node_of.orders ≡ some order
  pub in_queue : find_order id (queue prices nodes) ≡ some order

stands :
    (id : ℕ) (ps : List ℕ) (nodes : ℕ → Option PriceNode)
    → All (IsLevel nodes) ps
    → contains id (ids (queue ps nodes)) ≡ true
    → Stands id ps nodes
stands id [] nodes v e = cc
stands id (q ∷ qs) nodes v e =
    let (n, at, vn, ne, ok) = v.0 in
    elim (Bool-cases (contains id (ids n.orders))) [
      | inl here ↦
          let (o, f) = find_order-of id n.orders here in
          record {
            price = q;
            node_of = n;
            order = o;
            at = at;
            found = f;
            in_queue = rw at (find_order-append id n.orders (queue qs nodes) o f);
          }
      | inr later ↦
          let split =
            rw
              (
                at,
                ids-append n.orders (queue qs nodes),
                contains-append id (ids n.orders) (ids (queue qs nodes)),
              )
              at e in
          let s = stands id qs nodes v.1 (ground (arith, later, split)) in
          record {
            price = s.price;
            node_of = s.node_of;
            order = s.order;
            at = s.at;
            found = s.found;
            in_queue =
                rw at (find_order-append_right id n.orders (queue qs nodes) later ∙ s.in_queue);
          }
    ]

prune-store :
    (h : Half) (p : ℕ) (l : Ladder) (index : Index) (b : OrderBook)
    → prune h p (store h l index b)
      ≡ store h (record { prices = remove_price h p l.prices; nodes = delete l.nodes p }) index b
unfolding prune
prune-store bid p l index b = refl
prune-store ask p l index b = refl

prune_half-side : (h : Half) (s : Side) → s ≡ side_of h → prune_half s ≡ h
unfolding prune_half
prune_half-side bid s e = ap prune_half e
prune_half-side ask s e = ap prune_half e

delete-update :
    (nodes : ℕ → Option PriceNode) (p : ℕ) (n : PriceNode)
    → delete (update nodes p n) p ≡ delete nodes p
unfolding delete update
delete-update nodes p n = fun_ext λ q. ground arith

is_empty_of : (os : List Order) → os ≢ [] → is_empty os ≡ false
unfolding is_empty
is_empty_of [] ne = absurd (ne refl)
is_empty_of (o ∷ os) ne = refl

pub All-IsFiled-delete :
    (index : Index) (id : ℕ) (h : Half) (side : Side) (os : List Order)
    → contains id (ids os) ≡ false
    → All (IsFiled index h side) os
    → All (IsFiled (delete index id) h side) os
All-IsFiled-delete index id h side [] out v = tt
All-IsFiled-delete index id h side (o ∷ os) out v =
    let apart : id ≢ o.order_id = ground (arith, out) in
    (
      (delete_ne index apart ∙ v.0.0, v.0.1),
      All-IsFiled-delete index id h side os (ground (arith, out)) v.1,
    )

pub none_not_some : {r : Option OrderLoc} {x : OrderLoc} → r ≡ none → r ≡ some x → ⊥
none_not_some a b = cc

pub IsUncrossed-remove :
    (id : ℕ) (h : Half) (b : OrderBook) (l : Ladder) (index : Index)
    → IsUncrossed b
    → ladder_queue l ≡ remove_order id (book_queue h b)
    → IsUncrossed (store h l index b)
IsUncrossed-remove id bid b l index u e = rw e (
    All-remove_order id (λ (x : Order). All (λ (y : Order). x.price < y.price) (book_queue ask b))
      (book_queue bid b) u)
IsUncrossed-remove id ask b l index u e = rw e (all_bids (book_queue bid b) u)
  where
    all_bids :
        (xs : List Order)
        → All (λ (x : Order). All (λ (y : Order). x.price < y.price) (book_queue ask b)) xs
        → All
            (λ (x : Order).
              All (λ (y : Order). x.price < y.price) (remove_order id (book_queue ask b)))
            xs
    all_bids [] w = tt
    all_bids (x ∷ xs) w = (
      All-remove_order id (λ (y : Order). x.price < y.price) (book_queue ask b) w.0,
      all_bids xs w.1,
    )

module _ (id : ℕ) (b : OrderBook) (v : IsBook b) (loc : OrderLoc)
    (known : b.orders id ≡ some loc) where
  abbrev pub h : Half
  h = loc.half

  abbrev pub l : Ladder
  l = ladder h b

  pub s : Stands id l.prices l.nodes
  s = stands id l.prices l.nodes (v.side h).valid.level_of (v.found id loc known)

  filed : IsFiled b.orders h (side_of h) s.order
  filed =
      All-find_order id (IsFiled b.orders h (side_of h)) (book_queue h b) s.order s.in_queue
        (v.side h).filed

  -- The index names the level.
  same_price : s.price ≡ loc.price
  same_price =
      let resting = (IsNode-of h l (v.side h).valid s.price s.node_of s.at).1.resting in
      let at_price =
        (All-find_order id (IsResting s.price) s.node_of.orders s.order s.found resting).at_price in
      let there : b.orders id ≡ some (record { half = h; price = s.order.price }) =
        rw (find_order-id id s.node_of.orders s.order s.found) at filed.0 in
      sym at_price ∙ ap (λ (x : OrderLoc). x.price) (result_unique there known)

  pub level_at : l.nodes loc.price ≡ some s.node_of
  level_at = rw same_price at s.at

  -- What is left of the side.
  pub record Leaves (l' : Ladder) : Type 0 where
    pub valid : IsLadder h l'.prices l'.nodes
    pub left : ladder_queue l' ≡ remove_order id (ladder_queue l)
    pub result : cancel_at id loc s.node_of s.order b ≡ store h l' (delete b.orders id) b

  abbrev n' : PriceNode
  n' = shrunk h id loc.price l.prices l.nodes (v.side h).valid s.node_of level_at s.order s.found

  abbrev b1 : OrderBook
  b1 = store h (record l { nodes = update l.nodes loc.price n' }) (delete b.orders id) b

  more_left :
      remove_order id s.node_of.orders ≢ []
      → Leaves (record l { nodes = update l.nodes loc.price n' })
  unfolding cancel_at
  more_left more = record {
    valid =
        shrunk-IsLadder h id loc.price l.prices l.nodes (v.side h).valid s.node_of level_at s.order
          s.found more;
    left =
        queue_shrinks h id loc.price l.prices l.nodes (v.side h).valid s.node_of level_at s.order
          s.found more (v.side h).distinct;
    result = rw (cancel_at, is_empty_of (remove_order id s.node_of.orders) more) refl;
  }

  node_price : s.node_of.price ≡ loc.price
  node_price = (IsNode-of h l (v.side h).valid loc.price s.node_of level_at).1.keyed

  price_held : contains loc.price l.prices ≡ true
  price_held = (IsNode-of h l (v.side h).valid loc.price s.node_of level_at).0

  pruned :
      remove_order id s.node_of.orders ≡ []
      → cancel_at id loc s.node_of s.order b ≡ prune (prune_half s.order.side) s.node_of.price b1
  unfolding cancel_at is_empty
  pruned last = rw (cancel_at, last) refl

  none_left :
      remove_order id s.node_of.orders ≡ []
      → Leaves (record { prices = without loc.price l.prices; nodes = delete l.nodes loc.price })
  none_left last = record {
    valid = IsLadder-without h loc.price l.prices l.nodes (v.side h).valid;
    left =
        queue_goes h id loc.price l.prices l.nodes (v.side h).valid s.node_of level_at s.order
          s.found last (v.side h).distinct;
    result =
        pruned last
        ∙ ap (λ k. prune k s.node_of.price b1) (prune_half-side h s.order.side filed.1)
        ∙ ap (λ p. prune h p b1) node_price
        ∙ prune-store h loc.price (record l { nodes = update l.nodes loc.price n' })
            (delete b.orders id) b
        ∙ rw
            (
              remove_price_lem h loc.price l.prices (v.side h).valid.sorted price_held,
              delete-update l.nodes loc.price n',
            )
            refl;
  }

  pub leaves : (l' : Ladder) × Leaves l'
  leaves = elim (nil_cases (remove_order id s.node_of.orders)) [
    | inl last ↦ (_, none_left last)
    | inr more ↦ (_, more_left more)
  ]
