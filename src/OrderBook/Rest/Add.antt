-- ===== src/OrderBook/Rest/Add.antt =====
-- pkg/orderbook/orderbook.go, `AddOrder`, on a valid book.
use oktrading.Prelude.{
  ℕ, ◌+◌, ◌<◌, ◌≡◌, ◌≢◌, refl, sym, ap, subst, ◌∙◌, true, false, Option, none, some, List, [], ◌∷◌,
  arith, ◌==◌, All, contains, Bool-cases, inl, inr, ==_iff, result_unique,
}
use oktrading.Prelude.Maps.{update, update_self, update_ne}
use oktrading.Int64.{IsNonneg}
use oktrading.Types.{Order, Side, status_open}
use oktrading.OrderBook.Book.{Half, bid, ask, other, OrderLoc, Ladder, Index, OrderBook, ladder}
use oktrading.OrderBook.Valid.{IsPrice, level}
use oktrading.OrderBook.Invariant.{
  IsSide, IsBook, IsUncrossed, ladder_queue, book_queue, side_of, store, half_cases,
  ladder-store_self, ladder-store-other, symbol-store,
}
use oktrading.OrderBook.Match.Spec.{total}
use oktrading.OrderBook.Match.Ids.{ids, IsFiled, filed_of_contains}
use oktrading.OrderBook.Match.Limit.{Better}
use oktrading.OrderBook.Rest.{push_back, add_half, add_side, add_order}
use oktrading.OrderBook.Rest.Enqueue.{enqueue, All-enqueue, contains-enqueue, enqueue-Distinct}
use oktrading.OrderBook.Rest.Level.{Pushed, push_back-Pushed}

-- An order that may rest: on the side of `h`, at a price and a quantity that are positive, with an id
-- that the book does not hold, without overflow of its level, and reaching no order of the other side.
pub record IsRestable (h : Half) (o : Order) (b : OrderBook) : Type 0 where
  pub its_side : o.side ≡ side_of h
  pub price : IsPrice o.price
  pub qty : 0 < o.remaining
  pub fresh : b.orders o.order_id ≡ none
  pub room : IsNonneg (total (level ((ladder h b).nodes o.price)) + o.remaining)
  pub apart : All (λ (x : Order). Better (other h) o.price x.price) (book_queue (other h) b)

clash : {r : Option OrderLoc} {l : OrderLoc} → r ≡ none → r ≡ some l → ⊥
clash a b = cc

IsFiled-update :
    (index : Index) (id : ℕ) (loc : OrderLoc) (h : Half) (side : Side) (os : List Order)
    → index id ≡ none
    → All (IsFiled index h side) os
    → All (IsFiled (update index id loc) h side) os
IsFiled-update index id loc h side [] fresh v = tt
IsFiled-update index id loc h side (x ∷ os) fresh v = (
  (
    update_ne index loc (λ (e : id ≡ x.order_id). absurd (clash (rw e at fresh) v.0.0)) ∙ v.0.0,
    v.0.1,
  ),
  IsFiled-update index id loc h side os fresh v.1,
)

IsUncrossed-enqueue :
    (h : Half) (o : Order) (b : OrderBook) (l : Ladder) (index : Index)
    → IsUncrossed b
    → ladder_queue l ≡ enqueue h o (book_queue h b)
    → All (λ (x : Order). Better (other h) o.price x.price) (book_queue (other h) b)
    → IsUncrossed (store h l index b)
IsUncrossed-enqueue bid o b l index u e apart = rw e (
    All-enqueue bid o (λ x. All (λ (y : Order). x.price < y.price) (book_queue ask b))
      (book_queue bid b) apart u)
IsUncrossed-enqueue ask o b l index u e apart = rw e (all_bids (book_queue bid b) u apart)
  where
    all_bids :
        (xs : List Order)
        → All (λ (x : Order). All (λ (y : Order). x.price < y.price) (book_queue ask b)) xs
        → All (λ (x : Order). x.price < o.price) xs
        → All
            (λ (x : Order).
              All (λ (y : Order). x.price < y.price) (enqueue ask o (book_queue ask b)))
            xs
    all_bids [] v w = tt
    all_bids (x ∷ xs) v w =
        (All-enqueue ask o (λ y. x.price < y.price) (book_queue ask b) w.0 v.0, all_bids xs v.1 w.1)

module _ (h : Half) (o : Order) (b : OrderBook) (v : IsBook b) (r : IsRestable h o b) where
  abbrev loc : OrderLoc
  loc = record { half = h; price = o.price }

  abbrev l' : Ladder
  l' = push_back h o (ladder h b)

  abbrev index' : Index
  index' = update b.orders o.order_id loc

  abbrev b' : OrderBook
  b' = store h l' index' b

  pushed : Pushed h o (ladder h b) (v.side h).valid r.price r.qty r.room l'
  pushed = push_back-Pushed h o (ladder h b) (v.side h).valid r.price r.qty r.room

  pub absent : (k : Half) → contains o.order_id (ids (book_queue k b)) ≡ false
  absent k = elim (Bool-cases (contains o.order_id (ids (book_queue k b)))) [
    | inl there ↦
        let (p, e) =
          filed_of_contains b.orders k (side_of k) (book_queue k b) o.order_id (v.side k).filed
            there in
        absurd (clash r.fresh e)
    | inr out ↦ out
  ]

  IsSide-self : IsSide h l' index'
  IsSide-self = record {
    valid = pushed.valid;
    filed = rw (pushed.joined) (
        All-enqueue h o (IsFiled index' h (side_of h)) (book_queue h b)
          (update_self b.orders o.order_id loc, r.its_side)
          (IsFiled-update b.orders o.order_id loc h (side_of h) (book_queue h b) r.fresh
            (v.side h).filed));
    distinct =
        rw (pushed.joined) (enqueue-Distinct h o (book_queue h b) (absent h) (v.side h).distinct);
  }

  IsSide-other : IsSide (other h) (ladder (other h) b) index'
  IsSide-other = record {
    valid = (v.side (other h)).valid;
    filed =
        IsFiled-update b.orders o.order_id loc (other h) (side_of (other h))
          (book_queue (other h) b) r.fresh (v.side (other h)).filed;
    distinct = (v.side (other h)).distinct;
  }

  queue_self : book_queue h b' ≡ enqueue h o (book_queue h b)
  queue_self = rw (ladder-store_self h l' index' b) pushed.joined

  -- The key that was written, and the others.
  written : (id : ℕ) (l : OrderLoc) → o.order_id ≡ id → index' id ≡ some l → h ≡ l.half
  written id l same e =
      let w : index' id ≡ some loc =
        subst (λ k. index' k ≡ some loc) same (update_self b.orders o.order_id loc) in
      ap (λ (x : OrderLoc). x.half) (result_unique w e)

  unwritten : (id : ℕ) (l : OrderLoc) → o.order_id ≢ id → index' id ≡ some l → b.orders id ≡ some l
  unwritten id l ne e = sym (update_ne b.orders loc ne) ∙ e

  in_other_half :
      (id : ℕ) (k : Half)
      → contains id (ids (book_queue k b)) ≡ true
      → contains id (ids (book_queue k b')) ≡ true
  in_other_half id =
      half_cases
        (λ k.
          contains id (ids (book_queue k b)) ≡ true → contains id (ids (book_queue k b')) ≡ true)
        h (λ was. rw (queue_self, contains-enqueue h o (book_queue h b) id, was) (ground arith))
        (λ was. rw (ladder-store-other h l' index' b) was)

  still_found :
      (id : ℕ) (l : OrderLoc) → index' id ≡ some l → contains id (ids (book_queue l.half b')) ≡ true
  still_found id l e = elim (Bool-cases (o.order_id == id)) [
    | inl same ↦
        let eq = (==_iff o.order_id id).0 same in
        subst (λ k. contains id (ids (book_queue k b')) ≡ true) (written id l eq e)
          (rw (queue_self, contains-enqueue h o (book_queue h b) id) (ground (arith, eq)))
    | inr ne ↦ in_other_half id l.half (v.found id l (unwritten id l (ground (arith, ne)) e))
  ]

  pub store-IsBook : IsBook b'
  store-IsBook = record {
    side =
        half_cases (λ k. IsSide k (ladder k b') b'.orders) h
          (rw (ladder-store_self h l' index' b) IsSide-self)
          (rw (ladder-store-other h l' index' b) IsSide-other);
    found = still_found;
    uncrossed = IsUncrossed-enqueue h o b l' index' v.uncrossed (pushed.joined) r.apart;
  }

-- What `AddOrder` leaves.
pub record Adds (h : Half) (o : Order) (b : OrderBook) (r : Order × OrderBook) : Type 0 where
  pub order : r.0 ≡ record o { status = status_open }
  pub joined : book_queue h r.1 ≡ enqueue h (record o { status = status_open }) (book_queue h b)
  pub others : ladder (other h) r.1 ≡ ladder (other h) b
  pub index : r.1.orders ≡ update b.orders o.order_id (record { half = h; price = o.price })
  pub same_symbol : r.1.symbol ≡ b.symbol
  pub valid : IsBook r.1

add_side-half :
    (h : Half) (o : Order) (b : OrderBook)
    → o.side ≡ side_of h
    → add_side o.side o b ≡ add_half h o b
add_side-half bid o b e = unfold add_side in ap (λ s. add_side s o b) e
add_side-half ask o b e = unfold add_side in ap (λ s. add_side s o b) e

opened :
    (h : Half) (o : Order) (b : OrderBook)
    → IsRestable h o b
    → IsRestable h (record o { status = status_open }) b
opened h o b r = record {
  its_side = r.its_side;
  price = r.price;
  qty = r.qty;
  fresh = r.fresh;
  room = r.room;
  apart = r.apart;
}

-- An order that may rest is opened, joins the queue of its side behind all that has price-time
-- priority over it and before all the rest, leaves the other side as it is, and the book stays valid.
pub add_order-Adds :
    (h : Half) (o : Order) (b : OrderBook)
    → IsBook b
    → IsRestable h o b
    → Adds h o b (add_order o b)
unfolding add_order add_half
add_order-Adds h o b v r =
    let o' = record o { status = status_open } in
    let r' = opened h o b r in
    rw (add_side-half h o' b r.its_side) (record {
      order = refl;
      joined = queue_self h o' b v r';
      others = ladder-store-other h (push_back h o' (ladder h b)) (index' h o' b v r') b;
      index = refl;
      same_symbol = symbol-store h (push_back h o' (ladder h b)) (index' h o' b v r') b;
      valid = store-IsBook h o' b v r';
    })
