-- ===== src/OrderBook/Rest/Level.antt =====
-- pkg/orderbook/orderbook.go: the side of the book after `AddOrder`.
use oktrading.Prelude.{
  ℕ, ◌+◌, ◌≤◌, ◌<◌, ◌≡◌, ◌≢◌, refl, sym, ap, subst, ◌∙◌, true, Option, none, some, List, [], ◌∷◌,
  ◌++◌, append_assoc, arith, ltb, ◌==◌, All, All-append, contains, All_contains, Bool-cases,
  Option-cases, inl, inr, ==_iff, result_unique,
}
use oktrading.Prelude.Maps.{update, update_self, update_ne}
use oktrading.Int64.{add64, add64_lem, IsNonneg}
use oktrading.Types.{Order}
use oktrading.OrderBook.Book.{Half, PriceNode, Ladder}
use oktrading.OrderBook.Book.Prices.{
  insert_sorted, insert_price_lem, All-insert_sorted, insert_sorted-IsSorted,
  contains-insert_sorted, rank_injective, ranks_mono,
}
use oktrading.OrderBook.Valid.{
  rank, IsSorted, IsPrice, IsLevel, IsLadder, queue, level, queue_elsewhere,
}
use oktrading.OrderBook.Rest.{push_back}
use oktrading.OrderBook.Rest.Enqueue.{enqueue, enqueue_skip, enqueue_front, All-queue, All-level}
use oktrading.OrderBook.Match.Spec.{total, IsResting, IsNode}
use oktrading.OrderBook.Match.Queue.{total-append}

-- A level whose node was replaced at one price.
pub IsLevel-update :
    (nodes : ℕ → Option PriceNode) (p : ℕ) (n : PriceNode) (ps : List ℕ)
    → IsLevel (update nodes p n) p
    → All (IsLevel nodes) ps
    → All (IsLevel (update nodes p n)) ps
IsLevel-update nodes p n [] new v = tt
IsLevel-update nodes p n (q ∷ ps) new v = (
  elim (Bool-cases (p == q)) [
    | inl same ↦ subst (IsLevel (update nodes p n)) ((==_iff p q).0 same) new
    | inr ne ↦ (v.0.0, update_ne nodes n (ground (arith, ne)) ∙ v.0.1, v.0.2, v.0.3, v.0.4)
  ],
  IsLevel-update nodes p n ps new v.1,
)

pub missing_not_some : {r : Option PriceNode} {m : PriceNode} → r ≡ none → r ≡ some m → ⊥
missing_not_some a b = cc

-- A node of a valid side stands under a price of the slice, and is valid.
pub IsNode-of :
    (h : Half) (l : Ladder)
    → IsLadder h l.prices l.nodes
    → (p : ℕ) (n : PriceNode) → l.nodes p ≡ some n
    → (contains p l.prices ≡ true) × IsNode p n
IsNode-of h l v p n at = elim (Bool-cases (contains p l.prices)) [
  | inl has ↦
      let (n', at', vn, ne, ok) = All_contains (IsLevel l.nodes) p l.prices v.level_of has in
      (has, subst (IsNode p) (result_unique at' at) vn)
  | inr out ↦ absurd (missing_not_some (v.only p out) at)
]

module _ (h : Half) (o : Order) (l : Ladder) (v : IsLadder h l.prices l.nodes)
    (price : IsPrice o.price) (qty : 0 < o.remaining)
    (room : IsNonneg (total (level (l.nodes o.price)) + o.remaining)) where
  abbrev n0 : PriceNode
  n0 = record { price = o.price; quantity = add64 0 o.remaining; orders = o ∷ [] }

  n0-IsLevel : IsLevel (update l.nodes o.price n0) o.price
  n0-IsLevel = (
    n0,
    update_self l.nodes o.price n0,
    record {
      keyed = refl;
      cached = unfold total in omega (arith, add64_lem 0 o.remaining);
      bounded = unfold total in omega arith;
      resting = (record { at_price = refl; open_qty = qty }, tt);
    },
    (λ e. cc),
    price,
  )

  ranks_of_missing :
      (ps : List ℕ)
      → l.nodes o.price ≡ none
      → All (IsLevel l.nodes) ps
      → All (λ q. rank h o.price ≢ rank h q) ps
  ranks_of_missing [] e w = tt
  ranks_of_missing (q ∷ ps) e w = (
    (λ same.
        let eq =
          rank_injective h o.price q (omega (arith, price.1)) (omega (arith, w.0.4.1)) same in
        absurd (missing_not_some (rw eq at e) w.0.1)),
    ranks_of_missing ps e w.1,
  )

  module _ (missing : l.nodes o.price ≡ none) where
    new_level-IsLadder : IsLadder h (insert_sorted h o.price l.prices) (update l.nodes o.price n0)
    new_level-IsLadder = record {
      sorted =
          insert_sorted-IsSorted h o.price l.prices (ranks_of_missing l.prices missing v.level_of)
            v.sorted;
      level_of =
          All-insert_sorted h o.price (IsLevel (update l.nodes o.price n0)) l.prices n0-IsLevel
            (IsLevel-update l.nodes o.price n0 l.prices n0-IsLevel v.level_of);
      only = λ q out.
          unfold update in
          ground (arith, contains-insert_sorted h o.price l.prices q, out, v.only q);
    }

  better_level :
      (q : ℕ)
      → IsLevel l.nodes q
      → rank h q < rank h o.price
      → All (λ (x : Order). rank h x.price ≤ rank h o.price) (level (l.nodes q))
  better_level q (n, at, vn, ne, ok) lt =
      rw at (All-level (λ x. rank h x ≤ rank h o.price) q (omega arith) n.orders vn.resting)

  worse_queue :
      (q : ℕ) (ps : List ℕ)
      → IsSorted h (q ∷ ps)
      → All (IsLevel l.nodes) (q ∷ ps)
      → rank h o.price < rank h q
      → All (λ (x : Order). rank h o.price < rank h x.price) (queue (q ∷ ps) l.nodes)
  worse_queue q ps s w lt =
      All-queue (λ x. rank h o.price < rank h x) l.nodes (q ∷ ps)
        (lt, ranks_mono h o.price q ps (omega arith) s.0) w

  new_level_queue :
      (ps : List ℕ)
      → IsSorted h ps
      → All (IsLevel l.nodes) ps
      → All (λ q. rank h o.price ≢ rank h q) ps
      → queue (insert_sorted h o.price ps) (update l.nodes o.price n0)
        ≡ enqueue h o (queue ps l.nodes)
  unfolding insert_sorted
  new_level_queue [] s w ne = rw (update_self l.nodes o.price n0) (unfold enqueue in refl)
  new_level_queue (q ∷ ps) s w ne = elim (Bool-cases (ltb (rank h q) (rank h o.price))) [
    | inl below ↦
        rw
          (
            below,
            update_ne l.nodes n0 (λ (e : o.price ≡ q). ne.0 (ap (rank h) e)),
            new_level_queue ps s.1 w.1 ne.1,
          )
          (sym (
            enqueue_skip h o (level (l.nodes q)) (queue ps l.nodes)
              (better_level q w.0 (ground (arith, below)))))
    | inr above ↦
        let lt : rank h o.price < rank h q = ground (arith, above, ne.0) in
        let lts : All (λ x. rank h o.price < rank h x) (q ∷ ps) =
          (lt, ranks_mono h o.price q ps (omega arith) s.0) in
        rw
          (
            above,
            update_self l.nodes o.price n0,
            enqueue_front h o (queue (q ∷ ps) l.nodes) (worse_queue q ps s w lt),
          )
          (ap (λ r. o ∷ r)
            (queue_elsewhere h l.nodes (update l.nodes o.price n0) o.price
              (λ x d. update_ne l.nodes n0 d) (q ∷ ps) lts))
  ]

  -- An order at a price that the book already holds.
  module _ (n : PriceNode) (at : l.nodes o.price ≡ some n) (vn : IsNode o.price n) where
    abbrev n1 : PriceNode
    n1 = record n { quantity = add64 n.quantity o.remaining; orders = n.orders ++ (o ∷ []) }

    fits : IsNonneg (total n.orders + o.remaining)
    fits = rw at at room

    grown : total (n.orders ++ (o ∷ [])) ≡ total n.orders + o.remaining
    grown = total-append n.orders (o ∷ []) ∙ (unfold total in omega arith)

    append-ne-nil : (os : List Order) → os ++ (o ∷ []) ≢ []
    append-ne-nil [] e = cc
    append-ne-nil (x ∷ os) e = cc

    n1-IsLevel : IsLevel (update l.nodes o.price n1) o.price
    n1-IsLevel = (
      n1,
      update_self l.nodes o.price n1,
      record {
        keyed = vn.keyed;
        cached = omega (arith, add64_lem n.quantity o.remaining, fits, grown, vn.cached);
        bounded = omega (arith, fits, grown);
        resting =
            All-append (IsResting o.price) n.orders (o ∷ []) vn.resting
              (record { at_price = refl; open_qty = qty }, tt);
      },
      append-ne-nil n.orders,
      price,
    )

    old_level-IsLadder : IsLadder h l.prices (update l.nodes o.price n1)
    old_level-IsLadder = record {
      sorted = v.sorted;
      level_of = IsLevel-update l.nodes o.price n1 l.prices n1-IsLevel v.level_of;
      only = λ q out. elim (Bool-cases (o.price == q)) [
        | inl same ↦ absurd (missing_not_some (rw ((==_iff o.price q).0 same) (v.only q out)) at)
        | inr ne ↦ update_ne l.nodes n1 (ground (arith, ne)) ∙ v.only q out
      ];
    }

    -- The first price that is not better is the order's own.
    here :
        (q : ℕ) (ps : List ℕ)
        → IsSorted h (q ∷ ps)
        → contains o.price (q ∷ ps) ≡ true
        → rank h o.price ≤ rank h q
        → q ≡ o.price
    here q ps s e le = elim (Bool-cases (o.price == q)) [
      | inl same ↦ sym ((==_iff o.price q).0 same)
      | inr ne ↦
          let lt : rank h q < rank h o.price =
            All_contains (λ x. rank h q < rank h x) o.price ps s.0 (ground (arith, ne, e)) in
          absurd (omega arith)
    ]

    old_level_queue :
        (ps : List ℕ)
        → IsSorted h ps
        → All (IsLevel l.nodes) ps
        → contains o.price ps ≡ true
        → queue ps (update l.nodes o.price n1) ≡ enqueue h o (queue ps l.nodes)
    old_level_queue [] s w e = cc
    old_level_queue (q ∷ ps) s w e = elim (Bool-cases (ltb (rank h q) (rank h o.price))) [
      | inl below ↦
          let ne : o.price ≢ q = λ d. absurd (ground (arith, below, ap (rank h) d)) in
          rw (update_ne l.nodes n1 ne, old_level_queue ps s.1 w.1 (ground (arith, ne, e)))
            (sym (
              enqueue_skip h o (level (l.nodes q)) (queue ps l.nodes)
                (better_level q w.0 (ground (arith, below)))))
      | inr above ↦
          let eq : q ≡ o.price = here q ps s e (ground (arith, above)) in
          let lt : All (λ x. rank h o.price < rank h x) ps = rw eq at s.0 in
          rw
            (
              eq,
              update_self l.nodes o.price n1,
              at,
              queue_elsewhere h l.nodes (update l.nodes o.price n1) o.price
                  (λ x d. update_ne l.nodes n1 d) ps lt,
              enqueue_skip h o n.orders (queue ps l.nodes) (
                  All-level (λ x. rank h x ≤ rank h o.price) o.price (omega arith) n.orders
                    vn.resting),
              enqueue_front h o (queue ps l.nodes)
                  (All-queue (λ x. rank h o.price < rank h x) l.nodes ps lt w.1),
            )
            (append_assoc n.orders (o ∷ []) (queue ps l.nodes))
    ]

  -- The result is a valid side, and its queue is that of the side with the order in its place.
  pub record Pushed (l' : Ladder) : Type 0 where
    pub valid : IsLadder h l'.prices l'.nodes
    pub joined : queue l'.prices l'.nodes ≡ enqueue h o (queue l.prices l.nodes)

  push_back_new :
      l.nodes o.price ≡ none
      → push_back h o l
        ≡ record { prices = insert_sorted h o.price l.prices; nodes = update l.nodes o.price n0 }
  unfolding push_back
  push_back_new missing = rw (push_back, missing, insert_price_lem h o.price l.prices v.sorted) refl

  push_back_old :
      (n : PriceNode) (at : l.nodes o.price ≡ some n) (vn : IsNode o.price n)
      → push_back h o l ≡ record l { nodes = update l.nodes o.price (n1 n at vn) }
  unfolding push_back
  push_back_old n at vn = rw (push_back, at) refl

  pub push_back-Pushed : Pushed (push_back h o l)
  push_back-Pushed = elim (Option-cases (l.nodes o.price)) [
    | inl missing ↦ rw (push_back_new missing) (record {
      valid = new_level-IsLadder missing;
      joined =
          new_level_queue l.prices v.sorted v.level_of
            (ranks_of_missing l.prices missing v.level_of);
    })
    | inr (n, at) ↦
        let (has, vn) = IsNode-of h l v o.price n at in
        rw (push_back_old n at vn) (record {
          valid = old_level-IsLadder n at vn;
          joined = old_level_queue n at vn l.prices v.sorted v.level_of has;
        })
  ]
