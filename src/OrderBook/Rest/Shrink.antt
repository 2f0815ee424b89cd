-- ===== src/OrderBook/Rest/Shrink.antt =====
-- One side of a valid book from which an order leaves: its node shrinks, or goes with its price.
use oktrading.Prelude.{
  ℕ, ◌<◌, ◌≡◌, ◌≢◌, refl, sym, ap, subst, ◌∙◌, true, Option, some, List, [], ◌∷◌, ◌++◌, arith, ◌==◌,
  All, contains, contains-append, Distinct, Distinct-apart, Distinct-right, All_contains,
  Bool-cases, inl, inr, ==_iff,
}
use oktrading.Prelude.Maps.{update, delete, update_self, update_ne, delete_ne}
use oktrading.Int64.{sub64, sub64_lem}
use oktrading.Types.{Order}
use oktrading.OrderBook.Book.{Half, PriceNode}
use oktrading.OrderBook.Valid.{
  rank, IsSorted, IsPrice, IsLevel, IsLadder, queue, level, queue_elsewhere,
}
use oktrading.OrderBook.Match.Spec.{IsNode, IsResting}
use oktrading.OrderBook.Match.Ids.{ids, ids-append}
use oktrading.OrderBook.Rest.{find_order, remove_order}
use oktrading.OrderBook.Rest.Level.{IsLevel-update, IsNode-of, missing_not_some}
use oktrading.OrderBook.Rest.Remove.{
  All-remove_order, total-remove_order, remove_order-append, remove_order-append_right,
  contains-find_order,
}
use oktrading.OrderBook.Rest.Prune.{without}

module _ (h : Half) (id p : ℕ) (prices : List ℕ) (nodes : ℕ → Option PriceNode)
    (v : IsLadder h prices nodes) (n : PriceNode) (at : nodes p ≡ some n) (o : Order)
    (found : find_order id n.orders ≡ some o) where
  -- The node without the order.
  abbrev pub shrunk : PriceNode
  shrunk = record n { quantity = sub64 n.quantity o.remaining; orders = remove_order id n.orders }

  held : contains p prices ≡ true
  held = (IsNode-of h (record { prices = prices; nodes = nodes }) v p n at).0

  node : IsNode p n
  node = (IsNode-of h (record { prices = prices; nodes = nodes }) v p n at).1

  shrunk-IsNode : IsNode p shrunk
  shrunk-IsNode =
      let sum = total-remove_order id n.orders o found in
      let less =
        sub64_lem n.quantity o.remaining (omega (arith, sum, node.cached))
          (omega (arith, node.cached, node.bounded)) in
      record {
        keyed = node.keyed;
        cached = omega (arith, sum, less, node.cached);
        bounded = omega (arith, sum, node.bounded);
        resting = All-remove_order id (IsResting p) n.orders node.resting;
      }

  in_queue : (ps : List ℕ) → contains p ps ≡ true → contains id (ids (queue ps nodes)) ≡ true
  in_queue [] e = cc
  in_queue (q ∷ qs) e =
      rw
        (
          ids-append (level (nodes q)) (queue qs nodes),
          contains-append id (ids (level (nodes q))) (ids (queue qs nodes)),
        )
        (elim (Bool-cases (p == q)) [
          | inl same ↦
              let eq : q ≡ p = sym ((==_iff p q).0 same) in
              rw (eq, at, contains-find_order id n.orders o found) refl
          | inr ne ↦ ground (arith, in_queue qs (ground (arith, ne, e)))
        ])

  -- The levels before that of the order do not hold its id.
  skips :
      (q : ℕ) (qs : List ℕ)
      → contains p qs ≡ true
      → Distinct (ids (level (nodes q) ++ queue qs nodes))
      → remove_order id (level (nodes q) ++ queue qs nodes)
        ≡ level (nodes q) ++ remove_order id (queue qs nodes)
  skips q qs e d = remove_order-append_right id (level (nodes q)) (queue qs nodes) (
      Distinct-apart id (ids (level (nodes q))) (ids (queue qs nodes))
        (subst Distinct (ids-append (level (nodes q)) (queue qs nodes)) d) (in_queue qs e))

  rest-Distinct :
      (q : ℕ) (qs : List ℕ)
      → Distinct (ids (level (nodes q) ++ queue qs nodes))
      → Distinct (ids (queue qs nodes))
  rest-Distinct q qs d =
      Distinct-right (ids (level (nodes q))) (ids (queue qs nodes))
        (subst Distinct (ids-append (level (nodes q)) (queue qs nodes)) d)

  -- At the level of the order.
  leaves_level :
      (qs : List ℕ)
      → remove_order id (level (nodes p) ++ queue qs nodes)
        ≡ remove_order id n.orders ++ queue qs nodes
  leaves_level qs =
      rw at
        (remove_order-append id n.orders (queue qs nodes) (contains-find_order id n.orders o found))

  -- The order was not the last one at its price.
  module _ (more : remove_order id n.orders ≢ []) where
    shrunk-IsLevel : IsPrice p → IsLevel (update nodes p shrunk) p
    shrunk-IsLevel ok = (shrunk, update_self nodes p shrunk, shrunk-IsNode, more, ok)

    IsPrice-of : (ps : List ℕ) → contains p ps ≡ true → All (IsLevel nodes) ps → IsPrice p
    IsPrice-of ps e w = (All_contains (IsLevel nodes) p ps w e).4

    pub shrunk-IsLadder : IsLadder h prices (update nodes p shrunk)
    shrunk-IsLadder = record {
      sorted = v.sorted;
      level_of =
          IsLevel-update nodes p shrunk prices (shrunk-IsLevel (IsPrice-of prices held v.level_of))
            v.level_of;
      only = λ q out. elim (Bool-cases (p == q)) [
        | inl same ↦ absurd (missing_not_some (rw ((==_iff p q).0 same) (v.only q out)) at)
        | inr ne ↦ update_ne nodes shrunk (ground (arith, ne)) ∙ v.only q out
      ];
    }

    shrinks :
        (ps : List ℕ)
        → IsSorted h ps
        → contains p ps ≡ true
        → Distinct (ids (queue ps nodes))
        → queue ps (update nodes p shrunk) ≡ remove_order id (queue ps nodes)
    shrinks [] s e d = cc
    shrinks (q ∷ qs) s e d = elim (Bool-cases (p == q)) [
      | inl same ↦
          let eq : q ≡ p = sym ((==_iff p q).0 same) in
          let lt : All (λ x. rank h p < rank h x) qs = rw eq at s.0 in
          rw (eq, leaves_level qs, update_self nodes p shrunk)
            (ap (λ r. remove_order id n.orders ++ r)
              (queue_elsewhere h nodes (update nodes p shrunk) p (λ x d. update_ne nodes shrunk d)
                qs lt))
      | inr ne ↦
          let there : contains p qs ≡ true = ground (arith, ne, e) in
          let apart : p ≢ q = ground (arith, ne) in
          rw (update_ne nodes shrunk apart, skips q qs there d)
            (ap (λ r. level (nodes q) ++ r) (shrinks qs s.1 there (rest-Distinct q qs d)))
    ]

    pub queue_shrinks :
        Distinct (ids (queue prices nodes))
        → queue prices (update nodes p shrunk) ≡ remove_order id (queue prices nodes)
    queue_shrinks d = shrinks prices v.sorted held d

  -- The order was the last one at its price.
  module _ (last : remove_order id n.orders ≡ []) where
    goes :
        (ps : List ℕ)
        → IsSorted h ps
        → contains p ps ≡ true
        → Distinct (ids (queue ps nodes))
        → queue (without p ps) (delete nodes p) ≡ remove_order id (queue ps nodes)
    unfolding without
    goes [] s e d = cc
    goes (q ∷ qs) s e d = elim (Bool-cases (p == q)) [
      | inl same ↦
          let eq : q ≡ p = sym ((==_iff p q).0 same) in
          let lt : All (λ x. rank h p < rank h x) qs = rw eq at s.0 in
          rw (same, eq, leaves_level qs, last)
            (queue_elsewhere h nodes (delete nodes p) p (λ x d. delete_ne nodes d) qs lt)
      | inr ne ↦
          let there : contains p qs ≡ true = ground (arith, ne, e) in
          let apart : p ≢ q = ground (arith, ne) in
          rw (ne, delete_ne nodes apart, skips q qs there d)
            (ap (λ r. level (nodes q) ++ r) (goes qs s.1 there (rest-Distinct q qs d)))
    ]

    pub queue_goes :
        Distinct (ids (queue prices nodes))
        → queue (without p prices) (delete nodes p) ≡ remove_order id (queue prices nodes)
    queue_goes d = goes prices v.sorted held d
