-- ===== src/OrderBook/Rest/Remove.antt =====
-- The abstract `CancelOrder`: an order leaves a queue.
use oktrading.Prelude.{
  ℕ, ◌+◌, ◌≡◌, ◌≢◌, refl, true, false, some, List, [], ◌∷◌, ◌++◌, arith, ◌==◌, All, contains,
  Distinct, Bool-cases, inl, inr, subst, result_unique,
}
use oktrading.Types.{Order}
use oktrading.OrderBook.Match.Spec.{total}
use oktrading.OrderBook.Match.Ids.{ids}
use oktrading.OrderBook.Rest.{find_order, remove_order}

module _ (id : ℕ) where
  -- An id that the queue holds is found there.
  pub find_order-of :
      (os : List Order) → contains id (ids os) ≡ true → (o : Order) × (find_order id os ≡ some o)
  unfolding find_order
  find_order-of [] e = cc
  find_order-of (x ∷ os) e = elim (Bool-cases (x.order_id == id)) [
    | inl same ↦ (x, rw same refl)
    | inr ne ↦ rw ne (find_order-of os (ground (arith, ne, e)))
  ]

  pub find_order-id : (os : List Order) (o : Order) → find_order id os ≡ some o → o.order_id ≡ id
  unfolding find_order
  find_order-id [] o e = cc
  find_order-id (x ∷ os) o e = ground (arith, find_order-id os o)

  pub All-find_order {ℓ} :
      (P : Order → Type ℓ) (os : List Order) (o : Order)
      → find_order id os ≡ some o
      → All P os
      → P o
  unfolding find_order
  All-find_order P [] o e v = cc
  All-find_order P (x ∷ os) o e v = elim (Bool-cases (x.order_id == id)) [
    | inl same ↦ subst P (result_unique refl (rw same at e)) v.0
    | inr ne ↦ All-find_order P os o (rw ne at e) v.1
  ]

  pub All-remove_order {ℓ} :
      (P : Order → Type ℓ) (os : List Order) → All P os → All P (remove_order id os)
  unfolding remove_order
  All-remove_order P [] v = tt
  All-remove_order P (x ∷ os) v = elim (Bool-cases (x.order_id == id)) [
    | inl same ↦ rw same v.1
    | inr ne ↦ rw ne (v.0, All-remove_order P os v.1)
  ]

  -- The order takes its quantity with it.
  pub total-remove_order :
      (os : List Order) (o : Order)
      → find_order id os ≡ some o
      → total os ≡ o.remaining + total (remove_order id os)
  unfolding find_order remove_order total
  total-remove_order [] o e = cc
  total-remove_order (x ∷ os) o e = ground (arith, total-remove_order os o)

  pub remove_order-append :
      (os qs : List Order)
      → contains id (ids os) ≡ true
      → remove_order id (os ++ qs) ≡ remove_order id os ++ qs
  unfolding remove_order
  remove_order-append [] qs e = cc
  remove_order-append (x ∷ os) qs e = ground (arith, e, remove_order-append os qs)

  pub remove_order-append_right :
      (os qs : List Order)
      → contains id (ids os) ≡ false
      → remove_order id (os ++ qs) ≡ os ++ remove_order id qs
  unfolding remove_order
  remove_order-append_right [] qs e = refl
  remove_order-append_right (x ∷ os) qs e = ground (arith, e, remove_order-append_right os qs)

  pub remove_order_absent :
      (os : List Order) → contains id (ids os) ≡ false → remove_order id os ≡ os
  unfolding remove_order
  remove_order_absent [] e = refl
  remove_order_absent (x ∷ os) e = ground (arith, e, remove_order_absent os)

  -- Every other order stays.
  pub contains-remove_order :
      (x : ℕ) (os : List Order)
      → x ≢ id
      → contains x (ids (remove_order id os)) ≡ contains x (ids os)
  unfolding remove_order
  contains-remove_order x [] ne = refl
  contains-remove_order x (y ∷ os) ne = ground (arith, ne, contains-remove_order x os)

  -- Nothing comes in.
  contains-remove_order_le :
      (x : ℕ) (os : List Order)
      → contains x (ids os) ≡ false
      → contains x (ids (remove_order id os)) ≡ false
  unfolding remove_order
  contains-remove_order_le x [] e = refl
  contains-remove_order_le x (y ∷ os) e = ground (arith, e, contains-remove_order_le x os)

  pub remove_order-Distinct :
      (os : List Order)
      → Distinct (ids os)
      → Distinct (ids (remove_order id os)) × (contains id (ids (remove_order id os)) ≡ false)
  unfolding remove_order
  remove_order-Distinct [] d = (tt, refl)
  remove_order-Distinct (y ∷ os) d = elim (Bool-cases (y.order_id == id)) [
    | inl same ↦ rw same (d.1, ground (arith, same, d.0))
    | inr ne ↦
        let (d', out) = remove_order-Distinct os d.1 in
        rw ne ((contains-remove_order_le y.order_id os d.0, d'), ground (arith, ne, out))
  ]

  pub contains-find_order :
      (os : List Order) (o : Order) → find_order id os ≡ some o → contains id (ids os) ≡ true
  unfolding find_order
  contains-find_order [] o e = cc
  contains-find_order (x ∷ os) o e = ground (arith, contains-find_order os o)

  pub find_order-append :
      (os qs : List Order) (o : Order)
      → find_order id os ≡ some o
      → find_order id (os ++ qs) ≡ some o
  unfolding find_order
  find_order-append [] qs o e = cc
  find_order-append (x ∷ os) qs o e = ground (arith, find_order-append os qs o)

  pub find_order-append_right :
      (os qs : List Order)
      → contains id (ids os) ≡ false
      → find_order id (os ++ qs) ≡ find_order id qs
  unfolding find_order
  find_order-append_right [] qs e = refl
  find_order-append_right (x ∷ os) qs e = ground (arith, e, find_order-append_right os qs)
