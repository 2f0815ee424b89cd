-- ===== src/Disruptor/Refine.antt =====
-- pkg/disruptor/ring_buffer.go, `TryPush` and `TryPop`, against a bounded queue.
use oktrading.Prelude.{
  ℕ, suc, ◌+◌, ◌*◌, ◌%◌, ◌^◌, ◌≤◌, ◌<◌, ◌≡◌, ◌≢◌, refl, ap, sym, ◌∙◌, Bool, true, false, Option,
  none, some, List, [], ◌∷◌, ◌++◌, arith, length, inl, inr, leb, ◌==◌, if◌then◌else◌, Bool-cases,
}
use oktrading.Prelude.Maps.{update}
use oktrading.Int64.{add64, sub64}
use oktrading.Disruptor.{RingBuffer, slot_of, capacity, try_push, try_pop}
use oktrading.Disruptor.Window.{window, length-window, window-update, wrap_mod}

-- The counters are in range, the producer is at most a round ahead, and the capacity is a proper
-- divisor of 2 ^ 64.
pub record IsRing {ℓ} {A : Type ℓ} (rounds : ℕ) (rb : RingBuffer A) : Type 0 where
  pub divides : 2 ^ 64 ≡ rounds * (rb.mask + 1)
  pub small : rb.mask + 1 < 2 ^ 64
  pub head_in : rb.head < 2 ^ 64
  pub tail_in : rb.tail < 2 ^ 64
  pub filled : sub64 rb.head rb.tail ≤ rb.mask + 1

-- A client's calls, and what each answers.
pub data Op {ℓ} (A : Type ℓ) : Type ℓ where
  push : A → Op A
  pop : Op A

pub data Reply {ℓ} (A : Type ℓ) : Type ℓ where
  pushed : Bool → Reply A
  popped : Option (Option A) → Reply A

module _ {ℓ} {A : Type ℓ} where
  pub run : RingBuffer A → List (Op A) → List (Reply A)
  run rb [] = []
  run rb (push x ∷ ops) = let (done, rb') = try_push rb x in pushed done ∷ run rb' ops
  run rb (pop ∷ ops) = let (out, rb') = try_pop rb in popped out ∷ run rb' ops

  -- The bounded queue.
  queue_push : ℕ → List (Option A) → A → Bool × List (Option A)
  queue_push cap q x = if leb cap (length q) then (false, q) else (true, q ++ (some x ∷ []))

  queue_pop : List (Option A) → Option (Option A) × List (Option A)
  queue_pop [] = (none, [])
  queue_pop (x ∷ q) = (some x, q)

  pub queue_run : ℕ → List (Option A) → List (Op A) → List (Reply A)
  unfolding queue_push queue_pop
  queue_run cap q [] = []
  queue_run cap q (push x ∷ ops) =
      let (done, q') = queue_push cap q x in pushed done ∷ queue_run cap q' ops
  queue_run cap q (pop ∷ ops) = let (out, q') = queue_pop q in popped out ∷ queue_run cap q' ops

-- What the ring holds, oldest first.
abbrev pub contents {ℓ} : {A : Type ℓ} → RingBuffer A → List (Option A)
contents rb = window (rb.mask + 1) rb.slots rb.tail (sub64 rb.head rb.tail)

module _ {ℓ} {A : Type ℓ} (rounds : ℕ) (rb : RingBuffer A) (v : IsRing rounds rb) where
  pub length-contents : length (contents rb) ≡ sub64 rb.head rb.tail
  length-contents = length-window (rb.mask + 1) rb.slots rb.tail (sub64 rb.head rb.tail)

  -- `head` is `tail` and as many steps as the ring holds.
  head_of_tail : (rb.tail + sub64 rb.head rb.tail) % 2 ^ 64 ≡ rb.head
  head_of_tail = unfold sub64 in omega (arith, v.head_in, v.tail_in)

  module _ (x : A) (free : sub64 rb.head rb.tail < rb.mask + 1) where
    grown : sub64 (add64 rb.head 1) rb.tail ≡ suc (sub64 rb.head rb.tail)
    unfolding add64 sub64
    grown = omega (arith, v.head_in, v.tail_in, free, v.small)

    slot_written : slot_of rb rb.head ≡ (rb.tail + sub64 rb.head rb.tail) % (rb.mask + 1)
    slot_written =
        ap (λ k. k % (rb.mask + 1)) (sym head_of_tail)
        ∙ wrap_mod (rb.mask + 1) rounds (omega arith) v.divides (rb.tail + sub64 rb.head rb.tail)

    abbrev pub after_push : RingBuffer A
    after_push = record rb {
      slots = update rb.slots (slot_of rb rb.head) x;
      head = add64 rb.head 1;
    }

    pub contents-push : contents after_push ≡ contents rb ++ (some x ∷ [])
    contents-push = rw grown (
        window-update (rb.mask + 1) rounds (omega arith) v.divides rb.slots x
          (sub64 rb.head rb.tail) rb.tail (slot_of rb rb.head) free slot_written)

    pub push-IsRing : IsRing rounds after_push
    push-IsRing = record {
      divides = v.divides;
      small = v.small;
      head_in = unfold add64 in omega arith;
      tail_in = v.tail_in;
      filled = omega (arith, grown, free);
    }

  pub contents-idle : (rb.head == rb.tail) ≡ true → contents rb ≡ []
  contents-idle idle = rw (none_between idle) refl
    where
      none_between : (rb.head == rb.tail) ≡ true → sub64 rb.head rb.tail ≡ 0
      none_between e =
          let same : rb.head ≡ rb.tail = ground (arith, e) in
          unfold sub64 in omega (arith, same, v.head_in, v.tail_in)

  module _ (busy : (rb.head == rb.tail) ≡ false) where
    abbrev pub after_pop : RingBuffer A
    after_pop = record rb { tail = add64 rb.tail 1 }

    shrunk : suc (sub64 rb.head (add64 rb.tail 1)) ≡ sub64 rb.head rb.tail
    shrunk =
        let ne : rb.head ≢ rb.tail = ground (arith, busy) in
        unfold add64 sub64 in omega (arith, v.head_in, v.tail_in, ne)

    pub contents-pop : contents rb ≡ rb.slots (slot_of rb rb.tail) ∷ contents after_pop
    contents-pop = rw (← shrunk) (unfold add64 in refl)

    pub pop-IsRing : IsRing rounds after_pop
    pop-IsRing = record {
      divides = v.divides;
      small = v.small;
      head_in = v.head_in;
      tail_in = unfold add64 in omega arith;
      filled = omega (arith, shrunk, v.filled);
    }

module _ {ℓ} {A : Type ℓ} (rounds : ℕ) where
  push_full :
      (rb : RingBuffer A) (x : A)
      → leb (capacity rb) (sub64 rb.head rb.tail) ≡ true
      → try_push rb x ≡ (false, rb)
  unfolding try_push
  push_full rb x full = rw (try_push, full) refl

  push_free :
      (rb : RingBuffer A) (v : IsRing rounds rb) (x : A)
      (free : sub64 rb.head rb.tail < rb.mask + 1)
      → try_push rb x ≡ (true, after_push rounds rb v x free)
  unfolding try_push
  push_free rb v x free =
      let e : leb (capacity rb) (sub64 rb.head rb.tail) ≡ false = ground arith in
      rw (try_push, e) refl

  pop_empty : (rb : RingBuffer A) → (rb.head == rb.tail) ≡ true → try_pop rb ≡ (none, rb)
  unfolding try_pop
  pop_empty rb e = rw (try_pop, e) refl

  pop_busy :
      (rb : RingBuffer A)
      → (rb.head == rb.tail) ≡ false
      → try_pop rb ≡ (some (rb.slots (slot_of rb rb.tail)), record rb { tail = add64 rb.tail 1 })
  unfolding try_pop
  pop_busy rb e = rw (try_pop, e) refl

  -- No sequence of calls tells a ring from a bounded queue of its contents: a push is refused exactly
  -- when the queue is full, a pop exactly when it is empty, and the items come out in order.
  pub run_refines :
      (ops : List (Op A)) (rb : RingBuffer A)
      → IsRing rounds rb
      → run rb ops ≡ queue_run (rb.mask + 1) (contents rb) ops
  unfolding run queue_run
  run_refines [] rb v = refl
  run_refines (push x ∷ ops) rb v = elim (Bool-cases (leb (rb.mask + 1) (sub64 rb.head rb.tail))) [
    | inl full ↦
        rw (push_full rb x full, length-contents rounds rb v, full)
          (ap (λ r. pushed false ∷ r) (run_refines ops rb v))
    | inr free ↦
        let lt : sub64 rb.head rb.tail < rb.mask + 1 = ground (arith, free) in
        rw
          (push_free rb v x lt, length-contents rounds rb v, free, ← contents-push rounds rb v x lt)
          (ap (λ r. pushed true ∷ r)
            (run_refines ops (after_push rounds rb v x lt) (push-IsRing rounds rb v x lt)))
  ]
  run_refines (pop ∷ ops) rb v = elim (Bool-cases (rb.head == rb.tail)) [
    | inl idle ↦
        let nil = contents-idle rounds rb v idle in
        rw (pop_empty rb idle, nil) (ap (λ r. popped none ∷ r) (rw nil at (run_refines ops rb v)))
    | inr busy ↦
        rw (pop_busy rb busy, contents-pop rounds rb v busy)
          (ap (λ r. popped (some (rb.slots (slot_of rb rb.tail))) ∷ r)
            (run_refines ops (record rb { tail = add64 rb.tail 1 }) (pop-IsRing rounds rb v busy)))
  ]
