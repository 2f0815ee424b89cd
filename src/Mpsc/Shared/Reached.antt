-- ===== src/Mpsc/Shared/Reached.antt =====
-- The states of a shared ring that steps reach from a new one.
use oktrading.Prelude.{
  ℕ, zero, suc, ◌+◌, ◌-◌, ◌*◌, ◌^◌, ◌≤◌, ◌<◌, ◌≡◌, refl, sym, ap, ◌∙◌, arith, length, length-append,
  [], ◌∷◌, max,
}
use native.Mathlib.Nat.{div-eq_of_lt}
use oktrading.Bits.{bits_len, bits_len_lem, pow_gap, pow_pos}
use oktrading.Mpsc.{new, next_pow2}
use oktrading.Mpsc.Capacity.{next_pow2_lem}
use oktrading.Mpsc.Shared.{
  Memory, Pc, Consumer, Move, call, load, refuse, pass, lose, win, write, publish, Poll, nothing,
  find, take_cmd, clear, advance, System, Step, produce, consume, start_of, Reach, start, later,
}
use oktrading.Mpsc.Shared.Cells.{span}
use oktrading.Mpsc.Shared.Invariant.{Inv, IsSmall}
use oktrading.Mpsc.Shared.Invariant.Produce.{Move-Inv}
use oktrading.Mpsc.Shared.Invariant.Consume.{Poll-Inv}

-- The numbers of a new ring.
power_log2 : (size l : ℕ) → size ≡ 2 ^ suc l → size ≤ 2 ^ 62 → 2 ^ (bits_len size - 1) ≡ size
power_log2 size l e le =
    let (above, below) = bits_len_lem size (omega (arith, le)) in go (bits_len size) above below
  where
    go : (b : ℕ) → size < 2 ^ b → 2 ^ b ≤ max 1 (2 * size) → 2 ^ (b - 1) ≡ size
    go zero above below = absurd (omega (arith, above, e, pow_pos l))
    go (suc b) above below =
        ap (λ k. 2 ^ k) b_eq
        ∙ omega (arith, pow_gap (suc l) b (omega (arith, e, above)), e, below, pow_pos l)
      where
        b_eq : suc b - 1 ≡ b
        b_eq = omega arith

module _ (capacity : ℕ) (le : capacity ≤ 2 ^ 62) where
  size : ℕ
  size = next_pow2 capacity

  new_size : 2 ^ (new capacity).log2 ≡ (new capacity).mask + 1
  unfolding new
  new_size =
      let ((l, e), fits, small, bound) = next_pow2_lem capacity 61 le le in
      power_log2 (next_pow2 capacity) l e small ∙ omega (arith, e, pow_pos l)

  start-Inv : Inv (start_of capacity)
  unfolding new
  start-Inv = record {
    counts = record {
      size = new_size;
      counted = refl;
      drained = refl;
      behind = omega arith;
      bounded = omega arith;
      fifo = refl;
    };
    free = λ t a b e.
        let within : t < 2 ^ (new capacity).log2 = omega (arith, b, new_size) in
        omega (arith, e ∙ div-eq_of_lt within);
    holds = λ t a b e. absurd (omega (arith, b));
    unique = λ i j t e f. absurd (cc e);
    covered = λ t pd. absurd (omega (arith, pd.below));
    fresh = λ i. tt;
    current = tt;
  }

-- The claims only grow.
Move-grows :
    {m m' : Memory} {p p' : Pc}
    → Move m p m' p'
    → (length m.claims ≤ length m'.claims) × (span m ≡ span m')
Move-grows call = (omega arith, refl)
Move-grows load = (omega arith, refl)
Move-grows (refuse g) = (omega arith, refl)
Move-grows (pass g) = (omega arith, refl)
Move-grows (lose g) = (omega arith, refl)
Move-grows {m} (win {c} g) = (omega (arith, length-append m.claims (c ∷ [])), refl)
Move-grows write = (omega arith, refl)
Move-grows publish = (omega arith, refl)

Poll-grows :
    {m m' : Memory} {k k' : Consumer}
    → Poll m k m' k'
    → (length m.claims ≤ length m'.claims) × (span m ≡ span m')
Poll-grows (nothing g) = (omega arith, refl)
Poll-grows (find g) = (omega arith, refl)
Poll-grows take_cmd = (omega arith, refl)
Poll-grows clear = (omega arith, refl)
Poll-grows advance = (omega arith, refl)

Step-grows :
    {s t : System}
    → Step s t
    → (length s.memory.claims ≤ length t.memory.claims) × (span s.memory ≡ span t.memory)
Step-grows (produce i mv) = Move-grows mv
Step-grows (consume p) = Poll-grows p

pub Step-IsSmall : {s t : System} → Step s t → IsSmall t.memory → IsSmall s.memory
Step-IsSmall st small = let (a, b) = Step-grows st in omega (arith, a, b, small)

pub Step-Inv : {s t : System} → Step s t → IsSmall s.memory → Inv s → Inv t
Step-Inv (produce i mv) small inv = Move-Inv inv small i mv
Step-Inv (consume p) small inv = Poll-Inv inv small p

pub Reach-Inv :
    {capacity : ℕ} {s : System} → capacity ≤ 2 ^ 62 → Reach capacity s → IsSmall s.memory → Inv s
Reach-Inv {capacity} le start small = start-Inv capacity le
Reach-Inv le (later r st) small =
    let before = Step-IsSmall st small in Step-Inv st before (Reach-Inv le r before)

-- A step leaves the number of slots alone.
pub Reach-span :
    {capacity : ℕ} {s : System}
    → capacity ≤ 2 ^ 62
    → Reach capacity s
    → span s.memory ≡ next_pow2 capacity
unfolding new
Reach-span {capacity} le start =
    let ((l, e), fits, small, bound) = next_pow2_lem capacity 61 le le in
    omega (arith, e, pow_pos l)
Reach-span le (later r st) = sym (Step-grows st).1 ∙ Reach-span le r
