-- ===== src/Sequencer/Numbers.antt =====
-- pkg/sequencer/sequencer.go: the numbers that calls of `Next` return.
use oktrading.Prelude.{
  ℕ, zero, suc, ◌+◌, ◌^◌, ◌<◌, ◌≡◌, refl, ap, ◌∙◌, List, ◌∷◌, some, arith, length, get_elem?,
}
use oktrading.Int64.{add64, add64_lem}
use oktrading.Sequencer.{Sequencer, next, peek, next_numbers}

numbers_cons :
    (n m k : ℕ) (ns : List ℕ)
    → m ≡ n + 1
    → ((i : ℕ) → i < k → get_elem? ns i ≡ some (m + 1 + i))
    → (i : ℕ) → i < suc k
    → get_elem? (m ∷ ns) i ≡ some (n + 1 + i)
numbers_cons n m k ns up nth zero lt = ap some (omega (arith, up))
numbers_cons n m k ns up nth (suc i) lt =
    let same : m + 1 + i ≡ n + 1 + suc i = omega (arith, up) in
    nth i (omega (arith, lt)) ∙ ap some same

-- Calls of `Next` that do not take the counter to 2 ^ 64 return consecutive numbers, from the one
-- after what `Peek` returned before on, so no number comes twice and none is 0, and `Peek` then
-- returns the last of them.
pub next_numbers_lem :
    (k : ℕ) (s : Sequencer)
    → peek s + k < 2 ^ 64
    → (length (next_numbers k s).0 ≡ k)
      × ((i : ℕ) → i < k → get_elem? (next_numbers k s).0 i ≡ some (peek s + 1 + i))
      × (peek (next_numbers k s).1 ≡ peek s + k)
unfolding next_numbers next peek
next_numbers_lem zero s lt = (refl, (λ i l. absurd (omega (arith, l))), omega arith)
next_numbers_lem (suc k) s lt =
    let up : add64 s.n 1 ≡ s.n + 1 = add64_lem s.n 1 (omega (arith, lt)) in
    let (len, nth, last) =
      next_numbers_lem k (record { n = add64 s.n 1 }) (omega (arith, up, lt)) in
    (
      ap suc len,
      numbers_cons s.n (add64 s.n 1) k (next_numbers k (record { n = add64 s.n 1 })).0 up nth,
      omega (arith, up, last),
    )
