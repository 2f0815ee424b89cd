-- ===== src/Sequencer.antt =====
-- pkg/sequencer/sequencer.go: the counter. A call of `Next` is one atomic addition, so that the calls
-- of any number of callers are one sequence of calls.
pub mod Numbers
use oktrading.Prelude.{ℕ, zero, suc, List, [], ◌∷◌}
use oktrading.Int64.{add64}

pub record Sequencer : Type 0 where
  pub n : ℕ

-- `New`
unfoldable pub new : Sequencer
new = record { n = 0 }

-- `Next`
unfoldable pub next : Sequencer → ℕ × Sequencer
next s = let n = add64 s.n 1 in (n, record { n = n })

-- `Peek`
unfoldable pub peek : Sequencer → ℕ
peek s = s.n

-- So many calls of `Next`: the numbers that they return, and the sequencer.
unfoldable pub next_numbers : ℕ → Sequencer → List ℕ × Sequencer
next_numbers zero s = ([], s)
next_numbers (suc k) s = let (n, s') = next s in let (ns, s'') = next_numbers k s' in (n ∷ ns, s'')
