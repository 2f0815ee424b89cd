-- ===== src/Tests/Counting.antt =====
-- Three calls of a new sequencer.
use oktrading.Prelude.{ℕ, ◌+◌, ◌<◌, ◌≡◌, some, arith, length, get_elem?}
use oktrading.Sequencer.{new, next_numbers, peek}
use oktrading.Sequencer.Numbers.{next_numbers_lem}

next_numbers_lem_example :
    (length (next_numbers 3 new).0 ≡ 3)
    × ((i : ℕ) → i < 3 → get_elem? (next_numbers 3 new).0 i ≡ some (peek new + 1 + i))
    × (peek (next_numbers 3 new).1 ≡ peek new + 3)
unfolding peek new
next_numbers_lem_example = next_numbers_lem 3 new (omega arith)
