-- ===== src/Offheap/Shared/Reached.antt =====
-- The states of an outbound ring that steps reach from a new one.
use oktrading.Prelude.{ℕ, ◌≤◌, ◌≡◌, refl, [], ◌∷◌, arith, length, length-append}
use oktrading.Offheap.Shared.{
  Memory, Producer, Reader, Push, call, load, wait, acquire, scribble, fill, publish, Read, look,
  nothing, see, copy, advance, Outbound, Step, produce, consume, start_of, Reach, start, later, new,
}
use oktrading.Offheap.Shared.Invariant.{span, Inv, IsSmall}
use oktrading.Offheap.Shared.Keeps.{Push-Inv, Read-Inv}

Push-grows :
    {m m' : Memory} {p p' : Producer}
    → Push m p m' p'
    → (length m.pushed ≤ length m'.pushed) × (span m ≡ span m')
Push-grows call = (omega arith, refl)
Push-grows load = (omega arith, refl)
Push-grows (wait g) = (omega arith, refl)
Push-grows (acquire g) = (omega arith, refl)
Push-grows (scribble anything) = (omega arith, refl)
Push-grows fill = (omega arith, refl)
Push-grows {m} (publish {evt}) = (omega (arith, length-append m.pushed (evt ∷ [])), refl)

Read-grows :
    {m m' : Memory} {k k' : Reader}
    → Read m k m' k'
    → (length m.pushed ≤ length m'.pushed) × (span m ≡ span m')
Read-grows look = (omega arith, refl)
Read-grows (nothing g) = (omega arith, refl)
Read-grows (see g) = (omega arith, refl)
Read-grows copy = (omega arith, refl)
Read-grows advance = (omega arith, refl)

Step-grows :
    {s t : Outbound}
    → Step s t
    → (length s.memory.pushed ≤ length t.memory.pushed) × (span s.memory ≡ span t.memory)
Step-grows (produce st) = Push-grows st
Step-grows (consume st) = Read-grows st

start-Inv : (capacity : ℕ) → Inv (start_of capacity)
unfolding new
start-Inv capacity = record {
  counts = record {
    counted = refl;
    drained = refl;
    behind = omega arith;
    bounded = omega arith;
    fifo = refl;
    stored = λ t a b. absurd (omega (arith, b));
  };
  fresh = tt;
  current = tt;
}

Step-Inv : {s t : Outbound} → Step s t → IsSmall s.memory → Inv s → Inv t
Step-Inv (produce st) small inv = Push-Inv small inv st
Step-Inv (consume st) small inv = Read-Inv small inv st

pub Reach-Inv : {capacity : ℕ} {s : Outbound} → Reach capacity s → IsSmall s.memory → Inv s
Reach-Inv {capacity} start small = start-Inv capacity
Reach-Inv (later {s} r st) small =
    let (a, b) = Step-grows st in
    let before : IsSmall s.memory = omega (arith, a, b, small) in
    Step-Inv st before (Reach-Inv r before)
