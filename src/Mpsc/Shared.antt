-- ===== src/Mpsc/Shared.antt =====
-- pkg/mpsc/ring.go: `TrySubmit` and `TryPop` an access to the shared ring at a time, for any number of
-- producers and one consumer, interleaved in any order.
pub mod Cells
pub mod Invariant
pub mod Reached
pub mod Safety
use oktrading.Prelude.{
  ℕ, ◌+◌, ◌≡◌, ◌≢◌, true, false, Option, none, some, List, [], ◌∷◌, ◌++◌, ◌==◌, if◌then◌else◌,
}
use oktrading.Int64.{add64}
use oktrading.Types.{Command}
use oktrading.Mpsc.{Ring, CmdSlot, slot_of, lap_of, set_slot, is_full, new}

-- The ring, and two histories: the commands in the order in which their slots were claimed, and what
-- the calls of `TryPop` that found a slot ready have returned.
pub record Memory : Type 0 where
  pub ring : Ring
  pub claims : List Command
  pub popped : List (Option Command)

-- Where a producer stands in `TrySubmit`, with the local variables that are live there.
pub data Pc : Type 0 where
  idle : Pc
  trying : Command → Pc
  loaded : Command → ℕ → Pc
  room : Command → ℕ → Pc
  claimed : Command → ℕ → Pc
  written : ℕ → Pc

-- Where the consumer stands in `TryPop`.
pub data Consumer : Type 0 where
  ready : Consumer
  found : Consumer
  took : Option Command → Consumer
  cleared : Option Command → Consumer

abbrev pub slot : Memory → ℕ → CmdSlot
slot m s = m.ring.slots (slot_of m.ring s)

-- The compare-and-swap that wins slot `cur`.
abbrev pub claim : Command → ℕ → Memory → Memory
claim c cur m = record m {
  ring = record (m.ring) { cursor = add64 cur 1 };
  claims = m.claims ++ (c ∷ []);
}

-- `s.cmd = cmd`, for the slot of `cur`
abbrev pub write_cmd : Option Command → ℕ → Memory → Memory
write_cmd c cur m = record m {
  ring = record (m.ring) {
    slots = set_slot m.ring.slots (slot_of m.ring cur) (record (slot m cur) { cmd = c });
  };
}

-- `s.lap.Store(cur >> r.log2)`
abbrev pub publish_lap : ℕ → Memory → Memory
publish_lap cur m = record m {
  ring = record (m.ring) {
    slots =
        set_slot m.ring.slots (slot_of m.ring cur)
          (record (slot m cur) { lap = lap_of m.ring cur });
  };
}

-- `r.cons.tail.Add(1)`, after which `TryPop` returns the command.
abbrev pub advance_tail : Option Command → Memory → Memory
advance_tail c m = record m {
  ring = record (m.ring) { tail = add64 m.ring.tail 1 };
  popped = m.popped ++ (c ∷ []);
}

-- One access of one producer. A call that is refused or done leaves it idle.
pub data Move (m : Memory) : Pc → Memory → Pc → Type 0 where
  call : {c : Command} → Move m idle m (trying c)
  load : {c : Command} → Move m (trying c) m (loaded c m.ring.cursor)
  refuse : {c : Command} {cur : ℕ} → is_full m.ring cur ≡ true → Move m (loaded c cur) m idle
  pass : {c : Command} {cur : ℕ} → is_full m.ring cur ≡ false → Move m (loaded c cur) m (room c cur)
  lose : {c : Command} {cur : ℕ} → m.ring.cursor ≢ cur → Move m (room c cur) m (trying c)
  win :
      {c : Command} {cur : ℕ}
      → m.ring.cursor ≡ cur
      → Move m (room c cur) (claim c cur m) (claimed c cur)
  write : {c : Command} {cur : ℕ} → Move m (claimed c cur) (write_cmd (some c) cur m) (written cur)
  publish : {cur : ℕ} → Move m (written cur) (publish_lap cur m) idle

-- One access of the consumer.
pub data Poll (m : Memory) : Consumer → Memory → Consumer → Type 0 where
  nothing : (slot m m.ring.tail).lap ≢ lap_of m.ring m.ring.tail → Poll m ready m ready
  find : (slot m m.ring.tail).lap ≡ lap_of m.ring m.ring.tail → Poll m ready m found
  take_cmd : Poll m found m (took (slot m m.ring.tail).cmd)
  clear : {c : Option Command} → Poll m (took c) (write_cmd none m.ring.tail m) (cleared c)
  advance : {c : Option Command} → Poll m (cleared c) (advance_tail c m) ready

-- The producers are numbered.
pub record System : Type 0 where
  pub memory : Memory
  pub pc : ℕ → Pc
  pub consumer : Consumer

abbrev pub at_producer : (ℕ → Pc) → ℕ → Pc → ℕ → Pc
at_producer pc i p j = if i == j then p else pc j

pub data Step (s : System) : System → Type 0 where
  produce :
      (i : ℕ) {m : Memory} {p : Pc}
      → Move s.memory (s.pc i) m p
      → Step s (record s { memory = m; pc = at_producer s.pc i p })
  consume :
      {m : Memory} {k : Consumer}
      → Poll s.memory s.consumer m k
      → Step s (record s { memory = m; consumer = k })

abbrev pub start_of : ℕ → System
start_of capacity = record {
  memory = record { ring = new capacity; claims = []; popped = [] };
  pc = λ i. idle;
  consumer = ready;
}

-- The states of a ring that was made for a capacity.
pub data Reach (capacity : ℕ) : System → Type 0 where
  start : Reach capacity (start_of capacity)
  later : {s t : System} → Reach capacity s → Step s t → Reach capacity t
