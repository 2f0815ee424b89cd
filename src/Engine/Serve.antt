-- ===== src/Engine/Serve.antt =====
-- pkg/engine/engine.go: the goroutine of an engine, `Stop`, and the producers that share its inbound
-- ring, an access at a time. A panic in `process` is a state without a next step of the goroutine.
pub mod Take
pub mod Runs
pub mod Handles
pub mod Stops
use oktrading.Prelude.{
  ℕ, ◌%◌, ◌^◌, ◌≡◌, Bool, true, false, ◌&&◌, Option, none, some, List, [], ◌∷◌, ◌++◌, ◌==◌,
  if◌then◌else◌,
}
use oktrading.Int64.{add64}
use oktrading.Types.{Command}
use oktrading.Engine.{Engine, process}
use oktrading.Mpsc.Shared.{
  Memory, Pc, Consumer, Move, Poll, nothing, find, take_cmd, clear, advance, System, at_producer,
  start_of,
}

-- Where the loop of `run` stands: inside `TryPop`, behind it with what it returned, or at its end.
pub data Worker : Type 0 where
  polling : Worker
  returned : Option Command → Worker
  stopped : Worker

-- `handled` are the commands that were processed, with the clock's readings.
pub record Service : Type 0 where
  pub shared : System
  pub engine : Engine
  pub worker : Worker
  pub idle : ℕ
  pub quit : Bool
  pub handled : List (ℕ × Command)

-- What an access of `TryPop` leaves the loop with.
abbrev pub after : {m m' : Memory} {k k' : Consumer} → Poll m k m' k' → Worker
after (nothing g) = returned none
after (advance {c}) = returned c
after _ = polling

-- The end of a round that found nothing, with the count of such rounds: `idle&0x3FFF == 0`, and the
-- channel is closed.
abbrev pub end_round : ℕ → Bool → Worker
end_round idle quit = if (idle % 2 ^ 14 == 0) && quit then stopped else polling

pub data Serve (s : Service) : Service → Type 0 where
  produce :
      (i : ℕ) {m : Memory} {p : Pc}
      → Move s.shared.memory (s.shared.pc i) m p
      → Serve s
          (record s { shared = record (s.shared) { memory = m; pc = at_producer s.shared.pc i p } })
  poll :
      {m : Memory} {k : Consumer}
      → s.worker ≡ polling
      → (p : Poll s.shared.memory s.shared.consumer m k)
      → Serve s
          (record s { shared = record (s.shared) { memory = m; consumer = k }; worker = after p })
  handle :
      (now : ℕ) {c : Command} {e : Engine}
      → s.worker ≡ returned (some c)
      → process now c s.engine ≡ some e
      → Serve s (record s {
        engine = e;
        worker = polling;
        idle = 0;
        handled = s.handled ++ ((now, c) ∷ []);
      })
  rest :
      s.worker ≡ returned none
      → Serve s (record s { idle = add64 s.idle 1; worker = end_round (add64 s.idle 1) s.quit })
  close : Serve s (record s { quit = true })

-- The steps of the goroutine itself.
abbrev pub is_own : {s t : Service} → Serve s t → Bool
is_own (produce i mv) = false
is_own close = false
is_own _ = true

abbrev pub start_service : ℕ → Engine → Service
start_service capacity e = record {
  shared = start_of capacity;
  engine = e;
  worker = polling;
  idle = 0;
  quit = false;
  handled = [];
}

-- The states in which a service that was started on a new ring can be.
pub data Serves (capacity : ℕ) (e : Engine) : Service → Type 0 where
  started : Serves capacity e (start_service capacity e)
  on : {s t : Service} → Serves capacity e s → Serve s t → Serves capacity e t
