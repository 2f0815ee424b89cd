-- ===== src/Engine/Live.antt =====
-- pkg/engine/engine.go: the goroutine of an engine between its two rings, with the producers of
-- commands and the reader of events, an access at a time. What `process` does to the book is seen by
-- no other goroutine, so a command is processed in one step, which leaves its events to be pushed one
-- after the other before the loop goes on.
pub mod Order
use oktrading.Prelude.{ℕ, ◌≡◌, Bool, true, false, List, [], ◌∷◌, drop, length}
use oktrading.Offheap.{RawEvent}
use oktrading.Offheap.Shared.{
  Memory, Producer, resting, acquiring, Reader, Push, call, Read, Outbound, start_of,
}
use oktrading.Engine.{Engine}
use oktrading.Engine.Serve.{Service, Serve, is_own, start_service}

-- `queue` are the events that `process` has yet to push.
pub record Live : Type 0 where
  pub service : Service
  pub outbound : Outbound
  pub queue : List RawEvent

-- The push of an event that is under way.
abbrev pub goes_on : {m m' : Memory} {p p' : Producer} → Push m p m' p' → Bool
goes_on call = false
goes_on _ = true

-- What was published between two states of an engine.
abbrev pub new_events : Engine → Engine → List RawEvent
new_events e e' = drop (length e.outbound) e'.outbound

pub data Step (s : Live) : Live → Type 0 where
  others :
      {t : Service} (st : Serve s.service t) → is_own st ≡ false → Step s (record s { service = t })
  goroutine :
      {t : Service} (st : Serve s.service t)
      → is_own st ≡ true
      → s.queue ≡ []
      → s.outbound.producer ≡ resting
      → Step s (record s { service = t; queue = new_events s.service.engine t.engine })
  next_event :
      {evt : RawEvent} {queue : List RawEvent}
      → s.queue ≡ evt ∷ queue
      → s.outbound.producer ≡ resting
      → Step s
          (record s { outbound = record (s.outbound) { producer = acquiring evt }; queue = queue })
  push :
      {m : Memory} {p : Producer} (st : Push s.outbound.memory s.outbound.producer m p)
      → goes_on st ≡ true
      → Step s (record s { outbound = record (s.outbound) { memory = m; producer = p } })
  read :
      {m : Memory} {k : Reader}
      → Read s.outbound.memory s.outbound.reader m k
      → Step s (record s { outbound = record (s.outbound) { memory = m; reader = k } })

-- The states of an engine that is started between two new rings.
pub data Lives (inbound_cap outbound_cap : ℕ) (e : Engine) : Live → Type 0 where
  started : Lives inbound_cap outbound_cap e (record {
    service = start_service inbound_cap e;
    outbound = start_of outbound_cap;
    queue = [];
  })
  on :
      {s t : Live}
      → Lives inbound_cap outbound_cap e s
      → Step s t
      → Lives inbound_cap outbound_cap e t
