-- ===== src/Tests/Living.antt =====
-- A new engine between two rings of two slots: a producer submits a request to cancel an order that
-- nobody knows, the goroutine handles it and pushes its event, and the reader reads the event.
use oktrading.Prelude.{◌≡◌, refl, some, [], ◌∷◌, length, take, map, arith}
use oktrading.Bits.{digits}
use oktrading.Int64.{add64, sub64, bias}
use oktrading.Mpsc
use oktrading.Mpsc.Shared.{call, load, pass, win, write, publish, find, take_cmd, clear, advance}
use oktrading.Offheap.Shared as Events
use oktrading.Offheap.Shared.{resting}
use oktrading.OrderBook.Book
use oktrading.OrderBook.Rest.{cancel_order}
use oktrading.Engine
use oktrading.Engine.{Engine, run, process, dispatch, handle_cancel_order}
use oktrading.Engine.Serve
use oktrading.Engine.Live.{Live, others, goroutine, next_event, push, read, Lives, started, on}
use oktrading.Engine.Live.Order.{live_order}
use oktrading.Tests.Engines.{cancel_unknown}

abbrev fresh : Engine
fresh = Engine.new "BTC-USDT"

-- The command is in the inbound ring.
abbrev submitted : (s : Live) × Lives 2 2 fresh s
unfolding Mpsc.new Mpsc.next_pow2 digits bias sub64 add64
submitted = (
  _,
  on
      (on
        (on
          (on
            (on (on started (others (Serve.produce 0 (call {c = cancel_unknown 98})) refl))
              (others (Serve.produce 0 load) refl))
            (others (Serve.produce 0 (pass refl)) refl))
          (others (Serve.produce 0 (win refl)) refl))
        (others (Serve.produce 0 write) refl))
      (others (Serve.produce 0 publish) refl),
)

-- The goroutine has handled it.
abbrev handled : (s : Live) × Lives 2 2 fresh s
unfolding Mpsc.new Mpsc.next_pow2 digits bias sub64 add64 submitted process dispatch
    handle_cancel_order cancel_order Engine.new Book.new
handled = (
  _,
  on
      (on
        (on
          (on (on (submitted.1) (goroutine (Serve.poll refl (find refl)) refl refl refl))
            (goroutine (Serve.poll refl take_cmd) refl refl refl))
          (goroutine (Serve.poll refl clear) refl refl refl))
        (goroutine (Serve.poll refl advance) refl refl refl))
      (goroutine (Serve.handle 5 refl refl) refl refl refl),
)

-- Its event is pushed and read.
abbrev seen : (s : Live) × Lives 2 2 fresh s
unfolding handled Events.new Events.next_pow2 sub64 add64
seen = (
  _,
  on
      (on
        (on
          (on
            (on
              (on
                (on (on (on (handled.1) (next_event refl refl)) (push Events.load refl))
                  (push (Events.acquire refl) refl))
                (push Events.fill refl))
              (push Events.publish refl))
            (read Events.look))
          (read (Events.see (λ e. omega (arith, e)))))
        (read Events.copy))
      (read Events.advance),
)

live_order_example :
    (run ((5, cancel_unknown 98) ∷ []) fresh ≡ some seen.0.service.engine)
    × (cancel_unknown 98 ∷ [] ≡ take 1 seen.0.service.shared.memory.claims)
    × (seen.0.outbound.memory.popped
        ≡ map some (take (length seen.0.outbound.memory.popped) seen.0.service.engine.outbound))
    × (seen.0.queue ≡ []
        → seen.0.outbound.producer ≡ resting
        → seen.0.outbound.memory.pushed ≡ seen.0.service.engine.outbound)
unfolding seen Engine.new
live_order_example = live_order (omega arith) refl (seen.1) (omega arith) (omega arith)
