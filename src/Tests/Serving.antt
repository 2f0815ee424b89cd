-- ===== src/Tests/Serving.antt =====
-- An engine with the small book behind a ring of two slots: a producer submits a buyer, and the engine
-- takes it out of the ring.
use oktrading.Prelude.{◌-◌, ◌^◌, ◌≤◌, ◌≡◌, refl, some, true, arith, [], ◌∷◌, ◌++◌}
use oktrading.Bits.{digits}
use oktrading.Int64.{add64, sub64, bias}
use oktrading.Mpsc.{new, next_pow2}
use oktrading.Mpsc.Shared.{
  call, load, pass, win, write, publish, nothing, find, take_cmd, clear, advance,
}
use oktrading.Engine
use oktrading.Engine.{Engine, run, process}
use oktrading.OrderBook.Book.{ask}
use oktrading.OrderBook.Invariant.{IsBook}
use oktrading.Engine.Serve.{
  Service, polling, Serve, produce, poll, rest, Serves, started, on, start_service,
}
use oktrading.Engine.Serve.Take.{in_hand}
use oktrading.Engine.Serve.Runs.{goroutine_runs}
use oktrading.Engine.Serve.Handles.{goroutine_handles}
use oktrading.Engine.Serve.Stops.{Runs, here, own, meanwhile, GoesOn, goroutine_stops}
use oktrading.Tests.Books.{sample-IsBook}
use oktrading.Tests.Engines.{buyer, engine, new_order_of, stamped-IsAdmissible}

abbrev submitted : (s : Service) × Serves 2 engine s
unfolding new next_pow2 digits bias sub64 add64
submitted = (
  _,
  on
      (on
        (on
          (on (on (on started (produce 0 (call {c = new_order_of buyer}))) (produce 0 load))
            (produce 0 (pass refl)))
          (produce 0 (win refl)))
        (produce 0 write))
      (produce 0 publish),
)

abbrev taken : (s : Service) × Serves 2 engine s
unfolding new next_pow2 digits bias sub64 add64 submitted
taken = (
  _,
  on (on (on (on (submitted.1) (poll refl (find refl))) (poll refl take_cmd)) (poll refl clear))
      (poll refl advance),
)

goroutine_runs_example :
    (run [] engine ≡ some engine) × ([] ++ in_hand taken.0.worker ≡ new_order_of buyer ∷ [])
unfolding taken
goroutine_runs_example = goroutine_runs (omega arith) (taken.1) (omega arith)

goroutine_handles_example :
    (e' : Engine) × Serve (taken.0) (record (taken.0) {
      engine = e';
      worker = polling;
      idle = 0;
      handled = (5, new_order_of buyer) ∷ [];
    })
    × IsBook engine.book
    × IsBook e'.book
unfolding taken Engine.new
goroutine_handles_example =
    goroutine_handles (omega arith) 5 (new_order_of buyer) (taken.1) (omega arith) sample-IsBook
      ((buyer, refl, (ask, stamped-IsAdmissible)), λ e' eq. tt) refl

-- `Stop` was called, and the next idle round looks at the channel.
abbrev closed : Service
closed = record (start_service 2 engine) { quit = true; idle = 2 ^ 14 - 1 }

-- A producer comes, and the loop finds nothing and ends.
abbrev ended : (u : Service) × Runs closed 2 u
unfolding new next_pow2 digits add64 bias
ended = (
  _,
  meanwhile (produce 0 (call {c = new_order_of buyer})) refl (λ e. omega (arith, e))
      (own (poll refl (nothing (λ e. omega (arith, e)))) refl (own (rest refl) refl here)),
)

goroutine_stops_example :
    (2 ≤ 2 ^ 15) × (ended.0.engine ≡ engine) × (ended.0.handled ≡ []) × GoesOn ended.0
unfolding new next_pow2 digits ended bias
goroutine_stops_example = goroutine_stops refl refl refl (λ e. omega (arith, e)) (ended.1)
