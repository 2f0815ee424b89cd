-- ===== src/Engine/Serve/Handles.antt =====
-- pkg/engine/engine.go: the goroutine of an engine goes on.
use oktrading.Prelude.{ℕ, ◌^◌, ◌≤◌, ◌≡◌, sym, subst, ◌∙◌, some, List, [], ◌∷◌, ◌++◌, result_unique}
use oktrading.Types.{Command}
use oktrading.Engine.{Engine}
use oktrading.Engine.Returns.{AdmitsAll, run-IsBook}
use oktrading.OrderBook.Invariant.{IsBook}
use oktrading.Engine.Serve.{polling, returned, Service, Serve, handle, Serves}
use oktrading.Mpsc.Shared.Invariant.{IsSmall}
use oktrading.Engine.Serve.Runs.{run-append, goroutine_runs}

AdmitsAll-append :
    (cmds more : List (ℕ × Command)) (e : Engine) → AdmitsAll (cmds ++ more) e → AdmitsAll cmds e
AdmitsAll-append [] more e a = tt
AdmitsAll-append ((now, c) ∷ cmds) more e a =
    (a.0, λ e' eq. AdmitsAll-append cmds more e' (a.1 e' eq))

module _ {capacity : ℕ} {e : Engine} (le : capacity ≤ 2 ^ 62) where
  -- The goroutine does not panic on the command in hand: if the service was started with a valid book
  -- and every command up to this one is admissible when its turn comes, the command is handled, and
  -- the book is valid before and after.
  pub goroutine_handles :
      {s : Service} (now : ℕ) (c : Command)
      → Serves capacity e s
      → IsSmall s.shared.memory
      → IsBook e.book
      → AdmitsAll (s.handled ++ ((now, c) ∷ [])) e
      → s.worker ≡ returned (some c)
      → (e' : Engine) × Serve s (record s {
        engine = e';
        worker = polling;
        idle = 0;
        handled = s.handled ++ ((now, c) ∷ []);
      })
        × IsBook s.engine.book
        × IsBook e'.book
  goroutine_handles {s} now c r small valid a w =
      let (ran, order) = goroutine_runs le r small in
      let (e', ok, valid') = run-IsBook (s.handled ++ ((now, c) ∷ [])) e valid a in
      let (e1, ok1, valid1) =
        run-IsBook s.handled e valid (AdmitsAll-append s.handled ((now, c) ∷ []) e a) in
      (
        e',
        handle now w (sym (run-append s.handled now c e s.engine ran) ∙ ok),
        subst (λ k. IsBook k.book) (result_unique ok1 ran) valid1,
        valid',
      )
