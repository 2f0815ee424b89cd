-- ===== src/Mpsc/Shared/Invariant/Produce.antt =====
-- An access of `TrySubmit` keeps the invariant.
use oktrading.Prelude.{ℕ, ◌≡◌, refl, ap, arith}
use oktrading.Mpsc.Shared.{
  Memory, Pc, idle, trying, loaded, room, Move, call, load, refuse, pass, lose, win, write, publish,
  System, at_producer,
}
use oktrading.Mpsc.Shared.Invariant.{owned, IsFresh, Inv, IsSmall}
use oktrading.Mpsc.Shared.Invariant.Moved.{is_full_lem, Moved, Moved-Inv, quiet}
use oktrading.Mpsc.Shared.Invariant.Claim.{win_slot}
use oktrading.Mpsc.Shared.Invariant.Fill.{write_slot, publish_slot}

-- An access of producer `i` keeps the invariant.
module _ {s : System} (inv : Inv s) (small : IsSmall s.memory) (i : ℕ) where
  move :
      {p p' : Pc} {m' : Memory}
      → s.pc i ≡ p
      → IsFresh s.memory p
      → Move s.memory p m' p'
      → Moved inv i m' p'
  move e f (call {c}) = quiet inv i (trying c) (ap owned e) refl tt
  move e f (load {c}) = quiet inv i (loaded c s.memory.ring.cursor) (ap owned e) refl (omega arith)
  move e f (refuse g) = quiet inv i idle (ap owned e) refl tt
  move e f (pass {c} {cur} g) =
      quiet inv i (room c cur) (ap owned e) refl (is_full_lem s.memory cur inv.counts small f g).1
  move e f (lose {c} g) = quiet inv i (trying c) (ap owned e) refl tt
  move e f (win {c} {cur} g) = win_slot inv i small c cur (ap owned e) f g
  move e f (write {c} {cur}) = write_slot inv i cur (ap owned e) c (f.1)
  move e f (publish {cur}) = publish_slot inv i cur (ap owned e) (f.1) idle refl tt

  pub Move-Inv :
      {p' : Pc} {m' : Memory}
      → Move s.memory (s.pc i) m' p'
      → Inv (record s { memory = m'; pc = at_producer s.pc i p' })
  Move-Inv {p'} {m'} mv = Moved-Inv inv i m' p' (move refl (inv.fresh i) mv)
