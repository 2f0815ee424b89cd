-- ===== src/Mpsc/Shared/Cells.antt =====
-- The slots of the ring: what a write of a command and the publication of a lap change.
use oktrading.Prelude.{ℕ, ◌+◌, ◌≡◌, ◌≢◌, ◌<◌, Option, arith}
use oktrading.Prelude.Rounds.{slots-ne}
use oktrading.Types.{Command}
use oktrading.Mpsc.{slot_of, lap_of}
use oktrading.Mpsc.Shared.{Memory, slot, write_cmd, publish_lap}

-- `len(r.slots)`
abbrev pub span : Memory → ℕ
span m = m.ring.mask + 1

module _ (m : Memory) (cur : ℕ) where
  pub lap-write_cmd :
      (c : Option Command) (s : ℕ) → (slot (write_cmd c cur m) s).lap ≡ (slot m s).lap
  lap-write_cmd c s = ground arith

  pub cmd-publish_lap : (s : ℕ) → (slot (publish_lap cur m) s).cmd ≡ (slot m s).cmd
  cmd-publish_lap s = ground arith

  pub cmd-write_cmd : (c : Option Command) → (slot (write_cmd c cur m) cur).cmd ≡ c
  cmd-write_cmd c = ground arith

  pub lap-publish_lap : (slot (publish_lap cur m) cur).lap ≡ lap_of m.ring cur
  lap-publish_lap = ground arith

  module _ (s : ℕ) (ne : cur ≢ s) (a : cur < s + span m) (b : s < cur + span m) where
    other : slot_of m.ring cur ≢ slot_of m.ring s
    other = slots-ne (span m) (omega arith) cur s ne a b

    pub cmd-write_ne : (c : Option Command) → (slot (write_cmd c cur m) s).cmd ≡ (slot m s).cmd
    cmd-write_ne c = ground (arith, other)

    pub lap-publish_ne : (slot (publish_lap cur m) s).lap ≡ (slot m s).lap
    lap-publish_ne = ground (arith, other)
