-- ===== src/Mpsc.antt =====
-- pkg/mpsc/ring.go: the inbound ring of an engine. Each call here runs undisturbed. In `TrySubmit` the
-- claim of the slot, the write of the command and the publication of the lap are one step.
pub mod Capacity
pub mod Shared
use oktrading.Prelude.{
  ℕ, ◌+◌, ◌-◌, ◌/◌, ◌%◌, ◌^◌, Bool, true, false, Option, none, some, ltb, leb, ◌==◌, if◌then◌else◌,
  min,
}
use oktrading.Int64.{add64, sub64, sle}
use oktrading.Bits.{bits_len}
use oktrading.Types.{Command}

-- `cmd` is `none` for nil.
pub record CmdSlot : Type 0 where
  pub lap : ℕ
  pub cmd : Option Command

pub record Ring : Type 0 where
  pub slots : ℕ → CmdSlot
  pub log2 : ℕ
  pub mask : ℕ
  pub cursor : ℕ
  pub tail : ℕ

-- `_never`
abbrev pub never : ℕ
never = 2 ^ 64 - 1

-- `nextPow2`: beyond 2 ^ 62 the shift gives the pattern of a negative `int`.
unfoldable pub next_pow2 : ℕ → ℕ
next_pow2 n = if sle n 2 then 2 else 2 ^ bits_len (sub64 n 1) % 2 ^ 64

-- `New`, for a capacity of at most 2 ^ 62: with a negative size `make` panics.
unfoldable pub new : ℕ → Ring
unfolding next_pow2
new capacity =
    let size = next_pow2 capacity in
    record {
      slots = λ i. record { lap = never; cmd = none };
      log2 = bits_len size - 1;
      mask = size - 1;
      cursor = 0;
      tail = 0;
    }

-- `seq & r.mask`, for a mask below a power of two; `seq >> r.log2`.
abbrev pub slot_of : Ring → ℕ → ℕ
slot_of r seq = seq % (r.mask + 1)

abbrev pub lap_of : Ring → ℕ → ℕ
lap_of r seq = seq / 2 ^ r.log2

abbrev pub set_slot : (ℕ → CmdSlot) → ℕ → CmdSlot → ℕ → CmdSlot
set_slot slots i s j = if i == j then s else slots j

-- `cur-r.cons.tail.Load() >= uint64(len(r.slots))`
abbrev pub is_full : Ring → ℕ → Bool
is_full r cur = leb (r.mask + 1) (sub64 cur r.tail)

-- `TrySubmit`
unfoldable pub try_submit : Command → Ring → Bool × Ring
try_submit c r =
    let cur = r.cursor in
    if is_full r cur then (false, r) else (
      true,
      record r {
        cursor = add64 cur 1;
        slots = set_slot r.slots (slot_of r cur) (record { lap = lap_of r cur; cmd = some c });
      },
    )

-- `TryPop`
pub try_pop : Ring → Option Command × Ring
try_pop r =
    let s = r.slots (slot_of r r.tail) in
    if s.lap == lap_of r r.tail
    then (
      s.cmd,
      record r {
        slots = set_slot r.slots (slot_of r r.tail) (record s { cmd = none });
        tail = add64 r.tail 1;
      },
    )
    else (none, r)

-- `Len`
pub len : Ring → ℕ
len r =
    if leb r.cursor r.tail
    then 0
    else let n = sub64 r.cursor r.tail in if ltb (r.mask + 1) n then r.mask + 1 else n
