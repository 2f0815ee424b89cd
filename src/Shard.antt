-- ===== src/Shard.antt =====
-- pkg/shard/manager.go: one engine for every symbol, made on demand. Each call runs undisturbed, so no
-- other caller registers an engine between the two accesses of `GetOrCreate`. The map hands out
-- pointers: a call that changes an engine puts it back under its symbol. The outbound capacity is left
-- out, since an engine here publishes to a log.
pub mod Registry
use oktrading.Prelude.{ℕ, Bool, ◌^◌, Option, none, some, String, same_text, if◌then◌else◌}
use oktrading.Int64.{add64, sle}
use oktrading.Types.{Command}
use oktrading.Engine.{Engine}
use oktrading.Engine
use oktrading.Mpsc.{Ring, try_submit}
use oktrading.Mpsc

-- An engine and its inbound ring.
pub record Shard : Type 0 where
  pub engine : Engine
  pub inbound : Ring

pub record Manager : Type 0 where
  pub engines : String → Option Shard
  pub inbound_cap : ℕ
  pub count : ℕ

-- The errors of `Submit` and `SubmitToSymbol`, with the symbol that they name.
pub data ShardError : Type 0 where
  undetermined_symbol : ShardError
  inbound_full : String → ShardError
  no_engine : String → ShardError

unfoldable pub new_manager : ℕ → Manager
new_manager inbound_cap = record { engines = λ symbol. none; inbound_cap = inbound_cap; count = 0 }

unfoldable pub default_inbound_size : ℕ
default_inbound_size = 2 ^ 14

-- `engine.New`
unfoldable pub new_shard : ℕ → String → Shard
unfolding default_inbound_size
new_shard inbound_cap symbol = record {
  engine = Engine.new symbol;
  inbound = Mpsc.new (if sle inbound_cap 0 then default_inbound_size else inbound_cap);
}

abbrev pub store_engine : String → Shard → Manager → Manager
store_engine symbol s m = record m {
  engines = λ other. if same_text symbol other then some s else m.engines other;
}

-- `GetOrCreate`
unfoldable pub get_or_create : String → Manager → Shard × Manager
get_or_create symbol m = elim (m.engines symbol) [
  | some s ↦ (s, m)
  | none ↦
      let s = new_shard m.inbound_cap symbol in
      (s, record (store_engine symbol s m) { count = add64 m.count 1 })
]

-- `eng.TrySubmit(cmd)`, for the engine of the symbol.
unfoldable pub try_submit_to : String → Command → Shard → Manager → Bool × Manager
try_submit_to symbol c s m =
    let (done, ring) = try_submit c s.inbound in
    (done, store_engine symbol (record s { inbound = ring }) m)

-- `Submit`; `none` is success.
pub submit : Command → Manager → Option ShardError × Manager
unfolding get_or_create try_submit_to
submit c m = elim c.order [
  | none ↦ (some undetermined_symbol, m)
  | some o ↦
      let (s, m1) = get_or_create o.symbol m in
      let (done, m2) = try_submit_to o.symbol c s m1 in
      if done then (none, m2) else (some (inbound_full o.symbol), m2)
]

-- `SubmitToSymbol`
unfoldable pub submit_to_symbol : String → Command → Manager → Option ShardError × Manager
unfolding try_submit_to
submit_to_symbol symbol c m = elim (m.engines symbol) [
  | none ↦ (some (no_engine symbol), m)
  | some s ↦
      let (done, m') = try_submit_to symbol c s m in
      if done then (none, m') else (some (inbound_full symbol), m')
]
