-- ===== src/Tests/Racing.antt =====
-- Two callers ask for the engine of one symbol at the same time: both make one, and the second stores
-- its own before the first.
use oktrading.Prelude.{ℕ, ◌+◌, ◌<◌, ◌^◌, ◌≡◌, refl, some, [], ◌∷◌, length, get_elem?, All, String}
use oktrading.Int64.{add64}
use oktrading.Shard.Registry.{
  idle, storing, register, launch, call, miss, create, store, lose, start, add, return, System,
  Reached, new, come, go,
}
use oktrading.Shard.Registry.Calls.{IsRegistered}
use oktrading.Shard.Registry.Starts.{starts, counts, number, times}
use oktrading.Shard.Registry.Once.{made_once}

abbrev btc : String
btc = "BTC-USDT"

-- Both have found none and made one.
abbrev both_made : (s : System) × Reached s
both_made = (
  _,
  go (storing btc 0 ∷ []) []
      (go (storing btc 0 ∷ []) []
        (go (storing btc 0 ∷ []) []
          (go [] (idle ∷ [])
            (go [] (idle ∷ []) (go [] (idle ∷ []) (come (come new)) (call {symbol = btc}))
              (miss refl))
            create)
          (call {symbol = btc}))
        (miss refl))
      create,
)

-- The second has started its engine, and the first was given it.
abbrev settled : (s : System) × Reached s
unfolding register launch add64
settled = (
  _,
  go [] (idle ∷ [])
      (go [] (idle ∷ [])
        (go (storing btc 0 ∷ []) []
          (go (storing btc 0 ∷ []) []
            (go (storing btc 0 ∷ []) [] (go (storing btc 0 ∷ []) [] (both_made.1) (store refl))
              start)
            add)
          return)
        (lose refl))
      return,
)

made_once_example :
    All
      (λ (a : String × ℕ).
        (settled.0.registry.engines a.0 ≡ some a.1)
        × (get_elem? settled.0.registry.made a.1 ≡ some a.0))
      ((btc, 1) ∷ (btc, 1) ∷ [])
    × ((n : ℕ) (symbol : String)
        → settled.0.registry.engines symbol ≡ some n
        → number (starts n) settled.0.callers + times n settled.0.registry.started ≡ 1)
    × All (IsRegistered settled.0.registry) settled.0.registry.started
    × (length settled.0.registry.started < 2 ^ 64
        → settled.0.registry.count + number counts settled.0.callers
          ≡ length settled.0.registry.started)
unfolding settled
made_once_example = made_once (settled.1)
