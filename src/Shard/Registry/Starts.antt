-- ===== src/Shard/Registry/Starts.antt =====
-- pkg/shard/manager.go, `GetOrCreate`: how many callers are about to start an engine or
-- to count it, and how often it was started.
use oktrading.Prelude.{
  ℕ, ◌+◌, ◌≤◌, ◌<◌, ◌^◌, ◌≡◌, inl, inr, refl, some, List, [], ◌∷◌, ◌++◌, String, arith, length,
  length-append, ◌==◌, if◌then◌else◌,
}
use oktrading.Int64.{add64_lem}
use oktrading.Shard.Registry.{
  Registry, Caller, storing, starting, counting, register, launch, Call, call, hit, miss, create,
  store, lose, start, add, return,
}
use oktrading.Shard.Registry.Calls.{registered}

pub one_if : ℕ → ℕ → ℕ
one_if n m = if n == m then 1 else 0

-- Whether the caller is to store, to start, or to count the engine.
unfoldable pub stores : ℕ → Caller → ℕ
unfolding one_if
stores n (storing symbol m) = one_if n m
stores n _ = 0

unfoldable pub starts : ℕ → Caller → ℕ
unfolding one_if
starts n (starting symbol m) = one_if n m
starts n _ = 0

unfoldable pub counts : Caller → ℕ
counts (counting symbol m) = 1
counts _ = 0

-- How many callers do.
unfoldable pub number : (Caller → ℕ) → List Caller → ℕ
number f [] = 0
number f (p ∷ ps) = f p + number f ps

-- How often the engine was started.
unfoldable pub times : ℕ → List ℕ → ℕ
unfolding one_if
times n [] = 0
times n (m ∷ ms) = one_if n m + times n ms

pub number-middle :
    (f : Caller → ℕ) (us : List Caller) (p : Caller) (vs : List Caller)
    → number f (us ++ (p ∷ vs)) ≡ f p + number f (us ++ vs)
unfolding number
number-middle f [] p vs = refl
number-middle f (u ∷ us) p vs = omega (arith, number-middle f us p vs)

-- The facts of one engine, given how many other callers are to store and to start it.
module _ (n : ℕ) (x y : ℕ) where
  unfoldable pub tokens : Registry → Caller → ℕ
  unfolding stores starts times
  tokens r p = (stores n p + x) + ((starts n p + y) + times n r.started)

  pub call-tokens :
      {r r' : Registry} {p p' : Caller}
      → Call r p r' p'
      → (length r.made ≤ n → tokens r p ≡ 0)
      → tokens r p ≤ 1
      → (tokens r' p' ≤ 1) × (length r'.made ≤ n → tokens r' p' ≡ 0)
  unfolding tokens launch register
  call-tokens call f a = (a, f)
  call-tokens (hit e) f a = (a, f)
  call-tokens (miss e) f a = (a, f)
  call-tokens {r} (create {symbol}) f a =
      (ground (arith, f), ground (arith, f, length-append r.made (symbol ∷ [])))
  call-tokens (store e) f a = (ground (arith, a), ground (arith, f))
  call-tokens (lose e) f a = (ground (arith, a), ground (arith, f))
  call-tokens start f a = (ground (arith, a), ground (arith, f))
  call-tokens add f a = (a, f)
  call-tokens return f a = (a, f)

  unfoldable pub running : Registry → Caller → ℕ
  unfolding starts times
  running r p = (starts n p + y) + times n r.started

pub call-running :
    (n x y : ℕ) {r r' : Registry} {p p' : Caller}
    → Call r p r' p'
    → ((s : String) → r.engines s ≡ some n → running n x y r p ≡ 1)
    → tokens n x y r p ≤ 1
    → (s : String) → r'.engines s ≡ some n
    → running n x y r' p' ≡ 1
unfolding tokens running launch stores starts one_if times register
call-running n x y call old a s e = old s e
call-running n x y (hit _) old a s e = old s e
call-running n x y (miss _) old a s e = old s e
call-running n x y create old a s e = old s e
call-running n x y {r} (store {symbol} {n = m} free) old a s e =
    elim (registered symbol s m n r e) [
      | inl (same, eq) ↦ ground (arith, eq, a)
      | inr before ↦ ground (arith, a, old s before)
    ]
call-running n x y (lose _) old a s e = old s e
call-running n x y start old a s e = ground (arith, old s e)
call-running n x y add old a s e = old s e
call-running n x y return old a s e = old s e

pub call-count :
    (z : ℕ) {r r' : Registry} {p p' : Caller}
    → Call r p r' p'
    → (length r.started < 2 ^ 64 → r.count + (counts p + z) ≡ length r.started)
    → length r'.started < 2 ^ 64
    → r'.count + (counts p' + z) ≡ length r'.started
unfolding counts launch register
call-count z call old lt = old lt
call-count z (hit _) old lt = old lt
call-count z (miss _) old lt = old lt
call-count z create old lt = old lt
call-count z (store _) old lt = old lt
call-count z (lose _) old lt = old lt
call-count z start old lt = omega (arith, old (omega (arith, lt)), lt)
call-count z {r} add old lt = omega (arith, add64_lem r.count 1 (omega (arith, old lt, lt)), old lt)
call-count z return old lt = old lt
