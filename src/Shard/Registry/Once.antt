-- ===== src/Shard/Registry/Once.antt =====
-- pkg/shard/manager.go, `GetOrCreate`: the invariant of the engines and the callers.
use oktrading.Prelude.{
  ℕ, ◌+◌, ◌≤◌, ◌<◌, ◌^◌, ◌≡◌, sym, ◌∙◌, some, List, [], ◌∷◌, ◌++◌, String, arith, length, get_elem?,
  All, All-imp, All-append,
}
use oktrading.Shard.Registry.{
  Registry, Caller, idle, Call, System, new_registry, Reached, new, come, go,
}
use oktrading.Shard.Registry.Calls.{
  IsGood, IsGood-stays, call-IsGood, call-made, IsAnswer, IsRegistered, call-answers, call-started,
}
use oktrading.Shard.Registry.Starts.{
  stores, starts, counts, number, times, number-middle, tokens, call-tokens, running, call-running,
  call-count,
}

record IsRegistry (s : System) : Type 0 where
  good : All (IsGood s.registry) s.callers
  answered : All (IsAnswer s.registry) s.registry.answers
  started : All (IsRegistered s.registry) s.registry.started
  made :
      (symbol : String) (n : ℕ)
      → s.registry.engines symbol ≡ some n
      → get_elem? s.registry.made n ≡ some symbol
  apart :
      (n : ℕ)
      → number (stores n) s.callers + (number (starts n) s.callers + times n s.registry.started) ≤ 1
  unmade :
      (n : ℕ)
      → length s.registry.made ≤ n
      → number (stores n) s.callers + (number (starts n) s.callers + times n s.registry.started) ≡ 0
  once :
      (n : ℕ) (symbol : String)
      → s.registry.engines symbol ≡ some n
      → number (starts n) s.callers + times n s.registry.started ≡ 1
  counted :
      length s.registry.started < 2 ^ 64
      → s.registry.count + number counts s.callers ≡ length s.registry.started

-- All of a list, about one element and about the others.
All-middle {ℓ} :
    {A : Type 0} (P : A → Type ℓ) (us : List A) (x : A) (vs : List A)
    → All P (us ++ (x ∷ vs))
    → P x × All P us × All P vs
All-middle P [] x vs v = (v.0, tt, v.1)
All-middle P (u ∷ us) x vs v = let (a, b, c) = All-middle P us x vs v.1 in (a, (v.0, b), c)

module _ (us vs : List Caller) (n : ℕ) where
  others_store : ℕ
  others_store = number (stores n) (us ++ vs)

  others_start : ℕ
  others_start = number (starts n) (us ++ vs)

  tokens-middle :
      (r : Registry) (p : Caller)
      → number (stores n) (us ++ (p ∷ vs))
          + (number (starts n) (us ++ (p ∷ vs)) + times n r.started)
        ≡ tokens n others_store others_start r p
  unfolding tokens others_store others_start
  tokens-middle r p =
      omega (arith, number-middle (stores n) us p vs, number-middle (starts n) us p vs)

  running-middle :
      (r : Registry) (p : Caller)
      → number (starts n) (us ++ (p ∷ vs)) + times n r.started
        ≡ running n others_store others_start r p
  unfolding running others_start
  running-middle r p = omega (arith, number-middle (starts n) us p vs)

module _ (us vs : List Caller) {r r' : Registry} {p p' : Caller} (st : Call r p r' p')
    (i : IsRegistry (record { registry = r; callers = us ++ (p ∷ vs) })) where
  abbrev after : System
  after = record { registry = r'; callers = us ++ (p' ∷ vs) }

  parts : IsGood r p × All (IsGood r) us × All (IsGood r) vs
  parts = All-middle (IsGood r) us p vs i.good

  good : All (IsGood r') after.callers
  good =
      let stays = IsGood-stays st in
      All-append (IsGood r') us (p' ∷ vs) (All-imp (IsGood r) (IsGood r') stays us parts.1)
        (call-IsGood st parts.0, All-imp (IsGood r) (IsGood r') stays vs parts.2)

  tokens_after :
      (n : ℕ)
      → (tokens n (others_store us vs n) (others_start us vs n) r' p' ≤ 1)
        × (length r'.made ≤ n → tokens n (others_store us vs n) (others_start us vs n) r' p' ≡ 0)
  tokens_after n =
      call-tokens n (others_store us vs n) (others_start us vs n) st
        (λ le. sym (tokens-middle us vs n r p) ∙ i.unmade n le)
        (rw (← tokens-middle us vs n r p) (i.apart n))

  once :
      (n : ℕ) (symbol : String)
      → r'.engines symbol ≡ some n
      → number (starts n) after.callers + times n r'.started ≡ 1
  once n symbol e =
      running-middle us vs n r' p'
      ∙ call-running n (others_store us vs n) (others_start us vs n) st
          (λ s e. sym (running-middle us vs n r p) ∙ i.once n s e)
          (rw (← tokens-middle us vs n r p) (i.apart n)) symbol e

  counted : length r'.started < 2 ^ 64 → r'.count + number counts after.callers ≡ length r'.started
  counted lt = rw (number-middle counts us p' vs) (
      call-count (number counts (us ++ vs)) st
        (λ lt. rw (← number-middle counts us p vs) (i.counted lt)) lt)

  go-IsRegistry : IsRegistry after
  go-IsRegistry = record {
    good = good;
    answered = call-answers st parts.0 i.answered;
    started = call-started st parts.0 i.started;
    made = call-made st parts.0 i.made;
    apart = λ n. rw (tokens-middle us vs n r' p') (tokens_after n).0;
    unmade = λ n le. tokens-middle us vs n r' p' ∙ (tokens_after n).1 le;
    once = once;
    counted = counted;
  }

-- A caller that comes is idle.
come-IsRegistry : (s : System) → IsRegistry s → IsRegistry (record s { callers = idle ∷ s.callers })
unfolding number stores starts counts IsGood
come-IsRegistry s i = record {
  good = (tt, i.good);
  answered = i.answered;
  started = i.started;
  made = i.made;
  apart = λ n. omega (arith, i.apart n);
  unmade = λ n le. omega (arith, i.unmade n le);
  once = λ n symbol e. omega (arith, i.once n symbol e);
  counted = λ lt. omega (arith, i.counted lt);
}

new-IsRegistry : IsRegistry (record { registry = new_registry; callers = [] })
unfolding number times
new-IsRegistry = record {
  good = tt;
  answered = tt;
  started = tt;
  made = λ symbol n e. cc;
  apart = λ n. omega arith;
  unmade = λ n le. omega arith;
  once = λ n symbol e. cc;
  counted = λ lt. omega arith;
}

Reached-IsRegistry : {s : System} → Reached s → IsRegistry s
Reached-IsRegistry new = new-IsRegistry
Reached-IsRegistry (come {s} r) = come-IsRegistry s (Reached-IsRegistry r)
Reached-IsRegistry (go us vs r st) = go-IsRegistry us vs st (Reached-IsRegistry r)

-- Whatever the order of the accesses of any number of callers: whoever asked for a symbol was given the
-- one engine that is registered under it, and that engine was made for this symbol; an engine that is
-- registered has been started once, or else one caller is about to start it and no other is; no other
-- engine was started; and fewer than 2 ^ 64 starts are those that were counted and those that callers are
-- about to count.
pub made_once :
    {s : System}
    → Reached s
    → All
        (λ (a : String × ℕ).
          (s.registry.engines a.0 ≡ some a.1) × (get_elem? s.registry.made a.1 ≡ some a.0))
        s.registry.answers
      × ((n : ℕ) (symbol : String)
          → s.registry.engines symbol ≡ some n
          → number (starts n) s.callers + times n s.registry.started ≡ 1)
      × All (IsRegistered s.registry) s.registry.started
      × (length s.registry.started < 2 ^ 64
          → s.registry.count + number counts s.callers ≡ length s.registry.started)
made_once {s} r =
    let i = Reached-IsRegistry r in
    (
      All-imp (IsAnswer s.registry) _ (λ a e. (e, i.made a.0 a.1 e)) s.registry.answers i.answered,
      i.once,
      i.started,
      i.counted,
    )
