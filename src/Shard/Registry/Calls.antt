-- ===== src/Shard/Registry/Calls.antt =====
-- pkg/shard/manager.go, `GetOrCreate`: what one access does to the facts about the engines.
use oktrading.Prelude.{
  ℕ, zero, suc, ◌≡◌, ◌≢◌, ◌⊎◌, inl, inr, refl, sym, ap, ◌∙◌, none, some, List, [], ◌∷◌, ◌++◌,
  String, arith, length, get_elem?, All, All-imp, Bool-cases, same_text, same_text_eq,
  same_text_refl,
}
use oktrading.Shard.Registry.{
  Registry, Caller, idle, loading, creating, storing, starting, counting, returning, register,
  launch, Call, call, hit, miss, create, store, lose, start, add, return,
}

-- What a caller knows of its engine.
unfoldable pub IsGood : Registry → Caller → Type 0
IsGood r (storing symbol n) = get_elem? r.made n ≡ some symbol
IsGood r (starting symbol n) = r.engines symbol ≡ some n
IsGood r (counting symbol n) = r.engines symbol ≡ some n
IsGood r (returning symbol n) = r.engines symbol ≡ some n
IsGood r _ = Unit

none-ne : {n : ℕ} → none ≢ some n
none-ne e = cc

-- What a registration changes.
pub registered :
    (symbol s : String) (m n : ℕ) (r : Registry)
    → (register symbol m r).engines s ≡ some n
    → ((symbol ≡ s) × (m ≡ n)) ⊎ (r.engines s ≡ some n)
unfolding register
registered symbol s m n r e = elim (Bool-cases (same_text symbol s)) [
  | inl same ↦ inl (same_text_eq symbol s same, ground (arith, e, same))
  | inr ne ↦ inr (ground (arith, e, ne))
]

-- An engine that is registered stays.
pub engines-stay :
    {r r' : Registry} {p p' : Caller}
    → Call r p r' p'
    → (s : String) (n : ℕ) → r.engines s ≡ some n
    → r'.engines s ≡ some n
unfolding register launch
engines-stay call s n e = e
engines-stay (hit _) s n e = e
engines-stay (miss _) s n e = e
engines-stay create s n e = e
engines-stay {r} (store {symbol} free) s n e = elim (Bool-cases (same_text symbol s)) [
  | inl same ↦ absurd (none-ne (sym free ∙ ap (λ x. r.engines x) (same_text_eq symbol s same) ∙ e))
  | inr ne ↦ rw (register, ne) e
]
engines-stay (lose _) s n e = e
engines-stay start s n e = e
engines-stay add s n e = e
engines-stay return s n e = e

get_elem?-append :
    (xs ys : List String) (n : ℕ) (v : String)
    → get_elem? xs n ≡ some v
    → get_elem? (xs ++ ys) n ≡ some v
get_elem?-append [] ys n v e = cc
get_elem?-append (x ∷ xs) ys zero v e = e
get_elem?-append (x ∷ xs) ys (suc n) v e = get_elem?-append xs ys n v e

get_elem?_last : (xs : List String) (v : String) → get_elem? (xs ++ (v ∷ [])) (length xs) ≡ some v
get_elem?_last [] v = refl
get_elem?_last (x ∷ xs) v = get_elem?_last xs v

-- An engine has the symbol that it was made for.
made-stay :
    {r r' : Registry} {p p' : Caller}
    → Call r p r' p'
    → (n : ℕ) (s : String) → get_elem? r.made n ≡ some s
    → get_elem? r'.made n ≡ some s
unfolding register launch
made-stay call n s e = e
made-stay (hit _) n s e = e
made-stay (miss _) n s e = e
made-stay {r} (create {symbol}) n s e = get_elem?-append r.made (symbol ∷ []) n s e
made-stay (store _) n s e = e
made-stay (lose _) n s e = e
made-stay start n s e = e
made-stay add n s e = e
made-stay return n s e = e

pub IsGood-stays :
    {r r' : Registry} {p p' : Caller} → Call r p r' p' → (q : Caller) → IsGood r q → IsGood r' q
unfolding IsGood
IsGood-stays st idle g = tt
IsGood-stays st (loading s) g = tt
IsGood-stays st (creating s) g = tt
IsGood-stays st (storing s n) g = made-stay st n s g
IsGood-stays st (starting s n) g = engines-stay st s n g
IsGood-stays st (counting s n) g = engines-stay st s n g
IsGood-stays st (returning s n) g = engines-stay st s n g

register_self :
    (symbol : String) (n : ℕ) (r : Registry) → (register symbol n r).engines symbol ≡ some n
unfolding register
register_self symbol n r = rw (register, same_text_refl symbol) refl

pub call-IsGood : {r r' : Registry} {p p' : Caller} → Call r p r' p' → IsGood r p → IsGood r' p'
unfolding IsGood launch
call-IsGood call g = tt
call-IsGood (hit e) g = e
call-IsGood (miss e) g = tt
call-IsGood {r} (create {symbol}) g = get_elem?_last r.made symbol
call-IsGood {r} (store {symbol} {n} e) g = register_self symbol n r
call-IsGood (lose e) g = e
call-IsGood start g = g
call-IsGood add g = g
call-IsGood return g = tt

-- The symbols of the engines that are registered.
pub call-made :
    {r r' : Registry} {p p' : Caller}
    → Call r p r' p'
    → IsGood r p
    → ((s : String) (n : ℕ) → r.engines s ≡ some n → get_elem? r.made n ≡ some s)
    → (s : String) (n : ℕ) → r'.engines s ≡ some n
    → get_elem? r'.made n ≡ some s
unfolding launch IsGood
call-made call g old s n e = old s n e
call-made (hit _) g old s n e = old s n e
call-made (miss _) g old s n e = old s n e
call-made {r} (create {symbol}) g old s n e = get_elem?-append r.made (symbol ∷ []) n s (old s n e)
call-made {r} (store {symbol} {n = m} free) g old s n e = elim (registered symbol s m n r e) [
  | inl (same, eq) ↦ unfold register in (ap (get_elem? r.made) (sym eq) ∙ g ∙ ap some same)
  | inr before ↦ unfold register in old s n before
]
call-made (lose _) g old s n e = old s n e
call-made start g old s n e = old s n e
call-made add g old s n e = old s n e
call-made return g old s n e = old s n e

-- What a caller was given is registered, and so is an engine that was started.
abbrev pub IsAnswer : Registry → String × ℕ → Type 0
IsAnswer r a = r.engines a.0 ≡ some a.1

abbrev pub IsRegistered : Registry → ℕ → Type 0
IsRegistered r n = (s : String) × r.engines s ≡ some n

-- The answers, or what was started, with at most one more that the caller knows of.
Grows {ℓ} : {A : Type 0} → (A → Type ℓ) → List A → List A → Type ℓ
Grows {A = A} P xs ys = (ys ≡ xs) ⊎ ((a : A) × (ys ≡ a ∷ xs) × P a)

answers-Grows :
    {r r' : Registry} {p p' : Caller}
    → Call r p r' p'
    → IsGood r p
    → Grows (IsAnswer r) r.answers r'.answers
unfolding IsGood Grows launch register
answers-Grows call g = inl refl
answers-Grows (hit _) g = inl refl
answers-Grows (miss _) g = inl refl
answers-Grows create g = inl refl
answers-Grows (store _) g = inl refl
answers-Grows (lose _) g = inl refl
answers-Grows start g = inl refl
answers-Grows add g = inl refl
answers-Grows (return {symbol} {n}) g = inr ((symbol, n), refl, g)

started-Grows :
    {r r' : Registry} {p p' : Caller}
    → Call r p r' p'
    → IsGood r p
    → Grows (IsRegistered r) r.started r'.started
unfolding IsGood Grows launch register
started-Grows call g = inl refl
started-Grows (hit _) g = inl refl
started-Grows (miss _) g = inl refl
started-Grows create g = inl refl
started-Grows (store _) g = inl refl
started-Grows (lose _) g = inl refl
started-Grows (start {symbol} {n}) g = inr (n, refl, (symbol, g))
started-Grows add g = inl refl
started-Grows return g = inl refl

grown :
    {A : Type 0} (P Q : A → Type 0) (xs ys : List A)
    → ((a : A) → P a → Q a)
    → Grows P xs ys
    → All P xs
    → All Q ys
unfolding Grows
grown P Q xs ys f (inl same) v = rw same (All-imp P Q f xs v)
grown P Q xs ys f (inr (a, one_more, pa)) v = rw one_more (f a pa, All-imp P Q f xs v)

module _ {r r' : Registry} {p p' : Caller} (st : Call r p r' p') (g : IsGood r p) where
  pub call-answers : All (IsAnswer r) r.answers → All (IsAnswer r') r'.answers
  call-answers =
      grown (IsAnswer r) (IsAnswer r') r.answers r'.answers (λ a e. engines-stay st a.0 a.1 e)
        (answers-Grows st g)

  pub call-started : All (IsRegistered r) r.started → All (IsRegistered r') r'.started
  call-started =
      grown (IsRegistered r) (IsRegistered r') r.started r'.started
        (λ n e. (e.0, engines-stay st e.0 n e.1)) (started-Grows st g)
