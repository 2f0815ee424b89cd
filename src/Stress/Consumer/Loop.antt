-- ===== src/Stress/Consumer/Loop.antt =====
-- cmd/stress/main.go, `runConsumer`: when its loop ends, and what it has counted by then.
use oktrading.Prelude.{
  ℕ, ◌+◌, ◌≤◌, ◌<◌, ◌≡◌, ◌⊎◌, inl, inr, refl, ap, ◌∙◌, true, false, ◌&&◌, none, some, List, [], ◌∷◌,
  ◌++◌, arith, length, ltb, Bool-cases, Option-cases,
}
use oktrading.Offheap.{RawEvent}
use oktrading.Stress.Consumer.{Totals, Round, count_event, is_nothing, count_polled, run_consumer}
use oktrading.Stress.Consumer.Counts.{
  polled_events, Counts, IsTotals, event_counts, none_counted, still-IsTotals, fewer-IsTotals,
  Counts_cons,
}

-- Why the loop ends before these rounds: there are none, or half a second has passed since the
-- deadline, or there is nothing to read after it.
abbrev pub Ended : ℕ → List Round → Type 0
Ended deadline [] = Unit
Ended deadline (r ∷ rs) =
    (deadline + 500_000_000 ≤ r.head) ⊎ ((r.polled ≡ none) × (deadline < r.now))

-- The loop counts what its first rounds polled.
abbrev pub CountsUpTo : ℕ → List Round → Totals → Totals → Type 0
CountsUpTo deadline rounds s s' =
    (done : List Round) × (rest : List Round) × (rounds ≡ done ++ rest)
    × Ended deadline rest
    × Counts s (polled_events done) s'

stopped :
    (deadline : ℕ) (r : Round) (rs : List Round) (s : Totals) {n : ℕ}
    → IsTotals n s
    → Ended deadline (r ∷ rs)
    → CountsUpTo deadline (r ∷ rs) s s
unfolding polled_events
stopped deadline r rs s t ended = ([], r ∷ rs, refl, ended, none_counted t)

after_nothing :
    (deadline : ℕ) (r : Round) (rs : List Round) (s s' : Totals)
    → r.polled ≡ none
    → CountsUpTo deadline rs s s'
    → CountsUpTo deadline (r ∷ rs) s s'
unfolding polled_events
after_nothing deadline r rs s s' nothing (done, rest, split, ended, c) =
    (r ∷ done, rest, ap (λ l. r ∷ l) split, ended, rw nothing c)

after_event :
    (deadline : ℕ) (r : Round) (rs : List Round) (v : RawEvent) (s s1 s' : Totals)
    → r.polled ≡ some v
    → Counts s (v ∷ []) s1
    → CountsUpTo deadline rs s1 s'
    → CountsUpTo deadline (r ∷ rs) s s'
unfolding polled_events
after_event deadline r rs v s s1 s' polled one (done, rest, split, ended, c) = (
  r ∷ done,
  rest,
  ap (λ l. r ∷ l) split,
  ended,
  rw polled (Counts_cons v (polled_events done) one c),
)

module _ (deadline : ℕ) (r : Round) (rs : List Round) (s : Totals) where
  no_round : ltb r.head (deadline + 500_000_000) ≡ false → run_consumer deadline (r ∷ rs) s ≡ s
  unfolding run_consumer
  no_round late = rw (run_consumer, late) refl

  left_off : r.polled ≡ none → ltb deadline r.now ≡ true → run_consumer deadline (r ∷ rs) s ≡ s
  unfolding run_consumer
  left_off nothing past =
      let leaves : (is_nothing r.polled && ltb deadline r.now) ≡ true =
        ap (λ p. is_nothing p && ltb deadline r.now) nothing ∙ past in
      ground (arith, leaves)

  went_on :
      ltb r.head (deadline + 500_000_000) ≡ true
      → (is_nothing r.polled && ltb deadline r.now) ≡ false
      → run_consumer deadline (r ∷ rs) s ≡ run_consumer deadline rs (count_polled r s)
  unfolding run_consumer
  went_on early stays = rw (run_consumer, early, stays) refl

  counted_none : r.polled ≡ none → count_polled r s ≡ s
  unfolding count_polled
  counted_none e = ap (λ p. elim p as (λ x. Totals) [ none ↦ s | some v ↦ count_event r.now v s ]) e

  counted_some : (v : RawEvent) → r.polled ≡ some v → count_polled r s ≡ count_event r.now v s
  unfolding count_polled
  counted_some v e =
      ap (λ p. elim p as (λ x. Totals) [ none ↦ s | some w ↦ count_event r.now w s ]) e

-- With room in the histogram for the rounds: the consumer counts every event that it polls in its first
-- rounds, once under its kind, and records one sample for every trade and every acceptance that carries a
-- time; and it ends there only because half a second has passed since the deadline, because it is past
-- the deadline and there is nothing to read, or because there are no more rounds.
pub run_consumer-Counts :
    (deadline : ℕ) (rounds : List Round) (s : Totals)
    → IsTotals (length rounds) s
    → CountsUpTo deadline rounds s (run_consumer deadline rounds s)
unfolding run_consumer polled_events
run_consumer-Counts deadline [] s t = ([], [], refl, tt, none_counted t)
run_consumer-Counts deadline (r ∷ rs) s t = elim (Option-cases r.polled) [
  | inr (v, polled) ↦
      let one = event_counts (length rs) r.now v s t in
      let next = run_consumer-Counts deadline rs (count_event r.now v s) (still-IsTotals t one) in
      elim (Bool-cases (ltb r.head (deadline + 500_000_000))) [
        | inl early ↦
            let eq =
              went_on deadline r rs s early (ap (λ p. is_nothing p && ltb deadline r.now) polled)
              ∙ ap (run_consumer deadline rs) (counted_some deadline r rs s v polled) in
            rw eq (after_event deadline r rs v s _ _ polled one next)
        | inr late ↦
            rw (no_round deadline r rs s late)
              (stopped deadline r rs s t (inl (ground (arith, late))))
      ]
  | inl nothing ↦
      let next = run_consumer-Counts deadline rs s (fewer-IsTotals t) in
      elim (Bool-cases (ltb r.head (deadline + 500_000_000))) [
        | inl early ↦ elim (Bool-cases (ltb deadline r.now)) [
          | inl past ↦
              rw (left_off deadline r rs s nothing past)
                (stopped deadline r rs s t (inr (nothing, ground (arith, past))))
          | inr before ↦
              let eq =
                went_on deadline r rs s early
                  (ap (λ p. is_nothing p && ltb deadline r.now) nothing ∙ before)
                ∙ ap (run_consumer deadline rs) (counted_none deadline r rs s nothing) in
              rw eq (after_nothing deadline r rs s _ nothing next)
        ]
        | inr late ↦
            rw (no_round deadline r rs s late)
              (stopped deadline r rs s t (inl (ground (arith, late))))
      ]
]
