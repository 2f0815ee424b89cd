-- ===== src/Demo/Reason.antt =====
-- cmd/engine/main.go and pkg/offheap/ring.go: the reason of a rejection, from the engine to the printer.
use oktrading.Prelude.{
  ℕ, zero, suc, ◌-◌, ◌≤◌, ◌<◌, ◌≡◌, ◌≢◌, refl, sym, ap, ◌∙◌, List, [], ◌∷◌, ◌++◌, String, codes,
  Option, none, some, arith, ltb, length, take, drop, set, replicate, All, contains, false,
  Bool-cases, inl, inr, if◌then◌else◌,
}
use oktrading.Types.{Order, EventType}
use oktrading.Offheap.{with_order, copy_reason, reason_event}
use oktrading.Demo.{keep, trim_right, printed_reason}

trim_zeros : (k : ℕ) → trim_right (replicate k 0) ≡ []
unfolding trim_right keep
trim_zeros zero = refl
trim_zeros (suc k) = ap (keep 0) (trim_zeros k)

trim-append_zeros : (bs : List ℕ) (k : ℕ) → trim_right (bs ++ replicate k 0) ≡ trim_right bs
unfolding trim_right keep
trim-append_zeros [] k = trim_zeros k
trim-append_zeros (b ∷ bs) k = ap (keep b) (trim-append_zeros bs k)

-- Text without a 0 is not trimmed.
trim_none : (bs : List ℕ) → All (λ b. b ≢ 0) bs → trim_right bs ≡ bs
unfolding trim_right keep
trim_none [] v = refl
trim_none (b ∷ []) v = ground (arith, v.0)
trim_none (b ∷ c ∷ bs) v = ap (keep b) (trim_none (c ∷ bs) v.1)

nonzero : (bs : List ℕ) → contains 0 bs ≡ false → All (λ b. b ≢ 0) bs
nonzero [] text = tt
nonzero (b ∷ bs) text = ((λ e. ground (arith, e, text)), nonzero bs (ground (arith, text)))

All-take : (P : ℕ → Type 0) (n : ℕ) (bs : List ℕ) → All P bs → All P (take n bs)
All-take P zero bs v = tt
All-take P (suc n) [] v = tt
All-take P (suc n) (b ∷ bs) v = (v.0, All-take P n bs v.1)

-- Bytes written over the front of a zeroed field, with a 0 behind them.
over_zeros :
    (n m : ℕ) (bs : List ℕ)
    → n ≤ length bs
    → n < m
    → set (take n bs ++ drop n (replicate m 0)) n 0 ≡ take n bs ++ replicate (m - n) 0
over_zeros zero (suc m) bs le lt =
    let whole : suc m ≡ suc m - 0 = omega arith in ap (λ k. replicate k 0) whole
over_zeros zero zero bs le lt = absurd (omega (arith, lt))
over_zeros (suc n) zero bs le lt = absurd (omega (arith, lt))
over_zeros (suc n) (suc m) [] le lt = absurd (omega (arith, le))
over_zeros (suc n) (suc m) (b ∷ bs) le lt =
    let same : m - n ≡ suc m - suc n = omega arith in
    ap (λ r. b ∷ r)
      (over_zeros n m bs (omega (arith, le)) (omega (arith, lt))
        ∙ ap (λ k. take n bs ++ replicate k 0) same)

take_short : (n : ℕ) (bs : List ℕ) → length bs ≤ n → take n bs ≡ bs
take_short zero [] le = refl
take_short zero (b ∷ bs) le = absurd (omega (arith, le))
take_short (suc n) [] le = refl
take_short (suc n) (b ∷ bs) le = ap (λ r. b ∷ r) (take_short n bs (omega (arith, le)))

abbrev fits : List ℕ → ℕ
fits bs = if ltb 31 (length bs) then 31 else length bs

fits-le : (bs : List ℕ) → (fits bs ≤ length bs) × (fits bs < 32)
fits-le bs = (ground arith, ground arith)

take-fits : (bs : List ℕ) → take (fits bs) bs ≡ take 31 bs
take-fits bs = elim (Bool-cases (ltb 31 (length bs))) [
  | inl long ↦ rw long refl
  | inr short ↦
      rw short
        (take_short (length bs) bs (omega arith) ∙ sym (take_short 31 bs (ground (arith, short))))
]

copied : (bs : List ℕ) → copy_reason (replicate 32 0) bs ≡ take 31 bs ++ replicate (32 - fits bs) 0
unfolding copy_reason
copied bs =
    over_zeros (fits bs) 32 bs (fits-le bs).0 (fits-le bs).1
    ∙ ap (λ t. t ++ replicate (32 - fits bs) 0) (take-fits bs)

-- What the event holds, with or without an order.
reason_event-reason :
    (type : EventType) (seq_no : ℕ) (order : Option Order) (reason : String)
    → (reason_event type seq_no order reason).reason
      ≡ take 31 (codes reason) ++ replicate (32 - fits (codes reason)) 0
unfolding reason_event with_order
reason_event-reason type seq_no none reason = copied (codes reason)
reason_event-reason type seq_no (some o) reason = copied (codes reason)

-- The printer shows the first 31 bytes of a reason in which no byte is 0, and so the whole of a reason
-- that is no longer.
pub reason_printed :
    (type : EventType) (seq_no : ℕ) (order : Option Order) (reason : String)
    → contains 0 (codes reason) ≡ false
    → (printed_reason (reason_event type seq_no order reason) ≡ take 31 (codes reason))
      × (length (codes reason) ≤ 31
          → printed_reason (reason_event type seq_no order reason) ≡ codes reason)
unfolding printed_reason
reason_printed type seq_no order reason text =
    let shown : printed_reason (reason_event type seq_no order reason) ≡ take 31 (codes reason) =
      ap trim_right (reason_event-reason type seq_no order reason)
      ∙ trim-append_zeros (take 31 (codes reason)) (32 - fits (codes reason))
      ∙ trim_none (take 31 (codes reason))
          (All-take (λ b. b ≢ 0) 31 (codes reason) (nonzero (codes reason) text)) in
    (shown, λ short. shown ∙ take_short 31 (codes reason) short)
