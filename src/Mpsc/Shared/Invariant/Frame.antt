-- ===== src/Mpsc/Shared/Invariant/Frame.antt =====
-- What an access leaves as it was.
use oktrading.Prelude.{
  ℕ, ◌+◌, ◌≤◌, ◌≡◌, ◌≢◌, refl, sym, subst, ◌∙◌, some, get_elem?, arith, Bool-cases, inl, inr,
  ==_iff, ◌==◌,
}
use oktrading.Mpsc.Shared.{
  Memory, Consumer, ready, found, took, cleared, Pc, idle, trying, loaded, room, claimed, written,
  slot, at_producer,
}
use oktrading.Mpsc.Shared.Cells.{span}
use oktrading.Mpsc.Shared.Invariant.{owned, IsPending, IsFresh, HasNext, IsCurrent}

-- What holds of a producer's new place and of the others' old ones holds of all.
pub at-all {ℓ} :
    (P : ℕ → Pc → Type ℓ) (pc : ℕ → Pc) (i : ℕ) (p : Pc)
    → P i p
    → ((j : ℕ) → i ≢ j → P j (pc j))
    → (j : ℕ) → P j (at_producer pc i p j)
at-all P pc i p here there j = elim (Bool-cases (i == j)) [
  | inl e ↦ rw (e) (subst (λ k. P k p) ((==_iff i j).0 e) here)
  | inr e ↦ rw (e) (there j (λ q. ground (arith, e, q)))
]

module _ (pc : ℕ → Pc) (i : ℕ) (p : Pc) where
  pub at_same : at_producer pc i p i ≡ p
  at_same = ground arith

  pub at_other : (j : ℕ) → i ≢ j → at_producer pc i p j ≡ pc j
  at_other j ne = ground (arith, ne)

pub owned-IsPending : {m : Memory} (p : Pc) (t : ℕ) → IsFresh m p → owned p ≡ some t → IsPending m t
owned-IsPending {m} (claimed c s) t f e = subst (λ k. IsPending m k) (cc e) (f.0)
owned-IsPending {m} (written s) t f e = subst (λ k. IsPending m k) (cc e) (f.0)
owned-IsPending idle t f e = absurd (cc e)
owned-IsPending (trying c) t f e = absurd (cc e)
owned-IsPending (loaded c cur) t f e = absurd (cc e)
owned-IsPending (room c cur) t f e = absurd (cc e)

-- The slot of `t`, its command and its claim are as they were.
pub record Stays (m m' : Memory) (t : ℕ) : Type 0 where
  pub pending : IsPending m' t
  pub same_cmd : (slot m' t).cmd ≡ (slot m t).cmd
  pub same_claim : get_elem? m'.claims t ≡ get_elem? m.claims t

pub Stays-IsFresh :
    {m m' : Memory} (p : Pc)
    → m.ring.cursor ≤ m'.ring.cursor
    → m.ring.tail + span m ≤ m'.ring.tail + span m'
    → ((t : ℕ) → owned p ≡ some t → IsPending m t → Stays m m' t)
    → IsFresh m p
    → IsFresh m' p
Stays-IsFresh idle grows moves stay f = tt
Stays-IsFresh (trying c) grows moves stay f = tt
Stays-IsFresh (loaded c cur) grows moves stay f = omega (arith, f, grows)
Stays-IsFresh (room c cur) grows moves stay f = omega (arith, f, moves)
Stays-IsFresh (claimed c s) grows moves stay f =
    let st = stay s refl (f.0) in (st.pending, st.same_claim ∙ f.1)
Stays-IsFresh (written s) grows moves stay f =
    let st = stay s refl (f.0) in (st.pending, st.same_cmd ∙ f.1 ∙ sym st.same_claim)

pub Stays-IsCurrent :
    {m m' : Memory} (k : Consumer)
    → (HasNext m → HasNext m' × (get_elem? m'.claims m'.ring.tail ≡ get_elem? m.claims m.ring.tail))
    → IsCurrent m k
    → IsCurrent m' k
Stays-IsCurrent ready stay f = tt
Stays-IsCurrent found stay f = (stay f).0
Stays-IsCurrent (took c) stay f = let (next, e) = stay (f.0) in (next, f.1 ∙ sym e)
Stays-IsCurrent (cleared c) stay f = let (next, e) = stay (f.0) in (next, f.1 ∙ sym e)
