-- ===== src/Engine/Serve/Take.antt =====
-- What an access of the ring takes into the hands of the loop.
use oktrading.Prelude.{
  ℕ, zero, suc, ◌^◌, ◌≤◌, ◌<◌, ◌≡◌, refl, sym, ap, ◌∙◌, Option, some, List, [], ◌∷◌, ◌++◌, arith,
  length, length-append, get_elem?, take, map, append-nil, Bool-cases, Bool, ◌&&◌, ◌==◌, ◌%◌, inl,
  inr,
}
use oktrading.Types.{Command}
use oktrading.Engine.Serve.{Worker, returned, after, end_round}
use oktrading.Mpsc.Shared.{
  Memory, Pc, Consumer, Move, call, load, refuse, pass, lose, win, write, publish, Poll, nothing,
  find, take_cmd, clear, advance,
}
use oktrading.History.{take-append}
use oktrading.Mpsc.Shared.Invariant.{Counts, IsCurrent}

-- What the loop has in its hands.
abbrev pub in_hand : Worker → List Command
in_hand (returned (some c)) = c ∷ []
in_hand _ = []

abbrev pub commands_of : List (ℕ × Command) → List Command
commands_of cmds = map (λ x. x.1) cmds

take_returned :
    (n : ℕ) (xs : List Command) (c : Option Command)
    → c ≡ get_elem? xs n
    → n < length xs
    → take n xs ++ in_hand (returned c) ≡ take (suc n) xs
take_returned zero [] c e lt = absurd (omega arith)
take_returned zero (x ∷ xs) c e lt = ap (λ k. in_hand (returned k)) e
take_returned (suc n) [] c e lt = absurd (omega arith)
take_returned (suc n) (x ∷ xs) c e lt = ap (λ r. x ∷ r) (take_returned n xs c e (omega arith))

pub Move-take :
    {m m' : Memory} {p p' : Pc}
    → Move m p m' p'
    → length m.popped ≤ length m.claims
    → take (length m.popped) m.claims ≡ take (length m'.popped) m'.claims
Move-take {m} (win {c} g) le = sym (take-append c (length m.popped) m.claims le)
Move-take call le = refl
Move-take load le = refl
Move-take (refuse g) le = refl
Move-take (pass g) le = refl
Move-take (lose g) le = refl
Move-take write le = refl
Move-take publish le = refl

pub Poll-take :
    {m m' : Memory} {k k' : Consumer}
    → (p : Poll m k m' k') → Counts m
    → IsCurrent m k
    → take (length m.popped) m.claims ++ in_hand (after p) ≡ take (length m'.popped) m'.claims
Poll-take (nothing g) n f = append-nil _
Poll-take (find g) n f = append-nil _
Poll-take take_cmd n f = append-nil _
Poll-take clear n f = append-nil _
Poll-take {m} (advance {c}) n f =
    let drained = n.drained in
    let next : suc (length m.popped) ≡ length (m.popped ++ (c ∷ [])) =
      omega (arith, length-append m.popped (c ∷ [])) in
    take_returned (length m.popped) m.claims c (f.1 ∙ ap (get_elem? m.claims) drained)
      (omega (arith, drained, n.counted, f.0.some_left))
    ∙ ap (λ k. take k m.claims) next

pub end_round-in_hand : (idle : ℕ) (quit : Bool) → in_hand (end_round idle quit) ≡ []
end_round-in_hand idle quit = elim (Bool-cases ((idle % 2 ^ 14 == 0) && quit)) [
  | inl e ↦ rw (e) refl
  | inr e ↦ rw (e) refl
]
