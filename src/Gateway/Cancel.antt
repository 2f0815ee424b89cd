-- ===== src/Gateway/Cancel.antt =====
-- pkg/gateway/gateway.go, `CancelOrder`.
use oktrading.Prelude.{
  ℕ, ◌≡◌, ◌↔◌, refl, sym, subst, ap, Bool, true, false, ◌||◌, Option, none, some, String, same_text,
  Option-cases, Bool-cases, inl, inr, ◌==◌,
}
use mathlib.Core.Option
use oktrading.Types.{Command, cmd_cancel_order}
use oktrading.Mpsc.{is_full, try_submit, Ring}
use oktrading.Shard.{
  Shard, Manager, submit_to_symbol, try_submit_to, store_engine, ShardError, no_engine,
  inbound_full,
}
use oktrading.Gateway.{Float64, Gateway, Error, cancel, symbol_not_found}

-- The symbol has an engine whose inbound ring has room.
pub record Accepts (symbol : String) (m : Manager) : Type 0 where
  pub shard : Shard
  pub known : m.engines symbol ≡ some shard
  pub room : is_full shard.inbound shard.inbound.cursor ≡ false

submits : (c : Command) (r : Ring) → is_full r r.cursor ≡ false → (try_submit c r).0 ≡ true
unfolding try_submit
submits c r e = rw (try_submit, e) refl

refuses : (c : Command) (r : Ring) → is_full r r.cursor ≡ true → (try_submit c r).0 ≡ false
unfolding try_submit
refuses c r e = rw (try_submit, e) refl

-- What a command for a symbol does to the manager.
record Submitted (symbol : String) (m : Manager) (r : Option ShardError × Manager) : Type 0 where
  succeeds : Accepts symbol m → r.0 ≡ none
  only_then : r.0 ≡ none → Accepts symbol m
  elsewhere :
      (other : String) → same_text symbol other ≡ false → r.1.engines other ≡ m.engines other
  same_count : r.1.count ≡ m.count

module _ (symbol : String) (c : Command) (m : Manager) where
  submit_unknown :
      m.engines symbol ≡ none → submit_to_symbol symbol c m ≡ (some (no_engine symbol), m)
  unfolding submit_to_symbol
  submit_unknown e = rw (submit_to_symbol, e) refl

  unknown-Submitted : m.engines symbol ≡ none → Submitted symbol m (some (no_engine symbol), m)
  unknown-Submitted e = record {
    succeeds = λ a. let known = a.known in absurd (cc (e, known));
    only_then = λ q. absurd (cc q);
    elsewhere = λ other ne. refl;
    same_count = refl;
  }

  module _ (s : Shard) (known : m.engines symbol ≡ some s) where
    after : Manager
    after = store_engine symbol (record s { inbound = (try_submit c s.inbound).1 }) m

    submit_full :
        is_full s.inbound s.inbound.cursor ≡ true
        → submit_to_symbol symbol c m ≡ (some (inbound_full symbol), after)
    unfolding submit_to_symbol try_submit_to after
    submit_full e = rw (submit_to_symbol, known, refuses c s.inbound e) refl

    submit_done :
        is_full s.inbound s.inbound.cursor ≡ false → submit_to_symbol symbol c m ≡ (none, after)
    unfolding submit_to_symbol try_submit_to after
    submit_done e = rw (submit_to_symbol, known, submits c s.inbound e) refl

    after_elsewhere :
        (other : String) → same_text symbol other ≡ false → after.engines other ≡ m.engines other
    unfolding after
    after_elsewhere other ne = rw (ne) refl

    room_of : Accepts symbol m → is_full s.inbound s.inbound.cursor ≡ false
    room_of a =
        let same : a.shard ≡ s = cc (a.known, known) in
        subst (λ k. is_full k.inbound k.inbound.cursor ≡ false) same a.room

    full-Submitted :
        is_full s.inbound s.inbound.cursor ≡ true
        → Submitted symbol m (some (inbound_full symbol), after)
    unfolding after
    full-Submitted e = record {
      succeeds = λ a. absurd (clash (e) (room_of a));
      only_then = λ q. absurd (cc q);
      elsewhere = after_elsewhere;
      same_count = refl;
    }
      where
        clash : {b : Bool} → b ≡ true → b ≡ false → ⊥
        clash p q = cc

    done-Submitted : is_full s.inbound s.inbound.cursor ≡ false → Submitted symbol m (none, after)
    unfolding after
    done-Submitted e = record {
      succeeds = λ a. refl;
      only_then = λ q. record { shard = s; known = known; room = e };
      elsewhere = after_elsewhere;
      same_count = refl;
    }

    known-Submitted : Submitted symbol m (submit_to_symbol symbol c m)
    known-Submitted = elim (Bool-cases (is_full s.inbound s.inbound.cursor)) [
      | inl e ↦ subst (Submitted symbol m) (sym (submit_full e)) (full-Submitted e)
      | inr e ↦ subst (Submitted symbol m) (sym (submit_done e)) (done-Submitted e)
    ]

  submit_to_symbol-Submitted : Submitted symbol m (submit_to_symbol symbol c m)
  submit_to_symbol-Submitted = elim (Option-cases (m.engines symbol)) [
    | inl e ↦ subst (Submitted symbol m) (sym (submit_unknown e)) (unknown-Submitted e)
    | inr (s, e) ↦ known-Submitted s e
  ]

abbrev cancel_command : ℕ → ℕ → Command
cancel_command user id = record {
  type = cmd_cancel_order;
  order = none;
  cancel_id = id;
  user_id = user;
  sequence_no = 0;
}

-- The request names a symbol and an order, and the engine of the symbol has room for it.
abbrev pub IsCancellable : String → ℕ → Manager → Type 0
IsCancellable symbol id m = ((same_text symbol "" || id == 0) ≡ false) × Accepts symbol m

-- What `CancelOrder` returns and leaves.
pub record Outcome {ℓ} {F : Type ℓ} {float : Float64 F} (symbol : String) (id : ℕ)
    (g : Gateway float) (r : Option Error × Gateway float) : Type ℓ where
  pub succeeds : (r.0 ≡ none) ↔ IsCancellable symbol id g.manager
  pub elsewhere :
      (other : String)
      → same_text symbol other ≡ false
      → r.1.manager.engines other ≡ g.manager.engines other
  pub same_count : r.1.manager.count ≡ g.manager.count
  pub same_seq : r.1.order_seq ≡ g.order_seq

no_error : (e : Option ShardError) → Option.map symbol_not_found e ≡ none → e ≡ none
no_error none q = refl
no_error (some x) q = absurd (cc q)

-- `CancelOrder` succeeds exactly if the request names a symbol and an order, the symbol has an engine,
-- and the inbound ring of that engine has room. Whatever happens, the engines of other symbols, the
-- number of engines and the order ids stay as they are.
pub cancel-Outcome {ℓ} :
    {F : Type ℓ} (float : Float64 F) (user : ℕ) (symbol : String) (id : ℕ) (g : Gateway float)
    → Outcome symbol id g (cancel float user symbol id g)
unfolding cancel
cancel-Outcome float user symbol id g = elim (Bool-cases (same_text symbol "" || id == 0)) [
  | inl e ↦
      rw (cancel, e)
        (record {
          succeeds = ((λ q. absurd (cc q)), (λ a. absurd (cc (e, a.0))));
          elsewhere = λ other ne. refl;
          same_count = refl;
          same_seq = refl;
        })
  | inr e ↦
      let v = submit_to_symbol-Submitted symbol (cancel_command user id) g.manager in
      rw (cancel, e)
        (record {
          succeeds = (
            (λ q. (e, v.only_then (no_error _ q))),
            (λ a. ap (Option.map symbol_not_found) (v.succeeds (a.1))),
          );
          elsewhere = v.elsewhere;
          same_count = v.same_count;
          same_seq = refl;
        })
]
