-- ===== src/Engine/Gives.antt =====
-- pkg/pool/pool.go: which orders a command of the engine gives back to the pool.
pub mod Used
pub mod Frees
pub mod Commands
use oktrading.Prelude.{
  ◌≡◌, refl, ap, ◌∙◌, List, [], ◌∷◌, ◌++◌, String, append-nil, append_assoc, if◌then◌else◌,
  Bool-cases, inl, inr, sym,
}
use oktrading.Types.{Order, Trade, Command, status_rejected, status_cancelled}
use oktrading.Engine.{
  Engine, Put, order_put, trade_put, command_put, is_filled, emit_trade, emit_trades, finish,
  accept, reject, cancel_residual,
}

-- The orders among what was given back.
abbrev pub given_back : List Put → List Order
given_back [] = []
given_back (order_put o ∷ ps) = o ∷ given_back ps
given_back (trade_put t ∷ ps) = given_back ps
given_back (command_put c ∷ ps) = given_back ps

pub given_back-append : (ps qs : List Put) → given_back (ps ++ qs) ≡ given_back ps ++ given_back qs
given_back-append [] qs = refl
given_back-append (order_put o ∷ ps) qs = ap (λ r. o ∷ r) (given_back-append ps qs)
given_back-append (trade_put t ∷ ps) qs = given_back-append ps qs
given_back-append (command_put c ∷ ps) qs = given_back-append ps qs

-- Between the two states the orders of the list were given back.
pub record Gives (e : Engine) (os : List Order) (e' : Engine) : Type 0 where
  pub puts : List Put
  pub logged : e'.pool ≡ e.pool ++ puts
  pub orders : given_back puts ≡ os

pub Gives-then :
    {e e1 e2 : Engine} {xs ys : List Order} → Gives e xs e1 → Gives e1 ys e2 → Gives e (xs ++ ys) e2
Gives-then {e} {xs = xs} p q = record {
  puts = p.puts ++ q.puts;
  logged = q.logged ∙ ap (λ l. l ++ q.puts) p.logged ∙ append_assoc e.pool p.puts q.puts;
  orders =
      given_back-append p.puts q.puts
      ∙ ap (λ l. l ++ given_back q.puts) p.orders
      ∙ ap (λ l. xs ++ l) q.orders;
}

-- The makers that a trade filled.
abbrev pub filled_makers : List Trade → List Order
filled_makers [] = []
filled_makers (t ∷ ts) =
    let rest = filled_makers ts in
    if is_filled t.maker_order.status then t.maker_order ∷ rest else rest

emit_trade-Gives :
    (taker : Order) (t : Trade) (e : Engine)
    → Gives e (filled_makers (t ∷ [])) (emit_trade taker t e)
unfolding emit_trade
emit_trade-Gives taker t e = elim (Bool-cases (is_filled t.maker_order.status)) [
  | inl filled ↦
      rw (emit_trade, filled)
        (record {
          puts = order_put t.maker_order ∷ trade_put _ ∷ [];
          logged = append_assoc e.pool _ _;
          orders = refl;
        })
  | inr part ↦
      rw (emit_trade, part) (record { puts = trade_put _ ∷ []; logged = refl; orders = refl })
]

filled_makers_cons :
    (t : Trade) (ts : List Trade)
    → filled_makers (t ∷ []) ++ filled_makers ts ≡ filled_makers (t ∷ ts)
filled_makers_cons t ts = elim (Bool-cases (is_filled t.maker_order.status)) [
  | inl filled ↦ rw filled refl
  | inr part ↦ rw part refl
]

pub Gives-as : {e e' : Engine} {xs ys : List Order} → xs ≡ ys → Gives e xs e' → Gives e ys e'
Gives-as q p = record { puts = p.puts; logged = p.logged; orders = p.orders ∙ q }

pub emit_trades-Gives :
    (taker : Order) (ts : List Trade) (e : Engine)
    → Gives e (filled_makers ts) (emit_trades taker ts e)
unfolding emit_trades
emit_trades-Gives taker [] e = record { puts = []; logged = sym (append-nil e.pool); orders = refl }
emit_trades-Gives taker (t ∷ ts) e =
    Gives-as (filled_makers_cons t ts)
      (Gives-then (emit_trade-Gives taker t e) (emit_trades-Gives taker ts (emit_trade taker t e)))

pub finish-Gives : (o : Order) (e : Engine) → Gives e (o ∷ []) (finish o e)
unfolding finish
finish-Gives o e = record { puts = order_put o ∷ []; logged = refl; orders = refl }

pub accept-Gives : (o : Order) (e : Engine) → Gives e [] (accept o e)
unfolding accept
accept-Gives o e = record { puts = []; logged = sym (append-nil e.pool); orders = refl }

pub reject-Gives :
    (reason : String) (o : Order) (e : Engine)
    → Gives e (record o { status = status_rejected } ∷ []) (reject reason o e)
unfolding reject
reject-Gives reason o e = record { puts = order_put _ ∷ []; logged = refl; orders = refl }

pub cancel_residual-Gives :
    (o : Order) (e : Engine)
    → Gives e (record o { status = status_cancelled } ∷ []) (cancel_residual o e)
unfolding cancel_residual
cancel_residual-Gives o e = record { puts = order_put _ ∷ []; logged = refl; orders = refl }
