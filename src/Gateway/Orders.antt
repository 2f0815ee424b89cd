-- ===== src/Gateway/Orders.antt =====
-- pkg/gateway/gateway.go, `validateOrder`, and the orders that it is to let through.
use oktrading.Prelude.{
  ℕ, ◌≡◌, ◌⊎◌, inl, inr, refl, Bool, true, false, Option, none, some, same_text, arith,
  if◌then◌else◌,
}
use oktrading.Int64.{sle, slt}
use oktrading.Types.{
  Side, buy, sell, other_side, OrderType, limit, market, ioc, fok, post_only, other_type, Order,
}
use oktrading.Gateway.{
  OrderError, symbol_empty, invalid_side, quantity_not_positive, price_required, validate_price,
  is_side, validate_order,
}

abbrev pub HasPrice : OrderType → Type 0
HasPrice limit = Unit
HasPrice ioc = Unit
HasPrice fok = Unit
HasPrice post_only = Unit
HasPrice market = ⊥
HasPrice (other_type c) = ⊥

-- An order that may go in: it names a symbol, it has one of the two sides, its quantity is positive,
-- and it is a market order or one of the four priced types with a positive price.
pub record IsValidOrder (o : Order) : Type 0 where
  pub symbol : same_text o.symbol "" ≡ false
  pub side : (o.side ≡ buy) ⊎ (o.side ≡ sell)
  pub quantity : slt 0 o.quantity ≡ true
  pub priced : (o.type ≡ market) ⊎ (HasPrice o.type × (slt 0 o.price ≡ true))

positive_of : (p : ℕ) → sle p 0 ≡ false → slt 0 p ≡ true
positive_of p e = ground (arith, e)

refusal_of :
    (c : Bool) (x : OrderError) (r : Option OrderError)
    → (if c then some x else r) ≡ none
    → (c ≡ false) × (r ≡ none)
refusal_of true x r e = cc
refusal_of false x r e = (refl, e)

refusal_else :
    (c : Bool) (x : OrderError) (r : Option OrderError)
    → (if c then r else some x) ≡ none
    → (c ≡ true) × (r ≡ none)
refusal_else true x r e = (refl, e)
refusal_else false x r e = cc

positive_price : (p : ℕ) → (if sle p 0 then some price_required else none) ≡ none → slt 0 p ≡ true
positive_price p e = positive_of p (refusal_of (sle p 0) price_required none e).0

validate_price_lem :
    (t : OrderType) (p : ℕ)
    → validate_price t p ≡ none
    → (t ≡ market) ⊎ (HasPrice t × (slt 0 p ≡ true))
unfolding validate_price
validate_price_lem market p e = inl refl
validate_price_lem (other_type c) p e = cc
validate_price_lem limit p e = inr (tt, positive_price p e)
validate_price_lem ioc p e = inr (tt, positive_price p e)
validate_price_lem fok p e = inr (tt, positive_price p e)
validate_price_lem post_only p e = inr (tt, positive_price p e)

is_side_lem : (s : Side) → is_side s ≡ true → (s ≡ buy) ⊎ (s ≡ sell)
unfolding is_side
is_side_lem buy e = inl refl
is_side_lem sell e = inr refl
is_side_lem (other_side c) e = cc

-- An order that passes `validateOrder` names a symbol, has one of the two sides and a positive
-- quantity, and is a market order or one of the four priced types with a positive price.
pub validate_order-IsValidOrder : (o : Order) → validate_order o ≡ none → IsValidOrder o
unfolding validate_order
validate_order-IsValidOrder o e =
    let (named, e1) = refusal_of (same_text o.symbol "") symbol_empty _ e in
    let (sided, e2) = refusal_else (is_side o.side) (invalid_side o.side) _ e1 in
    let (qty, e3) = refusal_of (sle o.quantity 0) quantity_not_positive _ e2 in
    record {
      symbol = named;
      side = is_side_lem o.side sided;
      quantity = positive_of o.quantity qty;
      priced = validate_price_lem o.type o.price e3;
    }
