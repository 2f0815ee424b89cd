-- ===== src/OrderBook/Invariant.antt =====
-- The invariant of a book: both sides are valid, the index and the sides agree, no id rests twice,
-- and no bid reaches an ask.
use oktrading.Prelude.{ℕ, ◌<◌, ◌≡◌, refl, true, some, List, All, contains, Distinct, String}
use oktrading.Types.{Order, Side, buy, sell}
use oktrading.OrderBook.Book.{
  Half, bid, ask, other, OrderLoc, Ladder, Index, OrderBook, ladder, set_ladder, new,
}
use oktrading.OrderBook.Valid.{IsLadder, queue}
use oktrading.OrderBook.Match.Ids.{ids, IsFiled}

-- The resting orders of one half, in price-time priority.
abbrev pub ladder_queue : Ladder → List Order
ladder_queue l = queue l.prices l.nodes

abbrev pub book_queue : Half → OrderBook → List Order
book_queue h b = ladder_queue (ladder h b)

-- The side of the orders that rest in a half.
abbrev pub side_of : Half → Side
side_of bid = buy
side_of ask = sell

pub record IsSide (h : Half) (l : Ladder) (index : Index) : Type 0 where
  pub valid : IsLadder h l.prices l.nodes
  pub filed : All (IsFiled index h (side_of h)) (ladder_queue l)
  pub distinct : Distinct (ids (ladder_queue l))

abbrev pub IsUncrossed : OrderBook → Type 0
IsUncrossed b =
    All (λ (x : Order). All (λ (y : Order). x.price < y.price) (book_queue ask b))
      (book_queue bid b)

pub record IsBook (b : OrderBook) : Type 0 where
  pub side : (h : Half) → IsSide h (ladder h b) b.orders
  pub found :
      (id : ℕ) (loc : OrderLoc)
      → b.orders id ≡ some loc
      → contains id (ids (book_queue loc.half b)) ≡ true
  pub uncrossed : IsUncrossed b

pub half_cases {ℓ} : (P : Half → Type ℓ) (h : Half) → P h → P (other h) → (k : Half) → P k
half_cases P bid x y bid = x
half_cases P bid x y ask = y
half_cases P ask x y bid = y
half_cases P ask x y ask = x

-- The book with another side and another index.
abbrev pub store : Half → Ladder → Index → OrderBook → OrderBook
store h l index b = record (set_ladder h l b) { orders = index }

module _ (h : Half) (l : Ladder) (index : Index) (b : OrderBook) where
  pub ladder-store_self : ladder h (store h l index b) ≡ l
  ladder-store_self = elim h as (λ k. ladder k (store k l index b) ≡ l) [ bid ↦ refl | ask ↦ refl ]

  pub ladder-store-other : ladder (other h) (store h l index b) ≡ ladder (other h) b
  ladder-store-other = elim h as (λ k. ladder (other k) (store k l index b) ≡ ladder (other k) b) [
    | bid ↦ refl
    | ask ↦ refl
  ]

  pub symbol-store : (store h l index b).symbol ≡ b.symbol
  symbol-store = elim h as (λ k. (store k l index b).symbol ≡ b.symbol) [ bid ↦ refl | ask ↦ refl ]

-- A new book is valid.
pub new-IsBook : (symbol : String) → IsBook (new symbol)
unfolding new
new-IsBook symbol = record { side = λ h. empty_side h; found = λ id loc e. cc; uncrossed = tt }
  where
    empty_side : (h : Half) → IsSide h (ladder h (new symbol)) (new symbol).orders
    empty_side bid = record {
      valid = record { sorted = tt; level_of = tt; only = λ p e. refl };
      filed = tt;
      distinct = tt;
    }
    empty_side ask = record {
      valid = record { sorted = tt; level_of = tt; only = λ p e. refl };
      filed = tt;
      distinct = tt;
    }

pub other-ne : (h : Half) → ¬ (h ≡ other h)
other-ne bid e = cc
other-ne ask e = cc
