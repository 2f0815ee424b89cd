-- ===== src/Engine/Admit.antt =====
-- pkg/engine/engine.go, `handleNewOrder`, on an engine whose book is valid.
use oktrading.Prelude.{
  ℕ, ◌<◌, ◌≡◌, ◌≢◌, inl, inr, refl, sym, subst, ◌∙◌, true, some, String, arith, Bool-cases,
}
use oktrading.Int64.{slt, bias}
use oktrading.Types.{Order, OrderType, limit, market, ioc, fok, post_only, other_type}
use oktrading.OrderBook.Book.{Half, other}
use oktrading.OrderBook.Valid.{IsPrice}
use oktrading.OrderBook.Invariant.{IsBook}
use oktrading.OrderBook.Match.{Matched, match_order}
use oktrading.OrderBook.Match.Refine.{Matches, match_order-Matches, matched-Matches}
use oktrading.Engine.{
  Engine, would_cross, emit_trades, finish, accept, reject, cancel_residual, sweep_then,
  rest_or_finish, cancel_or_finish, new_order,
}
use oktrading.Engine.Keeps.{
  IsAdmissible, book-emit_trades, sweep_then-eq, restable, accept-IsBook, rest-IsRestable,
}
use oktrading.OrderBook.Rest.Add.{IsRestable}
use oktrading.Engine.PostOnly.{would_cross-Better}
use oktrading.Engine.Fok.{fok_fills_or_kills}

-- The handler of an order of this type returns, and leaves a valid book.
abbrev pub Returns : OrderType → Order → Engine → Type 0
Returns type o e = (e' : Engine) × (new_order type o e ≡ some e') × IsBook e'.book

module _ (h : Half) (o : Order) (e : Engine) (v : IsBook e.book) where
  -- The engine after the match and its events.
  abbrev swept : Matched → Engine
  swept m = emit_trades m.taker m.trades (record e { book = m.book })

  swept-IsBook : (m : Matched) → Matches h o e.book m → IsBook (swept m).book
  swept-IsBook m s = rw (book-emit_trades m.taker m.trades (record e { book = m.book })) s.valid

  -- What a match and the rest of the branch leave.
  sweeps :
      (after : Order → Engine → Engine)
      → IsAdmissible h o e.book
      → ((m : Matched)
          → match_order o e.book ≡ some m
          → Matches h o e.book m
          → IsBook (after m.taker (swept m)).book)
      → (e' : Engine) × (sweep_then after o e ≡ some e') × IsBook e'.book
  sweeps after a keeps =
      let (m, em, s) = match_order-Matches h o e.book v a.taker a.its_side in
      (after m.taker (swept m), sweep_then-eq after o e em, keeps m em s)

  book-finish : (x : Order) (f : Engine) → (finish x f).book ≡ f.book
  unfolding finish
  book-finish x f = refl

  book-cancel_or_finish : (x : Order) (f : Engine) → (cancel_or_finish x f).book ≡ f.book
  unfolding cancel_or_finish cancel_residual finish
  book-cancel_or_finish x f = ground arith

  residual_cancelled :
      (m : Matched) → Matches h o e.book m → IsBook (cancel_or_finish m.taker (swept m)).book
  residual_cancelled m s =
      subst IsBook (sym (book-cancel_or_finish m.taker (swept m))) (swept-IsBook m s)

  rests :
      (x : Order) (f : Engine)
      → IsBook f.book
      → (slt 0 x.remaining ≡ true → IsBook (accept x f).book)
      → IsBook (rest_or_finish x f).book
  unfolding rest_or_finish
  rests x f vf resting = elim (Bool-cases (slt 0 x.remaining)) [
    | inl left ↦ rw (rest_or_finish, left) (resting left)
    | inr done ↦ rw (rest_or_finish, done) (subst IsBook (sym (book-finish x f)) vf)
  ]

  -- Any order but a market order has a price.
  priced : IsAdmissible h o e.book → (t : OrderType) → o.type ≡ t → t ≢ market → IsPrice o.price
  priced a t eq ne = elim a.price [
    | inl none_needed ↦ absurd (ne (sym eq ∙ none_needed))
    | inr p ↦ p
  ]

  positive : (n : ℕ) → slt 0 n ≡ true → 0 < n
  unfolding bias
  positive n lt = ground (arith, lt)

  residual_rests :
      IsAdmissible h o e.book
      → o.type ≡ limit
      → (m : Matched) → match_order o e.book ≡ some m
      → Matches h o e.book m
      → IsBook (rest_or_finish m.taker (swept m)).book
  residual_rests a type m em s =
      let vs = swept-IsBook m s in
      let same = book-emit_trades m.taker m.trades (record e { book = m.book }) in
      let price = priced a limit type (λ eq. cc) in
      rests m.taker (swept m) vs (λ left. accept-IsBook (other h) m.taker (swept m) vs (
        subst (IsRestable (other h) m.taker) (sym same)
          (rest-IsRestable h o e.book v a type m em s price (positive m.taker.remaining left))))

  limit-Returns : IsAdmissible h o e.book → o.type ≡ limit → Returns limit o e
  unfolding new_order
  limit-Returns a type = sweeps rest_or_finish a (residual_rests a type)

  market-Returns : IsAdmissible h o e.book → Returns market o e
  unfolding new_order
  market-Returns a = sweeps cancel_or_finish a (λ m em s. residual_cancelled m s)

  ioc-Returns : IsAdmissible h o e.book → Returns ioc o e
  unfolding new_order
  ioc-Returns a = sweeps cancel_or_finish a (λ m em s. residual_cancelled m s)

  fok-Returns : IsAdmissible h o e.book → o.type ≡ fok → Returns fok o e
  fok-Returns a type = elim (fok_fills_or_kills h o e v a.taker a.its_side type) [
    | inl (le, (m, em, none_left, all, eq, done)) ↦
        let s = matched-Matches h o e.book v a.taker a.its_side em in
        (
          finish m.taker (swept m),
          eq,
          subst IsBook (sym (book-finish m.taker (swept m))) (swept-IsBook m s),
        )
    | inr (lt, (e', eq, killed)) ↦ (e', eq, subst IsBook (sym killed.same_book) v)
  ]

  book-reject : (reason : String) (x : Order) (f : Engine) → (reject reason x f).book ≡ f.book
  unfolding reject
  book-reject reason x f = refl

  rejects :
      (reason : String) → (e' : Engine) × (some (reject reason o e) ≡ some e') × IsBook e'.book
  rejects reason = (reject reason o e, refl, subst IsBook (sym (book-reject reason o e)) v)

  post_only-Returns : IsAdmissible h o e.book → o.type ≡ post_only → Returns post_only o e
  unfolding new_order
  post_only-Returns a type =
      let price = priced a post_only type (λ eq. cc) in
      elim (Bool-cases (would_cross o e.book)) [
        | inl cross ↦ rw (new_order, cross) (rejects _)
        | inr clear ↦
            rw (new_order, clear)
              (
                accept o e,
                refl,
                accept-IsBook (other h) o e v (
                    restable h o e.book a.its_side price a.qty a.fresh a.room
                      (would_cross-Better h o e.book v a.its_side price.1 clear)),
              )
      ]

  by_type : (type : OrderType) → o.type ≡ type → IsAdmissible h o e.book → Returns type o e
  by_type limit eq a = limit-Returns a eq
  by_type market eq a = market-Returns a
  by_type ioc eq a = ioc-Returns a
  by_type fok eq a = fok-Returns a eq
  by_type post_only eq a = post_only-Returns a eq
  by_type (other_type c) eq a = unfold new_order in rejects _

-- An engine with a valid book takes any admissible order, whatever its type, without a panic, and
-- its book is valid afterwards: sorted, without empty levels, every level's cached quantity that of
-- its orders, the index in agreement with the sides, and no bid at or above an ask.
pub new_order-IsBook :
    (h : Half) (o : Order) (e : Engine)
    → IsBook e.book
    → IsAdmissible h o e.book
    → (e' : Engine) × (new_order o.type o e ≡ some e') × IsBook e'.book
new_order-IsBook h o e v a = by_type h o e v o.type refl a
