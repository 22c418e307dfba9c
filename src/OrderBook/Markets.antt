-- ===== src/OrderBook/Markets.antt =====
-- A market order in include/lob/order_book.hpp, from its guards to the book that it leaves, against
-- the reference engine of engines/naive_book.hpp.
use limit_order_book.Base.{
  ℕ, ◌^◌, ◌<◌, ◌≡◌, refl, sym, ap, subst, ◌∙◌, ℤ, pos, ◌≤ℤ◌, ◌<ℤ◌, IsI64, ltb_ℤ, eqb_ℤ, Bool, true,
  false, none, List, [], ◌∷◌, All, arith, ◌==◌, Bool-cases, inl, inr,
}
use limit_order_book.Types.{Side, bid, ask, allow, no_price}
use limit_order_book.Fifo.{Ptr}
use limit_order_book.Naive.Sides
use limit_order_book.Naive.Sides.{
  BookSide, SideFill, match_side, match_from, fill_level, front_price,
}
use limit_order_book.Naive
use limit_order_book.Naive.{NaiveBook, own, opposite, set_opposite, protected, market_match}
use limit_order_book.Priority.Market.{limit_price}
use limit_order_book.Naive.Refinement.{other, own-set_opposite}
use limit_order_book.Naive.Updates.{opposite-set_opposite, trades-set_opposite}
use limit_order_book.Engine.{Parts, Book, MatchOutcome, opposite_ladder, match, stp_is_on}
use limit_order_book.Engine.Laws.{Entries, LadderLaws, IndexLaws, AllocLaws, first_price}
use limit_order_book.Engine.Queues.{Groups, entries}
use limit_order_book.Engine.Books.{Represents}
use limit_order_book.Engine.Levels.{book_side}
use limit_order_book.Engine.Agreement.{match-match_side}
use limit_order_book.OrderBook.{submit_market, is_resting, market_limit, max_price, min_price}
use limit_order_book.OrderBook.Missing.{not_resting-missing}
use limit_order_book.OrderBook.Submission.{Submitted, Submitted-unchanged}

-- Two price tests that agree on the levels of a side match the same.
match_from-same :
    (taker want : ℕ) (c d : ℤ → Bool) (filled : ℕ) (levels : BookSide)
    → All (λ l. c l.0 ≡ d l.0) levels
    → match_from taker want c filled levels ≡ match_from taker want d filled levels
unfolding match_from
match_from-same taker want c d filled [] h = refl
match_from-same taker want c d filled ((px, lvl) ∷ rest) h =
    let f = fill_level taker px want filled lvl in
    rw (h.0, match_from-same taker want c d f.filled rest h.1) refl

match_side-same :
    (taker want : ℕ) (c d : ℤ → Bool) (levels : BookSide)
    → All (λ l. c l.0 ≡ d l.0) levels
    → match_side taker want c levels ≡ match_side taker want d levels
unfolding match_side
match_side-same taker want c d levels h = match_from-same taker want c d 0 levels h

-- The limit of a market order that has no protection.
abbrev far : Side → ℤ
far bid = max_price
far ask = min_price

far-crosses :
    (s : Side) (gs : Groups)
    → All (λ e. e.0 ≤ℤ max_price) (entries gs)
    → All (λ e. pos 0 <ℤ e.0) (entries gs)
    → All (λ l. true ≡ Sides.crosses s (far s) l.0) (book_side gs)
unfolding Sides.crosses
far-crosses s [] h p = tt
far-crosses bid ((px, cs) ∷ gs) h p = (ground (arith, h.0), far-crosses bid gs h.1 p.1)
far-crosses ask ((px, cs) ∷ gs) h p = (ground (arith, p.0), far-crosses ask gs h.1 p.1)

front-first_price : (gs : Groups) → front_price (book_side gs) ≡ first_price (entries gs)
front-first_price [] = refl
front-first_price (g ∷ gs) = refl

same_tests : (c d : ℤ → Bool) → c ≡ d → (levels : BookSide) → All (λ l. c l.0 ≡ d l.0) levels
same_tests c d e [] = tt
same_tests c d e (l ∷ levels) = (ap (λ f. f l.0) e, same_tests c d e levels)

module _ {L I A : Type 0} (parts : Parts L I A) where
  market_limit-off :
      (s : Side) (ref p : ℤ) → ltb_ℤ (pos 0) p ≡ false → market_limit parts s ref p ≡ far s
  market_limit-off bid ref p e = rw e refl
  market_limit-off ask ref p e = rw e refl

  market_limit-on :
      (s : Side) (ref p : ℤ)
      → ltb_ℤ (pos 0) p ≡ true
      → market_limit parts s ref p ≡ protected s ref p
  market_limit-on bid ref p e = rw e refl
  market_limit-on ask ref p e = rw e refl

  module _ (Shows : Side → L → Entries → Type 0) (Indexes : I → List (ℕ × Ptr) → Type 0)
      (Owns : A → List Ptr → Type 0) (ladder : LadderLaws parts Shows)
      (index : IndexLaws parts Indexes) (alloc : AllocLaws parts Owns) (s : Side) (id qty owner : ℕ)
      (own_groups opposite_groups : Groups) (b : Book L I A) (n : NaiveBook)
      (h : Represents parts Shows Indexes Owns s own_groups opposite_groups b)
      (same_own : own s n ≡ book_side own_groups)
      (same_opposite : opposite s n ≡ book_side opposite_groups) (no_stp : b.stp ≡ allow)
      (small : qty < 2 ^ 32) (real_id : 0 < id) (missing : parts.find id b.orders ≡ none)
      (same_protection : n.protection ≡ b.protection)
      (priced : All (λ e. e.0 ≤ℤ max_price) (entries opposite_groups)) where
    abbrev Same : Book L I A × ℕ → NaiveBook × ℕ → Type 0
    Same x y = Submitted parts Shows Indexes Owns s b n x y

    abbrev answer : Book L I A × MatchOutcome → Book L I A × ℕ
    answer x = (x.0, x.1.filled)

    abbrev naive_answer : SideFill → NaiveBook × ℕ
    naive_answer f = (set_opposite s f.levels f.trades n, f.filled)

    nothing : Same (b, 0) (n, 0)
    nothing =
        Submitted-unchanged parts Shows Indexes Owns ladder index alloc s id (pos 0) qty owner
          own_groups opposite_groups b n h same_own same_opposite 0

    matched :
        (lim : ℤ)
        → Same
            (answer (match parts s false id lim qty owner b))
            (naive_answer (match_side id qty (Sides.crosses s lim) (book_side opposite_groups)))
    matched lim =
        let g = match_side id qty (Sides.crosses s lim) (book_side opposite_groups) in
        let r =
          match-match_side parts Shows Indexes Owns ladder index alloc s id lim qty owner own_groups
            opposite_groups b h small in
        record {
          own_groups = own_groups;
          opposite_groups = r.0;
          new = g.trades;
          represents = r.1.0;
          own_side = own-set_opposite s g.levels g.trades n ∙ same_own;
          opposite_side = opposite-set_opposite s g.levels g.trades n ∙ sym r.1.1;
          events = r.1.4;
          trades = trades-set_opposite s g.levels g.trades n;
          result = r.1.2;
        }

    taking :
        (lim : ℤ) (c : ℤ → Bool)
        → All (λ l. c l.0 ≡ Sides.crosses s lim l.0) (book_side opposite_groups)
        → Same
            (answer (match parts s (stp_is_on b.stp) id lim qty owner b))
            (market_match id s qty c n)
    taking lim c agree =
        let filled : match_side id qty (Sides.crosses s lim) (book_side opposite_groups)
            ≡ match_side id qty c (opposite s n) =
          sym (
            ap (match_side id qty c) same_opposite
            ∙ match_side-same id qty c (Sides.crosses s lim) (book_side opposite_groups) agree) in
        subst
          (λ on. Same (answer (match parts s on id lim qty owner b)) (market_match id s qty c n))
          (sym (ap stp_is_on no_stp))
          (subst (λ f. Same (answer (match parts s false id lim qty owner b)) (naive_answer f))
            filled (matched lim))

    same_best : parts.best (opposite_ladder s b) ≡ front_price (opposite s n)
    same_best =
        ladder.best (other s) (opposite_ladder s b) (entries opposite_groups) h.opposite_shows
        ∙ sym (front-first_price opposite_groups)
        ∙ sym (ap front_price same_opposite)

    not_resting : is_resting parts id b ≡ false
    not_resting = not_resting-missing parts id b missing

    every_level : All (λ l. true ≡ Sides.crosses s (far s) l.0) (book_side opposite_groups)
    every_level =
        far-crosses s opposite_groups priced (
          ladder.positive (other s) (opposite_ladder s b) (entries opposite_groups)
            h.opposite_shows)

    -- Over any containers that keep their laws and with self-trades allowed, on a book and a
    -- reference book of the same price levels and the same protection, for any side, a quantity
    -- below 2^32 and a positive id that does not rest, where no facing price is above that of the
    -- largest 64-bit integer and, where protection is on, the limit is within 64 bits, the final
    -- engine's submit_market does what the reference engine's does: the books then stand for the
    -- same levels, they report the same trades in the same order, and they return the same
    -- quantity.
    pub submit_market-Submitted :
        (ltb_ℤ (pos 0) b.protection ≡ true
          → IsI64 (limit_price s (front_price (opposite s n)) b.protection))
        → Submitted parts Shows Indexes Owns s b n
            (submit_market parts id s qty owner b)
            (Naive.submit_market id s qty n)
    unfolding submit_market Naive.submit_market
    submit_market-Submitted _ =
        let some_id : (id == 0) ≡ false = ground arith in
        elim (Bool-cases (qty == 0)) [
          | inl none_wanted ↦ rw (some_id, none_wanted) nothing
          | inr wanted ↦ elim (Bool-cases (ltb_ℤ (pos 0) b.protection)) [
            | inr free ↦
                let naive_free = ap (ltb_ℤ (pos 0)) same_protection ∙ free in
                rw (some_id, wanted, not_resting, free, naive_free, market_limit-off)
                  (taking (far s) (λ _. true) every_level)
            | inl safe ↦
                let naive_safe = ap (ltb_ℤ (pos 0)) same_protection ∙ safe in
                elim (Bool-cases (eqb_ℤ (front_price (opposite s n)) no_price)) [
                  | inl bare ↦
                      rw (some_id, wanted, not_resting, safe, naive_safe, same_best, bare) nothing
                  | inr there ↦
                      let ref = front_price (opposite s n) in
                      rw
                        (
                          some_id, wanted, not_resting, safe, naive_safe, same_best, there,
                          market_limit-on,
                        )
                        (taking (protected s ref b.protection)
                          (Sides.crosses s (protected s ref n.protection))
                          (same_tests _ _
                            (ap (λ p. Sides.crosses s (protected s ref p)) same_protection) _))
                ]
          ]
        ]
