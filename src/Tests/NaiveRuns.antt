-- ===== src/Tests/NaiveRuns.antt =====
-- The reference engine on a small book.
use limit_order_book.Base.{
  ◌≡◌, refl, pos, ◌+ℤ◌, ◌-ℤ◌, IsI64, add32, sub32, add64, true, false, none, some, List, [], ◌∷◌,
  arith,
}
use limit_order_book.Types.{Side, bid, ask, gtc, fok}
use limit_order_book.Priority.Market.{
  submit, submit_at_market, revise, withdraw, market_test, limit_price,
}
use limit_order_book.Priority.Effects.{TakerEffect, LimitEffect}
use limit_order_book.Naive.Sides.{
  fill_level, match_from, match_side, walk, add_level, crosses, before, erase_from, erase_level,
  front_price,
}
use limit_order_book.Priority.{Offer, total, find_offer}
use limit_order_book.Naive.Sides.Queue.{queue, at_price}
use limit_order_book.Naive.Refinement.{view, IsBook, FitsU64, abstract_result, submit_limit-submit}
use limit_order_book.Naive.Amendment.{
  submit_market-submit_at_market, cancel-withdraw, modify-revise,
}
use limit_order_book.Naive.Effects.{
  submit_limit-LimitEffect, submit_market-TakerEffect, modify-AmendEffect, AmendEffect,
}
use limit_order_book.Naive.Session.{
  Call, limit, market, cancels, modifies, run, run-check_invariants,
}
use limit_order_book.Naive.Invariant.{IsValid}
use limit_order_book.Naive.{
  NaiveBook, new, opposite, submit_limit, execute, crossable_qty, submit_market, cancel, modify,
  check_invariants,
}

-- Two bids at 99, one at 98; asks at 101 and 103; market orders go one tick past the best.
abbrev book : NaiveBook
book = record {
  bids =
      (pos 99, record { id = 1; qty = 10 } ∷ record { id = 2; qty = 5 } ∷ [])
      ∷ (pos 98, record { id = 3; qty = 7 } ∷ [])
      ∷ [];
  asks =
      (pos 101, record { id = 4; qty = 6 } ∷ []) ∷ (pos 103, record { id = 5; qty = 9 } ∷ []) ∷ [];
  protection = pos 1;
  trades = [];
}

book-FitsU64 : FitsU64 book
unfolding total queue at_price
book-FitsU64 = omega arith

book-IsBook : IsBook book
unfolding before
book-IsBook = ground arith

-- A bid for 8 at 101 takes the 6 on offer there and rests the other 2.
limit_run :
    (submit_limit 6 bid (pos 101) 8 gtc book).1
    ≡ record { filled = 6; rested = true; rejected = false }
unfolding submit_limit execute match_side match_from fill_level crosses sub32 add32
limit_run = refl

fok_run :
    (submit_limit 6 bid (pos 101) 8 fok book).1
    ≡ record { filled = 0; rested = false; rejected = true }
unfolding submit_limit crossable_qty walk add_level crosses add64
fok_run = refl

-- Protection stops a market order for 20 after the 6 at 101.
market_run : (submit_market 6 bid 20 book).1 ≡ 6
unfolding submit_market match_side match_from fill_level crosses sub32 add32 ◌+ℤ◌
market_run = refl

cancel_run : (cancel 2 book).1 ≡ true
unfolding cancel erase_from erase_level
cancel_run = refl

submit_limit-submit_example :
    abstract_result (submit_limit 6 bid (pos 101) 8 gtc book)
    ≡ submit 6 bid (pos 101) 8 gtc (view book)
submit_limit-submit_example =
    submit_limit-submit 6 bid (pos 101) 8 gtc book book-IsBook (λ e. cc) (omega arith)

limits_fit : (s : Side) → IsI64 (limit_price s (front_price (opposite s book)) (pos 1))
unfolding ◌+ℤ◌ ◌-ℤ◌
limits_fit bid = omega arith
limits_fit ask = omega arith

submit_market-submit_at_market_example :
    abstract_result (submit_market 6 bid 20 book) ≡ submit_at_market 6 bid 20 (pos 1) (view book)
submit_market-submit_at_market_example =
    submit_market-submit_at_market 6 bid 20 book book-IsBook (omega arith) (λ on. limits_fit bid)

cancel-withdraw_example :
    abstract_result (cancel 2 book)
    ≡ elim (withdraw 2 (view book)) [ some m ↦ (m, true) | none ↦ (view book, false) ]
cancel-withdraw_example = cancel-withdraw 2 book

modify-revise_example :
    abstract_result (modify 1 (pos 101) 8 book) ≡ revise 1 (pos 101) 8 (view book)
modify-revise_example = modify-revise 1 (pos 101) 8 book book-IsBook (omega arith)

abbrev session : List Call
session =
    limit 1 bid (pos 99) 10 gtc
    ∷ limit 2 ask (pos 98) 4 fok
    ∷ market 3 ask 2
    ∷ modifies 1 (pos 97) 3
    ∷ cancels 1
    ∷ []

run-check_invariants_example :
    let b = run (new (pos 0)) session in IsValid b × (check_invariants b ≡ none)
run-check_invariants_example = run-check_invariants (pos 0) session (omega arith)

submit_limit-LimitEffect_example :
    let (b', r) = submit_limit 6 bid (pos 101) 6 fok book in
    LimitEffect 6 bid (pos 101) 6 fok (view book) (view b') r
submit_limit-LimitEffect_example =
    submit_limit-LimitEffect 6 bid (pos 101) 6 fok book book-IsBook (λ e. book-FitsU64)
      (omega arith)

submit_market-TakerEffect_example :
    let (b', filled) = submit_market 6 ask 12 book in
    TakerEffect 6 ask (market_test ask (pos 1) (view book)) (view book) (view b') filled 0
submit_market-TakerEffect_example =
    submit_market-TakerEffect 6 ask 12 book book-IsBook (omega arith) (λ on. limits_fit ask)

abbrev older : Offer
older = record { px = pos 99; id = 1; qty = 10 }

modify-AmendEffect_example :
    let (b', r) = modify 1 (pos 99) 4 book in AmendEffect bid older 4 (view book) (view b') r
unfolding view find_offer queue at_price
modify-AmendEffect_example =
    modify-AmendEffect bid 1 older 4 book book-IsBook refl (omega arith) (omega arith) (omega arith)
      (omega arith)
