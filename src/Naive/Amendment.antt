-- ===== src/Naive/Amendment.antt =====
-- Market orders, cancel and modify of engines/naive_book.hpp carry out those of the market.
use mathlib.Core.Option
use limit_order_book.Base.{
  ℕ, ◌<◌, ◌^◌, ℤ, pos, ◌≡◌, refl, ap, sym, Bool, true, false, ◌&&◌, ◌||◌, Option, none, some, [],
  ◌∷◌, append-nil, arith, leb, ◌==◌, if◌then◌else◌, Bool-cases, Option-cases, inl, inr, leb_ℤ, ◌+ℤ◌,
  ◌-ℤ◌, IsI64, signed64-word64, ltb_ℤ, eqb_ℤ,
}
use limit_order_book.Types.{Side, bid, ask, gtc, ModifyResult, no_price}
use limit_order_book.Priority.{total, reach, beyond, accepts, remain, fills, find_offer}
use limit_order_book.Priority.Market.{
  Market, resting, facing, set_resting, take_offers, taken, submit_at_market, limit_price, withdraw,
  replace, revise, removed, best_price,
}
use limit_order_book.Naive.Sides.{BookSide, RestingOrder, front_price, find, erased}
use limit_order_book.Naive.Sides.Queue.{queue, at_price, IsSide}
use limit_order_book.Naive.Sides.Edits.{offer}
use limit_order_book.Naive.Sides.Lookup.{erase_from-queue, find-queue, find-id, amend-queue}
use limit_order_book.Naive.Sides.Shape.{erased-IsSide}
use limit_order_book.Naive.Refinement.{
  view, IsBook, other, opposite-IsSide, facing-view, resting-view, crosses-accepts, match-taken,
  match-take_offers, view-set_own, own-IsSide, abstract_result, submit_limit-submit,
}
use limit_order_book.Naive.{
  NaiveBook, own, opposite, set_own, market_match, protected, bad_amend, submit_market, cancel,
  modify, modify_found,
}

front_price-best_price :
    (s : Side) (levels : BookSide)
    → IsSide s levels
    → front_price levels ≡ best_price (queue levels)
unfolding queue at_price
front_price-best_price s [] h = refl
front_price-best_price s ((px, []) ∷ rest) h = absurd (omega arith)
front_price-best_price s ((px, o ∷ lvl) ∷ rest) h = refl

-- Only an empty side has no best price.
no_price-empty :
    (s : Side) (levels : BookSide)
    → IsSide s levels
    → eqb_ℤ (front_price levels) no_price ≡ true
    → queue levels ≡ []
unfolding queue
no_price-empty s [] h e = refl
no_price-empty s ((px, lvl) ∷ rest) h e = absurd (ground arith)

-- A market order with nothing to meet takes nothing.
take_none :
    (id : ℕ) (s : Side) (c : ℤ → Bool) (qty : ℕ) (m : Market)
    → facing s m ≡ []
    → ◌≡◌ {A = Market × ℕ} (take_offers id s c qty m, taken s c qty m) (m, 0)
unfolding take_offers reach beyond remain fills total
take_none id bid c qty m e = ground (arith, append-nil m.trades)
take_none id ask c qty m e = ground (arith, append-nil m.trades)

protected-limit_price :
    (s : Side) (ref p : ℤ) → IsI64 (limit_price s ref p) → protected s ref p ≡ limit_price s ref p
protected-limit_price bid ref p h = signed64-word64 (ref +ℤ p) h
protected-limit_price ask ref p h = signed64-word64 (ref -ℤ p) h

market_match-take_offers :
    (id : ℕ) (s : Side) (qty : ℕ) (c : ℤ → Bool) (b : NaiveBook)
    → IsBook b
    → qty < 2 ^ 32
    → abstract_result (market_match id s qty c b)
      ≡ (take_offers id s c qty (view b), taken s c qty (view b))
market_match-take_offers id s qty c b h w =
    rw (match-take_offers id s c qty b h w, match-taken id s c qty b h w)

-- On a well-formed book, for a quantity below 2^32, and where protection is on, with a limit that
-- is within 64 bits, submit_market carries out the market order of the price-time market: it takes
-- whatever faces it, or with protection on what lies within that many ticks of the best facing
-- price, and returns the quantity taken.
pub submit_market-submit_at_market :
    (id : ℕ) (s : Side) (qty : ℕ) (b : NaiveBook)
    → IsBook b
    → qty < 2 ^ 32
    → (ltb_ℤ (pos 0) b.protection ≡ true
        → IsI64 (limit_price s (front_price (opposite s b)) b.protection))
    → abstract_result (submit_market id s qty b) ≡ submit_at_market id s qty b.protection (view b)
unfolding submit_market submit_at_market
submit_market-submit_at_market id s qty b h w fits =
    let ref = front_price-best_price (other s) (opposite s b) (opposite-IsSide s b h) in
    let taking = λ (c : ℤ → Bool). market_match-take_offers id s qty c b h w in
    elim (Bool-cases (qty == 0)) [
      | inl z ↦ rw z
      | inr nz ↦ elim (Bool-cases (ltb_ℤ (pos 0) b.protection)) [
        | inr free ↦ rw (nz, free, taking)
        | inl safe ↦ elim (Bool-cases (eqb_ℤ (front_price (opposite s b)) no_price)) [
          | inr priced ↦
              let limit =
                protected-limit_price s (front_price (opposite s b)) b.protection (fits safe) in
              rw (nz, safe, priced, limit, crosses-accepts, taking, facing-view, ← ref)
          | inl bare ↦
              rw (nz, safe, bare)
                (sym (
                  take_none id s (accepts s _) qty (view b) (
                    rw facing-view
                      (no_price-empty (other s) (opposite s b) (opposite-IsSide s b h) bare))))
        ]
      ]
    ]

erased-removed : (id : ℕ) (levels : BookSide) → queue (erased id levels) ≡ removed id (queue levels)
unfolding erased removed
erased-removed id levels = ground (arith, erase_from-queue id levels)

-- On any book, cancel withdraws the first order of that id, bids first, leaves every other order
-- and the trades as they were, and says whether there was one.
pub cancel-withdraw :
    (id : ℕ) (b : NaiveBook)
    → abstract_result (cancel id b)
      ≡ elim (withdraw id (view b)) [ some m ↦ (m, true) | none ↦ (view b, false) ]
unfolding cancel withdraw view
cancel-withdraw id b = ground (arith, erase_from-queue id b.bids, erase_from-queue id b.asks)

set_own-IsBook :
    (s : Side) (levels : BookSide) (b : NaiveBook)
    → IsBook b
    → IsSide s levels
    → IsBook (set_own s levels b)
set_own-IsBook bid levels b h l = (l, h.1)
set_own-IsBook ask levels b h l = (h.0, l)

modify_found-replace :
    (s : Side) (o : RestingOrder) (px : ℤ) (id : ℕ) (new_px : ℤ) (new_qty : ℕ) (b : NaiveBook)
    → o.id ≡ id
    → IsBook b
    → new_qty < 2 ^ 32
    → abstract_result (modify_found s o px id new_px new_qty b)
      ≡ replace s (offer px o) new_px new_qty (view b)
unfolding modify_found replace
modify_found-replace s o px id new_px new_qty b same h w =
    let b' = set_own s (erased id (own s b)) b in
    let h' = set_own-IsBook s _ b h (erased-IsSide s id (own s b) (own-IsSide s b h)) in
    let without : view b' ≡ set_resting s (removed id (resting s (view b))) (view b) =
      rw (view-set_own, erased-removed, resting-view) in
    let again = submit_limit-submit id s new_px new_qty gtc b' h' (λ e. cc) w in
    elim (Bool-cases (eqb_ℤ new_px px && leb new_qty o.qty)) [
      | inl e ↦ rw (e, view-set_own, amend-queue, resting-view, same)
      | inr e ↦
          rw (e, same)
            (ap {B = Market × ModifyResult}
              (λ r.
                (r.0, record { ok = true; filled = r.1.filled; rested = r.1.rested; found = true }))
              (rw without at again))
    ]

-- On a well-formed book, for a new quantity below 2^32, modify revises the first order of that id,
-- bids first: in place where the quantity does not grow at its price, by a withdrawal and a new
-- submission otherwise, and not at all on bad arguments or an unknown id.
pub modify-revise :
    (id : ℕ) (px : ℤ) (qty : ℕ) (b : NaiveBook)
    → IsBook b
    → qty < 2 ^ 32
    → abstract_result (modify id px qty b) ≡ revise id px qty (view b)
unfolding modify revise
modify-revise id px qty b h w =
    let seen = λ (r : Option (RestingOrder × ℤ)). Option.map (λ f. offer f.1 f.0) r in
    let fb : seen (find id b.bids) ≡ find_offer id (view b).bids =
      unfold view in find-queue id b.bids in
    let fa : seen (find id b.asks) ≡ find_offer id (view b).asks =
      unfold view in find-queue id b.asks in
    elim (Option-cases (find id b.bids)) [
      | inr ((o, p), e) ↦
          let at_bids : find_offer id (view b).bids ≡ some (offer p o) = sym (rw e at fb) in
          rw (e, at_bids, modify, revise) (refusal bid o p (find-id id b.bids (o, p) e))
      | inl e ↦
          let no_bid : find_offer id (view b).bids ≡ none = sym (rw e at fb) in
          elim (Option-cases (find id b.asks)) [
            | inr ((o, p), k) ↦
                let at_asks : find_offer id (view b).asks ≡ some (offer p o) = sym (rw k at fa) in
                rw (e, k, no_bid, at_asks, modify, revise)
                  (refusal ask o p (find-id id b.asks (o, p) k))
            | inl k ↦
                let no_ask : find_offer id (view b).asks ≡ none = sym (rw k at fa) in
                rw (e, k, no_bid, no_ask, modify, revise)
          ]
    ]
  where
    refusal :
        (s : Side) (o : RestingOrder) (p : ℤ)
        → o.id ≡ id
        → let bad = qty == 0 || leb_ℤ px (pos 0) in
          abstract_result (if bad then (b, bad_amend) else modify_found s o p id px qty b)
          ≡ (if bad then (view b, bad_amend) else replace s (offer p o) px qty (view b))
    refusal s o p same = elim (Bool-cases (qty == 0 || leb_ℤ px (pos 0))) [
      | inl bad ↦ rw bad
      | inr good ↦ rw good (modify_found-replace s o p id px qty b same h w)
    ]
