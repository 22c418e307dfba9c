-- ===== src/Naive/Effects.antt =====
-- What limit and market orders on engines/naive_book.hpp conserve, and the limits they keep to.
use limit_order_book.Base.{
  ℕ, ◌+◌, ◌≤◌, ◌<◌, ◌^◌, ℤ, ◌≡◌, refl, sym, subst, true, false, none, some, List, [], ◌∷◌, arith,
  ◌==◌, map, Bool-cases, inl, inr, eqb_ℤ, leb_ℤ, pos, ◌||◌, leb, ◌&&◌, ◌<ℤ◌, ◌∙◌, ltb_ℤ, IsI64,
}
use limit_order_book.Types.{Side, bid, ask, Tif, is_fok, SubmitResult, ModifyResult}
use limit_order_book.Priority.{Offer, HasQty, total, find_offer, amend_offer}
use limit_order_book.Priority.Market.{
  Market, facing, resting, set_resting, submit_at_market, market_test, revise, replace, limit_price,
}
use limit_order_book.Priority.Effects.{
  TakerEffect, LimitEffect, submit-LimitEffect, take_offers-TakerEffect, no-TakerEffect,
}
use limit_order_book.Naive.Sides.{front_price}
use limit_order_book.Naive.Sides.Matching.{queue-HasQty}
use limit_order_book.Naive.Refinement.{
  view, IsBook, FitsU64, other, opposite-IsSide, facing-view, submit_limit-submit,
}
use limit_order_book.Naive.Amendment.{submit_market-submit_at_market, modify-revise}
use limit_order_book.Naive.{NaiveBook, opposite, submit_limit, submit_market, modify}

facing-HasQty : (s : Side) (b : NaiveBook) → IsBook b → HasQty (facing s (view b))
facing-HasQty s b h = rw facing-view (queue-HasQty (other s) (opposite s b) (opposite-IsSide s b h))

-- On a well-formed book, for a quantity below 2^32 (and, for a fill-or-kill order, sides that sum
-- to less than 2^64), a limit order trades only within its limit, for what its result says, out of
-- the quantity on the facing side; only the remainder of a GTC order rests, and does so in full; an
-- accepted FOK order is filled in full; and a rejected order changes nothing.
pub submit_limit-LimitEffect :
    (id : ℕ) (s : Side) (px : ℤ) (qty : ℕ) (tif : Tif) (b : NaiveBook)
    → IsBook b
    → (is_fok tif ≡ true → FitsU64 b)
    → qty < 2 ^ 32
    → let (b', r) = submit_limit id s px qty tif b in
      LimitEffect id s px qty tif (view b) (view b') r
submit_limit-LimitEffect id s px qty tif b h f w =
    subst (λ (p : Market × SubmitResult). LimitEffect id s px qty tif (view b) p.0 p.1)
      (sym (submit_limit-submit id s px qty tif b h f w))
      (submit-LimitEffect id s px qty tif (view b) (facing-HasQty s b h))

submit_at_market-TakerEffect :
    (id : ℕ) (s : Side) (qty : ℕ) (protection : ℤ) (m : Market)
    → HasQty (facing s m)
    → let (m', filled) = submit_at_market id s qty protection m in
      TakerEffect id s (market_test s protection m) m m' filled 0
unfolding submit_at_market
submit_at_market-TakerEffect id s qty protection m h = elim (Bool-cases (qty == 0)) [
  | inl z ↦ rw z (no-TakerEffect id s _ m)
  | inr nz ↦ rw nz (take_offers-TakerEffect id s _ qty m h)
]

-- On a well-formed book, for a quantity below 2^32, and where protection is on, with a limit that
-- is within 64 bits, a market order trades for what it returns, never rests, takes that quantity
-- from the facing side, and with protection on trades no further than that many ticks past the best
-- facing price.
pub submit_market-TakerEffect :
    (id : ℕ) (s : Side) (qty : ℕ) (b : NaiveBook)
    → IsBook b
    → qty < 2 ^ 32
    → (ltb_ℤ (pos 0) b.protection ≡ true
        → IsI64 (limit_price s (front_price (opposite s b)) b.protection))
    → let (b', filled) = submit_market id s qty b in
      TakerEffect id s (market_test s b.protection (view b)) (view b) (view b') filled 0
submit_market-TakerEffect id s qty b h w fits =
    subst
      (λ (p : Market × ℕ).
        TakerEffect id s (market_test s b.protection (view b)) (view b) p.0 p.1 0)
      (sym (submit_market-submit_at_market id s qty b h w fits))
      (submit_at_market-TakerEffect id s qty b.protection (view b) (facing-HasQty s b h))

abbrev pub ids : List Offer → List ℕ
ids = map (λ o. o.id)

ids-amend_offer : (id qty : ℕ) (q : List Offer) → ids (amend_offer id qty q) ≡ ids q
unfolding amend_offer
ids-amend_offer id qty [] = refl
ids-amend_offer id qty (o ∷ q) = ground (arith, ids-amend_offer id qty q)

find_offer-id : (id : ℕ) (q : List Offer) (o : Offer) → find_offer id q ≡ some o → o.id ≡ id
unfolding find_offer
find_offer-id id [] o e = cc
find_offer-id id (x ∷ q) o e = ground (arith, find_offer-id id q o)

total-amend_offer :
    (id qty : ℕ) (q : List Offer) (o : Offer)
    → find_offer id q ≡ some o
    → total (amend_offer id qty q) + o.qty ≡ total q + qty
unfolding amend_offer find_offer total
total-amend_offer id qty [] o e = cc
total-amend_offer id qty (x ∷ q) o e = ground (arith, total-amend_offer id qty q o)

-- A smaller quantity at the same price was put in place: the answer, no trade, the same orders in
-- the same places, and the difference gone.
pub record AmendEffect (s : Side) (o : Offer) (qty : ℕ) (m m' : Market) (r : ModifyResult)
    : Type 0 where
  pub answer : r ≡ record { ok = true; filled = 0; rested = true; found = true }
  pub silent : m'.trades ≡ m.trades
  pub facing_same : facing s m' ≡ facing s m
  pub places : ids (resting s m') ≡ ids (resting s m)
  pub quantity : total (resting s m') + o.qty ≡ total (resting s m) + qty

replace-AmendEffect :
    (s : Side) (o : Offer) (qty : ℕ) (m : Market)
    → find_offer o.id (resting s m) ≡ some o
    → qty ≤ o.qty
    → let (m', r) = replace s o o.px qty m in AmendEffect s o qty m m' r
unfolding replace
replace-AmendEffect s o qty m e le =
    let in_place : (eqb_ℤ o.px o.px && leb qty o.qty) ≡ true = ground arith in
    rw in_place (amended s e)
  where
    amended :
        (s : Side)
        → find_offer o.id (resting s m) ≡ some o
        → AmendEffect s o qty m
            (set_resting s (amend_offer o.id qty (resting s m)) m)
            (record { ok = true; filled = 0; rested = true; found = true })
    amended bid e = record {
      answer = refl;
      silent = refl;
      facing_same = refl;
      places = ids-amend_offer o.id qty m.bids;
      quantity = total-amend_offer o.id qty m.bids o e;
    }
    amended ask e = record {
      answer = refl;
      silent = refl;
      facing_same = refl;
      places = ids-amend_offer o.id qty m.asks;
      quantity = total-amend_offer o.id qty m.asks o e;
    }

-- Where the market looks for an id: among the bids, then among the asks.
abbrev pub Located : Side → ℕ → Offer → Market → Type 0
Located bid id o m = find_offer id m.bids ≡ some o
Located ask id o m = (find_offer id m.bids ≡ none) × (find_offer id m.asks ≡ some o)

revise-replace :
    (s : Side) (id : ℕ) (o : Offer) (px : ℤ) (qty : ℕ) (m : Market)
    → Located s id o m
    → 0 < qty
    → pos 0 <ℤ px
    → revise id px qty m ≡ replace s o px qty m
unfolding revise
revise-replace bid id o px qty m e q p =
    let good : (qty == 0 || leb_ℤ px (pos 0)) ≡ false = ground arith in rw (e, revise, good)
revise-replace ask id o px qty m e q p =
    let good : (qty == 0 || leb_ℤ px (pos 0)) ≡ false = ground arith in rw (e.0, e.1, revise, good)

Located-find :
    (s : Side) (id : ℕ) (o : Offer) (m : Market)
    → Located s id o m
    → find_offer o.id (resting s m) ≡ some o
Located-find bid id o m e =
    subst (λ k. find_offer k m.bids ≡ some o) (sym (find_offer-id id m.bids o e)) e
Located-find ask id o m e =
    subst (λ k. find_offer k m.asks ≡ some o) (sym (find_offer-id id m.asks o e.1)) e.1

-- On a well-formed book, a modify of the first order of an id to a quantity that is positive, below
-- 2^32 and no larger than the order's, at the order's own positive price, is done in place: it is
-- acknowledged as resting, nothing trades, the facing side is untouched, every order keeps its
-- place in the queue, and the side changes by just the difference.
pub modify-AmendEffect :
    (s : Side) (id : ℕ) (o : Offer) (qty : ℕ) (b : NaiveBook)
    → IsBook b
    → Located s id o (view b)
    → pos 0 <ℤ o.px
    → 0 < qty
    → qty ≤ o.qty
    → qty < 2 ^ 32
    → let (b', r) = modify id o.px qty b in AmendEffect s o qty (view b) (view b') r
modify-AmendEffect s id o qty b h e p q le w =
    subst (λ (x : Market × ModifyResult). AmendEffect s o qty (view b) x.0 x.1)
      (sym (modify-revise id o.px qty b h w ∙ revise-replace s id o o.px qty (view b) e q p))
      (replace-AmendEffect s o qty (view b) (Located-find s id o (view b) e) le)
