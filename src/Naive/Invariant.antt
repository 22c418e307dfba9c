-- ===== src/Naive/Invariant.antt =====
-- The invariant of engines/naive_book.hpp, well-formed sides that do not cross, through limit and
-- market orders.
use limit_order_book.Base.{
  ℕ, ◌-◌, ◌<◌, ◌^◌, ℤ, pos, ◌<ℤ◌, ◌≡◌, refl, Bool, true, false, ◌&&◌, ◌||◌, List, arith, ltb, ◌==◌,
  All-map, All-zip, Bool-cases, inl, inr, leb_ℤ, ltb_ℤ, eqb_ℤ, sub32, sub32-eq,
}
use limit_order_book.Types.{Side, bid, ask, Tif, is_gtc, is_fok, no_price, Trade}
use limit_order_book.Naive.Sides.{BookSide, before, crosses, match_side, front_price}
use limit_order_book.Naive.Sides.Queue.{IsSide, IsQty}
use limit_order_book.Naive.Sides.Matching.{match_side-queue}
use limit_order_book.Naive.Sides.Prices.{Prices, match_from-Prices, push_back-Prices}
use limit_order_book.Naive.Sides.Shape.{
  push_back-IsSide, match_from-IsSide, match_from-exhausts, IsLimit,
}
use limit_order_book.Naive.Refinement.{IsBook, other, opposite-IsSide}
use limit_order_book.Naive.{
  NaiveBook, new, own, opposite, set_own, set_opposite, rest_order, execute, submit_limit,
  submit_market, market_match, crossable_qty,
}

-- Every bid is below every ask.
abbrev pub Apart : BookSide → BookSide → Type 0
Apart bids asks = Prices (λ p. Prices (λ q. p <ℤ q) asks) bids

pub record IsValid (b : NaiveBook) : Type 0 where
  pub bids : IsSide bid b.bids
  pub asks : IsSide ask b.asks
  pub apart : Apart b.bids b.asks

pub new-IsValid : (p : ℤ) → IsValid (new p)
unfolding new
new-IsValid p = record { bids = tt; asks = tt; apart = tt }

pub IsValid-IsBook : (b : NaiveBook) → IsValid b → IsBook b
IsValid-IsBook b v = (v.bids, v.asks)

-- A change of one side that brings in no price.
pub record Shrinks (s : Side) (levels levels' : BookSide) : Type 1 where
  pub shape : IsSide s levels'
  pub prices : (P : ℤ → Type 0) → Prices P levels → Prices P levels'

pub set_own-IsValid :
    (s : Side) (b : NaiveBook) (levels : BookSide)
    → IsValid b
    → Shrinks s (own s b) levels
    → IsValid (set_own s levels b)
set_own-IsValid bid b levels v r = record {
  bids = r.shape;
  asks = v.asks;
  apart = r.prices _ v.apart;
}
set_own-IsValid ask b levels v r = record {
  bids = v.bids;
  asks = r.shape;
  apart = All-map _ _ (λ e. r.prices _) b.bids v.apart;
}

crosses-IsLimit : (s : Side) (px : ℤ) → IsLimit (other s) (crosses s px)
unfolding crosses before
crosses-IsLimit bid px a b h e = ground arith
crosses-IsLimit ask px a b h e = ground arith

match_side-Shrinks :
    (t want : ℕ) (c : ℤ → Bool) (s : Side) (levels : BookSide)
    → IsSide s levels
    → want < 2 ^ 32
    → Shrinks s levels (match_side t want c levels).levels
unfolding match_side
match_side-Shrinks t want c s levels h w = record {
  shape = match_from-IsSide t want c s 0 levels h (omega arith) w;
  prices = λ P. match_from-Prices P t want c 0 levels;
}

set_opposite-IsValid :
    (s : Side) (b : NaiveBook) (levels : BookSide) (ts : List Trade)
    → IsValid b
    → Shrinks (other s) (opposite s b) levels
    → IsValid (set_opposite s levels ts b)
set_opposite-IsValid bid b levels ts v r = record {
  bids = v.bids;
  asks = r.shape;
  apart = All-map _ _ (λ e. r.prices _) b.bids v.apart;
}
set_opposite-IsValid ask b levels ts v r = record {
  bids = r.shape;
  asks = v.asks;
  apart = r.prices _ v.apart;
}

rest_order-IsValid :
    (id : ℕ) (s : Side) (px : ℤ) (qty : ℕ) (b : NaiveBook)
    → IsValid b
    → pos 0 <ℤ px
    → IsQty qty
    → Prices (λ x. crosses s px x ≡ false) (opposite s b)
    → IsValid (rest_order s id px qty b)
unfolding rest_order crosses
rest_order-IsValid id bid px qty b v p q clear = record {
  bids = push_back-IsSide bid px _ b.bids p q v.bids;
  asks = v.asks;
  apart =
      push_back-Prices _ bid px _ b.bids
        (All-map (λ e. leb_ℤ e.0 px ≡ false) (λ e. px <ℤ e.0) (λ e h. ground arith) b.asks clear)
        v.apart;
}
rest_order-IsValid id ask px qty b v p q clear = record {
  bids = v.bids;
  asks = push_back-IsSide ask px _ b.asks p q v.asks;
  apart =
      All-map (λ e. (leb_ℤ px e.0 ≡ false) × Prices (λ x. e.0 <ℤ x) b.asks) _
        (λ e h. push_back-Prices (λ x. e.0 <ℤ x) ask px _ b.asks (below e.0 h.0) h.1) b.bids
        (All-zip _ _ b.bids clear v.apart);
}
  where
    below : (x : ℤ) → leb_ℤ px x ≡ false → x <ℤ px
    below x h = ground arith

market_match-IsValid :
    (id : ℕ) (s : Side) (qty : ℕ) (c : ℤ → Bool) (b : NaiveBook)
    → IsValid b
    → qty < 2 ^ 32
    → IsValid (market_match id s qty c b).0
market_match-IsValid id s qty c b v w = set_opposite-IsValid s b _ _ v (
    match_side-Shrinks id qty c (other s) (opposite s b) (opposite-IsSide s b (IsValid-IsBook b v))
      w)

opposite-set_opposite :
    (s : Side) (levels : BookSide) (ts : List Trade) (b : NaiveBook)
    → opposite s (set_opposite s levels ts b) ≡ levels
opposite-set_opposite bid levels ts b = refl
opposite-set_opposite ask levels ts b = refl

execute-IsValid :
    (id : ℕ) (s : Side) (px : ℤ) (qty : ℕ) (tif : Tif) (b : NaiveBook)
    → IsValid b
    → pos 0 <ℤ px
    → qty < 2 ^ 32
    → IsValid (execute id s px qty tif b).0
unfolding execute
execute-IsValid id s px qty tif b v p w =
    let c = crosses s px in
    let f = match_side id qty c (opposite s b) in
    let side = opposite-IsSide s b (IsValid-IsBook b v) in
    let filled = (match_side-queue id qty c (other s) (opposite s b) side w).2 in
    let rem : sub32 qty f.filled ≡ qty - f.filled = sub32-eq qty f.filled (omega arith) w in
    let matched = market_match-IsValid id s qty c b v w in
    elim (Bool-cases (ltb 0 (qty - f.filled) && is_gtc tif)) [
      | inr e ↦ rw (rem, e) matched
      | inl e ↦
          let short : f.filled < qty = ground arith in
          let clear : Prices (λ x. c x ≡ false) f.levels =
            unfold match_side in
            match_from-exhausts id qty c (other s) 0 (opposite s b) (crosses-IsLimit s px) side
              (omega arith) w short in
          rw (rem, e)
            (rest_order-IsValid id s px (qty - f.filled) _ matched p (omega arith)
              (rw opposite-set_opposite clear))
    ]

pub submit_limit-IsValid :
    (id : ℕ) (s : Side) (px : ℤ) (qty : ℕ) (tif : Tif) (b : NaiveBook)
    → IsValid b
    → qty < 2 ^ 32
    → IsValid (submit_limit id s px qty tif b).0
unfolding submit_limit
submit_limit-IsValid id s px qty tif b v w = elim (Bool-cases (qty == 0 || leb_ℤ px (pos 0))) [
  | inl bad ↦ rw bad v
  | inr good ↦ elim (Bool-cases (is_fok tif && ltb (crossable_qty s px b) qty)) [
    | inl short ↦ rw (good, short) v
    | inr enough ↦ rw (good, enough) (execute-IsValid id s px qty tif b v (ground arith) w)
  ]
]

pub submit_market-IsValid :
    (id : ℕ) (s : Side) (qty : ℕ) (b : NaiveBook)
    → IsValid b
    → qty < 2 ^ 32
    → IsValid (submit_market id s qty b).0
unfolding submit_market
submit_market-IsValid id s qty b v w =
    let m = λ (c : ℤ → Bool). market_match-IsValid id s qty c b v w in
    elim (Bool-cases (qty == 0)) [
      | inl z ↦ rw z v
      | inr nz ↦ elim (Bool-cases (ltb_ℤ (pos 0) b.protection)) [
        | inr free ↦ rw (nz, free) (m (λ _. true))
        | inl safe ↦ elim (Bool-cases (eqb_ℤ (front_price (opposite s b)) no_price)) [
          | inl bare ↦ rw (nz, safe, bare) v
          | inr priced ↦ rw (nz, safe, priced) (m _)
        ]
      ]
    ]
