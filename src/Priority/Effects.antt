-- ===== src/Priority/Effects.antt =====
-- What the market of price-time priority conserves: quantities, and the limits of the takers.
use limit_order_book.Base.{
  ℕ, ◌+◌, ◌-◌, ◌≤◌, ◌<◌, ℤ, pos, ◌≡◌, refl, ap, sym, ◌∙◌, Bool, true, false, ◌&&◌, ◌||◌, List, [],
  ◌∷◌, ◌++◌, arith, ltb, ◌==◌, leb_ℤ, if◌then◌else◌, min, All, Bool-cases, inl, inr, append-nil,
  ◌⊎◌,
}
use limit_order_book.Types.{Side, bid, ask, Tif, gtc, fok, Trade, is_gtc, is_fok, SubmitResult}
use limit_order_book.Priority.{Offer, accepts, total, reach, beyond, fills, remain, join, HasQty}
use limit_order_book.Priority.Laws.{total-append, reach-append-beyond}
use limit_order_book.Priority.Market.{
  Market, rejected, resting, facing, set_facing, within, take_offers, taken, post, enter, submit,
}

unfoldable pub traded : List Trade → ℕ
traded [] = 0
traded (t ∷ ts) = t.qty + traded ts

total-remain : (n : ℕ) (q : List Offer) → total (remain n q) + min n (total q) ≡ total q
unfolding total remain
total-remain n [] = omega arith
total-remain n (o ∷ q) = ground (arith, total-remain (n - o.qty) q)

traded-fills : (id n : ℕ) (q : List Offer) → traded (fills id n q) ≡ min n (total q)
unfolding traded fills total
traded-fills id n [] = omega arith
traded-fills id n (o ∷ q) = ground (arith, traded-fills id (n - o.qty) q)

-- A trade of the taker `id`, at a price that passes its test, for some quantity.
abbrev pub IsTradeOf : ℕ → (ℤ → Bool) → Trade → Type 0
IsTradeOf id c t = (t.taker ≡ id) × (c t.px ≡ true) × (0 < t.qty)

fills-IsTradeOf :
    (id n : ℕ) (c : ℤ → Bool) (q : List Offer)
    → HasQty q
    → All (IsTradeOf id c) (fills id n (reach c q))
unfolding fills reach
fills-IsTradeOf id n c [] h = tt
fills-IsTradeOf id n c (o ∷ q) h = elim (Bool-cases (c o.px)) [
  | inr e ↦ rw e tt
  | inl e ↦ elim (Bool-cases (n == 0)) [
    | inl z ↦ rw (e, z) tt
    | inr nz ↦ rw (e, nz) ((refl, e, ground arith), fills-IsTradeOf id (n - o.qty) c q h.1)
  ]
]

total-join : (s : Side) (o : Offer) (q : List Offer) → total (join s o q) ≡ total q + o.qty
unfolding total join
total-join s o [] = omega arith
total-join s o (x ∷ q) = ground (arith, total-join s o q)

-- What a taker did to the market: its trades at the end of the tape, the quantity that they sum
-- up to, and the same quantity gone from the facing side.
pub record TakerEffect (id : ℕ) (s : Side) (c : ℤ → Bool) (m m' : Market) (filled rests : ℕ)
    : Type 0 where
  pub told : List Trade
  pub tape : m'.trades ≡ m.trades ++ told
  pub sum : traded told ≡ filled
  pub each : All (IsTradeOf id c) told
  pub facing_total : total (facing s m') + filled ≡ total (facing s m)
  pub resting_total : total (resting s m') ≡ total (resting s m) + rests

module _ (s : Side) (q : List Offer) (ts : List Trade) (m : Market) where
  set_facing-trades : (set_facing s q ts m).trades ≡ m.trades ++ ts
  set_facing-trades = ground arith

  facing-set_facing : facing s (set_facing s q ts m) ≡ q
  facing-set_facing = ground arith

  resting-set_facing : resting s (set_facing s q ts m) ≡ resting s m
  resting-set_facing = ground arith

pub take_offers-TakerEffect :
    (id : ℕ) (s : Side) (c : ℤ → Bool) (qty : ℕ) (m : Market)
    → HasQty (facing s m)
    → TakerEffect id s c m (take_offers id s c qty m) (taken s c qty m) 0
unfolding take_offers
take_offers-TakerEffect id s c qty m h =
    let q = within s c m in
    let rest = beyond c (facing s m) in
    let whole : total q + total rest ≡ total (facing s m) =
      sym (total-append q rest) ∙ ap total (reach-append-beyond c (facing s m)) in
    record {
      told = fills id qty q;
      tape = rw set_facing-trades;
      sum = traded-fills id qty q;
      each = fills-IsTradeOf id qty c (facing s m) h;
      facing_total = rw (facing-set_facing, total-append) (omega (arith, total-remain qty q));
      resting_total = rw resting-set_facing (omega arith);
    }

post-TakerEffect :
    (id : ℕ) (s : Side) (c : ℤ → Bool) (px : ℤ) (qty filled : ℕ) (m m' : Market)
    → TakerEffect id s c m m' filled 0
    → TakerEffect id s c m (post id s px qty m') filled qty
unfolding post
post-TakerEffect id bid c px qty filled m m' e = record {
  told = e.told;
  tape = e.tape;
  sum = e.sum;
  each = e.each;
  facing_total = e.facing_total;
  resting_total = rw total-join (omega (arith, e.resting_total));
}
post-TakerEffect id ask c px qty filled m m' e = record {
  told = e.told;
  tape = e.tape;
  sum = e.sum;
  each = e.each;
  facing_total = e.facing_total;
  resting_total = rw total-join (omega (arith, e.resting_total));
}

pub no-TakerEffect : (id : ℕ) (s : Side) (c : ℤ → Bool) (m : Market) → TakerEffect id s c m m 0 0
unfolding traded
no-TakerEffect id s c m = record {
  told = [];
  tape = sym (append-nil m.trades);
  sum = refl;
  each = tt;
  facing_total = omega arith;
  resting_total = omega arith;
}

-- What a limit order did, by its result.
pub record LimitEffect (id : ℕ) (s : Side) (px : ℤ) (qty : ℕ) (tif : Tif) (m m' : Market)
    (r : SubmitResult) : Type 0 where
  pub taker : TakerEffect id s (accepts s px) m m' r.filled (if r.rested then qty - r.filled else 0)
  pub within_qty : r.filled ≤ qty
  pub only_gtc_rests : r.rested ≡ true → (tif ≡ gtc) × (r.filled < qty)
  pub gtc_finishes : tif ≡ gtc → r.rejected ≡ false → (r.filled ≡ qty) ⊎ (r.rested ≡ true)
  pub fok_all : tif ≡ fok → r.rejected ≡ false → r.filled ≡ qty
  pub rejected_unchanged : r.rejected ≡ true → (m' ≡ m) × (r.filled ≡ 0) × (r.rested ≡ false)

rejected-LimitEffect :
    (id : ℕ) (s : Side) (px : ℤ) (qty : ℕ) (tif : Tif) (m : Market)
    → LimitEffect id s px qty tif m m rejected
rejected-LimitEffect id s px qty tif m = record {
  taker = no-TakerEffect id s (accepts s px) m;
  within_qty = omega arith;
  only_gtc_rests = λ e. cc;
  gtc_finishes = λ e k. cc;
  fok_all = λ e k. cc;
  rejected_unchanged = λ e. (refl, refl, refl);
}

pub submit-LimitEffect :
    (id : ℕ) (s : Side) (px : ℤ) (qty : ℕ) (tif : Tif) (m : Market)
    → HasQty (facing s m)
    → let (m', r) = submit id s px qty tif m in LimitEffect id s px qty tif m m' r
unfolding submit enter
submit-LimitEffect id s px qty tif m h =
    let take = take_offers-TakerEffect id s (accepts s px) qty m h in
    let rest =
      post-TakerEffect id s (accepts s px) px (qty - taken s (accepts s px) qty m) _ m _ take in
    elim (Bool-cases (qty == 0 || leb_ℤ px (pos 0))) [
      | inl bad ↦ rw bad (rejected-LimitEffect id s px qty tif m)
      | inr good ↦ elim (Bool-cases (is_fok tif && ltb (total (within s (accepts s px) m)) qty)) [
        | inl short ↦ rw (good, short) (rejected-LimitEffect id s px qty tif m)
        | inr enough ↦ elim (Bool-cases (ltb (taken s (accepts s px) qty m) qty && is_gtc tif)) [
          | inl k ↦
              rw (good, enough, k)
                (record {
                  taker = rest;
                  within_qty = omega arith;
                  only_gtc_rests = ground arith;
                  gtc_finishes = ground arith;
                  fok_all = ground arith;
                  rejected_unchanged = ground arith;
                })
          | inr k ↦
              rw (good, enough, k)
                (record {
                  taker = take;
                  within_qty = omega arith;
                  only_gtc_rests = ground arith;
                  gtc_finishes = ground arith;
                  fok_all = ground arith;
                  rejected_unchanged = ground arith;
                })
        ]
      ]
    ]
