-- ===== src/Naive/Refinement.antt =====
-- The public operations of engines/naive_book.hpp carry out the market of price-time priority.
use limit_order_book.Base.{
  ℕ, ◌-◌, ◌<◌, ◌^◌, ℤ, pos, ◌≡◌, refl, Bool, true, ◌&&◌, ◌||◌, List, arith, ltb, ◌==◌, Bool-cases,
  inl, inr, sub32, sub32-eq, leb_ℤ,
}
use limit_order_book.Types.{Side, bid, ask, Tif, Trade, is_gtc, is_fok}
use limit_order_book.Priority.{total, accepts}
use limit_order_book.Priority.Market.{
  Market, resting, facing, set_resting, set_facing, taken, within, take_offers, post, enter, submit,
}
use limit_order_book.Naive.Sides.{BookSide, crosses, match_side}
use limit_order_book.Naive.Sides.Queue.{queue, IsSide}
use limit_order_book.Naive.Sides.Matching.{match_side-queue}
use limit_order_book.Naive.Sides.Edits.{push_back-queue}
use limit_order_book.Naive.Sides.Lookup.{walk-total}
use limit_order_book.Naive.{
  NaiveBook, own, opposite, set_opposite, set_own, crossable_qty, rest_order, execute, submit_limit,
}

-- The book with its levels forgotten.
unfoldable pub view : NaiveBook → Market
view b = record { bids = queue b.bids; asks = queue b.asks; trades = b.trades }

abbrev pub IsBook : NaiveBook → Type 0
IsBook b = IsSide bid b.bids × IsSide ask b.asks

-- No sum over the book leaves 64 bits.
abbrev pub FitsU64 : NaiveBook → Type 0
FitsU64 b = (total (queue b.bids) < 2 ^ 64) × (total (queue b.asks) < 2 ^ 64)

abbrev pub other : Side → Side
other bid = ask
other ask = bid

pub opposite-IsSide : (s : Side) (b : NaiveBook) → IsBook b → IsSide (other s) (opposite s b)
opposite-IsSide bid b h = h.1
opposite-IsSide ask b h = h.0

pub own-IsSide : (s : Side) (b : NaiveBook) → IsBook b → IsSide s (own s b)
own-IsSide bid b h = h.0
own-IsSide ask b h = h.1

opposite-FitsU64 : (s : Side) (b : NaiveBook) → FitsU64 b → total (queue (opposite s b)) < 2 ^ 64
opposite-FitsU64 bid b h = h.1
opposite-FitsU64 ask b h = h.0

pub facing-view : (s : Side) (b : NaiveBook) → facing s (view b) ≡ queue (opposite s b)
unfolding view
facing-view bid b = refl
facing-view ask b = refl

pub crosses-accepts : (s : Side) (px : ℤ) → crosses s px ≡ accepts s px
unfolding crosses
crosses-accepts bid px = refl
crosses-accepts ask px = refl

crossable_qty-within :
    (s : Side) (px : ℤ) (b : NaiveBook)
    → IsBook b
    → FitsU64 b
    → crossable_qty s px b ≡ total (within s (accepts s px) (view b))
unfolding crossable_qty
crossable_qty-within s px b h f =
    let fits = opposite-FitsU64 s b f in
    let sum = walk-total (accepts s px) (other s) 0 _ (opposite-IsSide s b h) (omega arith) in
    rw (crosses-accepts, facing-view) (omega (arith, sum))

view-set_opposite :
    (s : Side) (levels : BookSide) (ts : List Trade) (b : NaiveBook)
    → view (set_opposite s levels ts b) ≡ set_facing s (queue levels) ts (view b)
unfolding view
view-set_opposite bid levels ts b = refl
view-set_opposite ask levels ts b = refl

pub view-set_own :
    (s : Side) (levels : BookSide) (b : NaiveBook)
    → view (set_own s levels b) ≡ set_resting s (queue levels) (view b)
unfolding view
view-set_own bid levels b = refl
view-set_own ask levels b = refl

pub resting-view : (s : Side) (b : NaiveBook) → resting s (view b) ≡ queue (own s b)
unfolding view
resting-view bid b = refl
resting-view ask b = refl

pub own-set_opposite :
    (s : Side) (levels : BookSide) (ts : List Trade) (b : NaiveBook)
    → own s (set_opposite s levels ts b) ≡ own s b
own-set_opposite bid levels ts b = refl
own-set_opposite ask levels ts b = refl

module _ (id : ℕ) (s : Side) (c : ℤ → Bool) (qty : ℕ) (b : NaiveBook) (h : IsBook b)
    (w : qty < 2 ^ 32) where
  pub match-taken : (match_side id qty c (opposite s b)).filled ≡ taken s c qty (view b)
  match-taken =
      let r = match_side-queue id qty c (other s) (opposite s b) (opposite-IsSide s b h) w in
      rw (r.2, facing-view)

  pub match-take_offers :
      let f = match_side id qty c (opposite s b) in
      view (set_opposite s f.levels f.trades b) ≡ take_offers id s c qty (view b)
  unfolding take_offers
  match-take_offers =
      let r = match_side-queue id qty c (other s) (opposite s b) (opposite-IsSide s b h) w in
      rw (view-set_opposite, r.0, r.1, facing-view)

rest_order-post :
    (id : ℕ) (s : Side) (px : ℤ) (qty : ℕ) (b : NaiveBook)
    → IsSide s (own s b)
    → view (rest_order s id px qty b) ≡ post id s px qty (view b)
unfolding rest_order post
rest_order-post id s px qty b h =
    rw (view-set_own, push_back-queue s px _ (own s b) h, resting-view)

abbrev pub abstract_result {ℓ} : {A : Type ℓ} → NaiveBook × A → Market × A
abstract_result (b, r) = (view b, r)

execute-enter :
    (id : ℕ) (s : Side) (px : ℤ) (qty : ℕ) (tif : Tif) (b : NaiveBook)
    → IsBook b
    → qty < 2 ^ 32
    → abstract_result (execute id s px qty tif b) ≡ enter id s px qty tif (view b)
unfolding execute enter
execute-enter id s px qty tif b h w =
    let c = accepts s px in
    let f = match_side id qty c (opposite s b) in
    let n = match-taken id s c qty b h w in
    let m = match-take_offers id s c qty b h w in
    let rem : sub32 qty f.filled ≡ qty - f.filled = sub32-eq qty f.filled (omega (arith, n)) w in
    let test : ltb 0 (qty - f.filled) ≡ ltb f.filled qty = ground arith in
    let p =
      rest_order-post id s px (qty - f.filled) (set_opposite s f.levels f.trades b)
        (rw own-set_opposite (own-IsSide s b h)) in
    elim (Bool-cases (ltb f.filled qty && is_gtc tif)) [
      | inl e ↦ rw (crosses-accepts, rem, test, ← n, e, p, m)
      | inr e ↦ rw (crosses-accepts, rem, test, ← n, e, m)
    ]

-- On a well-formed book, for a quantity below 2^32 and any id, side, price and time in force, the
-- reference engine's submit_limit does exactly what submission to a market of price-time priority
-- does: the same answer, the same trades in the same order, the same offers left in both queues.
-- Only for a fill-or-kill order must the quantities on each side also sum to less than 2^64.
pub submit_limit-submit :
    (id : ℕ) (s : Side) (px : ℤ) (qty : ℕ) (tif : Tif) (b : NaiveBook)
    → IsBook b
    → (is_fok tif ≡ true → FitsU64 b)
    → qty < 2 ^ 32
    → abstract_result (submit_limit id s px qty tif b) ≡ submit id s px qty tif (view b)
unfolding submit_limit submit
submit_limit-submit id s px qty tif b h f w =
    let e = execute-enter id s px qty tif b h w in
    elim (Bool-cases (qty == 0 || leb_ℤ px (pos 0))) [
      | inl bad ↦ rw bad
      | inr good ↦ elim (Bool-cases (is_fok tif)) [
        | inr other_tif ↦ rw (good, other_tif, e)
        | inl fok ↦
            let q = crossable_qty-within s px b h (f fok) in
            elim (Bool-cases (ltb (crossable_qty s px b) qty)) [
              | inl short ↦ rw (good, fok, ← q, short)
              | inr enough ↦ rw (good, fok, ← q, enough, e)
            ]
      ]
    ]
