-- ===== src/Naive.antt =====
-- engines/naive_book.hpp: the reference engine's state and its public operations. The listener is
-- the list of the trades that it was told of.
pub mod Sides
pub mod Refinement
pub mod Updates
pub mod Invariant
pub mod Session
pub mod Effects
pub mod Amendment
use limit_order_book.Base.{
  ℕ, ℤ, pos, add_i64, sub_i64, leb_ℤ, ltb_ℤ, eqb_ℤ, sub32, Bool, true, false, not, ◌&&◌, ◌||◌,
  Option, none, some, List, [], ◌++◌, ltb, leb, ◌==◌, if◌then◌else◌,
}
use limit_order_book.Types.{
  Side, bid, ask, Tif, gtc, no_price, SubmitResult, ModifyResult, Trade, is_gtc, is_fok,
}
use Sides.{
  BookSide, RestingOrder, crosses, is_empty, walk, match_side, push_back, front_price, erase_from,
  find, amend, erased, sum_at, count_orders, any_empty,
}

pub record NaiveBook : Type 0 where
  pub bids : BookSide
  pub asks : BookSide
  pub protection : ℤ
  pub trades : List Trade

pub new : ℤ → NaiveBook
new protection = record { bids = []; asks = []; protection = protection; trades = [] }

abbrev pub own : Side → NaiveBook → BookSide
own bid b = b.bids
own ask b = b.asks

abbrev pub opposite : Side → NaiveBook → BookSide
opposite bid b = b.asks
opposite ask b = b.bids

-- What `match` changes: the opposite side, and the trades told to the listener.
abbrev pub set_opposite : Side → BookSide → List Trade → NaiveBook → NaiveBook
set_opposite bid levels ts b = record b { asks = levels; trades = b.trades ++ ts }
set_opposite ask levels ts b = record b { bids = levels; trades = b.trades ++ ts }

abbrev pub set_own : Side → BookSide → NaiveBook → NaiveBook
set_own bid levels b = record b { bids = levels }
set_own ask levels b = record b { asks = levels }

unfoldable pub crossable_qty : Side → ℤ → NaiveBook → ℕ
crossable_qty s px b = walk (crosses s px) 0 (opposite s b)

unfoldable pub rest_order : Side → ℕ → ℤ → ℕ → NaiveBook → NaiveBook
rest_order s id px qty b = set_own s (push_back s px (record { id = id; qty = qty }) (own s b)) b

abbrev pub rejection : SubmitResult
rejection = record { filled = 0; rested = false; rejected = true }

-- `submit_limit` behind its two guards.
unfoldable pub execute : ℕ → Side → ℤ → ℕ → Tif → NaiveBook → NaiveBook × SubmitResult
execute id s px qty tif b =
    let f = match_side id qty (crosses s px) (opposite s b) in
    let b' = set_opposite s f.levels f.trades b in
    let rem = sub32 qty f.filled in
    if ltb 0 rem && is_gtc tif
    then (rest_order s id px rem b', record { filled = f.filled; rested = true; rejected = false })
    else (b', record { filled = f.filled; rested = false; rejected = false })

unfoldable pub submit_limit : ℕ → Side → ℤ → ℕ → Tif → NaiveBook → NaiveBook × SubmitResult
submit_limit id s px qty tif b =
    if qty == 0 || leb_ℤ px (pos 0)
    then (b, rejection)
    else if is_fok tif && ltb (crossable_qty s px b) qty
    then (b, rejection)
    else execute id s px qty tif b

pub best_bid : NaiveBook → ℤ
best_bid b = front_price b.bids

pub best_ask : NaiveBook → ℤ
best_ask b = front_price b.asks

-- The limit that protection gives a market order: `ref + protection_` or `ref - protection_`.
abbrev pub protected : Side → ℤ → ℤ → ℤ
protected bid ref p = add_i64 ref p
protected ask ref p = sub_i64 ref p

abbrev pub market_match : ℕ → Side → ℕ → (ℤ → Bool) → NaiveBook → NaiveBook × ℕ
market_match id s qty c b =
    let f = match_side id qty c (opposite s b) in (set_opposite s f.levels f.trades b, f.filled)

unfoldable pub submit_market : ℕ → Side → ℕ → NaiveBook → NaiveBook × ℕ
submit_market id s qty b =
    let ref = front_price (opposite s b) in
    if qty == 0
    then (b, 0)
    else if ltb_ℤ (pos 0) b.protection
    then (if eqb_ℤ ref no_price
        then (b, 0)
        else market_match id s qty (crosses s (protected s ref b.protection)) b)
    else market_match id s qty (λ _. true) b

unfoldable pub cancel : ℕ → NaiveBook → NaiveBook × Bool
cancel id b = elim (erase_from id b.bids) [
  | some bids ↦ (record b { bids = bids }, true)
  | none ↦ elim (erase_from id b.asks) [
    | some asks ↦ (record b { asks = asks }, true)
    | none ↦ (b, false)
  ]
]

unfoldable pub modify_found :
    Side → RestingOrder → ℤ → ℕ → ℤ → ℕ → NaiveBook → NaiveBook × ModifyResult
modify_found s o px id new_px new_qty b =
    if eqb_ℤ new_px px && leb new_qty o.qty
    then (
      set_own s (amend id new_qty (own s b)) b,
      record { ok = true; filled = 0; rested = true; found = true },
    )
    else (let (b', r) = submit_limit id s new_px new_qty gtc (set_own s (erased id (own s b)) b) in
        (b', record { ok = true; filled = r.filled; rested = r.rested; found = true }))

abbrev pub bad_amend : ModifyResult
bad_amend = record { ok = false; filled = 0; rested = false; found = true }

abbrev pub not_found : ModifyResult
not_found = record { ok = false; filled = 0; rested = false; found = false }

unfoldable pub modify : ℕ → ℤ → ℕ → NaiveBook → NaiveBook × ModifyResult
modify id new_px new_qty b =
    let bad_args = new_qty == 0 || leb_ℤ new_px (pos 0) in
    elim (find id b.bids) [
      | some (o, px) ↦
          if bad_args then (b, bad_amend) else modify_found bid o px id new_px new_qty b
      | none ↦ elim (find id b.asks) [
        | some (o, px) ↦
            if bad_args then (b, bad_amend) else modify_found ask o px id new_px new_qty b
        | none ↦ (b, not_found)
      ]
    ]

pub qty_at : Side → ℤ → NaiveBook → ℕ
qty_at s px b = sum_at px (own s b)

pub resting_orders : NaiveBook → ℕ
resting_orders b = count_orders (count_orders 0 b.bids) b.asks

pub data Violation : Type 0 where
  crossed empty_level : Violation

unfoldable pub check_invariants : NaiveBook → Option Violation
check_invariants b =
    if not (is_empty b.bids)
      && not (is_empty b.asks)
      && leb_ℤ (front_price b.asks) (front_price b.bids)
    then some crossed
    else if any_empty b.bids
    then some empty_level
    else if any_empty b.asks
    then some empty_level
    else none
