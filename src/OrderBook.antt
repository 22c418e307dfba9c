-- ===== src/OrderBook.antt =====
-- include/lob/order_book.hpp, class OrderBookT: the public operations of the final engine, over the
-- matching core. Its ladder, its id map and its pool are the containers.
pub mod Cancels
pub mod Amends
pub mod Placing
pub mod Missing
pub mod Submission
pub mod FillOrKill
pub mod Limits
pub mod Markets
pub mod Audit
use limit_order_book.Base.{
  ℕ, zero, suc, ◌^◌, ℤ, pos, negsuc, add_i64, sub_i64, ltb_ℤ, leb_ℤ, eqb_ℤ, leb, Bool, true, false,
  ◌&&◌, ◌||◌, not, Option, none, some, List, [], ◌∷◌, ◌==◌, if◌then◌else◌,
}
use limit_order_book.Types.{Side, bid, ask, Tif, gtc, Stp, no_price, SubmitResult, ModifyResult}
use limit_order_book.Fifo.{Ptr, null, Level, Heap, Order}
use limit_order_book.Engine.{Parts, Book, own_ladder, opposite_ladder, stp_is_on, match}
use limit_order_book.Engine.Execution.{rejection, execute, take_out, amend}

abbrev pub max_price : ℤ
max_price = pos 9223372036854775807

abbrev pub min_price : ℤ
min_price = negsuc 9223372036854775807

-- Before any order is created, an address holds nothing that is read.
abbrev pub no_orders : Heap
no_orders p = record {
  qty = 0;
  owner = 0;
  next = null;
  id = 0;
  price = pos 0;
  prev = null;
  level = (bid, pos 0);
  side = bid;
}

-- A book over new containers.
pub make : {L I A : Type 0} → Stp → A → L → L → I → ℤ → Book L I A
make stp pool bids asks orders protection = record {
  bids = bids;
  asks = asks;
  orders = orders;
  stp = stp;
  pool = pool;
  protection = protection;
  heap = no_orders;
  events = [];
}

module _ {L I A : Type 0} (parts : Parts L I A) where
  -- `orders_.find(id) != nullptr`.
  abbrev pub is_resting : ℕ → Book L I A → Bool
  is_resting id b = elim (parts.find id b.orders) [ none ↦ false | some _ ↦ true ]

  unfoldable pub submit_limit : ℕ → Side → ℤ → ℕ → Tif → ℕ → Book L I A → Book L I A × SubmitResult
  submit_limit id s px qty tif owner b =
      if id == 0 || (qty == 0 || not (parts.in_band px b.bids))
      then (b, rejection)
      else if is_resting id b
      then (b, rejection)
      else execute parts s id px qty tif owner b

  -- The limits of a market order; `ref` is the best price that it faces.
  abbrev pub market_limit : Side → ℤ → ℤ → ℤ
  market_limit bid ref protection =
      if ltb_ℤ (pos 0) protection then add_i64 ref protection else max_price
  market_limit ask ref protection =
      if ltb_ℤ (pos 0) protection then sub_i64 ref protection else min_price

  unfoldable pub submit_market : ℕ → Side → ℕ → ℕ → Book L I A → Book L I A × ℕ
  submit_market id s qty owner b =
      let ref = parts.best (opposite_ladder s b) in
      if id == 0 || (qty == 0 || is_resting id b)
      then (b, 0)
      else if ltb_ℤ (pos 0) b.protection && eqb_ℤ ref no_price
      then (b, 0)
      else (let (b', m) =
            match parts s (stp_is_on b.stp) id (market_limit s ref b.protection) qty owner b in
          (b', m.filled))

  unfoldable pub cancel : ℕ → Book L I A → Book L I A × Bool
  cancel id b = elim (parts.find id b.orders) [
    | none ↦ (b, false)
    | some p ↦ (take_out parts id p b, true)
  ]

  -- `modify` of the order at `p`, with arguments that are not bad.
  unfoldable pub modify_found : ℕ → Ptr → ℤ → ℕ → Book L I A → Book L I A × ModifyResult
  modify_found id p new_px new_qty b =
      let o = b.heap p in
      if eqb_ℤ new_px o.price && leb new_qty o.qty
      then (amend parts p new_qty b, record { ok = true; filled = 0; rested = true; found = true })
      else (let (b', r) =
            submit_limit id o.side new_px new_qty gtc o.owner (take_out parts id p b) in
          (b', record { ok = true; filled = r.filled; rested = r.rested; found = true }))

  unfoldable pub modify : ℕ → ℤ → ℕ → Book L I A → Book L I A × ModifyResult
  modify id new_px new_qty b = elim (parts.find id b.orders) [
    | none ↦ (b, record { ok = false; filled = 0; rested = false; found = false })
    | some p ↦
        if new_qty == 0 || not (parts.in_band new_px b.bids)
        then (b, record { ok = false; filled = 0; rested = false; found = true })
        else modify_found id p new_px new_qty b
  ]

  pub best_bid : Book L I A → ℤ
  best_bid b = parts.best b.bids

  pub best_ask : Book L I A → ℤ
  best_ask b = parts.best b.asks

  unfoldable pub qty_at : Side → ℤ → Book L I A → ℕ
  qty_at s px b = if parts.in_band px b.bids then (parts.at px (own_ladder s b)).total_qty else 0

  unfoldable pub orders_at : Side → ℤ → Book L I A → ℕ
  orders_at s px b = if parts.in_band px b.bids then (parts.at px (own_ladder s b)).count else 0

  pub resting_orders : Book L I A → ℕ
  resting_orders b = parts.size b.orders

  -- The loop of `top_levels`, for `n` more levels from a price on.
  unfoldable pub levels_from : ℕ → ℤ → L → List (ℤ × ℕ)
  levels_from zero px ladder = []
  levels_from (suc n) px ladder =
      let rest = levels_from n (parts.scan_worse px ladder) ladder in
      if eqb_ℤ px no_price then [] else (px, (parts.at px ladder).total_qty) ∷ rest

  unfoldable pub top_levels : Book L I A → Side → ℕ → List (ℤ × ℕ)
  top_levels b s n = levels_from n (parts.best (own_ladder s b)) (own_ladder s b)
