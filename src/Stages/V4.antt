-- ===== src/Stages/V4.antt =====
-- engines/book_v4.hpp, class BookT: the matching core over a `std::map` ladder, a `std::unordered_map`
-- index and the pool. The stage has no protection, so that field of a book is not read.
pub mod Laws
use limit_order_book.Base.{
  ℕ, ℤ, pos, ltb_ℤ, leb_ℤ, eqb_ℤ, leb, Bool, true, false, ◌&&◌, ◌||◌, Option, none, some, ◌==◌,
  if◌then◌else◌, List, [],
}
use limit_order_book.Types.{Side, bid, ask, Tif, gtc, Stp, SubmitResult, ModifyResult}
use limit_order_book.Fifo.{Ptr, null}
use limit_order_book.Pool.{Pool, new}
use limit_order_book.Engine
use limit_order_book.Engine.Execution
use limit_order_book.Engine.{Parts, Book, MatchOutcome, own_ladder, stp_is_on}
use limit_order_book.Engine.Execution.{rejection, amend}
use limit_order_book.OrderBook.{max_price, min_price, no_orders}
use limit_order_book.Stages.MapLadder.{MapLadder, at, put, erase_price, begin, after}
use limit_order_book.Stages.HashIndex.{HashIndex, emplace, erase_id}
use limit_order_book.Stages.Slots.{create_at, destroy_at}

-- A map has no band, but the stage takes only positive prices; it finds its best price by itself.
unfoldable pub parts : Parts MapLadder HashIndex Pool
parts = record {
  in_band = λ px l. ltb_ℤ (pos 0) px;
  best = begin;
  at = at;
  put = put;
  on_nonempty = λ px l. l;
  on_empty = erase_price;
  scan_worse = λ px l. after px l.levels;
  find = λ k m. m.find k;
  insert = emplace;
  erase = erase_id;
  size = λ m. m.size;
  create = create_at;
  destroy = destroy_at;
}

abbrev pub BookV4 : Type 0
BookV4 = Book MapLadder HashIndex Pool

unfoldable pub make : Stp → ℕ → BookV4
make stp pool_capacity = record {
  bids = record { side = bid; levels = [] };
  asks = record { side = ask; levels = [] };
  orders = record { find = λ k. none; size = 0 };
  stp = stp;
  pool = new pool_capacity;
  protection = pos 0;
  heap = no_orders;
  events = [];
}

unfoldable pub match : Side → Bool → ℕ → ℤ → ℕ → ℕ → BookV4 → BookV4 × MatchOutcome
match s stp_on taker limit_px want owner b = Engine.match parts s stp_on taker limit_px want owner b

unfoldable pub fok_fillable : Side → Bool → ℤ → ℕ → ℕ → BookV4 → Bool
fok_fillable s stp_on px qty owner b = Execution.fok_fillable parts s stp_on px qty owner b

unfoldable pub rest : Side → ℕ → ℤ → ℕ → ℕ → BookV4 → BookV4
rest s id px qty owner b = Execution.rest parts s id px qty owner b

unfoldable pub execute : Side → ℕ → ℤ → ℕ → Tif → ℕ → BookV4 → BookV4 × SubmitResult
execute s id px qty tif owner b = Execution.execute parts s id px qty tif owner b

unfoldable pub remove_from_book : Ptr → BookV4 → BookV4
remove_from_book p b = Execution.remove_from_book parts p b

-- `orders_.erase(it); remove_from_book(o); pool_.destroy(o)`.
unfoldable pub take_out : ℕ → Ptr → BookV4 → BookV4
take_out id p b = Execution.take_out parts id p b

-- `orders_.find(id) != orders_.end()`.
abbrev pub is_resting : ℕ → BookV4 → Bool
is_resting id b = elim (b.orders.find id) [ none ↦ false | some _ ↦ true ]

unfoldable pub submit_limit : ℕ → Side → ℤ → ℕ → Tif → ℕ → BookV4 → BookV4 × SubmitResult
submit_limit id s px qty tif owner b =
    if qty == 0 || leb_ℤ px (pos 0)
    then (b, rejection)
    else if is_resting id b
    then (b, rejection)
    else execute s id px qty tif owner b

abbrev pub market_limit : Side → ℤ
market_limit bid = max_price
market_limit ask = min_price

unfoldable pub submit_market : ℕ → Side → ℕ → ℕ → BookV4 → BookV4 × ℕ
submit_market id s qty owner b =
    if qty == 0 || is_resting id b
    then (b, 0)
    else (let (b', m) = match s (stp_is_on b.stp) id (market_limit s) qty owner b in (b', m.filled))

unfoldable pub cancel : ℕ → BookV4 → BookV4 × Bool
cancel id b = elim (b.orders.find id) [ none ↦ (b, false) | some p ↦ (take_out id p b, true) ]

-- `modify` of the order at `p`, with arguments that are not bad.
unfoldable pub modify_found : ℕ → Ptr → ℤ → ℕ → BookV4 → BookV4 × ModifyResult
modify_found id p new_px new_qty b =
    let o = b.heap p in
    if eqb_ℤ new_px o.price && leb new_qty o.qty
    then (amend parts p new_qty b, record { ok = true; filled = 0; rested = true; found = true })
    else (let (b', r) = submit_limit id o.side new_px new_qty gtc o.owner (take_out id p b) in
        (b', record { ok = true; filled = r.filled; rested = r.rested; found = true }))

unfoldable pub modify : ℕ → ℤ → ℕ → BookV4 → BookV4 × ModifyResult
modify id new_px new_qty b = elim (b.orders.find id) [
  | none ↦ (b, record { ok = false; filled = 0; rested = false; found = false })
  | some p ↦
      if new_qty == 0 || leb_ℤ new_px (pos 0)
      then (b, record { ok = false; filled = 0; rested = false; found = true })
      else modify_found id p new_px new_qty b
]

pub best_bid : BookV4 → ℤ
best_bid b = begin b.bids

pub best_ask : BookV4 → ℤ
best_ask b = begin b.asks

pub qty_at : Side → ℤ → BookV4 → ℕ
qty_at s px b = (at px (own_ladder s b)).total_qty

pub resting_orders : BookV4 → ℕ
resting_orders b = b.orders.size
