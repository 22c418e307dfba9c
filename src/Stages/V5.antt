-- ===== src/Stages/V5.antt =====
-- engines/book_v5.hpp, class BookT: the matching core over the flat ladder, a `std::unordered_map`
-- index and the pool. Its class Ladder has the text of include/lob/order_book.hpp's. The stage has no
-- protection, so that field of a book is not read.
pub mod Laws
use limit_order_book.Base.{
  ℕ, suc, ℤ, pos, leb, eqb_ℤ, Bool, true, false, not, ◌&&◌, ◌||◌, Option, none, some, ◌==◌,
  if◌then◌else◌, List, [],
}
use limit_order_book.Types.{Side, bid, ask, Tif, gtc, Stp, SubmitResult, ModifyResult}
use limit_order_book.Fifo.{Ptr, null, Level}
use limit_order_book.Pool.{Pool, new}
use limit_order_book.Engine
use limit_order_book.Engine.Execution
use limit_order_book.Engine.{Parts, Book, MatchOutcome, own_ladder, stp_is_on}
use limit_order_book.Engine.Execution.{rejection, amend}
use limit_order_book.OrderBook.{max_price, min_price, no_orders}
use limit_order_book.FlatLadder
use limit_order_book.OrderBook.Audit
use limit_order_book.OrderBook.Audit.{Audit, Fault}
use limit_order_book.FlatLadder.{FlatLadder, put}
use limit_order_book.Stages.HashIndex.{HashIndex, emplace, erase_id}
use limit_order_book.Stages.Slots.{create_at, destroy_at}

abbrev pub make_ladder : Side → ℤ → ℤ → FlatLadder
make_ladder s lo hi = FlatLadder.make_ladder s lo hi

abbrev pub in_band : ℤ → FlatLadder → Bool
in_band px l = FlatLadder.in_band px l

abbrev pub at : ℤ → FlatLadder → Level
at px l = FlatLadder.at px l

abbrev pub on_nonempty : ℤ → FlatLadder → FlatLadder
on_nonempty px l = FlatLadder.on_nonempty px l

abbrev pub on_empty : ℤ → FlatLadder → FlatLadder
on_empty px l = FlatLadder.on_empty px l

abbrev pub scan_worse : ℤ → FlatLadder → ℤ
scan_worse px l = FlatLadder.scan_worse px l

abbrev pub bit_set : ℤ → FlatLadder → Bool
bit_set px l = FlatLadder.bit_set px l

unfoldable pub parts : Parts FlatLadder HashIndex Pool
parts = record {
  in_band = in_band;
  best = λ l. l.best;
  at = at;
  put = put;
  on_nonempty = on_nonempty;
  on_empty = on_empty;
  scan_worse = scan_worse;
  find = λ k m. m.find k;
  insert = emplace;
  erase = erase_id;
  size = λ m. m.size;
  create = create_at;
  destroy = destroy_at;
}

abbrev pub BookV5 : Type 0
BookV5 = Book FlatLadder HashIndex Pool

unfoldable pub make : Stp → ℕ → ℤ → ℤ → BookV5
make stp pool_capacity band_lo band_hi = record {
  bids = make_ladder bid band_lo band_hi;
  asks = make_ladder ask band_lo band_hi;
  orders = record { find = λ k. none; size = 0 };
  stp = stp;
  pool = new pool_capacity;
  protection = pos 0;
  heap = no_orders;
  events = [];
}

unfoldable pub match : Side → Bool → ℕ → ℤ → ℕ → ℕ → BookV5 → BookV5 × MatchOutcome
match s stp_on taker limit_px want owner b = Engine.match parts s stp_on taker limit_px want owner b

unfoldable pub fok_fillable : Side → Bool → ℤ → ℕ → ℕ → BookV5 → Bool
fok_fillable s stp_on px qty owner b = Execution.fok_fillable parts s stp_on px qty owner b

unfoldable pub rest : Side → ℕ → ℤ → ℕ → ℕ → BookV5 → BookV5
rest s id px qty owner b = Execution.rest parts s id px qty owner b

unfoldable pub execute : Side → ℕ → ℤ → ℕ → Tif → ℕ → BookV5 → BookV5 × SubmitResult
execute s id px qty tif owner b = Execution.execute parts s id px qty tif owner b

unfoldable pub remove_from_book : Ptr → BookV5 → BookV5
remove_from_book p b = Execution.remove_from_book parts p b

-- `orders_.erase(it); remove_from_book(o); pool_.destroy(o)`.
unfoldable pub take_out : ℕ → Ptr → BookV5 → BookV5
take_out id p b = Execution.take_out parts id p b

-- `orders_.find(id) != orders_.end()`.
abbrev pub is_resting : ℕ → BookV5 → Bool
is_resting id b = elim (b.orders.find id) [ none ↦ false | some _ ↦ true ]

unfoldable pub submit_limit : ℕ → Side → ℤ → ℕ → Tif → ℕ → BookV5 → BookV5 × SubmitResult
submit_limit id s px qty tif owner b =
    if qty == 0 || not (in_band px b.bids)
    then (b, rejection)
    else if is_resting id b
    then (b, rejection)
    else execute s id px qty tif owner b

abbrev pub market_limit : Side → ℤ
market_limit bid = max_price
market_limit ask = min_price

unfoldable pub submit_market : ℕ → Side → ℕ → ℕ → BookV5 → BookV5 × ℕ
submit_market id s qty owner b =
    if qty == 0 || is_resting id b
    then (b, 0)
    else (let (b', m) = match s (stp_is_on b.stp) id (market_limit s) qty owner b in (b', m.filled))

unfoldable pub cancel : ℕ → BookV5 → BookV5 × Bool
cancel id b = elim (b.orders.find id) [ none ↦ (b, false) | some p ↦ (take_out id p b, true) ]

-- `modify` of the order at `p`, with arguments that are not bad.
unfoldable pub modify_found : ℕ → Ptr → ℤ → ℕ → BookV5 → BookV5 × ModifyResult
modify_found id p new_px new_qty b =
    let o = b.heap p in
    if eqb_ℤ new_px o.price && leb new_qty o.qty
    then (amend parts p new_qty b, record { ok = true; filled = 0; rested = true; found = true })
    else (let (b', r) = submit_limit id o.side new_px new_qty gtc o.owner (take_out id p b) in
        (b', record { ok = true; filled = r.filled; rested = r.rested; found = true }))

unfoldable pub modify : ℕ → ℤ → ℕ → BookV5 → BookV5 × ModifyResult
modify id new_px new_qty b = elim (b.orders.find id) [
  | none ↦ (b, record { ok = false; filled = 0; rested = false; found = false })
  | some p ↦
      if new_qty == 0 || not (in_band new_px b.bids)
      then (b, record { ok = false; filled = 0; rested = false; found = true })
      else modify_found id p new_px new_qty b
]

pub best_bid : BookV5 → ℤ
best_bid b = b.bids.best

pub best_ask : BookV5 → ℤ
best_ask b = b.asks.best

unfoldable pub qty_at : Side → ℤ → BookV5 → ℕ
qty_at s px b = if in_band px b.bids then (at px (own_ladder s b)).total_qty else 0

pub resting_orders : BookV5 → ℕ
resting_orders b = b.orders.size

-- The stage's audit of a ladder, with the index that it looks orders up in.
abbrev pub check_side : BookV5 → FlatLadder → Side → ℕ → Audit ℕ
check_side b l s seen = Audit.check_side (suc b.orders.size) b.heap (λ k. b.orders.find k) l s seen

unfoldable pub check_invariants : BookV5 → Option Fault
check_invariants b = Audit.check_invariants parts b
