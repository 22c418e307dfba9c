-- ===== src/Engine.antt =====
-- What the engines share: the matching core of include/lob/order_book.hpp, which
-- engines/book_v4.hpp and engines/book_v5.hpp have over other containers. The containers are an
-- interface; a ladder knows its side.
pub mod Execution
pub mod Laws
pub mod Entries
pub mod Queues
pub mod Walking
pub mod Filling
pub mod Groups
pub mod Edits
pub mod Matching
pub mod Sweeping
pub mod Books
pub mod Places
pub mod Resting
pub mod Levels
pub mod Reference
pub mod Agreement
use limit_order_book.Base.{
  ℕ, zero, suc, ◌+◌, ◌-◌, ◌^◌, ℤ, pos, negsuc, leb_ℤ, eqb_ℤ, Bool, true, false, not, ◌&&◌, ◌||◌,
  Option, none, some, List, [], ◌∷◌, ◌++◌, ltb, leb, ◌==◌, if◌then◌else◌, sub32, add64,
}
use limit_order_book.Types.{
  Side, bid, ask, Tif, gtc, Stp, allow, cancel_resting, reject_incoming, no_price, SubmitResult,
  ModifyResult, Event, on_trade, on_cancel, is_gtc, is_fok,
}
use limit_order_book.Fifo.{Ptr, null, Order, Level, Heap, unlink, link, set_qty, sub64}

-- The containers: the ladder of a side, the index from ids to orders, and the allocator.
pub record Parts (L I A : Type 0) : Type 0 where
  pub in_band : ℤ → L → Bool
  pub best : L → ℤ
  pub at : ℤ → L → Level
  -- What is written through the reference that `at` gives.
  pub put : ℤ → Level → L → L
  pub on_nonempty : ℤ → L → L
  pub on_empty : ℤ → L → L
  pub scan_worse : ℤ → L → ℤ
  pub find : ℕ → I → Option Ptr
  pub insert : ℕ → Ptr → I → I
  pub erase : ℕ → I → I
  pub size : I → ℕ
  pub create : A → A × Ptr
  pub destroy : Ptr → A → A

pub record Book (L I A : Type 0) : Type 0 where
  pub bids : L
  pub asks : L
  pub orders : I
  pub stp : Stp
  pub pool : A
  pub protection : ℤ
  pub heap : Heap
  pub events : List Event

module _ {L I A : Type 0} where
  abbrev pub own_ladder : Side → Book L I A → L
  own_ladder bid b = b.bids
  own_ladder ask b = b.asks

  abbrev pub opposite_ladder : Side → Book L I A → L
  opposite_ladder bid b = b.asks
  opposite_ladder ask b = b.bids

  abbrev pub set_own_ladder : Side → L → Book L I A → Book L I A
  set_own_ladder bid l b = record b { bids = l }
  set_own_ladder ask l b = record b { asks = l }

  abbrev pub set_opposite_ladder : Side → L → Book L I A → Book L I A
  set_opposite_ladder bid l b = record b { asks = l }
  set_opposite_ladder ask l b = record b { bids = l }

abbrev pub crosses : Side → ℤ → ℤ → Bool
crosses bid book_px limit_px = leb_ℤ book_px limit_px
crosses ask book_px limit_px = leb_ℤ limit_px book_px

abbrev pub stp_is_on : Stp → Bool
stp_is_on allow = false
stp_is_on _ = true

abbrev pub rejects_incoming : Stp → Bool
rejects_incoming reject_incoming = true
rejects_incoming _ = false

pub record MatchOutcome : Type 0 where
  pub filled : ℕ
  pub stp_stopped : Bool

-- The state of `match`: the opposite ladder, the level that is walked, and what the loops change.
pub record Run (L I A : Type 0) : Type 0 where
  pub ladder : L
  pub lvl : Level
  pub heap : Heap
  pub orders : I
  pub pool : A
  pub remaining : ℕ
  pub stopped : Bool
  pub events : List Event

-- Before the first level.
abbrev pub no_level : Level
no_level = record { head = null; tail = null; total_qty = 0; count = 0; price = no_price }

-- An order of the owner of the incoming one. Owner 0 is exempt.
abbrev pub is_own : Bool → ℕ → Order → Bool
is_own stp_on owner o = stp_on && (not (owner == 0) && o.owner == owner)

module _ {L I A : Type 0} (parts : Parts L I A) where
  -- `orders_.erase(o->id); unlink(lvl, o); pool_.destroy(o)`.
  unfoldable pub drop_order : Ptr → Run L I A → Run L I A
  drop_order p r =
      let (lvl, heap) = unlink r.lvl p r.heap in
      record r {
        lvl = lvl;
        heap = heap;
        orders = parts.erase (r.heap p).id r.orders;
        pool = parts.destroy p r.pool;
      }

  -- CancelResting: the resting order leaves unfilled.
  unfoldable pub kill_order : Ptr → Run L I A → Run L I A
  kill_order p r =
      let o = r.heap p in
      drop_order p (record r { events = r.events ++ on_cancel o.id o.owner ∷ [] })

  -- The maker is fully filled.
  unfoldable pub take_all : ℕ → Ptr → Run L I A → Run L I A
  take_all taker p r =
      let o = r.heap p in
      drop_order p (record r {
        remaining = sub32 r.remaining o.qty;
        events = r.events ++ on_trade taker o.id r.lvl.price o.qty ∷ [];
      })

  -- The maker keeps a part.
  unfoldable pub take_part : ℕ → Ptr → Run L I A → Run L I A
  take_part taker p r =
      let o = r.heap p in
      record r {
        heap = set_qty p (sub32 o.qty r.remaining) r.heap;
        lvl = record r.lvl { total_qty = sub64 r.lvl.total_qty r.remaining };
        remaining = 0;
        events = r.events ++ on_trade taker o.id r.lvl.price r.remaining ∷ [];
      }

  -- The loop over a level, from the order at `p`.
  unfoldable pub walk : ℕ → ℕ → ℕ → Stp → Bool → Ptr → Run L I A → Run L I A
  walk zero taker owner stp stp_on p r = r
  walk (suc fuel) taker owner stp stp_on p r =
      let o = r.heap p in
      let own = is_own stp_on owner o in
      let r' = if own then kill_order p r else take_all taker p r in
      let rest = walk fuel taker owner stp stp_on o.next r' in
      if p == null
      then r
      else if own && rejects_incoming stp
      then record r { stopped = true }
      else if own
      then rest
      else if ltb r.remaining o.qty
      then take_part taker p r
      else if r'.remaining == 0
      then r'
      else rest

  -- A round of the loop over the levels, at the best price.
  unfoldable pub take_level : ℕ → ℕ → Stp → Bool → Run L I A → Run L I A
  take_level taker owner stp stp_on r =
      let best = parts.best r.ladder in
      let lvl = parts.at best r.ladder in
      let fuel = suc (parts.size r.orders) in
      let r' = walk fuel taker owner stp stp_on lvl.head (record r { lvl = lvl }) in
      let ladder = parts.put best r'.lvl r'.ladder in
      record r' {
        ladder = if r'.lvl.head == null then parts.on_empty r'.lvl.price ladder else ladder;
      }

  unfoldable pub match_levels : ℕ → Side → ℕ → ℤ → ℕ → Stp → Bool → Run L I A → Run L I A
  match_levels zero s taker limit_px owner stp stp_on r = r
  match_levels (suc fuel) s taker limit_px owner stp stp_on r =
      let best = parts.best r.ladder in
      let r' = take_level taker owner stp stp_on r in
      let rest = match_levels fuel s taker limit_px owner stp stp_on r' in
      if r.remaining == 0
      then r
      else if eqb_ℤ best no_price || not (crosses s best limit_px)
      then r
      else if r'.stopped
      then r'
      else rest

  abbrev pub start_run : Side → ℕ → Book L I A → Run L I A
  start_run s want b = record {
    ladder = opposite_ladder s b;
    lvl = no_level;
    heap = b.heap;
    orders = b.orders;
    pool = b.pool;
    remaining = want;
    stopped = false;
    events = b.events;
  }

  abbrev pub finish_run : Side → Run L I A → Book L I A → Book L I A
  finish_run s r b =
      set_opposite_ladder s r.ladder
        (record b { orders = r.orders; pool = r.pool; heap = r.heap; events = r.events })

  -- Each round takes an order from the book or ends the loop, so this fuel is enough.
  unfoldable pub match : Side → Bool → ℕ → ℤ → ℕ → ℕ → Book L I A → Book L I A × MatchOutcome
  match s stp_on taker limit_px want owner b =
      let fuel = suc (parts.size b.orders) in
      let r = match_levels fuel s taker limit_px owner b.stp stp_on (start_run s want b) in
      (finish_run s r b, record { filled = sub32 want r.remaining; stp_stopped = r.stopped })
