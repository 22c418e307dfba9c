-- ===== src/OrderBook/Audit.antt =====
-- include/lob/order_book.hpp, check_invariants: the structural audit of a book over the flat ladder.
-- engines/book_v5.hpp has the same one.
pub mod Orders
pub mod Levels
pub mod Rounds
pub mod Band
pub mod Books
use limit_order_book.Base.{
  ℕ, zero, suc, ℤ, pos, ◌+ℤ◌, ◌-ℤ◌, eqb_ℤ, leb_ℤ, Bool, true, false, not, ◌&&◌, ◌||◌, Option, none,
  some, ◌==◌, if◌then◌else◌, add64,
}
use limit_order_book.Types.{Side, bid, ask, no_price}
use limit_order_book.Fifo.{Ptr, null, Order, Level, Heap, up32}
use limit_order_book.Engine.{Parts, Book}
use limit_order_book.FlatLadder.{FlatLadder, at, bit_set, to_size}

-- The descriptions of a violation.
pub data Fault : Type 0 where
  bitmap_out_of_sync nonzero_totals wrong_slot_price broken_prev wrong_level wrong_side : Fault
  wrong_price zero_qty missing_order wrong_tail wrong_total wrong_count stale_best : Fault
  wrong_size crossed_book : Fault

pub data Audit (A : Type 0) : Type 0 where
  passed : A → Audit A
  failed : Fault → Audit A

-- The locals of the loop over the orders of a level, and the count of all orders.
pub record Tally : Type 0 where
  pub prev : Ptr
  pub sum : ℕ
  pub cnt : ℕ
  pub seen : ℕ

abbrev pub same_side : Side → Side → Bool
same_side bid bid = true
same_side ask ask = true
same_side _ _ = false

abbrev pub same_bit : Bool → Bool → Bool
same_bit true b = b
same_bit false b = not b

abbrev pub finds : Option Ptr → Ptr → Bool
finds none p = false
finds (some q) p = q == p

unfoldable pub order_fault : Side → ℤ → Ptr → Option Ptr → Ptr → Order → Option Fault
order_fault s px prev found p o =
    if not (o.prev == prev)
    then some broken_prev
    else if not (same_side o.level.0 s && eqb_ℤ o.level.1 px)
    then some wrong_level
    else if not (same_side o.side s)
    then some wrong_side
    else if not (eqb_ℤ o.price px)
    then some wrong_price
    else if o.qty == 0
    then some zero_qty
    else if not (finds found p)
    then some missing_order
    else none

abbrev pub unless : {A : Type 0} → Option Fault → Audit A → Audit A
unless none r = r
unless (some e) r = failed e

-- The loop over the orders of a level, from the one at `p`.
unfoldable pub audit_orders : ℕ → Heap → (ℕ → Option Ptr) → Side → ℤ → Ptr → Tally → Audit Tally
audit_orders zero h find s px p t = passed t
audit_orders (suc fuel) h find s px p t =
    let o = h p in
    let t' : Tally = record {
      prev = p;
      sum = add64 t.sum o.qty;
      cnt = up32 t.cnt;
      seen = suc t.seen;
    } in
    let rest = audit_orders fuel h find s px o.next t' in
    if p == null then passed t else unless (order_fault s px t.prev (find o.id) p o) rest

-- What is compared when the loop over a level has ended.
unfoldable pub close_level : Level → ℤ → Audit Tally → Audit (ℤ × ℕ)
close_level lvl best (failed e) = failed e
close_level lvl best (passed t) =
    if not (lvl.tail == t.prev)
    then failed wrong_tail
    else if not (t.sum == lvl.total_qty)
    then failed wrong_total
    else if not (t.cnt == lvl.count)
    then failed wrong_count
    else passed (best, t.seen)

abbrev pub next_best : Side → ℤ → ℤ → ℤ
next_best bid px best = px
next_best ask px best = if eqb_ℤ best no_price then px else best

-- A round of the loop over the band, with the best price and the number of orders so far.
unfoldable pub audit_level :
    ℕ → Heap → (ℕ → Option Ptr) → Side → ℤ → Level → Bool → ℤ → ℕ → Audit (ℤ × ℕ)
audit_level fuel h find s px lvl bit best seen =
    let orders =
      audit_orders fuel h find s px lvl.head
        (record { prev = null; sum = 0; cnt = 0; seen = seen }) in
    if not (same_bit bit (not (lvl.head == null)))
    then failed bitmap_out_of_sync
    else if lvl.head == null
    then (if not (lvl.total_qty == 0) || not (lvl.count == 0)
        then failed nonzero_totals
        else passed (best, seen))
    else if not (eqb_ℤ lvl.price px)
    then failed wrong_slot_price
    else close_level lvl (next_best s px best) orders

-- The loop over the prices of the band.
unfoldable pub audit_band :
    ℕ → ℕ → Heap → (ℕ → Option Ptr) → Side → FlatLadder → ℤ → ℤ → ℕ → Audit (ℤ × ℕ)
audit_band zero fuel h find s l px best seen = passed (best, seen)
audit_band (suc n) fuel h find s l px best seen =
    elim (audit_level fuel h find s px (at px l) (bit_set px l) best seen) [
      | failed e ↦ failed e
      | passed r ↦ audit_band n fuel h find s l (px +ℤ pos 1) r.0 r.1
    ]

abbrev pub close_side : FlatLadder → Audit (ℤ × ℕ) → Audit ℕ
close_side l (failed e) = failed e
close_side l (passed r) = if not (eqb_ℤ l.best r.0) then failed stale_best else passed r.1

unfoldable pub check_side : ℕ → Heap → (ℕ → Option Ptr) → FlatLadder → Side → ℕ → Audit ℕ
check_side fuel h find l s seen =
    close_side l (audit_band (to_size (l.hi -ℤ l.lo)) fuel h find s l l.lo no_price seen)

module _ {I A : Type 0} (parts : Parts FlatLadder I A) where
  abbrev pub audit_book : Book FlatLadder I A → ℕ → Option Fault
  audit_book b seen =
      if not (seen == parts.size b.orders)
      then some wrong_size
      else if not (eqb_ℤ b.bids.best no_price)
          && (not (eqb_ℤ b.asks.best no_price) && leb_ℤ b.asks.best b.bids.best)
      then some crossed_book
      else none

  abbrev pub audit_asks : Book FlatLadder I A → Audit ℕ → Option Fault
  audit_asks b (failed e) = some e
  audit_asks b (passed seen) = audit_book b seen

  abbrev pub audit_bids : Book FlatLadder I A → Audit ℕ → Option Fault
  audit_bids b (failed e) = some e
  audit_bids b (passed seen) =
      audit_asks b
        (check_side (suc (parts.size b.orders)) b.heap (λ k. parts.find k b.orders) b.asks ask seen)

  -- `none` where the code returns nullptr.
  unfoldable pub check_invariants : Book FlatLadder I A → Option Fault
  check_invariants b =
      audit_bids b
        (check_side (suc (parts.size b.orders)) b.heap (λ k. parts.find k b.orders) b.bids bid 0)
