-- ===== src/Engine/Execution.antt =====
-- The engines of include/lob/order_book.hpp, engines/book_v4.hpp and engines/book_v5.hpp around
-- their matching loop: the fill-or-kill test, resting an order, and taking one off the book.
use limit_order_book.Base.{
  ℕ, zero, suc, ℤ, eqb_ℤ, leb, ltb, Bool, true, false, not, ◌&&◌, ◌||◌, if◌then◌else◌, sub32, add64,
  ◌==◌,
}
use limit_order_book.Types.{Side, Tif, Stp, no_price, SubmitResult, is_gtc, is_fok}
use limit_order_book.Fifo.{Ptr, null, Order, Level, Heap, unlink, link, set_qty, sub64}
use limit_order_book.Engine.{
  Parts, Book, own_ladder, opposite_ladder, set_own_ladder, crosses, stp_is_on, rejects_incoming,
  is_own, match,
}

-- How the walk over a level for a fill-or-kill order ends: at an order of the same owner, with
-- enough, or at the end of the level.
pub data Scan : Type 0 where
  blocked reached : Scan
  counted : ℕ → Scan

-- The loop over the orders of a level, with self-trade prevention on.
unfoldable pub scan_orders : ℕ → Heap → ℕ → Stp → ℕ → Ptr → ℕ → Scan
scan_orders zero h owner stp qty p avail = counted avail
scan_orders (suc fuel) h owner stp qty p avail =
    let o = h p in
    let own = is_own true owner o in
    let avail' = if own then avail else add64 avail o.qty in
    let rest = scan_orders fuel h owner stp qty o.next avail' in
    if p == null
    then counted avail
    else if own && rejects_incoming stp
    then blocked
    else if not own && leb qty avail'
    then reached
    else rest

abbrev pub rejection : SubmitResult
rejection = record { filled = 0; rested = false; rejected = true }

module _ {L I A : Type 0} (parts : Parts L I A) where
  -- What a level adds.
  abbrev pub scan_level : ℕ → Heap → Bool → ℕ → Stp → ℕ → Level → ℕ → Scan
  scan_level fuel h stp_on owner stp qty lvl avail =
      if stp_on
      then scan_orders fuel h owner stp qty lvl.head avail
      else counted (add64 avail lvl.total_qty)

  unfoldable pub scan_levels : ℕ → Side → Bool → ℤ → ℕ → ℕ → Book L I A → ℤ → ℕ → Bool
  scan_levels zero s stp_on px qty owner b lvl_px avail = leb qty avail
  scan_levels (suc fuel) s stp_on px qty owner b lvl_px avail =
      let ladder = opposite_ladder s b in
      let lvl = parts.at lvl_px ladder in
      let next = parts.scan_worse lvl_px ladder in
      if eqb_ℤ lvl_px no_price || not (crosses s lvl_px px)
      then leb qty avail
      else elim (scan_level (suc (parts.size b.orders)) b.heap stp_on owner b.stp qty lvl avail) [
        | blocked ↦ false
        | reached ↦ true
        | counted n ↦ if leb qty n then true else scan_levels fuel s stp_on px qty owner b next n
      ]

  unfoldable pub fok_fillable : Side → Bool → ℤ → ℕ → ℕ → Book L I A → Bool
  fok_fillable s stp_on px qty owner b =
      scan_levels (suc (parts.size b.orders)) s stp_on px qty owner b
        (parts.best (opposite_ladder s b)) 0

  unfoldable pub rest : Side → ℕ → ℤ → ℕ → ℕ → Book L I A → Book L I A
  rest s id px qty owner b =
      let lvl = parts.at px (own_ladder s b) in
      let (pool, p) = parts.create b.pool in
      let o : Order = record {
        qty = qty;
        owner = owner;
        next = null;
        id = id;
        price = px;
        prev = lvl.tail;
        level = (s, px);
        side = s;
      } in
      let (lvl', heap) = link lvl p o b.heap in
      let ladder = parts.put px lvl' (own_ladder s b) in
      set_own_ladder s (if lvl.head == null then parts.on_nonempty px ladder else ladder)
        (record b { orders = parts.insert id p b.orders; pool = pool; heap = heap })

  -- `execute` behind the fill-or-kill test.
  unfoldable pub execute_now : Side → ℕ → ℤ → ℕ → Tif → ℕ → Book L I A → Book L I A × SubmitResult
  execute_now s id px qty tif owner b =
      let (b', m) = match parts s (stp_is_on b.stp) id px qty owner b in
      if m.stp_stopped
      then (b', record { filled = m.filled; rested = false; rejected = m.filled == 0 })
      else if ltb m.filled qty && is_gtc tif
      then (
        rest s id px (sub32 qty m.filled) owner b',
        record { filled = m.filled; rested = true; rejected = false },
      )
      else (b', record { filled = m.filled; rested = false; rejected = false })

  unfoldable pub execute : Side → ℕ → ℤ → ℕ → Tif → ℕ → Book L I A → Book L I A × SubmitResult
  execute s id px qty tif owner b =
      if is_fok tif && not (fok_fillable s (stp_is_on b.stp) px qty owner b)
      then (b, rejection)
      else execute_now s id px qty tif owner b

  -- `remove_from_book` of an order, as it is read from the heap.
  unfoldable pub remove_order : Order → Ptr → Book L I A → Book L I A
  remove_order o p b =
      let (s, px) = o.level in
      let (lvl, heap) = unlink (parts.at px (own_ladder s b)) p b.heap in
      let ladder = parts.put px lvl (own_ladder s b) in
      let b' = set_own_ladder s ladder (record b { heap = heap }) in
      if lvl.head == null
      then set_own_ladder o.side (parts.on_empty lvl.price (own_ladder o.side b')) b'
      else b'

  unfoldable pub remove_from_book : Ptr → Book L I A → Book L I A
  remove_from_book p b = remove_order (b.heap p) p b

  -- `orders_.erase(id); remove_from_book(o); pool_.destroy(o)`.
  unfoldable pub take_out : ℕ → Ptr → Book L I A → Book L I A
  take_out id p b =
      let b' = remove_from_book p (record b { orders = parts.erase id b.orders }) in
      record b' { pool = parts.destroy p b'.pool }

  -- `o->level->total_qty -= (o->qty - new_qty); o->qty = new_qty`.
  unfoldable pub amend : Ptr → ℕ → Book L I A → Book L I A
  amend p new_qty b =
      let o = b.heap p in
      let (s, px) = o.level in
      let lvl = parts.at px (own_ladder s b) in
      let lvl' = record lvl { total_qty = sub64 lvl.total_qty (sub32 o.qty new_qty) } in
      set_own_ladder s (parts.put px lvl' (own_ladder s b))
        (record b { heap = set_qty p new_qty b.heap })
