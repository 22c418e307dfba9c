-- ===== src/OrderBook/Audit/Band.antt =====
-- The audit of include/lob/order_book.hpp over the prices of a flat ladder.
use limit_order_book.Base.{
  ℕ, zero, suc, ◌+◌, ◌<◌, ◌≡◌, refl, sym, ap, ap₂, ◌∙◌, ℤ, pos, pos_part, ◌+ℤ◌, ◌-ℤ◌, +ℤ_parts,
  -ℤ_parts, eq_of_parts, eqb_ℤ, ltb_ℤ, true, ◌||◌, Option, All, All-map, length, arith,
}
use limit_order_book.Types.{Side, no_price}
use limit_order_book.Fifo.{Ptr, Heap}
use limit_order_book.Fifo.Cells.{AreReal}
use limit_order_book.Engine.Laws.{first_price}
use limit_order_book.Engine.Entries.{eqb_itself}
use limit_order_book.Engine.Queues.{Groups, entries, all_cells}
use limit_order_book.Engine.Groups.{AllLinked}
use limit_order_book.Engine.Walking.{Holds}
use limit_order_book.FlatLadder.{FlatLadder, at, bit_set, to_size, in_band, index}
use limit_order_book.FlatLadder.Shape.{price_parts, lo_parts, difference_size, index_parts}
use limit_order_book.FlatLadder.Contents.{Shows, price_of}
use limit_order_book.FlatLadder.Laws.{positive}
use limit_order_book.FlatLadder.Queries.{bit_set-lookup, at-lookup}
use limit_order_book.OrderBook.Audit.{
  Audit, passed, failed, audit_level, audit_band, check_side, close_side,
}
use limit_order_book.OrderBook.Audit.Orders.{IsFound}
use limit_order_book.OrderBook.Audit.Levels.{
  cells_at, count_below, best_below, length-cells_at, AllLinked-AreFull, level-cells_at,
  is_there-cells_at, links-cells_at, All-cells_at, count_below-step, best_below-step, all_below,
  none_below,
}
use limit_order_book.OrderBook.Audit.Rounds.{audit_level-passed}

module _ (h : Heap) (find : ℕ → Option Ptr) (s : Side) (fuel : ℕ) (l : FlatLadder) (gs : Groups)
    (shows : Shows s l (entries gs)) (links : AllLinked h s gs) (real : AreReal (all_cells gs))
    (holds : All Holds (all_cells gs)) (found : All (IsFound find) (all_cells gs))
    (long : length (all_cells gs) < fuel) (seen : ℕ) where
  -- What the loop has when it comes to the price at an index.
  abbrev best_at : ℕ → ℤ
  best_at k = best_below (price_of l k) gs

  abbrev seen_at : ℕ → ℕ
  seen_at k = seen + count_below (price_of l k) gs

  next_price : (k : ℕ) → price_of l k +ℤ pos 1 ≡ price_of l (suc k)
  next_price k =
      let (a, b) = price_parts s l shows.shape k in
      let (a', b') = price_parts s l shows.shape (suc k) in
      let sum = +ℤ_parts (price_of l k) (pos 1) in
      eq_of_parts (price_of l k +ℤ pos 1) (price_of l (suc k)) (omega arith)

  next_below :
      (k : ℕ) (p : ℤ)
      → ltb_ℤ p (price_of l (suc k)) ≡ (ltb_ℤ p (price_of l k) || eqb_ℤ p (price_of l k))
  next_below k p =
      let (a, b) = price_parts s l shows.shape k in
      let (a', b') = price_parts s l shows.shape (suc k) in ground arith

  price-in_band : (k : ℕ) → k < l.levels.size → in_band (price_of l k) l ≡ true
  unfolding in_band
  price-in_band k small =
      let (a, b) = price_parts s l shows.shape k in
      let hi = shows.shape.span in
      let hi' = shows.shape.hi_positive in let lo = shows.shape.lo_positive in ground arith

  round :
      (k : ℕ)
      → k < l.levels.size
      → audit_level fuel h find s
          (price_of l k)
          (at (price_of l k) l)
          (bit_set (price_of l k) l)
          (best_at k)
          (seen_at k)
        ≡ passed (best_at (suc k), seen_at (suc k))
  round k small =
      let q = price_of l k in
      let cs = cells_at q gs in
      let inside = price-in_band k small in
      let full = AllLinked-AreFull h s gs links in
      let level = at-lookup s l (entries gs) q shows inside ∙ level-cells_at q gs in
      let bit = bit_set-lookup s l (entries gs) q shows inside ∙ is_there-cells_at q gs full in
      let least = length-cells_at q gs in
      let counts = count_below-step q (price_of l (suc k)) (next_below k) s gs shows.ordered in
      let best =
        best_below-step q (price_of l (suc k)) (next_below k) s gs shows.ordered full
          (positive s l (entries gs) shows) in
      ap₂ (λ lvl b. audit_level fuel h find s q lvl b (best_at k) (seen_at k)) level bit
      ∙ audit_level-passed h find s q fuel (best_at k) (seen_at k) cs (omega (arith, least))
          (All-cells_at q _ gs real) (All-cells_at q _ gs holds) (All-cells_at q _ gs found)
          (links-cells_at q h s gs links)
      ∙ ap₂ (λ b n. passed (b, n)) (sym best) (omega (arith, counts))

  abbrev go_on : ℕ → ℤ → Audit (ℤ × ℕ) → Audit (ℤ × ℕ)
  go_on n px (failed e) = failed e
  go_on n px (passed r) = audit_band n fuel h find s l px r.0 r.1

  audit_band-passed :
      (n k : ℕ)
      → k + n ≡ l.levels.size
      → audit_band n fuel h find s l (price_of l k) (best_at k) (seen_at k)
        ≡ passed (best_at (k + n), seen_at (k + n))
  unfolding audit_band
  audit_band-passed zero k e =
      let same : k ≡ k + 0 = omega arith in ap (λ j. passed (best_at j, seen_at j)) same
  audit_band-passed (suc n) k e =
      let same : suc k + n ≡ k + suc n = omega arith in
      ap (go_on n (price_of l k +ℤ pos 1)) (round k (omega arith))
      ∙ ap (λ px. audit_band n fuel h find s l px (best_at (suc k)) (seen_at (suc k)))
          (next_price k)
      ∙ audit_band-passed n (suc k) (omega arith)
      ∙ ap (λ j. passed (best_at j, seen_at j)) same

  band_size : to_size (l.hi -ℤ l.lo) ≡ l.levels.size
  band_size =
      let shape = shows.shape in
      let lo = lo_parts s l shape in
      let size =
        difference_size (l.hi -ℤ l.lo) (pos_part l.hi) (pos_part l.lo)
          (omega (arith, -ℤ_parts l.hi l.lo, lo, shape.hi_positive)) (omega (arith, shape.span))
          shape.small in
      omega (arith, size, shape.span)

  first : price_of l 0 ≡ l.lo
  first =
      let (a, b) = price_parts s l shows.shape 0 in
      let lo = lo_parts s l shows.shape in eq_of_parts (price_of l 0) l.lo (omega arith)

  at_start : (count_below (price_of l 0) gs ≡ 0) × (best_at 0 ≡ no_price)
  at_start =
      let (a, b) = price_parts s l shows.shape 0 in
      none_below (price_of l 0) gs (
        All-map _ _
          (λ e inside.
            let (c, d, i) = index_parts s l shows.shape e.0 inside in
            let p : pos_part e.0 ≡ pos_part l.lo + index e.0 l = c in ground arith)
          (entries gs) shows.within)

  at_end :
      (count_below (price_of l l.levels.size) gs ≡ length (all_cells gs))
      × (best_at l.levels.size ≡ first_price (entries gs))
  at_end =
      let (a, b) = price_parts s l shows.shape l.levels.size in
      all_below (price_of l l.levels.size) gs (
        All-map _ _
          (λ e inside. let (c, d, i) = index_parts s l shows.shape e.0 inside in ground arith)
          (entries gs) shows.within)

  abbrev audit_band_of : ℕ → ℤ → ℤ → ℕ → Audit (ℤ × ℕ)
  audit_band_of n px best m = audit_band n fuel h find s l px best m

  pub check_side-passed : check_side fuel h find l s seen ≡ passed (seen + length (all_cells gs))
  unfolding check_side
  check_side-passed =
      let size = l.levels.size in
      let start_count : seen ≡ seen_at 0 = omega (arith, at_start.0) in
      let end_count : seen_at size ≡ seen + length (all_cells gs) = omega (arith, at_end.0) in
      let same : 0 + size ≡ size = omega arith in
      ap (close_side l) (
        ap (λ n. audit_band_of n l.lo no_price seen) band_size
        ∙ ap (λ px. audit_band_of size px no_price seen) (sym first)
        ∙ ap₂ (λ b m. audit_band_of size (price_of l 0) b m) (sym at_start.1) start_count
        ∙ audit_band-passed size 0 (omega arith)
        ∙ ap (λ j. passed (best_at j, seen_at j)) same
        ∙ ap₂ (λ b m. passed (b, m)) (at_end.1 ∙ sym shows.best) end_count)
      ∙ rw (eqb_itself l.best) refl
