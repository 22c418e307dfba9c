-- ===== src/OrderBook/FillOrKill.antt =====
-- The fill-or-kill test of include/lob/order_book.hpp without self-trade prevention, against the sum of
-- engines/naive_book.hpp.
use limit_order_book.Base.{
  ℕ, zero, suc, ◌+◌, ◌^◌, ◌<◌, ◌≤◌, ◌≡◌, refl, sym, ap, subst, ◌∙◌, ℤ, pos, ◌<ℤ◌, eqb_ℤ, Bool, true,
  false, not, ◌||◌, List, [], ◌∷◌, ◌++◌, All, append_assoc, length, length-append, arith, ltb, leb,
  add64, add64-eq, if◌then◌else◌, Bool-cases, inl, inr,
}
use limit_order_book.Types.{Side, no_price}
use limit_order_book.Fifo.{Ptr, Level}
use limit_order_book.Fifo.Cells.{Cell, level_of, sum_qty, sum_qty-append}
use limit_order_book.Naive.Sides
use limit_order_book.Naive.Sides.{add_level, walk}
use limit_order_book.Naive.{NaiveBook, opposite, crossable_qty}
use limit_order_book.Naive.Refinement.{other}
use limit_order_book.Engine
use limit_order_book.Engine.{Parts, Book, opposite_ladder}
use limit_order_book.Engine.Execution.{scan_levels, fok_fillable}
use limit_order_book.Engine.Laws.{Entries, first_price, LadderLaws, IndexLaws}
use limit_order_book.Engine.Queues.{Groups, entries, all_cells}
use limit_order_book.Engine.Walking.{keys}
use limit_order_book.Engine.Groups.{length-groups, length-keys}
use limit_order_book.Engine.Edits.{entries-append}
use limit_order_book.Engine.Books.{Represents}
use limit_order_book.Engine.Levels.{offers, book_side}
use limit_order_book.Engine.Agreement.{crosses-Engine}

add_level-offers :
    (n : ℕ) (cs : List Cell) → n + sum_qty cs < 2 ^ 64 → add_level n (offers cs) ≡ n + sum_qty cs
unfolding add_level sum_qty
add_level-offers n [] h = omega arith
add_level-offers n (c ∷ cs) h =
    let here = add64-eq n c.qty (omega arith) in
    ap (λ m. add_level m (offers cs)) here
    ∙ add_level-offers (n + c.qty) cs (omega arith)
    ∙ omega arith

-- What a walk has counted it keeps.
walk_least :
    (c : ℤ → Bool) (n : ℕ) (gs : Groups)
    → n + sum_qty (all_cells gs) < 2 ^ 64
    → n ≤ walk c n (book_side gs)
unfolding walk all_cells
walk_least c n [] h = omega arith
walk_least c n ((px, cs) ∷ gs) h =
    let sum = sum_qty-append cs (all_cells gs) in
    let level = add_level-offers n cs (omega arith) in
    elim (Bool-cases (c px)) [
      | inl in_reach ↦
          rw (in_reach, level) (omega (arith, walk_least c (n + sum_qty cs) gs (omega arith)))
      | inr out ↦ rw out (omega arith)
    ]

module _ {L I A : Type 0} (parts : Parts L I A) (Shows : Side → L → Entries → Type 0)
    (ladder : LadderLaws parts Shows) (s : Side) (px : ℤ) (qty owner : ℕ) (b : Book L I A) where
  abbrev reach : ℤ → Bool
  reach p = Engine.crosses s p px

  abbrev facing : L
  facing = opposite_ladder s b

  enough_early :
      (x : Bool) (n w : ℕ)
      → n ≤ w
      → x ≡ not (ltb w qty)
      → (if leb qty n then true else x) ≡ not (ltb w qty)
  enough_early x n w le e = ground arith

  scan_stop :
      (fuel : ℕ) (lvl_px : ℤ) (avail : ℕ)
      → (eqb_ℤ lvl_px no_price || not (reach lvl_px)) ≡ true
      → scan_levels parts (suc fuel) s false px qty owner b lvl_px avail ≡ leb qty avail
  unfolding scan_levels
  scan_stop fuel lvl_px avail e = rw e refl

  scan_level :
      (fuel : ℕ) (lvl_px : ℤ) (avail : ℕ)
      → (eqb_ℤ lvl_px no_price || not (reach lvl_px)) ≡ false
      → let n = add64 avail (parts.at lvl_px facing).total_qty in
        scan_levels parts (suc fuel) s false px qty owner b lvl_px avail ≡ (
          if leb qty n
          then true
          else scan_levels parts fuel s false px qty owner b (parts.scan_worse lvl_px facing) n)
  unfolding scan_levels
  scan_level fuel lvl_px avail e = rw e refl

  scan_levels-walk :
      (fuel : ℕ) (gs hs : Groups) (avail : ℕ)
      → Shows (other s) facing (entries gs ++ entries hs)
      → All (λ e. pos 0 <ℤ e.0) (entries hs)
      → length hs < fuel
      → avail + sum_qty (all_cells hs) < 2 ^ 64
      → scan_levels parts fuel s false px qty owner b (first_price (entries hs)) avail
        ≡ not (ltb (walk reach avail (book_side hs)) qty)
  unfolding walk all_cells
  scan_levels-walk zero gs hs avail sh p long fits = absurd (omega arith)
  scan_levels-walk (suc fuel) gs [] avail sh p long fits =
      scan_stop fuel no_price avail refl ∙ ground arith
  scan_levels-walk (suc fuel) gs ((q, cs) ∷ hs) avail sh p long fits =
      let positive = p.0 in
      let some_price : eqb_ℤ q no_price ≡ false = ground arith in
      elim (Bool-cases (reach q)) [
        | inr out ↦ scan_stop fuel q avail (rw (some_price, out) refl) ∙ rw out (ground arith)
        | inl in_reach ↦
            let sum = sum_qty-append cs (all_cells hs) in
            let at_q =
              ladder.at_in (other s) facing (entries gs) q (level_of q cs) (entries hs) sh in
            let total : (parts.at q facing).total_qty ≡ sum_qty cs =
              ap (λ (lvl : Level). lvl.total_qty) at_q ∙ omega arith in
            let counted : add64 avail (parts.at q facing).total_qty ≡ avail + sum_qty cs =
              ap (add64 avail) total ∙ add64-eq avail (sum_qty cs) (omega (arith, sum)) in
            let next =
              ladder.scan (other s) facing (entries gs) q (level_of q cs) (entries hs) sh in
            let level = add_level-offers avail cs (omega arith) in
            let least = walk_least reach (avail + sum_qty cs) hs (omega arith) in
            let moved =
              ap (λ es. es ++ entries hs) (entries-append gs ((q, cs) ∷ []))
              ∙ append_assoc (entries gs) ((q, level_of q cs) ∷ []) (entries hs) in
            let rest =
              scan_levels-walk fuel (gs ++ (q, cs) ∷ []) hs (avail + sum_qty cs)
                (subst (Shows (other s) facing) (sym moved) sh) p.1 (omega arith) (omega arith) in
            scan_level fuel q avail (rw (some_price, in_reach) refl)
            ∙ rw (counted, in_reach, level, next) (enough_early _ (avail + sum_qty cs) _ least rest)
      ]

module _ {L I A : Type 0} (parts : Parts L I A) (Shows : Side → L → Entries → Type 0)
    (Indexes : I → List (ℕ × Ptr) → Type 0) (Owns : A → List Ptr → Type 0)
    (ladder : LadderLaws parts Shows) (index : IndexLaws parts Indexes) where
  -- The test says that what crosses is enough, if the orders of that side sum to less than 2^64.
  pub fok_fillable-crossable_qty :
      (s : Side) (px : ℤ) (qty owner : ℕ) (own opposite_groups : Groups) (b : Book L I A)
      (n : NaiveBook)
      → Represents parts Shows Indexes Owns s own opposite_groups b
      → opposite s n ≡ book_side opposite_groups
      → sum_qty (all_cells opposite_groups) < 2 ^ 64
      → fok_fillable parts s false px qty owner b ≡ not (ltb (crossable_qty s px n) qty)
  unfolding fok_fillable crossable_qty
  fok_fillable-crossable_qty s px qty owner own gs b n h same fits =
      let facing = opposite_ladder s b in
      let cells = all_cells gs ++ all_cells own in
      let fuel = suc (parts.size b.orders) in
      let long : length gs < fuel = omega (
        arith,
        index.size b.orders (keys cells) h.common.indexed,
        length-keys cells,
        length-append (all_cells gs) (all_cells own),
        length-groups b.heap (other s) gs h.opposite_links,
      ) in
      let best = ladder.best (other s) facing (entries gs) h.opposite_shows in
      let positive = ladder.positive (other s) facing (entries gs) h.opposite_shows in
      ap (λ p. scan_levels parts fuel s false px qty owner b p 0) best
      ∙ scan_levels-walk parts Shows ladder s px qty owner b fuel [] gs 0 h.opposite_shows positive
          long (omega (arith, fits))
      ∙ ap (λ c. not (ltb (walk c 0 (book_side gs)) qty)) (sym (crosses-Engine s px))
      ∙ ap (λ side. not (ltb (walk (Sides.crosses s px) 0 side) qty)) (sym same)
