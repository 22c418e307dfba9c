-- ===== src/Engine/Matching.antt =====
-- The loop over the levels, on the groups of orders that a ladder stands for.
use limit_order_book.Base.{
  ℕ, suc, ◌^◌, ◌<◌, ◌≡◌, sym, ap, subst, ◌∙◌, ℤ, Bool, false, List, [], ◌∷◌, ◌++◌, length,
  length-append, All, All-append_left, arith, ◌==◌, if◌then◌else◌, append_assoc,
}
use limit_order_book.Types.{Side, Stp}
use limit_order_book.Fifo.{Ptr, null, Level}
use limit_order_book.Fifo.Cells.{Cell, front, level_of, Avoids, AreReal, AreReal-append_left}
use limit_order_book.Engine.{Parts, Run, walk, take_level}
use limit_order_book.Engine.Laws.{Entries, LadderLaws, IndexLaws, AllocLaws}
use limit_order_book.Engine.Queues.{Groups, entries, all_cells, Fill, fill_cells, Sweep, regroup}
use limit_order_book.Engine.Filling.{walk-Filled}
use limit_order_book.Engine.Walking.{keys, Common, Walks, Filled}
use limit_order_book.Engine.Groups.{
  AllLinked, apart_sides, same_at, AllLinked-frame, length-keys, left_level, entries-regroup,
  all_cells-regroup, AllLinked-regroup,
}

module _ {L I A : Type 0} (parts : Parts L I A) (Shows : Side → L → Entries → Type 0)
    (Indexes : I → List (ℕ × Ptr) → Type 0) (Owns : A → List Ptr → Type 0) where
  -- What is left of a level goes back to its place, or the place is given up.
  pub kept_level :
      LadderLaws parts Shows
      → (o : Side) (px : ℤ) (xs : Entries) (before_lvl : Level) (ys : Entries) (cells : List Cell)
        (l : L) (lvl : Level)
      → lvl ≡ level_of px cells
      → AreReal cells
      → Shows o l (xs ++ (px, before_lvl) ∷ ys)
      → Shows o
          (if lvl.head == null
            then parts.on_empty lvl.price (parts.put px lvl l)
            else parts.put px lvl l)
          (xs ++ left_level px cells ys)
  kept_level ladder o px xs before_lvl ys cells l lvl e real sh =
      subst
        (λ (lvl : Level).
          Shows o
            (if lvl.head == null
              then parts.on_empty lvl.price (parts.put px lvl l)
              else parts.put px lvl l)
            (xs ++ left_level px cells ys))
        (sym e) (by_cells cells real)
    where
      by_cells :
          (cells : List Cell)
          → AreReal cells
          → let lvl = level_of px cells in
            Shows o
              (if lvl.head == null
                then parts.on_empty lvl.price (parts.put px lvl l)
                else parts.put px lvl l)
              (xs ++ left_level px cells ys)
      by_cells [] real = unfold front in ladder.empty_in o l xs px before_lvl ys sh
      by_cells (c ∷ cells) real =
          let first = real.0 in
          let some_ptr : (front (c ∷ cells) null == null) ≡ false = unfold front in ground arith in
          rw some_ptr (
            ladder.put_in o l xs px before_lvl (level_of px (c ∷ cells)) ys sh
              (unfold front in λ same. absurd (omega arith)))

  -- The run's ladder, on side `o`, stands for `gs`, and there are `others` besides.
  pub record Sweeps (o : Side) (gs : Groups) (others : List Cell) (r : Run L I A) : Type 0 where
    pub shows : Shows o r.ladder (entries gs)
    pub links : AllLinked r.heap o gs
    pub common : Common parts Indexes Owns r.orders r.pool (all_cells gs ++ others)

  -- A run from `r` to `r'` that does to the groups what `w` says.
  pub record Swept (o : Side) (gs : Groups) (others : List Cell) (r : Run L I A) (w : Sweep)
      (r' : Run L I A) : Type 0 where
    pub sweeps : Sweeps o w.groups others r'
    pub remaining : r'.remaining ≡ w.remaining
    pub stopped : r'.stopped ≡ w.stopped
    pub events : r'.events ≡ r.events ++ w.events
    pub same : (q : Ptr) → Avoids q (all_cells gs) → r'.heap q ≡ r.heap q

  module _ (ladder : LadderLaws parts Shows) (index : IndexLaws parts Indexes)
      (alloc : AllocLaws parts Owns) (o : Side) (taker owner : ℕ) (stp : Stp) (stp_on : Bool)
      (others : List Cell) where
    -- A round of the loop.
    module _ (px : ℤ) (cs : List Cell) (gs : Groups) (r : Run L I A)
        (w : Sweeps o ((px, cs) ∷ gs) others r) where
      abbrev tail_cells : List Cell
      tail_cells = all_cells gs ++ others

      abbrev start : Run L I A
      start = record r { lvl = parts.at (parts.best r.ladder) r.ladder }

      pub best_price : parts.best r.ladder ≡ px
      best_price = ladder.best o r.ladder _ w.shows

      best_level : parts.at (parts.best r.ladder) r.ladder ≡ level_of px cs
      best_level =
          ap (λ p. parts.at p r.ladder) best_price
          ∙ ladder.at_in o r.ladder [] px (level_of px cs) (entries gs) w.shows

      cells-Common : Common parts Indexes Owns r.orders r.pool (cs ++ tail_cells)
      cells-Common =
          subst (Common parts Indexes Owns r.orders r.pool) (append_assoc cs (all_cells gs) others)
            (unfold all_cells in w.common)

      start-Walks : Walks parts Indexes Owns o px cs tail_cells start
      start-Walks = record { lvl = best_level; links = w.links.1; common = cells-Common }

      fuel_enough : length cs < suc (parts.size r.orders)
      fuel_enough =
          let k = cells-Common in
          omega (
            arith,
            index.size r.orders (keys (cs ++ tail_cells)) k.indexed,
            length-keys (cs ++ tail_cells),
            length-append cs tail_cells,
          )

      abbrev level_fill : Fill
      level_fill = fill_cells taker owner stp stp_on px r.remaining cs

      abbrev round : Run L I A
      round = walk parts (suc (parts.size r.orders)) taker owner stp stp_on (front cs null) start

      walk_eq :
          walk parts
            (suc (parts.size r.orders))
            taker
            owner
            stp
            stp_on
            (parts.at (parts.best r.ladder) r.ladder).head
            start
          ≡ round
      walk_eq =
          ap
            (λ (lvl : Level).
              walk parts (suc (parts.size r.orders)) taker owner stp stp_on lvl.head start)
            best_level

      module _ (small : r.remaining < 2 ^ 32) (going : r.stopped ≡ false) where
        round-Filled : Filled parts Indexes Owns o px cs tail_cells start level_fill round
        round-Filled =
            walk-Filled parts Indexes Owns index alloc o px tail_cells taker owner stp stp_on
              (suc (parts.size r.orders)) cs start start-Walks fuel_enough small going

        others_same :
            ((q : Ptr) → Avoids q cs → round.heap q ≡ r.heap q)
            → All (λ d. round.heap d.ptr ≡ r.heap d.ptr) (all_cells gs)
        others_same same =
            same_at cs r.heap round.heap same (all_cells gs) (
              All-append_left _ (all_cells gs) others
                (apart_sides cs tail_cells cells-Common.apart))

        abbrev closed : ℤ → Run L I A → Run L I A
        closed p r' =
            let l = parts.put p r'.lvl r'.ladder in
            record r' { ladder = if r'.lvl.head == null then parts.on_empty r'.lvl.price l else l }

        take_level-closed : take_level parts taker owner stp stp_on r ≡ closed px round
        unfolding take_level
        take_level-closed =
            ap (closed (parts.best r.ladder)) walk_eq ∙ ap (λ p. closed p round) best_price

        closed-Sweeps : Sweeps o (regroup px level_fill.cells gs) others (closed px round)
        closed-Sweeps =
            let f = round-Filled in
            let k = f.walks.common in
            record {
              shows =
                  rw (entries-regroup, f.ladder)
                    (kept_level ladder o px [] (level_of px cs) (entries gs) level_fill.cells
                      r.ladder round.lvl f.walks.lvl
                      (AreReal-append_left level_fill.cells tail_cells k.real) w.shows);
              links =
                  AllLinked-regroup round.heap o px level_fill.cells gs f.walks.links
                    (AllLinked-frame o r.heap round.heap gs (others_same f.same) w.links.2);
              common =
                  subst (Common parts Indexes Owns round.orders round.pool)
                    (sym (append_assoc level_fill.cells (all_cells gs) others)
                      ∙ ap (λ cells. cells ++ others)
                          (sym (all_cells-regroup px level_fill.cells gs)))
                    k;
            }

        pub take_level-Sweeps :
            Sweeps o
              (regroup px level_fill.cells gs)
              others
              (take_level parts taker owner stp stp_on r)
        take_level-Sweeps =
            subst (Sweeps o (regroup px level_fill.cells gs) others) (sym take_level-closed)
              closed-Sweeps

        pub take_level-remaining :
            (take_level parts taker owner stp stp_on r).remaining ≡ level_fill.remaining
        take_level-remaining =
            ap (λ (r : Run L I A). r.remaining) take_level-closed ∙ round-Filled.remaining

        pub take_level-stopped :
            (take_level parts taker owner stp stp_on r).stopped ≡ level_fill.stopped
        take_level-stopped =
            ap (λ (r : Run L I A). r.stopped) take_level-closed ∙ round-Filled.stopped

        pub take_level-events :
            (take_level parts taker owner stp stp_on r).events ≡ r.events ++ level_fill.events
        take_level-events = ap (λ (r : Run L I A). r.events) take_level-closed ∙ round-Filled.events

        pub take_level-same :
            (q : Ptr) → Avoids q cs → (take_level parts taker owner stp stp_on r).heap q ≡ r.heap q
        take_level-same q out =
            ap (λ (r : Run L I A). r.heap q) take_level-closed ∙ round-Filled.same q out
