-- ===== src/Engine/Reference.antt =====
-- The matching core of include/lob/order_book.hpp without self-trade prevention, against the
-- reference engine of engines/naive_book.hpp.
use limit_order_book.Base.{
  ℕ, ◌+◌, ◌-◌, ◌^◌, ◌<◌, ◌≤◌, ◌≡◌, refl, sym, ap, ap₂, subst, ◌∙◌, ℤ, Bool, true, false, not, ◌&&◌,
  ◌||◌, List, [], ◌∷◌, ◌++◌, All, arith, ltb, ◌==◌, if◌then◌else◌, Bool-cases, inl, inr, ==_iff,
  All-append_left, All-append_right, append-nil,
}
use limit_order_book.Types.{Side, Stp, Trade}
use limit_order_book.Fifo.Cells.{Cell}
use limit_order_book.Naive.Sides.{
  Level, BookSide, LevelFill, SideFill, is_empty, fill_level, match_from,
}
use limit_order_book.Engine.{crosses}
use limit_order_book.Engine.Queues.{
  Groups, all_cells, Fill, fill_cells, Sweep, sweep, regroup, sweep-none, sweep-last, sweep-next,
}
use limit_order_book.Engine.Walking.{Holds}
use limit_order_book.Engine.Groups.{fill_cells-IsTame, not_either, or_right}
use limit_order_book.Engine.Levels.{
  fill_cells-fill_level, offers, book_side, reported, reported-append, LevelAgrees,
}

abbrev side_fill : BookSide → ℕ → List Trade → SideFill
side_fill levels filled trades = record { levels = levels; filled = filled; trades = trades }

not_and : (a b : Bool) → (not a && b) ≡ not (a || not b)
not_and true b = refl
not_and false true = refl
not_and false false = refl

abbrev kept : ℤ → Level → BookSide → BookSide
kept px [] levels = levels
kept px (o ∷ lvl) levels = (px, o ∷ lvl) ∷ levels

book_side-regroup :
    (px : ℤ) (cells : List Cell) (gs : Groups)
    → book_side (regroup px cells gs) ≡ kept px (offers cells) (book_side gs)
book_side-regroup px [] gs = refl
book_side-regroup px (c ∷ cs) gs = refl

-- A sweep for `want` and a fill of the reference engine say the same.
pub record SideAgrees (want : ℕ) (w : Sweep) (g : SideFill) : Type 0 where
  pub levels : g.levels ≡ book_side w.groups
  pub filled : g.filled + w.remaining ≡ want
  pub trades : reported g.trades ≡ w.events
  pub going : w.stopped ≡ false

module _ (s : Side) (taker : ℕ) (limit_px : ℤ) (owner : ℕ) (stp : Stp) (want : ℕ) where
  abbrev accepts_price : ℤ → Bool
  accepts_price px = crosses s px limit_px

  -- The reference engine's test goes on when the other's does.
  tests_agree :
      (filled : ℕ) (px : ℤ)
      → (ltb filled want && accepts_price px) ≡ not (want - filled == 0 || not (accepts_price px))
  tests_agree filled px =
      let same : ltb filled want ≡ not (want - filled == 0) = ground arith in
      rw same (not_and (want - filled == 0) (accepts_price px))

  match_from_full :
      (gs : Groups)
      → match_from taker want accepts_price want (book_side gs)
        ≡ record { levels = book_side gs; filled = want; trades = [] }
  unfolding match_from
  match_from_full [] = refl
  match_from_full ((px, cs) ∷ gs) = let full : ltb want want ≡ false = ground arith in rw full refl

  module _ (filled : ℕ) (px : ℤ) (cs : List Cell) (gs : Groups) where
    abbrev closed : LevelFill → SideFill
    closed g =
        let more = match_from taker want accepts_price g.filled (book_side gs) in
        if is_empty g.orders
        then record more { trades = g.trades ++ more.trades }
        else record { levels = (px, g.orders) ∷ book_side gs; filled = g.filled; trades = g.trades }

    abbrev level_fill : LevelFill
    level_fill = fill_level taker px want filled (offers cs)

    match_from_over :
        (want - filled == 0 || not (accepts_price px)) ≡ true
        → match_from taker want accepts_price filled (book_side ((px, cs) ∷ gs))
          ≡ record { levels = book_side ((px, cs) ∷ gs); filled = filled; trades = [] }
    unfolding match_from
    match_from_over e =
        let shut : (ltb filled want && accepts_price px) ≡ false =
          tests_agree filled px ∙ ap not e in
        rw shut refl

    match_from-closed :
        (want - filled == 0 || not (accepts_price px)) ≡ false
        → match_from taker want accepts_price filled (book_side ((px, cs) ∷ gs)) ≡ closed level_fill
    unfolding match_from
    match_from-closed e =
        let goes : (ltb filled want && accepts_price px) ≡ true =
          tests_agree filled px ∙ ap not e in
        rw goes refl

    closed_full :
        (orders : Level) (trades : List Trade)
        → closed (record { orders = orders; filled = want; trades = trades })
          ≡ record { levels = kept px orders (book_side gs); filled = want; trades = trades }
    closed_full [] trades =
        ap (λ (more : SideFill). record more { trades = trades ++ more.trades })
          (match_from_full gs)
        ∙ ap (side_fill (book_side gs) want) (append-nil trades)
    closed_full (o ∷ orders) trades = refl

  SideAgrees-eq :
      (w w' : Sweep) (g g' : SideFill)
      → w ≡ w'
      → g ≡ g'
      → SideAgrees want w' g'
      → SideAgrees want w g
  SideAgrees-eq w w' g g' p q a =
      subst (λ w. SideAgrees want w g) (sym p) (subst (SideAgrees want w') (sym q) a)

  -- The level's fill left nothing wanted.
  SideAgrees-last :
      (filled : ℕ) (px : ℤ) (cs : List Cell) (gs : Groups) (f : Fill) (g : LevelFill)
      → LevelAgrees want f g
      → f.remaining ≡ 0
      → SideAgrees want
          (record {
            groups = regroup px f.cells gs;
            remaining = f.remaining;
            stopped = f.stopped;
            events = f.events;
          })
          (closed filled px cs gs g)
  SideAgrees-last filled px cs gs f g a e =
      let full : g.filled ≡ want = omega (arith, a.filled, e) in
      let whole =
        ap
          (λ n.
            closed filled px cs gs (record { orders = g.orders; filled = n; trades = g.trades }))
          full
        ∙ closed_full filled px cs gs g.orders g.trades in
      subst (SideAgrees want _) (sym whole) (record {
        levels =
            ap (λ lvl. kept px lvl (book_side gs)) a.orders ∙ sym (book_side-regroup px f.cells gs);
        filled = omega (arith, e);
        trades = a.trades;
        going = a.going;
      })

  -- The level's fill emptied it and left some wanted.
  SideAgrees-then :
      (filled : ℕ) (px : ℤ) (cs : List Cell) (gs : Groups) (f : Fill) (g : LevelFill) (rest : Sweep)
      → LevelAgrees want f g
      → f.cells ≡ []
      → SideAgrees want rest (match_from taker want accepts_price g.filled (book_side gs))
      → SideAgrees want
          (record rest { events = f.events ++ rest.events })
          (closed filled px cs gs g)
  SideAgrees-then filled px cs gs f g rest a e r =
      let more = match_from taker want accepts_price g.filled (book_side gs) in
      let empty : g.orders ≡ [] = a.orders ∙ ap offers e in
      subst (SideAgrees want _)
        (sym (
          ap
            (λ lvl.
              closed filled px cs gs
                (record { orders = lvl; filled = g.filled; trades = g.trades }))
            empty))
        (record {
          levels = r.levels;
          filled = r.filled;
          trades = reported-append g.trades more.trades ∙ ap₂ (λ es fs. es ++ fs) a.trades r.trades;
          going = r.going;
        })

  module _ (small : want < 2 ^ 32) where
    -- The sweep over the groups is the reference engine's loop over the levels.
    pub sweep-match_from :
        (filled : ℕ) (gs : Groups)
        → filled ≤ want
        → All Holds (all_cells gs)
        → SideAgrees want
            (sweep s taker limit_px owner stp false (want - filled) gs)
            (match_from taker want accepts_price filled (book_side gs))
    sweep-match_from filled [] le h =
        unfold sweep match_from in
        record { levels = refl; filled = omega arith; trades = refl; going = refl }
    sweep-match_from filled ((px, cs) ∷ gs) le h =
        let n = want - filled in
        let f = fill_cells taker owner stp false px n cs in
        let g = fill_level taker px want filled (offers cs) in
        let tame = fill_cells-IsTame taker owner stp false px n cs in
        let holds : All Holds (cs ++ all_cells gs) = unfold all_cells in h in
        elim (Bool-cases (n == 0 || not (crosses s px limit_px))) [
          | inl out ↦
              SideAgrees-eq _ _ _ _ (sweep-none s taker limit_px owner stp false n px cs gs out)
                (match_from_over filled px cs gs out)
                (record { levels = refl; filled = omega arith; trades = refl; going = refl })
          | inr on ↦
              let some_left : (n == 0) ≡ false = (not_either (n == 0) _ on).0 in
              let a =
                fill_cells-fill_level taker px want owner stp small filled cs (ground arith)
                  (All-append_left _ cs (all_cells gs) holds) in
              elim (Bool-cases (f.stopped || f.remaining == 0)) [
                | inl last ↦
                    SideAgrees-eq _ _ _ _
                      (sweep-last s taker limit_px owner stp false n px cs gs on last)
                      (match_from-closed filled px cs gs on)
                      (SideAgrees-last filled px cs gs f g a
                        ((==_iff f.remaining 0).0 (or_right f.stopped _ a.going last)))
                | inr more ↦
                    let left : (f.remaining == 0) ≡ false = (not_either f.stopped _ more).1 in
                    let wants : want - g.filled ≡ f.remaining = omega (arith, a.filled) in
                    SideAgrees-eq _ _ _ _
                      (sweep-next s taker limit_px owner stp false n px cs gs on more)
                      (match_from-closed filled px cs gs on)
                      (SideAgrees-then filled px cs gs f g _ a (tame.1 a.going (ground arith)) (
                        subst
                          (λ m.
                            SideAgrees want (sweep s taker limit_px owner stp false m gs)
                              (match_from taker want accepts_price g.filled (book_side gs)))
                          wants
                          (sweep-match_from g.filled gs (omega (arith, a.filled))
                            (All-append_right _ cs (all_cells gs) holds))))
              ]
        ]
