-- ===== src/FlatLadder/Laws.antt =====
-- The operations of include/lob/order_book.hpp's Ladder, on the list of levels that it holds.
use limit_order_book.Base.{
  ◌≡◌, refl, ap, sym, ◌∙◌, ℤ, pos, ◌<ℤ◌, eqb_ℤ, true, false, ◌||◌, [], ◌∷◌, ◌++◌, All, All-map,
  All-append_right, lookup, if◌then◌else◌, arith,
}
use limit_order_book.Types.{Side, bid, ask, no_price}
use limit_order_book.Naive.Sides.{before}
use limit_order_book.Fifo.{Level}
use limit_order_book.Fifo.Cells.{level_of}
use limit_order_book.Engine.Laws.{Entries, first_price, IsOrdered, Fits}
use limit_order_book.Engine.Entries.{
  before-eqb, before-asym, eqb_itself, Earlier, ordered_around, IsOrdered-with, IsOrdered-without,
  IsOrdered-append_right, lookup_after, lookup_middle, lookup_new, lookup_later,
}
use limit_order_book.FlatLadder.{
  FlatLadder, in_band, index, at, put, mark, unmark, on_nonempty, on_empty, scan_worse, better,
}
use limit_order_book.FlatLadder.Shape.{Shape, index_parts, index_price, in_band_positive}
use limit_order_book.FlatLadder.Contents.{Shows, is_there, level_or, price_of, scan_first}
use limit_order_book.FlatLadder.Changes.{
  clear_level-nil, within_with, within_without, put_bits, put_levels, new_levels, gone_levels,
  new_bits, gone_bits,
}

first_position :
    (s : Side) (xs : Entries) (px : ℤ) (lvl lvl' : Level) (ys : Entries)
    → first_price (xs ++ (px, lvl) ∷ ys) ≡ first_price (xs ++ (px, lvl') ∷ ys)
first_position s [] px lvl lvl' ys = refl
first_position s (x ∷ xs) px lvl lvl' ys = refl

pub positive :
    (s : Side) (l : FlatLadder) (es : Entries) → Shows s l es → All (λ e. pos 0 <ℤ e.0) es
positive s l es h = All-map _ _ (λ e b. in_band_positive s l h.shape e.0 b) es h.within

put-Shape : (s : Side) (l : FlatLadder) (px : ℤ) (lvl : Level) → Shape s l → Shape s (put px lvl l)
unfolding put
put-Shape s l px lvl h = record {
  side = h.side;
  lo_positive = h.lo_positive;
  hi_positive = h.hi_positive;
  span = h.span;
  small = h.small;
  covered = h.covered;
}

on_empty-Shape : (s : Side) (l : FlatLadder) (px : ℤ) → Shape s l → Shape s (on_empty px l)
unfolding on_empty unmark
on_empty-Shape s l px h = record {
  side = h.side;
  lo_positive = h.lo_positive;
  hi_positive = h.hi_positive;
  span = h.span;
  small = h.small;
  covered = h.covered;
}

on_nonempty-Shape : (s : Side) (l : FlatLadder) (px : ℤ) → Shape s l → Shape s (on_nonempty px l)
unfolding on_nonempty mark
on_nonempty-Shape s l px h = record {
  side = h.side;
  lo_positive = h.lo_positive;
  hi_positive = h.hi_positive;
  span = h.span;
  small = h.small;
  covered = h.covered;
}

before-better : (s : Side) (a b : ℤ) → better s a b ≡ before s a b
unfolding before
before-better bid a b = refl
before-better ask a b = refl

-- The best price when a level goes and when one comes.
best_gone :
    (s : Side) (xs : Entries) (px : ℤ) (lvl : Level) (ys : Entries) (next best : ℤ)
    → best ≡ first_price (xs ++ (px, lvl) ∷ ys)
    → Earlier s px xs
    → next ≡ first_price ys
    → (if eqb_ℤ best px then next else best) ≡ first_price (xs ++ ys)
best_gone s [] px lvl ys next best b f e = rw (b, eqb_itself px) e
best_gone s (x ∷ xs) px lvl ys next best b f e = rw (b, (before-eqb s x.0 px f.0).0) refl

best_new :
    (s : Side) (xs : Entries) (px : ℤ) (lvl : Level) (ys : Entries)
    → Fits s px xs ys
    → All (λ e. pos 0 <ℤ e.0) (xs ++ ys)
    → (if eqb_ℤ (first_price (xs ++ ys)) no_price || better s px (first_price (xs ++ ys))
        then px
        else first_price (xs ++ ys))
      ≡ first_price (xs ++ (px, lvl) ∷ ys)
best_new s [] px lvl [] f p = refl
best_new s [] px lvl (y ∷ ys) f p = rw (before-better s px y.0, f.1.0) (ground arith)
best_new s (x ∷ xs) px lvl ys f p =
    let some_price : eqb_ℤ x.0 no_price ≡ false = let q = p.0 in ground arith in
    rw (some_price, before-better s px x.0, before-asym s x.0 px f.0.0) refl

module _ (s : Side) (l : FlatLadder) (xs : Entries) (px : ℤ) where
  module _ (lvl : Level) (ys : Entries) (h : Shows s l (xs ++ (px, lvl) ∷ ys)) where
    abbrev around : Fits s px xs ys
    around = ordered_around s xs px lvl ys h.ordered

    abbrev inside : in_band px l ≡ true
    inside = (All-append_right _ xs ((px, lvl) ∷ ys) h.within).0

    held :
        at px l
        ≡ level_or
            (price_of l (index px l))
            (lookup eqb_ℤ (price_of l (index px l)) (xs ++ (px, lvl) ∷ ys))
    unfolding at
    held = h.levels (index px l) (index_parts s l h.shape px inside).2

    pub at_in : at px l ≡ lvl
    at_in =
        held
        ∙ ap (λ q. level_or q (lookup eqb_ℤ q (xs ++ (px, lvl) ∷ ys)))
            (index_price s l h.shape px inside)
        ∙ ap (level_or px) (lookup_middle s xs px lvl ys around.0)

    pub put-Shows : (lvl' : Level) → Shows s (put px lvl' l) (xs ++ (px, lvl') ∷ ys)
    unfolding put in_band
    put-Shows lvl' = record {
      shape = put-Shape s l px lvl' h.shape;
      ordered = IsOrdered-with s xs px lvl' ys (IsOrdered-without s xs px lvl ys h.ordered) around;
      within =
          within_with s l h.shape px inside xs ys around lvl'
            (within_without s l h.shape px inside xs ys around lvl h.within);
      bits = put_bits s l h.shape px inside xs ys around lvl lvl' h.bits;
      levels = put_levels s l h.shape px inside xs ys around lvl lvl' h.levels;
      best = h.best ∙ first_position s xs px lvl lvl' ys;
    }

    right-IsOrdered : IsOrdered s ys
    right-IsOrdered = (IsOrdered-append_right s xs ((px, lvl) ∷ ys) h.ordered).1

    right_within : All (λ y. in_band y.0 l ≡ true) ys
    right_within = (All-append_right _ xs ((px, lvl) ∷ ys) h.within).1

    pub scan_in : scan_worse px l ≡ first_price ys
    scan_in =
        scan_first s l h.shape px inside ys right-IsOrdered around.1 right_within (λ k b e.
          h.bits k b ∙ ap is_there (lookup_after s xs px (price_of l k) lvl ys around.0 e))

    -- The level is written empty, its bit is cleared, and the best price is looked for.
    cleared : FlatLadder
    cleared = record (put px (level_of px []) l) { words = unmark (index px l) l.words }

    cleared-Shape : Shape s cleared
    unfolding cleared unmark put
    cleared-Shape = record {
      side = h.shape.side;
      lo_positive = h.shape.lo_positive;
      hi_positive = h.shape.hi_positive;
      span = h.shape.span;
      small = h.shape.small;
      covered = h.shape.covered;
    }

    scan_cleared : scan_worse px cleared ≡ first_price ys
    unfolding cleared in_band put
    scan_cleared =
        let bits = gone_bits s l h.shape px inside xs ys around lvl h.bits in
        scan_first s cleared cleared-Shape px inside ys right-IsOrdered around.1 right_within
          (λ k b e. bits k b ∙ ap is_there (lookup_later s xs px (price_of l k) ys around.0 e))

    -- In a flat ladder whose bits, array and best price tell of a sorted list of levels, emptying
    -- the level at one of its prices and calling on_empty clears that price's bit and, if it was
    -- the best, scans for the next: the ladder then tells of the list without that level. The
    -- ladder is of one side, over a band of positive prices below 2^63.
    pub on_empty-Shows : Shows s (on_empty px (put px (level_of px []) l)) (xs ++ ys)
    unfolding on_empty put index in_band cleared
    on_empty-Shows =
        let best =
          best_gone s xs px lvl ys (scan_worse px cleared) l.best h.best around.0 scan_cleared in
        record {
          shape =
              on_empty-Shape s (put px (level_of px []) l) px
                (put-Shape s l px (level_of px []) h.shape);
          ordered = IsOrdered-without s xs px lvl ys h.ordered;
          within = within_without s l h.shape px inside xs ys around lvl h.within;
          bits = gone_bits s l h.shape px inside xs ys around lvl h.bits;
          levels = gone_levels s l h.shape px inside xs ys around lvl h.levels;
          best = best;
        }

  module _ (ys : Entries) (h : Shows s l (xs ++ ys)) (f : Fits s px xs ys)
      (e : in_band px l ≡ true) where
    pub at_new : at px l ≡ level_of px []
    unfolding at
    at_new =
        h.levels (index px l) (index_parts s l h.shape px e).2
        ∙ ap (λ q. level_or q (lookup eqb_ℤ q (xs ++ ys))) (index_price s l h.shape px e)
        ∙ ap (level_or px) (lookup_new s xs px ys f)
        ∙ sym (clear_level-nil px)

    pub on_nonempty-Shows :
        (lvl : Level) → Shows s (on_nonempty px (put px lvl l)) (xs ++ (px, lvl) ∷ ys)
    unfolding on_nonempty put index in_band
    on_nonempty-Shows lvl =
        let best = best_new s xs px lvl ys f (positive s l (xs ++ ys) h) in
        record {
          shape = on_nonempty-Shape s (put px lvl l) px (put-Shape s l px lvl h.shape);
          ordered = IsOrdered-with s xs px lvl ys h.ordered f;
          within = within_with s l h.shape px e xs ys f lvl h.within;
          bits = new_bits s l h.shape px e xs ys f lvl h.bits;
          levels = new_levels s l h.shape px e xs ys f lvl h.levels;
          best = rw (h.best, h.shape.side) best;
        }
