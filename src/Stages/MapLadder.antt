-- ===== src/Stages/MapLadder.antt =====
-- The ladder of engines/book_v4.hpp: a `std::map` from prices to levels is the list of its entries in
-- the map's order, best price first.
use limit_order_book.Base.{
  ◌≡◌, refl, ap, ◌∙◌, ℤ, pos, ◌<ℤ◌, eqb_ℤ, Option, none, some, [], ◌∷◌, ◌++◌, All, lookup, assign,
  remove, if◌then◌else◌, All-append, All-append_left, All-append_right,
}
use limit_order_book.Types.{Side, no_price}
use limit_order_book.Naive.Sides.{before}
use limit_order_book.Fifo.{null, Level}
use limit_order_book.Engine.Laws.{Entries, first_price, IsOrdered, Fits}
use limit_order_book.Engine.Entries.{
  before-eqb, before-asym, eqb_itself, Earlier, Later, ordered_around, IsOrdered-with,
  IsOrdered-without, lookup_middle, lookup_new,
}

pub record MapLadder : Type 0 where
  pub side : Side
  pub levels : Entries

-- `Level{}`, with the price that `rest` writes.
abbrev pub fresh_level : ℤ → Level
fresh_level px = record { head = null; tail = null; total_qty = 0; count = 0; price = px }

abbrev pub or_fresh : ℤ → Option Level → Level
or_fresh px none = fresh_level px
or_fresh px (some lvl) = lvl

unfoldable pub at : ℤ → MapLadder → Level
at px l = or_fresh px (lookup eqb_ℤ px l.levels)

unfoldable pub put : ℤ → Level → MapLadder → MapLadder
put px lvl l = record l { levels = assign eqb_ℤ (before l.side) px lvl l.levels }

unfoldable pub erase_price : ℤ → MapLadder → MapLadder
erase_price px l = record l { levels = remove eqb_ℤ px l.levels }

unfoldable pub begin : MapLadder → ℤ
begin l = first_price l.levels

-- The price after one, in the map's order.
unfoldable pub after : ℤ → Entries → ℤ
after px [] = no_price
after px ((p, _) ∷ es) = if eqb_ℤ p px then first_price es else after px es

module _ (s : Side) where
  assign_middle :
      (xs : Entries) (px : ℤ) (lvl lvl' : Level) (ys : Entries)
      → Earlier s px xs
      → assign eqb_ℤ (before s) px lvl' (xs ++ (px, lvl) ∷ ys) ≡ xs ++ (px, lvl') ∷ ys
  unfolding assign
  assign_middle [] px lvl lvl' ys h = rw (eqb_itself px) refl
  assign_middle (x ∷ xs) px lvl lvl' ys h =
      rw
        ((before-eqb s x.0 px h.0).0, before-asym s x.0 px h.0, assign_middle xs px lvl lvl' ys h.1)
        refl

  remove_later : (px : ℤ) (ys : Entries) → Later s px ys → remove eqb_ℤ px ys ≡ ys
  unfolding remove
  remove_later px [] h = refl
  remove_later px (y ∷ ys) h = rw ((before-eqb s px y.0 h.0).1, remove_later px ys h.1) refl

  remove_middle :
      (xs : Entries) (px : ℤ) (lvl : Level) (ys : Entries)
      → Earlier s px xs
      → Later s px ys
      → remove eqb_ℤ px (xs ++ (px, lvl) ∷ ys) ≡ xs ++ ys
  unfolding remove
  remove_middle [] px lvl ys h k = rw (eqb_itself px) (remove_later px ys k)
  remove_middle (x ∷ xs) px lvl ys h k =
      rw ((before-eqb s x.0 px h.0).0, remove_middle xs px lvl ys h.1 k) refl

  after_middle :
      (xs : Entries) (px : ℤ) (lvl : Level) (ys : Entries)
      → Earlier s px xs
      → after px (xs ++ (px, lvl) ∷ ys) ≡ first_price ys
  unfolding after
  after_middle [] px lvl ys h = rw (eqb_itself px) refl
  after_middle (x ∷ xs) px lvl ys h =
      rw ((before-eqb s x.0 px h.0).0) (after_middle xs px lvl ys h.1)

  assign_new :
      (xs : Entries) (px : ℤ) (lvl : Level) (ys : Entries)
      → Fits s px xs ys
      → assign eqb_ℤ (before s) px lvl (xs ++ ys) ≡ xs ++ (px, lvl) ∷ ys
  unfolding assign
  assign_new [] px lvl [] f = refl
  assign_new [] px lvl (y ∷ ys) f = rw ((before-eqb s px y.0 f.1.0).1, f.1.0) refl
  assign_new (x ∷ xs) px lvl ys f =
      rw
        (
          (before-eqb s x.0 px f.0.0).0,
          before-asym s x.0 px f.0.0,
          assign_new xs px lvl ys (f.0.1, f.1),
        )
        refl

-- The map is in order and has only positive prices.
pub record Shows (s : Side) (l : MapLadder) (es : Entries) : Type 0 where
  pub side : l.side ≡ s
  pub levels : l.levels ≡ es
  pub ordered : IsOrdered s es
  pub positive : All (λ e. pos 0 <ℤ e.0) es

positive_with :
    (xs : Entries) (px : ℤ) (lvl : Level) (ys : Entries)
    → pos 0 <ℤ px
    → All (λ e. pos 0 <ℤ e.0) (xs ++ ys)
    → All (λ e. pos 0 <ℤ e.0) (xs ++ (px, lvl) ∷ ys)
positive_with xs px lvl ys p h =
    All-append _ xs ((px, lvl) ∷ ys) (All-append_left _ xs ys h) (p, All-append_right _ xs ys h)

positive_around :
    (xs : Entries) (px : ℤ) (lvl : Level) (ys : Entries)
    → All (λ e. pos 0 <ℤ e.0) (xs ++ (px, lvl) ∷ ys)
    → (pos 0 <ℤ px) × All (λ e. pos 0 <ℤ e.0) (xs ++ ys)
positive_around xs px lvl ys h =
    let right = All-append_right _ xs ((px, lvl) ∷ ys) h in
    (right.0, All-append _ xs ys (All-append_left _ xs ((px, lvl) ∷ ys) h) right.1)

module _ (s : Side) (l : MapLadder) (xs : Entries) (px : ℤ) where
  module _ (lvl : Level) (ys : Entries) (h : Shows s l (xs ++ (px, lvl) ∷ ys)) where
    abbrev around : Earlier s px xs × Later s px ys
    around = ordered_around s xs px lvl ys h.ordered

    pub at_in : at px l ≡ lvl
    unfolding at
    at_in = ap (or_fresh px) (ap (lookup eqb_ℤ px) h.levels ∙ lookup_middle s xs px lvl ys around.0)

    pub after_in : after px l.levels ≡ first_price ys
    after_in = ap (after px) h.levels ∙ after_middle s xs px lvl ys around.0

    put_levels : (lvl' : Level) → (put px lvl' l).levels ≡ xs ++ (px, lvl') ∷ ys
    unfolding put
    put_levels lvl' = rw (h.side, h.levels) (assign_middle s xs px lvl lvl' ys around.0)

    pub put-Shows : (lvl' : Level) → Shows s (put px lvl' l) (xs ++ (px, lvl') ∷ ys)
    put-Shows lvl' =
        let without = IsOrdered-without s xs px lvl ys h.ordered in
        let p = positive_around xs px lvl ys h.positive in
        record {
          side = unfold put in h.side;
          levels = put_levels lvl';
          ordered = IsOrdered-with s xs px lvl' ys without around;
          positive = positive_with xs px lvl' ys p.0 p.1;
        }

    pub erase_price-Shows : Shows s (erase_price px l) (xs ++ ys)
    unfolding erase_price
    erase_price-Shows = record {
      side = h.side;
      levels = rw h.levels (remove_middle s xs px lvl ys around.0 around.1);
      ordered = IsOrdered-without s xs px lvl ys h.ordered;
      positive = (positive_around xs px lvl ys h.positive).1;
    }

  module _ (ys : Entries) (h : Shows s l (xs ++ ys)) (f : Fits s px xs ys) where
    pub at_new : at px l ≡ fresh_level px
    unfolding at
    at_new = ap (or_fresh px) (ap (lookup eqb_ℤ px) h.levels ∙ lookup_new s xs px ys f)

    pub put_new : (lvl : Level) → pos 0 <ℤ px → Shows s (put px lvl l) (xs ++ (px, lvl) ∷ ys)
    unfolding put
    put_new lvl p = record {
      side = h.side;
      levels = rw (h.side, h.levels) (assign_new s xs px lvl ys f);
      ordered = IsOrdered-with s xs px lvl ys h.ordered f;
      positive = positive_with xs px lvl ys p h.positive;
    }
