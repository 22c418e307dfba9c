-- ===== src/FlatLadder/Queries.antt =====
-- A new Ladder of include/lob/order_book.hpp, and what `bit_set` reads in one that is in use.
use limit_order_book.Base.{
  ◌+◌, ◌/◌, ◌%◌, ◌^◌, ◌<◌, ◌≡◌, refl, ap, ◌∙◌, ℤ, pos, ◌-ℤ◌, ◌<ℤ◌, ◌≤ℤ◌, pos_part, neg_part, eqb_ℤ,
  -ℤ_parts, true, [], lookup, arith,
}
use limit_order_book.Types.{Side}
use limit_order_book.Engine.Laws.{Entries}
use limit_order_book.FlatLadder.{FlatLadder, at, make_ladder, in_band, index, bit_set}
use limit_order_book.FlatLadder.Shape.{
  Shape, index_bit, index_price, index_parts, difference_size, positive_parts,
}
use limit_order_book.FlatLadder.Contents.{Shows, is_there, level_or}

make_ladder-Shape :
    (s : Side) (lo hi : ℤ)
    → pos 0 <ℤ lo
    → lo ≤ℤ hi
    → pos_part hi < 2 ^ 63
    → Shape s (make_ladder s lo hi)
unfolding make_ladder
make_ladder-Shape s lo hi p h small =
    let lo_parts = positive_parts lo p in
    let hi_parts : neg_part hi ≡ 0 = positive_parts hi (omega (arith, p, h)) in
    let size =
      difference_size (hi -ℤ lo) (pos_part hi) (pos_part lo)
        (omega (arith, -ℤ_parts hi lo, lo_parts, hi_parts)) (omega (arith, h, lo_parts, hi_parts))
        small in
    record {
      side = refl;
      lo_positive = p;
      hi_positive = hi_parts;
      span = omega (arith, size, h, lo_parts, hi_parts);
      small = small;
      covered = omega arith;
    }

pub make_ladder-Shows :
    (s : Side) (lo hi : ℤ)
    → pos 0 <ℤ lo
    → lo ≤ℤ hi
    → pos_part hi < 2 ^ 63
    → Shows s (make_ladder s lo hi) []
make_ladder-Shows s lo hi p h small = record {
  shape = make_ladder-Shape s lo hi p h small;
  ordered = tt;
  within = tt;
  bits = unfold make_ladder lookup in (λ k b. refl);
  levels = unfold make_ladder lookup in (λ k b. refl);
  best = unfold make_ladder in refl;
}

pub bit_set-lookup :
    (s : Side) (l : FlatLadder) (es : Entries) (px : ℤ)
    → Shows s l es
    → in_band px l ≡ true
    → bit_set px l ≡ is_there (lookup eqb_ℤ px es)
unfolding bit_set
bit_set-lookup s l es px h e =
    let i = index px l in
    let same : 0 + i % 64 ≡ i % 64 = omega arith in
    ap (l.words.get (i / 64)) same
    ∙ h.bits i (index_bit s l h.shape px e)
    ∙ ap (λ q. is_there (lookup eqb_ℤ q es)) (index_price s l h.shape px e)

pub at-lookup :
    (s : Side) (l : FlatLadder) (es : Entries) (px : ℤ)
    → Shows s l es
    → in_band px l ≡ true
    → at px l ≡ level_or px (lookup eqb_ℤ px es)
unfolding at
at-lookup s l es px h e =
    h.levels (index px l) (index_parts s l h.shape px e).2
    ∙ ap (λ q. level_or q (lookup eqb_ℤ q es)) (index_price s l h.shape px e)
