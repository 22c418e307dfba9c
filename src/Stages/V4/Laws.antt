-- ===== src/Stages/V4/Laws.antt =====
-- The containers of engines/book_v4.hpp do what the matching core relies on.
use limit_order_book.Base.{◌≡◌, refl, ap, ◌∙◌, ℤ, [], ltb→lt}
use limit_order_book.Fifo.Cells.{level_of, front, back, sum_qty}
use limit_order_book.Engine.Laws.{LadderLaws, BandLaws, IndexLaws, AllocLaws, first_price}
use limit_order_book.Stages.MapLadder.{
  Shows, put, begin, at_in, after_in, at_new, put_new, put-Shows, erase_price-Shows, fresh_level,
}
use limit_order_book.Stages.HashIndex.{Indexes, swap-Indexes, erase_id-Indexes, emplace-Indexes}
use limit_order_book.Stages.Slots.{Owns, swap-Owns, destroy_at-Owns, create_at-Owns}
use limit_order_book.Stages.V4.{parts}

fresh_level-nil : (px : ℤ) → fresh_level px ≡ level_of px []
unfolding front back sum_qty
fresh_level-nil px = refl

pub ladder : LadderLaws parts Shows
unfolding parts begin
ladder = record {
  ordered = λ s l es h. h.ordered;
  positive = λ s l es h. h.positive;
  in_band_positive = λ s l es px h e. ltb→lt _ _ e;
  best = λ s l es h. ap first_price h.levels;
  at_in = λ s l xs px lvl ys h. at_in s l xs px lvl ys h;
  put_in = λ s l xs px lvl lvl' ys h some_order. put-Shows s l xs px lvl ys h lvl';
  empty_in = λ s l xs px lvl ys h.
      erase_price-Shows s (put px (level_of px []) l) xs px (level_of px []) ys
        (put-Shows s l xs px lvl ys h (level_of px []));
  scan = λ s l xs px lvl ys h. after_in s l xs px lvl ys h;
  at_new = λ s l xs px ys h f e. at_new s l xs px ys h f ∙ fresh_level-nil px;
  new_in = λ s l xs px lvl ys h f e some_order. put_new s l xs px ys h f lvl (ltb→lt _ _ e);
}

pub band : BandLaws parts
unfolding parts
band = record { put = λ p px lvl l. refl; on_empty = λ p px l. refl; on_nonempty = λ p px l. refl }

pub index : IndexLaws parts Indexes
unfolding parts
index = record {
  size = λ i es h. h.counts;
  find = λ i es k h. h.finds k;
  swap = swap-Indexes;
  erase = erase_id-Indexes;
  insert = λ i xs k p ys h positive e. emplace-Indexes i xs k p ys h e;
}

pub alloc : AllocLaws parts Owns
unfolding parts
alloc = record {
  swap = swap-Owns;
  destroy = destroy_at-Owns;
  create = λ a xs ys h. let r = create_at-Owns a xs ys h in (r.0, r.1.0, r.1.1);
}
