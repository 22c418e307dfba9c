-- ===== src/Stages/V5/Laws.antt =====
-- The containers of engines/book_v5.hpp do what the matching core relies on.
use limit_order_book.Base.{refl}
use limit_order_book.Engine.Laws.{LadderLaws, BandLaws, IndexLaws, AllocLaws}
use limit_order_book.FlatLadder.{in_band, put, on_empty, on_nonempty}
use limit_order_book.FlatLadder.Shape.{in_band_positive}
use limit_order_book.FlatLadder.Contents.{Shows}
use limit_order_book.FlatLadder.Laws.{
  positive, at_in, put-Shows, on_empty-Shows, scan_in, at_new, on_nonempty-Shows,
}
use limit_order_book.Stages.HashIndex.{Indexes, swap-Indexes, erase_id-Indexes, emplace-Indexes}
use limit_order_book.Stages.Slots.{Owns, swap-Owns, destroy_at-Owns, create_at-Owns}
use limit_order_book.Stages.V5.{parts}

pub ladder : LadderLaws parts Shows
unfolding parts
ladder = record {
  ordered = λ s l es h. h.ordered;
  positive = positive;
  in_band_positive = λ s l es px h e. in_band_positive s l h.shape px e;
  best = λ s l es h. h.best;
  at_in = λ s l xs px lvl ys h. at_in s l xs px lvl ys h;
  put_in = λ s l xs px lvl lvl' ys h some_order. put-Shows s l xs px lvl ys h lvl';
  empty_in = λ s l xs px lvl ys h. on_empty-Shows s l xs px lvl ys h;
  scan = λ s l xs px lvl ys h. scan_in s l xs px lvl ys h;
  at_new = λ s l xs px ys h f e. at_new s l xs px ys h f e;
  new_in = λ s l xs px lvl ys h f e some_order. on_nonempty-Shows s l xs px ys h f e lvl;
}

pub band : BandLaws parts
unfolding parts in_band put on_empty on_nonempty
band = record { put = λ p px lvl l. refl; on_empty = λ p px l. refl; on_nonempty = λ p px l. refl }

pub index : IndexLaws parts Indexes
unfolding parts
index = record {
  size = λ i es h. h.counts;
  find = λ i es k h. h.finds k;
  swap = swap-Indexes;
  erase = erase_id-Indexes;
  insert = λ i xs k p ys h positive e. emplace-Indexes i xs k p ys h e;
}

pub alloc : AllocLaws parts Owns
unfolding parts
alloc = record {
  swap = swap-Owns;
  destroy = destroy_at-Owns;
  create = λ a xs ys h. let r = create_at-Owns a xs ys h in (r.0, r.1.0, r.1.1);
}
