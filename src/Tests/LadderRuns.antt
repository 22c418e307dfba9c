-- ===== src/Tests/LadderRuns.antt =====
-- Ladders of include/lob/order_book.hpp with a few levels, and the same small book in two stages.
use limit_order_book.Base.{◌+ℤ◌, none, ◌≡◌, refl, pos, true, [], ◌∷◌, ◌++◌, List, arith}
use limit_order_book.Types.{bid, ask, allow, gtc, cancel_resting, Event}
use limit_order_book.Naive.Sides.{before}
use limit_order_book.Fifo.{Level}
use limit_order_book.Fifo.Cells.{level_of}
use limit_order_book.Engine.Queues.{Groups}
use limit_order_book.FlatLadder.{
  Vector, FlatLadder, make_ladder, put, on_nonempty, on_empty, scan_side, mark, in_band,
}
use limit_order_book.FlatLadder.Bits.{Word, zero_word}
use limit_order_book.FlatLadder.Scans.{bit, IsNext, scan_side-IsNext}
use limit_order_book.FlatLadder.Contents.{Shows}
use limit_order_book.FlatLadder.Laws.{on_empty-Shows, on_nonempty-Shows}
use limit_order_book.FlatLadder.Queries.{make_ladder-Shows}
use limit_order_book.Engine.Queues.{all_cells}
use limit_order_book.Engine.Books.{Represents}
use limit_order_book.Stages.MapLadder as Tree
use limit_order_book.Stages.HashIndex.{Indexes}
use limit_order_book.Stages.Slots.{Owns}
use limit_order_book.Stages.V4
use limit_order_book.Stages.V5
use limit_order_book.Stages.V5.{BookV5, make}
use limit_order_book.Stages.Agreement.{match_v4-match_v5}
use limit_order_book.FlatLadder.Contents as Flat
use limit_order_book.Stages.V5.Laws.{ladder, index, alloc}
use limit_order_book.Stages.HashIndex.{emplace}
use limit_order_book.Naive
use limit_order_book.Naive.{NaiveBook}
use limit_order_book.Engine.Levels.{book_side}
use limit_order_book.OrderBook.{submit_limit, submit_market}
use limit_order_book.OrderBook.Submission.{Submitted}
use limit_order_book.OrderBook.Audit.{check_invariants}
use limit_order_book.OrderBook.Audit.Books.{check_invariants-none}
use limit_order_book.OrderBook.Markets.{submit_market-Submitted}
use limit_order_book.OrderBook.Limits.{submit_limit-Submitted}
use limit_order_book.Tests.EngineRuns.{
  first, second, book, two_asks, two_orders, two_links, book-Represents,
}

-- Bits 3, 70 and 130 of three words.
abbrev three_bits : Vector Word
three_bits = mark 130 (mark 70 (mark 3 (record { size = 3; get = λ i. zero_word })))

scan_side-IsNext_example : IsNext ask (bit three_bits) 192 3 (scan_side ask three_bits 3)
unfolding mark
scan_side-IsNext_example = scan_side-IsNext ask three_bits 3 (omega arith)

abbrev near : Level
near = level_of (pos 100) (first ∷ [])

abbrev far : Level
far = level_of (pos 170) (second ∷ [])

abbrev fresh : FlatLadder
fresh = make_ladder ask (pos 1) (pos 200)

abbrev one_level : FlatLadder
one_level = on_nonempty (pos 170) (put (pos 170) far fresh)

abbrev two_levels : FlatLadder
two_levels = on_nonempty (pos 100) (put (pos 100) near one_level)

two_levels-Shows : Shows ask two_levels ((pos 100, near) ∷ (pos 170, far) ∷ [])
unfolding before
two_levels-Shows =
    on_nonempty-Shows ask one_level [] (pos 100) ((pos 170, far) ∷ [])
      (on_nonempty-Shows ask fresh [] (pos 170) []
        (make_ladder-Shows ask (pos 1) (pos 200) (omega arith) (omega arith) (omega arith)) (tt, tt)
        (unfold make_ladder in_band in refl) far)
      (tt, (refl, tt)) (unfold make_ladder in_band put on_nonempty in refl) near

on_empty-Shows_example :
    Shows ask
      (on_empty (pos 100) (put (pos 100) (level_of (pos 100) []) two_levels))
      ((pos 170, far) ∷ [])
on_empty-Shows_example =
    on_empty-Shows ask two_levels [] (pos 100) near ((pos 170, far) ∷ []) two_levels-Shows

-- The book of two asks at one price, over flat ladders.
abbrev flat_book : BookV5
flat_book = record (make cancel_resting 4 (pos 1) (pos 200)) {
  asks = on_nonempty (pos 100) (put (pos 100) (level_of (pos 100) (first ∷ second ∷ [])) fresh);
  orders = book.orders;
  pool = book.pool;
  heap = book.heap;
}

flat_book-Represents : Represents V5.parts Flat.Shows Indexes Owns bid [] two_asks flat_book
unfolding make all_cells
flat_book-Represents = record {
  own_shows = make_ladder-Shows bid (pos 1) (pos 200) (omega arith) (omega arith) (omega arith);
  opposite_shows =
      on_nonempty-Shows ask fresh [] (pos 100) []
        (make_ladder-Shows ask (pos 1) (pos 200) (omega arith) (omega arith) (omega arith)) (tt, tt)
        (unfold make_ladder in_band in refl) (level_of (pos 100) (first ∷ second ∷ []));
  own_links = tt;
  opposite_links = (omega arith, two_links, tt);
  common = record {
    indexed = two_orders.indexed;
    owned = two_orders.owned;
    real = two_orders.real;
    apart = two_orders.apart;
    differ = two_orders.differ;
    holds = two_orders.holds;
  };
}

match_v4-match_v5_example :
    let (b4', m4) = V4.match bid true 99 (pos 101) 7 8 book in
    let (b5', m5) = V5.match bid true 99 (pos 101) 7 8 flat_book in
    (left : Groups) × (new : List Event) × (Represents V4.parts Tree.Shows Indexes Owns bid [] left
        b4'
      × Represents V5.parts Flat.Shows Indexes Owns bid [] left b5'
      × (m4.filled ≡ m5.filled)
      × (m4.stp_stopped ≡ m5.stp_stopped)
      × (b4'.events ≡ book.events ++ new)
      × (b5'.events ≡ flat_book.events ++ new))
unfolding make V4.make
match_v4-match_v5_example =
    match_v4-match_v5 bid [] two_asks book flat_book book-Represents flat_book-Represents refl true
      99 (pos 101) 7 8 (omega arith)

-- The same book with self-trades allowed, and the reference engine's book of the same orders.
abbrev open_book : BookV5
open_book = record flat_book { stp = allow }

abbrev reference : NaiveBook
reference = record { bids = []; asks = book_side two_asks; protection = pos 0; trades = [] }

open_book-Represents : Represents V5.parts Flat.Shows Indexes Owns bid [] two_asks open_book
open_book-Represents = record {
  own_shows = flat_book-Represents.own_shows;
  opposite_shows = flat_book-Represents.opposite_shows;
  own_links = flat_book-Represents.own_links;
  opposite_links = flat_book-Represents.opposite_links;
  common = flat_book-Represents.common;
}

-- A bid for twelve takes both orders and rests the other three.
submit_limit-Submitted_example :
    Submitted V5.parts Flat.Shows Indexes Owns bid open_book reference
      (submit_limit V5.parts 99 bid (pos 101) 12 gtc 0 open_book)
      (Naive.submit_limit 99 bid (pos 101) 12 gtc reference)
unfolding make V5.parts in_band make_ladder put on_nonempty emplace V4.make
submit_limit-Submitted_example =
    submit_limit-Submitted V5.parts Flat.Shows Indexes Owns ladder index alloc bid 99 (pos 101) 12 0
      gtc [] two_asks open_book reference open_book-Represents refl refl refl (omega arith)
      (omega arith) refl refl refl (λ other. absurd (cc other))

-- The same books with one tick of protection; a bid for seven at the market takes the first order
-- and two of the second.
abbrev guarded_book : BookV5
guarded_book = record open_book { protection = pos 1 }

abbrev guarded_reference : NaiveBook
guarded_reference = record reference { protection = pos 1 }

guarded_book-Represents : Represents V5.parts Flat.Shows Indexes Owns bid [] two_asks guarded_book
guarded_book-Represents = record {
  own_shows = flat_book-Represents.own_shows;
  opposite_shows = flat_book-Represents.opposite_shows;
  own_links = flat_book-Represents.own_links;
  opposite_links = flat_book-Represents.opposite_links;
  common = flat_book-Represents.common;
}

submit_market-Submitted_example :
    Submitted V5.parts Flat.Shows Indexes Owns bid guarded_book guarded_reference
      (submit_market V5.parts 99 bid 7 0 guarded_book)
      (Naive.submit_market 99 bid 7 guarded_reference)
unfolding make V5.parts in_band make_ladder put on_nonempty emplace V4.make ◌+ℤ◌
submit_market-Submitted_example =
    submit_market-Submitted V5.parts Flat.Shows Indexes Owns ladder index alloc bid 99 7 0 []
      two_asks guarded_book guarded_reference guarded_book-Represents refl refl refl (omega arith)
      (omega arith) refl refl (omega arith, tt) (λ on. omega arith)

check_invariants-none_example : check_invariants V5.parts open_book ≡ none
check_invariants-none_example =
    check_invariants-none V5.parts Indexes Owns index [] two_asks open_book open_book-Represents tt
