-- ===== src/Tests/EngineRuns.antt =====
-- The matching core over the containers of engines/book_v4.hpp, on a small book.
use limit_order_book.Base.{◌≡◌, refl, pos, true, false, [], ◌∷◌, ◌++◌, arith, lookup}
use limit_order_book.Types.{bid, ask, cancel_resting}
use limit_order_book.Pool.{new, add_slab, raw_slot}
use limit_order_book.Fifo.{Heap, null, write}
use limit_order_book.Fifo.Cells.{Cell, node, level_of, front, back}
use limit_order_book.Fifo.Links.{AreLinked}
use limit_order_book.Engine.Queues.{Groups, entries, all_cells}
use limit_order_book.Engine.Walking.{Common}
use limit_order_book.Engine.Books.{Represents}
use limit_order_book.Stages.MapLadder.{Shows}
use limit_order_book.Stages.HashIndex.{Indexes, emplace, emplace-Indexes, empty-Indexes}
use limit_order_book.Stages.Slots.{Owns, create_at, create_at-Owns, new-Owns}
use limit_order_book.Stages.V4.{BookV4, parts, make}
use limit_order_book.Stages.V4.Laws.{ladder, index, alloc}
use limit_order_book.Naive.Sides
use limit_order_book.Naive.Sides.{match_side}
use limit_order_book.Engine.{match}
use limit_order_book.Engine.Queues.{sweep}
use limit_order_book.Engine.Books.{Matched, match-Matched}
use limit_order_book.Engine.Levels.{book_side, reported}
use limit_order_book.Engine.Agreement.{match-match_side}
use limit_order_book.Engine.Execution.{rest}
use limit_order_book.Engine.Resting.{rest-Represents}
use limit_order_book.Naive.Sides.{before}
use limit_order_book.OrderBook.{cancel, modify}
use limit_order_book.OrderBook.Amends.{amended, modify-Represents}
use limit_order_book.OrderBook.Cancels.{cancel-Represents}
use limit_order_book.Fifo.{unlink, link}
use limit_order_book.Fifo.Moves.{Queued, unlink-Queued, link-Queued}
use limit_order_book.Fifo.Fills.{with_qty}

abbrev pub first : Cell
first = record { ptr = 1; id = 11; qty = 5; owner = 7 }

abbrev pub second : Cell
second = record { ptr = 2; id = 12; qty = 4; owner = 8 }

abbrev pub two_asks : Groups
two_asks = (pos 100, first ∷ second ∷ []) ∷ []

abbrev pub links : Heap
links =
    write 1 (node ask (pos 100) 0 2 first)
      (write 2 (node ask (pos 100) 1 0 second) (make cancel_resting 4).heap)

abbrev pub book : BookV4
book = record (make cancel_resting 4) {
  asks = record { side = ask; levels = entries two_asks };
  orders = emplace 12 2 (emplace 11 1 (make cancel_resting 4).orders);
  pool = (create_at (create_at (new 4)).0).0;
  heap = links;
}

two_slots : Owns book.pool (1 ∷ 2 ∷ [])
unfolding make create_at raw_slot new add_slab
two_slots =
    let one = (create_at-Owns (new 4) [] [] (new-Owns 4 (omega arith))).1.1 in
    (create_at-Owns (create_at (new 4)).0 (1 ∷ []) [] one).1.1

two_ids : Indexes book.orders ((11, 1) ∷ (12, 2) ∷ [])
unfolding make lookup
two_ids =
    emplace-Indexes (emplace 11 1 (make cancel_resting 4).orders) ((11, 1) ∷ []) 12 2 []
      (emplace-Indexes (make cancel_resting 4).orders [] 11 1 [] empty-Indexes refl) refl

pub two_orders : Common parts Indexes Owns book.orders book.pool (first ∷ second ∷ [])
two_orders = record {
  indexed = two_ids;
  owned = two_slots;
  real = (omega arith, (omega arith, tt));
  apart = ((λ e. absurd (omega arith), tt), (tt, tt));
  differ = ((λ e. absurd (omega arith), tt), (tt, tt));
  holds = ((omega arith, omega arith), ((omega arith, omega arith), tt));
}

pub two_links : AreLinked book.heap ask (pos 100) null (first ∷ second ∷ []) null
unfolding write front
two_links = (refl, (refl, tt))

pub book-Represents : Represents parts Shows Indexes Owns bid [] two_asks book
unfolding make all_cells
book-Represents = record {
  own_shows = record { side = refl; levels = refl; ordered = tt; positive = tt };
  opposite_shows = record {
    side = refl;
    levels = refl;
    ordered = (tt, tt);
    positive = (omega arith, tt);
  };
  own_links = tt;
  opposite_links = (omega arith, two_links, tt);
  common = two_orders;
}

-- A bid for seven takes the first order and two of the second.
match-match_side_example :
    let (b', m) = match parts bid false 99 (pos 101) 7 0 book in
    let g = match_side 99 7 (Sides.crosses bid (pos 101)) (book_side two_asks) in
    (left : Groups) × (Represents parts Shows Indexes Owns bid [] left b'
      × (book_side left ≡ g.levels)
      × (m.filled ≡ g.filled)
      × (m.stp_stopped ≡ false)
      × (b'.events ≡ book.events ++ reported g.trades))
match-match_side_example =
    match-match_side parts Shows Indexes Owns ladder index alloc bid 99 (pos 101) 7 0 [] two_asks
      book book-Represents (omega arith)

match-Matched_example :
    Matched parts Shows Indexes Owns bid [] 7 book
      (sweep bid 99 (pos 101) 8 book.stp true 7 two_asks)
      (match parts bid true 99 (pos 101) 7 8 book)
match-Matched_example =
    match-Matched parts Shows Indexes Owns ladder index alloc bid true 99 (pos 101) 7 8 [] two_asks
      book book-Represents (omega arith)

-- The same book from the other side.
asks-Represents : Represents parts Shows Indexes Owns ask two_asks [] book
unfolding make all_cells
asks-Represents = record {
  own_shows = record {
    side = refl;
    levels = refl;
    ordered = (tt, tt);
    positive = (omega arith, tt);
  };
  opposite_shows = record { side = refl; levels = refl; ordered = tt; positive = tt };
  own_links = (omega arith, two_links, tt);
  opposite_links = tt;
  common = two_orders;
}

cancel-Represents_example :
    let (b', ok) = cancel parts 12 book in
    (ok ≡ true) × Represents parts Shows Indexes Owns ask ((pos 100, first ∷ []) ∷ []) [] b'
cancel-Represents_example =
    cancel-Represents parts Shows Indexes Owns ladder index alloc ask [] (pos 100) (first ∷ [])
      second [] [] [] book asks-Represents

unlink-Queued_example :
    Queued ask
      (pos 100)
      (first ∷ [])
      links
      (unlink (level_of (pos 100) (first ∷ second ∷ [])) 2 links)
unlink-Queued_example =
    unlink-Queued ask (pos 100) links (first ∷ []) second [] (omega arith, (omega arith, tt))
      two_orders.apart (omega arith) two_links

abbrev third : Cell
third = record { ptr = 3; id = 13; qty = 6; owner = 9 }

link-Queued_example : Queued ask (pos 100) (first ∷ second ∷ third ∷ []) links (
    link
      (level_of (pos 100) (first ∷ second ∷ []))
      3
      (node ask (pos 100) (back null (first ∷ second ∷ [])) null third)
      links)
link-Queued_example =
    link-Queued ask (pos 100) links (first ∷ second ∷ []) third two_orders.real two_orders.apart
      ((λ e. absurd (omega arith)), ((λ e. absurd (omega arith)), tt)) two_links

modify-Represents_example :
    let (b', r) = modify parts 12 (pos 100) 2 book in
    (r ≡ amended)
    × Represents parts Shows Indexes Owns ask ((pos 100, first ∷ with_qty 2 second ∷ []) ∷ []) [] b'
unfolding parts
modify-Represents_example =
    modify-Represents parts Shows Indexes Owns ladder index alloc ask [] (pos 100) (first ∷ [])
      second [] [] [] book asks-Represents 2 (omega arith) (omega arith) refl

-- An order on a level of its own, behind the others.
rest-Represents_example :
    Represents parts Shows Indexes Owns ask
      (two_asks ++ (pos 101, record { ptr = 3; id = 13; qty = 6; owner = 9 } ∷ []) ∷ [])
      []
      (rest parts ask 13 (pos 101) 6 9 book)
unfolding parts before make lookup emplace create_at raw_slot new add_slab
rest-Represents_example =
    rest-Represents parts Shows Indexes Owns ladder index alloc ask two_asks (pos 101) [] [] [] book
      13 6 9 asks-Represents ((refl, tt), tt) refl (omega arith) refl (omega arith) (omega arith)
