-- ===== src/Engine/Resting.antt =====
-- A new order at the end of its level, or on a level of its own: `rest` of include/lob/order_book.hpp.
use limit_order_book.Base.{
  ℕ, ◌^◌, ◌<◌, ◌≢◌, ◌≡◌, refl, sym, ap, subst, ◌∙◌, ℤ, true, false, none, List, [], ◌∷◌, ◌++◌, All,
  All-append_left, All-append_right, All-map, All-append, length-append, arith, append_assoc,
  lookup, ◌==◌, if◌then◌else◌,
}
use limit_order_book.Types.{Side, bid, ask}
use limit_order_book.Fifo.{Ptr, null, Order, Level, Heap, link}
use limit_order_book.Fifo.Cells.{
  Cell, front, back, node, level_of, Avoids, AreReal, AreApart, AreReal-append_left,
  AreReal-append_right, AreApart-append_left, AreApart-append_right, Avoids-append_left,
  Avoids-append_right,
}
use limit_order_book.Fifo.Links.{AreLinked}
use limit_order_book.Fifo.Moves.{Queued, link-Queued}
use limit_order_book.Naive.Refinement.{other}
use limit_order_book.Engine.{Parts, Book, own_ladder, opposite_ladder, set_own_ladder}
use limit_order_book.Engine.Execution.{rest}
use limit_order_book.Engine.Laws.{Entries, LadderLaws, IndexLaws, AllocLaws, Fits}
use limit_order_book.Engine.Queues.{Groups, entries, all_cells, regroup}
use limit_order_book.Engine.Walking.{keys, ptrs, Common, Holds}
use limit_order_book.Engine.Groups.{
  AllLinked, AllLinked-frame, apart_sides, entries-regroup, all_cells-regroup, left_level,
}
use limit_order_book.Engine.Edits.{
  entries-append, all_cells-append, AllLinked_split, AllLinked_join, keys-append, ptrs-append,
  apart_left, All-with, Differ-with, ptrs-Avoids, missing_id, regroup_links,
}
use limit_order_book.Engine.Books.{Represents}

module _ {L I A : Type 0} (parts : Parts L I A) (Shows : Side → L → Entries → Type 0)
    (Indexes : I → List (ℕ × Ptr) → Type 0) (Owns : A → List Ptr → Type 0)
    (ladder : LadderLaws parts Shows) (index : IndexLaws parts Indexes)
    (alloc : AllocLaws parts Owns) where
  -- What an allocation gives: a real address that no order has.
  fresh :
      (a : A) (xs ys : List Cell)
      → Owns a (ptrs (xs ++ ys))
      → let (a', p) = parts.create a in
        (0 < p) × Avoids p (xs ++ ys) × Owns a' (ptrs xs ++ p ∷ ptrs ys)
  fresh a xs ys h =
      let r = alloc.create a (ptrs xs) (ptrs ys) (subst (Owns a) (ptrs-append xs ys) h) in
      (
        r.0,
        ptrs-Avoids (parts.create a).1 (xs ++ ys)
            (subst (All (λ q. q ≢ (parts.create a).1)) (sym (ptrs-append xs ys)) r.1),
        r.2,
      )

  Common-with :
      (i : I) (a : A) (xs : List Cell) (c : Cell) (ys : List Cell)
      → c.ptr ≡ (parts.create a).1
      → 0 < c.id
      → Holds c
      → lookup ◌==◌ c.id (keys (xs ++ ys)) ≡ none
      → Common parts Indexes Owns i a (xs ++ ys)
      → Common parts Indexes Owns (parts.insert c.id c.ptr i) (parts.create a).0 (xs ++ c ∷ ys)
  Common-with i a xs c ys at_new id holds missing k =
      let r = fresh a xs ys k.owned in
      record {
        indexed = subst (Indexes (parts.insert c.id c.ptr i)) (sym (keys-append xs (c ∷ ys))) (
            index.insert i (keys xs) c.id c.ptr (keys ys)
              (subst (Indexes i) (keys-append xs ys) k.indexed) id
              (ap (lookup ◌==◌ c.id) (sym (keys-append xs ys)) ∙ missing));
        owned =
            subst (Owns (parts.create a).0) (sym (ptrs-append xs (c ∷ ys)))
              (subst (λ p. Owns (parts.create a).0 (ptrs xs ++ p ∷ ptrs ys)) (sym at_new) r.2);
        real = All-with _ xs c ys (subst (λ p. 0 < p) (sym at_new) r.0) k.real;
        apart = Differ-with _ xs c ys (subst (λ p. Avoids p (xs ++ ys)) (sym at_new) r.1) k.apart;
        differ = Differ-with _ xs c ys (missing_id c.id (xs ++ ys) missing) k.differ;
        holds = All-with _ xs c ys holds k.holds;
      }

  -- The level with the new order goes into its ladder.
  rested_level :
      (s : Side) (px : ℤ) (xs ys : Entries) (cs : List Cell) (c : Cell) (l : L) (lvl : Level)
      → lvl ≡ level_of px (cs ++ c ∷ [])
      → AreReal (cs ++ c ∷ [])
      → Fits s px xs ys
      → parts.in_band px l ≡ true
      → Shows s l (xs ++ left_level px cs ys)
      → Shows s
          (if (level_of px cs).head == null
            then parts.on_nonempty px (parts.put px lvl l)
            else parts.put px lvl l)
          (xs ++ (px, level_of px (cs ++ c ∷ [])) ∷ ys)
  unfolding front
  rested_level s px xs ys cs c l lvl e real fits band h =
      subst
        (λ (lvl : Level).
          Shows s
            (if (level_of px cs).head == null
              then parts.on_nonempty px (parts.put px lvl l)
              else parts.put px lvl l)
            (xs ++ (px, level_of px (cs ++ c ∷ [])) ∷ ys))
        (sym e) (by_cells cs real h)
    where
      by_cells :
          (cs : List Cell)
          → AreReal (cs ++ c ∷ [])
          → Shows s l (xs ++ left_level px cs ys)
          → let lvl = level_of px (cs ++ c ∷ []) in
            Shows s
              (if (level_of px cs).head == null
                then parts.on_nonempty px (parts.put px lvl l)
                else parts.put px lvl l)
              (xs ++ (px, lvl) ∷ ys)
      by_cells [] real h =
          let first = real.0 in
          ladder.new_in s l xs px (level_of px (c ∷ [])) ys h fits band
            (λ same. absurd (omega arith))
      by_cells (d ∷ ds) real h =
          let first = real.0 in
          let some_ptr : (d.ptr == null) ≡ false = ground arith in
          rw some_ptr (
            ladder.put_in s l xs px (level_of px (d ∷ ds)) (level_of px (d ∷ (ds ++ c ∷ []))) ys h
              (λ same. absurd (omega arith)))

  -- The level that `rest` finds at the price.
  found_level :
      (s : Side) (px : ℤ) (xs ys : Entries) (cs : List Cell) (l : L)
      → Fits s px xs ys
      → parts.in_band px l ≡ true
      → Shows s l (xs ++ left_level px cs ys)
      → parts.at px l ≡ level_of px cs
  found_level s px xs ys [] l fits band h = ladder.at_new s l xs px ys h fits band
  found_level s px xs ys (c ∷ cs) l fits band h = ladder.at_in s l xs px (level_of px (c ∷ cs)) ys h

  rest-level :
      (s : Side) (id : ℕ) (px : ℤ) (qty owner : ℕ) (b : Book L I A) (lvl : Level)
      → parts.at px (own_ladder s b) ≡ lvl
      → let (pool, p) = parts.create b.pool in
        let o : Order = record {
          qty = qty;
          owner = owner;
          next = null;
          id = id;
          price = px;
          prev = lvl.tail;
          level = (s, px);
          side = s;
        } in
        let (lvl', heap) = link lvl p o b.heap in
        let l = parts.put px lvl' (own_ladder s b) in
        rest parts s id px qty owner b
        ≡ set_own_ladder s
            (if lvl.head == null then parts.on_nonempty px l else l)
            (record b { orders = parts.insert id p b.orders; pool = pool; heap = heap })
  unfolding rest
  rest-level s id px qty owner b lvl e = rw e refl

  put_in_place :
      (s : Side) (l : L) (i : I) (a : A) (g : Heap) (b : Book L I A) (own opposite : Groups)
      → Shows s l (entries own)
      → Shows (other s) (opposite_ladder s b) (entries opposite)
      → AllLinked g s own
      → AllLinked g (other s) opposite
      → Common parts Indexes Owns i a (all_cells opposite ++ all_cells own)
      → Represents parts Shows Indexes Owns s own opposite
          (set_own_ladder s l (record b { orders = i; pool = a; heap = g }))
  put_in_place bid l i a g b own opposite x y k j m = record {
    own_shows = x;
    opposite_shows = y;
    own_links = k;
    opposite_links = j;
    common = m;
  }
  put_in_place ask l i a g b own opposite x y k j m = record {
    own_shows = x;
    opposite_shows = y;
    own_links = k;
    opposite_links = j;
    common = m;
  }

  module _ (s : Side) (gs : Groups) (px : ℤ) (cs : List Cell) (hs opposite : Groups)
      (b : Book L I A) (id qty owner : ℕ)
      (h : Represents parts Shows Indexes Owns s (gs ++ regroup px cs hs) opposite b)
      (fits : Fits s px (entries gs) (entries hs)) (band : parts.in_band px (own_ladder s b) ≡ true)
      (real_id : 0 < id) (missing : parts.find id b.orders ≡ none) (positive : 0 < qty)
      (small : qty < 2 ^ 32) where
    abbrev cell : Cell
    cell = record { ptr = (parts.create b.pool).1; id = id; qty = qty; owner = owner }

    abbrev rested : Groups
    rested = gs ++ (px, cs ++ cell ∷ []) ∷ hs

    abbrev before_cells : List Cell
    before_cells = all_cells opposite ++ all_cells gs

    shown : Shows s (own_ladder s b) (entries gs ++ left_level px cs (entries hs))
    shown =
        subst (Shows s (own_ladder s b))
          (entries-append gs (regroup px cs hs)
            ∙ ap (λ es. entries gs ++ es) (entries-regroup px cs hs))
          h.own_shows

    all_Common : Common parts Indexes Owns b.orders b.pool ((before_cells ++ cs) ++ all_cells hs)
    all_Common =
        subst (Common parts Indexes Owns b.orders b.pool)
          (ap (λ ds. all_cells opposite ++ ds) (all_cells-append gs (regroup px cs hs))
            ∙ sym (append_assoc (all_cells opposite) (all_cells gs) (all_cells (regroup px cs hs)))
            ∙ ap (λ ds. before_cells ++ ds) (all_cells-regroup px cs hs)
            ∙ sym (append_assoc before_cells cs (all_cells hs)))
          h.common

    all_cells_cons :
        all_cells gs ++ all_cells ((px, cs ++ cell ∷ []) ∷ hs)
        ≡ all_cells gs ++ ((cs ++ cell ∷ []) ++ all_cells hs)
    unfolding all_cells
    all_cells_cons = refl

    cells_moved :
        (before_cells ++ cs) ++ cell ∷ all_cells hs ≡ all_cells opposite ++ all_cells rested
    cells_moved =
        append_assoc before_cells cs (cell ∷ all_cells hs)
        ∙ ap (λ ds. before_cells ++ ds) (sym (append_assoc cs (cell ∷ []) (all_cells hs)))
        ∙ append_assoc (all_cells opposite) (all_cells gs) ((cs ++ cell ∷ []) ++ all_cells hs)
        ∙ ap (λ ds. all_cells opposite ++ ds)
            (sym (all_cells-append gs ((px, cs ++ cell ∷ []) ∷ hs) ∙ all_cells_cons))

    rested_Common :
        Common parts Indexes Owns
          (parts.insert id cell.ptr b.orders)
          (parts.create b.pool).0
          (all_cells opposite ++ all_cells rested)
    rested_Common =
        subst
          (Common parts Indexes Owns (parts.insert id cell.ptr b.orders) (parts.create b.pool).0)
          cells_moved
          (Common-with b.orders b.pool (before_cells ++ cs) cell (all_cells hs) refl real_id
            (positive, small)
            (sym (
                index.find b.orders (keys ((before_cells ++ cs) ++ all_cells hs)) id
                  all_Common.indexed)
              ∙ missing)
            all_Common)

    links : AllLinked b.heap s gs × AllLinked b.heap s (regroup px cs hs)
    links = AllLinked_split b.heap s gs (regroup px cs hs) h.own_links

    level_links : AreLinked b.heap s px null cs null × AllLinked b.heap s hs
    level_links = regroup_links b.heap s px cs hs links.1

    -- The new order stands between these.
    fresh_cell :
        (0 < cell.ptr)
        × Avoids cell.ptr ((before_cells ++ cs) ++ all_cells hs)
        × Owns (parts.create b.pool).0 (ptrs (before_cells ++ cs) ++ cell.ptr ∷ ptrs (all_cells hs))
    fresh_cell = fresh b.pool (before_cells ++ cs) (all_cells hs) all_Common.owned

    abbrev linked : Level × Heap
    linked = link (level_of px cs) cell.ptr (node s px (back null cs) null cell) b.heap

    before_real : AreReal (before_cells ++ cs)
    before_real = AreReal-append_left (before_cells ++ cs) (all_cells hs) all_Common.real

    before_apart : AreApart (before_cells ++ cs)
    before_apart = AreApart-append_left (before_cells ++ cs) (all_cells hs) all_Common.apart

    level_real : AreReal cs
    level_real = AreReal-append_right before_cells cs before_real

    before-Avoids : Avoids cell.ptr (before_cells ++ cs)
    before-Avoids = Avoids-append_left cell.ptr (before_cells ++ cs) (all_cells hs) fresh_cell.1

    queued : Queued s px (cs ++ cell ∷ []) b.heap linked
    queued =
        link-Queued s px b.heap cs cell level_real
          (AreApart-append_right before_cells cs before_apart)
          (Avoids-append_right cell.ptr before_cells cs before-Avoids) level_links.0

    -- Orders that are neither in the level nor new are as they were.
    others_same :
        (ds : List Cell)
        → All (λ d. Avoids d.ptr cs) ds
        → Avoids cell.ptr ds
        → All (λ d. linked.1 d.ptr ≡ b.heap d.ptr) ds
    others_same [] a f = tt
    others_same (d ∷ ds) a f = (
      queued.same d.ptr (All-append _ cs (cell ∷ []) a.0 ((λ e. f.0 (sym e)), tt)),
      others_same ds a.1 f.1,
    )

    before_same : All (λ d. linked.1 d.ptr ≡ b.heap d.ptr) before_cells
    before_same =
        others_same before_cells (apart_left before_cells cs before_apart)
          (Avoids-append_left cell.ptr before_cells cs before-Avoids)

    after_same : All (λ d. linked.1 d.ptr ≡ b.heap d.ptr) (all_cells hs)
    after_same =
        others_same (all_cells hs)
          (All-map _ _ (λ d out. Avoids-append_right d.ptr before_cells cs out) (all_cells hs)
            (apart_sides (before_cells ++ cs) (all_cells hs) all_Common.apart))
          (Avoids-append_right cell.ptr (before_cells ++ cs) (all_cells hs) fresh_cell.1)

    rested_links : AllLinked linked.1 s rested
    rested_links =
        AllLinked_join linked.1 s gs ((px, cs ++ cell ∷ []) ∷ hs)
          (AllLinked-frame s b.heap linked.1 gs
            (All-append_right _ (all_cells opposite) (all_cells gs) before_same) links.0)
          (
            omega (arith, length-append cs (cell ∷ [])),
            queued.links,
            AllLinked-frame s b.heap linked.1 hs after_same level_links.1,
          )

    opposite_links : AllLinked linked.1 (other s) opposite
    opposite_links =
        AllLinked-frame (other s) b.heap linked.1 opposite
          (All-append_left _ (all_cells opposite) (all_cells gs) before_same) h.opposite_links

    rested_shows :
        let l = parts.put px linked.0 (own_ladder s b) in
        Shows s
          (if (level_of px cs).head == null then parts.on_nonempty px l else l)
          (entries rested)
    rested_shows =
        subst
          (Shows s (
            let l = parts.put px linked.0 (own_ladder s b) in
            if (level_of px cs).head == null then parts.on_nonempty px l else l))
          (sym (entries-append gs ((px, cs ++ cell ∷ []) ∷ hs)))
          (rested_level s px (entries gs) (entries hs) cs cell (own_ladder s b) linked.0
            queued.level (All-append _ cs (cell ∷ []) level_real (fresh_cell.0, tt)) fits band
            shown)

    -- Over any containers that keep their laws, on a book whose linked queues stand for two lists
    -- of price levels, resting an order with a positive quantity below 2^32, a positive id that no
    -- order has and a price in the band puts it at the end of the orders at that price, or on a new
    -- level of its own in its place among the prices; everything else, the other side included,
    -- stands as before.
    pub rest-Represents :
        Represents parts Shows Indexes Owns s rested opposite (rest parts s id px qty owner b)
    rest-Represents =
        subst (Represents parts Shows Indexes Owns s rested opposite)
          (sym (
            rest-level s id px qty owner b (level_of px cs)
              (found_level s px (entries gs) (entries hs) cs (own_ladder s b) fits band shown)))
          (put_in_place s _ _ _ linked.1 b rested opposite rested_shows h.opposite_shows
            rested_links opposite_links rested_Common)
