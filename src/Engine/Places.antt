-- ===== src/Engine/Places.antt =====
-- A level in the middle of its side, and an order in the middle of its level.
use limit_order_book.Base.{
  ℕ, ◌≡◌, refl, sym, ap, subst, ◌∙◌, ℤ, Bool, true, false, List, ◌∷◌, ◌++◌, All, All-map,
  All-append_left, All-append_right, append_assoc, ◌==◌, if◌then◌else◌,
}
use limit_order_book.Types.{Side, bid, ask}
use limit_order_book.Fifo.{Ptr, null, Order, Level, Heap, unlink}
use limit_order_book.Fifo.Cells.{
  Cell, front, back, node, level_of, Avoids, AreReal, AreApart, AreReal-append_right,
  AreReal-append_left, AreApart-append_left, AreApart-append_right, Avoids-append_left,
  Avoids-without,
}
use limit_order_book.Fifo.Links.{linked_split}
use limit_order_book.Fifo.Moves.{Queued, unlink-Queued}
use limit_order_book.Naive.Refinement.{other}
use limit_order_book.Engine.{Parts, Book, own_ladder, opposite_ladder, set_own_ladder}
use limit_order_book.Engine.Execution.{remove_order, remove_from_book, take_out}
use limit_order_book.Engine.Laws.{Entries, LadderLaws, IndexLaws, AllocLaws}
use limit_order_book.Engine.Queues.{Groups, entries, all_cells, regroup}
use limit_order_book.Engine.Walking.{keys, ptrs, Common, Holds}
use limit_order_book.Engine.Matching.{kept_level}
use limit_order_book.Engine.Groups.{
  AllLinked, AllLinked-frame, AllLinked-regroup, same_at, apart_sides, entries-regroup,
  all_cells-regroup,
}
use limit_order_book.Engine.Books.{Represents}
use limit_order_book.Engine.Edits.{
  entries-append, all_cells-append, AllLinked_split, AllLinked_join, keys-append, ptrs-append,
  All-without, Differ-without, apart_left,
}

module _ {L I A : Type 0} (parts : Parts L I A) (Shows : Side → L → Entries → Type 0)
    (Indexes : I → List (ℕ × Ptr) → Type 0) (Owns : A → List Ptr → Type 0) where
  Common-without :
      IndexLaws parts Indexes
      → AllocLaws parts Owns
      → (i : I) (a : A) (xs : List Cell) (c : Cell) (ys : List Cell)
      → Common parts Indexes Owns i a (xs ++ c ∷ ys)
      → Common parts Indexes Owns (parts.erase c.id i) (parts.destroy c.ptr a) (xs ++ ys)
  Common-without index alloc i a xs c ys k = record {
    indexed = subst (Indexes (parts.erase c.id i)) (sym (keys-append xs ys)) (
        index.erase i (keys xs) c.id c.ptr (keys ys)
          (subst (Indexes i) (keys-append xs (c ∷ ys)) k.indexed));
    owned = subst (Owns (parts.destroy c.ptr a)) (sym (ptrs-append xs ys)) (
        alloc.destroy a (ptrs xs) c.ptr (ptrs ys)
          (subst (Owns a) (ptrs-append xs (c ∷ ys)) k.owned));
    real = All-without _ xs c ys k.real;
    apart = Differ-without _ xs c ys k.apart;
    differ = Differ-without _ xs c ys k.differ;
    holds = All-without _ xs c ys k.holds;
  }

  -- A book once the level is back in its ladder.
  put_back :
      (s : Side) (c : Bool) (l l' : L) (b : Book L I A) (pool : A) (own opposite : Groups)
      → Shows s (if c then l' else l) (entries own)
      → Shows (other s) (opposite_ladder s b) (entries opposite)
      → AllLinked b.heap s own
      → AllLinked b.heap (other s) opposite
      → Common parts Indexes Owns b.orders pool (all_cells opposite ++ all_cells own)
      → let b' = if c then set_own_ladder s l' (set_own_ladder s l b) else set_own_ladder s l b in
        Represents parts Shows Indexes Owns s own opposite (record b' { pool = pool })
  put_back bid true l l' b pool own opposite a o k j m = record {
    own_shows = a;
    opposite_shows = o;
    own_links = k;
    opposite_links = j;
    common = m;
  }
  put_back bid false l l' b pool own opposite a o k j m = record {
    own_shows = a;
    opposite_shows = o;
    own_links = k;
    opposite_links = j;
    common = m;
  }
  put_back ask true l l' b pool own opposite a o k j m = record {
    own_shows = a;
    opposite_shows = o;
    own_links = k;
    opposite_links = j;
    common = m;
  }
  put_back ask false l l' b pool own opposite a o k j m = record {
    own_shows = a;
    opposite_shows = o;
    own_links = k;
    opposite_links = j;
    common = m;
  }

  put_back-pool :
      (s : Side) (c : Bool) (l l' : L) (b : Book L I A)
      → (if c then set_own_ladder s l' (set_own_ladder s l b) else set_own_ladder s l b).pool
        ≡ b.pool
  put_back-pool bid true l l' b = refl
  put_back-pool bid false l l' b = refl
  put_back-pool ask true l l' b = refl
  put_back-pool ask false l l' b = refl

  own_ladder-orders :
      (s : Side) (i : I) (b : Book L I A) → own_ladder s (record b { orders = i }) ≡ own_ladder s b
  own_ladder-orders bid i b = refl
  own_ladder-orders ask i b = refl

  opposite_ladder-moved :
      (s : Side) (i : I) (h : Heap) (b : Book L I A)
      → opposite_ladder s (record b { orders = i; heap = h }) ≡ opposite_ladder s b
  opposite_ladder-moved bid i h b = refl
  opposite_ladder-moved ask i h b = refl

  -- `remove_order` with the level that the ladder has at the price.
  remove_order-level :
      (s : Side) (px : ℤ) (prev next : Ptr) (c : Cell) (lvl : Level) (b : Book L I A)
      → parts.at px (own_ladder s b) ≡ lvl
      → let (lvl', heap) = unlink lvl c.ptr b.heap in
        let l = parts.put px lvl' (own_ladder s b) in
        let b' = record b { heap = heap } in
        remove_order parts (node s px prev next c) c.ptr b ≡ (
          if lvl'.head == null
          then set_own_ladder s (parts.on_empty lvl'.price l) (set_own_ladder s l b')
          else set_own_ladder s l b')
  unfolding remove_order
  remove_order-level bid px prev next c lvl b e = rw e refl
  remove_order-level ask px prev next c lvl b e = rw e refl

  module _ (ladder : LadderLaws parts Shows) (index : IndexLaws parts Indexes)
      (alloc : AllocLaws parts Owns) (s : Side) (gs : Groups) (px : ℤ) (xs : List Cell) (c : Cell)
      (ys : List Cell) (hs opposite : Groups) (b : Book L I A)
      (h : Represents parts Shows Indexes Owns s (gs ++ (px, xs ++ c ∷ ys) ∷ hs) opposite b) where
    abbrev lvl_cells : List Cell
    lvl_cells = xs ++ c ∷ ys

    abbrev before_cells : List Cell
    before_cells = all_cells opposite ++ all_cells gs

    cells_around :
        (rest : Groups)
        → all_cells opposite ++ all_cells (gs ++ rest) ≡ before_cells ++ all_cells rest
    cells_around rest =
        ap (λ cs. all_cells opposite ++ cs) (all_cells-append gs rest)
        ∙ sym (append_assoc (all_cells opposite) (all_cells gs) (all_cells rest))

    cells_cons : (cs : List Cell) → all_cells ((px, cs) ∷ hs) ≡ cs ++ all_cells hs
    unfolding all_cells
    cells_cons cs = refl

    own_split : AllLinked b.heap s gs × AllLinked b.heap s ((px, lvl_cells) ∷ hs)
    own_split = AllLinked_split b.heap s gs ((px, lvl_cells) ∷ hs) h.own_links

    -- All orders, with the level's between.
    pub all_Common :
        Common parts Indexes Owns b.orders b.pool (before_cells ++ (lvl_cells ++ all_cells hs))
    all_Common =
        subst (Common parts Indexes Owns b.orders b.pool)
          (cells_around ((px, lvl_cells) ∷ hs)
            ∙ ap (λ cs. before_cells ++ cs) (cells_cons lvl_cells))
          h.common

    later_real : AreReal (lvl_cells ++ all_cells hs)
    later_real = AreReal-append_right before_cells (lvl_cells ++ all_cells hs) all_Common.real

    pub later_apart : AreApart (lvl_cells ++ all_cells hs)
    later_apart = AreApart-append_right before_cells (lvl_cells ++ all_cells hs) all_Common.apart

    pub cell-Holds : Holds c
    cell-Holds =
        let later = All-append_right _ before_cells (lvl_cells ++ all_cells hs) all_Common.holds in
        (All-append_right _ xs (c ∷ ys) (All-append_left _ lvl_cells (all_cells hs) later)).0

    abbrev taken : Level × Heap
    taken = unlink (level_of px lvl_cells) c.ptr b.heap

    unlinked : Queued s px (xs ++ ys) b.heap taken
    unlinked =
        unlink-Queued s px b.heap xs c ys (AreReal-append_left lvl_cells (all_cells hs) later_real)
          (AreApart-append_left lvl_cells (all_cells hs) later_apart) cell-Holds.1 own_split.1.1

    others_away :
        (ds : List Cell)
        → All (λ d. Avoids d.ptr lvl_cells) ds
        → All (λ d. taken.1 d.ptr ≡ b.heap d.ptr) ds
    others_away ds a =
        same_at (xs ++ ys) b.heap taken.1 unlinked.same ds
          (All-map _ _ (λ d out. Avoids-without d.ptr xs c ys out) ds a)

    before_same : All (λ d. taken.1 d.ptr ≡ b.heap d.ptr) before_cells
    before_same = others_away before_cells (
        All-map _ _ (λ d out. Avoids-append_left d.ptr lvl_cells (all_cells hs) out) before_cells
          (apart_left before_cells (lvl_cells ++ all_cells hs) all_Common.apart))

    abbrev left_groups : Groups
    left_groups = gs ++ regroup px (xs ++ ys) hs

    left_links : AllLinked taken.1 s left_groups
    left_links =
        AllLinked_join taken.1 s gs (regroup px (xs ++ ys) hs)
          (AllLinked-frame s b.heap taken.1 gs
            (All-append_right _ (all_cells opposite) (all_cells gs) before_same) own_split.0)
          (AllLinked-regroup taken.1 s px (xs ++ ys) hs unlinked.links (
            AllLinked-frame s b.heap taken.1 hs
              (others_away (all_cells hs) (apart_sides lvl_cells (all_cells hs) later_apart))
              own_split.1.2))

    opposite_links : AllLinked taken.1 (other s) opposite
    opposite_links =
        AllLinked-frame (other s) b.heap taken.1 opposite
          (All-append_left _ (all_cells opposite) (all_cells gs) before_same) h.opposite_links

    left_Common :
        Common parts Indexes Owns
          (parts.erase c.id b.orders)
          (parts.destroy c.ptr b.pool)
          (all_cells opposite ++ all_cells left_groups)
    left_Common =
        subst (Common parts Indexes Owns (parts.erase c.id b.orders) (parts.destroy c.ptr b.pool))
          (append_assoc before_cells xs (ys ++ all_cells hs)
            ∙ ap (λ cs. before_cells ++ cs) (sym (append_assoc xs ys (all_cells hs)))
            ∙ ap (λ cs. before_cells ++ cs) (sym (all_cells-regroup px (xs ++ ys) hs))
            ∙ sym (cells_around (regroup px (xs ++ ys) hs)))
          (Common-without index alloc b.orders b.pool (before_cells ++ xs) c (ys ++ all_cells hs) (
            subst (Common parts Indexes Owns b.orders b.pool)
              (ap (λ cs. before_cells ++ cs) (append_assoc xs (c ∷ ys) (all_cells hs))
                ∙ sym (append_assoc before_cells xs (c ∷ ys ++ all_cells hs)))
              all_Common))

    shown : Shows s (own_ladder s b) (entries gs ++ (px, level_of px lvl_cells) ∷ entries hs)
    shown = subst (Shows s (own_ladder s b)) (entries-append gs ((px, lvl_cells) ∷ hs)) h.own_shows

    left_shows :
        let l = parts.put px taken.0 (own_ladder s b) in
        Shows s
          (if taken.0.head == null then parts.on_empty taken.0.price l else l)
          (entries left_groups)
    left_shows =
        subst
          (Shows s (
            let l = parts.put px taken.0 (own_ladder s b) in
            if taken.0.head == null then parts.on_empty taken.0.price l else l))
          (ap (λ es. entries gs ++ es) (sym (entries-regroup px (xs ++ ys) hs))
            ∙ sym (entries-append gs (regroup px (xs ++ ys) hs)))
          (kept_level parts Shows Indexes Owns ladder s px (entries gs) (level_of px lvl_cells)
            (entries hs) (xs ++ ys) (own_ladder s b) taken.0 unlinked.level
            (All-without _ xs c ys (AreReal-append_left lvl_cells (all_cells hs) later_real)) shown)

    -- The book with the order gone from the index.
    abbrev unindexed : Book L I A
    unindexed = record b { orders = parts.erase c.id b.orders }

    at_level : parts.at px (own_ladder s unindexed) ≡ level_of px lvl_cells
    at_level =
        ap (parts.at px) (own_ladder-orders s _ b)
        ∙ ladder.at_in s (own_ladder s b) (entries gs) px (level_of px lvl_cells) (entries hs) shown

    cell_order : b.heap c.ptr ≡ node s px (back null xs) (front ys null) c
    cell_order = (linked_split s px b.heap null xs (c ∷ ys) null own_split.1.1).1.0

    abbrev put_shown : L → L
    put_shown l =
        let l' = parts.put px taken.0 l in
        if taken.0.head == null then parts.on_empty taken.0.price l' else l'

    -- The book with the level back in its ladder.
    abbrev closed : Book L I A
    closed =
        let l = parts.put px taken.0 (own_ladder s unindexed) in
        let b' = record unindexed { heap = taken.1 } in
        if taken.0.head == null
        then set_own_ladder s (parts.on_empty taken.0.price l) (set_own_ladder s l b')
        else set_own_ladder s l b'

    removed : remove_from_book parts c.ptr unindexed ≡ closed
    unfolding remove_from_book
    removed =
        ap (λ (o : Order). remove_order parts o c.ptr unindexed) cell_order
        ∙ remove_order-level s px (back null xs) (front ys null) c (level_of px lvl_cells) unindexed
            at_level

    closed-Represents :
        Represents parts Shows Indexes Owns s left_groups opposite
          (record closed { pool = parts.destroy c.ptr b.pool })
    closed-Represents =
        let l = parts.put px taken.0 (own_ladder s unindexed) in
        put_back s (taken.0.head == null) l (parts.on_empty taken.0.price l)
          (record unindexed { heap = taken.1 }) (parts.destroy c.ptr b.pool) left_groups opposite
          (subst (λ l. Shows s (put_shown l) (entries left_groups)) (sym (own_ladder-orders s _ b))
            left_shows)
          (subst (λ l. Shows (other s) l (entries opposite))
            (sym (opposite_ladder-moved s _ taken.1 b)) h.opposite_shows)
          left_links opposite_links left_Common

    pub take_out-Represents :
        Represents parts Shows Indexes Owns s left_groups opposite (take_out parts c.id c.ptr b)
    unfolding take_out
    take_out-Represents =
        let pool_kept : closed.pool ≡ b.pool =
          put_back-pool s (taken.0.head == null) _ _ (record unindexed { heap = taken.1 }) in
        subst
          (λ (b' : Book L I A).
            Represents parts Shows Indexes Owns s left_groups opposite
              (record b' { pool = parts.destroy c.ptr b'.pool }))
          (sym removed)
          (subst
            (λ pool.
              Represents parts Shows Indexes Owns s left_groups opposite
                (record closed { pool = parts.destroy c.ptr pool }))
            (sym pool_kept) closed-Represents)
