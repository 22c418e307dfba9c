-- ===== src/OrderBook/Amends.antt =====
-- `modify` of include/lob/order_book.hpp on the branch that amends an order where it stands.
use limit_order_book.Base.{
  ℕ, ◌-◌, ◌<◌, ◌≤◌, ◌^◌, ◌≡◌, ◌≢◌, refl, sym, ap, subst, ◌∙◌, ℤ, true, false, not, ◌&&◌, ◌||◌,
  Option, none, some, List, [], ◌∷◌, ◌++◌, All, All-map, All-append_left, All-append_right,
  append_assoc, arith, length, leb, ◌==◌, eqb_ℤ, sub32, sub32-eq, if◌then◌else◌,
}
use limit_order_book.Types.{Side, bid, ask, gtc, ModifyResult}
use limit_order_book.Fifo.{Ptr, null, Order, Level, Heap, set_qty, sub64}
use limit_order_book.Fifo.Cells.{
  Cell, front, back, node, level_of, Avoids, AreReal, Differ, AreApart, AreApart-append_left,
  Avoids-append_left, AreReal-append_left, AreReal-append_right,
}
use limit_order_book.Fifo.Fills.{with_qty, set_qty-Queued}
use limit_order_book.Fifo.Links.{linked_split}
use limit_order_book.Fifo.Moves.{Queued}
use limit_order_book.Naive.Refinement.{other}
use limit_order_book.Engine.{Parts, Book, own_ladder, opposite_ladder, set_own_ladder}
use limit_order_book.Engine.Execution.{amend, take_out}
use limit_order_book.Engine.Laws.{Entries, LadderLaws, IndexLaws, AllocLaws}
use limit_order_book.Engine.Queues.{Groups, entries, all_cells}
use limit_order_book.Engine.Walking.{keys, ptrs, Common}
use limit_order_book.Engine.Groups.{AllLinked, AllLinked-frame, same_at, apart_sides}
use limit_order_book.Engine.Books.{Represents}
use limit_order_book.Engine.Edits.{
  entries-append, all_cells-append, AllLinked_split, AllLinked_join, apart_left,
}
use limit_order_book.Engine.Places.{all_Common, later_apart, cell-Holds}
use limit_order_book.OrderBook.Cancels.{find-cell}
use limit_order_book.OrderBook.{submit_limit, modify, modify_found}

-- One cell for another in a list of cells.
All-swap :
    (P : Cell → Type 0) (xs : List Cell) (c d : Cell) (ys : List Cell)
    → (P c → P d)
    → All P (xs ++ c ∷ ys)
    → All P (xs ++ d ∷ ys)
All-swap P [] c d ys f h = (f h.0, h.1)
All-swap P (x ∷ xs) c d ys f h = (h.0, All-swap P xs c d ys f h.1)

Differ-swap :
    (f : Cell → ℕ) (xs : List Cell) (c d : Cell) (ys : List Cell)
    → f c ≡ f d
    → Differ f (xs ++ c ∷ ys)
    → Differ f (xs ++ d ∷ ys)
Differ-swap f [] c d ys e h = (subst (λ n. All (λ x. f x ≢ n) ys) e h.0, h.1)
Differ-swap f (x ∷ xs) c d ys e h =
    (All-swap _ xs c d ys (subst (λ n. n ≢ f x) e) h.0, Differ-swap f xs c d ys e h.1)

keys-with_qty :
    (q : ℕ) (xs : List Cell) (c : Cell) (ys : List Cell)
    → keys (xs ++ c ∷ ys) ≡ keys (xs ++ with_qty q c ∷ ys)
keys-with_qty q [] c ys = refl
keys-with_qty q (x ∷ xs) c ys = ap (λ ks. (x.id, x.ptr) ∷ ks) (keys-with_qty q xs c ys)

ptrs-with_qty :
    (q : ℕ) (xs : List Cell) (c : Cell) (ys : List Cell)
    → ptrs (xs ++ c ∷ ys) ≡ ptrs (xs ++ with_qty q c ∷ ys)
ptrs-with_qty q [] c ys = refl
ptrs-with_qty q (x ∷ xs) c ys = ap (λ ps. x.ptr ∷ ps) (ptrs-with_qty q xs c ys)

-- The answer to an amendment in place.
abbrev pub amended : ModifyResult
amended = record { ok = true; filled = 0; rested = true; found = true }

module _ {L I A : Type 0} (parts : Parts L I A) (Shows : Side → L → Entries → Type 0)
    (Indexes : I → List (ℕ × Ptr) → Type 0) (Owns : A → List Ptr → Type 0) where
  Common-with_qty :
      (i : I) (a : A) (q : ℕ) (xs : List Cell) (c : Cell) (ys : List Cell)
      → 0 < q
      → q ≤ c.qty
      → Common parts Indexes Owns i a (xs ++ c ∷ ys)
      → Common parts Indexes Owns i a (xs ++ with_qty q c ∷ ys)
  Common-with_qty i a q xs c ys some_qty le k = record {
    indexed = subst (Indexes i) (keys-with_qty q xs c ys) k.indexed;
    owned = subst (Owns a) (ptrs-with_qty q xs c ys) k.owned;
    real = All-swap _ xs c (with_qty q c) ys (λ r. r) k.real;
    apart = Differ-swap _ xs c (with_qty q c) ys refl k.apart;
    differ = Differ-swap _ xs c (with_qty q c) ys refl k.differ;
    holds = All-swap _ xs c (with_qty q c) ys (λ r. (some_qty, omega (arith, r.1))) k.holds;
  }

  -- A book with one ladder and the heap written.
  rewritten :
      (s : Side) (l : L) (heap : Heap) (b : Book L I A) (own opposite : Groups)
      → Shows s l (entries own)
      → Shows (other s) (opposite_ladder s b) (entries opposite)
      → AllLinked heap s own
      → AllLinked heap (other s) opposite
      → Common parts Indexes Owns b.orders b.pool (all_cells opposite ++ all_cells own)
      → Represents parts Shows Indexes Owns s own opposite
          (set_own_ladder s l (record b { heap = heap }))
  rewritten bid l heap b own opposite a o k j m = record {
    own_shows = a;
    opposite_shows = o;
    own_links = k;
    opposite_links = j;
    common = m;
  }
  rewritten ask l heap b own opposite a o k j m = record {
    own_shows = a;
    opposite_shows = o;
    own_links = k;
    opposite_links = j;
    common = m;
  }

  -- `modify` once the index has answered.
  abbrev answered : ℕ → ℤ → ℕ → Book L I A → Option Ptr → Book L I A × ModifyResult
  answered id px q b none = (b, record { ok = false; filled = 0; rested = false; found = false })
  answered id px q b (some p) =
      if q == 0 || not (parts.in_band px b.bids)
      then (b, record { ok = false; filled = 0; rested = false; found = true })
      else modify_found parts id p px q b

  modify-amend :
      (id : ℕ) (p : Ptr) (s : Side) (px : ℤ) (prev next : Ptr) (c : Cell) (q : ℕ) (b : Book L I A)
      → parts.find id b.orders ≡ some p
      → b.heap p ≡ node s px prev next c
      → parts.in_band px b.bids ≡ true
      → 0 < q
      → q ≤ c.qty
      → modify parts id px q b ≡ (amend parts p q b, amended)
  unfolding modify modify_found
  modify-amend id p s px prev next c q b found e band some_qty le =
      let good : (q == 0 || not (parts.in_band px b.bids)) ≡ false = ground (arith, band) in
      let stays : (eqb_ℤ px px && leb q c.qty) ≡ true = ground arith in
      ap (answered id px q b) found
      ∙ (rw good (
          ap
            (λ (o : Order).
              if eqb_ℤ px o.price && leb q o.qty
              then (amend parts p q b, amended)
              else (let (b', r) =
                    submit_limit parts id o.side px q gtc o.owner (take_out parts id p b) in
                  (b', record { ok = true; filled = r.filled; rested = r.rested; found = true })))
            e
          ∙ (rw stays refl)))

  module _ (ladder : LadderLaws parts Shows) (index : IndexLaws parts Indexes)
      (alloc : AllocLaws parts Owns) (s : Side) (gs : Groups) (px : ℤ) (xs : List Cell) (c : Cell)
      (ys : List Cell) (hs opposite : Groups) (b : Book L I A)
      (h : Represents parts Shows Indexes Owns s (gs ++ (px, xs ++ c ∷ ys) ∷ hs) opposite b) (q : ℕ)
      (some_qty : 0 < q) (le : q ≤ c.qty) where
    abbrev old_cells : List Cell
    old_cells = xs ++ c ∷ ys

    abbrev new_cells : List Cell
    new_cells = xs ++ with_qty q c ∷ ys

    abbrev ahead : List Cell
    ahead = all_cells opposite ++ all_cells gs

    abbrev new_groups : Groups
    new_groups = gs ++ (px, new_cells) ∷ hs

    common : Common parts Indexes Owns b.orders b.pool (ahead ++ (old_cells ++ all_cells hs))
    common = all_Common parts Shows Indexes Owns ladder index alloc s gs px xs c ys hs opposite b h

    apart : AreApart (old_cells ++ all_cells hs)
    apart = later_apart parts Shows Indexes Owns ladder index alloc s gs px xs c ys hs opposite b h

    links : AllLinked b.heap s gs × AllLinked b.heap s ((px, old_cells) ∷ hs)
    links = AllLinked_split b.heap s gs ((px, old_cells) ∷ hs) h.own_links

    fits : c.qty < 2 ^ 32
    fits =
        (cell-Holds parts Shows Indexes Owns ladder index alloc s gs px xs c ys hs opposite b h).1

    abbrev new_level : Level
    new_level =
        let lvl = level_of px old_cells in
        record lvl { total_qty = sub64 lvl.total_qty (c.qty - q) }

    abbrev new_heap : Heap
    new_heap = set_qty c.ptr q b.heap

    queued : Queued s px new_cells b.heap (new_level, new_heap)
    queued =
        set_qty-Queued s px b.heap xs c ys q (AreApart-append_left old_cells (all_cells hs) apart)
          le fits links.1.1

    others_kept :
        (ds : List Cell)
        → All (λ d. Avoids d.ptr old_cells) ds
        → All (λ d. new_heap d.ptr ≡ b.heap d.ptr) ds
    others_kept ds a =
        same_at new_cells b.heap new_heap queued.same ds
          (All-map _ _ (λ d out. All-swap _ xs c (with_qty q c) ys (λ r. r) out) ds a)

    ahead_kept : All (λ d. new_heap d.ptr ≡ b.heap d.ptr) ahead
    ahead_kept = others_kept ahead (
        All-map _ _ (λ d out. Avoids-append_left d.ptr old_cells (all_cells hs) out) ahead
          (apart_left ahead (old_cells ++ all_cells hs) common.apart))

    new_links : AllLinked new_heap s new_groups
    new_links =
        AllLinked_join new_heap s gs ((px, new_cells) ∷ hs)
          (AllLinked-frame s b.heap new_heap gs
            (All-append_right _ (all_cells opposite) (all_cells gs) ahead_kept) links.0)
          (
            some_cell xs,
            queued.links,
            AllLinked-frame s b.heap new_heap hs
                (others_kept (all_cells hs) (apart_sides old_cells (all_cells hs) apart)) links.1.2,
          )
      where
        some_cell : (xs : List Cell) → 0 < length (xs ++ with_qty q c ∷ ys)
        some_cell [] = omega arith
        some_cell (x ∷ xs) = omega arith

    amended-Common :
        Common parts Indexes Owns b.orders b.pool (all_cells opposite ++ all_cells new_groups)
    unfolding all_cells
    amended-Common =
        subst (Common parts Indexes Owns b.orders b.pool) (sym (regrouped (with_qty q c))) (
          Common-with_qty b.orders b.pool q (ahead ++ xs) c (ys ++ all_cells hs) some_qty le
            (subst (Common parts Indexes Owns b.orders b.pool) (regrouped c) h.common))
      where
        regrouped :
            (d : Cell)
            → all_cells opposite ++ all_cells (gs ++ (px, xs ++ d ∷ ys) ∷ hs)
              ≡ (ahead ++ xs) ++ d ∷ (ys ++ all_cells hs)
        regrouped d =
            ap (λ cs. all_cells opposite ++ cs) (all_cells-append gs ((px, xs ++ d ∷ ys) ∷ hs))
            ∙ sym (append_assoc (all_cells opposite) (all_cells gs) _)
            ∙ ap (λ cs. ahead ++ cs) (append_assoc xs (d ∷ ys) (all_cells hs))
            ∙ sym (append_assoc ahead xs (d ∷ (ys ++ all_cells hs)))

    old_shows : Shows s (own_ladder s b) (entries gs ++ (px, level_of px old_cells) ∷ entries hs)
    old_shows =
        subst (Shows s (own_ladder s b)) (entries-append gs ((px, old_cells) ∷ hs)) h.own_shows

    new_shows : Shows s (parts.put px new_level (own_ladder s b)) (entries new_groups)
    unfolding front
    new_shows =
        subst (λ (lvl : Level). Shows s (parts.put px lvl (own_ladder s b)) (entries new_groups))
          (sym queued.level)
          (subst (Shows s (parts.put px (level_of px new_cells) (own_ladder s b)))
            (sym (entries-append gs ((px, new_cells) ∷ hs)))
            (ladder.put_in s (own_ladder s b) (entries gs) px (level_of px old_cells)
              (level_of px new_cells) (entries hs) old_shows (some_head xs real)))
      where
        real : AreReal old_cells
        real =
            AreReal-append_left old_cells (all_cells hs)
              (AreReal-append_right ahead (old_cells ++ all_cells hs) common.real)

        some_head :
            (xs : List Cell) → AreReal (xs ++ c ∷ ys) → front (xs ++ with_qty q c ∷ ys) null ≢ null
        some_head [] r = λ e. let first = r.0 in absurd (omega (arith, first, e))
        some_head (x ∷ xs) r = λ e. let first = r.0 in absurd (omega (arith, first, e))

    at_cell : b.heap c.ptr ≡ node s px (back null xs) (front ys null) c
    at_cell = (linked_split s px b.heap null xs (c ∷ ys) null links.1.1).1.0

    amend-closed :
        amend parts c.ptr q b
        ≡ set_own_ladder s (parts.put px new_level (own_ladder s b)) (record b { heap = new_heap })
    unfolding amend
    amend-closed =
        ap
          (λ (o : Order).
            let lvl = parts.at o.level.1 (own_ladder o.level.0 b) in
            set_own_ladder o.level.0
              (parts.put o.level.1 (record lvl { total_qty = sub64 lvl.total_qty (sub32 o.qty q) })
                (own_ladder o.level.0 b))
              (record b { heap = new_heap }))
          at_cell
        ∙ ap
            (λ (lvl : Level).
              set_own_ladder s
                (parts.put px (record lvl { total_qty = sub64 lvl.total_qty (sub32 c.qty q) })
                  (own_ladder s b))
                (record b { heap = new_heap }))
            (ladder.at_in s (own_ladder s b) (entries gs) px (level_of px old_cells) (entries hs)
              old_shows)
        ∙ ap
            (λ n.
              let lvl = level_of px old_cells in
              set_own_ladder s
                (parts.put px (record lvl { total_qty = sub64 lvl.total_qty n }) (own_ladder s b))
                (record b { heap = new_heap }))
            (sub32-eq c.qty q le fits)

    amend-Represents :
        Represents parts Shows Indexes Owns s new_groups opposite (amend parts c.ptr q b)
    amend-Represents =
        subst (Represents parts Shows Indexes Owns s new_groups opposite) (sym amend-closed) (
          rewritten s _ new_heap b new_groups opposite new_shows h.opposite_shows new_links
            (AllLinked-frame (other s) b.heap new_heap opposite
              (All-append_left _ (all_cells opposite) (all_cells gs) ahead_kept) h.opposite_links)
            amended-Common)

    -- Over any containers that keep their laws, on a book whose linked queues stand for two lists
    -- of price levels, modifying a resting order at its own price, which the engine's band has, to
    -- a positive quantity no larger than it has, answers that it rests with nothing filled, and
    -- leaves a book that stands for the same levels with that quantity in the order's own place and
    -- all else as it was.
    pub modify-Represents :
        parts.in_band px b.bids ≡ true
        → let (b', r) = modify parts c.id px q b in
          (r ≡ amended) × Represents parts Shows Indexes Owns s new_groups opposite b'
    modify-Represents band =
        let found =
          find-cell parts Shows Indexes Owns ladder index alloc s gs px xs c ys hs opposite b h in
        subst
          (λ (r : Book L I A × ModifyResult).
            (r.1 ≡ amended) × Represents parts Shows Indexes Owns s new_groups opposite r.0)
          (sym (
            modify-amend c.id c.ptr s px (back null xs) (front ys null) c q b found at_cell band
              some_qty le))
          (refl, amend-Represents)
