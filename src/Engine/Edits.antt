-- ===== src/Engine/Edits.antt =====
-- Lists of groups and of cells, joined, and with one cell more or less.
use limit_order_book.Base.{
  ℕ, ◌≡◌, refl, sym, ap, ◌∙◌, List, [], ◌∷◌, ◌++◌, All, append_assoc, ◌≢◌, ℤ, Bool, true, false,
  Option, none, some, arith, lookup, ◌==◌, if◌then◌else◌,
}
use limit_order_book.Types.{Side}
use limit_order_book.Fifo.{Heap, Ptr, null}
use limit_order_book.Fifo.Cells.{Cell, level_of, Avoids, AreApart, Differ, Avoids-append_right}
use limit_order_book.Engine.Queues.{Groups, entries, all_cells, regroup}
use limit_order_book.Engine.Walking.{keys, ptrs}
use limit_order_book.Engine.Groups.{AllLinked}
use limit_order_book.Fifo.Links.{AreLinked}

pub entries-append : (gs hs : Groups) → entries (gs ++ hs) ≡ entries gs ++ entries hs
entries-append [] hs = refl
entries-append ((px, cs) ∷ gs) hs = ap (λ es. (px, level_of px cs) ∷ es) (entries-append gs hs)

pub all_cells-append : (gs hs : Groups) → all_cells (gs ++ hs) ≡ all_cells gs ++ all_cells hs
unfolding all_cells
all_cells-append [] hs = refl
all_cells-append ((px, cs) ∷ gs) hs =
    ap (λ ds. cs ++ ds) (all_cells-append gs hs)
    ∙ sym (append_assoc cs (all_cells gs) (all_cells hs))

pub AllLinked_split :
    (h : Heap) (o : Side) (gs hs : Groups)
    → AllLinked h o (gs ++ hs)
    → AllLinked h o gs × AllLinked h o hs
AllLinked_split h o [] hs l = (tt, l)
AllLinked_split h o ((px, cs) ∷ gs) hs l =
    let r = AllLinked_split h o gs hs l.2 in ((l.0, l.1, r.0), r.1)

pub AllLinked_join :
    (h : Heap) (o : Side) (gs hs : Groups)
    → AllLinked h o gs
    → AllLinked h o hs
    → AllLinked h o (gs ++ hs)
AllLinked_join h o [] hs l k = k
AllLinked_join h o ((px, cs) ∷ gs) hs l k = (l.0, l.1, AllLinked_join h o gs hs l.2 k)

pub keys-append : (xs ys : List Cell) → keys (xs ++ ys) ≡ keys xs ++ keys ys
keys-append [] ys = refl
keys-append (x ∷ xs) ys = ap (λ ks. (x.id, x.ptr) ∷ ks) (keys-append xs ys)

pub ptrs-append : (xs ys : List Cell) → ptrs (xs ++ ys) ≡ ptrs xs ++ ptrs ys
ptrs-append [] ys = refl
ptrs-append (x ∷ xs) ys = ap (λ ps. x.ptr ∷ ps) (ptrs-append xs ys)

pub All-without {κ} :
    (P : Cell → Type κ) (xs : List Cell) (c : Cell) (ys : List Cell)
    → All P (xs ++ c ∷ ys)
    → All P (xs ++ ys)
All-without P [] c ys h = h.1
All-without P (x ∷ xs) c ys h = (h.0, All-without P xs c ys h.1)

pub Differ-without :
    (f : Cell → ℕ) (xs : List Cell) (c : Cell) (ys : List Cell)
    → Differ f (xs ++ c ∷ ys)
    → Differ f (xs ++ ys)
Differ-without f [] c ys h = h.1
Differ-without f (x ∷ xs) c ys h = (All-without _ xs c ys h.0, Differ-without f xs c ys h.1)

pub apart_left : (cs ds : List Cell) → AreApart (cs ++ ds) → All (λ c. Avoids c.ptr ds) cs
apart_left [] ds a = tt
apart_left (c ∷ cs) ds a = (Avoids-append_right c.ptr cs ds a.0, apart_left cs ds a.1)

pub All-with {κ} :
    (P : Cell → Type κ) (xs : List Cell) (c : Cell) (ys : List Cell)
    → P c
    → All P (xs ++ ys)
    → All P (xs ++ c ∷ ys)
All-with P [] c ys p h = (p, h)
All-with P (x ∷ xs) c ys p h = (h.0, All-with P xs c ys p h.1)

pub Differ-with :
    (f : Cell → ℕ) (xs : List Cell) (c : Cell) (ys : List Cell)
    → All (λ d. f d ≢ f c) (xs ++ ys)
    → Differ f (xs ++ ys)
    → Differ f (xs ++ c ∷ ys)
Differ-with f [] c ys a h = (a, h)
Differ-with f (x ∷ xs) c ys a h =
    (All-with _ xs c ys (λ e. a.0 (sym e)) h.0, Differ-with f xs c ys a.1 h.1)

pub ptrs-Avoids : (p : Ptr) (cs : List Cell) → All (λ q. q ≢ p) (ptrs cs) → Avoids p cs
ptrs-Avoids p [] h = tt
ptrs-Avoids p (c ∷ cs) h = (h.0, ptrs-Avoids p cs h.1)

pub missing_if :
    (t : Bool) (p : Ptr) (o : Option Ptr)
    → (if t then some p else o) ≡ none
    → (t ≡ false) × (o ≡ none)
missing_if true p o e = absurd (cc e)
missing_if false p o e = (refl, e)

-- An id that the index does not find is that of no order.
pub missing_id :
    (id : ℕ) (cs : List Cell) → lookup ◌==◌ id (keys cs) ≡ none → All (λ c. c.id ≢ id) cs
unfolding lookup
missing_id id [] e = tt
missing_id id (c ∷ cs) e =
    let r = missing_if (c.id == id) c.ptr _ e in
    let other_id = r.0 in (λ same. absurd (ground (arith, other_id, same)), missing_id id cs r.1)

pub regroup_links :
    (h : Heap) (s : Side) (px : ℤ) (cs : List Cell) (hs : Groups)
    → AllLinked h s (regroup px cs hs)
    → AreLinked h s px null cs null × AllLinked h s hs
regroup_links h s px [] hs l = (tt, l)
regroup_links h s px (c ∷ cs) hs l = (l.1, l.2)
