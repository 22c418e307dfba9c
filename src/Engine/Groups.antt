-- ===== src/Engine/Groups.antt =====
-- The groups of a side in a heap, and lemmas on groups and their cells.
use limit_order_book.Base.{
  ℕ, ◌-◌, ◌<◌, ◌≤◌, ◌≡◌, refl, sym, subst, ◌∙◌, ℤ, Bool, true, false, ◌||◌, List, [], ◌∷◌, ◌++◌,
  length, length-append, All, All-append_left, All-append_right, arith, ltb, ◌==◌, if◌then◌else◌,
  Bool-cases, inl, inr,
}
use limit_order_book.Types.{Side, Stp}
use limit_order_book.Fifo.{Ptr, null, Heap}
use limit_order_book.Fifo.Cells.{Cell, level_of, Avoids, AreApart, apart_middle, apart_without}
use limit_order_book.Fifo.Links.{AreLinked, AreLinked-frame}
use limit_order_book.Engine.{rejects_incoming}
use limit_order_book.Engine.Laws.{Entries}
use limit_order_book.Engine.Queues.{
  Groups, entries, all_cells, Fill, fill_cells, regroup, is_own_cell, fill-rejected, fill-own,
  fill-part, fill-all, fill-next,
}
use limit_order_book.Engine.Walking.{keys}

-- Every group has an order, and its orders are linked.
abbrev pub AllLinked : Heap → Side → Groups → Type 0
AllLinked h o [] = Unit
AllLinked h o ((px, cs) ∷ gs) = (0 < length cs) × AreLinked h o px null cs null × AllLinked h o gs

pub apart_sides : (cs ds : List Cell) → AreApart (cs ++ ds) → All (λ d. Avoids d.ptr cs) ds
apart_sides cs [] a = tt
apart_sides cs (d ∷ ds) a = (apart_middle cs d ds a, apart_sides cs ds (apart_without cs d ds a))

pub same_at :
    (cs : List Cell) (h g : Heap)
    → ((q : Ptr) → Avoids q cs → g q ≡ h q)
    → (ds : List Cell) → All (λ d. Avoids d.ptr cs) ds
    → All (λ d. g d.ptr ≡ h d.ptr) ds
same_at cs h g same [] a = tt
same_at cs h g same (d ∷ ds) a = (same d.ptr a.0, same_at cs h g same ds a.1)

pub AllLinked-frame :
    (o : Side) (h g : Heap) (gs : Groups)
    → All (λ d. g d.ptr ≡ h d.ptr) (all_cells gs)
    → AllLinked h o gs
    → AllLinked g o gs
unfolding all_cells
AllLinked-frame o h g [] same l = tt
AllLinked-frame o h g ((px, cs) ∷ gs) same l = (
  l.0,
  AreLinked-frame o px h g null cs null (All-append_left _ cs (all_cells gs) same) l.1,
  AllLinked-frame o h g gs (All-append_right _ cs (all_cells gs) same) l.2,
)

pub length-groups :
    (h : Heap) (o : Side) (gs : Groups) → AllLinked h o gs → length gs ≤ length (all_cells gs)
unfolding all_cells
length-groups h o [] l = omega arith
length-groups h o ((px, cs) ∷ gs) l =
    let some_order = l.0 in omega (arith, length-groups h o gs l.2, length-append cs (all_cells gs))

pub length-keys : (cs : List Cell) → length (keys cs) ≡ length cs
length-keys [] = refl
length-keys (c ∷ cs) = omega (arith, length-keys cs)

abbrev pub left_level : ℤ → List Cell → Entries → Entries
left_level px [] es = es
left_level px (c ∷ cs) es = (px, level_of px (c ∷ cs)) ∷ es

pub entries-regroup :
    (px : ℤ) (cells : List Cell) (gs : Groups)
    → entries (regroup px cells gs) ≡ left_level px cells (entries gs)
entries-regroup px [] gs = refl
entries-regroup px (c ∷ cs) gs = refl

pub all_cells-regroup :
    (px : ℤ) (cells : List Cell) (gs : Groups)
    → all_cells (regroup px cells gs) ≡ cells ++ all_cells gs
unfolding all_cells
all_cells-regroup px [] gs = refl
all_cells-regroup px (c ∷ cs) gs = refl

pub AllLinked-regroup :
    (h : Heap) (o : Side) (px : ℤ) (cells : List Cell) (gs : Groups)
    → AreLinked h o px null cells null
    → AllLinked h o gs
    → AllLinked h o (regroup px cells gs)
AllLinked-regroup h o px [] gs l k = k
AllLinked-regroup h o px (c ∷ cs) gs l k = (omega arith, l, k)

pub two_guards {ℓ} :
    {A : Type ℓ} (a b : Bool) (x y : A)
    → (if a then x else if b then x else y) ≡ (if a || b then x else y)
two_guards true b x y = refl
two_guards false b x y = refl

pub not_either : (a b : Bool) → (a || b) ≡ false → (a ≡ false) × (b ≡ false)
not_either false b e = (refl, e)
not_either true b e = absurd (cc e)

pub or_right : (a b : Bool) → a ≡ false → (a || b) ≡ true → b ≡ true
or_right a b e f = let same : (a || b) ≡ b = rw e refl in sym same ∙ f

pub or_left : (a b : Bool) → a ≡ true → (a || b) ≡ true
or_left a b e = rw e refl

pub or_true : (a : Bool) → (a || true) ≡ true
or_true true = refl
or_true false = refl

-- No more is wanted than before, and a fill that still wants some has emptied the level.
abbrev pub IsTame : ℕ → Fill → Type 0
IsTame want f = (f.remaining ≤ want) × (f.stopped ≡ false → 0 < f.remaining → f.cells ≡ [])

module _ (taker owner : ℕ) (stp : Stp) (stp_on : Bool) (px : ℤ) where
  pub fill_cells-IsTame :
      (want : ℕ) (cs : List Cell) → IsTame want (fill_cells taker owner stp stp_on px want cs)
  fill_cells-IsTame want [] = unfold fill_cells in (omega arith, λ going more. refl)
  fill_cells-IsTame want (c ∷ cs) =
      let fill = fill_cells taker owner stp stp_on px in
      let by : (f : Fill)
          → fill want (c ∷ cs) ≡ f
          → IsTame want f
          → IsTame want (fill want (c ∷ cs)) =
        λ f e t. subst (IsTame want) (sym e) t in
      let killed = fill_cells-IsTame want cs in
      let traded = fill_cells-IsTame (want - c.qty) cs in
      elim (Bool-cases (is_own_cell stp_on owner c)) [
        | inl own ↦ elim (Bool-cases (rejects_incoming stp)) [
          | inl rejects ↦
              by _ (fill-rejected taker owner stp stp_on px want c cs own rejects)
                (omega arith, λ going more. absurd (cc going))
          | inr kills ↦ by _ (fill-own taker owner stp stp_on px want c cs own kills) killed
        ]
        | inr foreign ↦ elim (Bool-cases (ltb want c.qty)) [
          | inl less ↦
              by _ (fill-part taker owner stp stp_on px want c cs foreign less)
                (omega arith, λ going more. absurd (omega arith))
          | inr enough ↦ elim (Bool-cases (want == c.qty)) [
            | inl same ↦
                by _ (fill-all taker owner stp stp_on px want c cs foreign enough same)
                  (omega arith, λ going more. absurd (omega arith))
            | inr more ↦
                by _ (fill-next taker owner stp stp_on px want c cs foreign enough more)
                  (omega (arith, traded.0), traded.1)
          ]
        ]
      ]
