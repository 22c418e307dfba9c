-- ===== src/OrderBook/Audit/Levels.antt =====
-- What the audit of include/lob/order_book.hpp finds at a price, and what it has counted below one.
use limit_order_book.Base.{
  ℕ, ◌+◌, ◌≤◌, ◌≡◌, refl, sym, ap, subst, ◌∙◌, ℤ, pos, ◌<ℤ◌, eqb_ℤ, ltb_ℤ, Bool, true, false, not,
  List, [], ◌∷◌, All, All-map, All-append_left, All-append_right, length, length-append, arith,
  lookup, if◌then◌else◌, ◌||◌, Bool-cases, inl, inr,
}
use limit_order_book.Types.{Side, bid, ask, no_price}
use limit_order_book.Naive.Sides.{before}
use limit_order_book.Fifo.{null, Heap}
use limit_order_book.Fifo.Cells.{Cell, level_of}
use limit_order_book.Fifo.Links.{AreLinked}
use limit_order_book.Engine.Laws.{IsOrdered, first_price}
use limit_order_book.Engine.Entries.{Later, before-eqb, before_trans}
use limit_order_book.Engine.Queues.{Groups, entries, all_cells}
use limit_order_book.Engine.Groups.{AllLinked}
use limit_order_book.FlatLadder.Contents.{is_there, level_or}
use limit_order_book.FlatLadder.Changes.{clear_level-nil}
use limit_order_book.OrderBook.Audit.{next_best}

-- The orders at a price, none if the price has no level.
unfoldable pub cells_at : ℤ → Groups → List Cell
cells_at q [] = []
cells_at q ((p, cs) ∷ gs) = if eqb_ℤ p q then cs else cells_at q gs

-- The orders below a price, and the best price below it.
unfoldable pub count_below : ℤ → Groups → ℕ
count_below q [] = 0
count_below q ((p, cs) ∷ gs) =
    let rest = count_below q gs in if ltb_ℤ p q then length cs + rest else rest

unfoldable pub best_below : ℤ → Groups → ℤ
best_below q [] = no_price
best_below q ((p, cs) ∷ gs) = if ltb_ℤ p q then p else best_below q gs

abbrev pub is_nil : List Cell → Bool
is_nil [] = true
is_nil (_ ∷ _) = false

-- Every level has an order.
abbrev pub AreFull : Groups → Type 0
AreFull [] = Unit
AreFull ((px, cs) ∷ gs) = (is_nil cs ≡ false) × AreFull gs

pub AllLinked-AreFull : (h : Heap) (s : Side) (gs : Groups) → AllLinked h s gs → AreFull gs
AllLinked-AreFull h s [] l = tt
AllLinked-AreFull h s ((px, []) ∷ gs) l = absurd (omega (arith, l.0))
AllLinked-AreFull h s ((px, c ∷ cs) ∷ gs) l = (refl, AllLinked-AreFull h s gs l.2)

module _ (q : ℤ) where
  pub level-cells_at :
      (gs : Groups) → level_or q (lookup eqb_ℤ q (entries gs)) ≡ level_of q (cells_at q gs)
  unfolding lookup cells_at
  level-cells_at [] = sym (clear_level-nil q)
  level-cells_at ((p, cs) ∷ gs) = elim (Bool-cases (eqb_ℤ p q)) [
    | inl same ↦ let here : p ≡ q = ground (arith, same) in rw (same, here) refl
    | inr other ↦ rw other (level-cells_at gs)
  ]

  pub is_there-cells_at :
      (gs : Groups)
      → AreFull gs
      → is_there (lookup eqb_ℤ q (entries gs)) ≡ not (is_nil (cells_at q gs))
  unfolding lookup cells_at
  is_there-cells_at [] f = refl
  is_there-cells_at ((p, cs) ∷ gs) f = elim (Bool-cases (eqb_ℤ p q)) [
    | inl same ↦ rw (same, f.0) refl
    | inr other ↦ rw other (is_there-cells_at gs f.1)
  ]

  pub links-cells_at :
      (h : Heap) (s : Side) (gs : Groups)
      → AllLinked h s gs
      → AreLinked h s q null (cells_at q gs) null
  unfolding cells_at
  links-cells_at h s [] l = tt
  links-cells_at h s ((p, cs) ∷ gs) l = elim (Bool-cases (eqb_ℤ p q)) [
    | inl same ↦
        let here : p ≡ q = ground (arith, same) in
        rw same (subst (λ p. AreLinked h s p null cs null) here l.1)
    | inr other ↦ rw other (links-cells_at h s gs l.2)
  ]

  pub length-cells_at : (gs : Groups) → length (cells_at q gs) ≤ length (all_cells gs)
  unfolding cells_at all_cells
  length-cells_at [] = omega arith
  length-cells_at ((p, cs) ∷ gs) =
      let sum = length-append cs (all_cells gs) in
      elim (Bool-cases (eqb_ℤ p q)) [
        | inl same ↦ rw same (omega (arith, sum))
        | inr other ↦ rw other (omega (arith, sum, length-cells_at gs))
      ]

  pub All-cells_at {κ} :
      (P : Cell → Type κ) (gs : Groups) → All P (all_cells gs) → All P (cells_at q gs)
  unfolding cells_at all_cells
  All-cells_at P [] a = tt
  All-cells_at P ((p, cs) ∷ gs) a = elim (Bool-cases (eqb_ℤ p q)) [
    | inl same ↦ rw same (All-append_left P cs (all_cells gs) a)
    | inr other ↦ rw other (All-cells_at P gs (All-append_right P cs (all_cells gs) a))
  ]

-- The count and the best price when a price comes below.
module _ (q q' : ℤ) (next : (p : ℤ) → ltb_ℤ p q' ≡ (ltb_ℤ p q || eqb_ℤ p q)) where
  away : (s : Side) (gs : Groups) → Later s q (entries gs) → cells_at q gs ≡ []
  unfolding cells_at
  away s [] l = refl
  away s ((p, cs) ∷ gs) l = rw ((before-eqb s q p l.0).1) (away s gs l.1)

  pub count_below-step :
      (s : Side) (gs : Groups)
      → IsOrdered s (entries gs)
      → count_below q' gs ≡ count_below q gs + length (cells_at q gs)
  unfolding count_below cells_at
  count_below-step s [] o = omega arith
  count_below-step s ((p, cs) ∷ gs) o =
      let rest = count_below-step s gs o.1 in
      elim (Bool-cases (eqb_ℤ p q)) [
        | inl same ↦
            let here : p ≡ q = ground (arith, same) in
            let none : cells_at q gs ≡ [] =
              away s gs (subst (λ p. Later s p (entries gs)) here o.0) in
            let none' : length (cells_at q gs) ≡ 0 = ap length none in
            let below : ltb_ℤ p q ≡ false = ground (arith, same) in
            rw (next p, same, below) (omega (arith, rest, none'))
        | inr other ↦ elim (Bool-cases (ltb_ℤ p q)) [
          | inl below ↦ rw (next p, other, below) (omega (arith, rest))
          | inr above ↦ rw (next p, other, above) rest
        ]
      ]

  abbrev with_best : Side → ℤ → List Cell → ℤ
  with_best s best cs = if is_nil cs then best else next_best s q best

  best_below-Later : (gs : Groups) → Later ask q (entries gs) → best_below q gs ≡ no_price
  unfolding best_below before
  best_below-Later [] l = refl
  best_below-Later ((p, cs) ∷ gs) l =
      let above : ltb_ℤ p q ≡ false = let later = l.0 in ground arith in
      rw above (best_below-Later gs l.1)

  same_best :
      (s : Side) (p : ℤ) (gs : Groups)
      → p ≡ q
      → Later s p (entries gs)
      → p ≡ next_best s q (best_below q gs)
  same_best bid p gs e l = e
  same_best ask p gs e l =
      e
      ∙ ap (next_best ask q) (sym (best_below-Later gs (subst (λ p. Later ask p (entries gs)) e l)))

  lower_best :
      (s : Side) (p : ℤ) (gs : Groups)
      → ltb_ℤ p q ≡ true
      → pos 0 <ℤ p
      → Later s p (entries gs)
      → p ≡ with_best s p (cells_at q gs)
  lower_best bid p gs e a l =
      let first : before bid q p ≡ true = unfold before in e in
      let none =
        away bid gs (All-map _ _ (λ y k. before_trans bid q p y.0 first k) (entries gs) l) in
      rw none refl
  lower_best ask p gs e a l =
      let some_price : eqb_ℤ p no_price ≡ false = ground arith in
      kept_best (is_nil (cells_at q gs)) some_price
    where
      kept_best : (b : Bool) → eqb_ℤ p no_price ≡ false → p ≡ (if b then p else next_best ask q p)
      kept_best true n = refl
      kept_best false n = rw n refl

  pub best_below-step :
      (s : Side) (gs : Groups)
      → IsOrdered s (entries gs)
      → AreFull gs
      → All (λ e. pos 0 <ℤ e.0) (entries gs)
      → best_below q' gs ≡ with_best s (best_below q gs) (cells_at q gs)
  unfolding best_below cells_at
  best_below-step s [] o f a = refl
  best_below-step s ((p, cs) ∷ gs) o f a = elim (Bool-cases (eqb_ℤ p q)) [
    | inl same ↦
        let here : p ≡ q = ground (arith, same) in
        let below : ltb_ℤ p q ≡ false = ground (arith, same) in
        rw (next p, same, below, f.0) (same_best s p gs here o.0)
    | inr other ↦ elim (Bool-cases (ltb_ℤ p q)) [
      | inl below ↦ rw (next p, other, below) (lower_best s p gs below a.0 o.0)
      | inr above ↦ rw (next p, other, above) (best_below-step s gs o.1 f.1 a.1)
    ]
  ]

-- The whole side lies below the end of the band, and nothing of it below its start.
pub all_below :
    (q : ℤ) (gs : Groups)
    → All (λ e. ltb_ℤ e.0 q ≡ true) (entries gs)
    → (count_below q gs ≡ length (all_cells gs)) × (best_below q gs ≡ first_price (entries gs))
unfolding count_below best_below all_cells
all_below q [] a = (refl, refl)
all_below q ((p, cs) ∷ gs) a =
    let rest = all_below q gs a.1 in
    (rw (a.0) (omega (arith, rest.0, length-append cs (all_cells gs))), rw (a.0) refl)

pub none_below :
    (q : ℤ) (gs : Groups)
    → All (λ e. ltb_ℤ e.0 q ≡ false) (entries gs)
    → (count_below q gs ≡ 0) × (best_below q gs ≡ no_price)
unfolding count_below best_below
none_below q [] a = (refl, refl)
none_below q ((p, cs) ∷ gs) a =
    let rest = none_below q gs a.1 in (rw (a.0) (rest.0), rw (a.0) (rest.1))
