-- ===== src/OrderBook/Missing.antt =====
-- Ids that no order of include/lob/order_book.hpp has; matching brings none into the book.
use limit_order_book.Base.{
  ℕ, ◌-◌, ◌≡◌, ◌≢◌, refl, sym, subst, ℤ, ap, Bool, true, Option, some, false, not, none, ◌||◌, List,
  [], ◌∷◌, All, All-append, All-append_left, All-append_right, arith, lookup, ltb, ◌==◌, Bool-cases,
  inl, inr,
}
use limit_order_book.Types.{Side, Stp}
use limit_order_book.Fifo.Cells.{Cell}
use limit_order_book.Fifo.{Ptr}
use limit_order_book.OrderBook.{is_resting}
use limit_order_book.Engine.{Parts, Book, crosses, rejects_incoming}
use limit_order_book.Engine.Groups.{all_cells-regroup}
use limit_order_book.Engine.Queues.{
  Groups, all_cells, Fill, fill_cells, is_own_cell, fill-rejected, fill-own, fill-part, fill-all,
  fill-next, Sweep, sweep, sweep-none, sweep-last, sweep-next,
}
use limit_order_book.Engine.Walking.{keys}

abbrev pub Lacks : ℕ → List Cell → Type 0
Lacks id = All (λ c. c.id ≢ id)

pub Lacks-lookup : (id : ℕ) (cs : List Cell) → Lacks id cs → lookup ◌==◌ id (keys cs) ≡ none
unfolding lookup
Lacks-lookup id [] h = refl
Lacks-lookup id (c ∷ cs) h =
    let differs = h.0 in
    let other : (c.id == id) ≡ false = ground arith in rw other (Lacks-lookup id cs h.1)

module _ (id taker owner : ℕ) (stp : Stp) (stp_on : Bool) where
  fill_cells-Lacks :
      (px : ℤ) (want : ℕ) (cs : List Cell)
      → Lacks id cs
      → Lacks id (fill_cells taker owner stp stp_on px want cs).cells
  unfolding fill_cells
  fill_cells-Lacks px want [] h = tt
  fill_cells-Lacks px want (c ∷ cs) h =
      let fill = fill_cells taker owner stp stp_on px in
      let by : (f : Fill)
          → fill want (c ∷ cs) ≡ f
          → Lacks id f.cells
          → Lacks id (fill want (c ∷ cs)).cells =
        λ f e t. subst (λ (f : Fill). Lacks id f.cells) (sym e) t in
      elim (Bool-cases (is_own_cell stp_on owner c)) [
        | inl own ↦ elim (Bool-cases (rejects_incoming stp)) [
          | inl rejects ↦ by _ (fill-rejected taker owner stp stp_on px want c cs own rejects) h
          | inr kills ↦
              by _ (fill-own taker owner stp stp_on px want c cs own kills)
                (fill_cells-Lacks px want cs h.1)
        ]
        | inr foreign ↦ elim (Bool-cases (ltb want c.qty)) [
          | inl less ↦ by _ (fill-part taker owner stp stp_on px want c cs foreign less) h
          | inr enough ↦ elim (Bool-cases (want == c.qty)) [
            | inl same ↦ by _ (fill-all taker owner stp stp_on px want c cs foreign enough same) h.1
            | inr more ↦
                by _ (fill-next taker owner stp stp_on px want c cs foreign enough more)
                  (fill_cells-Lacks px (want - c.qty) cs h.1)
          ]
        ]
      ]

  pub sweep-Lacks :
      (s : Side) (limit_px : ℤ) (want : ℕ) (gs : Groups)
      → Lacks id (all_cells gs)
      → Lacks id (all_cells (sweep s taker limit_px owner stp stp_on want gs).groups)
  unfolding all_cells sweep
  sweep-Lacks s limit_px want [] h = tt
  sweep-Lacks s limit_px want ((px, cs) ∷ gs) h =
      let f = fill_cells taker owner stp stp_on px want cs in
      let by : (w : Sweep)
          → sweep s taker limit_px owner stp stp_on want ((px, cs) ∷ gs) ≡ w
          → Lacks id (all_cells w.groups)
          → Lacks id
              (all_cells (sweep s taker limit_px owner stp stp_on want ((px, cs) ∷ gs)).groups) =
        λ w e t. subst (λ (w : Sweep). Lacks id (all_cells w.groups)) (sym e) t in
      let level = fill_cells-Lacks px want cs (All-append_left _ cs (all_cells gs) h) in
      let deeper = All-append_right _ cs (all_cells gs) h in
      elim (Bool-cases (want == 0 || not (crosses s px limit_px))) [
        | inl out ↦ by _ (sweep-none s taker limit_px owner stp stp_on want px cs gs out) h
        | inr on ↦ elim (Bool-cases (f.stopped || f.remaining == 0)) [
          | inl last ↦ by _ (sweep-last s taker limit_px owner stp stp_on want px cs gs on last) (
              subst (Lacks id) (sym (all_cells-regroup px f.cells gs))
                (All-append _ f.cells (all_cells gs) level deeper))
          | inr more ↦
              by _ (sweep-next s taker limit_px owner stp stp_on want px cs gs on more)
                (sweep-Lacks s limit_px f.remaining gs deeper)
        ]
      ]

abbrev is_found : Option Ptr → Bool
is_found none = false
is_found (some _) = true

-- An id that the index does not find is not that of a resting order.
pub not_resting-missing :
    {L I A : Type 0} (parts : Parts L I A) (id : ℕ) (b : Book L I A)
    → parts.find id b.orders ≡ none
    → is_resting parts id b ≡ false
not_resting-missing parts id b e = ap is_found e
