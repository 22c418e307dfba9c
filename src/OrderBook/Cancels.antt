-- ===== src/OrderBook/Cancels.antt =====
-- `cancel` of include/lob/order_book.hpp finds the order by its id and takes it out of the middle of
-- its queue.
use limit_order_book.Base.{
  ℕ, ◌≡◌, refl, sym, ap, subst, ◌∙◌, ℤ, Bool, true, false, Option, none, some, List, [], ◌∷◌, ◌++◌,
  All-append_right, arith, lookup, ◌==◌, append_assoc,
}
use limit_order_book.Types.{Side}
use limit_order_book.Fifo.{Ptr}
use limit_order_book.Fifo.Cells.{Cell, Differ}
use limit_order_book.Engine.{Parts, Book}
use limit_order_book.Engine.Execution.{take_out}
use limit_order_book.Engine.Laws.{Entries, LadderLaws, IndexLaws, AllocLaws}
use limit_order_book.Engine.Queues.{Groups, all_cells, regroup}
use limit_order_book.Engine.Walking.{keys, Common}
use limit_order_book.Engine.Books.{Represents}
use limit_order_book.Engine.Places.{take_out-Represents, all_Common}
use limit_order_book.OrderBook.{cancel}

-- Ids differ, so the lookup gives the address of just this order.
pub lookup-keys :
    (xs : List Cell) (c : Cell) (ys : List Cell)
    → Differ (λ c. c.id) (xs ++ c ∷ ys)
    → lookup ◌==◌ c.id (keys (xs ++ c ∷ ys)) ≡ some c.ptr
unfolding lookup
lookup-keys [] c ys d = let same : (c.id == c.id) ≡ true = ground arith in rw same refl
lookup-keys (x ∷ xs) c ys d =
    let differ = (All-append_right _ xs (c ∷ ys) d.0).0 in
    let other : (x.id == c.id) ≡ false = ground arith in rw other (lookup-keys xs c ys d.1)

module _ {L I A : Type 0} (parts : Parts L I A) where
  abbrev cancelled : ℕ → Book L I A → Option Ptr → Book L I A × Bool
  cancelled id b none = (b, false)
  cancelled id b (some p) = (take_out parts id p b, true)

  cancel-some :
      (id : ℕ) (p : Ptr) (b : Book L I A)
      → parts.find id b.orders ≡ some p
      → cancel parts id b ≡ (take_out parts id p b, true)
  unfolding cancel
  cancel-some id p b e = ap (cancelled id b) e

  cancel-none :
      (id : ℕ) (b : Book L I A) → parts.find id b.orders ≡ none → cancel parts id b ≡ (b, false)
  unfolding cancel
  cancel-none id b e = ap (cancelled id b) e

  module _ (Shows : Side → L → Entries → Type 0) (Indexes : I → List (ℕ × Ptr) → Type 0)
      (Owns : A → List Ptr → Type 0) (ladder : LadderLaws parts Shows)
      (index : IndexLaws parts Indexes) (alloc : AllocLaws parts Owns) where
    -- The index answers with the order's address, wherever the order stands.
    pub find-cell :
        (s : Side) (gs : Groups) (px : ℤ) (xs : List Cell) (c : Cell) (ys : List Cell)
        (hs opposite : Groups) (b : Book L I A)
        → Represents parts Shows Indexes Owns s (gs ++ (px, xs ++ c ∷ ys) ∷ hs) opposite b
        → parts.find c.id b.orders ≡ some c.ptr
    find-cell s gs px xs c ys hs opposite b h =
        let k =
          all_Common parts Shows Indexes Owns ladder index alloc s gs px xs c ys hs opposite b h in
        let front = all_cells opposite ++ all_cells gs in
        let moved : front ++ ((xs ++ c ∷ ys) ++ all_cells hs)
            ≡ (front ++ xs) ++ c ∷ (ys ++ all_cells hs) =
          ap (λ cs. front ++ cs) (append_assoc xs (c ∷ ys) (all_cells hs))
          ∙ sym (append_assoc front xs (c ∷ (ys ++ all_cells hs))) in
        let k' = subst (Common parts Indexes Owns b.orders b.pool) moved k in
        index.find b.orders (keys ((front ++ xs) ++ c ∷ (ys ++ all_cells hs))) c.id k'.indexed
        ∙ lookup-keys (front ++ xs) c (ys ++ all_cells hs) k'.differ

    -- Over any containers that keep their laws, on a book whose linked queues stand for two lists
    -- of price levels, cancelling the id of a resting order, wherever it stands in its queue,
    -- answers true and leaves a book that stands for the same levels without that order, and
    -- without its level if it was alone there.
    pub cancel-Represents :
        (s : Side) (gs : Groups) (px : ℤ) (xs : List Cell) (c : Cell) (ys : List Cell)
        (hs opposite : Groups) (b : Book L I A)
        → Represents parts Shows Indexes Owns s (gs ++ (px, xs ++ c ∷ ys) ∷ hs) opposite b
        → let (b', ok) = cancel parts c.id b in
          (ok ≡ true)
          × Represents parts Shows Indexes Owns s (gs ++ regroup px (xs ++ ys) hs) opposite b'
    cancel-Represents s gs px xs c ys hs opposite b h =
        let found = find-cell s gs px xs c ys hs opposite b h in
        let e = cancel-some c.id c.ptr b found in
        subst
          (λ (r : Book L I A × Bool).
            (r.1 ≡ true)
            × Represents parts Shows Indexes Owns s (gs ++ regroup px (xs ++ ys) hs) opposite r.0)
          (sym e)
          (
            refl,
            take_out-Represents parts Shows Indexes Owns ladder index alloc s gs px xs c ys hs
                opposite b h,
          )
