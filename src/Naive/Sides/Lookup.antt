-- ===== src/Naive/Sides/Lookup.antt =====
-- The searches of engines/naive_book.hpp by order id, and the sum for fill-or-kill, against the
-- queue of offers.
use mathlib.Core.Option
use limit_order_book.Base.{
  ℕ, ◌+◌, ◌<◌, ◌^◌, ℤ, ◌≡◌, refl, Bool, none, some, List, [], ◌∷◌, ◌++◌, arith, Bool-cases,
  Option-cases, inl, inr, add64-eq,
}
use limit_order_book.Types.{Side}
use limit_order_book.Priority.{Offer, total, reach, find_offer, remove_offer, amend_offer}
use limit_order_book.Priority.Laws.{total-append}
use limit_order_book.Naive.Sides.{
  RestingOrder, Level, BookSide, add_level, walk, erase_level, erase_from, find_level, find,
  amend_level, amend,
}
use limit_order_book.Naive.Sides.Queue.{at_price, queue, IsSide, reach-at_price, reach_stop}
use limit_order_book.Naive.Sides.Edits.{offer}

module _ (id : ℕ) (px : ℤ) (q : List Offer) where
  remove_offer-at_price :
      (lvl : Level)
      → remove_offer id (at_price px lvl ++ q) ≡ elim (erase_level id lvl) [
        | some lvl' ↦ some (at_price px lvl' ++ q)
        | none ↦ Option.map (λ q'. at_price px lvl ++ q') (remove_offer id q)
      ]
  unfolding remove_offer at_price erase_level
  remove_offer-at_price [] = ground arith
  remove_offer-at_price (o ∷ lvl) = ground (arith, remove_offer-at_price lvl)

  find_offer-at_price :
      (lvl : Level)
      → find_offer id (at_price px lvl ++ q)
        ≡ elim (find_level id lvl) [ some o ↦ some (offer px o) | none ↦ find_offer id q ]
  unfolding find_offer at_price find_level
  find_offer-at_price [] = refl
  find_offer-at_price (o ∷ lvl) = ground (arith, find_offer-at_price lvl)

  amend_offer-at_price :
      (qty : ℕ) (lvl : Level)
      → amend_offer id qty (at_price px lvl ++ q) ≡ elim (find_level id lvl) [
        | some o ↦ at_price px (amend_level id qty lvl) ++ q
        | none ↦ at_price px lvl ++ amend_offer id qty q
      ]
  unfolding amend_offer at_price find_level amend_level
  amend_offer-at_price qty [] = refl
  amend_offer-at_price qty (o ∷ lvl) = ground (arith, amend_offer-at_price qty lvl)

-- `erase_from` takes the first order of that id out of the queue, and fails where there is none.
pub erase_from-queue :
    (id : ℕ) (levels : BookSide)
    → Option.map queue (erase_from id levels) ≡ remove_offer id (queue levels)
unfolding erase_from queue remove_offer at_price
erase_from-queue id [] = refl
erase_from-queue id ((px, lvl) ∷ rest) =
    ground (arith, remove_offer-at_price id px (queue rest) lvl, erase_from-queue id rest)

pub find-queue :
    (id : ℕ) (levels : BookSide)
    → Option.map (λ f. offer f.1 f.0) (find id levels) ≡ find_offer id (queue levels)
unfolding find queue find_offer
find-queue id [] = refl
find-queue id ((px, lvl) ∷ rest) =
    ground (arith, find_offer-at_price id px (queue rest) lvl, find-queue id rest)

find_level-id : (id : ℕ) (lvl : Level) (o : RestingOrder) → find_level id lvl ≡ some o → o.id ≡ id
unfolding find_level
find_level-id id [] o e = cc
find_level-id id (x ∷ lvl) o e = ground (arith, find_level-id id lvl o)

-- What `find` finds has the id.
pub find-id :
    (id : ℕ) (levels : BookSide) (f : RestingOrder × ℤ) → find id levels ≡ some f → f.0.id ≡ id
unfolding find
find-id id [] f e = cc
find-id id ((px, lvl) ∷ rest) f e = elim (Option-cases (find_level id lvl)) [
  | inl k ↦ find-id id rest f (rw (k, find) at e)
  | inr (o, k) ↦ ground (arith, find_level-id id lvl o k)
]

pub amend-queue :
    (id qty : ℕ) (levels : BookSide)
    → queue (amend id qty levels) ≡ amend_offer id qty (queue levels)
unfolding amend queue amend_offer
amend-queue id qty [] = refl
amend-queue id qty ((px, lvl) ∷ rest) =
    ground (arith, amend_offer-at_price id px (queue rest) qty lvl, amend-queue id qty rest)

pub add_level-total :
    (n : ℕ) (px : ℤ) (lvl : Level)
    → n + total (at_price px lvl) < 2 ^ 64
    → add_level n lvl ≡ n + total (at_price px lvl)
unfolding add_level at_price total
add_level-total n px [] h = omega arith
add_level-total n px (o ∷ lvl) h =
    rw (add64-eq n o.qty (omega arith))
      (omega (arith, add_level-total (n + o.qty) px lvl (omega arith)))

-- `crossable_qty` is the quantity of the offers within reach, as long as 64 bits hold it.
pub walk-total :
    (c : ℤ → Bool) (s : Side) (n : ℕ) (levels : BookSide)
    → IsSide s levels
    → n + total (queue levels) < 2 ^ 64
    → walk c n levels ≡ n + total (reach c (queue levels))
unfolding walk queue total reach
walk-total c s n [] h b = omega arith
walk-total c s n ((px, lvl) ∷ rest) h b =
    let b' : n + total (at_price px lvl) + total (queue rest) < 2 ^ 64 =
      omega (arith, total-append (at_price px lvl) (queue rest)) in
    elim (Bool-cases (c px)) [
      | inr e ↦ rw (e, (reach_stop c px lvl (queue rest) h.0.0 e).0) (omega arith)
      | inl e ↦
          rw
            (
              e,
              reach-at_price c px lvl (queue rest) e,
              total-append,
              add_level-total n px lvl (omega arith),
            )
            (omega (arith, walk-total c s (n + total (at_price px lvl)) rest h.3 b'))
    ]
