-- ===== src/Naive/Sides/Queue.antt =====
-- A side of the reference engine as one queue of offers, and what makes a side well formed.
use limit_order_book.Base.{
  ℕ, ◌<◌, ◌^◌, ℤ, pos, ◌<ℤ◌, ◌≡◌, refl, Bool, true, false, List, [], ◌∷◌, ◌++◌, arith, All, length,
}
use limit_order_book.Types.{Side}
use limit_order_book.Priority.{Offer, reach, beyond, HasQty}
use limit_order_book.Naive.Sides.{Level, BookSide, before}

unfoldable pub at_price : ℤ → Level → List Offer
at_price px [] = []
at_price px (o ∷ lvl) = record { px = px; id = o.id; qty = o.qty } ∷ at_price px lvl

unfoldable pub queue : BookSide → List Offer
queue [] = []
queue ((px, lvl) ∷ rest) = at_price px lvl ++ queue rest

abbrev pub IsQty : ℕ → Type 0
IsQty n = (0 < n) × (n < 2 ^ 32)

abbrev pub IsLevel : Level → Type 0
IsLevel lvl = (0 < length lvl) × All (λ o. IsQty o.qty) lvl

-- Levels in the map's order, none empty, at positive prices, each order with a quantity.
abbrev pub IsSide : Side → BookSide → Type 0
IsSide s [] = Unit
IsSide s ((px, lvl) ∷ rest) =
    IsLevel lvl × (pos 0 <ℤ px) × All (λ e. before s px e.0 ≡ true) rest × IsSide s rest

module _ (c : ℤ → Bool) (px : ℤ) where
  pub reach-at_price :
      (lvl : Level) (q : List Offer)
      → c px ≡ true
      → reach c (at_price px lvl ++ q) ≡ at_price px lvl ++ reach c q
  unfolding reach at_price
  reach-at_price [] q h = refl
  reach-at_price (o ∷ lvl) q h = rw (h, reach-at_price lvl q h)

  pub beyond-at_price :
      (lvl : Level) (q : List Offer) → c px ≡ true → beyond c (at_price px lvl ++ q) ≡ beyond c q
  unfolding beyond at_price
  beyond-at_price [] q h = refl
  beyond-at_price (o ∷ lvl) q h = rw h (beyond-at_price lvl q h)

  pub reach_stop :
      (lvl : Level) (q : List Offer)
      → 0 < length lvl
      → c px ≡ false
      → (reach c (at_price px lvl ++ q) ≡ [])
        × (beyond c (at_price px lvl ++ q) ≡ at_price px lvl ++ q)
  unfolding reach beyond at_price
  reach_stop [] q n h = absurd (omega arith)
  reach_stop (o ∷ lvl) q n h = (rw h, rw h)

pub at_price-HasQty : (px : ℤ) (lvl : Level) → All (λ o. IsQty o.qty) lvl → HasQty (at_price px lvl)
unfolding at_price
at_price-HasQty px [] h = tt
at_price-HasQty px (o ∷ lvl) h = (h.0.0, at_price-HasQty px lvl h.1)
