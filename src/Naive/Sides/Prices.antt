-- ===== src/Naive/Sides/Prices.antt =====
-- Every change that engines/naive_book.hpp makes to a side brings in no price but the one that is
-- rested.
use limit_order_book.Base.{
  ℕ, ℤ, ◌≡◌, refl, Bool, Option, none, some, [], ◌∷◌, arith, ltb, eqb_ℤ, ◌&&◌, All, Bool-cases,
  Option-cases, inl, inr,
}
use limit_order_book.Types.{Side}
use limit_order_book.Naive.Sides.{
  RestingOrder, Level, BookSide, before, is_empty, fill_level, match_from, push_back, erase_level,
  erase_from, find_level, amend, erased,
}

-- Every level of a side stands at a price with a property.
abbrev pub Prices {κ} : (ℤ → Type κ) → BookSide → Type κ
Prices P = All (λ e. P e.0)

-- The three ways in which the erasure goes on past the first level.
abbrev pub erased_in : ℕ → ℤ → Level → BookSide → Option Level → BookSide
erased_in id px lvl rest none = (px, lvl) ∷ erased id rest
erased_in id px lvl rest (some []) = rest
erased_in id px lvl rest (some (o ∷ lvl')) = (px, o ∷ lvl') ∷ rest

pub erased-nil : (id : ℕ) → erased id [] ≡ []
unfolding erased erase_from
erased-nil id = refl

pub erased-cons :
    (id : ℕ) (px : ℤ) (lvl : Level) (rest : BookSide)
    → erased id ((px, lvl) ∷ rest) ≡ erased_in id px lvl rest (erase_level id lvl)
unfolding erased erase_from
erased-cons id px lvl rest = ground arith

module _ {κ} (P : ℤ → Type κ) where
  pub match_from-Prices :
      (t want : ℕ) (c : ℤ → Bool) (filled : ℕ) (levels : BookSide)
      → Prices P levels
      → Prices P (match_from t want c filled levels).levels
  unfolding match_from
  match_from-Prices t want c filled [] h = tt
  match_from-Prices t want c filled ((px, lvl) ∷ rest) h =
      let f = fill_level t px want filled lvl in
      let ih = match_from-Prices t want c f.filled rest h.1 in
      elim (Bool-cases (ltb filled want && c px)) [
        | inr e ↦ rw e h
        | inl e ↦ elim (Bool-cases (is_empty f.orders)) [
          | inl k ↦ rw (e, k) ih
          | inr k ↦ rw (e, k) h
        ]
      ]

  pub push_back-Prices :
      (s : Side) (px : ℤ) (o : RestingOrder) (levels : BookSide)
      → P px
      → Prices P levels
      → Prices P (push_back s px o levels)
  unfolding push_back
  push_back-Prices s px o [] p h = (p, tt)
  push_back-Prices s px o ((q, lvl) ∷ rest) p h = elim (Bool-cases (eqb_ℤ q px)) [
    | inl e ↦ rw e h
    | inr e ↦ elim (Bool-cases (before s px q)) [
      | inl k ↦ rw (e, k) (p, h)
      | inr k ↦ rw (e, k) (h.0, push_back-Prices s px o rest p h.1)
    ]
  ]

  pub erased-Prices : (id : ℕ) (levels : BookSide) → Prices P levels → Prices P (erased id levels)
  erased-Prices id [] h = rw erased-nil tt
  erased-Prices id ((px, lvl) ∷ rest) h =
      rw erased-cons (erased_in-Prices (erase_level id lvl) h (erased-Prices id rest h.1))
    where
      erased_in-Prices :
          (o : Option Level)
          → Prices P ((px, lvl) ∷ rest)
          → Prices P (erased id rest)
          → Prices P (erased_in id px lvl rest o)
      erased_in-Prices none h ih = (h.0, ih)
      erased_in-Prices (some []) h ih = h.1
      erased_in-Prices (some (o ∷ lvl')) h ih = h

  pub amend-Prices :
      (id qty : ℕ) (levels : BookSide) → Prices P levels → Prices P (amend id qty levels)
  unfolding amend
  amend-Prices id qty [] h = tt
  amend-Prices id qty ((px, lvl) ∷ rest) h = elim (Option-cases (find_level id lvl)) [
    | inl e ↦ rw (e, amend) (h.0, amend-Prices id qty rest h.1)
    | inr (_, e) ↦ rw (e, amend) h
  ]
