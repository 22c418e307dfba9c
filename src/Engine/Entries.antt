-- ===== src/Engine/Entries.antt =====
-- The sorted levels of a side as a map from prices: what the ladders of include/lob/order_book.hpp and
-- engines/ share.
use limit_order_book.Base.{
  ◌≡◌, refl, ℤ, eqb_ℤ, true, false, none, some, [], ◌∷◌, ◌++◌, All, arith, lookup, All-append,
  All-append_left, All-append_right, All-map,
}
use limit_order_book.Types.{Side, bid, ask}
use limit_order_book.Naive.Sides.{before}
use limit_order_book.Fifo.{Level}
use limit_order_book.Engine.Laws.{Entries, IsOrdered, Fits}

pub eqb_itself : (px : ℤ) → eqb_ℤ px px ≡ true
eqb_itself px = ground arith

pub before-eqb :
    (s : Side) (a b : ℤ) → before s a b ≡ true → (eqb_ℤ a b ≡ false) × (eqb_ℤ b a ≡ false)
unfolding before
before-eqb bid a b h = (ground arith, ground arith)
before-eqb ask a b h = (ground arith, ground arith)

pub before-asym : (s : Side) (a b : ℤ) → before s a b ≡ true → before s b a ≡ false
unfolding before
before-asym bid a b h = ground arith
before-asym ask a b h = ground arith

pub before_trans :
    (s : Side) (a b c : ℤ) → before s a b ≡ true → before s b c ≡ true → before s a c ≡ true
unfolding before
before_trans bid a b c h k = ground arith
before_trans ask a b c h k = ground arith

module _ (s : Side) where
  abbrev pub Earlier : ℤ → Entries → Type 0
  Earlier px = All (λ e. before s e.0 px ≡ true)

  abbrev pub Later : ℤ → Entries → Type 0
  Later px = All (λ e. before s px e.0 ≡ true)

  pub ordered_around :
      (xs : Entries) (px : ℤ) (lvl : Level) (ys : Entries)
      → IsOrdered s (xs ++ (px, lvl) ∷ ys)
      → Earlier px xs × Later px ys
  ordered_around [] px lvl ys h = (tt, h.0)
  ordered_around (x ∷ xs) px lvl ys h =
      let r = ordered_around xs px lvl ys h.1 in
      (((All-append_right _ xs ((px, lvl) ∷ ys) h.0).0, r.0), r.1)

  pub IsOrdered-without :
      (xs : Entries) (px : ℤ) (lvl : Level) (ys : Entries)
      → IsOrdered s (xs ++ (px, lvl) ∷ ys)
      → IsOrdered s (xs ++ ys)
  IsOrdered-without [] px lvl ys h = h.1
  IsOrdered-without (x ∷ xs) px lvl ys h = (
    All-append _ xs ys (All-append_left _ xs ((px, lvl) ∷ ys) h.0)
        (All-append_right _ xs ((px, lvl) ∷ ys) h.0).1,
    IsOrdered-without xs px lvl ys h.1,
  )

  pub IsOrdered-with :
      (xs : Entries) (px : ℤ) (lvl : Level) (ys : Entries)
      → IsOrdered s (xs ++ ys)
      → Fits s px xs ys
      → IsOrdered s (xs ++ (px, lvl) ∷ ys)
  IsOrdered-with [] px lvl ys h f = (f.1, h)
  IsOrdered-with (x ∷ xs) px lvl ys h f = (
    All-append _ xs ((px, lvl) ∷ ys) (All-append_left _ xs ys h.0)
        (f.0.0, All-append_right _ xs ys h.0),
    IsOrdered-with xs px lvl ys h.1 (f.0.1, f.1),
  )

  pub IsOrdered-append_right : (xs ys : Entries) → IsOrdered s (xs ++ ys) → IsOrdered s ys
  IsOrdered-append_right [] ys h = h
  IsOrdered-append_right (x ∷ xs) ys h = IsOrdered-append_right xs ys h.1

  pub lookup_middle :
      (xs : Entries) (px : ℤ) (lvl : Level) (ys : Entries)
      → Earlier px xs
      → lookup eqb_ℤ px (xs ++ (px, lvl) ∷ ys) ≡ some lvl
  unfolding lookup
  lookup_middle [] px lvl ys h = rw (eqb_itself px) refl
  lookup_middle (x ∷ xs) px lvl ys h =
      rw ((before-eqb s x.0 px h.0).0) (lookup_middle xs px lvl ys h.1)

  pub lookup_new :
      (xs : Entries) (px : ℤ) (ys : Entries) → Fits s px xs ys → lookup eqb_ℤ px (xs ++ ys) ≡ none
  unfolding lookup
  lookup_new [] px [] f = refl
  lookup_new [] px (y ∷ ys) f = rw ((before-eqb s px y.0 f.1.0).1) (lookup_new [] px ys (tt, f.1.1))
  lookup_new (x ∷ xs) px ys f =
      rw ((before-eqb s x.0 px f.0.0).0) (lookup_new xs px ys (f.0.1, f.1))

  pub lookup_other :
      (xs : Entries) (px q : ℤ) (lvl : Level) (ys : Entries)
      → eqb_ℤ px q ≡ false
      → lookup eqb_ℤ q (xs ++ (px, lvl) ∷ ys) ≡ lookup eqb_ℤ q (xs ++ ys)
  unfolding lookup
  lookup_other [] px q lvl ys e = rw e refl
  lookup_other (x ∷ xs) px q lvl ys e = rw (lookup_other xs px q lvl ys e) refl

  -- Entries before a price say nothing of the prices after it.
  pub lookup_later :
      (xs : Entries) (px q : ℤ) (ys : Entries)
      → Earlier px xs
      → before s px q ≡ true
      → lookup eqb_ℤ q (xs ++ ys) ≡ lookup eqb_ℤ q ys
  unfolding lookup
  lookup_later [] px q ys h e = refl
  lookup_later (x ∷ xs) px q ys h e =
      let less = before_trans s x.0 px q h.0 e in
      rw ((before-eqb s x.0 q less).0) (lookup_later xs px q ys h.1 e)

  -- The prices before the first level are not there.
  pub lookup-before :
      (q px : ℤ) (lvl : Level) (ys : Entries)
      → IsOrdered s ((px, lvl) ∷ ys)
      → before s q px ≡ true
      → lookup eqb_ℤ q ((px, lvl) ∷ ys) ≡ none
  lookup-before q px lvl ys h e =
      lookup_new [] q ((px, lvl) ∷ ys)
        (tt, (e, All-map _ _ (λ e'. before_trans s q px e'.0 e) ys h.0))

  pub lookup_after :
      (xs : Entries) (px q : ℤ) (lvl : Level) (ys : Entries)
      → Earlier px xs
      → before s px q ≡ true
      → lookup eqb_ℤ q (xs ++ (px, lvl) ∷ ys) ≡ lookup eqb_ℤ q ys
  unfolding lookup
  lookup_after [] px q lvl ys h e = rw ((before-eqb s px q e).0) refl
  lookup_after (x ∷ xs) px q lvl ys h e =
      let less = before_trans s x.0 px q h.0 e in
      rw ((before-eqb s x.0 q less).0) (lookup_after xs px q lvl ys h.1 e)
