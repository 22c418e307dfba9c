-- ===== src/FlatLadder/Changes.antt =====
-- One level written or one bit changed in include/lob/order_book.hpp's Ladder: what the array and the
-- bitmap then tell of every price.
use limit_order_book.Base.{
  ℕ, ◌≡◌, refl, ap, sym, subst, ◌∙◌, ℤ, eqb_ℤ, Bool, true, false, Option, none, some, [], ◌∷◌, ◌++◌,
  All, All-append, All-append_left, All-append_right, lookup, ◌==◌, if◌then◌else◌, Bool-cases, inl,
  inr, ==_iff,
}
use limit_order_book.Types.{Side}
use limit_order_book.Fifo.{Level}
use limit_order_book.Fifo.Cells.{level_of, front, back, sum_qty}
use limit_order_book.Engine.Laws.{Entries, Fits}
use limit_order_book.Engine.Entries.{lookup_middle, lookup_new, lookup_other}
use limit_order_book.FlatLadder.{FlatLadder, in_band, index, put, mark, unmark, clear_level}
use limit_order_book.FlatLadder.Scans.{bit}
use limit_order_book.FlatLadder.Shape.{Shape, index_price, index-eqb, bit-mark, bit-unmark}
use limit_order_book.FlatLadder.Contents.{HasBits, HasLevels, is_there, level_or, price_of}

pub clear_level-nil : (px : ℤ) → level_of px [] ≡ clear_level px
unfolding front back sum_qty
clear_level-nil px = refl

-- One index of the array or the bitmap, whether or not it is the one that changes.
module _ (q : ℤ) (lvl : Level) (other : Option Level) where
  there_kept :
      (c : Bool) (lvl' : Level)
      → is_there (if c then some lvl else other) ≡ is_there (if c then some lvl' else other)
  there_kept true lvl' = refl
  there_kept false lvl' = refl

  there_gone :
      (c b : Bool)
      → (c ≡ true → other ≡ none)
      → b ≡ is_there (if c then some lvl else other)
      → (if c then false else b) ≡ is_there other
  there_gone true b n e = ap is_there (sym (n refl))
  there_gone false b n e = e

  there_new :
      (c b : Bool)
      → b ≡ is_there other
      → (if c then true else b) ≡ is_there (if c then some lvl else other)
  there_new true b e = refl
  there_new false b e = e

  level_kept :
      (c : Bool) (lvl' old : Level)
      → old ≡ level_or q (if c then some lvl else other)
      → (if c then lvl' else old) ≡ level_or q (if c then some lvl' else other)
  level_kept true lvl' old e = refl
  level_kept false lvl' old e = e

  level_gone :
      (c : Bool) (px : ℤ) (old : Level)
      → (c ≡ true → (other ≡ none) × (px ≡ q))
      → old ≡ level_or q (if c then some lvl else other)
      → (if c then level_of px [] else old) ≡ level_or q other
  level_gone true px old n e =
      clear_level-nil px ∙ ap clear_level ((n refl).1) ∙ sym (ap (level_or q) ((n refl).0))
  level_gone false px old n e = e

  level_new :
      (c : Bool) (old : Level)
      → old ≡ level_or q other
      → (if c then lvl else old) ≡ level_or q (if c then some lvl else other)
  level_new true old e = refl
  level_new false old e = e

module _ (s : Side) (l : FlatLadder) (shape : Shape s l) (px : ℤ) (e : in_band px l ≡ true)
    (xs : Entries) (ys : Entries) (fits : Fits s px xs ys) where
  price_same : (k : ℕ) → (k == index px l) ≡ true → px ≡ price_of l k
  price_same k c =
      sym (index_price s l shape px e) ∙ ap (price_of l) (sym ((==_iff k (index px l)).0 c))

  entry_at :
      (lvl : Level) (k : ℕ)
      → lookup eqb_ℤ (price_of l k) (xs ++ (px, lvl) ∷ ys)
        ≡ (if k == index px l then some lvl else lookup eqb_ℤ (price_of l k) (xs ++ ys))
  entry_at lvl k = elim (Bool-cases (k == index px l)) [
    | inl c ↦ rw c (
        subst (λ q. lookup eqb_ℤ q (xs ++ (px, lvl) ∷ ys) ≡ some lvl) (price_same k c)
          (lookup_middle s xs px lvl ys fits.0))
    | inr c ↦ rw c (lookup_other s xs px (price_of l k) lvl ys (index-eqb s l shape px e k ∙ c))
  ]

  entry_none : (k : ℕ) → (k == index px l) ≡ true → lookup eqb_ℤ (price_of l k) (xs ++ ys) ≡ none
  entry_none k c =
      subst (λ q. lookup eqb_ℤ q (xs ++ ys) ≡ none) (price_same k c) (lookup_new s xs px ys fits)

  module _ (lvl : Level) where
    abbrev full : Entries
    full = xs ++ (px, lvl) ∷ ys

    pub within_with :
        All (λ y. in_band y.0 l ≡ true) (xs ++ ys) → All (λ y. in_band y.0 l ≡ true) full
    within_with h =
        All-append _ xs ((px, lvl) ∷ ys) (All-append_left _ xs ys h) (e, All-append_right _ xs ys h)

    pub within_without :
        All (λ y. in_band y.0 l ≡ true) full → All (λ y. in_band y.0 l ≡ true) (xs ++ ys)
    within_without h =
        All-append _ xs ys (All-append_left _ xs ((px, lvl) ∷ ys) h)
          (All-append_right _ xs ((px, lvl) ∷ ys) h).1

    pub put_bits : (lvl' : Level) → HasBits l full → HasBits l (xs ++ (px, lvl') ∷ ys)
    put_bits lvl' h k b =
        h k b
        ∙ ap is_there (entry_at lvl k)
        ∙ there_kept (price_of l k) lvl (lookup eqb_ℤ (price_of l k) (xs ++ ys)) (k == index px l)
            lvl'
        ∙ sym (ap is_there (entry_at lvl' k))

    pub put_levels :
        (lvl' : Level) → HasLevels l full → HasLevels (put px lvl' l) (xs ++ (px, lvl') ∷ ys)
    unfolding put
    put_levels lvl' h k b =
        level_kept (price_of l k) lvl (lookup eqb_ℤ (price_of l k) (xs ++ ys)) (k == index px l)
          lvl' (l.levels.get k) (h k b ∙ ap (level_or (price_of l k)) (entry_at lvl k))
        ∙ sym (ap (level_or (price_of l k)) (entry_at lvl' k))

    pub new_levels : HasLevels l (xs ++ ys) → HasLevels (put px lvl l) full
    unfolding put
    new_levels h k b =
        level_new (price_of l k) lvl (lookup eqb_ℤ (price_of l k) (xs ++ ys)) (k == index px l)
          (l.levels.get k) (h k b)
        ∙ sym (ap (level_or (price_of l k)) (entry_at lvl k))

    pub gone_levels : HasLevels l full → HasLevels (put px (level_of px []) l) (xs ++ ys)
    unfolding put
    gone_levels h k b =
        level_gone (price_of l k) lvl (lookup eqb_ℤ (price_of l k) (xs ++ ys)) (k == index px l) px
          (l.levels.get k) (λ c. (entry_none k c, price_same k c))
          (h k b ∙ ap (level_or (price_of l k)) (entry_at lvl k))

    pub new_bits :
        HasBits l (xs ++ ys) → HasBits (record l { words = mark (index px l) l.words }) full
    unfolding mark
    new_bits h k b =
        unfold mark in
        (bit-mark (index px l) k l.words)
        ∙ there_new (price_of l k) lvl (lookup eqb_ℤ (price_of l k) (xs ++ ys)) (k == index px l)
            (bit l.words k) (h k b)
        ∙ sym (ap is_there (entry_at lvl k))

    pub gone_bits :
        HasBits l full → HasBits (record l { words = unmark (index px l) l.words }) (xs ++ ys)
    unfolding unmark
    gone_bits h k b =
        unfold unmark in
        (bit-unmark (index px l) k l.words)
        ∙ there_gone (price_of l k) lvl (lookup eqb_ℤ (price_of l k) (xs ++ ys)) (k == index px l)
            (bit l.words k) (λ c. entry_none k c) (h k b ∙ ap is_there (entry_at lvl k))
