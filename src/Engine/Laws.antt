-- ===== src/Engine/Laws.antt =====
-- What the engines rely on of their containers: include/lob/order_book.hpp's ladders, id index and
-- allocator, as relations to plain lists.
use limit_order_book.Base.{
  ℕ, ◌<◌, ◌≢◌, ◌≡◌, ℤ, pos, ◌<ℤ◌, true, none, List, [], ◌∷◌, ◌++◌, All, length, ◌==◌, lookup,
}
use limit_order_book.Types.{Side, no_price}
use limit_order_book.Naive.Sides.{before}
use limit_order_book.Fifo.{Ptr, null, Level}
use limit_order_book.Fifo.Cells.{level_of}
use limit_order_book.Engine.{Parts}

-- The occupied levels of a side, best first.
abbrev pub Entries : Type 0
Entries = List (ℤ × Level)

abbrev pub first_price : Entries → ℤ
first_price [] = no_price
first_price ((px, _) ∷ _) = px

abbrev pub IsOrdered : Side → Entries → Type 0
IsOrdered s [] = Unit
IsOrdered s ((px, _) ∷ es) = All (λ e. before s px e.0 ≡ true) es × IsOrdered s es

-- Where a price that is not there belongs.
abbrev pub Fits : Side → ℤ → Entries → Entries → Type 0
Fits s px xs ys = All (λ e. before s e.0 px ≡ true) xs × All (λ e. before s px e.0 ≡ true) ys

module _ {L I A : Type 0} (parts : Parts L I A) where
  pub record LadderLaws (Shows : Side → L → Entries → Type 0) : Type 0 where
    pub ordered : (s : Side) (l : L) (es : Entries) → Shows s l es → IsOrdered s es
    pub positive : (s : Side) (l : L) (es : Entries) → Shows s l es → All (λ e. pos 0 <ℤ e.0) es
    pub in_band_positive :
        (s : Side) (l : L) (es : Entries) (px : ℤ)
        → Shows s l es
        → parts.in_band px l ≡ true
        → pos 0 <ℤ px
    pub best : (s : Side) (l : L) (es : Entries) → Shows s l es → parts.best l ≡ first_price es
    pub at_in :
        (s : Side) (l : L) (xs : Entries) (px : ℤ) (lvl : Level) (ys : Entries)
        → Shows s l (xs ++ (px, lvl) ∷ ys)
        → parts.at px l ≡ lvl
    pub put_in :
        (s : Side) (l : L) (xs : Entries) (px : ℤ) (lvl lvl' : Level) (ys : Entries)
        → Shows s l (xs ++ (px, lvl) ∷ ys)
        → lvl'.head ≢ null
        → Shows s (parts.put px lvl' l) (xs ++ (px, lvl') ∷ ys)
    pub empty_in :
        (s : Side) (l : L) (xs : Entries) (px : ℤ) (lvl : Level) (ys : Entries)
        → Shows s l (xs ++ (px, lvl) ∷ ys)
        → Shows s (parts.on_empty px (parts.put px (level_of px []) l)) (xs ++ ys)
    pub scan :
        (s : Side) (l : L) (xs : Entries) (px : ℤ) (lvl : Level) (ys : Entries)
        → Shows s l (xs ++ (px, lvl) ∷ ys)
        → parts.scan_worse px l ≡ first_price ys
    pub at_new :
        (s : Side) (l : L) (xs : Entries) (px : ℤ) (ys : Entries)
        → Shows s l (xs ++ ys)
        → Fits s px xs ys
        → parts.in_band px l ≡ true
        → parts.at px l ≡ level_of px []
    pub new_in :
        (s : Side) (l : L) (xs : Entries) (px : ℤ) (lvl : Level) (ys : Entries)
        → Shows s l (xs ++ ys)
        → Fits s px xs ys
        → parts.in_band px l ≡ true
        → lvl.head ≢ null
        → Shows s (parts.on_nonempty px (parts.put px lvl l)) (xs ++ (px, lvl) ∷ ys)

  -- A ladder's band never changes.
  pub record BandLaws : Type 0 where
    pub put :
        (p px : ℤ) (lvl : Level) (l : L) → parts.in_band p (parts.put px lvl l) ≡ parts.in_band p l
    pub on_empty : (p px : ℤ) (l : L) → parts.in_band p (parts.on_empty px l) ≡ parts.in_band p l
    pub on_nonempty :
        (p px : ℤ) (l : L) → parts.in_band p (parts.on_nonempty px l) ≡ parts.in_band p l

  pub record IndexLaws (Indexes : I → List (ℕ × Ptr) → Type 0) : Type 0 where
    pub size : (i : I) (es : List (ℕ × Ptr)) → Indexes i es → parts.size i ≡ length es
    pub find :
        (i : I) (es : List (ℕ × Ptr)) (k : ℕ) → Indexes i es → parts.find k i ≡ lookup ◌==◌ k es
    pub swap : (i : I) (xs ys : List (ℕ × Ptr)) → Indexes i (xs ++ ys) → Indexes i (ys ++ xs)
    pub erase :
        (i : I) (xs : List (ℕ × Ptr)) (k : ℕ) (p : Ptr) (ys : List (ℕ × Ptr))
        → Indexes i (xs ++ (k, p) ∷ ys)
        → Indexes (parts.erase k i) (xs ++ ys)
    pub insert :
        (i : I) (xs : List (ℕ × Ptr)) (k : ℕ) (p : Ptr) (ys : List (ℕ × Ptr))
        → Indexes i (xs ++ ys)
        → 0 < k
        → lookup ◌==◌ k (xs ++ ys) ≡ none
        → Indexes (parts.insert k p i) (xs ++ (k, p) ∷ ys)

  pub record AllocLaws (Owns : A → List Ptr → Type 0) : Type 0 where
    pub swap : (a : A) (xs ys : List Ptr) → Owns a (xs ++ ys) → Owns a (ys ++ xs)
    pub destroy :
        (a : A) (xs : List Ptr) (p : Ptr) (ys : List Ptr)
        → Owns a (xs ++ p ∷ ys)
        → Owns (parts.destroy p a) (xs ++ ys)
    pub create :
        (a : A) (xs ys : List Ptr)
        → Owns a (xs ++ ys)
        → let (a', p) = parts.create a in
          (0 < p) × All (λ q. q ≢ p) (xs ++ ys) × Owns a' (xs ++ p ∷ ys)
