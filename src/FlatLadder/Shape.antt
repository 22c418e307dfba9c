-- ===== src/FlatLadder/Shape.antt =====
-- The band of include/lob/order_book.hpp's Ladder: where the levels and the bits of a price stand.
use limit_order_book.Base.{
  ℕ, ◌+◌, ◌-◌, ◌*◌, ◌/◌, ◌%◌, ◌^◌, ◌<◌, ◌≤◌, ◌≡◌, refl, ap, sym, ◌∙◌, ℤ, pos, negsuc, pos_part,
  neg_part, ◌+ℤ◌, ◌-ℤ◌, ◌<ℤ◌, eqb_ℤ, +ℤ_parts, -ℤ_parts, eq_of_parts, Bool, true, false, not, ◌||◌,
  ◌&&◌, ◌==◌, ltb, if◌then◌else◌, arith, Bool-cases, inl, inr, ==_iff,
}
use limit_order_book.Types.{Side, bid, ask}
use limit_order_book.Naive.Sides.{before}
use limit_order_book.FlatLadder.{Vector, FlatLadder, to_size, in_band, index, mark, unmark}
use limit_order_book.FlatLadder.Bits.{Word, one_word, shift_left}
use limit_order_book.FlatLadder.Scans.{bit}

-- A band of positive prices that fit a machine word, with a level for each price and a bit for each
-- level.
pub record Shape (s : Side) (l : FlatLadder) : Type 0 where
  pub side : l.side ≡ s
  pub lo_positive : pos 0 <ℤ l.lo
  pub hi_positive : neg_part l.hi ≡ 0
  pub span : pos_part l.hi ≡ pos_part l.lo + l.levels.size
  pub small : pos_part l.hi < 2 ^ 63
  pub covered : l.levels.size ≤ 64 * l.words.size

pub positive_parts : (a : ℤ) → pos 0 <ℤ a → neg_part a ≡ 0
positive_parts (pos n) h = refl
positive_parts (negsuc n) h = absurd (omega arith)

sum_parts : (d : ℤ) (a : ℕ) → pos_part d ≡ neg_part d + a → (pos_part d ≡ a) × (neg_part d ≡ 0)
sum_parts (pos n) a h = (omega arith, refl)
sum_parts (negsuc n) a h = absurd (omega arith)

pub difference_size :
    (d : ℤ) (a b : ℕ) → pos_part d + b ≡ neg_part d + a → b ≤ a → a < 2 ^ 63 → to_size d ≡ a - b
unfolding to_size
difference_size (pos n) a b h k l = omega arith
difference_size (negsuc n) a b h k l = absurd (omega arith)

module _ (s : Side) (l : FlatLadder) (h : Shape s l) where
  pub lo_parts : neg_part l.lo ≡ 0
  lo_parts = positive_parts l.lo h.lo_positive

  band_parts :
      (px : ℤ)
      → in_band px l ≡ true
      → (neg_part px ≡ 0) × (pos_part l.lo ≤ pos_part px) × (pos_part px < pos_part l.hi)
  unfolding in_band
  band_parts (pos n) e = let a = lo_parts in let b = h.hi_positive in ground arith
  band_parts (negsuc n) e = let a = lo_parts in ground arith

  pub in_band_positive : (px : ℤ) → in_band px l ≡ true → pos 0 <ℤ px
  in_band_positive px e = let (a, b, c) = band_parts px e in omega (arith, h.lo_positive, lo_parts)

  -- A price of the band stands at an index of the array.
  pub index_parts :
      (px : ℤ)
      → in_band px l ≡ true
      → (pos_part px ≡ pos_part l.lo + index px l)
        × (neg_part px ≡ 0)
        × (index px l < l.levels.size)
  unfolding index
  index_parts px e =
      let (a, b, c) = band_parts px e in
      let size =
        difference_size (px -ℤ l.lo) (pos_part px) (pos_part l.lo)
          (omega (arith, -ℤ_parts px l.lo, lo_parts)) b (omega (arith, h.small)) in
      (omega (arith, size), a, omega (arith, size, h.span))

  pub price_parts :
      (k : ℕ) → (pos_part (l.lo +ℤ pos k) ≡ pos_part l.lo + k) × (neg_part (l.lo +ℤ pos k) ≡ 0)
  price_parts k =
      sum_parts (l.lo +ℤ pos k) (pos_part l.lo + k) (omega (arith, +ℤ_parts l.lo (pos k), lo_parts))

  pub price-before :
      (t : Side) (j k : ℕ) → before t (l.lo +ℤ pos j) (l.lo +ℤ pos k) ≡ before t (pos j) (pos k)
  unfolding before
  price-before bid j k = let (a, b) = price_parts j in let (c, d) = price_parts k in ground arith
  price-before ask j k = let (a, b) = price_parts j in let (c, d) = price_parts k in ground arith

  module _ (px : ℤ) (e : in_band px l ≡ true) where
    pub index_price : l.lo +ℤ pos (index px l) ≡ px
    index_price =
        let (a, b, c) = index_parts px e in
        let (a', b') = price_parts (index px l) in
        eq_of_parts (l.lo +ℤ pos (index px l)) px (omega arith)

    pub index-eqb : (k : ℕ) → eqb_ℤ px (l.lo +ℤ pos k) ≡ (k == index px l)
    index-eqb k = let (a, b, c) = index_parts px e in let (a', b') = price_parts k in ground arith

    pub index-before :
        (t : Side) (k : ℕ) → before t px (l.lo +ℤ pos k) ≡ before t (pos (index px l)) (pos k)
    index-before t k =
        ap (λ q. before t q (l.lo +ℤ pos k)) (sym index_price) ∙ price-before t (index px l) k

    pub index_bit : index px l < 64 * l.words.size
    index_bit = let (a, b, c) = index_parts px e in omega (arith, h.covered)

or_if : (x b c : Bool) → b ≡ c → (x || b) ≡ (if c then true else x)
or_if x b c e = ground arith

and_not_if : (x a b c : Bool) → a ≡ true → b ≡ c → (x && (a && not b)) ≡ (if c then false else x)
and_not_if x a b c h e = ground arith

-- The one bit that is set, in its word.
one_bit :
    (i k : ℕ)
    → (k / 64 == i / 64) ≡ true
    → (ltb (k % 64) 64 ≡ true) × (shift_left one_word (i % 64) (k % 64) ≡ (k == i))
one_bit i k e = (ground arith, ground arith)

module _ (i k : ℕ) (v : Vector Word) where
  same_word : (k / 64 == i / 64) ≡ true → v.get (k / 64) (k % 64) ≡ v.get (i / 64) (k % 64)
  same_word e = ap (λ q. v.get q (k % 64)) ((==_iff (k / 64) (i / 64)).0 e)

  pub bit-mark : bit (mark i v) k ≡ (if k == i then true else bit v k)
  unfolding mark
  bit-mark = elim (Bool-cases (k / 64 == i / 64)) [
    | inl e ↦ rw (e, same_word e) (or_if _ _ (k == i) (one_bit i k e).1)
    | inr e ↦ let other : (k == i) ≡ false = ground arith in rw (e, other) refl
  ]

  pub bit-unmark : bit (unmark i v) k ≡ (if k == i then false else bit v k)
  unfolding unmark
  bit-unmark = elim (Bool-cases (k / 64 == i / 64)) [
    | inl e ↦
        let (low, one) = one_bit i k e in
        rw (e, same_word e)
          (and_not_if _ _ (shift_left one_word (i % 64) (k % 64)) (k == i) low one)
    | inr e ↦ let other : (k == i) ≡ false = ground arith in rw (e, other) refl
  ]
