-- ===== src/FlatLadder/Scans.antt =====
-- The scans of the bitmap in include/lob/order_book.hpp's Ladder, over all its words.
use limit_order_book.Base.{
  ℕ, zero, suc, ◌+◌, ◌-◌, ◌*◌, ◌/◌, ◌%◌, ◌<◌, ◌≤◌, ◌≡◌, ap, ap₂, sym, ◌∙◌, pos, Bool, true, false,
  Option, none, some, ◌==◌, ltb, ◌&&◌, arith, Bool-cases, inl, inr,
}
use limit_order_book.Types.{Side, bid, ask}
use limit_order_book.Naive.Sides.{before}
use limit_order_book.FlatLadder.{Vector, scan_down, scan_up, scan_side}
use limit_order_book.FlatLadder.Bits.{
  Word, is_nonzero, clz, ctz, below_mask, above_mask, below_mask_bit, above_mask_bit, Highest,
  Lowest, clz-Highest, ctz-Lowest, any_bit-false, and_word,
}

-- The bit at an index of the bitmap.
abbrev pub bit : Vector Word → ℕ → Bool
bit v i = v.get (i / 64) (i % 64)

-- The first index below `n` with a bit of `f` that is worse than `i`.
abbrev pub IsNext : Side → (ℕ → Bool) → ℕ → ℕ → Option ℕ → Type 0
IsNext s f n i none = (j : ℕ) → j < n → before s (pos i) (pos j) ≡ true → f j ≡ false
IsNext s f n i (some k) =
    (k < n)
    × (before s (pos i) (pos k) ≡ true)
    × (f k ≡ true)
    × ((j : ℕ)
        → j < n
        → before s (pos i) (pos j) ≡ true
        → before s (pos j) (pos k) ≡ true
        → f j ≡ false)

no_bit : (a : Word) → is_nonzero a ≡ false → (j : ℕ) → j < 64 → a j ≡ false
unfolding is_nonzero
no_bit a e j h = any_bit-false 64 a e j h

-- A word that shows the bits of `f` from `64 * w` on.
abbrev IsPart : (ℕ → Bool) → ℕ → Word → Type 0
IsPart f w a = (c : ℕ) → c < 64 → a c ≡ f (64 * w + c)

part_false :
    (f : ℕ → Bool) (w : ℕ) (a : Word)
    → IsPart f w a
    → (j : ℕ) → 64 * w ≤ j
    → j < 64 * suc w
    → a (j - 64 * w) ≡ false
    → f j ≡ false
part_false f w a part j h k e =
    let here : 64 * w + (j - 64 * w) ≡ j = omega arith in
    sym (ap f here) ∙ sym (part (j - 64 * w) (omega arith)) ∙ e

IsPart-bit :
    (f : ℕ → Bool) (v : Vector Word) (w : ℕ)
    → ((c : ℕ) → c < 64 → bit v (64 * w + c) ≡ f (64 * w + c))
    → IsPart f w (v.get w)
IsPart-bit f v w h c k =
    let quotient : (64 * w + c) / 64 ≡ w = omega arith in
    let remainder : (64 * w + c) % 64 ≡ c = omega arith in
    ap₂ (λ q r. v.get q r) (sym quotient) (sym remainder) ∙ h c k

abbrev Down : (ℕ → Bool) → ℕ → Option ℕ → Type 0
Down f n none = (j : ℕ) → j < n → f j ≡ false
Down f n (some k) = Highest f n k

Down-more :
    (f : ℕ → Bool) (n m : ℕ) (r : Option ℕ)
    → n ≤ m
    → ((j : ℕ) → n ≤ j → j < m → f j ≡ false)
    → Down f n r
    → Down f m r
Down-more f n m none h clear d = λ j k. elim (Bool-cases (ltb j n)) [
  | inl low ↦ d j (ground arith)
  | inr high ↦ clear j (ground arith) k
]
Down-more f n m (some i) h clear d = record {
  below = omega (arith, d.below);
  holds = d.holds;
  clear = λ j l k. elim (Bool-cases (ltb j n)) [
    | inl low ↦ d.clear j l (ground arith)
    | inr high ↦ clear j (ground arith) k
  ];
}

top_Highest :
    (f : ℕ → Bool) (w : ℕ) (a : Word)
    → IsPart f w a
    → is_nonzero a ≡ true
    → Highest f (64 * suc w) (64 * w + (63 - clz a))
top_Highest f w a part e =
    let (few, top) = clz-Highest a e in
    record {
      below = omega (arith, few);
      holds = sym (part (63 - clz a) top.below) ∙ top.holds;
      clear = λ j h k.
          part_false f w a part j (omega arith) k
            (top.clear (j - 64 * w) (omega arith) (omega arith));
    }

scan_down-Down :
    (f : ℕ → Bool) (v : Vector Word) (w : ℕ) (a : Word)
    → IsPart f w a
    → ((j : ℕ) → j < 64 * w → bit v j ≡ f j)
    → Down f (64 * suc w) (scan_down v w a)
unfolding scan_down
scan_down-Down f v zero a part h = elim (Bool-cases (is_nonzero a)) [
  | inl e ↦ rw e (top_Highest f 0 a part e)
  | inr e ↦
      rw e (λ j k. part_false f 0 a part j (omega arith) k (no_bit a e (j - 64 * 0) (omega arith)))
]
scan_down-Down f v (suc w) a part h = elim (Bool-cases (is_nonzero a)) [
  | inl e ↦ rw e (top_Highest f (suc w) a part e)
  | inr e ↦
      let lower = IsPart-bit f v w (λ c k. h (64 * w + c) (omega arith)) in
      let below = scan_down-Down f v w (v.get w) lower (λ j k. h j (omega arith)) in
      rw e (
        Down-more f (64 * suc w) (64 * suc (suc w)) (scan_down v w (v.get w)) (omega arith)
          (λ j l k. part_false f (suc w) a part j l k (no_bit a e (j - 64 * suc w) (omega arith)))
          below)
]

abbrev Up : (ℕ → Bool) → ℕ → ℕ → Option ℕ → Type 0
Up f i n none = (j : ℕ) → i ≤ j → j < n → f j ≡ false
Up f i n (some k) = Lowest f i n k

Up-more :
    (f : ℕ → Bool) (i m n : ℕ) (r : Option ℕ)
    → i ≤ m
    → ((j : ℕ) → i ≤ j → j < m → f j ≡ false)
    → Up f m n r
    → Up f i n r
Up-more f i m n none h clear d = λ j l k. elim (Bool-cases (ltb j m)) [
  | inl low ↦ clear j l (ground arith)
  | inr high ↦ d j (ground arith) k
]
Up-more f i m n (some x) h clear d = record {
  from = omega (arith, d.from);
  below = d.below;
  holds = d.holds;
  clear = λ j l k. elim (Bool-cases (ltb j m)) [
    | inl low ↦ clear j l (ground arith)
    | inr high ↦ d.clear j (ground arith) k
  ];
}

scan_up-Up :
    (f : ℕ → Bool) (v : Vector Word) (fuel w : ℕ) (a : Word)
    → w + fuel ≡ v.size
    → 0 < fuel
    → IsPart f w a
    → ((j : ℕ) → 64 * suc w ≤ j → j < 64 * v.size → bit v j ≡ f j)
    → Up f (64 * w) (64 * v.size) (scan_up v fuel w a)
unfolding scan_up
scan_up-Up f v zero w a size some_word part h = absurd (omega arith)
scan_up-Up f v (suc n) w a size some_word part h = elim (Bool-cases (is_nonzero a)) [
  | inl e ↦
      let low = ctz-Lowest a e in
      rw e record {
        from = omega arith;
        below = omega (arith, low.below);
        holds = sym (part (ctz a) low.below) ∙ low.holds;
        clear = λ j l k.
            part_false f w a part j l (omega (arith, low.below))
              (low.clear (j - 64 * w) (omega arith) (omega arith));
      }
  | inr e ↦
      let clear = λ (j : ℕ) (l : 64 * w ≤ j) (k : j < 64 * suc w).
        part_false f w a part j l k (no_bit a e (j - 64 * w) (omega arith)) in
      elim (Bool-cases (suc w == v.size)) [
        | inl last ↦ rw (e, last) (λ j l k. clear j l (ground arith))
        | inr more ↦
            let upper =
              IsPart-bit f v (suc w) (λ c k. h (64 * suc w + c) (omega arith) (ground arith)) in
            let above =
              scan_up-Up f v n (suc w) (v.get (suc w)) (omega arith) (ground arith) upper
                (λ j l k. h j (omega arith) k) in
            rw (e, more)
              (Up-more f (64 * w) (64 * suc w) (64 * v.size) (scan_up v n (suc w) (v.get (suc w)))
                (omega arith) clear above)
      ]
]

masked :
    (v : Vector Word) (i : ℕ) (mask : ℕ → Word) (keep : ℕ → ℕ → Bool)
    → ((b c : ℕ) → b < 64 → c < 64 → mask b c ≡ keep b c)
    → ((c : ℕ) → c < 64 → keep (i % 64) c ≡ keep i (64 * (i / 64) + c))
    → IsPart (λ j. bit v j && keep i j) (i / 64) (and_word (v.get (i / 64)) (mask (i % 64)))
masked v i mask keep h same c k =
    let quotient : (64 * (i / 64) + c) / 64 ≡ i / 64 = omega arith in
    let remainder : (64 * (i / 64) + c) % 64 ≡ c = omega arith in
    ap₂ ◌&&◌ (ap₂ (λ q r. v.get q r) (sym quotient) (sym remainder))
      (h (i % 64) c (omega arith) k ∙ same c k)

and_true : (a b : Bool) → (a && b) ≡ true → (a ≡ true) × (b ≡ true)
and_true a b e = (ground arith, ground arith)

and_false : (a b : Bool) → (a && b) ≡ false → b ≡ true → a ≡ false
and_false a b e t = ground arith

Down-IsNext :
    (v : Vector Word) (i n : ℕ) (r : Option ℕ)
    → i < n
    → Down (λ j. bit v j && ltb j i) (64 * suc (i / 64)) r
    → IsNext bid (bit v) n i r
unfolding before
Down-IsNext v i n none h d = λ j k e. and_false _ (ltb j i) (d j (ground arith)) (ground arith)
Down-IsNext v i n (some x) h d =
    let (holds, below) = and_true (bit v x) (ltb x i) d.holds in
    (
      ground arith,
      ground arith,
      holds,
      λ j k e g. and_false _ (ltb j i) (d.clear j (ground arith) (ground arith)) (ground arith),
    )

Up-IsNext :
    (v : Vector Word) (i : ℕ) (r : Option ℕ)
    → Up (λ j. bit v j && ltb i j) (64 * (i / 64)) (64 * v.size) r
    → IsNext ask (bit v) (64 * v.size) i r
unfolding before
Up-IsNext v i none d = λ j k e. and_false _ (ltb i j) (d j (ground arith) k) (ground arith)
Up-IsNext v i (some x) d =
    let (holds, above) = and_true (bit v x) (ltb i x) d.holds in
    (
      d.below,
      ground arith,
      holds,
      λ j k e g. and_false _ (ltb i j) (d.clear j (ground arith) (ground arith)) (ground arith),
    )

-- On either side, for a bitmap of any number of 64-bit words and an index within it, the masked
-- scan word by word gives the nearest set bit that is worse (below for bids, above for asks), with
-- no set bit between, or nothing if there is none. The loop over the words never runs out of words.
pub scan_side-IsNext :
    (s : Side) (v : Vector Word) (i : ℕ)
    → i < 64 * v.size
    → IsNext s (bit v) (64 * v.size) i (scan_side s v i)
unfolding scan_side
scan_side-IsNext bid v i h = Down-IsNext v i (64 * v.size) _ h (
    scan_down-Down (λ j. bit v j && ltb j i) v (i / 64) _
      (masked v i below_mask (λ b c. ltb c b) below_mask_bit (λ c k. ground arith))
      (λ j k. ground arith))
scan_side-IsNext ask v i h = Up-IsNext v i _ (
    scan_up-Up (λ j. bit v j && ltb i j) v (v.size - i / 64) (i / 64) _ (omega arith) (omega arith)
      (masked v i above_mask ltb above_mask_bit (λ c k. ground arith)) (λ j k l. ground arith))
