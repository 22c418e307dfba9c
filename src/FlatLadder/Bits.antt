-- ===== src/FlatLadder/Bits.antt =====
-- The 64-bit words of the bitmap in include/lob/order_book.hpp, as their bits, with the operators
-- and the counts of zero bits that the ladder uses.
use limit_order_book.Base.{
  ℕ, zero, suc, ◌+◌, ◌-◌, ◌<◌, ◌≤◌, ◌≡◌, Bool, true, false, not, ◌&&◌, ◌||◌, ltb, leb, ◌==◌,
  if◌then◌else◌, arith, Bool-cases, ◌⊎◌, inl, inr, ==_iff,
}

-- The bits of a word, from the lowest; the bits from 64 on are 0.
abbrev pub Word : Type 0
Word = ℕ → Bool

abbrev pub zero_word : Word
zero_word i = false

-- `1ull`.
abbrev pub one_word : Word
one_word i = i == 0

abbrev pub or_word : Word → Word → Word
or_word a b i = a i || b i

abbrev pub and_word : Word → Word → Word
and_word a b i = a i && b i

abbrev pub not_word : Word → Word
not_word a i = ltb i 64 && not (a i)

abbrev pub shift_left : Word → ℕ → Word
shift_left a n i = ltb i 64 && (leb n i && a (i - n))

abbrev pub shift_right : Word → ℕ → Word
shift_right a n i = a (i + n)

-- `~0ull`.
abbrev pub ones : Word
ones i = not_word zero_word i

-- A bit below `n`.
unfoldable pub any_bit : ℕ → Word → Bool
any_bit zero a = false
any_bit (suc n) a = a n || any_bit n a

-- The test of a word that is not 0.
unfoldable pub is_nonzero : Word → Bool
is_nonzero a = any_bit 64 a

unfoldable pub zeros_down : ℕ → Word → ℕ
zeros_down zero a = 0
zeros_down (suc n) a = let more = zeros_down n a in if a n then 0 else suc more

unfoldable pub zeros_up : ℕ → ℕ → Word → ℕ
zeros_up zero i a = 0
zeros_up (suc n) i a = let more = zeros_up n (suc i) a in if a i then 0 else suc more

-- `__builtin_clzll` and `__builtin_ctzll`.
unfoldable pub clz : Word → ℕ
clz a = zeros_down 64 a

unfoldable pub ctz : Word → ℕ
ctz a = zeros_up 64 0 a

-- `(b == 0 ? 0 : (~0ull >> (64 - b)))`.
abbrev pub below_mask : ℕ → Word
below_mask b i = if b == 0 then zero_word i else shift_right ones (64 - b) i

-- `(b == 63 ? 0 : (~0ull << (b + 1)))`.
abbrev pub above_mask : ℕ → Word
above_mask b i = if b == 63 then zero_word i else shift_left ones (suc b) i

pub below_mask_bit : (b c : ℕ) → b < 64 → c < 64 → below_mask b c ≡ ltb c b
below_mask_bit b c h k = ground arith

pub above_mask_bit : (b c : ℕ) → b < 64 → c < 64 → above_mask b c ≡ ltb b c
above_mask_bit b c h k = ground arith

pub any_bit-false : (n : ℕ) (a : Word) → any_bit n a ≡ false → (j : ℕ) → j < n → a j ≡ false
unfolding any_bit
any_bit-false zero a e j h = absurd (omega arith)
any_bit-false (suc n) a e j h = elim (Bool-cases (j == n)) [
  | inl same ↦ let at_n : j ≡ n = ground arith in rw at_n (ground arith)
  | inr other ↦ any_bit-false n a (ground arith) j (ground arith)
]

-- The highest bit below `n` is at `k`.
pub record Highest (a : Word) (n k : ℕ) : Type 0 where
  pub below : k < n
  pub holds : a k ≡ true
  pub clear : (j : ℕ) → k < j → j < n → a j ≡ false

-- The lowest bit of those from `i` on and below `n` is at `k`.
pub record Lowest (a : Word) (i n k : ℕ) : Type 0 where
  pub from : i ≤ k
  pub below : k < n
  pub holds : a k ≡ true
  pub clear : (j : ℕ) → i ≤ j → j < k → a j ≡ false

false_at : (a : Word) (i j : ℕ) → a i ≡ false → (j == i) ≡ true → a j ≡ false
false_at a i j e same = rw ((==_iff j i).0 same) e

past : (i j : ℕ) → (j == i) ≡ false → i ≤ j → suc i ≤ j
past i j d h = ground arith

pub zeros_down-Highest :
    (n : ℕ) (a : Word)
    → any_bit n a ≡ true
    → (zeros_down n a < n) × Highest a n (n - suc (zeros_down n a))
unfolding any_bit zeros_down
zeros_down-Highest zero a e = absurd (cc e)
zeros_down-Highest (suc n) a e = elim (Bool-cases (a n)) [
  | inl top ↦
      let last : suc n - 1 ≡ n = omega arith in
      rw (top, last)
        (
          omega arith,
          record { below = omega arith; holds = top; clear = λ j h k. absurd (omega arith) },
        )
  | inr low ↦
      let r = zeros_down-Highest n a (rw low at e) in
      let back : suc n - suc (suc (zeros_down n a)) ≡ n - suc (zeros_down n a) = omega arith in
      rw (low, back)
        (
          omega (arith, r.0),
          record {
            below = omega (arith, r.0);
            holds = r.1.holds;
            clear = λ j h k. elim (Bool-cases (j == n)) [
              | inl same ↦ false_at a n j low same
              | inr other ↦ r.1.clear j h (ground arith)
            ];
          },
        )
]

pub zeros_up-cases :
    (n i : ℕ) (a : Word)
    → ((j : ℕ) → i ≤ j → j < i + n → a j ≡ false) ⊎ Lowest a i (i + n) (i + zeros_up n i a)
unfolding zeros_up
zeros_up-cases zero i a = inl (λ j h k. absurd (omega arith))
zeros_up-cases (suc n) i a = elim (Bool-cases (a i)) [
  | inl here ↦
      let same : i + 0 ≡ i = omega arith in
      inr (
        rw (here, same)
          record {
            from = omega arith;
            below = omega arith;
            holds = here;
            clear = λ j h k. absurd (omega arith);
          })
  | inr away ↦
      let next : suc i + n ≡ i + suc n = omega arith in
      elim (zeros_up-cases n (suc i) a) [
        | inl none ↦ inl (λ j h k. elim (Bool-cases (j == i)) [
          | inl same ↦ false_at a i j away same
          | inr d ↦ none j (past i j d h) (omega (arith, k))
        ])
        | inr r ↦
            let at_next : suc i + zeros_up n (suc i) a ≡ i + suc (zeros_up n (suc i) a) =
              omega arith in
            inr (
              rw away record {
                from = omega arith;
                below = omega (arith, r.below);
                holds = rw at_next at r.holds;
                clear = λ j h k. elim (Bool-cases (j == i)) [
                  | inl same ↦ false_at a i j away same
                  | inr d ↦ r.clear j (past i j d h) (omega (arith, k))
                ];
              })
      ]
]

-- A word that is not 0 has its highest bit where `clz` says, and its lowest where `ctz` says.
pub clz-Highest : (a : Word) → is_nonzero a ≡ true → (clz a < 64) × Highest a 64 (63 - clz a)
unfolding is_nonzero clz
clz-Highest a e =
    let r = zeros_down-Highest 64 a e in
    let same : 64 - suc (zeros_down 64 a) ≡ 63 - zeros_down 64 a = omega arith in
    (r.0, rw same at r.1)

pub ctz-Lowest : (a : Word) → is_nonzero a ≡ true → Lowest a 0 64 (ctz a)
unfolding is_nonzero ctz
ctz-Lowest a e = elim (zeros_up-cases 64 0 a) [
  | inr r ↦ let same : 0 + zeros_up 64 0 a ≡ zeros_up 64 0 a = omega arith in rw same at r
  | inl none ↦
      let r = (zeros_down-Highest 64 a e).1 in
      absurd
        (cc (r.holds, none (64 - suc (zeros_down 64 a)) (omega arith) (omega (arith, r.below))))
]
