-- ===== src/FlatLadder.antt =====
-- include/lob/order_book.hpp, class Ladder: one side of the book as an array of levels over a band of
-- prices, a bitmap of the levels that hold orders, and the best price.
pub mod Bits
pub mod Scans
pub mod Shape
pub mod Contents
pub mod Changes
pub mod Laws
pub mod Queries
use limit_order_book.Base.{
  ℕ, zero, suc, ◌+◌, ◌-◌, ◌*◌, ◌/◌, ◌%◌, ℤ, pos, negsuc, ◌+ℤ◌, ◌-ℤ◌, leb_ℤ, ltb_ℤ, eqb_ℤ, u64_mod,
  Bool, ◌&&◌, ◌||◌, Option, none, some, ◌==◌, if◌then◌else◌,
}
use limit_order_book.Types.{Side, bid, ask, no_price}
use limit_order_book.Fifo.{null, Level}
use limit_order_book.FlatLadder.Bits.{
  Word, zero_word, one_word, or_word, and_word, not_word, shift_left, shift_right, is_nonzero, clz,
  ctz, below_mask, above_mask,
}

-- A `std::vector`. What `get` gives from `size` on is never read.
pub record Vector (A : Type 0) : Type 0 where
  pub size : ℕ
  pub get : ℕ → A

abbrev pub set_at : {A : Type 0} → ℕ → A → Vector A → Vector A
set_at i x v = record v { get = λ j. if j == i then x else v.get j }

pub record FlatLadder : Type 0 where
  pub side : Side
  pub levels : Vector Level
  pub words : Vector Word
  pub lo : ℤ
  pub hi : ℤ
  pub best : ℤ

-- `static_cast<std::size_t>` of a price.
unfoldable pub to_size : ℤ → ℕ
to_size (pos n) = n % u64_mod
to_size (negsuc n) = u64_mod - 1 - n % u64_mod

abbrev pub clear_level : ℤ → Level
clear_level px = record { head = null; tail = null; total_qty = 0; count = 0; price = px }

unfoldable pub make_ladder : Side → ℤ → ℤ → FlatLadder
make_ladder s lo hi =
    let size = to_size (hi -ℤ lo) in
    record {
      side = s;
      levels = record { size = size; get = λ i. clear_level (lo +ℤ pos i) };
      words = record { size = (size + 63) / 64; get = λ i. zero_word };
      lo = lo;
      hi = hi;
      best = no_price;
    }

unfoldable pub in_band : ℤ → FlatLadder → Bool
in_band px l = leb_ℤ l.lo px && ltb_ℤ px l.hi

-- `static_cast<std::size_t>(px - lo_)`.
unfoldable pub index : ℤ → FlatLadder → ℕ
index px l = to_size (px -ℤ l.lo)

unfoldable pub at : ℤ → FlatLadder → Level
at px l = l.levels.get (index px l)

-- What is written through the reference that `at` gives.
unfoldable pub put : ℤ → Level → FlatLadder → FlatLadder
put px lvl l = record l { levels = set_at (index px l) lvl l.levels }

-- `words_[i >> 6] |= (1ull << (i & 63))`.
unfoldable pub mark : ℕ → Vector Word → Vector Word
mark i v = set_at (i / 64) (or_word (v.get (i / 64)) (shift_left one_word (i % 64))) v

-- `words_[i >> 6] &= ~(1ull << (i & 63))`.
unfoldable pub unmark : ℕ → Vector Word → Vector Word
unmark i v = set_at (i / 64) (and_word (v.get (i / 64)) (not_word (shift_left one_word (i % 64)))) v

abbrev pub better : Side → ℤ → ℤ → Bool
better bid a b = ltb_ℤ b a
better ask a b = ltb_ℤ a b

unfoldable pub on_nonempty : ℤ → FlatLadder → FlatLadder
on_nonempty px l = record l {
  words = mark (index px l) l.words;
  best = if eqb_ℤ l.best no_price || better l.side px l.best then px else l.best;
}

-- The loop for bids, from the word at `w`, of which `word` is what is left.
unfoldable pub scan_down : Vector Word → ℕ → Word → Option ℕ
scan_down v zero word = if is_nonzero word then some (64 * 0 + (63 - clz word)) else none
scan_down v (suc w) word =
    let rest = scan_down v w (v.get w) in
    if is_nonzero word then some (64 * suc w + (63 - clz word)) else rest

-- The loop for asks, with at most `fuel` words to go.
unfoldable pub scan_up : Vector Word → ℕ → ℕ → Word → Option ℕ
scan_up v zero w word = none
scan_up v (suc fuel) w word =
    let rest = scan_up v fuel (suc w) (v.get (suc w)) in
    if is_nonzero word then some (64 * w + ctz word) else if suc w == v.size then none else rest

unfoldable pub scan_side : Side → Vector Word → ℕ → Option ℕ
scan_side bid v i = scan_down v (i / 64) (and_word (v.get (i / 64)) (below_mask (i % 64)))
scan_side ask v i =
    scan_up v (v.size - i / 64) (i / 64) (and_word (v.get (i / 64)) (above_mask (i % 64)))

-- `lo_ + static_cast<Price>(i)`, or `kNoPrice`.
abbrev pub price_at : ℤ → Option ℕ → ℤ
price_at lo none = no_price
price_at lo (some i) = lo +ℤ pos i

unfoldable pub scan_worse : ℤ → FlatLadder → ℤ
scan_worse px l = price_at l.lo (scan_side l.side l.words (index px l))

unfoldable pub on_empty : ℤ → FlatLadder → FlatLadder
on_empty px l =
    let l' = record l { words = unmark (index px l) l.words } in
    record l' { best = if eqb_ℤ l'.best px then scan_worse px l' else l'.best }

unfoldable pub bit_set : ℤ → FlatLadder → Bool
bit_set px l = let i = index px l in shift_right (l.words.get (i / 64)) (i % 64) 0
