-- ===== src/Protocol/Bytes.antt =====
-- net/protocol.hpp: Writer, Reader and the little-endian layout of a number in memory.
pub mod Laws
pub mod Writing
pub mod Reading
use limit_order_book.Base.{
  ℕ, zero, suc, ◌+◌, ◌-◌, ◌*◌, ◌/◌, ◌%◌, ◌^◌, ℤ, Bool, true, false, Option, none, some, List, [],
  ◌∷◌, ◌++◌, ltb, leb, ◌==◌, if◌then◌else◌, take, drop, length, signed64, word64,
}
use limit_order_book.Protocol.{header_len}

-- The `n` bytes of a number in memory, and the number that they are.
unfoldable pub le_bytes : ℕ → ℕ → List ℕ
le_bytes zero v = []
le_bytes (suc n) v = v % 256 ∷ le_bytes n (v / 256)

unfoldable pub le_value : List ℕ → ℕ
le_value [] = 0
le_value (b ∷ bs) = b + 256 * le_value bs

-- `memcpy` of some bytes into a buffer, at an offset.
unfoldable pub copy_at : ℕ → List ℕ → List ℕ → List ℕ
copy_at at bytes buf = take at buf ++ bytes ++ drop (at + length bytes) buf

pub record Writer : Type 0 where
  pub buf : List ℕ
  pub cap : ℕ
  pub pos : ℕ

-- `put` of a value of `n` bytes: no write past `cap`, but the position goes on.
unfoldable pub put : ℕ → ℕ → Writer → Writer
put n v w =
    if leb (w.pos + n) w.cap
    then record w { buf = copy_at w.pos (le_bytes n v) w.buf; pos = w.pos + n }
    else record w { pos = w.pos + n }

unfoldable pub put_i64 : ℤ → Writer → Writer
put_i64 v w = put 8 (word64 v) w

abbrev pub is_ok : Writer → Bool
is_ok w = leb w.pos w.cap

-- The size of the frame, or 0 on overflow, and the buffer.
unfoldable pub finish : Writer → ℕ → ℕ × List ℕ
finish w body_start =
    if is_ok w
    then (w.pos, copy_at 0 (le_bytes 2 ((w.pos - body_start) % 2 ^ 16)) w.buf)
    else (0, w.buf)

unfoldable pub encode_frame : List ℕ → ℕ → ℕ → (Writer → Writer) → ℕ × List ℕ
encode_frame buf cap code fill =
    finish (fill (put 1 code (put 2 0 (record { buf = buf; cap = cap; pos = 0 })))) header_len

pub record Reader : Type 0 where
  pub buf : List ℕ
  pub len : ℕ
  pub pos : ℕ

-- A step of a decoder: it fails, or goes on from another position.
abbrev pub Parser : Type 0 → Type 0
Parser A = Reader → Option (A × Reader)

infixl 5 ◌>>=◌ ◌>>◌
abbrev pub ◌>>=◌ : {A B : Type 0} → Parser A → (A → Parser B) → Parser B
◌>>=◌ m f r = elim (m r) [ none ↦ none | some (a, r') ↦ f a r' ]

abbrev pub ◌>>◌ : {B : Type 0} → Parser (Unit {0}) → Parser B → Parser B
m >> k = m >>= λ _. k

abbrev pub pure : {A : Type 0} → A → Parser A
pure a r = some (a, r)

abbrev pub guard : Bool → Parser (Unit {0})
guard true r = some (tt, r)
guard false r = none

-- `get` of a value of `n` bytes.
unfoldable pub get : ℕ → Parser ℕ
get n r =
    if ltb r.len (r.pos + n)
    then none
    else some (le_value (take n (drop r.pos r.buf)), record r { pos = r.pos + n })

unfoldable pub get_i64 : Parser ℤ
get_i64 = do v ← get 8; pure (signed64 v)

abbrev pub exhausted : Reader → Bool
exhausted r = r.pos == r.len
