-- ===== src/Protocol/Bytes/Reading.antt =====
-- A Reader reads back what a Writer put.
use limit_order_book.Base.{
  ℕ, ◌+◌, ◌^◌, ◌<◌, ◌≡◌, ℤ, pos, negsuc, Bool, true, false, some, List, [], ◌++◌, arith, length,
  length-append, ltb, append_assoc, append-nil, IsI64, signed64-word64, word64,
}
use limit_order_book.Protocol.Bytes.{
  le_bytes, le_value, Reader, Parser, ◌>>=◌, pure, guard, get, get_i64,
}
use limit_order_book.Protocol.Bytes.Laws.{
  length-le_bytes, le_value-le_bytes, take-append_self, drop-append_self,
}

-- The reader between what it has read and what it has still to read.
abbrev pub between : List ℕ → List ℕ → Reader
between old todo = record { buf = old ++ todo; len = length old + length todo; pos = length old }

-- A step reads these bytes as this value, wherever they stand.
abbrev pub Reads : {A : Type 0} → Parser A → List ℕ → A → Type 0
Reads m bytes a =
    (old rest : List ℕ) → m (between old (bytes ++ rest)) ≡ some (a, between (old ++ bytes) rest)

between-move :
    (old bytes rest : List ℕ)
    → record (between old (bytes ++ rest)) { pos = length old + length bytes }
      ≡ between (old ++ bytes) rest
between-move old bytes rest =
    let sum : length old + (length bytes + length rest) ≡ length old + length bytes + length rest =
      omega arith in
    rw (← append_assoc, length-append, length-append, sum)

get_bytes :
    (bytes old rest : List ℕ)
    → get (length bytes) (between old (bytes ++ rest))
      ≡ some (le_value bytes, between (old ++ bytes) rest)
unfolding get
get_bytes bytes old rest =
    let room : ltb (length old + length (bytes ++ rest)) (length old + length bytes) ≡ false =
      ground (arith, length-append bytes rest) in
    rw (room, drop-append_self, take-append_self, between-move old bytes rest)

pub get-Reads : (n v : ℕ) → v < 256 ^ n → Reads (get n) (le_bytes n v) v
get-Reads n v h old rest =
    rw (length-le_bytes, le_value-le_bytes n v h) at (get_bytes (le_bytes n v) old rest)

-- The end of the bytes is reached with nothing between.
pub pure-Reads : {A : Type 0} (a : A) → Reads (pure a) [] a
pure-Reads a old rest = rw append-nil

pub bind-Reads :
    {A B : Type 0} (m : Parser A) (f : A → Parser B) (p q : List ℕ) (a : A) (b : B)
    → Reads m p a
    → Reads (f a) q b
    → Reads (m >>= f) (p ++ q) b
bind-Reads m f p q a b hm hf old rest =
    rw (append_assoc p q rest, hm old (q ++ rest), ◌>>=◌, hf (old ++ p) rest, append_assoc old p q)

pub guard-Reads : (t : Bool) → t ≡ true → Reads (guard t) [] tt
guard-Reads t e old rest = rw (e, append-nil)

word64-lt : (px : ℤ) → IsI64 px → word64 px < 256 ^ 8
word64-lt (pos n) h = omega arith
word64-lt (negsuc n) h = omega arith

pub get_i64-Reads : (px : ℤ) → IsI64 px → Reads get_i64 (le_bytes 8 (word64 px)) px
unfolding get_i64
get_i64-Reads px h old rest =
    rw (get-Reads 8 (word64 px) (word64-lt px h) old rest, ◌>>=◌, signed64-word64 px h)
