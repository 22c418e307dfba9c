-- ===== src/Protocol/Fields.antt =====
-- The fields of a message of net/protocol.hpp, one at a time: their bytes and how they are read.
use limit_order_book.Base.{
  ℕ, ◌^◌, ◌<◌, ◌≡◌, refl, ℤ, Bool, true, leb, List, [], ◌++◌, arith, IsI64, word64,
}
use limit_order_book.Types.{Side, bid, ask, Tif, gtc, ioc, fok}
use limit_order_book.Protocol.{
  ExecStatus, accepted, filled, partial_rest, partial_done, rejected, canceled, replaced, unknown,
  side_code, tif_code, status_code, to_side, to_tif, to_status,
}
use limit_order_book.Protocol.Bytes.{le_bytes, put_i64, Parser, get, get_i64, ◌>>=◌, ◌>>◌, guard}
use limit_order_book.Protocol.Bytes.Writing.{Puts, put-Puts}
use limit_order_book.Protocol.Bytes.Reading.{
  Reads, get-Reads, get_i64-Reads, bind-Reads, guard-Reads,
}
use limit_order_book.Protocol.Decode.{valid_side, valid_tif}

pub put_i64-Puts : (px : ℤ) → Puts (put_i64 px) (le_bytes 8 (word64 px))
unfolding put_i64
put_i64-Puts px = put-Puts 8 (word64 px)

-- A byte that a checked enum was cast to.
side-Reads : (s : Side) → Reads (get 1) (le_bytes 1 (side_code s)) (side_code s)
side-Reads bid = get-Reads 1 0 (omega arith)
side-Reads ask = get-Reads 1 1 (omega arith)

tif-Reads : (t : Tif) → Reads (get 1) (le_bytes 1 (tif_code t)) (tif_code t)
tif-Reads gtc = get-Reads 1 0 (omega arith)
tif-Reads ioc = get-Reads 1 1 (omega arith)
tif-Reads fok = get-Reads 1 2 (omega arith)

pub side-to_side : (s : Side) → to_side (side_code s) ≡ s
side-to_side bid = refl
side-to_side ask = refl

pub tif-to_tif : (t : Tif) → to_tif (tif_code t) ≡ t
tif-to_tif gtc = refl
tif-to_tif ioc = refl
tif-to_tif fok = refl

pub side_valid : (s : Side) → valid_side (side_code s) ≡ true
side_valid bid = refl
side_valid ask = refl

pub tif_valid : (t : Tif) → valid_tif (tif_code t) ≡ true
tif_valid gtc = refl
tif_valid ioc = refl
tif_valid fok = refl

status-Reads : (s : ExecStatus) → Reads (get 1) (le_bytes 1 (status_code s)) (status_code s)
status-Reads accepted = get-Reads 1 0 (omega arith)
status-Reads filled = get-Reads 1 1 (omega arith)
status-Reads partial_rest = get-Reads 1 2 (omega arith)
status-Reads partial_done = get-Reads 1 3 (omega arith)
status-Reads rejected = get-Reads 1 4 (omega arith)
status-Reads canceled = get-Reads 1 5 (omega arith)
status-Reads replaced = get-Reads 1 6 (omega arith)
status-Reads unknown = get-Reads 1 7 (omega arith)

pub status-to_status : (s : ExecStatus) → to_status (status_code s) ≡ s
status-to_status accepted = refl
status-to_status filled = refl
status-to_status partial_rest = refl
status-to_status partial_done = refl
status-to_status rejected = refl
status-to_status canceled = refl
status-to_status replaced = refl
status-to_status unknown = refl

pub status_valid : (s : ExecStatus) → leb (status_code s) (status_code unknown) ≡ true
status_valid accepted = refl
status_valid filled = refl
status_valid partial_rest = refl
status_valid partial_done = refl
status_valid rejected = refl
status_valid canceled = refl
status_valid replaced = refl
status_valid unknown = refl

module _ {A : Type 0} (q : List ℕ) (a : A) where
  pub read_word :
      (n v : ℕ) (f : ℕ → Parser A)
      → v < 256 ^ n
      → Reads (f v) q a
      → Reads (get n >>= f) (le_bytes n v ++ q) a
  read_word n v f h = bind-Reads (get n) f (le_bytes n v) q v a (get-Reads n v h)

  pub read_price :
      (px : ℤ) (f : ℤ → Parser A)
      → IsI64 px
      → Reads (f px) q a
      → Reads (get_i64 >>= f) (le_bytes 8 (word64 px) ++ q) a
  read_price px f h = bind-Reads get_i64 f (le_bytes 8 (word64 px)) q px a (get_i64-Reads px h)

  pub read_side :
      (s : Side) (f : ℕ → Parser A)
      → Reads (f (side_code s)) q a
      → Reads (get 1 >>= f) (le_bytes 1 (side_code s) ++ q) a
  read_side s f = bind-Reads (get 1) f (le_bytes 1 (side_code s)) q (side_code s) a (side-Reads s)

  pub read_tif :
      (t : Tif) (f : ℕ → Parser A)
      → Reads (f (tif_code t)) q a
      → Reads (get 1 >>= f) (le_bytes 1 (tif_code t) ++ q) a
  read_tif t f = bind-Reads (get 1) f (le_bytes 1 (tif_code t)) q (tif_code t) a (tif-Reads t)

  pub read_status :
      (s : ExecStatus) (f : ℕ → Parser A)
      → Reads (f (status_code s)) q a
      → Reads (get 1 >>= f) (le_bytes 1 (status_code s) ++ q) a
  read_status s f =
      bind-Reads (get 1) f (le_bytes 1 (status_code s)) q (status_code s) a (status-Reads s)

  pub pass : (t : Bool) (k : Parser A) → t ≡ true → Reads k q a → Reads (guard t >> k) q a
  pass t k e = bind-Reads (guard t) (λ _. k) [] q tt a (guard-Reads t e)
