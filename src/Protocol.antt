-- ===== src/Protocol.antt =====
-- net/protocol.hpp: the messages and their byte codes. A frame is [len : u16][type : u8][payload],
-- little-endian, and a buffer is a list of bytes.
pub mod Bytes
pub mod Encode
pub mod Decode
pub mod Framed
pub mod Fields
pub mod RoundTrip
use limit_order_book.Base.{
  ℕ, suc, ◌-◌, ◌+◌, ◌<◌, ◌≤◌, ◌^◌, ℤ, pos, negsuc, Bool, true, false, Option, none, some, List, [],
  ◌∷◌, ltb, leb, ◌==◌, if◌then◌else◌, length, All,
}
use limit_order_book.Types.{Side, bid, ask, Tif, gtc, ioc, fok}

abbrev pub max_frame_len : ℕ
max_frame_len = 256

abbrev pub header_len : ℕ
header_len = 2

abbrev pub book_depth : ℕ
book_depth = 5

-- `other` is a byte that no enumerator has.
pub data MsgType : Type 0 where
  new_order cancel modify market exec_report trade book : MsgType
  other : ℕ → MsgType

abbrev pub type_code : MsgType → ℕ
type_code new_order = 1
type_code cancel = 2
type_code modify = 3
type_code market = 4
type_code exec_report = 16
type_code trade = 32
type_code book = 33
type_code (other n) = n

-- `static_cast<MsgType>`.
unfoldable pub to_type : ℕ → MsgType
to_type n =
    if n == 1
    then new_order
    else if n == 2
    then cancel
    else if n == 3
    then modify
    else if n == 4
    then market
    else if n == 16
    then exec_report
    else if n == 32
    then trade
    else if n == 33
    then book
    else other n

pub record NewOrderMsg : Type 0 where
  pub id : ℕ
  pub px : ℤ
  pub qty : ℕ
  pub side : Side
  pub tif : Tif

pub record CancelMsg : Type 0 where
  pub id : ℕ

pub record ModifyMsg : Type 0 where
  pub id : ℕ
  pub new_px : ℤ
  pub new_qty : ℕ

pub record MarketMsg : Type 0 where
  pub id : ℕ
  pub qty : ℕ
  pub side : Side

pub data ExecStatus : Type 0 where
  accepted filled partial_rest partial_done rejected canceled replaced unknown : ExecStatus

pub record ExecReportMsg : Type 0 where
  pub id : ℕ
  pub filled : ℕ
  pub status : ExecStatus

pub record TradeMsg : Type 0 where
  pub seq : ℕ
  pub px : ℤ
  pub qty : ℕ
  pub taker_side : Side

-- The four arrays have `book_depth` elements.
pub record BookMsg : Type 0 where
  pub seq : ℕ
  pub bid_px : List ℤ
  pub bid_qty : List ℕ
  pub ask_px : List ℤ
  pub ask_qty : List ℕ

abbrev pub side_code : Side → ℕ
side_code bid = 0
side_code ask = 1

abbrev pub tif_code : Tif → ℕ
tif_code gtc = 0
tif_code ioc = 1
tif_code fok = 2

abbrev pub status_code : ExecStatus → ℕ
status_code accepted = 0
status_code filled = 1
status_code partial_rest = 2
status_code partial_done = 3
status_code rejected = 4
status_code canceled = 5
status_code replaced = 6
status_code unknown = 7

-- `static_cast` to an enum, of a byte that the decoder has checked.
abbrev pub to_side : ℕ → Side
to_side n = if n == 0 then bid else ask

abbrev pub to_tif : ℕ → Tif
to_tif n = if n == 0 then gtc else if n == 1 then ioc else fok

abbrev pub to_status : ℕ → ExecStatus
to_status n =
    if n == 0
    then accepted
    else if n == 1
    then filled
    else if n == 2
    then partial_rest
    else if n == 3
    then partial_done
    else if n == 4
    then rejected
    else if n == 5
    then canceled
    else if n == 6
    then replaced
    else unknown

-- What the fields of a message hold: 64-bit ids and sequence numbers, 32-bit quantities;
-- IsI64 is for the prices.
abbrev pub IsU64 : ℕ → Type 0
IsU64 n = n < 2 ^ 64

abbrev pub IsU32 : ℕ → Type 0
IsU32 n = n < 2 ^ 32
