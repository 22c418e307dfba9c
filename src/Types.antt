-- ===== src/Types.antt =====
-- include/lob/types.hpp: prices, sides, order kinds, results and the events of a listener.
-- A Price is an ℤ; a Qty, an OrderId and an Owner are numbers below 2 ^ 32 or 2 ^ 64.
use limit_order_book.Base.{ℕ, ℤ, pos, Bool, true, false}

pub data Side : Type 0 where
  bid ask : Side

pub data Tif : Type 0 where
  gtc ioc fok : Tif

pub data Stp : Type 0 where
  allow cancel_resting reject_incoming : Stp

-- `kNoPrice`.
abbrev pub no_price : ℤ
no_price = pos 0

pub record SubmitResult : Type 0 where
  pub filled : ℕ
  pub rested : Bool
  pub rejected : Bool

pub record ModifyResult : Type 0 where
  pub ok : Bool
  pub filled : ℕ
  pub rested : Bool
  pub found : Bool

-- One call of `on_trade`.
pub record Trade : Type 0 where
  pub taker : ℕ
  pub maker : ℕ
  pub px : ℤ
  pub qty : ℕ

-- What an engine tells its listener, with the arguments of the two hooks.
pub data Event : Type 0 where
  on_trade : ℕ → ℕ → ℤ → ℕ → Event
  on_cancel : ℕ → ℕ → Event

abbrev pub is_gtc : Tif → Bool
is_gtc gtc = true
is_gtc _ = false

abbrev pub is_fok : Tif → Bool
is_fok fok = true
is_fok _ = false
