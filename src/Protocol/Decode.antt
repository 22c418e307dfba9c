-- ===== src/Protocol/Decode.antt =====
-- net/protocol.hpp: `peek_type` and the seven decoders. `body` is the frame from its type byte on.
use limit_order_book.Base.{
  ℕ, zero, suc, ◌-◌, ◌==◌, u64_mod, ℤ, Bool, Option, none, some, List, [], ◌∷◌, leb, drop, length,
  if◌then◌else◌,
}
use limit_order_book.Protocol.{
  MsgType, to_type, NewOrderMsg, CancelMsg, ModifyMsg, MarketMsg, ExecReportMsg, TradeMsg, BookMsg,
  ExecStatus, status_code, to_side, to_tif, to_status, book_depth,
}
use limit_order_book.Protocol.Bytes.{Parser, ◌>>=◌, ◌>>◌, pure, guard, get, get_i64, exhausted}

abbrev pub valid_side : ℕ → Bool
valid_side s = leb s 1

abbrev pub valid_tif : ℕ → Bool
valid_tif t = leb t 2

unfoldable pub peek_type : List ℕ → Option MsgType
peek_type [] = none
peek_type (b ∷ _) = some (to_type b)

-- `n - 1` on 64 bits.
abbrev pub pred64 : ℕ → ℕ
pred64 n = if n == 0 then u64_mod - 1 else n - 1

-- `len - 1` of a size_t wraps around for an empty body, which the callers rule out by peek_type.
-- What is parsed must end where the body ends.
unfoldable pub decode_body : {M : Type 0} → List ℕ → Parser M → Option M
decode_body body parse =
    elim (parse (record { buf = drop 1 body; len = pred64 (length body); pos = 0 })) [
      | none ↦ none
      | some (m, r) ↦ if exhausted r then some m else none
    ]

unfoldable pub parse_new_order : Parser NewOrderMsg
parse_new_order = do
  id ← get 8
  px ← get_i64
  qty ← get 4
  side ← get 1
  tif ← get 1
  guard (valid_side side)
  guard (valid_tif tif)
  pure (record { id = id; px = px; qty = qty; side = to_side side; tif = to_tif tif })

unfoldable pub decode_new_order : List ℕ → Option NewOrderMsg
unfolding parse_new_order
decode_new_order body = decode_body body parse_new_order

unfoldable pub parse_cancel : Parser CancelMsg
parse_cancel = do id ← get 8; pure (record { id = id })

unfoldable pub decode_cancel : List ℕ → Option CancelMsg
unfolding parse_cancel
decode_cancel body = decode_body body parse_cancel

unfoldable pub parse_modify : Parser ModifyMsg
parse_modify = do
  id ← get 8
  px ← get_i64
  qty ← get 4
  pure (record { id = id; new_px = px; new_qty = qty })

unfoldable pub decode_modify : List ℕ → Option ModifyMsg
unfolding parse_modify
decode_modify body = decode_body body parse_modify

unfoldable pub parse_market : Parser MarketMsg
parse_market = do
  id ← get 8
  qty ← get 4
  side ← get 1
  guard (valid_side side)
  pure (record { id = id; qty = qty; side = to_side side })

unfoldable pub decode_market : List ℕ → Option MarketMsg
unfolding parse_market
decode_market body = decode_body body parse_market

unfoldable pub parse_exec_report : Parser ExecReportMsg
parse_exec_report = do
  id ← get 8
  filled ← get 4
  st ← get 1
  guard (leb st (status_code ExecStatus.unknown))
  pure (record { id = id; filled = filled; status = to_status st })

unfoldable pub decode_exec_report : List ℕ → Option ExecReportMsg
unfolding parse_exec_report
decode_exec_report body = decode_body body parse_exec_report

unfoldable pub parse_trade : Parser TradeMsg
parse_trade = do
  seq ← get 8
  px ← get_i64
  qty ← get 4
  side ← get 1
  guard (valid_side side)
  pure (record { seq = seq; px = px; qty = qty; taker_side = to_side side })

unfoldable pub decode_trade : List ℕ → Option TradeMsg
unfolding parse_trade
decode_trade body = decode_body body parse_trade

-- The loop over `n` levels of one side, into its two arrays.
unfoldable pub get_levels : ℕ → Parser (List ℤ × List ℕ)
get_levels zero = pure ([], [])
get_levels (suc n) = do
  px ← get_i64
  qty ← get 8
  (pxs, qtys) ← get_levels n
  pure (px ∷ pxs, qty ∷ qtys)

unfoldable pub parse_book : Parser BookMsg
parse_book = do
  seq ← get 8
  (bid_px, bid_qty) ← get_levels book_depth
  (ask_px, ask_qty) ← get_levels book_depth
  pure
      (record { seq = seq; bid_px = bid_px; bid_qty = bid_qty; ask_px = ask_px; ask_qty = ask_qty })

unfoldable pub decode_book : List ℕ → Option BookMsg
unfolding parse_book
decode_book body = decode_body body parse_book
