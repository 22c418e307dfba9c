-- ===== src/Protocol/RoundTrip/Reports.antt =====
-- The messages of the gateway, net/protocol.hpp: each `encode` against its decoder.
use limit_order_book.Base.{ℕ, ◌≡◌, refl, List, [], ◌++◌, ◌≤◌, arith, length, take, IsI64, word64}
use limit_order_book.Protocol.{
  MsgType, ExecReportMsg, TradeMsg, IsU64, IsU32, side_code, status_code, to_type,
}
use limit_order_book.Protocol.Bytes.{le_bytes}
use limit_order_book.Protocol.Bytes.Writing.{Puts, put-Puts, then-Puts, none-Puts}
use limit_order_book.Protocol.Bytes.Reading.{Reads, pure-Reads}
use limit_order_book.Protocol.Encode.{
  encode_exec_report, fill_exec_report, encode_trade, fill_trade,
}
use limit_order_book.Protocol.Decode.{
  decode_exec_report, parse_exec_report, decode_trade, parse_trade,
}
use limit_order_book.Protocol.Fields.{
  put_i64-Puts, side-to_side, status-to_status, side_valid, status_valid, read_word, read_price,
  read_side, read_status, pass,
}
use limit_order_book.Protocol.Framed.{Sent, frame-Sent, length-encode_frame}

-- Fields within the ranges of their types.
pub record IsExecReport (m : ExecReportMsg) : Type 0 where
  pub id : IsU64 m.id
  pub filled : IsU32 m.filled

abbrev exec_report_bytes : ExecReportMsg → List ℕ
exec_report_bytes m =
    le_bytes 8 m.id ++ (le_bytes 4 m.filled ++ (le_bytes 1 (status_code m.status) ++ []))

exec_report-Puts : (m : ExecReportMsg) → Puts (fill_exec_report m) (exec_report_bytes m)
unfolding fill_exec_report
exec_report-Puts m = then-Puts _ _ (put-Puts 8 m.id) (
    then-Puts _ _ (put-Puts 4 m.filled)
      (then-Puts _ _ (put-Puts 1 (status_code m.status)) none-Puts))

exec_report-Reads :
    (m : ExecReportMsg) → IsExecReport m → Reads parse_exec_report (exec_report_bytes m) m
unfolding parse_exec_report
exec_report-Reads m h = read_word _ m 8 m.id _ (omega arith) (
    read_word _ m 4 m.filled _ (omega arith) (
      read_status _ m m.status _
        (pass _ m _ _ (status_valid m.status) (rw (status-to_status) (pure-Reads m)))))

-- An execution report with fields in their ranges goes out as a frame into any buffer of at least
-- 16 bytes, is typed as one and decodes to the same message, the buffer behind being as it was; a
-- smaller buffer is refused with 0.
pub encode_exec_report-Sent :
    (m : ExecReportMsg) (buf : List ℕ) (cap : ℕ)
    → IsExecReport m
    → length buf ≡ cap
    → Sent buf cap (encode_exec_report buf cap m) 16 MsgType.exec_report decode_exec_report m
unfolding encode_exec_report decode_exec_report le_bytes to_type
encode_exec_report-Sent m buf cap h whole =
    frame-Sent MsgType.exec_report (fill_exec_report m) parse_exec_report (exec_report_bytes m) m
      (exec_report-Puts m) (exec_report-Reads m h) (omega arith) (omega arith, refl) buf cap whole

-- Fields within the ranges of their types.
pub record IsTrade (m : TradeMsg) : Type 0 where
  pub seq : IsU64 m.seq
  pub px : IsI64 m.px
  pub qty : IsU32 m.qty

abbrev trade_bytes : TradeMsg → List ℕ
trade_bytes m =
    le_bytes 8 m.seq
    ++ (le_bytes 8 (word64 m.px)
        ++ (le_bytes 4 m.qty ++ (le_bytes 1 (side_code m.taker_side) ++ [])))

trade-Puts : (m : TradeMsg) → Puts (fill_trade m) (trade_bytes m)
unfolding fill_trade
trade-Puts m = then-Puts _ _ (put-Puts 8 m.seq) (
    then-Puts _ _ (put_i64-Puts m.px) (
      then-Puts _ _ (put-Puts 4 m.qty)
        (then-Puts _ _ (put-Puts 1 (side_code m.taker_side)) none-Puts)))

trade-Reads : (m : TradeMsg) → IsTrade m → Reads parse_trade (trade_bytes m) m
unfolding parse_trade
trade-Reads m h = read_word _ m 8 m.seq _ (omega arith) (
    read_price _ m m.px _ h.px (
      read_word _ m 4 m.qty _ (omega arith) (
        read_side _ m m.taker_side _
          (pass _ m _ _ (side_valid m.taker_side) (rw (side-to_side) (pure-Reads m))))))

-- A trade with fields in their ranges goes out as a frame into any buffer of at least 24 bytes, is
-- typed as one and decodes to the same message, the buffer behind being as it was; a smaller buffer
-- is refused with 0.
pub encode_trade-Sent :
    (m : TradeMsg) (buf : List ℕ) (cap : ℕ)
    → IsTrade m
    → length buf ≡ cap
    → Sent buf cap (encode_trade buf cap m) 24 MsgType.trade decode_trade m
unfolding encode_trade decode_trade le_bytes to_type
encode_trade-Sent m buf cap h whole =
    frame-Sent MsgType.trade (fill_trade m) parse_trade (trade_bytes m) m (trade-Puts m)
      (trade-Reads m h) (omega arith) (omega arith, refl) buf cap whole

-- The bytes of the frame are 24 in all.
pub length-encode_trade :
    (m : TradeMsg) (buf : List ℕ) (cap : ℕ)
    → IsTrade m
    → length buf ≡ cap
    → 24 ≤ cap
    → length (take 24 (encode_trade buf cap m).1) ≡ 24
unfolding encode_trade decode_trade le_bytes to_type
length-encode_trade m buf cap h whole fits =
    length-encode_frame MsgType.trade (fill_trade m) parse_trade (trade_bytes m) m (trade-Puts m)
      (trade-Reads m h) (omega arith) (omega arith, refl) buf cap whole fits
