-- ===== src/Tests/WireRuns.antt =====
-- Messages, frames and one matched side on small inputs.
use limit_order_book.Base.{
  ℕ, zero, suc, ℤ, pos, negsuc, ◌≡◌, ◌<◌, ◌+◌, ◌++◌, refl, Bool, true, List, [], ◌∷◌, arith, length,
  min,
}
use limit_order_book.Types.{bid, ask, fok}
use limit_order_book.Priority.{reach, beyond, remain, fills, total}
use limit_order_book.Naive.Sides.{BookSide, before, match_side}
use limit_order_book.Naive.Sides.Queue.{queue}
use limit_order_book.Naive.Sides.Matching.{match_side-queue}
use limit_order_book.Protocol.{
  MsgType, NewOrderMsg, CancelMsg, ModifyMsg, MarketMsg, ExecReportMsg, ExecStatus, TradeMsg,
  BookMsg, max_frame_len, header_len,
}
use limit_order_book.Protocol.Bytes.{le_bytes, le_value}
use limit_order_book.Protocol.Encode.{
  encode_new_order, encode_cancel, encode_modify, encode_market, encode_exec_report, encode_trade,
  encode_book,
}
use limit_order_book.Protocol.Decode.{
  decode_new_order, decode_cancel, decode_modify, decode_market, decode_exec_report, decode_trade,
  decode_book,
}
use limit_order_book.Protocol.Framed.{Sent}
use limit_order_book.Protocol.RoundTrip.Orders.{
  encode_new_order-Sent, encode_cancel-Sent, encode_modify-Sent, encode_market-Sent,
}
use limit_order_book.Protocol.RoundTrip.Reports.{encode_exec_report-Sent, encode_trade-Sent}
use limit_order_book.Protocol.RoundTrip.Book.{encode_book-Sent}
use limit_order_book.Framing.{drain, drain_loop, feed, new, feed_loop}
use limit_order_book.Framing.Stream.{Waits}
use limit_order_book.Framing.Chunks.{
  feed_all, open_buffer, Tells, joined, wire, feed_all-Tells, feed_all-wire, feed-small,
}

-- `n` bytes of an unused buffer.
abbrev blank : ℕ → List ℕ
blank zero = []
blank (suc n) = 0 ∷ blank n

-- Bids at 99 and 98.
abbrev bids : BookSide
bids =
    (pos 99, record { id = 1; qty = 10 } ∷ record { id = 2; qty = 5 } ∷ [])
    ∷ (pos 98, record { id = 3; qty = 7 } ∷ [])
    ∷ []

abbrev above_97 : ℤ → Bool
above_97 px = before bid px (pos 97)

match_side-queue_example :
    let q = queue bids in
    let f = match_side 9 12 above_97 bids in
    (queue f.levels ≡ remain 12 (reach above_97 q) ++ beyond above_97 q)
    × (f.trades ≡ fills 9 12 (reach above_97 q))
    × (f.filled ≡ min 12 (total (reach above_97 q)))
unfolding before
match_side-queue_example = match_side-queue 9 12 above_97 bid bids (ground arith) (omega arith)

abbrev new_order : NewOrderMsg
new_order = record { id = 77; px = negsuc 4; qty = 300; side = ask; tif = fok }

encode_new_order-Sent_example :
    Sent
      (blank 30)
      30
      (encode_new_order (blank 30) 30 new_order)
      25
      MsgType.new_order
      decode_new_order
      new_order
encode_new_order-Sent_example =
    encode_new_order-Sent new_order (blank 30) 30
      (record { id = omega arith; px = omega arith; qty = omega arith }) refl

abbrev cancel : CancelMsg
cancel = record { id = 77 }

encode_cancel-Sent_example :
    Sent (blank 12) 12 (encode_cancel (blank 12) 12 cancel) 11 MsgType.cancel decode_cancel cancel
encode_cancel-Sent_example =
    encode_cancel-Sent cancel (blank 12) 12 (record { id = omega arith }) refl

abbrev modify : ModifyMsg
modify = record { id = 77; new_px = pos 101; new_qty = 4 }

encode_modify-Sent_example :
    Sent (blank 23) 23 (encode_modify (blank 23) 23 modify) 23 MsgType.modify decode_modify modify
encode_modify-Sent_example =
    encode_modify-Sent modify (blank 23) 23
      (record { id = omega arith; new_px = omega arith; new_qty = omega arith }) refl

abbrev market : MarketMsg
market = record { id = 77; qty = 12; side = bid }

encode_market-Sent_example :
    Sent (blank 16) 16 (encode_market (blank 16) 16 market) 16 MsgType.market decode_market market
encode_market-Sent_example =
    encode_market-Sent market (blank 16) 16 (record { id = omega arith; qty = omega arith }) refl

abbrev exec_report : ExecReportMsg
exec_report = record { id = 77; filled = 12; status = ExecStatus.partial_rest }

encode_exec_report-Sent_example :
    Sent
      (blank 16)
      16
      (encode_exec_report (blank 16) 16 exec_report)
      16
      MsgType.exec_report
      decode_exec_report
      exec_report
encode_exec_report-Sent_example =
    encode_exec_report-Sent exec_report (blank 16) 16
      (record { id = omega arith; filled = omega arith }) refl

abbrev trade : TradeMsg
trade = record { seq = 9; px = pos 101; qty = 12; taker_side = ask }

-- Too small a buffer.
encode_trade-Sent_example :
    Sent (blank 20) 20 (encode_trade (blank 20) 20 trade) 24 MsgType.trade decode_trade trade
encode_trade-Sent_example =
    encode_trade-Sent trade (blank 20) 20
      (record { seq = omega arith; px = omega arith; qty = omega arith }) refl

abbrev book : BookMsg
book = record {
  seq = 12;
  bid_px = pos 99 ∷ pos 98 ∷ pos 0 ∷ pos 0 ∷ pos 0 ∷ [];
  bid_qty = 15 ∷ 7 ∷ 0 ∷ 0 ∷ 0 ∷ [];
  ask_px = pos 101 ∷ pos 103 ∷ pos 104 ∷ pos 0 ∷ pos 0 ∷ [];
  ask_qty = 6 ∷ 9 ∷ 2 ∷ 0 ∷ 0 ∷ [];
}

encode_book-Sent_example :
    Sent (blank 180) 180 (encode_book (blank 180) 180 book) 171 MsgType.book decode_book book
encode_book-Sent_example =
    encode_book-Sent book (blank 180) 180
      (record {
        seq = omega arith;
        bids = record { prices = refl; quantities = refl; px = ground arith; qty = ground arith };
        asks = record { prices = refl; quantities = refl; px = ground arith; qty = ground arith };
      })
      refl

-- Two bodies of a stream that is cut inside both headers.
abbrev bodies : List (List ℕ)
bodies = (16 ∷ []) ∷ (2 ∷ 3 ∷ []) ∷ []

abbrev cuts : List (List ℕ)
cuts = (1 ∷ []) ∷ (0 ∷ 16 ∷ 2 ∷ []) ∷ (0 ∷ 2 ∷ 3 ∷ []) ∷ []

feed_all-wire_example : feed_all new cuts ≡ record { buffer = new; ok = true; frames = bodies }
unfolding joined wire le_bytes
feed_all-wire_example = feed_all-wire bodies cuts (ground arith) refl

-- A header of a body of 5 bytes, and 1 of them.
abbrev start : List ℕ
start = 5 ∷ 0 ∷ 9 ∷ []

start-Waits : Waits start
unfolding drain drain_loop le_value
start-Waits = refl

feed_all-Tells_example : Tells (drain (start ++ joined cuts)) (feed_all (open_buffer start) cuts)
feed_all-Tells_example = feed_all-Tells start cuts start-Waits

feed-small_example :
    length (feed (open_buffer start) (7 ∷ 7 ∷ [])).buffer.bytes < header_len + max_frame_len
unfolding feed feed_loop drain drain_loop le_value
feed-small_example = feed-small start (7 ∷ 7 ∷ []) start-Waits refl
