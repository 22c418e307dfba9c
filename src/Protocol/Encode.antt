-- ===== src/Protocol/Encode.antt =====
-- net/protocol.hpp: the seven `encode` overloads. Each is given the buffer and its capacity, and
-- returns the size of the frame and the buffer after it. The fields are put in the order of the
-- `>>` chain.
use limit_order_book.Base.{ℕ, ℤ, List, ◌∷◌}
use limit_order_book.Protocol.{
  type_code, MsgType, NewOrderMsg, CancelMsg, ModifyMsg, MarketMsg, ExecReportMsg, TradeMsg,
  BookMsg, side_code, tif_code, status_code,
}
use limit_order_book.Protocol.Bytes.{Writer, put, put_i64, encode_frame}

-- One `put` after another.
infixl 5 ◌then_put◌
abbrev pub ◌then_put◌ : (Writer → Writer) → (Writer → Writer) → Writer → Writer
◌then_put◌ f g w = g (f w)

unfoldable pub fill_new_order : NewOrderMsg → Writer → Writer
fill_new_order m =
    put 8 m.id
    then_put put_i64 m.px
    then_put put 4 m.qty
    then_put put 1 (side_code m.side)
    then_put put 1 (tif_code m.tif)

unfoldable pub encode_new_order : List ℕ → ℕ → NewOrderMsg → ℕ × List ℕ
unfolding fill_new_order
encode_new_order buf cap m = encode_frame buf cap (type_code MsgType.new_order) (fill_new_order m)

unfoldable pub fill_cancel : CancelMsg → Writer → Writer
fill_cancel m = put 8 m.id

unfoldable pub encode_cancel : List ℕ → ℕ → CancelMsg → ℕ × List ℕ
unfolding fill_cancel
encode_cancel buf cap m = encode_frame buf cap (type_code MsgType.cancel) (fill_cancel m)

unfoldable pub fill_modify : ModifyMsg → Writer → Writer
fill_modify m = put 8 m.id then_put put_i64 m.new_px then_put put 4 m.new_qty

unfoldable pub encode_modify : List ℕ → ℕ → ModifyMsg → ℕ × List ℕ
unfolding fill_modify
encode_modify buf cap m = encode_frame buf cap (type_code MsgType.modify) (fill_modify m)

unfoldable pub fill_market : MarketMsg → Writer → Writer
fill_market m = put 8 m.id then_put put 4 m.qty then_put put 1 (side_code m.side)

unfoldable pub encode_market : List ℕ → ℕ → MarketMsg → ℕ × List ℕ
unfolding fill_market
encode_market buf cap m = encode_frame buf cap (type_code MsgType.market) (fill_market m)

unfoldable pub fill_exec_report : ExecReportMsg → Writer → Writer
fill_exec_report m = put 8 m.id then_put put 4 m.filled then_put put 1 (status_code m.status)

unfoldable pub encode_exec_report : List ℕ → ℕ → ExecReportMsg → ℕ × List ℕ
unfolding fill_exec_report
encode_exec_report buf cap m =
    encode_frame buf cap (type_code MsgType.exec_report) (fill_exec_report m)

unfoldable pub fill_trade : TradeMsg → Writer → Writer
fill_trade m =
    put 8 m.seq then_put put_i64 m.px then_put put 4 m.qty then_put put 1 (side_code m.taker_side)

unfoldable pub encode_trade : List ℕ → ℕ → TradeMsg → ℕ × List ℕ
unfolding fill_trade
encode_trade buf cap m = encode_frame buf cap (type_code MsgType.trade) (fill_trade m)

-- The loop over the levels of one side, on its two arrays.
unfoldable pub put_levels : List ℤ → List ℕ → Writer → Writer
put_levels (px ∷ pxs) (qty ∷ qtys) w = put_levels pxs qtys (put 8 qty (put_i64 px w))
put_levels _ _ w = w

unfoldable pub fill_book : BookMsg → Writer → Writer
fill_book m =
    put 8 m.seq then_put put_levels m.bid_px m.bid_qty then_put put_levels m.ask_px m.ask_qty

unfoldable pub encode_book : List ℕ → ℕ → BookMsg → ℕ × List ℕ
unfolding fill_book
encode_book buf cap m = encode_frame buf cap (type_code MsgType.book) (fill_book m)
