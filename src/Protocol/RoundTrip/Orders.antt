-- ===== src/Protocol/RoundTrip/Orders.antt =====
-- The messages of a client, net/protocol.hpp: each `encode` against its decoder.
use limit_order_book.Base.{ℕ, ◌≡◌, refl, List, [], ◌++◌, arith, length, IsI64, word64}
use limit_order_book.Protocol.{
  MsgType, NewOrderMsg, CancelMsg, ModifyMsg, MarketMsg, IsU64, IsU32, side_code, tif_code, to_type,
}
use limit_order_book.Protocol.Bytes.{le_bytes}
use limit_order_book.Protocol.Bytes.Writing.{Puts, put-Puts, then-Puts, none-Puts}
use limit_order_book.Protocol.Bytes.Reading.{Reads, pure-Reads}
use limit_order_book.Protocol.Encode.{
  encode_new_order, fill_new_order, encode_cancel, fill_cancel, encode_modify, fill_modify,
  encode_market, fill_market,
}
use limit_order_book.Protocol.Decode.{
  decode_new_order, parse_new_order, decode_cancel, parse_cancel, decode_modify, parse_modify,
  decode_market, parse_market,
}
use limit_order_book.Protocol.Fields.{
  put_i64-Puts, side-to_side, tif-to_tif, side_valid, tif_valid, read_word, read_price, read_side,
  read_tif, pass,
}
use limit_order_book.Protocol.Framed.{Sent, frame-Sent}

-- Fields within the ranges of their types.
pub record IsNewOrder (m : NewOrderMsg) : Type 0 where
  pub id : IsU64 m.id
  pub px : IsI64 m.px
  pub qty : IsU32 m.qty

abbrev new_order_bytes : NewOrderMsg → List ℕ
new_order_bytes m =
    le_bytes 8 m.id
    ++ (le_bytes 8 (word64 m.px)
        ++ (le_bytes 4 m.qty
            ++ (le_bytes 1 (side_code m.side) ++ (le_bytes 1 (tif_code m.tif) ++ []))))

new_order-Puts : (m : NewOrderMsg) → Puts (fill_new_order m) (new_order_bytes m)
unfolding fill_new_order
new_order-Puts m = then-Puts _ _ (put-Puts 8 m.id) (
    then-Puts _ _ (put_i64-Puts m.px) (
      then-Puts _ _ (put-Puts 4 m.qty) (
        then-Puts _ _ (put-Puts 1 (side_code m.side))
          (then-Puts _ _ (put-Puts 1 (tif_code m.tif)) none-Puts))))

new_order-Reads : (m : NewOrderMsg) → IsNewOrder m → Reads parse_new_order (new_order_bytes m) m
unfolding parse_new_order
new_order-Reads m h = read_word _ m 8 m.id _ (omega arith) (
    read_price _ m m.px _ h.px (
      read_word _ m 4 m.qty _ (omega arith) (
        read_side _ m m.side _ (
          read_tif _ m m.tif _ (
            pass _ m _ _ (side_valid m.side)
              (pass _ m _ _ (tif_valid m.tif) (rw (side-to_side, tif-to_tif) (pure-Reads m))))))))

-- A new order with fields in their ranges goes out as a frame into any buffer of at least 25 bytes:
-- the answer is 25, the length prefix counts the body, the body names the type and decodes to the
-- message, and the buffer behind is as it was. A smaller buffer is refused with 0.
pub encode_new_order-Sent :
    (m : NewOrderMsg) (buf : List ℕ) (cap : ℕ)
    → IsNewOrder m
    → length buf ≡ cap
    → Sent buf cap (encode_new_order buf cap m) 25 MsgType.new_order decode_new_order m
unfolding encode_new_order decode_new_order le_bytes to_type
encode_new_order-Sent m buf cap h whole =
    frame-Sent MsgType.new_order (fill_new_order m) parse_new_order (new_order_bytes m) m
      (new_order-Puts m) (new_order-Reads m h) (omega arith) (omega arith, refl) buf cap whole

-- Fields within the ranges of their types.
pub record IsCancel (m : CancelMsg) : Type 0 where
  pub id : IsU64 m.id

abbrev cancel_bytes : CancelMsg → List ℕ
cancel_bytes m = le_bytes 8 m.id ++ []

cancel-Puts : (m : CancelMsg) → Puts (fill_cancel m) (cancel_bytes m)
unfolding fill_cancel
cancel-Puts m = then-Puts _ _ (put-Puts 8 m.id) none-Puts

cancel-Reads : (m : CancelMsg) → IsCancel m → Reads parse_cancel (cancel_bytes m) m
unfolding parse_cancel
cancel-Reads m h = read_word _ m 8 m.id _ (omega arith) (pure-Reads m)

-- A cancel with an id in its range goes out as a frame into any buffer of at least 11 bytes, is
-- typed as one and decodes to the same message, the buffer behind being as it was; a smaller buffer
-- is refused with 0.
pub encode_cancel-Sent :
    (m : CancelMsg) (buf : List ℕ) (cap : ℕ)
    → IsCancel m
    → length buf ≡ cap
    → Sent buf cap (encode_cancel buf cap m) 11 MsgType.cancel decode_cancel m
unfolding encode_cancel decode_cancel le_bytes to_type
encode_cancel-Sent m buf cap h whole =
    frame-Sent MsgType.cancel (fill_cancel m) parse_cancel (cancel_bytes m) m (cancel-Puts m)
      (cancel-Reads m h) (omega arith) (omega arith, refl) buf cap whole

-- Fields within the ranges of their types.
pub record IsModify (m : ModifyMsg) : Type 0 where
  pub id : IsU64 m.id
  pub new_px : IsI64 m.new_px
  pub new_qty : IsU32 m.new_qty

abbrev modify_bytes : ModifyMsg → List ℕ
modify_bytes m = le_bytes 8 m.id ++ (le_bytes 8 (word64 m.new_px) ++ (le_bytes 4 m.new_qty ++ []))

modify-Puts : (m : ModifyMsg) → Puts (fill_modify m) (modify_bytes m)
unfolding fill_modify
modify-Puts m =
    then-Puts _ _ (put-Puts 8 m.id)
      (then-Puts _ _ (put_i64-Puts m.new_px) (then-Puts _ _ (put-Puts 4 m.new_qty) none-Puts))

modify-Reads : (m : ModifyMsg) → IsModify m → Reads parse_modify (modify_bytes m) m
unfolding parse_modify
modify-Reads m h =
    read_word _ m 8 m.id _ (omega arith) (
      read_price _ m m.new_px _ h.new_px (read_word _ m 4 m.new_qty _ (omega arith) (pure-Reads m)))

-- A modify with fields in their ranges goes out as a frame into any buffer of at least 23 bytes, is
-- typed as one and decodes to the same message, the buffer behind being as it was; a smaller buffer
-- is refused with 0.
pub encode_modify-Sent :
    (m : ModifyMsg) (buf : List ℕ) (cap : ℕ)
    → IsModify m
    → length buf ≡ cap
    → Sent buf cap (encode_modify buf cap m) 23 MsgType.modify decode_modify m
unfolding encode_modify decode_modify le_bytes to_type
encode_modify-Sent m buf cap h whole =
    frame-Sent MsgType.modify (fill_modify m) parse_modify (modify_bytes m) m (modify-Puts m)
      (modify-Reads m h) (omega arith) (omega arith, refl) buf cap whole

-- Fields within the ranges of their types.
pub record IsMarket (m : MarketMsg) : Type 0 where
  pub id : IsU64 m.id
  pub qty : IsU32 m.qty

abbrev market_bytes : MarketMsg → List ℕ
market_bytes m = le_bytes 8 m.id ++ (le_bytes 4 m.qty ++ (le_bytes 1 (side_code m.side) ++ []))

market-Puts : (m : MarketMsg) → Puts (fill_market m) (market_bytes m)
unfolding fill_market
market-Puts m =
    then-Puts _ _ (put-Puts 8 m.id)
      (then-Puts _ _ (put-Puts 4 m.qty) (then-Puts _ _ (put-Puts 1 (side_code m.side)) none-Puts))

market-Reads : (m : MarketMsg) → IsMarket m → Reads parse_market (market_bytes m) m
unfolding parse_market
market-Reads m h = read_word _ m 8 m.id _ (omega arith) (
    read_word _ m 4 m.qty _ (omega arith) (
      read_side _ m m.side _ (pass _ m _ _ (side_valid m.side) (rw (side-to_side) (pure-Reads m)))))

-- A market order with fields in their ranges goes out as a frame into any buffer of at least 16
-- bytes, is typed as one and decodes to the same message, the buffer behind being as it was; a
-- smaller buffer is refused with 0.
pub encode_market-Sent :
    (m : MarketMsg) (buf : List ℕ) (cap : ℕ)
    → IsMarket m
    → length buf ≡ cap
    → Sent buf cap (encode_market buf cap m) 16 MsgType.market decode_market m
unfolding encode_market decode_market le_bytes to_type
encode_market-Sent m buf cap h whole =
    frame-Sent MsgType.market (fill_market m) parse_market (market_bytes m) m (market-Puts m)
      (market-Reads m h) (omega arith) (omega arith, refl) buf cap whole
