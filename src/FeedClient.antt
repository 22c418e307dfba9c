-- ===== src/FeedClient.antt =====
-- net/feed_client.cpp: the loop over the datagrams of the feed, with its counters and its test for
-- gaps. Opening the socket and printing are left out.
pub mod Following
use limit_order_book.Base.{
  ℕ, ◌+◌, ℤ, pos, Bool, true, false, not, ◌&&◌, ◌||◌, Option, none, some, List, [], ◌∷◌, ltb, ◌==◌,
  if◌then◌else◌, add64, take, drop, length,
}
use limit_order_book.Protocol.{MsgType, trade, book, TradeMsg, BookMsg, max_frame_len, header_len}
use limit_order_book.Protocol.Bytes.{le_value}
use limit_order_book.Protocol.Decode.{peek_type, decode_trade, decode_book}

pub record FeedClient : Type 0 where
  pub last_seq : ℕ
  pub gaps : ℕ
  pub trades : ℕ
  pub books : ℕ
  pub bad : ℕ
  pub last_bid : ℤ
  pub last_ask : ℤ
  pub n_msgs : ℕ

unfoldable pub make : FeedClient
make = record {
  last_seq = 0;
  gaps = 0;
  trades = 0;
  books = 0;
  bad = 0;
  last_bid = pos 0;
  last_ask = pos 0;
  n_msgs = 0;
}

abbrev pub spoiled : FeedClient → FeedClient
spoiled c = record c { bad = add64 c.bad 1 }

-- The end of a round, for a message with a sequence number.
unfoldable pub followed : ℕ → FeedClient → FeedClient
followed seq c = record c {
  gaps =
      if not (c.last_seq == 0) && not (seq == add64 c.last_seq 1) then add64 c.gaps 1 else c.gaps;
  last_seq = seq;
  n_msgs = c.n_msgs + 1;
}

-- `bid_px[0]`: a snapshot that was decoded has five levels a side.
abbrev pub top_price : List ℤ → ℤ
top_price [] = pos 0
top_price (px ∷ _) = px

abbrev pub receive_trade : Option TradeMsg → FeedClient → FeedClient
receive_trade none c = spoiled c
receive_trade (some t) c = followed t.seq (record c { trades = add64 c.trades 1 })

abbrev pub receive_book : Option BookMsg → FeedClient → FeedClient
receive_book none c = spoiled c
receive_book (some b) c = followed b.seq (record c {
  last_bid = top_price b.bid_px;
  last_ask = top_price b.ask_px;
  books = add64 c.books 1;
})

abbrev pub receive_typed : Option MsgType → List ℕ → FeedClient → FeedClient
receive_typed none body c = spoiled c
receive_typed (some trade) body c = receive_trade (decode_trade body) c
receive_typed (some book) body c = receive_book (decode_book body) c
receive_typed (some _) body c = spoiled c

-- A round for a datagram: a frame of its own.
unfoldable pub receive : List ℕ → FeedClient → FeedClient
receive bytes c =
    let n = length bytes in
    let len = le_value (take header_len bytes) in
    let body = drop header_len bytes in
    if ltb n (header_len + 1)
    then spoiled c
    else if len == 0 || (ltb max_frame_len len || not (n == header_len + len))
    then spoiled c
    else receive_typed (peek_type body) body c

-- What `recvfrom` gives: the first 2048 bytes of a datagram, nothing yet, or an error.
pub data Received : Type 0 where
  arrived : List ℕ → Received
  nothing_yet failed : Received

-- The loop, up to the signal that ends it.
unfoldable pub run : ℕ → List Received → FeedClient → FeedClient
run max_msgs [] c = c
run max_msgs (arrived bytes ∷ rs) c =
    let rest = run max_msgs rs (receive (take 2048 bytes) c) in
    if max_msgs == 0 || ltb c.n_msgs max_msgs then rest else c
run max_msgs (nothing_yet ∷ rs) c =
    let rest = run max_msgs rs c in if max_msgs == 0 || ltb c.n_msgs max_msgs then rest else c
run max_msgs (failed ∷ rs) c = c
