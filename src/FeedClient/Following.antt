-- ===== src/FeedClient/Following.antt =====
-- The feed client of net/feed_client.cpp behind the feed of net/gateway.hpp.
use limit_order_book.Base.{
  ℕ, ◌+◌, ◌%◌, ◌^◌, ◌<◌, ◌≤◌, ◌≡◌, ◌⊎◌, inl, inr, refl, sym, ap, subst, ◌∙◌, ℤ, some, map, List, [],
  ◌∷◌, ◌++◌, arith, add64, add64-eq, take, zero, suc, drop, length, All, append_assoc, append-nil,
  IsI64,
}
use limit_order_book.Types.{Event, on_trade, on_cancel}
use limit_order_book.Protocol.{MsgType, trade, TradeMsg, IsU32, header_len}
use limit_order_book.Protocol.Bytes.{le_value}
use limit_order_book.Protocol.Bytes.Laws.{le_value-le_bytes}
use limit_order_book.Protocol.Encode.{encode_trade}
use limit_order_book.Protocol.Decode.{peek_type, decode_trade}
use limit_order_book.Protocol.Framed.{Sent, Carries}
use limit_order_book.Protocol.RoundTrip.Reports.{IsTrade, encode_trade-Sent, length-encode_trade}
use limit_order_book.Gateway.OrderIds.{fill}
use limit_order_book.Gateway.Feed.{FeedPublisher, buffer, hear_trade, hear_cancel, hear}
use limit_order_book.FeedClient.{FeedClient, arrived, followed, receive, run}

-- The datagram of a trade.
abbrev pub trade_datagram : TradeMsg → List ℕ
trade_datagram t = take 24 (encode_trade (buffer 64) 64 t).1

trade-Carries :
    (t : TradeMsg)
    → IsTrade t
    → Carries (buffer 64) (encode_trade (buffer 64) 64 t) 24 MsgType.trade decode_trade t
trade-Carries t h = only (encode_trade-Sent t (buffer 64) 64 h refl)
  where
    only :
        Sent (buffer 64) 64 (encode_trade (buffer 64) 64 t) 24 MsgType.trade decode_trade t
        → Carries (buffer 64) (encode_trade (buffer 64) 64 t) 24 MsgType.trade decode_trade t
    only (inl s) = s.1
    only (inr s) = absurd (omega arith)

take-take : (xs : List ℕ) → take 2 (take 24 xs) ≡ take 2 xs
take-take [] = refl
take-take (x ∷ []) = refl
take-take (x ∷ y ∷ xs) = refl

receive-accepted :
    (bytes : List ℕ) (t : TradeMsg) (c : FeedClient)
    → length bytes ≡ 24
    → le_value (take header_len bytes) ≡ 22
    → peek_type (drop header_len bytes) ≡ some trade
    → decode_trade (drop header_len bytes) ≡ some t
    → receive bytes c ≡ followed t.seq (record c { trades = add64 c.trades 1 })
unfolding receive
receive-accepted bytes t c n len type decoded = rw (n, len, type, decoded) refl

-- The client takes the datagram for the trade that it is.
pub receive-trade_datagram :
    (t : TradeMsg) (c : FeedClient)
    → IsTrade t
    → receive (trade_datagram t) c ≡ followed t.seq (record c { trades = add64 c.trades 1 })
receive-trade_datagram t c h =
    let k = trade-Carries t h in
    let out = (encode_trade (buffer 64) 64 t).1 in
    let prefix : le_value (take header_len (take 24 out)) ≡ 22 =
      ap le_value (take-take out ∙ k.counted) ∙ le_value-le_bytes 2 22 (omega arith) in
    receive-accepted (trade_datagram t) t c
      (length-encode_trade t (buffer 64) 64 h refl (omega arith)) prefix k.typed k.decoded

take_whole : (n : ℕ) (xs : List ℕ) → length xs ≤ n → take n xs ≡ xs
take_whole zero [] h = refl
take_whole zero (x ∷ xs) h = absurd (omega arith)
take_whole (suc n) [] h = refl
take_whole (suc n) (x ∷ xs) h = ap (λ ys. x ∷ ys) (take_whole n xs (omega arith))

-- The client has read nothing yet, or all that the feed sent.
abbrev pub InStep : FeedClient → FeedPublisher → Type 0
InStep c feed = (c.last_seq ≡ 0) ⊎ (c.last_seq ≡ feed.seq)

-- What the engine reports is within the ranges of its types.
abbrev pub Reports : Event → Type 0
Reports (on_trade taker maker px qty) = IsI64 px × IsU32 qty
Reports (on_cancel id owner) = Unit

followed-gaps :
    (seq : ℕ) (c : FeedClient)
    → (c.last_seq ≡ 0) ⊎ (add64 c.last_seq 1 ≡ seq)
    → (followed seq c).gaps ≡ c.gaps
unfolding followed
followed-gaps seq c (inl e) = ground (arith, e)
followed-gaps seq c (inr e) = ground (arith, e)

followed-lost :
    (seq : ℕ) (c : FeedClient)
    → 0 < c.last_seq
    → add64 c.last_seq 1 < seq
    → (followed seq c).gaps ≡ add64 c.gaps 1
unfolding followed
followed-lost seq c started lost = ground arith

abbrev next_trade : ℤ → ℕ → FeedPublisher → TradeMsg
next_trade px qty feed = record {
  seq = feed.seq + 1;
  px = px;
  qty = qty;
  taker_side = feed.taker_side;
}

abbrev heard_trade : ℕ → ℤ → ℕ → FeedPublisher → FeedPublisher
heard_trade maker px qty feed = record feed {
  orders = fill maker qty feed.orders;
  seq = feed.seq + 1;
  datagrams = feed.datagrams ++ trade_datagram (next_trade px qty feed) ∷ [];
}

hear_trade-datagram :
    (maker : ℕ) (px : ℤ) (qty : ℕ) (feed : FeedPublisher)
    → IsTrade (next_trade px qty feed)
    → feed.seq + 1 < 2 ^ 64
    → hear_trade maker px qty feed ≡ heard_trade maker px qty feed
unfolding hear_trade
hear_trade-datagram maker px qty feed h small =
    let next = add64-eq feed.seq 1 small in
    let k = trade-Carries (next_trade px qty feed) h in rw (next, k.returned) refl

run-trade_datagram :
    (t : TradeMsg) (c : FeedClient) (ds : List (List ℕ))
    → IsTrade t
    → run 0 (map arrived (trade_datagram t ∷ ds)) c
      ≡ run 0 (map arrived ds) (followed t.seq (record c { trades = add64 c.trades 1 }))
unfolding run
run-trade_datagram t c ds h =
    let size = length-encode_trade t (buffer 64) 64 h refl (omega arith) in
    let whole = take_whole 2048 (trade_datagram t) (omega (arith, size)) in
    ap (λ c. run 0 (map arrived ds) c)
      (ap (λ bytes. receive bytes c) whole ∙ receive-trade_datagram t c h)

-- What the client has after the datagrams that the feed sent from `feed` on.
pub record Follows (feed feed' : FeedPublisher) (c : FeedClient) : Type 0 where
  pub ds : List (List ℕ)
  pub sent : feed'.datagrams ≡ feed.datagrams ++ ds
  pub gaps : (run 0 (map arrived ds) c).gaps ≡ c.gaps
  pub bad : (run 0 (map arrived ds) c).bad ≡ c.bad
  pub n_msgs : (run 0 (map arrived ds) c).n_msgs ≡ c.n_msgs + length ds
  pub trades : (run 0 (map arrived ds) c).trades % 2 ^ 64 ≡ (c.trades + length ds) % 2 ^ 64
  pub books : (run 0 (map arrived ds) c).books ≡ c.books
  pub in_step : InStep (run 0 (map arrived ds) c) feed'

nothing_sent : (feed : FeedPublisher) (c : FeedClient) → InStep c feed → Follows feed feed c
unfolding run
nothing_sent feed c s = record {
  ds = [];
  sent = sym (append-nil feed.datagrams);
  gaps = refl;
  bad = refl;
  n_msgs = omega arith;
  trades = omega arith;
  books = refl;
  in_step = s;
}

Follows-trade :
    (maker : ℕ) (px : ℤ) (qty : ℕ) (feed feed' : FeedPublisher) (c : FeedClient)
    → let t = next_trade px qty feed in
      IsTrade t
      → feed.seq + 1 < 2 ^ 64
      → InStep c feed
      → Follows
          (heard_trade maker px qty feed)
          feed'
          (followed t.seq (record c { trades = add64 c.trades 1 }))
      → Follows feed feed' c
Follows-trade maker px qty feed feed' c valid small s rest =
    let t = next_trade px qty feed in
    let c0 = record c { trades = add64 c.trades 1 } in
    let ran = run-trade_datagram t c rest.ds valid in
    record {
      ds = trade_datagram t ∷ rest.ds;
      sent = rest.sent ∙ append_assoc feed.datagrams (trade_datagram t ∷ []) rest.ds;
      gaps = ap (λ (c : FeedClient). c.gaps) ran ∙ rest.gaps ∙ followed-gaps t.seq c0 (next_step s);
      bad = ap (λ (c : FeedClient). c.bad) ran ∙ rest.bad ∙ (unfold followed in refl);
      n_msgs =
          ap (λ (c : FeedClient). c.n_msgs) ran ∙ rest.n_msgs ∙ (unfold followed in omega arith);
      trades =
          ap (λ (c : FeedClient). c.trades % 2 ^ 64) ran
          ∙ rest.trades
          ∙ (unfold followed add64 in omega arith);
      books = ap (λ (c : FeedClient). c.books) ran ∙ rest.books ∙ (unfold followed in refl);
      in_step = subst (λ c. InStep c feed') (sym ran) rest.in_step;
    }
  where
    next_step : InStep c feed → (c.last_seq ≡ 0) ⊎ (add64 c.last_seq 1 ≡ feed.seq + 1)
    next_step (inl e) = inl e
    next_step (inr e) = inr (ap (λ n. add64 n 1) e ∙ add64-eq feed.seq 1 small)

kept_step :
    (id owner : ℕ) (feed : FeedPublisher) (c : FeedClient)
    → InStep c feed
    → InStep c (hear_cancel id owner feed)
unfolding hear_cancel
kept_step id owner feed c s = s

Follows-cancel :
    (id owner : ℕ) (feed feed' : FeedPublisher) (c : FeedClient)
    → Follows (hear_cancel id owner feed) feed' c
    → Follows feed feed' c
Follows-cancel id owner feed feed' c rest = record {
  ds = rest.ds;
  sent = unfold hear_cancel in rest.sent;
  gaps = rest.gaps;
  bad = rest.bad;
  n_msgs = rest.n_msgs;
  trades = rest.trades;
  books = rest.books;
  in_step = rest.in_step;
}

-- The feed client behind the gateway's feed: for any trades and cancels of the engine with prices
-- and quantities in the ranges of their types, fewer than the sequence numbers that are left, and a
-- client that has read nothing yet or the feed's last message, the datagrams that the feed sends
-- for them are all taken as trades: the client counts as many messages as there are datagrams, as
-- many trades, modulo 2^64, no snapshot, no gap and no bad datagram, and is in step with the feed
-- again.
pub run-hear :
    (es : List Event) (feed : FeedPublisher) (c : FeedClient)
    → All Reports es
    → feed.seq + length es < 2 ^ 64
    → InStep c feed
    → Follows feed (hear es feed) c
unfolding hear hear_cancel
run-hear [] feed c h small s = nothing_sent feed c s
run-hear (on_trade taker maker px qty ∷ es) feed c h small s =
    let t = next_trade px qty feed in
    let valid : IsTrade t = record { seq = omega arith; px = h.0.0; qty = h.0.1 } in
    let feed1 = heard_trade maker px qty feed in
    let c1 = followed t.seq (record c { trades = add64 c.trades 1 }) in
    let rest = run-hear es feed1 c1 h.1 (omega arith) (inr (unfold followed in refl)) in
    subst (λ f. Follows feed (hear es f) c)
      (sym (hear_trade-datagram maker px qty feed valid (omega arith)))
      (Follows-trade maker px qty feed (hear es feed1) c valid (omega arith) s rest)
run-hear (on_cancel id owner ∷ es) feed c h small s =
    let rest =
      run-hear es (hear_cancel id owner feed) c h.1 (omega arith) (kept_step id owner feed c s) in
    Follows-cancel id owner feed (hear es (hear_cancel id owner feed)) c rest

-- When datagrams are lost, so that a trade with fields in their ranges arrives whose sequence
-- number is above the one after the client's last, the client counts one gap, takes the trade's
-- number as its last, and counts nothing bad.
pub receive-lost :
    (t : TradeMsg) (c : FeedClient)
    → IsTrade t
    → 0 < c.last_seq
    → c.last_seq + 1 < t.seq
    → let c' = receive (trade_datagram t) c in
      (c'.gaps ≡ add64 c.gaps 1) × (c'.last_seq ≡ t.seq) × (c'.bad ≡ c.bad)
receive-lost t c h started lost =
    subst
      (λ (c' : FeedClient). (c'.gaps ≡ add64 c.gaps 1) × (c'.last_seq ≡ t.seq) × (c'.bad ≡ c.bad))
      (sym (receive-trade_datagram t c h))
      (
        followed-lost t.seq (record c { trades = add64 c.trades 1 }) started
            (omega (arith, h.seq, add64-eq c.last_seq 1 (omega (arith, h.seq)))),
        (unfold followed in refl),
        (unfold followed in refl),
      )
