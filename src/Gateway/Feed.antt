-- ===== src/Gateway/Feed.antt =====
-- net/gateway.hpp, class FeedPublisher: the engine's listener and the market data feed. The
-- datagrams sent, and the calls of `on_unsolicited_cancel` in the operation under way, are lists.
use limit_order_book.Base.{ℕ, zero, suc, ℤ, List, [], ◌∷◌, ◌++◌, ◌==◌, if◌then◌else◌, add64, take}
use limit_order_book.Types.{Side, bid, ask, no_price, Event, on_trade, on_cancel}
use limit_order_book.Protocol.{TradeMsg, BookMsg, book_depth}
use limit_order_book.Protocol.Encode.{encode_trade, encode_book}
use limit_order_book.Gateway.OrderIds.{OrderIds, fill, forget}

pub record FeedPublisher : Type 0 where
  pub orders : OrderIds
  pub seq : ℕ
  pub taker_side : Side
  pub datagrams : List (List ℕ)
  -- The client's id and the owner.
  pub kills : List (ℕ × ℕ)

-- A local array. The bytes that it starts with are never sent.
abbrev pub buffer : ℕ → List ℕ
buffer zero = []
buffer (suc n) = 0 ∷ buffer n

-- `if (n) send_datagram(buf, n)`.
abbrev pub send_datagram : ℕ × List ℕ → FeedPublisher → FeedPublisher
send_datagram (n, buf) feed =
    if n == 0 then feed else record feed { datagrams = feed.datagrams ++ take n buf ∷ [] }

unfoldable pub hear_trade : ℕ → ℤ → ℕ → FeedPublisher → FeedPublisher
hear_trade maker px qty feed =
    let seq = add64 feed.seq 1 in
    let t : TradeMsg = record { seq = seq; px = px; qty = qty; taker_side = feed.taker_side } in
    send_datagram (encode_trade (buffer 64) 64 t)
      (record feed { orders = fill maker qty feed.orders; seq = seq })

unfoldable pub hear_cancel : ℕ → ℕ → FeedPublisher → FeedPublisher
hear_cancel id owner feed =
    let (orders, client) = forget id feed.orders in
    record feed { orders = orders; kills = feed.kills ++ (client, owner) ∷ [] }

unfoldable pub hear : List Event → FeedPublisher → FeedPublisher
hear [] feed = feed
hear (on_trade taker maker px qty ∷ es) feed = hear es (hear_trade maker px qty feed)
hear (on_cancel id owner ∷ es) feed = hear es (hear_cancel id owner feed)

-- One array of a snapshot: what the engine wrote, and the given value from there to the end.
abbrev pub padded {ℓ κ} : {A : Type ℓ} {B : Type κ} → (A → B) → B → ℕ → List A → List B
padded f b zero xs = []
padded f b (suc n) [] = b ∷ padded f b n []
padded f b (suc n) (x ∷ xs) = f x ∷ padded f b n xs

-- `levels` gives the best levels of a side of the book, at most so many.
unfoldable pub publish_book : (Side → ℕ → List (ℤ × ℕ)) → FeedPublisher → FeedPublisher
publish_book levels feed =
    let seq = add64 feed.seq 1 in
    let bids = levels bid book_depth in
    let asks = levels ask book_depth in
    let m : BookMsg = record {
      seq = seq;
      bid_px = padded (λ (l : ℤ × ℕ). l.0) no_price book_depth bids;
      bid_qty = padded (λ (l : ℤ × ℕ). l.1) 0 book_depth bids;
      ask_px = padded (λ (l : ℤ × ℕ). l.0) no_price book_depth asks;
      ask_qty = padded (λ (l : ℤ × ℕ). l.1) 0 book_depth asks;
    } in
    send_datagram (encode_book (buffer 256) 256 m) (record feed { seq = seq })
