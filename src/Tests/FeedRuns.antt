-- ===== src/Tests/FeedRuns.antt =====
-- The feed client of net/feed_client.cpp on small inputs.
use limit_order_book.Base.{◌≡◌, refl, inl, pos, List, [], ◌∷◌, arith, add64}
use limit_order_book.Types.{bid, ask, Event, on_trade, on_cancel}
use limit_order_book.Protocol.{TradeMsg}
use limit_order_book.Protocol.RoundTrip.Reports.{IsTrade}
use limit_order_book.Gateway.OrderIds
use limit_order_book.Gateway.Feed.{FeedPublisher, hear}
use limit_order_book.FeedClient.{FeedClient, make, receive}
use limit_order_book.FeedClient.Following.{Follows, trade_datagram, run-hear, receive-lost}

abbrev feed : FeedPublisher
feed = record { orders = OrderIds.new; seq = 41; taker_side = bid; datagrams = []; kills = [] }

abbrev events : List Event
events = on_trade 7 3 (pos 100) 5 ∷ on_cancel 4 9 ∷ on_trade 7 5 (pos 101) 2 ∷ []

run-hear_example : Follows feed (hear events feed) make
unfolding make
run-hear_example =
    run-hear events feed make ((omega arith, omega arith), (tt, ((omega arith, omega arith), tt)))
      (omega arith) (inl refl)

abbrev behind : FeedClient
behind = record make { last_seq = 41; gaps = 1 }

abbrev late : TradeMsg
late = record { seq = 44; px = pos 100; qty = 5; taker_side = ask }

late-IsTrade : IsTrade late
late-IsTrade = record { seq = omega arith; px = omega arith; qty = omega arith }

receive-lost_example :
    let c' = receive (trade_datagram late) behind in
    (c'.gaps ≡ add64 1 1) × (c'.last_seq ≡ 44) × (c'.bad ≡ behind.bad)
receive-lost_example = receive-lost late behind late-IsTrade (omega arith) (omega arith)
