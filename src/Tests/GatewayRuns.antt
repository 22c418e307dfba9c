-- ===== src/Tests/GatewayRuns.antt =====
-- The gateway over the reference engine, and its order ids, on small inputs.
use limit_order_book.Base.{
  ℕ, pos, ◌≡◌, length, refl, false, inr, List, [], ◌∷◌, ◌++◌, map, arith, ◌==◌, if◌then◌else◌,
  lookup, assign,
}
use limit_order_book.Types.{bid, ask, ioc, Trade, Event, on_trade, on_cancel}
use limit_order_book.Naive.{
  NaiveBook, new, submit_limit, submit_market, cancel, modify, rejection, not_found,
}
use limit_order_book.Naive.Refinement.{view}
use limit_order_book.Naive.Effects.{submit_limit-LimitEffect}
use limit_order_book.Gateway.OrderIds.{OrderIds, Live, key_of, rest, find, fill}
use limit_order_book.Gateway.OrderIds.Links.{IsLinked, rest-IsLinked}
use limit_order_book.Gateway.OrderIds.Owners.{find_apart, Filled, fill-Filled}
use limit_order_book.Gateway.Feed.{buffer}
use limit_order_book.Gateway.Frames.{
  Engine, Connection, submit_status, tell_kills, send_exec, queue_send, handle_frame,
}
use limit_order_book.Protocol.Encode.{encode_exec_report, fill_exec_report}
use limit_order_book.Protocol.Bytes.{encode_frame, finish, put, copy_at, le_bytes}
use limit_order_book.Gateway.Frames.Links.{RefusesZero}
use limit_order_book.Gateway.Frames.Session.{Step, frame, disconnect, run, new_feed, run-IsLinked}
use limit_order_book.Gateway.Frames.Outbox.{IsBounded, handle_frame-IsBounded}
use limit_order_book.Gateway.Frames.Status.{Tells, submit_status-Tells}

abbrev told : NaiveBook → List Event
told b = map (λ (t : Trade). on_trade t.taker t.maker t.px t.qty) b.trades

abbrev quiet : NaiveBook → NaiveBook
quiet b = record b { trades = [] }

-- The reference engine, which keeps no owners, with the id 0 refused.
abbrev engine : Engine NaiveBook
engine = record {
  submit_limit = λ id s px qty tif owner b.
      if id == 0
      then (b, rejection, [])
      else (let (b', r) = submit_limit id s px qty tif (quiet b) in (b', r, told b'));
  submit_market = λ id s qty owner b.
      let (b', filled) = submit_market id s qty (quiet b) in (b', filled, told b');
  cancel = λ id b. cancel id (quiet b);
  modify = λ id px qty b.
      if id == 0
      then (b, not_found, [])
      else (let (b', r) = modify id px qty (quiet b) in (b', r, told b'));
  top_levels = λ b s n. [];
}

engine-RefusesZero : RefusesZero engine
engine-RefusesZero = record {
  no_limit = λ s px qty tif owner b. refl;
  no_modify = λ px qty b. refl;
}

abbrev seven : Connection
seven = record { owner = 7; outbox = []; dead = false }

-- The bodies of a new order, of its cancel, and of no message.
abbrev steps : List Step
steps =
    frame seven (1 ∷ 5 ∷ [] ++ buffer 7 ++ 99 ∷ [] ++ buffer 7 ++ 10 ∷ [] ++ buffer 5)
    ∷ frame seven (2 ∷ 5 ∷ [] ++ buffer 7)
    ∷ frame seven (9 ∷ [])
    ∷ disconnect 7
    ∷ []

run-IsLinked_example : IsLinked (run engine steps (new (pos 0), new_feed)).1.orders
run-IsLinked_example = run-IsLinked engine steps (new (pos 0)) engine-RefusesZero (omega arith)

-- Two connections, each with an order that it calls 5.
abbrev theirs : Live
theirs = record { owner = 7; client = 5; open_qty = 10; side = bid }

abbrev ours : Live
ours = record { owner = 8; client = 5; open_qty = 4; side = ask }

abbrev two : OrderIds
two = record {
  by_client = (key_of theirs, 1) ∷ (key_of ours, 2) ∷ [];
  live = (1, theirs) ∷ (2, ours) ∷ [];
  last = 2;
}

abbrev none_yet : OrderIds
none_yet = record { by_client = []; live = []; last = 2 }

none_yet-IsLinked : IsLinked none_yet
unfolding lookup
none_yet-IsLinked = record {
  forward = λ k id e. cc;
  backward = λ id l e. cc;
  issued = λ id l e. cc;
}

two-IsLinked : IsLinked two
unfolding lookup rest assign
two-IsLinked =
    rest-IsLinked (rest 1 7 5 10 bid none_yet) 2 ours
      (rest-IsLinked none_yet 1 theirs none_yet-IsLinked (inr (refl, refl)) (omega arith)
        (omega arith))
      (inr (refl, refl)) (omega arith) (omega arith)

find_apart_example : (ours.owner ≡ 8) × (ours.client ≡ 5)
unfolding find lookup
find_apart_example =
    find_apart ours.owner ours.client 8 5 2 two two-IsLinked (omega arith) refl refl

fill-Filled_example : Filled 1 theirs 4 two (fill 1 4 two)
unfolding lookup
fill-Filled_example = fill-Filled two two-IsLinked 1 theirs refl 4 (omega arith) (omega arith)

abbrev empty : NaiveBook
empty = record { bids = []; asks = []; protection = pos 0; trades = [] }

submit_status-Tells_example :
    let (b', r) = submit_limit 6 bid (pos 101) 6 ioc empty in
    Tells (submit_status r 6) ioc 6 (view empty) (view b') r
submit_status-Tells_example =
    submit_status-Tells 6 bid (pos 101) 6 ioc (view empty)
      (view (submit_limit 6 bid (pos 101) 6 ioc empty).0)
      (submit_limit 6 bid (pos 101) 6 ioc empty).1
      (submit_limit-LimitEffect 6 bid (pos 101) 6 ioc empty (tt, tt) (λ e. cc) (omega arith))

-- An engine that takes two orders of the same owner off the book for each limit order.
abbrev killing : Engine NaiveBook
killing = record engine {
  submit_limit =
      λ id s px qty tif owner b. (b, rejection, on_cancel 1 owner ∷ on_cancel 2 owner ∷ []);
}

-- A connection with 2 bytes that wait, and a new order on it.
abbrev slow : Connection
slow = record { owner = 7; outbox = 1 ∷ 2 ∷ []; dead = false }

abbrev order_frame : List ℕ
order_frame = 1 ∷ 5 ∷ [] ++ buffer 7 ++ 99 ∷ [] ++ buffer 7 ++ 10 ∷ [] ++ buffer 5

handle_frame-IsBounded_example :
    IsBounded
      (handle_frame killing order_frame
        (record { book = new (pos 0); feed = new_feed; conn = slow })).conn
handle_frame-IsBounded_example =
    handle_frame-IsBounded killing (record { book = new (pos 0); feed = new_feed; conn = slow })
      (omega arith) order_frame

-- It is told of its own order, not of another's.
kills_run : length (tell_kills ((5, 7) ∷ (6, 8) ∷ []) slow).outbox ≡ 18
unfolding tell_kills send_exec encode_exec_report encode_frame finish put queue_send copy_at
    le_bytes fill_exec_report
kills_run = refl
