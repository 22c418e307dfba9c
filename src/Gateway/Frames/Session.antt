-- ===== src/Gateway/Frames/Session.antt =====
-- The gateway of net/gateway.hpp from its start: frames from any connections, and disconnects.
use limit_order_book.Base.{
  ℕ, ◌+◌, ◌<◌, ◌≤◌, ◌^◌, sym, subst, Bool, true, false, Option, none, some, inl, inr, List, [], ◌∷◌,
  arith, ◌==◌, if◌then◌else◌, lookup, length, add64, sub32, Bool-cases, Option-cases,
}
use limit_order_book.Types.{Side, bid, ModifyResult, Event}
use limit_order_book.Protocol.{MsgType, NewOrderMsg, MarketMsg, CancelMsg, ModifyMsg}
use limit_order_book.Protocol.Decode.{
  peek_type, decode_new_order, decode_cancel, decode_modify, decode_market,
}
use limit_order_book.Gateway.OrderIds.{
  OrderIds, new, assign_id, find, rest, side_of, fill, forget, owned_by,
}
use limit_order_book.Gateway.OrderIds.Links.{IsLinked, new-IsLinked, forget-IsLinked}
use limit_order_book.Gateway.Feed.{FeedPublisher, hear}
use limit_order_book.Gateway.Frames.{
  Connection, Engine, Gateway, new_order, market_order, cancel_order, track_modified, modify_order,
  handled, kill, handle_frame, cancel_each, cancel_on_disconnect,
}
use limit_order_book.Gateway.Frames.Links.{
  RefusesZero, hear-orders, publish_book-orders, handle_frame-IsLinked,
}

-- The ids given out so far are at most `n`.
abbrev Issued : ℕ → OrderIds → Type 0
Issued n ids = ids.last ≤ n

forget-Issued : (n i : ℕ) (ids : OrderIds) → Issued n ids → Issued n (forget i ids).0
unfolding forget
forget-Issued n i ids h = elim (Option-cases (lookup ◌==◌ i ids.live)) [
  | inl e ↦ rw (e, forget) h
  | inr (l, e) ↦ rw (e, forget) h
]

fill-Issued : (n i qty : ℕ) (ids : OrderIds) → Issued n ids → Issued n (fill i qty ids)
unfolding fill
fill-Issued n i qty ids h = elim (Option-cases (lookup ◌==◌ i ids.live)) [
  | inl e ↦ rw (e, fill) h
  | inr (l, e) ↦ elim (Bool-cases (sub32 l.open_qty qty == 0)) [
    | inl z ↦ rw (e, fill, z) (forget-Issued n i _ h)
    | inr z ↦ rw (e, fill, z) h
  ]
]

assign_id-Issued :
    (n owner client : ℕ) (ids : OrderIds)
    → Issued n ids
    → Issued (n + 1) (assign_id owner client ids).0
unfolding assign_id add64
assign_id-Issued n owner client ids h = ground arith

hear-Issued :
    (n : ℕ) (es : List Event) (feed : FeedPublisher)
    → Issued n feed.orders
    → Issued n (hear es feed).orders
hear-Issued n = hear-orders (Issued n) (fill-Issued n) (forget-Issued n)

if-Issued :
    (n : ℕ) (b : Bool) (x y : FeedPublisher)
    → Issued n x.orders
    → Issued n y.orders
    → Issued n (if b then x else y).orders
if-Issued n true x y h k = h
if-Issued n false x y h k = k

track_modified-Issued :
    (n : ℕ) (r : ModifyResult) (id owner : ℕ) (m : ModifyMsg) (side : Option Side) (ids : OrderIds)
    → Issued n ids
    → Issued n (track_modified r id owner m side ids)
unfolding track_modified rest
track_modified-Issued n r id owner m none ids h = elim (Bool-cases r.rested) [
  | inl e ↦ rw e h
  | inr e ↦ rw e (forget-Issued n id ids h)
]
track_modified-Issued n r id owner m (some s) ids h = elim (Bool-cases r.rested) [
  | inl e ↦ rw e h
  | inr e ↦ rw e (forget-Issued n id ids h)
]

module _ {B : Type 0} (engine : Engine B) (g : Gateway B) (n : ℕ) (h : Issued n g.feed.orders) where
  new_order-Issued : (m : NewOrderMsg) → Issued (n + 1) (new_order engine m g).feed.orders
  unfolding new_order rest
  new_order-Issued m =
      let a = assign_id g.conn.owner m.id g.feed.orders in
      let e = engine.submit_limit a.1 m.side m.px m.qty m.tif g.conn.owner g.book in
      let feed : FeedPublisher = record g.feed { taker_side = m.side; orders = a.0; kills = [] } in
      let after =
        hear-Issued (n + 1) e.2 feed (assign_id-Issued n g.conn.owner m.id g.feed.orders h) in
      if-Issued (n + 1) e.1.rested _ _ after after

  market_order-Issued : (m : MarketMsg) → Issued (n + 1) (market_order engine m g).feed.orders
  unfolding market_order
  market_order-Issued m =
      let a = assign_id g.conn.owner m.id g.feed.orders in
      let e = engine.submit_market a.1 m.side m.qty g.conn.owner g.book in
      let before = assign_id-Issued n g.conn.owner m.id g.feed.orders h in
      elim (Bool-cases (a.1 == 0)) [
        | inl z ↦ rw z before
        | inr z ↦ rw z (
            hear-Issued (n + 1) e.2
              (record g.feed { taker_side = m.side; orders = a.0; kills = [] }) before)
      ]

  cancel_order-Issued : (m : CancelMsg) → Issued (n + 1) (cancel_order engine m g).feed.orders
  unfolding cancel_order
  cancel_order-Issued m =
      let id = find g.conn.owner m.id g.feed.orders in
      elim (Bool-cases (engine.cancel id g.book).1) [
        | inl e ↦ rw e (forget-Issued (n + 1) id g.feed.orders (omega arith))
        | inr e ↦ rw e (omega arith)
      ]

  modify_order-Issued : (m : ModifyMsg) → Issued (n + 1) (modify_order engine m g).feed.orders
  unfolding modify_order
  modify_order-Issued m =
      let id = find g.conn.owner m.id g.feed.orders in
      let side = side_of id g.feed.orders in
      let taker_side : Side = elim side [ some s ↦ s | none ↦ g.feed.taker_side ] in
      let e = engine.modify id m.new_px m.new_qty g.book in
      let after =
        hear-Issued (n + 1) e.2 (record g.feed { taker_side = taker_side; kills = [] })
          (omega arith) in
      if-Issued (n + 1) e.1.ok _ _
        (track_modified-Issued (n + 1) e.1 id g.conn.owner m side _ after) after

  handled-Issued :
      {M : Type 0} (o : Option M) (step : M → Gateway B → Gateway B)
      → ((m : M) → Issued (n + 1) (step m g).feed.orders)
      → Issued (n + 1) (handled engine o step g).feed.orders
  handled-Issued none step k = omega arith
  handled-Issued (some m) step k = rw publish_book-orders (k m)

  handle_frame-Issued : (body : List ℕ) → Issued (n + 1) (handle_frame engine body g).feed.orders
  unfolding handle_frame
  handle_frame-Issued body = elim (Bool-cases g.conn.dead) [
    | inl e ↦ rw e (omega arith)
    | inr e ↦ rw e (by_type (peek_type body))
  ]
    where
      by_type :
          (t : Option MsgType)
          → Issued
              (n + 1)
              (elim t as (λ _. Gateway B) [
                | none ↦ kill engine g
                | some MsgType.new_order ↦
                    handled engine (decode_new_order body) (new_order engine) g
                | some MsgType.market ↦ handled engine (decode_market body) (market_order engine) g
                | some MsgType.cancel ↦ handled engine (decode_cancel body) (cancel_order engine) g
                | some MsgType.modify ↦ handled engine (decode_modify body) (modify_order engine) g
                | some _ ↦ kill engine g
              ]).feed.orders
      by_type none = omega arith
      by_type (some MsgType.new_order) =
          handled-Issued (decode_new_order body) (new_order engine) new_order-Issued
      by_type (some MsgType.market) =
          handled-Issued (decode_market body) (market_order engine) market_order-Issued
      by_type (some MsgType.cancel) =
          handled-Issued (decode_cancel body) (cancel_order engine) cancel_order-Issued
      by_type (some MsgType.modify) =
          handled-Issued (decode_modify body) (modify_order engine) modify_order-Issued
      by_type (some MsgType.exec_report) = omega arith
      by_type (some MsgType.trade) = omega arith
      by_type (some MsgType.book) = omega arith
      by_type (some (MsgType.other k)) = omega arith

-- A frame on a connection, in whatever state it is, or the end of an owner's connection.
pub data Step : Type 0 where
  frame : Connection → List ℕ → Step
  disconnect : ℕ → Step

abbrev pub new_feed : FeedPublisher
new_feed = record { orders = new; seq = 0; taker_side = bid; datagrams = []; kills = [] }

module _ {B : Type 0} (engine : Engine B) where
  pub step : Step → B × FeedPublisher → B × FeedPublisher
  step (frame c body) s =
      let g = handle_frame engine body (record { book = s.0; feed = s.1; conn = c }) in
      (g.book, g.feed)
  step (disconnect owner) s = let after = cancel_on_disconnect engine owner s in (after.0, after.1)

  pub run : List Step → B × FeedPublisher → B × FeedPublisher
  run [] s = s
  run (x ∷ xs) s = run xs (step x s)

  cancel_each-orders :
      (P : OrderIds → Type 0)
      → ((i : ℕ) (ids : OrderIds) → P ids → P (forget i ids).0)
      → (ids : List ℕ) (s : B × FeedPublisher) → P s.1.orders
      → P (cancel_each engine ids s).1.orders
  unfolding cancel_each
  cancel_each-orders P f [] s p = p
  cancel_each-orders P f (id ∷ ids) (book, feed) p =
      cancel_each-orders P f ids
        ((engine.cancel id book).0, record feed { orders = (forget id feed.orders).0 })
        (f id feed.orders p)

  disconnect-orders :
      (P : OrderIds → Type 0)
      → ((i : ℕ) (ids : OrderIds) → P ids → P (forget i ids).0)
      → (owner : ℕ) (s : B × FeedPublisher) → P s.1.orders
      → P (cancel_on_disconnect engine owner s).1.orders
  unfolding cancel_on_disconnect
  disconnect-orders P f owner (book, feed) p =
      let ids = owned_by owner feed.orders in
      let after = cancel_each-orders P f ids (book, feed) p in
      elim (Bool-cases (length ids == 0)) [
        | inl z ↦ rw z after
        | inr z ↦ rw z (subst P (sym (publish_book-orders _ _)) after)
      ]

  run-IsLinked_from :
      (xs : List Step) (s : B × FeedPublisher) (n : ℕ)
      → RefusesZero engine
      → n + length xs < 2 ^ 64
      → Issued n s.1.orders
      → IsLinked s.1.orders
      → IsLinked (run xs s).1.orders
  unfolding run step
  run-IsLinked_from [] s n z w i v = v
  run-IsLinked_from (frame c body ∷ xs) s n z w i v =
      let g : Gateway B = record { book = s.0; feed = s.1; conn = c } in
      run-IsLinked_from xs (step (frame c body) s) (n + 1) z (omega arith)
        (handle_frame-Issued engine g n i body)
        (handle_frame-IsLinked engine z g v body (omega arith))
  run-IsLinked_from (disconnect owner ∷ xs) s n z w i v =
      run-IsLinked_from xs (step (disconnect owner) s) n z (omega arith)
        (disconnect-orders (Issued n) (forget-Issued n) owner s i)
        (disconnect-orders IsLinked (λ i ids v. forget-IsLinked ids i v) owner s v)

  -- After any sequence of fewer than 2^64 steps of the gateway from an empty feed (frames of any
  -- bytes on connections in any state, and disconnects), for any engine that rests no order under
  -- the id 0 and carries out no modify of it, whatever fills and cancels it reports: the map from
  -- client ids to engine ids and the map of live orders lead to each other's entries, and every
  -- live id is one that was given out.
  pub run-IsLinked :
      (xs : List Step) (book : B)
      → RefusesZero engine
      → length xs < 2 ^ 64
      → IsLinked (run xs (book, new_feed)).1.orders
  unfolding new
  run-IsLinked xs book z w =
      run-IsLinked_from xs (book, new_feed) 0 z (omega arith) (omega arith) new-IsLinked
