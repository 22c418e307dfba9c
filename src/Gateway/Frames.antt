-- ===== src/Gateway/Frames.antt =====
-- net/gateway.hpp: a connection, and the step from an inbound frame to an engine operation to an
-- execution report. The engine is an interface: each operation gives the new book, the answer, and
-- what the listener was told meanwhile.
pub mod Links
pub mod Session
pub mod Status
pub mod Outbox
use limit_order_book.Base.{
  ℕ, ℤ, ◌+◌, Bool, true, false, not, ◌&&◌, Option, none, some, List, [], ◌∷◌, ◌++◌, ltb, ◌==◌,
  if◌then◌else◌, sub32, take, length,
}
use limit_order_book.Types.{Side, Tif, SubmitResult, ModifyResult, Event}
use limit_order_book.Protocol.{
  MsgType, NewOrderMsg, CancelMsg, ModifyMsg, MarketMsg, ExecReportMsg, ExecStatus,
}
use limit_order_book.Protocol.Encode.{encode_exec_report}
use limit_order_book.Protocol.Decode.{
  peek_type, decode_new_order, decode_cancel, decode_modify, decode_market,
}
use limit_order_book.Gateway.OrderIds.{OrderIds, assign_id, find, rest, side_of, forget, owned_by}
use limit_order_book.Gateway.Feed.{FeedPublisher, buffer, hear, publish_book}

-- The socket and the frame buffer stay with the poll loop.
pub record Connection : Type 0 where
  pub owner : ℕ
  pub outbox : List ℕ
  pub dead : Bool

abbrev pub max_outbox : ℕ
max_outbox = 65536

unfoldable pub queue_send : List ℕ → Connection → Connection
queue_send bytes c =
    if ltb max_outbox (length c.outbox + length bytes)
    then record c { dead = true }
    else record c { outbox = c.outbox ++ bytes }

unfoldable pub send_exec : ℕ → ℕ → ExecStatus → Connection → Connection
send_exec id filled st c =
    let report : ExecReportMsg = record { id = id; filled = filled; status = st } in
    let (n, buf) = encode_exec_report (buffer 64) 64 report in
    if n == 0 then c else queue_send (take n buf) c

unfoldable pub submit_status : SubmitResult → ℕ → ExecStatus
submit_status r want =
    if r.rejected
    then ExecStatus.rejected
    else if r.filled == want
    then ExecStatus.filled
    else if r.rested
    then (if r.filled == 0 then ExecStatus.accepted else ExecStatus.partial_rest)
    else if r.filled == 0
    then ExecStatus.canceled
    else ExecStatus.partial_done

abbrev pub market_status : ℕ → ℕ → ℕ → ExecStatus
market_status id filled want =
    if id == 0
    then ExecStatus.rejected
    else if filled == want
    then ExecStatus.filled
    else if filled == 0
    then ExecStatus.canceled
    else ExecStatus.partial_done

abbrev pub modify_status : ModifyResult → ℕ → ExecStatus
modify_status r want =
    if r.ok
    then (if r.rested
        then ExecStatus.replaced
        else if r.filled == want
        then ExecStatus.filled
        else if r.filled == 0
        then ExecStatus.canceled
        else ExecStatus.partial_done)
    else if r.found
    then ExecStatus.rejected
    else ExecStatus.unknown

-- The handler of `on_unsolicited_cancel` that net/gateway.cpp sets, for the connection whose frame
-- is handled: it is told of its own orders while it is alive.
unfoldable pub tell_kills : List (ℕ × ℕ) → Connection → Connection
tell_kills [] c = c
tell_kills ((client, owner) ∷ kills) c =
    tell_kills kills
      (if owner == c.owner && not c.dead then send_exec client 0 ExecStatus.canceled c else c)

pub record Engine (B : Type 0) : Type 0 where
  pub submit_limit : ℕ → Side → ℤ → ℕ → Tif → ℕ → B → B × SubmitResult × List Event
  pub submit_market : ℕ → Side → ℕ → ℕ → B → B × ℕ × List Event
  pub cancel : ℕ → B → B × Bool
  pub modify : ℕ → ℤ → ℕ → B → B × ModifyResult × List Event
  pub top_levels : B → Side → ℕ → List (ℤ × ℕ)

pub record Gateway (B : Type 0) : Type 0 where
  pub book : B
  pub feed : FeedPublisher
  pub conn : Connection

-- `ids` after a modify that the engine carried out. The side is that of the tracked order; the
-- code reads it only where there is one.
unfoldable pub track_modified : ModifyResult → ℕ → ℕ → ModifyMsg → Option Side → OrderIds → OrderIds
track_modified r id owner m (some s) ids =
    if r.rested then rest id owner m.id (sub32 m.new_qty r.filled) s ids else (forget id ids).0
track_modified r id owner m none ids = if r.rested then ids else (forget id ids).0

module _ {B : Type 0} (engine : Engine B) where
  unfoldable pub new_order : NewOrderMsg → Gateway B → Gateway B
  new_order m g =
      let owner = g.conn.owner in
      let (ids, id) = assign_id owner m.id g.feed.orders in
      let (book, r, events) = engine.submit_limit id m.side m.px m.qty m.tif owner g.book in
      let feed = hear events (record g.feed { taker_side = m.side; orders = ids; kills = [] }) in
      let open_qty = sub32 m.qty r.filled in
      record {
        book = book;
        feed =
            if r.rested
            then record feed { orders = rest id owner m.id open_qty m.side feed.orders }
            else feed;
        conn = send_exec m.id r.filled (submit_status r m.qty) (tell_kills feed.kills g.conn);
      }

  unfoldable pub market_order : MarketMsg → Gateway B → Gateway B
  market_order m g =
      let owner = g.conn.owner in
      let (ids, id) = assign_id owner m.id g.feed.orders in
      let feed = record g.feed { taker_side = m.side; orders = ids; kills = [] } in
      let (book, filled, events) = engine.submit_market id m.side m.qty owner g.book in
      if id == 0
      then record {
        book = g.book;
        feed = feed;
        conn = send_exec m.id 0 (market_status id 0 m.qty) g.conn;
      }
      else record {
        book = book;
        feed = hear events feed;
        conn =
            send_exec m.id filled (market_status id filled m.qty)
              (tell_kills (hear events feed).kills g.conn);
      }

  unfoldable pub cancel_order : CancelMsg → Gateway B → Gateway B
  cancel_order m g =
      let id = find g.conn.owner m.id g.feed.orders in
      let (book, ok) = engine.cancel id g.book in
      if ok
      then record {
        book = book;
        feed = record g.feed { orders = (forget id g.feed.orders).0 };
        conn = send_exec m.id 0 ExecStatus.canceled g.conn;
      }
      else record { book = book; feed = g.feed; conn = send_exec m.id 0 ExecStatus.unknown g.conn }

  unfoldable pub modify_order : ModifyMsg → Gateway B → Gateway B
  modify_order m g =
      let owner = g.conn.owner in
      let id = find owner m.id g.feed.orders in
      let side = side_of id g.feed.orders in
      let taker_side : Side = elim side [ some s ↦ s | none ↦ g.feed.taker_side ] in
      let (book, r, events) = engine.modify id m.new_px m.new_qty g.book in
      let feed = hear events (record g.feed { taker_side = taker_side; kills = [] }) in
      record {
        book = book;
        feed =
            if r.ok
            then record feed { orders = track_modified r id owner m side feed.orders }
            else feed;
        conn = send_exec m.id r.filled (modify_status r m.new_qty) (tell_kills feed.kills g.conn);
      }

  abbrev pub kill : Gateway B → Gateway B
  kill g = record g { conn = record g.conn { dead = true } }

  -- After a message that was decoded, the book is published; a malformed one ends the connection.
  abbrev pub handled : {M : Type 0} → Option M → (M → Gateway B → Gateway B) → Gateway B → Gateway B
  handled none step g = kill g
  handled (some m) step g =
      let g' = step m g in record g' { feed = publish_book (engine.top_levels g'.book) g'.feed }

  unfoldable pub handle_frame : List ℕ → Gateway B → Gateway B
  handle_frame body g = if g.conn.dead then g else elim (peek_type body) [
    | none ↦ kill g
    | some MsgType.new_order ↦ handled (decode_new_order body) new_order g
    | some MsgType.market ↦ handled (decode_market body) market_order g
    | some MsgType.cancel ↦ handled (decode_cancel body) cancel_order g
    | some MsgType.modify ↦ handled (decode_modify body) modify_order g
    | some _ ↦ kill g
  ]

  unfoldable pub cancel_each : List ℕ → B × FeedPublisher → B × FeedPublisher
  cancel_each [] s = s
  cancel_each (id ∷ ids) (book, feed) =
      cancel_each ids
        ((engine.cancel id book).0, record feed { orders = (forget id feed.orders).0 })

  -- The book and the feed after it, and how many orders were canceled.
  unfoldable pub cancel_on_disconnect : ℕ → B × FeedPublisher → B × FeedPublisher × ℕ
  cancel_on_disconnect owner (book, feed) =
      let ids = owned_by owner feed.orders in
      let (book', feed') = cancel_each ids (book, feed) in
      if length ids == 0
      then (book', feed', 0)
      else (book', publish_book (engine.top_levels book') feed', length ids)
