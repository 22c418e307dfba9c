-- ===== src/Gateway/Frames/Outbox.antt =====
-- The bound on the bytes that wait for a slow client, net/gateway.hpp.
use limit_order_book.Base.{
  ℕ, ◌+◌, ◌≤◌, Option, none, some, List, [], ◌∷◌, not, ◌&&◌, arith, ltb, ◌==◌, length,
  length-append, take, Bool-cases, inl, inr,
}
use limit_order_book.Protocol.{MsgType, MarketMsg, CancelMsg, ExecReportMsg, ExecStatus}
use limit_order_book.Protocol.Encode.{encode_exec_report}
use limit_order_book.Protocol.Decode.{
  peek_type, decode_new_order, decode_cancel, decode_modify, decode_market,
}
use limit_order_book.Gateway.OrderIds.{assign_id, find}
use limit_order_book.Gateway.Feed.{buffer}
use limit_order_book.Gateway.Frames.{
  Connection, Engine, Gateway, max_outbox, queue_send, send_exec, tell_kills, new_order,
  market_order, cancel_order, modify_order, handled, kill, handle_frame,
}

abbrev pub IsBounded : Connection → Type 0
IsBounded c = length c.outbox ≤ max_outbox

queue_send-IsBounded :
    (bytes : List ℕ) (c : Connection) → IsBounded c → IsBounded (queue_send bytes c)
unfolding queue_send
queue_send-IsBounded bytes c h =
    elim (Bool-cases (ltb max_outbox (length c.outbox + length bytes))) [
      | inl e ↦ rw e h
      | inr e ↦ rw (e, length-append) (ground arith)
    ]

send_exec-IsBounded :
    (id filled : ℕ) (st : ExecStatus) (c : Connection)
    → IsBounded c
    → IsBounded (send_exec id filled st c)
unfolding send_exec
send_exec-IsBounded id filled st c h =
    let report : ExecReportMsg = record { id = id; filled = filled; status = st } in
    let out = encode_exec_report (buffer 64) 64 report in
    elim (Bool-cases (out.0 == 0)) [
      | inl e ↦ rw e h
      | inr e ↦ rw e (queue_send-IsBounded (take out.0 out.1) c h)
    ]

tell_kills-IsBounded :
    (kills : List (ℕ × ℕ)) (c : Connection) → IsBounded c → IsBounded (tell_kills kills c)
unfolding tell_kills
tell_kills-IsBounded [] c h = h
tell_kills-IsBounded ((client, owner) ∷ kills) c h =
    elim (Bool-cases (owner == c.owner && not c.dead)) [
      | inl e ↦
          rw (e, tell_kills)
            (tell_kills-IsBounded kills _ (send_exec-IsBounded client 0 ExecStatus.canceled c h))
      | inr e ↦ rw (e, tell_kills) (tell_kills-IsBounded kills c h)
    ]

module _ {B : Type 0} (engine : Engine B) (g : Gateway B) (h : IsBounded g.conn) where
  market_order-IsBounded : (m : MarketMsg) → IsBounded (market_order engine m g).conn
  unfolding market_order
  market_order-IsBounded m =
      elim (Bool-cases ((assign_id g.conn.owner m.id g.feed.orders).1 == 0)) [
        | inl e ↦ rw e (send_exec-IsBounded _ _ _ g.conn h)
        | inr e ↦ rw e (send_exec-IsBounded _ _ _ _ (tell_kills-IsBounded _ g.conn h))
      ]

  cancel_order-IsBounded : (m : CancelMsg) → IsBounded (cancel_order engine m g).conn
  unfolding cancel_order
  cancel_order-IsBounded m =
      elim (Bool-cases (engine.cancel (find g.conn.owner m.id g.feed.orders) g.book).1) [
        | inl e ↦ rw e (send_exec-IsBounded _ _ _ g.conn h)
        | inr e ↦ rw e (send_exec-IsBounded _ _ _ g.conn h)
      ]

  handled-IsBounded :
      {M : Type 0} (o : Option M) (step : M → Gateway B → Gateway B)
      → ((m : M) → IsBounded (step m g).conn)
      → IsBounded (handled engine o step g).conn
  handled-IsBounded none step k = h
  handled-IsBounded (some m) step k = k m

  -- Where at most 65536 bytes wait in a connection's outbox, at most that many wait after any frame
  -- on it, whatever the engine answers and reports, the cancels of the connection's own orders by
  -- self-trade prevention included.
  pub handle_frame-IsBounded : (body : List ℕ) → IsBounded (handle_frame engine body g).conn
  unfolding handle_frame new_order modify_order
  handle_frame-IsBounded body = elim (Bool-cases g.conn.dead) [
    | inl e ↦ rw e h
    | inr e ↦ rw e (by_type (peek_type body))
  ]
    where
      by_type :
          (t : Option MsgType)
          → IsBounded
              (elim t as (λ _. Gateway B) [
                | none ↦ kill engine g
                | some MsgType.new_order ↦
                    handled engine (decode_new_order body) (new_order engine) g
                | some MsgType.market ↦ handled engine (decode_market body) (market_order engine) g
                | some MsgType.cancel ↦ handled engine (decode_cancel body) (cancel_order engine) g
                | some MsgType.modify ↦ handled engine (decode_modify body) (modify_order engine) g
                | some _ ↦ kill engine g
              ]).conn
      by_type none = h
      by_type (some MsgType.new_order) =
          handled-IsBounded (decode_new_order body) (new_order engine)
            (λ m. send_exec-IsBounded _ _ _ _ (tell_kills-IsBounded _ g.conn h))
      by_type (some MsgType.market) =
          handled-IsBounded (decode_market body) (market_order engine) market_order-IsBounded
      by_type (some MsgType.cancel) =
          handled-IsBounded (decode_cancel body) (cancel_order engine) cancel_order-IsBounded
      by_type (some MsgType.modify) =
          handled-IsBounded (decode_modify body) (modify_order engine)
            (λ m. send_exec-IsBounded _ _ _ _ (tell_kills-IsBounded _ g.conn h))
      by_type (some MsgType.exec_report) = h
      by_type (some MsgType.trade) = h
      by_type (some MsgType.book) = h
      by_type (some (MsgType.other n)) = h
