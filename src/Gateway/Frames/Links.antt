-- ===== src/Gateway/Frames/Links.antt =====
-- The gateway of net/gateway.hpp keeps the two maps of its order ids together, whatever frames come
-- and whatever the engine does.
use limit_order_book.Base.{
  ℕ, ◌+◌, ◌<◌, ◌^◌, ℤ, ◌≡◌, refl, sym, subst, Bool, true, false, Option, none, some, inl, inr, List,
  [], ◌∷◌, arith, ◌==◌, if◌then◌else◌, sub32, Bool-cases,
}
use limit_order_book.Types.{Side, Tif, ModifyResult, Event, on_trade, on_cancel}
use limit_order_book.Protocol.{MsgType, NewOrderMsg, MarketMsg, CancelMsg, ModifyMsg}
use limit_order_book.Protocol.Decode.{
  peek_type, decode_new_order, decode_cancel, decode_modify, decode_market,
}
use limit_order_book.Gateway.OrderIds.{ClientKey, OrderIds, assign_id, find, side_of, fill, forget}
use limit_order_book.Gateway.OrderIds.Links.{
  IsLinked, forget-IsLinked, fill-IsLinked, rest-IsLinked,
}
use limit_order_book.Gateway.OrderIds.Tracking.{
  IsTracked, forget-IsTracked, fill-IsTracked, find-Answers, assign_id-Answers,
}
use limit_order_book.Gateway.Feed.{
  FeedPublisher, send_datagram, hear_trade, hear_cancel, hear, publish_book,
}
use limit_order_book.Gateway.Frames.{
  Engine, Gateway, new_order, market_order, cancel_order, track_modified, modify_order, handled,
  kill, handle_frame,
}

-- What an engine promises of the id 0, which stands for no order.
pub record RefusesZero {B : Type 0} (engine : Engine B) : Type 0 where
  pub no_limit :
      (s : Side) (px : ℤ) (qty : ℕ) (tif : Tif) (owner : ℕ) (b : B)
      → (engine.submit_limit 0 s px qty tif owner b).1.rested ≡ false
  pub no_modify : (px : ℤ) (qty : ℕ) (b : B) → (engine.modify 0 px qty b).1.ok ≡ false

send_datagram-orders :
    (d : ℕ × List ℕ) (feed : FeedPublisher) → (send_datagram d feed).orders ≡ feed.orders
send_datagram-orders d feed = ground arith

pub publish_book-orders :
    (levels : Side → ℕ → List (ℤ × ℕ)) (feed : FeedPublisher)
    → (publish_book levels feed).orders ≡ feed.orders
unfolding publish_book
publish_book-orders levels feed = send_datagram-orders _ _

-- What fills and forgotten orders keep, the events of an engine keep.
pub hear-orders :
    (P : OrderIds → Type 0)
    → ((i qty : ℕ) (ids : OrderIds) → P ids → P (fill i qty ids))
    → ((i : ℕ) (ids : OrderIds) → P ids → P (forget i ids).0)
    → (es : List Event) (feed : FeedPublisher) → P feed.orders
    → P (hear es feed).orders
unfolding hear hear_trade hear_cancel
hear-orders P f g [] feed p = p
hear-orders P f g (on_trade taker maker px qty ∷ es) feed p =
    hear-orders P f g es (hear_trade maker px qty feed)
      (subst P (sym (send_datagram-orders _ _)) (f maker qty feed.orders p))
hear-orders P f g (on_cancel id owner ∷ es) feed p =
    hear-orders P f g es (hear_cancel id owner feed) (g id feed.orders p)

hear-IsLinked :
    (es : List Event) (feed : FeedPublisher) → IsLinked feed.orders → IsLinked (hear es feed).orders
hear-IsLinked =
    hear-orders IsLinked (λ i qty ids v. fill-IsLinked ids i qty v)
      (λ i ids v. forget-IsLinked ids i v)

hear-IsTracked :
    (k : ClientKey) (id : ℕ) (es : List Event) (feed : FeedPublisher)
    → IsTracked k id feed.orders
    → IsTracked k id (hear es feed).orders
hear-IsTracked k id = hear-orders (IsTracked k id) (fill-IsTracked k id) (forget-IsTracked k id)

if-IsLinked :
    (b : Bool) (x y : FeedPublisher)
    → (b ≡ false → IsLinked y.orders)
    → (b ≡ true → IsLinked x.orders)
    → IsLinked (if b then x else y).orders
if-IsLinked true x y f t = t refl
if-IsLinked false x y f t = f refl

track_modified-IsLinked :
    (m : ModifyMsg) (r : ModifyResult) (id owner : ℕ) (side : Option Side) (ids : OrderIds)
    → 0 < id
    → IsTracked (record { owner = owner; client = m.id }) id ids
    → IsLinked (track_modified r id owner m side ids)
unfolding track_modified
track_modified-IsLinked m r id owner none ids p t = elim (Bool-cases r.rested) [
  | inl e ↦ rw e t.linked
  | inr e ↦ rw e (forget-IsLinked ids id t.linked)
]
track_modified-IsLinked m r id owner (some s) ids p t = elim (Bool-cases r.rested) [
  | inl e ↦ rw e (
      rest-IsLinked ids id
        (record { owner = owner; client = m.id; open_qty = sub32 m.new_qty r.filled; side = s })
        t.linked t.fits p t.given)
  | inr e ↦ rw e (forget-IsLinked ids id t.linked)
]

module _ {B : Type 0} (engine : Engine B) (zero_id : RefusesZero engine) (g : Gateway B)
    (v : IsLinked g.feed.orders) where
  new_order-IsLinked :
      (m : NewOrderMsg)
      → g.feed.orders.last + 1 < 2 ^ 64
      → IsLinked (new_order engine m g).feed.orders
  unfolding new_order
  new_order-IsLinked m room =
      let owner = g.conn.owner in
      let a = assign_id owner m.id g.feed.orders in
      let (linked, answers) = assign_id-Answers g.feed.orders v room owner m.id in
      let e = engine.submit_limit a.1 m.side m.px m.qty m.tif owner g.book in
      let feed : FeedPublisher = record g.feed { taker_side = m.side; orders = a.0; kills = [] } in
      elim (Bool-cases e.1.rested) [
        | inr n ↦ rw n (hear-IsLinked e.2 feed linked)
        | inl r ↦ rw r (elim answers [
          | inl z ↦
              let refused = zero_id.no_limit m.side m.px m.qty m.tif owner g.book in
              absurd (cc (r, refused, z))
          | inr (some_id, tracked) ↦
              let t =
                hear-IsTracked (record { owner = owner; client = m.id }) a.1 e.2 feed tracked in
              rest-IsLinked (hear e.2 feed).orders a.1
                (record {
                  owner = owner;
                  client = m.id;
                  open_qty = sub32 m.qty e.1.filled;
                  side = m.side;
                })
                t.linked t.fits some_id t.given
        ])
      ]

  market_order-IsLinked :
      (m : MarketMsg)
      → g.feed.orders.last + 1 < 2 ^ 64
      → IsLinked (market_order engine m g).feed.orders
  unfolding market_order
  market_order-IsLinked m room =
      let owner = g.conn.owner in
      let a = assign_id owner m.id g.feed.orders in
      let linked = (assign_id-Answers g.feed.orders v room owner m.id).0 in
      let e = engine.submit_market a.1 m.side m.qty owner g.book in
      elim (Bool-cases (a.1 == 0)) [
        | inl z ↦ rw z linked
        | inr z ↦ rw z (
            hear-IsLinked e.2 (record g.feed { taker_side = m.side; orders = a.0; kills = [] })
              linked)
      ]

  cancel_order-IsLinked : (m : CancelMsg) → IsLinked (cancel_order engine m g).feed.orders
  unfolding cancel_order
  cancel_order-IsLinked m =
      let id = find g.conn.owner m.id g.feed.orders in
      elim (Bool-cases (engine.cancel id g.book).1) [
        | inl ok ↦ rw ok (forget-IsLinked g.feed.orders id v)
        | inr bad ↦ rw bad v
      ]

  modify_order-IsLinked : (m : ModifyMsg) → IsLinked (modify_order engine m g).feed.orders
  unfolding modify_order
  modify_order-IsLinked m =
      let owner = g.conn.owner in
      let id = find owner m.id g.feed.orders in
      let side = side_of id g.feed.orders in
      let taker_side : Side = elim side [ some s ↦ s | none ↦ g.feed.taker_side ] in
      let e = engine.modify id m.new_px m.new_qty g.book in
      let feed : FeedPublisher = record g.feed { taker_side = taker_side; kills = [] } in
      if-IsLinked e.1.ok _ _ (λ _. hear-IsLinked e.2 feed v)
        (λ ok. elim (find-Answers owner m.id g.feed.orders v) [
          | inl z ↦
              let refused = zero_id.no_modify m.new_px m.new_qty g.book in
              absurd (cc (ok, refused, z))
          | inr (some_id, tracked) ↦
              track_modified-IsLinked m e.1 id owner side (hear e.2 feed).orders some_id
                (hear-IsTracked (record { owner = owner; client = m.id }) id e.2 feed tracked)
        ])

  handled-IsLinked :
      {M : Type 0} (o : Option M) (step : M → Gateway B → Gateway B)
      → ((m : M) → IsLinked (step m g).feed.orders)
      → IsLinked (handled engine o step g).feed.orders
  handled-IsLinked none step h = v
  handled-IsLinked (some m) step h = rw publish_book-orders (h m)

  -- The two maps of the order ids stay linked through any frame, well-formed or not, in any state of
  -- the connection, for any engine that rests no order under the id 0 and modifies none.
  pub handle_frame-IsLinked :
      (body : List ℕ)
      → g.feed.orders.last + 1 < 2 ^ 64
      → IsLinked (handle_frame engine body g).feed.orders
  unfolding handle_frame
  handle_frame-IsLinked body room = elim (Bool-cases g.conn.dead) [
    | inl e ↦ rw e v
    | inr e ↦ rw e (by_type (peek_type body))
  ]
    where
      by_type :
          (t : Option MsgType)
          → IsLinked
              (elim t as (λ _. Gateway B) [
                | none ↦ kill engine g
                | some MsgType.new_order ↦
                    handled engine (decode_new_order body) (new_order engine) g
                | some MsgType.market ↦ handled engine (decode_market body) (market_order engine) g
                | some MsgType.cancel ↦ handled engine (decode_cancel body) (cancel_order engine) g
                | some MsgType.modify ↦ handled engine (decode_modify body) (modify_order engine) g
                | some _ ↦ kill engine g
              ]).feed.orders
      by_type none = v
      by_type (some MsgType.new_order) =
          handled-IsLinked (decode_new_order body) (new_order engine)
            (λ m. new_order-IsLinked m room)
      by_type (some MsgType.market) =
          handled-IsLinked (decode_market body) (market_order engine)
            (λ m. market_order-IsLinked m room)
      by_type (some MsgType.cancel) =
          handled-IsLinked (decode_cancel body) (cancel_order engine) cancel_order-IsLinked
      by_type (some MsgType.modify) =
          handled-IsLinked (decode_modify body) (modify_order engine) modify_order-IsLinked
      by_type (some MsgType.exec_report) = v
      by_type (some MsgType.trade) = v
      by_type (some MsgType.book) = v
      by_type (some (MsgType.other n)) = v
