-- ===== src/Stages/Agreement.antt =====
-- engines/book_v4.hpp and engines/book_v5.hpp: the same matching over a map of levels and over a flat
-- array with a bitmap.
use limit_order_book.Base.{ℕ, ◌^◌, ◌<◌, ◌≡◌, sym, subst, ◌∙◌, ℤ, Bool, List, ◌++◌}
use limit_order_book.Types.{Side, Event}
use limit_order_book.Engine
use limit_order_book.Engine.Queues.{Groups, sweep}
use limit_order_book.Engine.Books.{Represents, Matched, match-Matched}
use limit_order_book.FlatLadder.Contents as Flat
use limit_order_book.Stages.MapLadder as Tree
use limit_order_book.Stages.HashIndex.{Indexes}
use limit_order_book.Stages.Slots.{Owns}
use limit_order_book.Stages.V4
use limit_order_book.Stages.V4.{BookV4}
use limit_order_book.Stages.V4.Laws as TreeLaws
use limit_order_book.Stages.V5
use limit_order_book.Stages.V5.{BookV5}
use limit_order_book.Stages.V5.Laws as FlatLaws

module _ (s : Side) (own opposite : Groups) (b4 : BookV4) (b5 : BookV5)
    (h4 : Represents V4.parts Tree.Shows Indexes Owns s own opposite b4)
    (h5 : Represents V5.parts Flat.Shows Indexes Owns s own opposite b5) (same : b4.stp ≡ b5.stp)
    (stp_on : Bool) (taker : ℕ) (limit_px : ℤ) (want owner : ℕ) (small : want < 2 ^ 32) where
  -- On books of stage v4 (a map of levels) and of stage v5 (a flat array with a bitmap) that stand
  -- for the same two lists of price levels under one self-trade policy, matching an order for less
  -- than 2^32 fills as much, stops alike, reports the same events in the same order and leaves
  -- books that stand for the same levels.
  pub match_v4-match_v5 :
      let (b4', m4) = V4.match s stp_on taker limit_px want owner b4 in
      let (b5', m5) = V5.match s stp_on taker limit_px want owner b5 in
      (left : Groups) × (new : List Event) × (Represents V4.parts Tree.Shows Indexes Owns s own left
          b4'
        × Represents V5.parts Flat.Shows Indexes Owns s own left b5'
        × (m4.filled ≡ m5.filled)
        × (m4.stp_stopped ≡ m5.stp_stopped)
        × (b4'.events ≡ b4.events ++ new)
        × (b5'.events ≡ b5.events ++ new))
  unfolding V4.match V5.match
  match_v4-match_v5 =
      let tree =
        match-Matched V4.parts Tree.Shows Indexes Owns TreeLaws.ladder TreeLaws.index TreeLaws.alloc
          s stp_on taker limit_px want owner own opposite b4 h4 small in
      let flat =
        subst
          (λ stp.
            Matched V5.parts Flat.Shows Indexes Owns s own want b5
              (sweep s taker limit_px owner stp stp_on want opposite)
              (Engine.match V5.parts s stp_on taker limit_px want owner b5))
          (sym same)
          (match-Matched V5.parts Flat.Shows Indexes Owns FlatLaws.ladder FlatLaws.index
            FlatLaws.alloc s stp_on taker limit_px want owner own opposite b5 h5 small) in
      let w = sweep s taker limit_px owner b4.stp stp_on want opposite in
      (
        w.groups,
        w.events,
        (
          tree.represents,
          flat.represents,
          tree.filled ∙ sym flat.filled,
          tree.stp_stopped ∙ sym flat.stp_stopped,
          tree.events,
          flat.events,
        ),
      )
