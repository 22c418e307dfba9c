-- ===== src/Engine/Agreement.antt =====
-- `match` of include/lob/order_book.hpp, from the ladders down to the links, against `match` of
-- engines/naive_book.hpp.
use limit_order_book.Base.{
  ℕ, ◌-◌, ◌^◌, ◌<◌, ◌≡◌, refl, sym, ap, subst, ◌∙◌, ℤ, false, List, ◌++◌, All, All-append_left,
  arith,
}
use limit_order_book.Types.{Side, bid, ask, Stp}
use limit_order_book.Fifo.{Ptr}
use limit_order_book.Naive.Sides
use limit_order_book.Naive.Sides.{match_side, match_from}
use limit_order_book.Engine
use limit_order_book.Engine.{Parts, Book, match}
use limit_order_book.Engine.Laws.{Entries, LadderLaws, IndexLaws, AllocLaws}
use limit_order_book.Engine.Queues.{Groups, all_cells, sweep}
use limit_order_book.Engine.Walking.{Holds}
use limit_order_book.Engine.Books.{Represents, match-Matched}
use limit_order_book.Engine.Reference.{SideAgrees, sweep-match_from}
use limit_order_book.Engine.Levels.{book_side, reported}

pub crosses-Engine : (s : Side) (px : ℤ) → Sides.crosses s px ≡ (λ p. Engine.crosses s p px)
unfolding Sides.crosses
crosses-Engine bid px = refl
crosses-Engine ask px = refl

pub sweep-match_side :
    (s : Side) (taker : ℕ) (limit_px : ℤ) (owner : ℕ) (stp : Stp) (want : ℕ) (gs : Groups)
    → want < 2 ^ 32
    → All Holds (all_cells gs)
    → SideAgrees want
        (sweep s taker limit_px owner stp false want gs)
        (match_side taker want (Sides.crosses s limit_px) (book_side gs))
unfolding match_side
sweep-match_side s taker limit_px owner stp want gs small h =
    let all : want - 0 ≡ want = omega arith in
    rw (crosses-Engine s limit_px) (
      subst
        (λ n.
          SideAgrees want (sweep s taker limit_px owner stp false n gs)
            (match_from taker want (λ p. Engine.crosses s p limit_px) 0 (book_side gs)))
        all (sweep-match_from s taker limit_px owner stp want small 0 gs (omega arith) h))

module _ {L I A : Type 0} (parts : Parts L I A) (Shows : Side → L → Entries → Type 0)
    (Indexes : I → List (ℕ × Ptr) → Type 0) (Owns : A → List Ptr → Type 0)
    (ladder : LadderLaws parts Shows) (index : IndexLaws parts Indexes)
    (alloc : AllocLaws parts Owns) where
  -- Over any ladders, index and allocator that keep their laws, on a book whose linked queues stand
  -- for two lists of price levels, matching an order for less than 2^32 without the self-trade
  -- check does what the reference engine's match does to these levels: it fills as much, leaves the
  -- same orders in the same places with every link, total and index entry in step, reports the same
  -- trades in the same order, and is not stopped.
  pub match-match_side :
      (s : Side) (taker : ℕ) (limit_px : ℤ) (want owner : ℕ) (own opposite : Groups)
      (b : Book L I A)
      → Represents parts Shows Indexes Owns s own opposite b
      → want < 2 ^ 32
      → let (b', m) = match parts s false taker limit_px want owner b in
        let g = match_side taker want (Sides.crosses s limit_px) (book_side opposite) in
        (left : Groups) × (Represents parts Shows Indexes Owns s own left b'
          × (book_side left ≡ g.levels)
          × (m.filled ≡ g.filled)
          × (m.stp_stopped ≡ false)
          × (b'.events ≡ b.events ++ reported g.trades))
  match-match_side s taker limit_px want owner own opposite b h small =
      let r =
        match-Matched parts Shows Indexes Owns ladder index alloc s false taker limit_px want owner
          own opposite b h small in
      let g = match_side taker want (Sides.crosses s limit_px) (book_side opposite) in
      let w = sweep s taker limit_px owner b.stp false want opposite in
      let holds = All-append_left _ (all_cells opposite) (all_cells own) h.common.holds in
      let a = sweep-match_side s taker limit_px owner b.stp want opposite small holds in
      (
        w.groups,
        (
          r.represents,
          sym a.levels,
          omega (arith, r.filled, a.filled),
          r.stp_stopped ∙ a.going,
          r.events ∙ ap (λ es. b.events ++ es) (sym a.trades),
        ),
      )
