-- ===== src/Engine/Levels.antt =====
-- The loop over a level without self-trade prevention, against the inner loop of the reference engine
-- of engines/naive_book.hpp.
use limit_order_book.Base.{
  ℕ, ◌+◌, ◌-◌, ◌^◌, ◌<◌, ◌≤◌, ◌≡◌, refl, sym, ap, subst, ℤ, false, List, [], ◌∷◌, ◌++◌, All, arith,
  ltb, ◌==◌, Bool-cases, inl, inr, ltb→lt, ==_iff,
}
use limit_order_book.Types.{Stp, Event, on_trade, Trade}
use limit_order_book.Fifo.Cells.{Cell}
use limit_order_book.Naive.Sides.{RestingOrder, Level, BookSide, LevelFill, fill_level}
use limit_order_book.Naive.Sides.Matching.{fill_level-take, fill_level-part}
use limit_order_book.Engine.Queues.{Groups, Fill, noted, fill_cells, fill-part, fill-all, fill-next}
use limit_order_book.Engine.Walking.{Holds}

-- The reference engine's view: an order is its id and its quantity.
abbrev pub offers : List Cell → Level
offers [] = []
offers (c ∷ cs) = record { id = c.id; qty = c.qty } ∷ offers cs

abbrev pub book_side : Groups → BookSide
book_side [] = []
book_side ((px, cs) ∷ gs) = (px, offers cs) ∷ book_side gs

-- The trades as a listener is told of them.
abbrev pub reported : List Trade → List Event
reported [] = []
reported (t ∷ ts) = on_trade t.taker t.maker t.px t.qty ∷ reported ts

pub reported-append : (ts us : List Trade) → reported (ts ++ us) ≡ reported ts ++ reported us
reported-append [] us = refl
reported-append (t ∷ ts) us =
    ap (λ es. on_trade t.taker t.maker t.px t.qty ∷ es) (reported-append ts us)

pub record LevelAgrees (want : ℕ) (f : Fill) (g : LevelFill) : Type 0 where
  pub orders : g.orders ≡ offers f.cells
  pub filled : g.filled + f.remaining ≡ want
  pub trades : reported g.trades ≡ f.events
  pub going : f.stopped ≡ false

module _ (taker : ℕ) (px : ℤ) (want : ℕ) where
  fill_level_done :
      (lvl : Level)
      → fill_level taker px want want lvl ≡ record { orders = lvl; filled = want; trades = [] }
  unfolding fill_level
  fill_level_done [] = refl
  fill_level_done (o ∷ lvl) = let full : ltb want want ≡ false = ground arith in rw full refl

  LevelAgrees-trade :
      (c : Cell) (f : Fill) (g : LevelFill)
      → LevelAgrees want f g
      → LevelAgrees want (noted (on_trade taker c.id px c.qty) f) (record {
        orders = g.orders;
        filled = g.filled;
        trades = record { taker = taker; maker = c.id; px = px; qty = c.qty } ∷ g.trades;
      })
  LevelAgrees-trade c f g a = record {
    orders = a.orders;
    filled = a.filled;
    trades = ap (λ es. on_trade taker c.id px c.qty ∷ es) a.trades;
    going = a.going;
  }

  LevelAgrees-eq :
      (f f' : Fill) (g g' : LevelFill)
      → f ≡ f'
      → g ≡ g'
      → LevelAgrees want f' g'
      → LevelAgrees want f g
  LevelAgrees-eq f f' g g' p q a =
      subst (λ f. LevelAgrees want f g) (sym p) (subst (LevelAgrees want f') (sym q) a)

  -- Nothing more is wanted.
  abbrev done : List Cell → Fill
  done cs = record { cells = cs; remaining = 0; stopped = false; events = [] }

  done_agrees :
      (filled : ℕ) (cs : List Cell)
      → want ≡ filled
      → LevelAgrees want (done cs) (fill_level taker px want filled (offers cs))
  done_agrees filled cs e =
      subst (λ n. LevelAgrees want (done cs) (fill_level taker px want n (offers cs))) e
        (subst (LevelAgrees want (done cs)) (sym (fill_level_done (offers cs)))
          (record { orders = refl; filled = omega arith; trades = refl; going = refl }))

  module _ (owner : ℕ) (stp : Stp) (small : want < 2 ^ 32) where
    pub fill_cells-fill_level :
        (filled : ℕ) (cs : List Cell)
        → filled < want
        → All Holds cs
        → LevelAgrees want
            (fill_cells taker owner stp false px (want - filled) cs)
            (fill_level taker px want filled (offers cs))
    fill_cells-fill_level filled [] lt h =
        unfold fill_cells fill_level in
        record { orders = refl; filled = omega arith; trades = refl; going = refl }
    fill_cells-fill_level filled (c ∷ cs) lt h =
        let n = want - filled in
        let o : RestingOrder = record { id = c.id; qty = c.qty } in
        elim (Bool-cases (ltb n c.qty)) [
          | inl less ↦
              LevelAgrees-eq _ _ _ _ (fill-part taker owner stp false px n c cs refl less)
                (fill_level-part taker px want filled o (offers cs) lt (ltb→lt _ _ less) small
                  h.0.1)
                (record { orders = refl; filled = omega arith; trades = refl; going = refl })
          | inr enough ↦
              let le : c.qty ≤ n = ground arith in
              let fewer : want - (filled + c.qty) ≡ want - filled - c.qty = omega arith in
              let step = fill_level-take taker px want filled o (offers cs) lt le small in
              elim (Bool-cases (n == c.qty)) [
                | inl same ↦
                    LevelAgrees-eq _ _ _ _
                      (fill-all taker owner stp false px n c cs refl enough same) step
                      (LevelAgrees-trade c (done cs) _
                        (done_agrees (filled + c.qty) cs (omega (arith, (==_iff n c.qty).0 same))))
                | inr more ↦
                    LevelAgrees-eq _ _ _ _
                      (fill-next taker owner stp false px n c cs refl enough more) step
                      (LevelAgrees-trade c _ _ (
                        subst
                          (λ m.
                            LevelAgrees want (fill_cells taker owner stp false px m cs)
                              (fill_level taker px want (filled + c.qty) (offers cs)))
                          fewer (fill_cells-fill_level (filled + c.qty) cs (ground arith) h.1)))
              ]
        ]
