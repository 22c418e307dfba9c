-- ===== src/OrderBook/Placing.antt =====
-- Where an order that rests finds its place among the levels of its side, in include/lob/order_book.hpp
-- and in engines/naive_book.hpp.
use limit_order_book.Base.{
  ◌≡◌, refl, ap, sym, ℤ, eqb_ℤ, eq_of_parts, true, false, List, [], ◌∷◌, ◌++◌, All-map, arith,
  Bool-cases, inl, inr,
}
use limit_order_book.Types.{Side, bid, ask}
use limit_order_book.Naive.Sides.{before, push_back, RestingOrder}
use limit_order_book.Fifo.{Heap}
use limit_order_book.Fifo.Cells.{Cell}
use limit_order_book.Engine.Laws.{Entries, IsOrdered, Fits}
use limit_order_book.Engine.Entries.{before_trans, Later}
use limit_order_book.Engine.Queues.{Groups, entries, regroup}
use limit_order_book.Engine.Groups.{AllLinked}
use limit_order_book.Engine.Levels.{offers, book_side}

abbrev pub offer_of : Cell → RestingOrder
offer_of c = record { id = c.id; qty = c.qty }

offers-append : (cs : List Cell) (c : Cell) → offers (cs ++ c ∷ []) ≡ offers cs ++ offer_of c ∷ []
offers-append [] c = refl
offers-append (d ∷ cs) c = ap (λ os. offer_of d ∷ os) (offers-append cs c)

-- The level at a price, or the place for it.
pub record Placed (s : Side) (own : Groups) (px : ℤ) : Type 0 where
  pub gs : Groups
  pub cs : List Cell
  pub hs : Groups
  pub whole : own ≡ gs ++ regroup px cs hs
  pub fits : Fits s px (entries gs) (entries hs)
  pub pushed :
      (c : Cell)
      → push_back s px (offer_of c) (book_side own) ≡ book_side (gs ++ (px, cs ++ c ∷ []) ∷ hs)

Later_trans :
    (s : Side) (px p : ℤ) (es : Entries) → before s px p ≡ true → Later s p es → Later s px es
Later_trans s px p es e h = All-map _ _ (λ y k. before_trans s px p y.0 e k) es h

before_else : (s : Side) (a b : ℤ) → eqb_ℤ a b ≡ false → before s b a ≡ false → before s a b ≡ true
unfolding before
before_else bid a b e h = ground arith
before_else ask a b e h = ground arith

pub place :
    (s : Side) (own : Groups) (px : ℤ) (h : Heap)
    → IsOrdered s (entries own)
    → AllLinked h s own
    → Placed s own px
unfolding push_back
place s [] px h o l = record {
  gs = [];
  cs = [];
  hs = [];
  whole = refl;
  fits = (tt, tt);
  pushed = λ c. refl;
}
place s ((p, []) ∷ own) px h o l = absurd (omega (arith, l.0))
place s ((p, d ∷ ds) ∷ own) px h o l = elim (Bool-cases (eqb_ℤ p px)) [
  | inl same ↦
      let same_price : p ≡ px = eq_of_parts p px (ground (arith, same)) in
      record {
        gs = [];
        cs = d ∷ ds;
        hs = own;
        whole = ap (λ q. (q, d ∷ ds) ∷ own) same_price;
        fits = (tt, rw same_price at (o.0));
        pushed = λ c.
            rw (same, same_price)
              (ap (λ os. (px, os) ∷ book_side own) (sym (offers-append (d ∷ ds) c)));
      }
  | inr other ↦ elim (Bool-cases (before s px p)) [
    | inl first ↦ record {
      gs = [];
      cs = [];
      hs = (p, d ∷ ds) ∷ own;
      whole = refl;
      fits = (tt, (first, Later_trans s px p (entries own) first o.0));
      pushed = λ c. rw (other, first) refl;
    }
    | inr later ↦
        let r = place s own px h o.1 l.2 in
        record {
          gs = (p, d ∷ ds) ∷ r.gs;
          cs = r.cs;
          hs = r.hs;
          whole = ap (λ gs. (p, d ∷ ds) ∷ gs) r.whole;
          fits = ((before_else s p px other later, r.fits.0), r.fits.1);
          pushed = λ c. rw (other, later) (ap (λ gs. (p, offers (d ∷ ds)) ∷ gs) (r.pushed c));
        }
  ]
]
