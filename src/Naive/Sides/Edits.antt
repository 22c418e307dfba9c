-- ===== src/Naive/Sides/Edits.antt =====
-- What resting, erasing, finding and amending an order do to a side of engines/naive_book.hpp,
-- against the queue of offers.
use limit_order_book.Base.{
  ◌<◌, ℤ, ◌≡◌, refl, subst, true, false, List, [], ◌∷◌, ◌++◌, arith, eqb_ℤ, All, length, Bool-cases,
  inl, inr, eq_of_parts,
}
use limit_order_book.Types.{Side, bid, ask}
use limit_order_book.Priority.{Offer, better, join}
use limit_order_book.Naive.Sides.{RestingOrder, Level, BookSide, before, push_back}
use limit_order_book.Naive.Sides.Queue.{at_price, queue, IsSide}

pub before-better : (s : Side) (a b : ℤ) → before s a b ≡ better s a b
unfolding before
before-better bid a b = refl
before-better ask a b = refl

abbrev pub offer : ℤ → RestingOrder → Offer
offer px o = record { px = px; id = o.id; qty = o.qty }

at_price-append :
    (px : ℤ) (lvl : Level) (o : RestingOrder) (q : List Offer)
    → at_price px (lvl ++ o ∷ []) ++ q ≡ at_price px lvl ++ offer px o ∷ q
unfolding at_price
at_price-append px [] o q = refl
at_price-append px (x ∷ lvl) o q = rw (at_price-append px lvl o q)

join-at_price :
    (s : Side) (px p : ℤ) (o : RestingOrder) (lvl : Level) (q : List Offer)
    → better s px p ≡ false
    → join s (offer px o) (at_price p lvl ++ q) ≡ at_price p lvl ++ join s (offer px o) q
unfolding join at_price
join-at_price s px p o [] q h = refl
join-at_price s px p o (x ∷ lvl) q h = rw (h, join-at_price s px p o lvl q h)

join_front :
    (s : Side) (px p : ℤ) (o : RestingOrder) (lvl : Level) (q : List Offer)
    → better s px p ≡ true
    → 0 < length lvl
    → join s (offer px o) (at_price p lvl ++ q) ≡ offer px o ∷ at_price p lvl ++ q
unfolding join at_price
join_front s px p o [] q h n = absurd (omega arith)
join_front s px p o (x ∷ lvl) q h n = rw h

join-worse :
    (s : Side) (px : ℤ) (o : RestingOrder) (levels : BookSide)
    → IsSide s levels
    → All (λ e. before s px e.0 ≡ true) levels
    → join s (offer px o) (queue levels) ≡ offer px o ∷ queue levels
unfolding join queue
join-worse s px o [] h w = refl
join-worse s px o ((p, lvl) ∷ rest) h w =
    join_front s px p o lvl (queue rest) (rw before-better at w.0) h.0.0

better_irrefl : (s : Side) (px : ℤ) → better s px px ≡ false
better_irrefl bid px = ground arith
better_irrefl ask px = ground arith

eqb_ℤ→eq : (a b : ℤ) → eqb_ℤ a b ≡ true → a ≡ b
eqb_ℤ→eq a b h = eq_of_parts a b (ground arith)

-- A new order goes to the back of its level, and its level to its place.
pub push_back-queue :
    (s : Side) (px : ℤ) (o : RestingOrder) (levels : BookSide)
    → IsSide s levels
    → queue (push_back s px o levels) ≡ join s (offer px o) (queue levels)
unfolding push_back queue join at_price
push_back-queue s px o [] h = refl
push_back-queue s px o ((p, lvl) ∷ rest) h = elim (Bool-cases (eqb_ℤ p px)) [
  | inl e ↦
      let same : p ≡ px = eqb_ℤ→eq p px e in
      rw (e, at_price-append p lvl o (queue rest))
        (rw
          (
            join-at_price s px p o lvl (queue rest) (rw same (better_irrefl s px)),
            join-worse s px o rest h.3
                (subst (λ k. All (λ e. before s k e.0 ≡ true) rest) same h.2),
          )
          (rw same))
  | inr e ↦ elim (Bool-cases (before s px p)) [
    | inl k ↦ rw (e, k, join_front s px p o lvl (queue rest) (rw before-better at k) h.0.0)
    | inr k ↦ rw (
      e,
      k,
      join-at_price s px p o lvl (queue rest) (rw before-better at k),
      push_back-queue s px o rest h.3,
    )
  ]
]
