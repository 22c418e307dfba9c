-- ===== src/Naive/Sides/Matching.antt =====
-- The loops of `match` in engines/naive_book.hpp, against the queue of offers.
use limit_order_book.Base.{
  ℕ, ◌+◌, ◌-◌, ◌≤◌, ◌<◌, ◌^◌, ℤ, ◌≡◌, refl, ◌∙◌, Bool, true, false, List, [], ◌∷◌, ◌++◌, arith,
  ◌==◌, min, All, append_assoc, append-nil, Bool-cases, lt→ltb, not_lt→ltb, All-append, dec_lt, inl,
  inr, add32, sub32, add32-eq, sub32-eq,
}
use limit_order_book.Types.{Side}
use limit_order_book.Naive.Sides.{
  RestingOrder, Level, BookSide, LevelFill, SideFill, is_empty, fill_level, match_from, match_side,
}
use limit_order_book.Priority.{Offer, total, reach, beyond, fills, remain, HasQty}
use limit_order_book.Priority.Laws.{
  total-append, fills-append, remain-append_short, remain-append_long, remain_zero, fills-zero,
  fills_done, reach-append-beyond, reach-HasQty,
}
use limit_order_book.Naive.Sides.Queue.{
  at_price, queue, IsQty, IsSide, reach-at_price, beyond-at_price, reach_stop, at_price-HasQty,
}

-- One step of the inner loop: an order that is wanted whole.
pub fill_level-take :
    (t : ℕ) (px : ℤ) (want filled : ℕ) (o : RestingOrder) (lvl : Level)
    → filled < want
    → o.qty ≤ want - filled
    → want < 2 ^ 32
    → let rest = fill_level t px want (filled + o.qty) lvl in
      fill_level t px want filled (o ∷ lvl) ≡ record {
        orders = rest.orders;
        filled = rest.filled;
        trades = record { taker = t; maker = o.id; px = px; qty = o.qty } ∷ rest.trades;
      }
unfolding fill_level
fill_level-take t px want filled o lvl lt le w =
    let wanted : sub32 want filled ≡ want - filled = sub32-eq want filled (omega arith) w in
    let take : min o.qty (want - filled) ≡ o.qty = omega arith in
    let after : add32 filled o.qty ≡ filled + o.qty = add32-eq filled o.qty (omega arith) in
    let left : sub32 o.qty o.qty ≡ 0 =
      sub32-eq o.qty o.qty (omega arith) (omega arith) ∙ omega arith in
    rw (wanted, take, after, left, lt→ltb filled want lt)

-- And an order that is wanted in part.
pub fill_level-part :
    (t : ℕ) (px : ℤ) (want filled : ℕ) (o : RestingOrder) (lvl : Level)
    → filled < want
    → want - filled < o.qty
    → want < 2 ^ 32
    → o.qty < 2 ^ 32
    → fill_level t px want filled (o ∷ lvl) ≡ record {
      orders = record o { qty = o.qty - (want - filled) } ∷ lvl;
      filled = want;
      trades = record { taker = t; maker = o.id; px = px; qty = want - filled } ∷ [];
    }
unfolding fill_level
fill_level-part t px want filled o lvl lt le w v =
    let wanted : sub32 want filled ≡ want - filled = sub32-eq want filled (omega arith) w in
    let take : min o.qty (want - filled) ≡ want - filled = omega arith in
    let after : add32 filled (want - filled) ≡ want =
      add32-eq filled (want - filled) (omega arith) ∙ omega arith in
    let left : sub32 o.qty (want - filled) ≡ o.qty - (want - filled) =
      sub32-eq o.qty (want - filled) (omega arith) v in
    let some_left : (o.qty - (want - filled) == 0) ≡ false = ground arith in
    rw (wanted, take, after, left, lt→ltb filled want lt, some_left)

-- What the inner loop does to a level, when `filled` of `want` are filled before it.
pub record LevelFilled (t : ℕ) (px : ℤ) (want filled : ℕ) (lvl : Level) (f : LevelFill)
    : Type 0 where
  pub left : at_price px f.orders ≡ remain (want - filled) (at_price px lvl)
  pub told : f.trades ≡ fills t (want - filled) (at_price px lvl)
  pub count : f.filled ≡ filled + min (want - filled) (total (at_price px lvl))
  pub orders : All (λ o. IsQty o.qty) f.orders
  pub kept : is_empty f.orders ≡ false → want - filled < total (at_price px lvl)
  pub gone : is_empty f.orders ≡ true → total (at_price px lvl) ≤ want - filled

pub fill_level_lem :
    (t : ℕ) (px : ℤ) (want filled : ℕ) (lvl : Level)
    → All (λ o. IsQty o.qty) lvl
    → filled ≤ want
    → want < 2 ^ 32
    → LevelFilled t px want filled lvl (fill_level t px want filled lvl)
unfolding at_price total fills remain fill_level
fill_level_lem t px want filled [] h le w = ground arith
fill_level_lem t px want filled (o ∷ lvl) h le w = elim (dec_lt filled want) [
  | no full ↦ ground arith
  | yes short ↦ elim (dec_lt (want - filled) o.qty) [
    | yes part ↦
        rw (fill_level-part t px want filled o lvl short part w h.0.1)
          (ground (arith, fills_done t (want - filled - o.qty) (at_price px lvl)))
    | no whole ↦
        let ih = fill_level_lem t px want (filled + o.qty) lvl h.1 (omega arith) w in
        rw (fill_level-take t px want filled o lvl short (omega arith) w) (ground (arith, ih))
  ]
]

pub queue-HasQty : (s : Side) (levels : BookSide) → IsSide s levels → HasQty (queue levels)
unfolding queue
queue-HasQty s [] h = tt
queue-HasQty s ((px, lvl) ∷ rest) h =
    All-append _ (at_price px lvl) (queue rest) (at_price-HasQty px lvl h.0.1)
      (queue-HasQty s rest h.3)

-- What the outer loop does to a side, when `filled` of `want` are filled before it.
record SideFilled (t want filled : ℕ) (c : ℤ → Bool) (q : List Offer) (f : SideFill) : Type 0 where
  pub left : queue f.levels ≡ remain (want - filled) (reach c q) ++ beyond c q
  pub told : f.trades ≡ fills t (want - filled) (reach c q)
  pub count : f.filled ≡ filled + min (want - filled) (total (reach c q))

module _ (t want : ℕ) (c : ℤ → Bool) (s : Side) (px : ℤ) (lvl : Level) (rest : BookSide) where
  stop : ℕ → SideFill
  stop filled = record { levels = (px, lvl) ∷ rest; filled = filled; trades = [] }

  stop_price :
      (filled : ℕ)
      → IsSide s ((px, lvl) ∷ rest)
      → c px ≡ false
      → SideFilled t want filled c (queue ((px, lvl) ∷ rest)) (stop filled)
  unfolding stop queue fills remain total
  stop_price filled h e =
      let r = reach_stop c px lvl (queue rest) h.0.0 e in
      record { left = rw (r.0, r.1); told = rw r.0; count = rw r.0 (omega arith) }

  stop_full :
      (filled : ℕ)
      → IsSide s ((px, lvl) ∷ rest)
      → filled ≡ want
      → SideFilled t want filled c (queue ((px, lvl) ∷ rest)) (stop filled)
  unfolding stop
  stop_full filled h e =
      let q = queue ((px, lvl) ∷ rest) in
      let none_wanted : want - filled ≡ 0 = omega arith in
      record {
        left = rw (
          none_wanted,
          remain_zero (reach c q) (reach-HasQty c q (queue-HasQty s ((px, lvl) ∷ rest) h)),
          reach-append-beyond c q,
        );
        told = rw (none_wanted, fills-zero);
        count = omega arith;
      }

  module _ (filled : ℕ) (f : LevelFill) (crossed : c px ≡ true)
      (l : LevelFilled t px want filled lvl f) where
    part_level :
        is_empty f.orders ≡ false
        → SideFilled t want filled c
            (queue ((px, lvl) ∷ rest))
            (record { levels = (px, f.orders) ∷ rest; filled = f.filled; trades = f.trades })
    unfolding queue
    part_level e =
        let p = at_price px lvl in
        let short = l.kept e in
        record {
          left = rw (
            reach-at_price c px lvl (queue rest) crossed,
            beyond-at_price c px lvl (queue rest) crossed,
            l.left,
            remain-append_short (want - filled) p (reach c (queue rest)) short,
            append_assoc,
            reach-append-beyond,
          );
          told = rw (
            reach-at_price c px lvl (queue rest) crossed,
            l.told,
            fills-append t (want - filled) p (reach c (queue rest)),
            fills_done t (want - filled - total p) (reach c (queue rest)) (omega arith),
            append-nil,
          );
          count =
              rw
                (
                  reach-at_price c px lvl (queue rest) crossed,
                  total-append p (reach c (queue rest)),
                )
                (omega (arith, l.count));
        }

    whole_level :
        (more : SideFill)
        → is_empty f.orders ≡ true
        → SideFilled t want f.filled c (queue rest) more
        → SideFilled t want filled c
            (queue ((px, lvl) ∷ rest))
            (record more { trades = f.trades ++ more.trades })
    unfolding queue
    whole_level more e m =
        let p = at_price px lvl in
        let n : want - f.filled ≡ want - filled - total p = omega (arith, l.count, l.gone e) in
        record {
          left = rw (
            reach-at_price c px lvl (queue rest) crossed,
            beyond-at_price c px lvl (queue rest) crossed,
            m.left,
            n,
            remain-append_long (want - filled) p (reach c (queue rest)) (l.gone e),
          );
          told = rw (
            reach-at_price c px lvl (queue rest) crossed,
            l.told,
            m.told,
            n,
            fills-append t (want - filled) p (reach c (queue rest)),
          );
          count =
              rw
                (
                  reach-at_price c px lvl (queue rest) crossed,
                  total-append p (reach c (queue rest)),
                )
                (omega (arith, l.count, m.count, l.gone e));
        }

match_from_lem :
    (t want : ℕ) (c : ℤ → Bool) (s : Side) (filled : ℕ) (levels : BookSide)
    → IsSide s levels
    → filled ≤ want
    → want < 2 ^ 32
    → SideFilled t want filled c (queue levels) (match_from t want c filled levels)
unfolding match_from stop
match_from_lem t want c s filled [] h le w =
    unfold queue reach beyond remain fills total in
    record { left = refl; told = refl; count = omega arith }
match_from_lem t want c s filled ((px, lvl) ∷ rest) h le w =
    let f = fill_level t px want filled lvl in
    let l = fill_level_lem t px want filled lvl h.0.1 le w in
    elim (dec_lt filled want) [
      | no full ↦
          rw (not_lt→ltb filled want full) (stop_full t want c s px lvl rest filled h (omega arith))
      | yes short ↦ elim (Bool-cases (c px)) [
        | inr e ↦ rw (lt→ltb filled want short, e) (stop_price t want c s px lvl rest filled h e)
        | inl e ↦ elim (Bool-cases (is_empty f.orders)) [
          | inr k ↦
              rw (lt→ltb filled want short, e, k) (part_level t want c s px lvl rest filled f e l k)
          | inl k ↦
              rw (lt→ltb filled want short, e, k)
                (whole_level t want c s px lvl rest filled f e l _ k
                  (match_from_lem t want c s f.filled rest h.3 (omega (arith, l.count)) w))
        ]
      ]
    ]

-- On a well-formed side, for a wanted quantity below 2^32 and any price test, a match takes from
-- the offers that the test reaches, oldest first at the best price first, until it has what it
-- wants: the trades, the offers left and the quantity filled are those of the queue.
pub match_side-queue :
    (t want : ℕ) (c : ℤ → Bool) (s : Side) (levels : BookSide)
    → IsSide s levels
    → want < 2 ^ 32
    → let q = queue levels in
      let f = match_side t want c levels in
      (queue f.levels ≡ remain want (reach c q) ++ beyond c q)
      × (f.trades ≡ fills t want (reach c q))
      × (f.filled ≡ min want (total (reach c q)))
unfolding match_side
match_side-queue t want c s levels h w =
    let r = match_from_lem t want c s 0 levels h (omega arith) w in
    let n : want - 0 ≡ want = omega arith in
    (rw n at r.left, rw n at r.told, omega (arith, r.count))
