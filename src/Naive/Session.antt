-- ===== src/Naive/Session.antt =====
-- Cancel, modify and whole sessions of engines/naive_book.hpp: the invariant holds throughout, and
-- it is what `check_invariants` looks for.
use limit_order_book.Base.{
  ℕ, ◌<◌, ◌^◌, ℤ, pos, ◌<ℤ◌, ◌≡◌, refl, subst, Bool, false, ◌&&◌, ◌||◌, not, none, some, List, [],
  ◌∷◌, arith, leb, ◌==◌, if◌then◌else◌, All, Bool-cases, Option-cases, inl, inr, leb_ℤ, eqb_ℤ,
}
use limit_order_book.Types.{Side, bid, ask, Tif, gtc}
use limit_order_book.Naive.Sides.{
  BookSide, RestingOrder, erase_from, find, amend, erased, front_price, any_empty, is_empty,
}
use limit_order_book.Naive.Sides.Queue.{IsSide, IsQty}
use limit_order_book.Naive.Sides.Prices.{erased-Prices, amend-Prices}
use limit_order_book.Naive.Sides.Shape.{erased-IsSide, amend-IsSide}
use limit_order_book.Naive.Refinement.{own-IsSide}
use limit_order_book.Naive.{
  NaiveBook, new, own, submit_limit, submit_market, cancel, modify, modify_found, check_invariants,
  bad_amend,
}
use limit_order_book.Naive.Invariant.{
  Apart, IsValid, new-IsValid, IsValid-IsBook, Shrinks, set_own-IsValid, submit_limit-IsValid,
  submit_market-IsValid,
}

erased-Shrinks :
    (s : Side) (id : ℕ) (levels : BookSide) → IsSide s levels → Shrinks s levels (erased id levels)
erased-Shrinks s id levels h = record {
  shape = erased-IsSide s id levels h;
  prices = λ P. erased-Prices P id levels;
}

erase_from-Shrinks :
    (s : Side) (id : ℕ) (levels levels' : BookSide)
    → IsSide s levels
    → erase_from id levels ≡ some levels'
    → Shrinks s levels levels'
unfolding erased
erase_from-Shrinks s id levels levels' h e =
    subst (Shrinks s levels) (rw (e, erased)) (erased-Shrinks s id levels h)

pub cancel-IsValid : (id : ℕ) (b : NaiveBook) → IsValid b → IsValid (cancel id b).0
unfolding cancel
cancel-IsValid id b v = elim (Option-cases (erase_from id b.bids)) [
  | inr (bids, e) ↦
      rw (e, cancel) (set_own-IsValid bid b bids v (erase_from-Shrinks bid id b.bids bids v.bids e))
  | inl e ↦ elim (Option-cases (erase_from id b.asks)) [
    | inr (asks, k) ↦
        rw (e, k, cancel)
          (set_own-IsValid ask b asks v (erase_from-Shrinks ask id b.asks asks v.asks k))
    | inl k ↦ rw (e, k, cancel) v
  ]
]

amend-Shrinks :
    (s : Side) (id qty : ℕ) (levels : BookSide)
    → IsQty qty
    → IsSide s levels
    → Shrinks s levels (amend id qty levels)
amend-Shrinks s id qty levels q h = record {
  shape = amend-IsSide s id qty levels q h;
  prices = λ P. amend-Prices P id qty levels;
}

modify_found-IsValid :
    (s : Side) (o : RestingOrder) (px : ℤ) (id : ℕ) (new_px : ℤ) (new_qty : ℕ) (b : NaiveBook)
    → IsValid b
    → IsQty new_qty
    → IsValid (modify_found s o px id new_px new_qty b).0
unfolding modify_found
modify_found-IsValid s o px id new_px new_qty b v q =
    let side = own-IsSide s b (IsValid-IsBook b v) in
    elim (Bool-cases (eqb_ℤ new_px px && leb new_qty o.qty)) [
      | inl e ↦ rw e (set_own-IsValid s b _ v (amend-Shrinks s id new_qty (own s b) q side))
      | inr e ↦ rw e (
          submit_limit-IsValid id s new_px new_qty gtc _
            (set_own-IsValid s b _ v (erased-Shrinks s id (own s b) side)) q.1)
    ]

pub modify-IsValid :
    (id : ℕ) (px : ℤ) (qty : ℕ) (b : NaiveBook)
    → IsValid b
    → qty < 2 ^ 32
    → IsValid (modify id px qty b).0
unfolding modify
modify-IsValid id px qty b v w = elim (Option-cases (find id b.bids)) [
  | inr ((o, p), e) ↦ rw (e, modify) (found bid o p)
  | inl e ↦ elim (Option-cases (find id b.asks)) [
    | inr ((o, p), k) ↦ rw (e, k, modify) (found ask o p)
    | inl k ↦ rw (e, k, modify) v
  ]
]
  where
    found :
        (s : Side) (o : RestingOrder) (p : ℤ)
        → IsValid
            (if qty == 0 || leb_ℤ px (pos 0)
              then (b, bad_amend)
              else modify_found s o p id px qty b).0
    found s o p = elim (Bool-cases (qty == 0 || leb_ℤ px (pos 0))) [
      | inl bad ↦ rw bad v
      | inr good ↦ rw good (modify_found-IsValid s o p id px qty b v (ground arith, w))
    ]

any_empty-IsSide : (s : Side) (levels : BookSide) → IsSide s levels → any_empty levels ≡ false
unfolding any_empty
any_empty-IsSide s [] h = refl
any_empty-IsSide s ((px, []) ∷ rest) h = absurd (omega arith)
any_empty-IsSide s ((px, o ∷ lvl) ∷ rest) h = any_empty-IsSide s rest h.3

crossed : BookSide → BookSide → Bool
crossed bids asks =
    not (is_empty bids) && not (is_empty asks) && leb_ℤ (front_price asks) (front_price bids)

crossed-Apart : (bids asks : BookSide) → Apart bids asks → crossed bids asks ≡ false
unfolding crossed
crossed-Apart [] asks h = refl
crossed-Apart (x ∷ bids) [] h = refl
crossed-Apart ((p, _) ∷ bids) ((q, _) ∷ asks) h = let apart : p <ℤ q = h.0.0 in ground arith

-- `check_invariants` finds nothing wrong with a valid book.
check_invariants-IsValid : (b : NaiveBook) → IsValid b → check_invariants b ≡ none
unfolding check_invariants crossed
check_invariants-IsValid b v = rw (
  crossed-Apart b.bids b.asks v.apart,
  any_empty-IsSide bid b.bids v.bids,
  any_empty-IsSide ask b.asks v.asks,
)

-- One call of the engine's interface, and the book after it.
pub data Call : Type 0 where
  limit : ℕ → Side → ℤ → ℕ → Tif → Call
  market : ℕ → Side → ℕ → Call
  cancels : ℕ → Call
  modifies : ℕ → ℤ → ℕ → Call

pub apply : NaiveBook → Call → NaiveBook
apply b (limit id s px qty tif) = (submit_limit id s px qty tif b).0
apply b (market id s qty) = (submit_market id s qty b).0
apply b (cancels id) = (cancel id b).0
apply b (modifies id px qty) = (modify id px qty b).0

-- The quantities of a call are 32-bit words.
abbrev pub IsCall : Call → Type 0
IsCall (limit id s px qty tif) = qty < 2 ^ 32
IsCall (market id s qty) = qty < 2 ^ 32
IsCall (cancels id) = Unit
IsCall (modifies id px qty) = qty < 2 ^ 32

apply-IsValid : (b : NaiveBook) (c : Call) → IsCall c → IsValid b → IsValid (apply b c)
unfolding apply
apply-IsValid b (limit id s px qty tif) w v = submit_limit-IsValid id s px qty tif b v w
apply-IsValid b (market id s qty) w v = submit_market-IsValid id s qty b v w
apply-IsValid b (cancels id) w v = cancel-IsValid id b v
apply-IsValid b (modifies id px qty) w v = modify-IsValid id px qty b v w

pub run : NaiveBook → List Call → NaiveBook
run b [] = b
run b (c ∷ cs) = run (apply b c) cs

run-IsValid : (b : NaiveBook) (cs : List Call) → All IsCall cs → IsValid b → IsValid (run b cs)
unfolding run
run-IsValid b [] w v = v
run-IsValid b (c ∷ cs) w v = run-IsValid (apply b c) cs w.1 (apply-IsValid b c w.0 v)

-- After any sequence of calls on a new book whose submitted and amended quantities are below 2^32,
-- whatever its protection, every bid is below every ask, each side is in order with no empty level
-- and no order without a quantity, and check_invariants reports nothing.
pub run-check_invariants :
    (p : ℤ) (cs : List Call)
    → All IsCall cs
    → IsValid (run (new p) cs) × (check_invariants (run (new p) cs) ≡ none)
run-check_invariants p cs w =
    let v = run-IsValid (new p) cs w (new-IsValid p) in (v, check_invariants-IsValid _ v)
