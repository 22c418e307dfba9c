-- ===== src/Priority/Laws.antt =====
-- Laws of the queue of offers.
use limit_order_book.Base.{
  ℕ, ◌+◌, ◌-◌, ◌≤◌, ◌<◌, ℤ, ◌≡◌, refl, ap, Bool, List, [], ◌∷◌, ◌++◌, arith, Bool-cases, inl, inr,
}
use limit_order_book.Priority.{Offer, total, reach, beyond, fills, remain, HasQty}

pub total-append : (p q : List Offer) → total (p ++ q) ≡ total p + total q
unfolding total
total-append [] q = omega arith
total-append (o ∷ p) q = omega (arith, total-append p q)

pub reach-append-beyond : (c : ℤ → Bool) (q : List Offer) → reach c q ++ beyond c q ≡ q
unfolding reach beyond
reach-append-beyond c [] = refl
reach-append-beyond c (o ∷ q) = elim (Bool-cases (c o.px)) [
  | inl e ↦ rw e (ap (◌∷◌ o) (reach-append-beyond c q))
  | inr e ↦ rw e
]

pub fills-zero : (t : ℕ) (q : List Offer) → fills t 0 q ≡ []
unfolding fills
fills-zero t [] = refl
fills-zero t (o ∷ q) = refl

pub fills_done : (t n : ℕ) (q : List Offer) → n ≡ 0 → fills t n q ≡ []
fills_done t n q h = rw (h, fills-zero)

pub fills-append :
    (t n : ℕ) (p q : List Offer) → fills t n (p ++ q) ≡ fills t n p ++ fills t (n - total p) q
unfolding fills total
fills-append t n [] q = ground arith
fills-append t n (o ∷ p) q = ground (arith, fills-append t (n - o.qty) p q, fills-zero t q)

pub remain_zero : (q : List Offer) → HasQty q → remain 0 q ≡ q
unfolding remain
remain_zero [] h = refl
remain_zero (o ∷ q) h = ground arith

pub remain-append_short :
    (n : ℕ) (p q : List Offer) → n < total p → remain n (p ++ q) ≡ remain n p ++ q
unfolding remain total
remain-append_short n [] q h = absurd (omega arith)
remain-append_short n (o ∷ p) q h = ground (arith, remain-append_short (n - o.qty) p q)

pub remain-append_long :
    (n : ℕ) (p q : List Offer) → total p ≤ n → remain n (p ++ q) ≡ remain (n - total p) q
unfolding remain total
remain-append_long n [] q h = ground arith
remain-append_long n (o ∷ p) q h = ground (arith, remain-append_long (n - o.qty) p q)

pub reach-HasQty : (c : ℤ → Bool) (q : List Offer) → HasQty q → HasQty (reach c q)
unfolding reach
reach-HasQty c [] h = tt
reach-HasQty c (o ∷ q) h = ground (arith, reach-HasQty c q)
