-- ===== src/Naive/Sides/Shape.antt =====
-- Every change that engines/naive_book.hpp makes to a side keeps it well formed.
use limit_order_book.Base.{
  ℕ, ◌≤◌, ◌<◌, ◌^◌, ℤ, pos, ◌<ℤ◌, ◌≡◌, refl, subst, Bool, true, false, Option, none, some, List, [],
  ◌∷◌, arith, ltb, eqb_ℤ, ◌&&◌, ◌==◌, All, length, length-append, All-append, Bool-cases,
  Option-cases, inl, inr, dec_lt, lt→ltb, not_lt→ltb,
}
use limit_order_book.Types.{Side, bid, ask}
use limit_order_book.Naive.Sides.{
  RestingOrder, Level, BookSide, before, is_empty, fill_level, match_from, push_back, erase_level,
  find_level, amend_level, amend, erased,
}
use limit_order_book.Naive.Sides.Queue.{IsQty, IsLevel, IsSide}
use limit_order_book.Naive.Sides.Matching.{fill_level_lem}
use limit_order_book.Naive.Sides.Prices.{
  Prices, erased_in, erased-nil, erased-cons, erased-Prices, amend-Prices, push_back-Prices,
}

not_empty {ℓ} : {A : Type ℓ} (xs : List A) → is_empty xs ≡ false → 0 < length xs
not_empty [] h = cc
not_empty (x ∷ xs) h = omega arith

abbrev IsOrders : Level → Type 0
IsOrders = All (λ o. IsQty o.qty)

abbrev IsOrders? : Option Level → Type 0
IsOrders? none = Unit
IsOrders? (some lvl) = IsOrders lvl

erase_level-IsOrders : (id : ℕ) (lvl : Level) → IsOrders lvl → IsOrders? (erase_level id lvl)
unfolding erase_level
erase_level-IsOrders id [] h = tt
erase_level-IsOrders id (o ∷ lvl) h =
    let ih = erase_level-IsOrders id lvl h.1 in
    elim (Bool-cases (o.id == id)) [
      | inl e ↦ rw e h.1
      | inr e ↦ elim (Option-cases (erase_level id lvl)) [
        | inl k ↦ rw (e, k) tt
        | inr (lvl', k) ↦ rw (e, k) (h.0, subst IsOrders? k ih)
      ]
    ]

pub erased-IsSide :
    (s : Side) (id : ℕ) (levels : BookSide) → IsSide s levels → IsSide s (erased id levels)
erased-IsSide s id [] h = rw erased-nil tt
erased-IsSide s id ((px, lvl) ∷ rest) h =
    rw erased-cons
      (kept (erase_level id lvl) (erase_level-IsOrders id lvl h.0.1) (erased-IsSide s id rest h.3))
  where
    kept :
        (o : Option Level)
        → IsOrders? o
        → IsSide s (erased id rest)
        → IsSide s (erased_in id px lvl rest o)
    kept none k ih = (h.0, h.1, erased-Prices (λ p. before s px p ≡ true) id rest h.2, ih)
    kept (some []) k ih = h.3
    kept (some (o ∷ lvl')) k ih = ((omega arith, k), h.1, h.2, h.3)

amend_level-IsOrders :
    (id qty : ℕ) (lvl : Level) → IsQty qty → IsOrders lvl → IsOrders (amend_level id qty lvl)
unfolding amend_level
amend_level-IsOrders id qty [] q h = tt
amend_level-IsOrders id qty (o ∷ lvl) q h = elim (Bool-cases (o.id == id)) [
  | inl e ↦ rw e (q, h.1)
  | inr e ↦ rw e (h.0, amend_level-IsOrders id qty lvl q h.1)
]

length-amend_level : (id qty : ℕ) (lvl : Level) → length (amend_level id qty lvl) ≡ length lvl
unfolding amend_level
length-amend_level id qty [] = refl
length-amend_level id qty (o ∷ lvl) = ground (arith, length-amend_level id qty lvl)

amend_level-IsLevel :
    (id qty : ℕ) (lvl : Level) → IsQty qty → IsLevel lvl → IsLevel (amend_level id qty lvl)
amend_level-IsLevel id qty lvl q h =
    (rw length-amend_level h.0, amend_level-IsOrders id qty lvl q h.1)

pub amend-IsSide :
    (s : Side) (id qty : ℕ) (levels : BookSide)
    → IsQty qty
    → IsSide s levels
    → IsSide s (amend id qty levels)
unfolding amend
amend-IsSide s id qty [] q h = tt
amend-IsSide s id qty ((px, lvl) ∷ rest) q h = elim (Option-cases (find_level id lvl)) [
  | inl e ↦
      rw (e, amend)
        (
          h.0,
          h.1,
          amend-Prices (λ p. before s px p ≡ true) id qty rest h.2,
          amend-IsSide s id qty rest q h.3,
        )
  | inr (_, e) ↦ rw (e, amend) (amend_level-IsLevel id qty lvl q h.0, h.1, h.2, h.3)
]

before_trans :
    (s : Side) (a b c : ℤ) → before s a b ≡ true → before s b c ≡ true → before s a c ≡ true
unfolding before
before_trans bid a b c h k = ground arith
before_trans ask a b c h k = ground arith

before_total : (s : Side) (a b : ℤ) → eqb_ℤ a b ≡ false → before s b a ≡ false → before s a b ≡ true
unfolding before
before_total bid a b h k = ground arith
before_total ask a b h k = ground arith

pub push_back-IsSide :
    (s : Side) (px : ℤ) (o : RestingOrder) (levels : BookSide)
    → pos 0 <ℤ px
    → IsQty o.qty
    → IsSide s levels
    → IsSide s (push_back s px o levels)
unfolding push_back
push_back-IsSide s px o [] p q h = ((omega arith, (q, tt)), p, tt, tt)
push_back-IsSide s px o ((k, lvl) ∷ rest) p q h = elim (Bool-cases (eqb_ℤ k px)) [
  | inl e ↦ rw e (
    (omega (arith, length-append lvl (o ∷ [])), All-append _ lvl (o ∷ []) h.0.1 (q, tt)),
    h.1,
    h.2,
    h.3,
  )
  | inr e ↦ elim (Bool-cases (before s px k)) [
    | inl b ↦ rw (e, b) ((omega arith, (q, tt)), p, (b, worse s px k rest b h.2), h)
    | inr b ↦
        rw (e, b)
          (
            h.0,
            h.1,
            push_back-Prices (λ x. before s k x ≡ true) s px o rest (before_total s k px e b) h.2,
            push_back-IsSide s px o rest p q h.3,
          )
  ]
]
  where
    worse :
        (s : Side) (a b : ℤ) (levels : BookSide)
        → before s a b ≡ true
        → Prices (λ x. before s b x ≡ true) levels
        → Prices (λ x. before s a x ≡ true) levels
    worse s a b [] h k = tt
    worse s a b ((x, lvl) ∷ rest) h k = (before_trans s a b x h k.0, worse s a b rest h k.1)

pub match_from-IsSide :
    (t want : ℕ) (c : ℤ → Bool) (s : Side) (filled : ℕ) (levels : BookSide)
    → IsSide s levels
    → filled ≤ want
    → want < 2 ^ 32
    → IsSide s (match_from t want c filled levels).levels
unfolding match_from
match_from-IsSide t want c s filled [] h le w = tt
match_from-IsSide t want c s filled ((px, lvl) ∷ rest) h le w =
    let f = fill_level t px want filled lvl in
    let l = fill_level_lem t px want filled lvl h.0.1 le w in
    elim (Bool-cases (ltb filled want && c px)) [
      | inr e ↦ rw e h
      | inl e ↦ elim (Bool-cases (is_empty f.orders)) [
        | inl k ↦
            rw (e, k) (match_from-IsSide t want c s f.filled rest h.3 (omega (arith, l.count)) w)
        | inr k ↦ rw (e, k) ((not_empty f.orders k, l.orders), h.1, h.2, h.3)
      ]
    ]

-- A price test that, once failed, fails at every price behind.
abbrev pub IsLimit : Side → (ℤ → Bool) → Type 0
IsLimit s c = (a b : ℤ) → before s a b ≡ true → c a ≡ false → c b ≡ false

all_behind :
    (s : Side) (c : ℤ → Bool) (px : ℤ) (rest : BookSide)
    → IsLimit s c
    → c px ≡ false
    → Prices (λ x. before s px x ≡ true) rest
    → Prices (λ x. c x ≡ false) rest
all_behind s c px [] lim e h = tt
all_behind s c px ((k, _) ∷ rest) lim e h = (lim px k h.0 e, all_behind s c px rest lim e h.1)

-- A taker that is not filled leaves no level within its limit.
pub match_from-exhausts :
    (t want : ℕ) (c : ℤ → Bool) (s : Side) (filled : ℕ) (levels : BookSide)
    → IsLimit s c
    → IsSide s levels
    → filled ≤ want
    → want < 2 ^ 32
    → let f = match_from t want c filled levels in
      f.filled < want → Prices (λ x. c x ≡ false) f.levels
unfolding match_from
match_from-exhausts t want c s filled [] lim h le w = λ _. tt
match_from-exhausts t want c s filled ((px, lvl) ∷ rest) lim h le w =
    let f = fill_level t px want filled lvl in
    let l = fill_level_lem t px want filled lvl h.0.1 le w in
    elim (dec_lt filled want) [
      | no full ↦ rw (not_lt→ltb filled want full) (λ lt. absurd (full lt))
      | yes short ↦ elim (Bool-cases (c px)) [
        | inr e ↦ rw (lt→ltb filled want short, e) (λ _. (e, all_behind s c px rest lim e h.2))
        | inl e ↦ elim (Bool-cases (is_empty f.orders)) [
          | inl k ↦
              rw (lt→ltb filled want short, e, k)
                (match_from-exhausts t want c s f.filled rest lim h.3 (omega (arith, l.count)) w)
          | inr k ↦
              rw (lt→ltb filled want short, e, k) (λ lt. absurd (omega (arith, l.count, l.kept k)))
        ]
      ]
    ]
