-- ===== src/FlatLadder/Contents.antt =====
-- What a Ladder of include/lob/order_book.hpp holds: a list of levels in the order of the side, one
-- entry for each bit that is set, and what its operations make of it.
use limit_order_book.Base.{
  ℕ, ◌*◌, ◌<◌, ◌≡◌, refl, ap, sym, subst, ◌∙◌, ℤ, pos, ◌+ℤ◌, eqb_ℤ, Bool, true, false, Option, none,
  some, [], ◌∷◌, All, lookup, ◌==◌, arith, Bool-cases, ◌⊎◌, ltb, inl, inr, ==_iff,
}
use limit_order_book.Types.{Side, bid, ask}
use limit_order_book.Naive.Sides.{before}
use limit_order_book.Fifo.{Level}
use limit_order_book.Engine.Laws.{Entries, first_price, IsOrdered}
use limit_order_book.Engine.Entries.{Later, lookup_middle, lookup-before}
use limit_order_book.FlatLadder.{
  FlatLadder, in_band, index, scan_worse, scan_side, price_at, clear_level, better,
}
use limit_order_book.FlatLadder.Scans.{bit, IsNext, scan_side-IsNext}
use limit_order_book.FlatLadder.Shape.{Shape, index_price, index-before, price-before, index_bit}

abbrev pub is_there : Option Level → Bool
is_there none = false
is_there (some _) = true

abbrev pub level_or : ℤ → Option Level → Level
level_or px none = clear_level px
level_or px (some lvl) = lvl

abbrev pub price_of : FlatLadder → ℕ → ℤ
price_of l k = l.lo +ℤ pos k

abbrev pub HasBits : FlatLadder → Entries → Type 0
HasBits l es =
    (k : ℕ) → k < 64 * l.words.size → bit l.words k ≡ is_there (lookup eqb_ℤ (price_of l k) es)

abbrev pub HasLevels : FlatLadder → Entries → Type 0
HasLevels l es =
    (k : ℕ)
    → k < l.levels.size
    → l.levels.get k ≡ level_or (price_of l k) (lookup eqb_ℤ (price_of l k) es)

pub record Shows (s : Side) (l : FlatLadder) (es : Entries) : Type 0 where
  pub shape : Shape s l
  pub ordered : IsOrdered s es
  pub within : All (λ e. in_band e.0 l ≡ true) es
  pub bits : HasBits l es
  pub levels : HasLevels l es
  pub best : l.best ≡ first_price es

before_cases :
    (s : Side) (a b : ℕ)
    → (a ≡ b) ⊎ ((before s (pos a) (pos b) ≡ true) ⊎ (before s (pos b) (pos a) ≡ true))
unfolding before
before_cases bid a b = elim (Bool-cases (a == b)) [
  | inl e ↦ inl ((==_iff a b).0 e)
  | inr e ↦ elim (Bool-cases (ltb a b)) [
    | inl l ↦ inr (inr (ground arith))
    | inr l ↦ inr (inl (ground arith))
  ]
]
before_cases ask a b = elim (Bool-cases (a == b)) [
  | inl e ↦ inl ((==_iff a b).0 e)
  | inr e ↦ elim (Bool-cases (ltb a b)) [
    | inl l ↦ inr (inl (ground arith))
    | inr l ↦ inr (inr (ground arith))
  ]
]

module _ (s : Side) (l : FlatLadder) (shape : Shape s l) (px : ℤ) (e : in_band px l ≡ true) where
  abbrev i : ℕ
  i = index px l

  first_is :
      (q : ℤ) (lvl : Level) (ys : Entries) (r : Option ℕ)
      → IsOrdered s ((q, lvl) ∷ ys)
      → ((k : ℕ)
          → k < 64 * l.words.size
          → before s px (price_of l k) ≡ true
          → bit l.words k ≡ is_there (lookup eqb_ℤ (price_of l k) ((q, lvl) ∷ ys)))
      → IsNext s (bit l.words) (64 * l.words.size) i r
      → (kq : ℕ) → price_of l kq ≡ q
      → kq < 64 * l.words.size
      → before s (pos i) (pos kq) ≡ true
      → bit l.words kq ≡ true
      → price_at l.lo r ≡ q
  first_is q lvl ys none o bits next kq at_q below ahead set =
      absurd (cc (next kq below ahead, set))
  first_is q lvl ys (some k) o bits (h, b, set', clear) kq at_q below ahead set =
      elim (before_cases s k kq) [
        | inl same ↦ ap (price_of l) same ∙ at_q
        | inr (inl worse) ↦
            let earlier : before s (price_of l k) q ≡ true =
              ap (before s (price_of l k)) (sym at_q) ∙ price-before s l shape s k kq ∙ worse in
            let gone = lookup-before s (price_of l k) q lvl ys o earlier in
            let seen = bits k h (index-before s l shape px e s k ∙ b) in
            absurd (cc (seen, set', ap is_there gone))
        | inr (inr better) ↦ absurd (cc (clear kq below ahead better, set))
      ]

  -- The entries from a price on, of which the bits beyond that price tell.
  next_first :
      (ys : Entries) (r : Option ℕ)
      → IsOrdered s ys
      → Later s px ys
      → All (λ y. in_band y.0 l ≡ true) ys
      → ((k : ℕ)
          → k < 64 * l.words.size
          → before s px (price_of l k) ≡ true
          → bit l.words k ≡ is_there (lookup eqb_ℤ (price_of l k) ys))
      → IsNext s (bit l.words) (64 * l.words.size) i r
      → price_at l.lo r ≡ first_price ys
  unfolding lookup
  next_first [] none o later within bits next = refl
  next_first [] (some k) o later within bits (h, b, set, _) =
      absurd (cc (set, bits k h (index-before s l shape px e s k ∙ b)))
  next_first ((q, lvl) ∷ ys) r o later within bits next =
      let kq = index q l in
      let at_q = index_price s l shape q within.0 in
      let ahead : before s px (price_of l kq) ≡ true = rw at_q (later.0) in
      let below = index_bit s l shape q within.0 in
      let here : is_there (lookup eqb_ℤ q ((q, lvl) ∷ ys)) ≡ true =
        ap is_there (lookup_middle s [] q lvl ys tt) in
      let set : bit l.words kq ≡ true =
        bits kq below ahead ∙ ap (λ p. is_there (lookup eqb_ℤ p ((q, lvl) ∷ ys))) at_q ∙ here in
      let ahead' : before s (pos i) (pos kq) ≡ true =
        sym (index-before s l shape px e s kq) ∙ ahead in
      first_is q lvl ys r o bits next kq at_q below ahead' set

  pub scan_first :
      (ys : Entries)
      → IsOrdered s ys
      → Later s px ys
      → All (λ y. in_band y.0 l ≡ true) ys
      → ((k : ℕ)
          → k < 64 * l.words.size
          → before s px (price_of l k) ≡ true
          → bit l.words k ≡ is_there (lookup eqb_ℤ (price_of l k) ys))
      → scan_worse px l ≡ first_price ys
  unfolding scan_worse
  scan_first ys o later within bits =
      let next = scan_side-IsNext s l.words i (index_bit s l shape px e) in
      next_first ys (scan_side l.side l.words i) o later within bits (
        subst (λ t. IsNext s (bit l.words) (64 * l.words.size) i (scan_side t l.words i))
          (sym shape.side) next)
