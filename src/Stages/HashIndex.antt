-- ===== src/Stages/HashIndex.antt =====
-- The id index of engines/book_v4.hpp: a `std::unordered_map` from ids to orders, as what it finds
-- and how much it holds.
use limit_order_book.Base.{
  ℕ, suc, ◌-◌, ◌≡◌, refl, sym, ◌∙◌, Bool, true, false, Option, none, some, List, [], ◌∷◌, ◌++◌,
  arith, lookup, ◌==◌, if◌then◌else◌, Bool-cases, inl, inr, length, length-append, ==_iff,
  append-nil, subst,
}
use limit_order_book.Fifo.{Ptr}

pub record HashIndex : Type 0 where
  pub find : ℕ → Option Ptr
  pub size : ℕ

abbrev is_none : Option Ptr → Bool
is_none none = true
is_none (some _) = false

-- `emplace`, which leaves a key that is there.
unfoldable pub emplace : ℕ → Ptr → HashIndex → HashIndex
emplace k p m =
    if is_none (m.find k)
    then record { find = λ j. if k == j then some p else m.find j; size = suc m.size }
    else m

unfoldable pub erase_id : ℕ → HashIndex → HashIndex
erase_id k m = record {
  find = λ j. if k == j then none else m.find j;
  size = if is_none (m.find k) then m.size else m.size - 1;
}

-- No key twice.
abbrev pub IsUnique : List (ℕ × Ptr) → Type 0
IsUnique [] = Unit
IsUnique ((k, _) ∷ es) = (lookup ◌==◌ k es ≡ none) × IsUnique es

pub record Indexes (m : HashIndex) (es : List (ℕ × Ptr)) : Type 0 where
  pub finds : (k : ℕ) → m.find k ≡ lookup ◌==◌ k es
  pub counts : m.size ≡ length es
  pub unique : IsUnique es

itself : (k : ℕ) → (k == k) ≡ true
itself k = ground arith

none_if :
    (b : Bool) (p : Ptr) (o : Option Ptr)
    → (if b then some p else o) ≡ none
    → (b ≡ false) × (o ≡ none)
none_if true p o e = absurd (cc e)
none_if false p o e = (refl, e)

none_cons :
    (k j : ℕ) (p : Ptr) (xs : List (ℕ × Ptr))
    → lookup ◌==◌ k ((j, p) ∷ xs) ≡ none
    → ((j == k) ≡ false) × (lookup ◌==◌ k xs ≡ none)
unfolding lookup
none_cons k j p xs e = none_if (j == k) p _ e

lookup_left :
    (k : ℕ) (xs ys : List (ℕ × Ptr))
    → lookup ◌==◌ k xs ≡ none
    → lookup ◌==◌ k (xs ++ ys) ≡ lookup ◌==◌ k ys
unfolding lookup
lookup_left k [] ys e = refl
lookup_left k ((j, p) ∷ xs) ys e =
    let r = none_cons k j p xs e in rw (r.0) (lookup_left k xs ys r.1)

none_left :
    (k : ℕ) (xs ys : List (ℕ × Ptr)) → lookup ◌==◌ k (xs ++ ys) ≡ none → lookup ◌==◌ k xs ≡ none
unfolding lookup
none_left k [] ys e = refl
none_left k ((j, p) ∷ xs) ys e =
    let r = none_cons k j p (xs ++ ys) e in rw (r.0) (none_left k xs ys r.1)

module _ (k : ℕ) (p : Ptr) where
  none_middle :
      (j : ℕ) (xs ys : List (ℕ × Ptr)) → lookup ◌==◌ j (xs ++ (k, p) ∷ ys) ≡ none → (k == j) ≡ false
  none_middle j [] ys e = (none_cons j k p ys e).0
  none_middle j ((i, q) ∷ xs) ys e = none_middle j xs ys (none_cons j i q (xs ++ (k, p) ∷ ys) e).1

  lookup_other :
      (j : ℕ) (xs ys : List (ℕ × Ptr))
      → (k == j) ≡ false
      → lookup ◌==◌ j (xs ++ (k, p) ∷ ys) ≡ lookup ◌==◌ j (xs ++ ys)
  unfolding lookup
  lookup_other j [] ys e = rw e refl
  lookup_other j ((i, q) ∷ xs) ys e = rw (lookup_other j xs ys e) refl

  lookup_in :
      (xs ys : List (ℕ × Ptr))
      → lookup ◌==◌ k xs ≡ none
      → lookup ◌==◌ k (xs ++ (k, p) ∷ ys) ≡ some p
  unfolding lookup
  lookup_in [] ys e = rw (itself k) refl
  lookup_in ((i, q) ∷ xs) ys e = let r = none_cons k i q xs e in rw (r.0) (lookup_in xs ys r.1)

  -- The key in the middle is nowhere else.
  IsUnique-middle :
      (xs ys : List (ℕ × Ptr))
      → IsUnique (xs ++ (k, p) ∷ ys)
      → (lookup ◌==◌ k (xs ++ ys) ≡ none) × IsUnique (xs ++ ys)
  unfolding lookup
  IsUnique-middle [] ys u = u
  IsUnique-middle ((i, q) ∷ xs) ys u =
      let r = IsUnique-middle xs ys u.1 in
      let differ = none_middle i xs ys u.0 in
      let differ' : (i == k) ≡ false = ground arith in
      (rw differ' (r.0), (sym (lookup_other i xs ys differ) ∙ u.0, r.1))

  IsUnique-insert :
      (xs ys : List (ℕ × Ptr))
      → lookup ◌==◌ k (xs ++ ys) ≡ none
      → IsUnique (xs ++ ys)
      → IsUnique (xs ++ (k, p) ∷ ys)
  IsUnique-insert [] ys e u = (e, u)
  IsUnique-insert ((i, q) ∷ xs) ys e u =
      let r = none_cons k i q (xs ++ ys) e in
      let differ = r.0 in
      let differ' : (k == i) ≡ false = ground arith in
      (lookup_other i xs ys differ' ∙ u.0, IsUnique-insert xs ys r.1 u.1)

lookup_swap :
    (k : ℕ) (xs ys : List (ℕ × Ptr))
    → IsUnique (xs ++ ys)
    → lookup ◌==◌ k (xs ++ ys) ≡ lookup ◌==◌ k (ys ++ xs)
unfolding lookup
lookup_swap k [] ys u = rw append-nil refl
lookup_swap k ((j, p) ∷ xs) ys u = elim (Bool-cases (j == k)) [
  | inl same ↦
      let gone = none_left j ys xs (sym (lookup_swap j xs ys u.1) ∙ u.0) in
      rw same (
        subst (λ k. some p ≡ lookup ◌==◌ k (ys ++ (j, p) ∷ xs)) ((==_iff j k).0 same)
          (sym (lookup_in j p ys xs gone)))
  | inr other ↦ rw other (lookup_swap k xs ys u.1 ∙ sym (lookup_other j p k ys xs other))
]

IsUnique-swap : (xs ys : List (ℕ × Ptr)) → IsUnique (xs ++ ys) → IsUnique (ys ++ xs)
IsUnique-swap [] ys u = rw append-nil u
IsUnique-swap ((j, p) ∷ xs) ys u =
    IsUnique-insert j p ys xs (sym (lookup_swap j xs ys u.1) ∙ u.0) (IsUnique-swap xs ys u.1)

length_middle :
    (xs : List (ℕ × Ptr)) (e : ℕ × Ptr) (ys : List (ℕ × Ptr))
    → length (xs ++ e ∷ ys) ≡ suc (length (xs ++ ys))
length_middle xs e ys = omega (arith, length-append xs (e ∷ ys), length-append xs ys)

pub swap-Indexes :
    (m : HashIndex) (xs ys : List (ℕ × Ptr)) → Indexes m (xs ++ ys) → Indexes m (ys ++ xs)
swap-Indexes m xs ys h = record {
  finds = λ k. h.finds k ∙ lookup_swap k xs ys h.unique;
  counts = h.counts ∙ omega (arith, length-append xs ys, length-append ys xs);
  unique = IsUnique-swap xs ys h.unique;
}

pub erase_id-Indexes :
    (m : HashIndex) (xs : List (ℕ × Ptr)) (k : ℕ) (p : Ptr) (ys : List (ℕ × Ptr))
    → Indexes m (xs ++ (k, p) ∷ ys)
    → Indexes (erase_id k m) (xs ++ ys)
unfolding erase_id
erase_id-Indexes m xs k p ys h =
    let u = IsUnique-middle k p xs ys h.unique in
    let found : m.find k ≡ some p = h.finds k ∙ lookup_in k p xs ys (none_left k xs ys u.0) in
    record {
      finds = λ j. elim (Bool-cases (k == j)) [
        | inl same ↦
            rw same (subst (λ j. none ≡ lookup ◌==◌ j (xs ++ ys)) ((==_iff k j).0 same) (sym u.0))
        | inr other ↦ rw other (h.finds j ∙ lookup_other k p j xs ys other)
      ];
      counts = rw found (omega (arith, h.counts, length_middle xs (k, p) ys));
      unique = u.1;
    }

pub emplace-Indexes :
    (m : HashIndex) (xs : List (ℕ × Ptr)) (k : ℕ) (p : Ptr) (ys : List (ℕ × Ptr))
    → Indexes m (xs ++ ys)
    → lookup ◌==◌ k (xs ++ ys) ≡ none
    → Indexes (emplace k p m) (xs ++ (k, p) ∷ ys)
unfolding emplace
emplace-Indexes m xs k p ys h e =
    let missing : m.find k ≡ none = h.finds k ∙ e in
    rw missing (record {
      finds = λ j. elim (Bool-cases (k == j)) [
        | inl same ↦ rw same (
            subst (λ j. some p ≡ lookup ◌==◌ j (xs ++ (k, p) ∷ ys)) ((==_iff k j).0 same)
              (sym (lookup_in k p xs ys (none_left k xs ys e))))
        | inr other ↦ rw other (h.finds j ∙ sym (lookup_other k p j xs ys other))
      ];
      counts = omega (arith, h.counts, length_middle xs (k, p) ys);
      unique = IsUnique-insert k p xs ys e h.unique;
    })

pub empty-Indexes : Indexes (record { find = λ k. none; size = 0 }) []
unfolding lookup
empty-Indexes = record { finds = λ k. refl; counts = refl; unique = tt }
