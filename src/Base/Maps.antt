-- ===== src/Base/Maps.antt =====
-- Maps as lists of entries. `same` compares keys; `less` is the order in which an ordered map keeps
-- its entries, and never holds for a map that has no order.
use mathlib.Core.Path.{◌≡◌, refl, sym, subst, ◌∙◌}
use mathlib.Core.Bool.{Bool, true, false}
use mathlib.Core.Option.{Option, none, some}
use mathlib.Core.List.{List, [], ◌∷◌}
use mathlib.Core.Logic.{◌⊎◌, inl, inr}
use limit_order_book.Base.Tests.{if◌then◌else◌, Bool-cases, Option-cases}

module _ {K V : Type 0} (same : K → K → Bool) where
  unfoldable pub lookup : K → List (K × V) → Option V
  lookup k [] = none
  lookup k ((j, v) ∷ m) = if same j k then some v else lookup k m

  -- No entry of a map but one has the key.
  unfoldable pub remove : K → List (K × V) → List (K × V)
  remove k [] = []
  remove k ((j, v) ∷ m) = let rest = remove k m in if same j k then rest else (j, v) ∷ rest

  -- `m[k] = v`.
  unfoldable pub assign : (K → K → Bool) → K → V → List (K × V) → List (K × V)
  assign less k v [] = (k, v) ∷ []
  assign less k v ((j, w) ∷ m) =
      if same j k
      then (k, v) ∷ m
      else if less k j
      then (k, v) ∷ (j, w) ∷ m
      else (j, w) ∷ assign less k v m

  module _ (itself : (k : K) → same k k ≡ true) (reads : (j k : K) → same j k ≡ true → j ≡ k) where
    pub lookup-assign :
        (less : K → K → Bool) (k : K) (v : V) (m : List (K × V))
        → lookup k (assign less k v m) ≡ some v
    unfolding lookup assign
    lookup-assign less k v [] = rw (itself k) refl
    lookup-assign less k v ((j, w) ∷ m) = elim (Bool-cases (same j k)) [
      | inl e ↦ rw (e, itself k) refl
      | inr e ↦ elim (Bool-cases (less k j)) [
        | inl l ↦ rw (e, l, itself k) refl
        | inr l ↦ rw (e, l, e) (lookup-assign less k v m)
      ]
    ]

    pub lookup-assign_other :
        (less : K → K → Bool) (k i : K) (v : V) (m : List (K × V))
        → same k i ≡ false
        → lookup i (assign less k v m) ≡ lookup i m
    unfolding lookup assign
    lookup-assign_other less k i v [] d = rw d refl
    lookup-assign_other less k i v ((j, w) ∷ m) d = elim (Bool-cases (same j k)) [
      | inl e ↦ let differs : same j i ≡ false = rw (reads j k e) d in rw (e, d, differs) refl
      | inr e ↦ elim (Bool-cases (less k j)) [
        | inl l ↦ rw (e, l, d) refl
        | inr l ↦ rw (e, l, lookup-assign_other less k i v m d) refl
      ]
    ]

    pub lookup-remove : (k : K) (m : List (K × V)) → lookup k (remove k m) ≡ none
    unfolding lookup remove
    lookup-remove k [] = refl
    lookup-remove k ((j, w) ∷ m) = elim (Bool-cases (same j k)) [
      | inl e ↦ rw e (lookup-remove k m)
      | inr e ↦ rw (e, e) (lookup-remove k m)
    ]

    pub lookup-remove_other :
        (k i : K) (m : List (K × V)) → same k i ≡ false → lookup i (remove k m) ≡ lookup i m
    unfolding lookup remove
    lookup-remove_other k i [] d = refl
    lookup-remove_other k i ((j, w) ∷ m) d = elim (Bool-cases (same j k)) [
      | inl e ↦
          let differs : same j i ≡ false = rw (reads j k e) d in
          rw (e, differs) (lookup-remove_other k i m d)
      | inr e ↦ rw (e, lookup-remove_other k i m d) refl
    ]

    pub lookup-assign_cases :
        (less : K → K → Bool) (k i : K) (v w : V) (m : List (K × V))
        → lookup i (assign less k v m) ≡ some w
        → ((k ≡ i) × (v ≡ w)) ⊎ ((same k i ≡ false) × (lookup i m ≡ some w))
    lookup-assign_cases less k i v w m e = elim (Bool-cases (same k i)) [
      | inr d ↦ inr (d, sym (lookup-assign_other less k i v m d) ∙ e)
      | inl s ↦
          let k_i = reads k i s in
          let found : lookup i (assign less k v m) ≡ some v =
            subst (λ j. lookup j (assign less k v m) ≡ some v) k_i (lookup-assign less k v m) in
          inl (k_i, cc (found, e))
    ]

    pub lookup-remove_cases :
        (k i : K) (w : V) (m : List (K × V))
        → lookup i (remove k m) ≡ some w
        → (same k i ≡ false) × (lookup i m ≡ some w)
    lookup-remove_cases k i w m e = elim (Bool-cases (same k i)) [
      | inr d ↦ (d, sym (lookup-remove_other k i m d) ∙ e)
      | inl s ↦
          let gone : lookup i (remove k m) ≡ none =
            subst (λ j. lookup j (remove k m) ≡ none) (reads k i s) (lookup-remove k m) in
          absurd (cc (gone, e))
    ]

    pub lookup-remove-none :
        (k i : K) (m : List (K × V)) → lookup i m ≡ none → lookup i (remove k m) ≡ none
    lookup-remove-none k i m e = elim (Option-cases (lookup i (remove k m))) [
      | inl n ↦ n
      | inr (w, s) ↦ absurd (cc (e, (lookup-remove_cases k i w m s).1))
    ]
