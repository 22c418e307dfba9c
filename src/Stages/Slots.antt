-- ===== src/Stages/Slots.antt =====
-- The pool of include/lob/pool.hpp as the engines' allocator: an order's address is one more than
-- its slot, so that no order is at the null address.
use limit_order_book.Base.{
  ℕ, suc, ◌+◌, ◌-◌, ◌<◌, ◌≢◌, ◌≡◌, refl, sym, ap, ◌∙◌, List, [], ◌∷◌, ◌++◌, All, All-append,
  All-append_left, All-append_right, arith,
}
use limit_order_book.Pool.{Pool, new, raw_slot, destroy}
use limit_order_book.Pool.Calls.{
  apply, count, drop_held, give_back, IsSound, creates-IsSound, destroys-IsSound, new-IsSound,
}
use limit_order_book.Fifo.{Ptr}

unfoldable pub create_at : Pool → Pool × Ptr
create_at p = let (p', slot) = raw_slot p in (p', suc slot)

unfoldable pub destroy_at : Ptr → Pool → Pool
destroy_at p pool = destroy (p - 1) pool

abbrev slots : List Ptr → List ℕ
slots [] = []
slots (p ∷ ps) = (p - 1) ∷ slots ps

-- The client holds the slots of these addresses.
pub record Owns (pool : Pool) (ps : List Ptr) : Type 0 where
  pub sound : IsSound (record { pool = pool; held = slots ps })
  pub real : All (λ p. 0 < p) ps

slots-append : (xs ys : List Ptr) → slots (xs ++ ys) ≡ slots xs ++ slots ys
slots-append [] ys = refl
slots-append (x ∷ xs) ys = ap (λ zs. (x - 1) ∷ zs) (slots-append xs ys)

count-append : (s : ℕ) (xs ys : List ℕ) → count s (xs ++ ys) ≡ count s xs + count s ys
unfolding count
count-append s [] ys = omega arith
count-append s (x ∷ xs) ys = ground (arith, count-append s xs ys)

-- Only how often each slot is held matters.
IsSound-held :
    (pool : Pool) (xs ys : List ℕ)
    → ((s : ℕ) → count s xs ≡ count s ys)
    → IsSound (record { pool = pool; held = xs })
    → IsSound (record { pool = pool; held = ys })
IsSound-held pool xs ys e v = record {
  once = λ s. omega (arith, e s, v.once s);
  room = v.room;
  whole = v.whole;
  grows = v.grows;
}

count_moved :
    (s : ℕ) (xs : List Ptr) (p : Ptr) (ys : List Ptr)
    → count s (slots (xs ++ p ∷ ys)) ≡ count s ((p - 1) ∷ slots (xs ++ ys))
count_moved s xs p ys =
    rw (slots-append, slots-append, count-append)
      (unfold count in ground (arith, count-append s (slots xs) (slots ys)))

real_with :
    (xs : List Ptr) (p : Ptr) (ys : List Ptr)
    → 0 < p
    → All (λ p. 0 < p) (xs ++ ys)
    → All (λ p. 0 < p) (xs ++ p ∷ ys)
real_with [] p ys r h = (r, h)
real_with (x ∷ xs) p ys r h = (h.0, real_with xs p ys r h.1)

real_without :
    (xs : List Ptr) (p : Ptr) (ys : List Ptr)
    → All (λ p. 0 < p) (xs ++ p ∷ ys)
    → (0 < p) × All (λ p. 0 < p) (xs ++ ys)
real_without [] p ys h = h
real_without (x ∷ xs) p ys h = let r = real_without xs p ys h.1 in (r.0, (h.0, r.1))

real_swap : (xs ys : List Ptr) → All (λ p. 0 < p) (xs ++ ys) → All (λ p. 0 < p) (ys ++ xs)
real_swap xs ys h = All-append _ ys xs (All-append_right _ xs ys h) (All-append_left _ xs ys h)

-- A slot that is not held is the address of none.
not_held : (slot : ℕ) (ps : List Ptr) → count slot (slots ps) ≡ 0 → All (λ q. q ≢ suc slot) ps
unfolding count
not_held slot [] e = tt
not_held slot (p ∷ ps) e = (λ same. absurd (ground (arith, same)), not_held slot ps (ground arith))

pub swap-Owns : (pool : Pool) (xs ys : List Ptr) → Owns pool (xs ++ ys) → Owns pool (ys ++ xs)
swap-Owns pool xs ys h = record {
  sound =
      IsSound-held pool (slots (xs ++ ys)) (slots (ys ++ xs))
        (λ s.
          rw (slots-append, slots-append)
            (omega
              (arith, count-append s (slots xs) (slots ys), count-append s (slots ys) (slots xs))))
        h.sound;
  real = real_swap xs ys h.real;
}

pub destroy_at-Owns :
    (pool : Pool) (xs : List Ptr) (p : Ptr) (ys : List Ptr)
    → Owns pool (xs ++ p ∷ ys)
    → Owns (destroy_at p pool) (xs ++ ys)
unfolding destroy_at
destroy_at-Owns pool xs p ys h = record {
  sound =
      unfold apply give_back drop_held in
      destroys-IsSound 0 (record { pool = pool; held = (p - 1) ∷ slots (xs ++ ys) })
        (IsSound-held pool (slots (xs ++ p ∷ ys)) ((p - 1) ∷ slots (xs ++ ys))
          (λ s. count_moved s xs p ys) h.sound);
  real = (real_without xs p ys h.real).1;
}

pub create_at-Owns :
    (pool : Pool) (xs ys : List Ptr)
    → Owns pool (xs ++ ys)
    → let (pool', p) = create_at pool in
      (0 < p) × (All (λ q. q ≢ p) (xs ++ ys) × Owns pool' (xs ++ p ∷ ys))
unfolding create_at
create_at-Owns pool xs ys h =
    let slot = (raw_slot pool).1 in
    let held = slots (xs ++ ys) in
    let back : suc slot - 1 ≡ slot = omega arith in
    let made : IsSound (record { pool = (raw_slot pool).0; held = slot ∷ held }) =
      unfold apply in creates-IsSound (record { pool = pool; held = held }) h.sound in
    let once = made.once slot in
    let fresh : count slot held ≡ 0 = unfold count in ground (arith, once) in
    (
      omega arith,
      (
        not_held slot (xs ++ ys) fresh,
        record {
          sound =
              IsSound-held (raw_slot pool).0 (slot ∷ held) (slots (xs ++ suc slot ∷ ys))
                (λ s. sym (count_moved s xs (suc slot) ys ∙ ap (λ n. count s (n ∷ held)) back))
                made;
          real = real_with xs (suc slot) ys (omega arith) h.real;
        },
      ),
    )

pub new-Owns : (n : ℕ) → 0 < n → Owns (new n) []
new-Owns n some_slots = record { sound = new-IsSound n some_slots; real = tt }
