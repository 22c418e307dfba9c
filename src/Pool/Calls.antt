-- ===== src/Pool/Calls.antt =====
-- Sequences of calls of the pool of include/lob/pool.hpp, with the slots that its client holds.
use limit_order_book.Base.{
  ℕ, zero, suc, ◌+◌, ◌<◌, ◌≤◌, ◌≡◌, refl, ap, ◌∙◌, List, [], ◌∷◌, arith, ◌==◌, ltb, if◌then◌else◌,
  Bool-cases, inl, inr, ◌⊎◌, dec_lt,
}
use limit_order_book.Pool.{Pool, new, add_slab, raw_slot, destroy}

-- How often a slot is in a list.
unfoldable pub count : ℕ → List ℕ → ℕ
count s [] = 0
count s (x ∷ xs) = if x == s then suc (count s xs) else count s xs

-- The client creates an object, or destroys the one that it has held for so many creations.
pub data Call : Type 0 where
  creates : Call
  destroys : ℕ → Call

pub record Client : Type 0 where
  pub pool : Pool
  pub held : List ℕ

unfoldable pub drop_held : ℕ → List ℕ → List ℕ
drop_held n [] = []
drop_held zero (x ∷ xs) = xs
drop_held (suc n) (x ∷ xs) = x ∷ drop_held n xs

-- The slot at a place of the list, in front of a list of slots.
unfoldable pub give_back : ℕ → List ℕ → Pool → Pool
give_back n [] p = p
give_back zero (x ∷ xs) p = destroy x p
give_back (suc n) (x ∷ xs) p = give_back n xs p

unfoldable pub apply : Call → Client → Client
apply creates c = let (p, s) = raw_slot c.pool in record { pool = p; held = s ∷ c.held }
apply (destroys n) c = record { pool = give_back n c.held c.pool; held = drop_held n c.held }

unfoldable pub run : List Call → Client → Client
run [] c = c
run (x ∷ xs) c = run xs (apply x c)

-- Each slot below the cursor is held or free, once; none from the cursor on is either.
pub record IsSound (c : Client) : Type 0 where
  pub once : (s : ℕ) → count s c.held + count s c.pool.free ≡ (if ltb s c.pool.cursor then 1 else 0)
  pub room : c.pool.cursor ≤ c.pool.slab_end
  pub whole : c.pool.slab_end ≡ c.pool.capacity
  pub grows : 0 < c.pool.last_slab_elems

abbrev client : List ℕ → ℕ → ℕ → ℕ → ℕ → ℕ → List ℕ → Client
client free cursor slab_end last capacity slabs held = record {
  pool = record {
    free = free;
    cursor = cursor;
    slab_end = slab_end;
    last_slab_elems = last;
    capacity = capacity;
    slabs = slabs;
  };
  held = held;
}

creates-IsSound_fields :
    (free : List ℕ) (cursor slab_end last capacity slabs : ℕ) (held : List ℕ)
    → IsSound (client free cursor slab_end last capacity slabs held)
    → IsSound (apply creates (client free cursor slab_end last capacity slabs held))
unfolding apply raw_slot add_slab count
creates-IsSound_fields (n ∷ rest) cursor slab_end last capacity slabs held v = record {
  once = λ s. ground (arith, v.once s);
  room = v.room;
  whole = v.whole;
  grows = v.grows;
}
creates-IsSound_fields [] cursor slab_end last capacity slabs held v =
    elim (Bool-cases (cursor == slab_end)) [
      | inl e ↦ rw e (record {
        once = λ s. ground (arith, v.once s, v.whole);
        room = ground (arith, v.grows);
        whole = refl;
        grows = ground (arith, v.grows);
      })
      | inr e ↦ rw e (record {
        once = λ s. ground (arith, v.once s);
        room = ground (arith, v.room);
        whole = v.whole;
        grows = v.grows;
      })
    ]

pub creates-IsSound : (c : Client) → IsSound c → IsSound (apply creates c)
creates-IsSound c v =
    creates-IsSound_fields c.pool.free c.pool.cursor c.pool.slab_end c.pool.last_slab_elems
      c.pool.capacity c.pool.slabs c.held v

-- What giving a slot back changes.
record Returned (n : ℕ) (held : List ℕ) (p : Pool) : Type 0 where
  kept :
      (s : ℕ)
      → count s (drop_held n held) + count s (give_back n held p).free
        ≡ count s held + count s p.free
  rest : give_back n held p ≡ record p { free = (give_back n held p).free }

give_back-Returned : (n : ℕ) (held : List ℕ) (p : Pool) → Returned n held p
unfolding give_back drop_held count destroy
give_back-Returned n [] p = record { kept = λ s. refl; rest = refl }
give_back-Returned zero (x ∷ xs) p = record { kept = λ s. ground arith; rest = refl }
give_back-Returned (suc n) (x ∷ xs) p =
    let r = give_back-Returned n xs p in
    record { kept = λ s. ground (arith, r.kept s); rest = r.rest }

pub destroys-IsSound : (n : ℕ) (c : Client) → IsSound c → IsSound (apply (destroys n) c)
unfolding apply
destroys-IsSound n c v =
    let r = give_back-Returned n c.held c.pool in
    let cursor = ap (λ (p : Pool). p.cursor) r.rest in
    let slab_end = ap (λ (p : Pool). p.slab_end) r.rest in
    let capacity = ap (λ (p : Pool). p.capacity) r.rest in
    let last = ap (λ (p : Pool). p.last_slab_elems) r.rest in
    record {
      once = λ s. r.kept s ∙ rw cursor (v.once s);
      room = rw (cursor, slab_end) v.room;
      whole = rw (slab_end, capacity) v.whole;
      grows = rw last v.grows;
    }

run-IsSound : (xs : List Call) (c : Client) → IsSound c → IsSound (run xs c)
unfolding run
run-IsSound [] c v = v
run-IsSound (creates ∷ xs) c v = run-IsSound xs (apply creates c) (creates-IsSound c v)
run-IsSound (destroys n ∷ xs) c v = run-IsSound xs (apply (destroys n) c) (destroys-IsSound n c v)

pub new-IsSound : (n : ℕ) → 0 < n → IsSound (record { pool = new n; held = [] })
unfolding new add_slab count
new-IsSound n p = record { once = λ s. ground arith; room = omega arith; whole = refl; grows = p }

sound_once :
    (c : Client) (s : ℕ)
    → IsSound c
    → (count s c.held + count s c.pool.free ≤ 1) × ((count s c.held ≡ 0) ⊎ (s < c.pool.capacity))
sound_once c s v =
    let once = v.once s in
    let room = v.room in
    let whole = v.whole in
    (
      ground (arith, once),
      elim (dec_lt s c.pool.capacity) [
        | yes below ↦ inr below
        | no beyond ↦ inl (ground (arith, once, room, whole, beyond))
      ],
    )

sound_slot :
    (c : Client)
    → IsSound (apply creates c)
    → (count (raw_slot c.pool).1 c.held ≡ 0) × ((raw_slot c.pool).1 < (raw_slot c.pool).0.capacity)
unfolding apply count
sound_slot c v =
    let once = v.once (raw_slot c.pool).1 in
    let room = v.room in
    let whole = v.whole in (ground (arith, once), ground (arith, once, room, whole))

-- After any creations and destructions of held objects on a new pool of at least one slot: no slot
-- is held twice, or both held and free; every held slot lies within the capacity; and the slot that
-- the next creation gets, from the free list, the slab or a new slab, is not held and lies within
-- the capacity.
pub raw_slot_fresh :
    (n : ℕ) (xs : List Call) (s : ℕ)
    → 0 < n
    → let c = run xs (record { pool = new n; held = [] }) in
      let (p, slot) = raw_slot c.pool in
      (count s c.held + count s c.pool.free ≤ 1)
      × ((count s c.held ≡ 0) ⊎ (s < c.pool.capacity))
      × (count slot c.held ≡ 0)
      × (slot < p.capacity)
raw_slot_fresh n xs s pos =
    let c = run xs (record { pool = new n; held = [] }) in
    let v = run-IsSound xs _ (new-IsSound n pos) in
    let held = sound_once c s v in
    let given = sound_slot c (creates-IsSound c v) in (held.0, held.1, given.0, given.1)
