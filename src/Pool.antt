-- ===== src/Pool.antt =====
-- include/lob/pool.hpp, class Pool. A slot is named by its place in the order in which the slabs
-- have slots, so a slab's slots are consecutive numbers and `cursor_` stands in the newest slab. The
-- free list that is threaded through the free slots is the list of these slots.
pub mod Calls
use limit_order_book.Base.{ℕ, ◌+◌, ◌*◌, ◌-◌, List, [], ◌∷◌, ◌==◌, if◌then◌else◌}

pub record Pool : Type 0 where
  pub free : List ℕ
  pub cursor : ℕ
  pub slab_end : ℕ
  pub last_slab_elems : ℕ
  pub capacity : ℕ
  pub slabs : ℕ

unfoldable pub add_slab : ℕ → Pool → Pool
add_slab elems p = record p {
  cursor = p.capacity;
  slab_end = p.capacity + elems;
  last_slab_elems = elems;
  capacity = p.capacity + elems;
  slabs = p.slabs + 1;
}

unfoldable pub new : ℕ → Pool
new initial_capacity =
    add_slab initial_capacity
      (record { free = []; cursor = 0; slab_end = 0; last_slab_elems = 0; capacity = 0; slabs = 0 })

-- A slot for `create`, and the pool after it.
unfoldable pub raw_slot : Pool → Pool × ℕ
raw_slot p = elim p.free [
  | n ∷ rest ↦ (record p { free = rest }, n)
  | [] ↦
      let p' : Pool = if p.cursor == p.slab_end then add_slab (p.last_slab_elems * 2) p else p in
      (record p' { cursor = p'.cursor + 1 }, p'.cursor)
]

unfoldable pub destroy : ℕ → Pool → Pool
destroy slot p = record p { free = slot ∷ p.free }

pub grow_count : Pool → ℕ
grow_count p = p.slabs - 1
