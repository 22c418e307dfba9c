-- ===== src/Tests/PoolRuns.antt =====
-- The pool of include/lob/pool.hpp on small inputs.
use limit_order_book.Base.{◌⊎◌, ◌+◌, ◌<◌, ◌≤◌, ◌≡◌, refl, List, [], ◌∷◌, arith}
use limit_order_book.Pool.{new, raw_slot, add_slab}
use limit_order_book.Pool.Calls.{Call, creates, destroys, Client, run, count, raw_slot_fresh}

-- Three objects from a pool for two, the middle one given back.
abbrev calls : List Call
calls = creates ∷ creates ∷ creates ∷ destroys 1 ∷ []

abbrev start : Client
start = record { pool = new 2; held = [] }

raw_slot_fresh_example :
    (count 1 (run calls start).held + count 1 (run calls start).pool.free ≤ 1)
    × ((count 1 (run calls start).held ≡ 0) ⊎ (1 < (run calls start).pool.capacity))
    × (count (raw_slot (run calls start).pool).1 (run calls start).held ≡ 0)
    × ((raw_slot (run calls start).pool).1 < (raw_slot (run calls start).pool).0.capacity)
raw_slot_fresh_example = raw_slot_fresh 2 calls 1 (omega arith)

-- A pool of no slots doubles to no slots, and gives out a slot that it does not have.
zero_pool_run : ((raw_slot (new 0)).1 ≡ 0) × ((raw_slot (new 0)).0.capacity ≡ 0)
unfolding new raw_slot add_slab
zero_pool_run = (refl, refl)
