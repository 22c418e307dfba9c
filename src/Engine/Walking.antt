-- ===== src/Engine/Walking.antt =====
-- The loop over a level, on the queue that the level stands for.
use limit_order_book.Base.{
  ℕ, suc, ◌^◌, ◌<◌, ◌≡◌, refl, sym, ap, subst, ℤ, Bool, true, false, List, [], ◌∷◌, ◌++◌, All,
  arith, ltb, ◌==◌,
}
use limit_order_book.Types.{Side, Stp}
use limit_order_book.Fifo.{Ptr, null, Order, Level, unlink}
use limit_order_book.Fifo.Cells.{
  Cell, level_of, Avoids, AreReal, AreApart, Differ, AreReal-append_left, AreApart-append_left,
}
use limit_order_book.Fifo.Links.{AreLinked}
use limit_order_book.Fifo.Moves.{Queued, unlink-Queued}
use limit_order_book.Engine.{
  Parts, Run, is_own, rejects_incoming, drop_order, kill_order, take_all, take_part, walk,
}
use limit_order_book.Engine.Laws.{IndexLaws, AllocLaws}
use limit_order_book.Engine.Queues.{Fill}

abbrev pub keys : List Cell → List (ℕ × Ptr)
keys [] = []
keys (c ∷ cs) = (c.id, c.ptr) ∷ keys cs

abbrev pub ptrs : List Cell → List Ptr
ptrs [] = []
ptrs (c ∷ cs) = c.ptr ∷ ptrs cs

-- A resting quantity is a positive 32-bit integer.
abbrev pub Holds : Cell → Type 0
Holds c = (0 < c.qty) × (c.qty < 2 ^ 32)

module _ {L I A : Type 0} (parts : Parts L I A) (Indexes : I → List (ℕ × Ptr) → Type 0)
    (Owns : A → List Ptr → Type 0) where
  -- The index and the allocator have just these orders.
  pub record Common (orders : I) (pool : A) (cs : List Cell) : Type 0 where
    pub indexed : Indexes orders (keys cs)
    pub owned : Owns pool (ptrs cs)
    pub real : AreReal cs
    pub apart : AreApart cs
    pub differ : Differ (λ c. c.id) cs
    pub holds : All Holds cs

  -- The level that is walked stands for `cs`, and there are `others` besides.
  pub record Walks (s : Side) (px : ℤ) (cs others : List Cell) (r : Run L I A) : Type 0 where
    pub lvl : r.lvl ≡ level_of px cs
    pub links : AreLinked r.heap s px null cs null
    pub common : Common r.orders r.pool (cs ++ others)

  -- A run from `r` to `r'` that does to the level what `f` says.
  pub record Filled (s : Side) (px : ℤ) (cs others : List Cell) (r : Run L I A) (f : Fill)
      (r' : Run L I A) : Type 0 where
    pub walks : Walks s px f.cells others r'
    pub remaining : r'.remaining ≡ f.remaining
    pub stopped : r'.stopped ≡ f.stopped
    pub events : r'.events ≡ r.events ++ f.events
    pub ladder : r'.ladder ≡ r.ladder
    pub same : (q : Ptr) → Avoids q cs → r'.heap q ≡ r.heap q

  module _ (index : IndexLaws parts Indexes) (alloc : AllocLaws parts Owns) where
    Common-head :
        (orders : I) (pool : A) (c : Cell) (cs : List Cell)
        → Common orders pool (c ∷ cs)
        → Common (parts.erase c.id orders) (parts.destroy c.ptr pool) cs
    Common-head orders pool c cs k = record {
      indexed = index.erase orders [] c.id c.ptr (keys cs) k.indexed;
      owned = alloc.destroy pool [] c.ptr (ptrs cs) k.owned;
      real = k.real.1;
      apart = k.apart.1;
      differ = k.differ.1;
      holds = k.holds.1;
    }

    module _ (s : Side) (px : ℤ) (c : Cell) (cs others : List Cell) where
      dropped :
          (r : Run L I A)
          → Walks s px (c ∷ cs) others r
          → Queued s px cs r.heap (unlink r.lvl c.ptr r.heap)
      dropped r w =
          subst (λ (lvl : Level). Queued s px cs r.heap (unlink lvl c.ptr r.heap)) (sym w.lvl)
            (unlink-Queued s px r.heap [] c cs (AreReal-append_left (c ∷ cs) others w.common.real)
              (AreApart-append_left (c ∷ cs) others w.common.apart) w.common.holds.0.1 w.links)

      pub drop_order-Walks :
          (r : Run L I A)
          → Walks s px (c ∷ cs) others r
          → Walks s px cs others (drop_order parts c.ptr r)
      unfolding drop_order
      drop_order-Walks r w =
          let d = dropped r w in
          let same_id : (r.heap c.ptr).id ≡ c.id = ap (λ (o : Order). o.id) w.links.0 in
          record {
            lvl = d.level;
            links = d.links;
            common =
                subst
                  (λ k. Common (parts.erase k r.orders) (parts.destroy c.ptr r.pool) (cs ++ others))
                  (sym same_id) (Common-head r.orders r.pool c (cs ++ others) w.common);
          }

      pub drop_order-same :
          (r : Run L I A)
          → Walks s px (c ∷ cs) others r
          → (q : Ptr) → Avoids q cs
          → (drop_order parts c.ptr r).heap q ≡ r.heap q
      unfolding drop_order
      drop_order-same r w q out = (dropped r w).same q out

  module _ (taker owner : ℕ) (stp : Stp) (stp_on : Bool) (fuel : ℕ) (p : Ptr) (r : Run L I A)
      (real : 0 < p) where
    some_ptr : (p == null) ≡ false
    some_ptr = ground arith

    pub walk-rejected :
        is_own stp_on owner (r.heap p) ≡ true
        → rejects_incoming stp ≡ true
        → walk parts (suc fuel) taker owner stp stp_on p r ≡ record r { stopped = true }
    unfolding walk
    walk-rejected e f = rw (some_ptr, e, f) refl

    pub walk-kill_order :
        is_own stp_on owner (r.heap p) ≡ true
        → rejects_incoming stp ≡ false
        → walk parts (suc fuel) taker owner stp stp_on p r
          ≡ walk parts fuel taker owner stp stp_on (r.heap p).next (kill_order parts p r)
    unfolding walk
    walk-kill_order e f = rw (some_ptr, e, f) refl

    pub walk-take_part :
        is_own stp_on owner (r.heap p) ≡ false
        → ltb r.remaining (r.heap p).qty ≡ true
        → walk parts (suc fuel) taker owner stp stp_on p r ≡ take_part parts taker p r
    unfolding walk
    walk-take_part e f = rw (some_ptr, e, f) refl

    pub walk-take_all :
        is_own stp_on owner (r.heap p) ≡ false
        → ltb r.remaining (r.heap p).qty ≡ false
        → ((take_all parts taker p r).remaining == 0) ≡ true
        → walk parts (suc fuel) taker owner stp stp_on p r ≡ take_all parts taker p r
    unfolding walk
    walk-take_all e f g = rw (some_ptr, e, f, g) refl

    pub walk-next :
        is_own stp_on owner (r.heap p) ≡ false
        → ltb r.remaining (r.heap p).qty ≡ false
        → ((take_all parts taker p r).remaining == 0) ≡ false
        → walk parts (suc fuel) taker owner stp stp_on p r
          ≡ walk parts fuel taker owner stp stp_on (r.heap p).next (take_all parts taker p r)
    unfolding walk
    walk-next e f g = rw (some_ptr, e, f, g) refl
