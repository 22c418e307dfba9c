-- ===== src/Engine/Books.antt =====
-- A whole book of the engines and the groups of orders that its two sides stand for; what `match`
-- of include/lob/order_book.hpp does to it.
use limit_order_book.Base.{
  ℕ, suc, ◌-◌, ◌^◌, ◌<◌, ◌≤◌, ◌≡◌, refl, sym, subst, ◌∙◌, ℤ, Bool, not, ◌||◌, List, [], ◌∷◌, ◌++◌,
  length, length-append, arith, sub32-eq, ◌==◌, Bool-cases, inl, inr,
}
use limit_order_book.Types.{Side, bid, ask, Stp}
use limit_order_book.Fifo.{Ptr}
use limit_order_book.Naive.Refinement.{other}
use limit_order_book.Engine.{
  Parts, Book, Run, MatchOutcome, own_ladder, opposite_ladder, crosses, match_levels, match,
  start_run, finish_run,
}
use limit_order_book.Engine.Laws.{Entries, LadderLaws, IndexLaws, AllocLaws}
use limit_order_book.Engine.Queues.{
  Groups, entries, all_cells, fill_cells, Sweep, sweep, sweep-none, sweep-last, sweep-next,
}
use limit_order_book.Engine.Walking.{keys, Common}
use limit_order_book.Engine.Sweeping.{match_levels-Swept}
use limit_order_book.Engine.Matching.{Sweeps, Swept}
use limit_order_book.Engine.Groups.{
  AllLinked, AllLinked-frame, apart_sides, same_at, length-groups, length-keys, fill_cells-IsTame,
}

module _ (s : Side) (taker : ℕ) (limit_px : ℤ) (owner : ℕ) (stp : Stp) (stp_on : Bool) where
  sweep_least :
      (want : ℕ) (gs : Groups) → (sweep s taker limit_px owner stp stp_on want gs).remaining ≤ want
  sweep_least want [] = unfold sweep in omega arith
  sweep_least want ((px, cs) ∷ gs) =
      let f = fill_cells taker owner stp stp_on px want cs in
      let tame = fill_cells-IsTame taker owner stp stp_on px want cs in
      let by : (w : Sweep)
          → sweep s taker limit_px owner stp stp_on want ((px, cs) ∷ gs) ≡ w
          → w.remaining ≤ want
          → (sweep s taker limit_px owner stp stp_on want ((px, cs) ∷ gs)).remaining ≤ want =
        λ w e le. subst (λ (w : Sweep). w.remaining ≤ want) (sym e) le in
      let rest = sweep_least f.remaining gs in
      elim (Bool-cases (want == 0 || not (crosses s px limit_px))) [
        | inl out ↦
            by _ (sweep-none s taker limit_px owner stp stp_on want px cs gs out) (omega arith)
        | inr on ↦ elim (Bool-cases (f.stopped || f.remaining == 0)) [
          | inl last ↦
              by _ (sweep-last s taker limit_px owner stp stp_on want px cs gs on last) tame.0
          | inr more ↦
              by _ (sweep-next s taker limit_px owner stp stp_on want px cs gs on more)
                (omega (arith, tame.0, rest))
        ]
      ]

module _ {L I A : Type 0} (parts : Parts L I A) (Shows : Side → L → Entries → Type 0)
    (Indexes : I → List (ℕ × Ptr) → Type 0) (Owns : A → List Ptr → Type 0) where
  -- The book, from side `s`: its own groups and the opposite ones.
  pub record Represents (s : Side) (own opposite : Groups) (b : Book L I A) : Type 0 where
    pub own_shows : Shows s (own_ladder s b) (entries own)
    pub opposite_shows : Shows (other s) (opposite_ladder s b) (entries opposite)
    pub own_links : AllLinked b.heap s own
    pub opposite_links : AllLinked b.heap (other s) opposite
    pub common : Common parts Indexes Owns b.orders b.pool (all_cells opposite ++ all_cells own)

  -- What `match` leaves and answers, when the groups say `w`.
  pub record Matched (s : Side) (own : Groups) (want : ℕ) (b : Book L I A) (w : Sweep)
      (r : Book L I A × MatchOutcome) : Type 0 where
    pub represents : Represents s own w.groups r.0
    pub filled : r.1.filled ≡ want - w.remaining
    pub stp_stopped : r.1.stp_stopped ≡ w.stopped
    pub events : r.0.events ≡ b.events ++ w.events

  finish_run-Represents :
      (s : Side) (own gs : Groups) (r : Run L I A) (b : Book L I A)
      → Shows s (own_ladder s b) (entries own)
      → Shows (other s) r.ladder (entries gs)
      → AllLinked r.heap s own
      → AllLinked r.heap (other s) gs
      → Common parts Indexes Owns r.orders r.pool (all_cells gs ++ all_cells own)
      → Represents s own gs (finish_run parts s r b)
  finish_run-Represents bid own gs r b a c l k m = record {
    own_shows = a;
    opposite_shows = c;
    own_links = l;
    opposite_links = k;
    common = m;
  }
  finish_run-Represents ask own gs r b a c l k m = record {
    own_shows = a;
    opposite_shows = c;
    own_links = l;
    opposite_links = k;
    common = m;
  }

  finish_run-events :
      (s : Side) (r : Run L I A) (b : Book L I A) → (finish_run parts s r b).events ≡ r.events
  finish_run-events bid r b = refl
  finish_run-events ask r b = refl

  module _ (ladder : LadderLaws parts Shows) (index : IndexLaws parts Indexes)
      (alloc : AllocLaws parts Owns) (s : Side) (stp_on : Bool) (taker : ℕ) (limit_px : ℤ)
      (want owner : ℕ) (own opposite : Groups) (b : Book L I A) (h : Represents s own opposite b)
      (small : want < 2 ^ 32) where
    abbrev swept : Sweep
    swept = sweep s taker limit_px owner b.stp stp_on want opposite

    abbrev run : Run L I A
    run =
        match_levels parts (suc (parts.size b.orders)) s taker limit_px owner b.stp stp_on
          (start_run parts s want b)

    start-Sweeps :
        Sweeps parts Shows Indexes Owns
          (other s)
          opposite
          (all_cells own)
          (start_run parts s want b)
    start-Sweeps = record { shows = h.opposite_shows; links = h.opposite_links; common = h.common }

    groups_fuel : length opposite < suc (parts.size b.orders)
    groups_fuel =
        let cells = all_cells opposite ++ all_cells own in
        omega (
          arith,
          index.size b.orders (keys cells) h.common.indexed,
          length-keys cells,
          length-append (all_cells opposite) (all_cells own),
          length-groups b.heap (other s) opposite h.opposite_links,
        )

    run-Swept :
        Swept parts Shows Indexes Owns
          (other s)
          opposite
          (all_cells own)
          (start_run parts s want b)
          swept
          run
    run-Swept =
        match_levels-Swept parts Shows Indexes Owns ladder index alloc (other s) taker owner b.stp
          stp_on (all_cells own) s limit_px (suc (parts.size b.orders)) opposite
          (start_run parts s want b) start-Sweeps groups_fuel small refl

    -- Over any containers that keep their laws and for any self-trade policy, matching an order for
    -- less than 2^32 sweeps the opposite levels as a plain list: best price first, oldest order
    -- first, own orders cancelled or the order stopped there. The book that is left stands for what
    -- the sweep leaves, the answer is what it filled and whether it stopped, and the events are its
    -- events in order, so that the loops never run out of the fuel that the size of the index
    -- gives.
    pub match-Matched :
        Matched s own want b swept (match parts s stp_on taker limit_px want owner b)
    unfolding match
    match-Matched =
        let t = run-Swept in
        let away = apart_sides (all_cells opposite) (all_cells own) h.common.apart in
        let own_same = same_at (all_cells opposite) b.heap run.heap t.same (all_cells own) away in
        record {
          represents =
              finish_run-Represents s own swept.groups run b h.own_shows t.sweeps.shows
                (AllLinked-frame s b.heap run.heap own own_same h.own_links) t.sweeps.links
                t.sweeps.common;
          filled = rw t.remaining (
              sub32-eq want swept.remaining
                (sweep_least s taker limit_px owner b.stp stp_on want opposite) small);
          stp_stopped = t.stopped;
          events = finish_run-events s run b ∙ t.events;
        }
