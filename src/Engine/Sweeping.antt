-- ===== src/Engine/Sweeping.antt =====
-- The loop over the levels, round by round, against the sweep over the groups.
use limit_order_book.Base.{
  ℕ, zero, suc, ◌^◌, ◌<◌, ◌≡◌, refl, sym, ap, subst, ◌∙◌, ℤ, pos, ◌<ℤ◌, eqb_ℤ, Bool, true, false,
  not, ◌||◌, List, [], ◌∷◌, ◌++◌, length, All-append_left, All-append_right, arith, ◌==◌,
  if◌then◌else◌, Bool-cases, inl, inr, append_assoc, append-nil,
}
use limit_order_book.Types.{Side, Stp, no_price}
use limit_order_book.Fifo.{Ptr}
use limit_order_book.Fifo.Cells.{Cell}
use limit_order_book.Engine.{Parts, Run, crosses, take_level, match_levels}
use limit_order_book.Engine.Laws.{Entries, LadderLaws, IndexLaws, AllocLaws}
use limit_order_book.Engine.Queues.{
  Groups, all_cells, Fill, fill_cells, Sweep, sweep, regroup, sweep-nil, sweep-none, sweep-last,
  sweep-next,
}
use limit_order_book.Engine.Groups.{
  two_guards, not_either, or_right, or_left, or_true, fill_cells-IsTame,
}
use limit_order_book.Engine.Matching.{
  Sweeps, Swept, best_price, take_level-Sweeps, take_level-remaining, take_level-stopped,
  take_level-events, take_level-same,
}

module _ {L I A : Type 0} (parts : Parts L I A) (Shows : Side → L → Entries → Type 0)
    (Indexes : I → List (ℕ × Ptr) → Type 0) (Owns : A → List Ptr → Type 0) where
  module _ (ladder : LadderLaws parts Shows) (index : IndexLaws parts Indexes)
      (alloc : AllocLaws parts Owns) (o : Side) (taker owner : ℕ) (stp : Stp) (stp_on : Bool)
      (others : List Cell) where
    module _ (s : Side) (limit_px : ℤ) where
      abbrev levels : ℕ → Run L I A → Run L I A
      levels fuel r = match_levels parts fuel s taker limit_px owner stp stp_on r

      abbrev swept : ℕ → Groups → Sweep
      swept want gs = sweep s taker limit_px owner stp stp_on want gs

      abbrev is_over : Run L I A → Bool
      is_over r =
          let best = parts.best r.ladder in
          r.remaining == 0 || (eqb_ℤ best no_price || not (crosses s best limit_px))

      over_at_end : (r : Run L I A) → parts.best r.ladder ≡ no_price → is_over r ≡ true
      over_at_end r e = rw e (or_true (r.remaining == 0))

      over_at_price :
          (px : ℤ) (r : Run L I A)
          → parts.best r.ladder ≡ px
          → pos 0 <ℤ px
          → is_over r ≡ (r.remaining == 0 || not (crosses s px limit_px))
      over_at_price px r e positive =
          let some_price : eqb_ℤ px no_price ≡ false = ground arith in rw (e, some_price) refl

      levels-guards :
          (fuel : ℕ) (r : Run L I A)
          → let r' = take_level parts taker owner stp stp_on r in
            levels (suc fuel) r
            ≡ (if is_over r then r else if r'.stopped then r' else levels fuel r')
      unfolding match_levels
      levels-guards fuel r = two_guards (r.remaining == 0) _ r _

      levels-over : (fuel : ℕ) (r : Run L I A) → is_over r ≡ true → levels fuel r ≡ r
      levels-over zero r e = unfold match_levels in refl
      levels-over (suc fuel) r e = levels-guards fuel r ∙ rw e refl

      levels-stopped :
          (fuel : ℕ) (r : Run L I A)
          → is_over r ≡ false
          → (take_level parts taker owner stp stp_on r).stopped ≡ true
          → levels (suc fuel) r ≡ take_level parts taker owner stp stp_on r
      levels-stopped fuel r e f = levels-guards fuel r ∙ rw (e, f) refl

      levels-next :
          (fuel : ℕ) (r : Run L I A)
          → is_over r ≡ false
          → (take_level parts taker owner stp stp_on r).stopped ≡ false
          → levels (suc fuel) r ≡ levels fuel (take_level parts taker owner stp stp_on r)
      levels-next fuel r e f = levels-guards fuel r ∙ rw (e, f) refl

      Swept-eq :
          (gs : Groups) (r : Run L I A) (w w' : Sweep) (r' r'' : Run L I A)
          → w ≡ w'
          → r' ≡ r''
          → Swept parts Shows Indexes Owns o gs others r w' r''
          → Swept parts Shows Indexes Owns o gs others r w r'
      Swept-eq gs r w w' r' r'' p q g =
          subst (λ w. Swept parts Shows Indexes Owns o gs others r w r') (sym p)
            (subst (Swept parts Shows Indexes Owns o gs others r w') (sym q) g)

      Swept-none :
          (gs : Groups) (r : Run L I A)
          → Sweeps parts Shows Indexes Owns o gs others r
          → r.stopped ≡ false
          → Swept parts Shows Indexes Owns o gs others r
              (record { groups = gs; remaining = r.remaining; stopped = false; events = [] })
              r
      Swept-none gs r w going = record {
        sweeps = w;
        remaining = refl;
        stopped = going;
        events = sym (append-nil r.events);
        same = λ q out. refl;
      }

      -- A round that stops the loop, or leaves nothing wanted.
      last_round :
          (fuel : ℕ) (r : Run L I A)
          → is_over r ≡ false
          → let r' = take_level parts taker owner stp stp_on r in
            (r'.stopped || r'.remaining == 0) ≡ true → levels (suc fuel) r ≡ r'
      last_round fuel r e last =
          let r' = take_level parts taker owner stp stp_on r in
          elim (Bool-cases r'.stopped) [
            | inl stopped ↦ levels-stopped fuel r e stopped
            | inr going ↦
                levels-next fuel r e going
                ∙ levels-over fuel r'
                    (or_left (r'.remaining == 0) _ (or_right r'.stopped _ going last))
          ]

      module _ (px : ℤ) (cs : List Cell) (gs : Groups) (r : Run L I A)
          (w : Sweeps parts Shows Indexes Owns o ((px, cs) ∷ gs) others r)
          (small : r.remaining < 2 ^ 32) (going : r.stopped ≡ false) where
        abbrev first_fill : Fill
        first_fill = fill_cells taker owner stp stp_on px r.remaining cs

        abbrev second : Run L I A
        second = take_level parts taker owner stp stp_on r

        Swept-last :
            Swept parts Shows Indexes Owns o
              ((px, cs) ∷ gs)
              others
              r
              (record {
                groups = regroup px first_fill.cells gs;
                remaining = first_fill.remaining;
                stopped = first_fill.stopped;
                events = first_fill.events;
              })
              second
        Swept-last = record {
          sweeps =
              take_level-Sweeps parts Shows Indexes Owns ladder index alloc o taker owner stp stp_on
                others px cs gs r w small going;
          remaining =
              take_level-remaining parts Shows Indexes Owns ladder index alloc o taker owner stp
                stp_on others px cs gs r w small going;
          stopped =
              take_level-stopped parts Shows Indexes Owns ladder index alloc o taker owner stp
                stp_on others px cs gs r w small going;
          events =
              take_level-events parts Shows Indexes Owns ladder index alloc o taker owner stp stp_on
                others px cs gs r w small going;
          same = λ q out.
              take_level-same parts Shows Indexes Owns ladder index alloc o taker owner stp stp_on
                others px cs gs r w small going q
                (All-append_left _ cs (all_cells gs) (unfold all_cells in out));
        }

        Swept-then :
            (rest : Sweep) (r' : Run L I A)
            → Swept parts Shows Indexes Owns o gs others second rest r'
            → Swept parts Shows Indexes Owns o
                ((px, cs) ∷ gs)
                others
                r
                (record rest { events = first_fill.events ++ rest.events })
                r'
        Swept-then rest r' t = record {
          sweeps = record {
            shows = t.sweeps.shows;
            links = t.sweeps.links;
            common = t.sweeps.common;
          };
          remaining = t.remaining;
          stopped = t.stopped;
          events =
              t.events
              ∙ ap (λ es. es ++ rest.events)
                  (take_level-events parts Shows Indexes Owns ladder index alloc o taker owner stp
                    stp_on others px cs gs r w small going)
              ∙ append_assoc r.events first_fill.events rest.events;
          same = λ q out.
              t.same q (All-append_right _ cs (all_cells gs) (unfold all_cells in out))
              ∙ take_level-same parts Shows Indexes Owns ladder index alloc o taker owner stp stp_on
                  others px cs gs r w small going q
                  (All-append_left _ cs (all_cells gs) (unfold all_cells in out));
        }

      -- The loop over the levels does to the groups what the list says.
      pub match_levels-Swept :
          (fuel : ℕ) (gs : Groups) (r : Run L I A)
          → Sweeps parts Shows Indexes Owns o gs others r
          → length gs < fuel
          → r.remaining < 2 ^ 32
          → r.stopped ≡ false
          → Swept parts Shows Indexes Owns o gs others r (swept r.remaining gs) (levels fuel r)
      match_levels-Swept zero gs r w long small going = absurd (omega arith)
      match_levels-Swept (suc fuel) [] r w long small going =
          Swept-eq [] r _ _ _ _ (sweep-nil s taker limit_px owner stp stp_on r.remaining)
            (levels-over (suc fuel) r (over_at_end r (ladder.best o r.ladder [] w.shows)))
            (Swept-none [] r w going)
      match_levels-Swept (suc fuel) ((px, cs) ∷ gs) r w long small going =
          let positive = (ladder.positive o r.ladder _ w.shows).0 in
          let over =
            over_at_price px r
              (best_price parts Shows Indexes Owns ladder index alloc o taker owner stp stp_on
                others px cs gs r w)
              positive in
          elim (Bool-cases (r.remaining == 0 || not (crosses s px limit_px))) [
            | inl out ↦
                Swept-eq ((px, cs) ∷ gs) r _ _ _ _
                  (sweep-none s taker limit_px owner stp stp_on r.remaining px cs gs out)
                  (levels-over (suc fuel) r (over ∙ out)) (Swept-none ((px, cs) ∷ gs) r w going)
            | inr on ↦
                let f = fill_cells taker owner stp stp_on px r.remaining cs in
                let tame = fill_cells-IsTame taker owner stp stp_on px r.remaining cs in
                let r' = take_level parts taker owner stp stp_on r in
                let wants =
                  take_level-remaining parts Shows Indexes Owns ladder index alloc o taker owner stp
                    stp_on others px cs gs r w small going in
                let stops =
                  take_level-stopped parts Shows Indexes Owns ladder index alloc o taker owner stp
                    stp_on others px cs gs r w small going in
                elim (Bool-cases (f.stopped || f.remaining == 0)) [
                  | inl last ↦
                      Swept-eq ((px, cs) ∷ gs) r _ _ _ _
                        (sweep-last s taker limit_px owner stp stp_on r.remaining px cs gs on last)
                        (last_round fuel r (over ∙ on) (rw (stops, wants) last))
                        (Swept-last px cs gs r w small going)
                  | inr going_on ↦
                      let still : f.stopped ≡ false = (not_either f.stopped _ going_on).0 in
                      let more = (not_either f.stopped _ going_on).1 in
                      let emptied : f.cells ≡ [] = tame.1 still (ground arith) in
                      let rest_sweeps : Sweeps parts Shows Indexes Owns o gs others r' =
                        subst
                          (λ cells.
                            Sweeps parts Shows Indexes Owns o (regroup px cells gs) others r')
                          emptied
                          (take_level-Sweeps parts Shows Indexes Owns ladder index alloc o taker
                            owner stp stp_on others px cs gs r w small going) in
                      Swept-eq ((px, cs) ∷ gs) r _ _ _ _
                        (sweep-next s taker limit_px owner stp stp_on r.remaining px cs gs on
                          going_on)
                        (levels-next fuel r (over ∙ on) (stops ∙ still))
                        (Swept-then px cs gs r w small going (swept f.remaining gs) (levels fuel r')
                          (subst
                            (λ want.
                              Swept parts Shows Indexes Owns o gs others r' (swept want gs)
                                (levels fuel r'))
                            wants
                            (match_levels-Swept fuel gs r' rest_sweeps (omega arith)
                              (omega (arith, wants, tame.0)) (stops ∙ still))))
                ]
          ]
