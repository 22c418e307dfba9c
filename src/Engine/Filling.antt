-- ===== src/Engine/Filling.antt =====
-- What the loop over a level does to the level's queue, order by order.
use limit_order_book.Base.{
  ℕ, zero, suc, ◌-◌, ◌^◌, ◌<◌, ◌≤◌, ◌≡◌, refl, sym, ap, ap₂, subst, ◌∙◌, ℤ, Bool, false, List, [],
  ◌∷◌, ◌++◌, length, arith, ltb, ltb→lt, ==_iff, ◌==◌, sub32, sub32-eq, Bool-cases, inl, inr,
  append_assoc, append-nil,
}
use limit_order_book.Types.{Side, Stp, Event, on_trade, on_cancel}
use limit_order_book.Fifo.{Ptr, null, Order, Level, set_qty, sub64}
use limit_order_book.Fifo.Cells.{Cell, front, level_of, AreApart-append_left}
use limit_order_book.Fifo.Fills.{with_qty, set_qty-Queued}
use limit_order_book.Engine.{
  Parts, Run, is_own, rejects_incoming, drop_order, kill_order, take_all, take_part, walk,
}
use limit_order_book.Engine.Laws.{IndexLaws, AllocLaws}
use limit_order_book.Engine.Queues.{
  Fill, noted, is_own_cell, fill_cells, fill-rejected, fill-own, fill-part, fill-all, fill-next,
}
use limit_order_book.Engine.Walking.{
  Walks, Filled, drop_order-Walks, drop_order-same, walk-rejected, walk-kill_order, walk-take_part,
  walk-take_all, walk-next,
}

module _ {L I A : Type 0} (parts : Parts L I A) (Indexes : I → List (ℕ × Ptr) → Type 0)
    (Owns : A → List Ptr → Type 0) where
  module _ (index : IndexLaws parts Indexes) (alloc : AllocLaws parts Owns) (s : Side) (px : ℤ)
      (others : List Cell) where
    -- The run once the order is gone, with what is still wanted and what was reported.
    abbrev told : ℕ → Event → Run L I A → Run L I A
    told n e r = record r { remaining = n; events = r.events ++ e ∷ [] }

    module _ (c : Cell) (cs : List Cell) (r : Run L I A)
        (w : Walks parts Indexes Owns s px (c ∷ cs) others r) where
      told-Walks : (n : ℕ) (e : Event) → Walks parts Indexes Owns s px (c ∷ cs) others (told n e r)
      told-Walks n e = record { lvl = w.lvl; links = w.links; common = w.common }

      dropped-Walks :
          (n : ℕ) (e : Event)
          → Walks parts Indexes Owns s px cs others (drop_order parts c.ptr (told n e r))
      dropped-Walks n e =
          drop_order-Walks parts Indexes Owns index alloc s px c cs others (told n e r)
            (told-Walks n e)

      Filled-drop_order :
          (n : ℕ) (e : Event) (f : Fill) (r' : Run L I A)
          → Filled parts Indexes Owns s px cs others (drop_order parts c.ptr (told n e r)) f r'
          → Filled parts Indexes Owns s px (c ∷ cs) others r (noted e f) r'
      Filled-drop_order n e f r' g = record {
        walks = record { lvl = g.walks.lvl; links = g.walks.links; common = g.walks.common };
        remaining = g.remaining;
        stopped = g.stopped;
        events = g.events ∙ (unfold drop_order in append_assoc r.events (e ∷ []) f.events);
        ladder = unfold drop_order in g.ladder;
        same = λ q out.
            g.same q out.1
            ∙ drop_order-same parts Indexes Owns index alloc s px c cs others (told n e r)
                (told-Walks n e) q out.1;
      }

      kill_order-drop_order :
          kill_order parts c.ptr r
          ≡ drop_order parts c.ptr (told r.remaining (on_cancel c.id c.owner) r)
      unfolding kill_order
      kill_order-drop_order =
          ap (λ (o : Order). drop_order parts c.ptr (told r.remaining (on_cancel o.id o.owner) r))
            w.links.0

      take_all-drop_order :
          (taker : ℕ)
          → c.qty ≤ r.remaining
          → r.remaining < 2 ^ 32
          → take_all parts taker c.ptr r
            ≡ drop_order parts c.ptr (told (r.remaining - c.qty) (on_trade taker c.id px c.qty) r)
      unfolding take_all
      take_all-drop_order taker le small =
          ap
            (λ (o : Order).
              drop_order parts c.ptr
                (told (sub32 r.remaining o.qty) (on_trade taker o.id r.lvl.price o.qty) r))
            w.links.0
          ∙ ap (λ n. drop_order parts c.ptr (told n (on_trade taker c.id r.lvl.price c.qty) r))
              (sub32-eq r.remaining c.qty le small)
          ∙ ap
              (λ (lvl : Level).
                drop_order parts c.ptr
                  (told (r.remaining - c.qty) (on_trade taker c.id lvl.price c.qty) r))
              w.lvl

      -- The run after a partial fill, from the queue.
      abbrev part_run : ℕ → ℕ → Event → Run L I A
      part_run q n e =
          let lvl = level_of px (c ∷ cs) in
          record r {
            heap = set_qty c.ptr q r.heap;
            lvl = record lvl { total_qty = sub64 lvl.total_qty n };
            remaining = 0;
            events = r.events ++ e ∷ [];
          }

      take_part-run :
          (taker : ℕ)
          → r.remaining < c.qty
          → let q = c.qty - r.remaining in
            take_part parts taker c.ptr r
            ≡ part_run q (c.qty - q) (on_trade taker c.id px r.remaining)
      unfolding take_part
      take_part-run taker lt =
          let fits = w.common.holds.0.1 in
          let all : r.remaining ≡ c.qty - (c.qty - r.remaining) = omega arith in
          ap
            (λ (o : Order). record r {
              heap = set_qty c.ptr (sub32 o.qty r.remaining) r.heap;
              lvl = record r.lvl { total_qty = sub64 r.lvl.total_qty r.remaining };
              remaining = 0;
              events = r.events ++ on_trade taker o.id r.lvl.price r.remaining ∷ [];
            })
            w.links.0
          ∙ ap
              (λ (lvl : Level). record r {
                heap = set_qty c.ptr (sub32 c.qty r.remaining) r.heap;
                lvl = record lvl { total_qty = sub64 lvl.total_qty r.remaining };
                remaining = 0;
                events = r.events ++ on_trade taker c.id lvl.price r.remaining ∷ [];
              })
              w.lvl
          ∙ ap (λ q. part_run q r.remaining (on_trade taker c.id px r.remaining))
              (sub32-eq c.qty r.remaining (omega arith) fits)
          ∙ ap (λ n. part_run (c.qty - r.remaining) n (on_trade taker c.id px r.remaining)) all

      part_run-Filled :
          (taker : ℕ)
          → r.remaining < c.qty
          → r.stopped ≡ false
          → let q = c.qty - r.remaining in
            Filled parts Indexes Owns s px
              (c ∷ cs)
              others
              r
              (record {
                cells = with_qty q c ∷ cs;
                remaining = 0;
                stopped = false;
                events = on_trade taker c.id px r.remaining ∷ [];
              })
              (part_run q (c.qty - q) (on_trade taker c.id px r.remaining))
      part_run-Filled taker lt going =
          let fits = w.common.holds.0.1 in
          let q = c.qty - r.remaining in
          let apart = AreApart-append_left (c ∷ cs) others w.common.apart in
          let d = set_qty-Queued s px r.heap [] c cs q apart (omega arith) fits w.links in
          let k = w.common in
          record {
            walks = record {
              lvl = d.level;
              links = d.links;
              common = record {
                indexed = k.indexed;
                owned = k.owned;
                real = k.real;
                apart = k.apart;
                differ = k.differ;
                holds = ((omega arith, omega arith), k.holds.1);
              };
            };
            remaining = refl;
            stopped = going;
            events = refl;
            ladder = refl;
            same = d.same;
          }

      take_part-Filled :
          (taker : ℕ)
          → r.remaining < c.qty
          → r.stopped ≡ false
          → Filled parts Indexes Owns s px
              (c ∷ cs)
              others
              r
              (record {
                cells = with_qty (c.qty - r.remaining) c ∷ cs;
                remaining = 0;
                stopped = false;
                events = on_trade taker c.id px r.remaining ∷ [];
              })
              (take_part parts taker c.ptr r)
      take_part-Filled taker lt going =
          subst (Filled parts Indexes Owns s px (c ∷ cs) others r _) (sym (take_part-run taker lt))
            (part_run-Filled taker lt going)

    module _ (taker owner : ℕ) (stp : Stp) (stp_on : Bool) where
      abbrev fill : ℕ → List Cell → Fill
      fill want cs = fill_cells taker owner stp stp_on px want cs

      abbrev walked : ℕ → Ptr → Run L I A → Run L I A
      walked fuel p r = walk parts fuel taker owner stp stp_on p r

      walk-Filled_nil :
          (fuel : ℕ) (r : Run L I A)
          → Walks parts Indexes Owns s px [] others r
          → r.stopped ≡ false
          → Filled parts Indexes Owns s px [] others r
              (fill r.remaining [])
              (walked (suc fuel) null r)
      unfolding walk fill_cells
      walk-Filled_nil fuel r w going = record {
        walks = w;
        remaining = refl;
        stopped = going;
        events = sym (append-nil r.events);
        ladder = refl;
        same = λ q out. refl;
      }

      drop_order-remaining :
          (p : Ptr) (r : Run L I A) → (drop_order parts p r).remaining ≡ r.remaining
      unfolding drop_order
      drop_order-remaining p r = refl

      drop_order-stopped : (p : Ptr) (r : Run L I A) → (drop_order parts p r).stopped ≡ r.stopped
      unfolding drop_order
      drop_order-stopped p r = refl

      -- The order was filled just by the last of the level's quantity.
      abbrev done : List Cell → Fill
      done cs = record { cells = cs; remaining = 0; stopped = false; events = [] }

      Filled-done :
          (cs : List Cell) (r : Run L I A)
          → Walks parts Indexes Owns s px cs others r
          → r.remaining ≡ 0
          → r.stopped ≡ false
          → Filled parts Indexes Owns s px cs others r (done cs) r
      Filled-done cs r w none_left going = record {
        walks = w;
        remaining = none_left;
        stopped = going;
        events = sym (append-nil r.events);
        ladder = refl;
        same = λ q out. refl;
      }

      Filled-eq :
          (cs : List Cell) (r : Run L I A) (f f' : Fill) (r' r'' : Run L I A)
          → f ≡ f'
          → r' ≡ r''
          → Filled parts Indexes Owns s px cs others r f' r''
          → Filled parts Indexes Owns s px cs others r f r'
      Filled-eq cs r f f' r' r'' p q g =
          subst (λ f. Filled parts Indexes Owns s px cs others r f r') (sym p)
            (subst (Filled parts Indexes Owns s px cs others r f') (sym q) g)

      -- The loop over a level does to the orders of the level what the list says.
      pub walk-Filled :
          (fuel : ℕ) (cs : List Cell) (r : Run L I A)
          → Walks parts Indexes Owns s px cs others r
          → length cs < fuel
          → r.remaining < 2 ^ 32
          → r.stopped ≡ false
          → Filled parts Indexes Owns s px cs others r
              (fill r.remaining cs)
              (walked fuel (front cs null) r)
      unfolding front
      walk-Filled zero cs r w long small going = absurd (omega arith)
      walk-Filled (suc fuel) [] r w long small going = walk-Filled_nil fuel r w going
      walk-Filled (suc fuel) (c ∷ cs) r w long small going =
          let head = w.links.0 in
          let real = w.common.real.0 in
          let own_eq : is_own stp_on owner (r.heap c.ptr) ≡ is_own_cell stp_on owner c =
            ap (is_own stp_on owner) head in
          let test_eq : ltb r.remaining (r.heap c.ptr).qty ≡ ltb r.remaining c.qty =
            ap (λ (o : Order). ltb r.remaining o.qty) head in
          let next : (r.heap c.ptr).next ≡ front cs null = ap (λ (o : Order). o.next) head in
          let n = r.remaining - c.qty in
          let cancelled = on_cancel c.id c.owner in
          let traded = on_trade taker c.id px c.qty in
          let after_drop : (n : ℕ) (e : Event)
              → n < 2 ^ 32
              → Filled parts Indexes Owns s px (c ∷ cs) others r (noted e (fill n cs))
                  (walked fuel (front cs null) (drop_order parts c.ptr (told n e r))) =
            λ n e fits.
              let gone = drop_order parts c.ptr (told n e r) in
              let wants = drop_order-remaining c.ptr (told n e r) in
              Filled-drop_order c cs r w n e _ _ (
                subst
                  (λ m.
                    Filled parts Indexes Owns s px cs others gone (fill m cs)
                      (walked fuel (front cs null) gone))
                  wants
                  (walk-Filled fuel cs gone (dropped-Walks c cs r w n e) (omega arith)
                    (omega (arith, wants)) (drop_order-stopped c.ptr (told n e r) ∙ going))) in
          elim (Bool-cases (is_own_cell stp_on owner c)) [
            | inl own ↦ elim (Bool-cases (rejects_incoming stp)) [
              | inl rejects ↦
                  Filled-eq (c ∷ cs) r _ _ _ _
                    (fill-rejected taker owner stp stp_on px r.remaining c cs own rejects)
                    (walk-rejected parts Indexes Owns taker owner stp stp_on fuel c.ptr r real
                      (own_eq ∙ own) rejects)
                    (record {
                      walks = record { lvl = w.lvl; links = w.links; common = w.common };
                      remaining = refl;
                      stopped = refl;
                      events = sym (append-nil r.events);
                      ladder = refl;
                      same = λ q out. refl;
                    })
              | inr kills ↦
                  Filled-eq (c ∷ cs) r _ _ _ _
                    (fill-own taker owner stp stp_on px r.remaining c cs own kills)
                    (walk-kill_order parts Indexes Owns taker owner stp stp_on fuel c.ptr r real
                        (own_eq ∙ own) kills
                      ∙ ap₂ (walked fuel) next (kill_order-drop_order c cs r w))
                    (after_drop r.remaining cancelled small)
            ]
            | inr foreign ↦ elim (Bool-cases (ltb r.remaining c.qty)) [
              | inl less ↦
                  Filled-eq (c ∷ cs) r _ _ _ _
                    (fill-part taker owner stp stp_on px r.remaining c cs foreign less)
                    (walk-take_part parts Indexes Owns taker owner stp stp_on fuel c.ptr r real
                      (own_eq ∙ foreign) (test_eq ∙ less))
                    (take_part-Filled c cs r w taker (ltb→lt r.remaining c.qty less) going)
              | inr enough ↦
                  let le : c.qty ≤ r.remaining = ground arith in
                  let gone = take_all-drop_order c cs r w taker le small in
                  let left : (take_all parts taker c.ptr r).remaining ≡ n =
                    ap (λ (r : Run L I A). r.remaining) gone ∙ (unfold drop_order in refl) in
                  elim (Bool-cases (r.remaining == c.qty)) [
                    | inl same ↦
                        Filled-eq (c ∷ cs) r _ _ _ _
                          (fill-all taker owner stp stp_on px r.remaining c cs foreign enough same)
                          (walk-take_all parts Indexes Owns taker owner stp stp_on fuel c.ptr r real
                              (own_eq ∙ foreign) (test_eq ∙ enough) (ground (arith, left))
                            ∙ gone)
                          (Filled-drop_order c cs r w n traded (done cs) _ (
                            Filled-done cs (drop_order parts c.ptr (told n traded r))
                              (dropped-Walks c cs r w n traded)
                              (omega (
                                arith,
                                drop_order-remaining c.ptr (told n traded r),
                                (==_iff r.remaining c.qty).0 same,
                              ))
                              (drop_order-stopped c.ptr (told n traded r) ∙ going)))
                    | inr more ↦
                        Filled-eq (c ∷ cs) r _ _ _ _
                          (fill-next taker owner stp stp_on px r.remaining c cs foreign enough more)
                          (walk-next parts Indexes Owns taker owner stp stp_on fuel c.ptr r real
                              (own_eq ∙ foreign) (test_eq ∙ enough) (ground (arith, left))
                            ∙ ap₂ (walked fuel) next gone)
                          (after_drop n traded (omega arith))
                  ]
            ]
          ]
