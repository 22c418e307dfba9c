-- ===== src/OrderBook/Submission.antt =====
-- `submit_limit` of include/lob/order_book.hpp without self-trade prevention, against the reference
-- engine of engines/naive_book.hpp.
use limit_order_book.Base.{
  ℕ, ◌-◌, ◌^◌, ◌<◌, ◌≤◌, ◌≡◌, refl, sym, ap, subst, ◌∙◌, ℤ, Bool, true, false, ◌&&◌, none, List, [],
  ◌∷◌, ◌++◌, All-append, All-append_left, All-append_right, append-nil, arith, ltb, ◌==◌, sub32,
  sub32-eq, if◌then◌else◌, Bool-cases, inl, inr,
}
use limit_order_book.Types.{Side, bid, ask, Tif, allow, SubmitResult, Trade, is_gtc}
use limit_order_book.Fifo.{Ptr}
use limit_order_book.Fifo.Cells.{Cell}
use limit_order_book.Naive.Sides
use limit_order_book.Naive.Sides.{BookSide, SideFill, match_side, push_back}
use limit_order_book.Naive
use limit_order_book.Naive.{NaiveBook, own, opposite, set_opposite, set_own, rest_order}
use limit_order_book.Naive.Refinement.{own-set_opposite}
use limit_order_book.Naive.Updates.{
  opposite-set_opposite, trades-set_opposite, own-set_own, opposite-set_own, trades-set_own,
}
use limit_order_book.Engine.{Parts, Book, MatchOutcome, own_ladder, match, stp_is_on}
use limit_order_book.Engine.Execution.{execute_now, rest}
use limit_order_book.Engine.Laws.{Entries, LadderLaws, IndexLaws, AllocLaws}
use limit_order_book.Engine.Queues.{Groups, all_cells, Sweep, sweep}
use limit_order_book.Engine.Walking.{keys}
use limit_order_book.Engine.Edits.{missing_id}
use limit_order_book.Engine.Books.{Represents, Matched, match-Matched}
use limit_order_book.Engine.Levels.{book_side, reported}
use limit_order_book.Engine.Reference.{SideAgrees}
use limit_order_book.Engine.Agreement.{sweep-match_side}
use limit_order_book.Engine.Resting.{rest-Represents}
use limit_order_book.OrderBook.Placing.{place, offer_of}
use limit_order_book.OrderBook.Missing.{Lacks-lookup, sweep-Lacks}

module _ {L I A : Type 0} (parts : Parts L I A) where
  own_ladder-match :
      (s : Side) (stp_on : Bool) (taker : ℕ) (limit_px : ℤ) (want owner : ℕ) (b : Book L I A)
      → own_ladder s (match parts s stp_on taker limit_px want owner b).0 ≡ own_ladder s b
  unfolding match
  own_ladder-match bid stp_on taker limit_px want owner b = refl
  own_ladder-match ask stp_on taker limit_px want owner b = refl

  events-rest :
      (s : Side) (id : ℕ) (px : ℤ) (qty owner : ℕ) (b : Book L I A)
      → (rest parts s id px qty owner b).events ≡ b.events
  unfolding rest
  events-rest bid id px qty owner b = refl
  events-rest ask id px qty owner b = refl

  module _ (Shows : Side → L → Entries → Type 0) (Indexes : I → List (ℕ × Ptr) → Type 0)
      (Owns : A → List Ptr → Type 0) where
    -- The engine's book and the reference engine's have the same levels after the same trades, with
    -- the same answer.
    pub record Submitted {R : Type 0} (s : Side) (b : Book L I A) (n : NaiveBook)
        (x : Book L I A × R) (y : NaiveBook × R) : Type 0 where
      pub own_groups : Groups
      pub opposite_groups : Groups
      pub new : List Trade
      pub represents : Represents parts Shows Indexes Owns s own_groups opposite_groups x.0
      pub own_side : own s y.0 ≡ book_side own_groups
      pub opposite_side : opposite s y.0 ≡ book_side opposite_groups
      pub events : x.0.events ≡ b.events ++ reported new
      pub trades : y.0.trades ≡ n.trades ++ new
      pub result : x.1 ≡ y.1

    module _ (ladder : LadderLaws parts Shows) (index : IndexLaws parts Indexes)
        (alloc : AllocLaws parts Owns) (s : Side) (id : ℕ) (px : ℤ) (qty owner : ℕ)
        (own_groups opposite_groups : Groups) (b : Book L I A) (n : NaiveBook)
        (h : Represents parts Shows Indexes Owns s own_groups opposite_groups b)
        (same_own : own s n ≡ book_side own_groups)
        (same_opposite : opposite s n ≡ book_side opposite_groups) where
      pub Submitted-unchanged : {R : Type 0} (r : R) → Submitted s b n (b, r) (n, r)
      Submitted-unchanged r = record {
        own_groups = own_groups;
        opposite_groups = opposite_groups;
        new = [];
        represents = h;
        own_side = same_own;
        opposite_side = same_opposite;
        events = sym (append-nil b.events);
        trades = sym (append-nil n.trades);
        result = refl;
      }

      module _ (some_qty : 0 < qty) (small : qty < 2 ^ 32) (real_id : 0 < id)
          (missing : parts.find id b.orders ≡ none)
          (band : parts.in_band px (own_ladder s b) ≡ true) where
        abbrev matched : Book L I A × MatchOutcome
        matched = match parts s false id px qty owner b

        abbrev swept : Sweep
        swept = sweep s id px owner b.stp false qty opposite_groups

        abbrev naive_fill : SideFill
        naive_fill = match_side id qty (Sides.crosses s px) (book_side opposite_groups)

        outcome : Matched parts Shows Indexes Owns s own_groups qty b swept matched
        outcome =
            match-Matched parts Shows Indexes Owns ladder index alloc s false id px qty owner
              own_groups opposite_groups b h small

        agreed : SideAgrees qty swept naive_fill
        agreed =
            sweep-match_side s id px owner b.stp qty opposite_groups small
              (All-append_left _ (all_cells opposite_groups) (all_cells own_groups) h.common.holds)

        going : matched.1.stp_stopped ≡ false
        going = outcome.stp_stopped ∙ agreed.going

        same_filled : matched.1.filled ≡ naive_fill.filled
        same_filled = omega (arith, outcome.filled, agreed.filled)

        still_missing : parts.find id matched.0.orders ≡ none
        still_missing =
            let cells = all_cells opposite_groups ++ all_cells own_groups in
            let left = all_cells swept.groups ++ all_cells own_groups in
            let lacks =
              missing_id id cells
                (sym (index.find b.orders (keys cells) id h.common.indexed) ∙ missing) in
            index.find matched.0.orders (keys left) id outcome.represents.common.indexed
            ∙ Lacks-lookup id left (
                All-append _ (all_cells swept.groups) (all_cells own_groups)
                  (sweep-Lacks id id owner b.stp false s px qty opposite_groups
                    (All-append_left _ (all_cells opposite_groups) (all_cells own_groups) lacks))
                  (All-append_right _ (all_cells opposite_groups) (all_cells own_groups) lacks))

        -- The reference engine after its match.
        abbrev naive_matched : NaiveBook
        naive_matched = set_opposite s naive_fill.levels naive_fill.trades n

        new_events : matched.0.events ≡ b.events ++ reported naive_fill.trades
        new_events = outcome.events ∙ ap (λ es. b.events ++ es) (sym agreed.trades)

        Submitted-matched : (r : SubmitResult) → Submitted s b n (matched.0, r) (naive_matched, r)
        Submitted-matched r = record {
          own_groups = own_groups;
          opposite_groups = swept.groups;
          new = naive_fill.trades;
          represents = outcome.represents;
          own_side = own-set_opposite s naive_fill.levels naive_fill.trades n ∙ same_own;
          opposite_side =
              opposite-set_opposite s naive_fill.levels naive_fill.trades n ∙ agreed.levels;
          events = new_events;
          trades = trades-set_opposite s naive_fill.levels naive_fill.trades n;
          result = refl;
        }

        Submitted-rested :
            (left : ℕ)
            → 0 < left
            → left < 2 ^ 32
            → (r : SubmitResult)
            → Submitted s b n
                (rest parts s id px left owner matched.0, r)
                (rest_order s id px left naive_matched, r)
        unfolding rest_order
        Submitted-rested left some_left fits r =
            let m = outcome.represents in
            let p =
              place s own_groups px matched.0.heap (ladder.ordered s _ _ m.own_shows) m.own_links in
            let cell : Cell = record {
              ptr = (parts.create matched.0.pool).1;
              id = id;
              qty = left;
              owner = owner;
            } in
            let rested = p.gs ++ (px, p.cs ++ cell ∷ []) ∷ p.hs in
            let here =
              subst (λ gs. Represents parts Shows Indexes Owns s gs swept.groups matched.0) p.whole
                m in
            let in_band =
              ap (parts.in_band px) (own_ladder-match s false id px qty owner b) ∙ band in
            record {
              own_groups = rested;
              opposite_groups = swept.groups;
              new = naive_fill.trades;
              represents =
                  rest-Represents parts Shows Indexes Owns ladder index alloc s p.gs px p.cs p.hs
                    swept.groups matched.0 id left owner here p.fits in_band real_id still_missing
                    some_left fits;
              own_side =
                  own-set_own s _ naive_matched
                  ∙ ap (push_back s px (offer_of cell))
                      (own-set_opposite s naive_fill.levels naive_fill.trades n ∙ same_own)
                  ∙ p.pushed cell;
              opposite_side =
                  opposite-set_own s _ naive_matched
                  ∙ opposite-set_opposite s naive_fill.levels naive_fill.trades n
                  ∙ agreed.levels;
              events = events-rest s id px left owner matched.0 ∙ new_events;
              trades =
                  trades-set_own s _ naive_matched
                  ∙ trades-set_opposite s naive_fill.levels naive_fill.trades n;
              result = refl;
            }

        -- What the engines do with the outcome of their match.
        abbrev finish : Tif → Book L I A × MatchOutcome → Book L I A × SubmitResult
        finish tif x =
            if x.1.stp_stopped
            then (x.0, record { filled = x.1.filled; rested = false; rejected = x.1.filled == 0 })
            else if ltb x.1.filled qty && is_gtc tif
            then (
              rest parts s id px (sub32 qty x.1.filled) owner x.0,
              record { filled = x.1.filled; rested = true; rejected = false },
            )
            else (x.0, record { filled = x.1.filled; rested = false; rejected = false })

        abbrev naive_finish : Tif → SideFill → NaiveBook × SubmitResult
        naive_finish tif f =
            let b' = set_opposite s f.levels f.trades n in
            let rem = sub32 qty f.filled in
            if ltb 0 rem && is_gtc tif
            then (
              rest_order s id px rem b',
              record { filled = f.filled; rested = true; rejected = false },
            )
            else (b', record { filled = f.filled; rested = false; rejected = false })

        Submitted-finish :
            (tif : Tif) → Submitted s b n (finish tif matched) (naive_finish tif naive_fill)
        Submitted-finish tif =
            let le : naive_fill.filled ≤ qty = omega (arith, agreed.filled) in
            let left = sub32-eq qty naive_fill.filled le small in
            rw (going, same_filled, left)
              (elim (Bool-cases (ltb naive_fill.filled qty && is_gtc tif)) [
                | inl rests ↦
                    let rests' : (ltb 0 (qty - naive_fill.filled) && is_gtc tif) ≡ true =
                      ground arith in
                    rw (rests, rests')
                      (Submitted-rested (qty - naive_fill.filled) (ground arith) (omega arith)
                        (record { filled = naive_fill.filled; rested = true; rejected = false }))
                | inr over ↦
                    let over' : (ltb 0 (qty - naive_fill.filled) && is_gtc tif) ≡ false =
                      ground arith in
                    rw (over, over')
                      (Submitted-matched
                        (record { filled = naive_fill.filled; rested = false; rejected = false }))
              ])

        pub execute-Submitted :
            (tif : Tif)
            → b.stp ≡ allow
            → Submitted s b n
                (execute_now parts s id px qty tif owner b)
                (Naive.execute id s px qty tif n)
        unfolding execute_now Naive.execute
        execute-Submitted tif no_stp =
            let off : stp_is_on b.stp ≡ false = ap stp_is_on no_stp in
            subst
              (λ on.
                Submitted s b n (finish tif (match parts s on id px qty owner b))
                  (naive_finish tif (match_side id qty (Sides.crosses s px) (opposite s n))))
              (sym off)
              (subst
                (λ levels.
                  Submitted s b n (finish tif matched)
                    (naive_finish tif (match_side id qty (Sides.crosses s px) levels)))
                (sym same_opposite) (Submitted-finish tif))
