-- ===== src/Engine/Queues.antt =====
-- The matching core of include/lob/order_book.hpp on plain queues: the orders of a level as a list,
-- the levels of a side as a list of such lists.
use limit_order_book.Base.{
  ◌≡◌, refl, ℕ, ◌-◌, ℤ, Bool, true, false, not, ◌&&◌, ◌||◌, List, [], ◌∷◌, ◌++◌, ltb, ◌==◌,
  if◌then◌else◌,
}
use limit_order_book.Types.{Side, Stp, Event, on_trade, on_cancel}
use limit_order_book.Fifo.Cells.{Cell, level_of}
use limit_order_book.Fifo.Fills.{with_qty}
use limit_order_book.Engine.{crosses, rejects_incoming}
use limit_order_book.Engine.Laws.{Entries}

-- The levels of a side, best first, with their orders, oldest first.
abbrev pub Groups : Type 0
Groups = List (ℤ × List Cell)

abbrev pub entries : Groups → Entries
entries [] = []
entries ((px, cs) ∷ gs) = (px, level_of px cs) ∷ entries gs

unfoldable pub all_cells : Groups → List Cell
all_cells [] = []
all_cells ((px, cs) ∷ gs) = cs ++ all_cells gs

abbrev pub is_own_cell : Bool → ℕ → Cell → Bool
is_own_cell stp_on owner c = stp_on && (not (owner == 0) && c.owner == owner)

pub record Fill : Type 0 where
  pub cells : List Cell
  pub remaining : ℕ
  pub stopped : Bool
  pub events : List Event

abbrev pub noted : Event → Fill → Fill
noted e f = record f { events = e ∷ f.events }

-- What an incoming order for `want` does to the orders of a level.
unfoldable pub fill_cells : ℕ → ℕ → Stp → Bool → ℤ → ℕ → List Cell → Fill
fill_cells taker owner stp stp_on px want [] = record {
  cells = [];
  remaining = want;
  stopped = false;
  events = [];
}
fill_cells taker owner stp stp_on px want (c ∷ cs) =
    let own = is_own_cell stp_on owner c in
    let rest = fill_cells taker owner stp stp_on px (if own then want else want - c.qty) cs in
    if own && rejects_incoming stp
    then record { cells = c ∷ cs; remaining = want; stopped = true; events = [] }
    else if own
    then noted (on_cancel c.id c.owner) rest
    else if ltb want c.qty
    then record {
      cells = with_qty (c.qty - want) c ∷ cs;
      remaining = 0;
      stopped = false;
      events = on_trade taker c.id px want ∷ [];
    }
    else if want == c.qty
    then record {
      cells = cs;
      remaining = 0;
      stopped = false;
      events = on_trade taker c.id px c.qty ∷ [];
    }
    else noted (on_trade taker c.id px c.qty) rest

pub record Sweep : Type 0 where
  pub groups : Groups
  pub remaining : ℕ
  pub stopped : Bool
  pub events : List Event

abbrev pub regroup : ℤ → List Cell → Groups → Groups
regroup px [] gs = gs
regroup px (c ∷ cs) gs = (px, c ∷ cs) ∷ gs

-- What it does to the levels that it crosses.
unfoldable pub sweep : Side → ℕ → ℤ → ℕ → Stp → Bool → ℕ → Groups → Sweep
sweep s taker limit_px owner stp stp_on want [] = record {
  groups = [];
  remaining = want;
  stopped = false;
  events = [];
}
sweep s taker limit_px owner stp stp_on want ((px, cs) ∷ gs) =
    let f = fill_cells taker owner stp stp_on px want cs in
    let rest = sweep s taker limit_px owner stp stp_on f.remaining gs in
    if want == 0 || not (crosses s px limit_px)
    then record { groups = (px, cs) ∷ gs; remaining = want; stopped = false; events = [] }
    else if f.stopped || f.remaining == 0
    then record {
      groups = regroup px f.cells gs;
      remaining = f.remaining;
      stopped = f.stopped;
      events = f.events;
    }
    else record rest { events = f.events ++ rest.events }

module _ (taker owner : ℕ) (stp : Stp) (stp_on : Bool) (px : ℤ) (want : ℕ) (c : Cell)
    (cs : List Cell) where
  pub fill-rejected :
      is_own_cell stp_on owner c ≡ true
      → rejects_incoming stp ≡ true
      → fill_cells taker owner stp stp_on px want (c ∷ cs)
        ≡ record { cells = c ∷ cs; remaining = want; stopped = true; events = [] }
  unfolding fill_cells
  fill-rejected e f = rw (e, f) refl

  pub fill-own :
      is_own_cell stp_on owner c ≡ true
      → rejects_incoming stp ≡ false
      → fill_cells taker owner stp stp_on px want (c ∷ cs)
        ≡ noted (on_cancel c.id c.owner) (fill_cells taker owner stp stp_on px want cs)
  unfolding fill_cells
  fill-own e f = rw (e, f) refl

  pub fill-part :
      is_own_cell stp_on owner c ≡ false
      → ltb want c.qty ≡ true
      → fill_cells taker owner stp stp_on px want (c ∷ cs) ≡ record {
        cells = with_qty (c.qty - want) c ∷ cs;
        remaining = 0;
        stopped = false;
        events = on_trade taker c.id px want ∷ [];
      }
  unfolding fill_cells
  fill-part e f = rw (e, f) refl

  pub fill-all :
      is_own_cell stp_on owner c ≡ false
      → ltb want c.qty ≡ false
      → (want == c.qty) ≡ true
      → fill_cells taker owner stp stp_on px want (c ∷ cs) ≡ record {
        cells = cs;
        remaining = 0;
        stopped = false;
        events = on_trade taker c.id px c.qty ∷ [];
      }
  unfolding fill_cells
  fill-all e f g = rw (e, f, g) refl

  pub fill-next :
      is_own_cell stp_on owner c ≡ false
      → ltb want c.qty ≡ false
      → (want == c.qty) ≡ false
      → fill_cells taker owner stp stp_on px want (c ∷ cs)
        ≡ noted
            (on_trade taker c.id px c.qty)
            (fill_cells taker owner stp stp_on px (want - c.qty) cs)
  unfolding fill_cells
  fill-next e f g = rw (e, f, g) refl

pub sweep-nil :
    (s : Side) (taker : ℕ) (limit_px : ℤ) (owner : ℕ) (stp : Stp) (stp_on : Bool) (want : ℕ)
    → sweep s taker limit_px owner stp stp_on want []
      ≡ record { groups = []; remaining = want; stopped = false; events = [] }
unfolding sweep
sweep-nil s taker limit_px owner stp stp_on want = refl

module _ (s : Side) (taker : ℕ) (limit_px : ℤ) (owner : ℕ) (stp : Stp) (stp_on : Bool) (want : ℕ)
    (px : ℤ) (cs : List Cell) (gs : Groups) where
  abbrev filled_first : Fill
  filled_first = fill_cells taker owner stp stp_on px want cs

  pub sweep-none :
      (want == 0 || not (crosses s px limit_px)) ≡ true
      → sweep s taker limit_px owner stp stp_on want ((px, cs) ∷ gs)
        ≡ record { groups = (px, cs) ∷ gs; remaining = want; stopped = false; events = [] }
  unfolding sweep
  sweep-none e = rw e refl

  pub sweep-last :
      (want == 0 || not (crosses s px limit_px)) ≡ false
      → (filled_first.stopped || filled_first.remaining == 0) ≡ true
      → sweep s taker limit_px owner stp stp_on want ((px, cs) ∷ gs) ≡ record {
        groups = regroup px filled_first.cells gs;
        remaining = filled_first.remaining;
        stopped = filled_first.stopped;
        events = filled_first.events;
      }
  unfolding sweep
  sweep-last e f = rw (e, f) refl

  pub sweep-next :
      (want == 0 || not (crosses s px limit_px)) ≡ false
      → (filled_first.stopped || filled_first.remaining == 0) ≡ false
      → let rest = sweep s taker limit_px owner stp stp_on filled_first.remaining gs in
        sweep s taker limit_px owner stp stp_on want ((px, cs) ∷ gs)
        ≡ record rest { events = filled_first.events ++ rest.events }
  unfolding sweep
  sweep-next e f = rw (e, f) refl
