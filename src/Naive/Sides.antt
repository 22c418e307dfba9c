-- ===== src/Naive/Sides.antt =====
-- engines/naive_book.hpp, one side of the book. A `std::map` of levels is the list of its entries
-- in the map's order, best price first; a `std::list` of orders is a list, oldest first.
pub mod Queue
pub mod Edits
pub mod Lookup
pub mod Shape
pub mod Prices
pub mod Matching
use limit_order_book.Base.{
  ℕ, ℤ, pos, leb_ℤ, ltb_ℤ, eqb_ℤ, add32, sub32, add64, Bool, true, false, ◌&&◌, ◌||◌, Option, none,
  some, List, [], ◌∷◌, ◌++◌, ltb, ◌==◌, if◌then◌else◌, min, length, ◌+◌,
}
use limit_order_book.Types.{Side, bid, ask, no_price, Trade}

pub record RestingOrder : Type 0 where
  pub id : ℕ
  pub qty : ℕ

abbrev pub Level : Type 0
Level = List RestingOrder

abbrev pub BookSide : Type 0
BookSide = List (ℤ × Level)

-- `std::greater` for bids, `std::less` for asks.
unfoldable pub before : Side → ℤ → ℤ → Bool
before bid a b = ltb_ℤ b a
before ask a b = ltb_ℤ a b

-- The price test of an incoming order on side `s` with limit `px`, at a book price `b`.
unfoldable pub crosses : Side → ℤ → ℤ → Bool
crosses bid px b = leb_ℤ b px
crosses ask px b = leb_ℤ px b

abbrev pub is_empty {ℓ} : {A : Type ℓ} → List A → Bool
is_empty [] = true
is_empty (_ ∷ _) = false

unfoldable pub add_level : ℕ → Level → ℕ
add_level n [] = n
add_level n (o ∷ lvl) = add_level (add64 n o.qty) lvl

unfoldable pub walk : (ℤ → Bool) → ℕ → BookSide → ℕ
walk c n [] = n
walk c n ((px, lvl) ∷ rest) = if c px then walk c (add_level n lvl) rest else n

pub record LevelFill : Type 0 where
  pub orders : Level
  pub filled : ℕ
  pub trades : List Trade

pub record SideFill : Type 0 where
  pub levels : BookSide
  pub filled : ℕ
  pub trades : List Trade

-- The inner loop of `match`. An order that keeps some quantity was filled by all that was still
-- wanted, so the loop's test fails next.
unfoldable pub fill_level : ℕ → ℤ → ℕ → ℕ → Level → LevelFill
fill_level taker px want filled [] = record { orders = []; filled = filled; trades = [] }
fill_level taker px want filled (top ∷ lvl) =
    let take = min top.qty (sub32 want filled) in
    let left = sub32 top.qty take in
    let filled' = add32 filled take in
    let trade : Trade = record { taker = taker; maker = top.id; px = px; qty = take } in
    let rest = fill_level taker px want filled' lvl in
    if ltb filled want
    then (if left == 0 then record rest { trades = trade ∷ rest.trades } else record {
      orders = record top { qty = left } ∷ lvl;
      filled = filled';
      trades = trade ∷ [];
    })
    else record { orders = top ∷ lvl; filled = filled; trades = [] }

-- The outer loop, from the quantity filled so far. A level that keeps orders ends it likewise.
unfoldable pub match_from : ℕ → ℕ → (ℤ → Bool) → ℕ → BookSide → SideFill
match_from taker want c filled [] = record { levels = []; filled = filled; trades = [] }
match_from taker want c filled ((px, lvl) ∷ rest) =
    let f = fill_level taker px want filled lvl in
    let more = match_from taker want c f.filled rest in
    if ltb filled want && c px
    then (if is_empty f.orders
        then record more { trades = f.trades ++ more.trades }
        else record { levels = (px, f.orders) ∷ rest; filled = f.filled; trades = f.trades })
    else record { levels = (px, lvl) ∷ rest; filled = filled; trades = [] }

unfoldable pub match_side : ℕ → ℕ → (ℤ → Bool) → BookSide → SideFill
match_side taker want c levels = match_from taker want c 0 levels

-- `side[px].push_back(o)`.
unfoldable pub push_back : Side → ℤ → RestingOrder → BookSide → BookSide
push_back s px o [] = (px, o ∷ []) ∷ []
push_back s px o ((p, lvl) ∷ rest) =
    if eqb_ℤ p px
    then (p, lvl ++ o ∷ []) ∷ rest
    else if before s px p
    then (px, o ∷ []) ∷ (p, lvl) ∷ rest
    else (p, lvl) ∷ push_back s px o rest

abbrev pub front_price : BookSide → ℤ
front_price [] = no_price
front_price ((px, _) ∷ _) = px

-- `lvl.erase(oit)` at the first order with the id; `none` if there is none.
unfoldable pub erase_level : ℕ → Level → Option Level
erase_level id [] = none
erase_level id (o ∷ lvl) =
    if o.id == id
    then some lvl
    else elim (erase_level id lvl) [ none ↦ none | some lvl' ↦ some (o ∷ lvl') ]

-- `none` where the code returns false.
unfoldable pub erase_from : ℕ → BookSide → Option BookSide
erase_from id [] = none
erase_from id ((px, lvl) ∷ rest) = elim (erase_level id lvl) [
  | some [] ↦ some rest
  | some (o ∷ lvl') ↦ some ((px, o ∷ lvl') ∷ rest)
  | none ↦ elim (erase_from id rest) [ none ↦ none | some rest' ↦ some ((px, lvl) ∷ rest') ]
]

unfoldable pub find_level : ℕ → Level → Option RestingOrder
find_level id [] = none
find_level id (o ∷ lvl) = if o.id == id then some o else find_level id lvl

-- The order with the id and its price.
unfoldable pub find : ℕ → BookSide → Option (RestingOrder × ℤ)
find id [] = none
find id ((px, lvl) ∷ rest) = elim (find_level id lvl) [
  | some o ↦ some (o, px)
  | none ↦ find id rest
]

-- The write `f.order->qty = new_qty` through the pointer that `find` gave.
unfoldable pub amend_level : ℕ → ℕ → Level → Level
amend_level id qty [] = []
amend_level id qty (o ∷ lvl) =
    if o.id == id then record o { qty = qty } ∷ lvl else o ∷ amend_level id qty lvl

unfoldable pub amend : ℕ → ℕ → BookSide → BookSide
amend id qty [] = []
amend id qty ((px, lvl) ∷ rest) = elim (find_level id lvl) [
  | some _ ↦ (px, amend_level id qty lvl) ∷ rest
  | none ↦ (px, lvl) ∷ amend id qty rest
]

unfoldable pub erased : ℕ → BookSide → BookSide
erased id levels = elim (erase_from id levels) [ some levels' ↦ levels' | none ↦ levels ]

unfoldable pub sum_at : ℤ → BookSide → ℕ
sum_at px [] = 0
sum_at px ((p, lvl) ∷ rest) = if eqb_ℤ p px then add_level 0 lvl else sum_at px rest

unfoldable pub count_orders : ℕ → BookSide → ℕ
count_orders n [] = n
count_orders n ((_, lvl) ∷ rest) = count_orders (n + length lvl) rest

unfoldable pub any_empty : BookSide → Bool
any_empty [] = false
any_empty ((_, lvl) ∷ rest) = is_empty lvl || any_empty rest

-- `none` is the null pointer: no violation found.
