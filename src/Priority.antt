-- ===== src/Priority.antt =====
-- Price-time priority, as a specification that every engine is held to: a side of the book is one
-- queue of offers, best price first and oldest first at a price. There are no levels, no
-- loops over them and no machine words here. README.md, "Semantics".
pub mod Laws
pub mod Market
pub mod Effects
use limit_order_book.Base.{
  ℕ, ◌+◌, ◌-◌, ◌<◌, ℤ, leb_ℤ, ltb_ℤ, Bool, true, false, Option, none, some, List, [], ◌∷◌, ltb,
  ◌==◌, if◌then◌else◌, min, All,
}
use limit_order_book.Types.{Side, bid, ask, Trade}

pub record Offer : Type 0 where
  pub px : ℤ
  pub id : ℕ
  pub qty : ℕ

-- Whether price `a` goes before price `b` among the orders of a side.
abbrev pub better : Side → ℤ → ℤ → Bool
better bid a b = ltb_ℤ b a
better ask a b = ltb_ℤ a b

-- Whether an incoming order on side `s` with limit `px` accepts the price `b`.
abbrev pub accepts : Side → ℤ → ℤ → Bool
accepts bid px b = leb_ℤ b px
accepts ask px b = leb_ℤ px b

unfoldable pub total : List Offer → ℕ
total [] = 0
total (o ∷ q) = o.qty + total q

-- The offers from the front whose price passes the test, and those behind them.
unfoldable pub reach : (ℤ → Bool) → List Offer → List Offer
reach c [] = []
reach c (o ∷ q) = if c o.px then o ∷ reach c q else []

unfoldable pub beyond : (ℤ → Bool) → List Offer → List Offer
beyond c [] = []
beyond c (o ∷ q) = if c o.px then beyond c q else o ∷ q

-- The trades by which a taker takes `n` from the front of a queue.
unfoldable pub fills : ℕ → ℕ → List Offer → List Trade
fills taker n [] = []
fills taker n (o ∷ q) =
    if n == 0
    then []
    else record { taker = taker; maker = o.id; px = o.px; qty = min o.qty n }
      ∷ fills taker (n - o.qty) q

-- The queue that they leave.
unfoldable pub remain : ℕ → List Offer → List Offer
remain n [] = []
remain n (o ∷ q) = if ltb n o.qty then record o { qty = o.qty - n } ∷ q else remain (n - o.qty) q

abbrev pub HasQty : List Offer → Type 0
HasQty = All (λ o. 0 < o.qty)

-- A new offer goes behind every offer that it is not better than.
unfoldable pub join : Side → Offer → List Offer → List Offer
join s o [] = o ∷ []
join s o (x ∷ q) = if better s o.px x.px then o ∷ x ∷ q else x ∷ join s o q

unfoldable pub find_offer : ℕ → List Offer → Option Offer
find_offer id [] = none
find_offer id (o ∷ q) = if o.id == id then some o else find_offer id q

-- The queue without its first offer of that id; `none` if there is none.
unfoldable pub remove_offer : ℕ → List Offer → Option (List Offer)
remove_offer id [] = none
remove_offer id (o ∷ q) =
    if o.id == id
    then some q
    else elim (remove_offer id q) [ none ↦ none | some q' ↦ some (o ∷ q') ]

-- A new quantity for the offer of that id, in its place.
unfoldable pub amend_offer : ℕ → ℕ → List Offer → List Offer
amend_offer id qty [] = []
amend_offer id qty (o ∷ q) =
    if o.id == id then record o { qty = qty } ∷ q else o ∷ amend_offer id qty q
