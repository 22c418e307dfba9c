-- ===== src/Priority/Market.antt =====
-- What each operation of an engine does to the two queues of offers and to the tape of trades.
use limit_order_book.Base.{
  ℕ, ◌-◌, ℤ, pos, ◌+ℤ◌, ◌-ℤ◌, leb_ℤ, ltb_ℤ, eqb_ℤ, Bool, true, false, ◌&&◌, ◌||◌, Option, none,
  some, List, [], ◌∷◌, ◌++◌, ltb, leb, ◌==◌, if◌then◌else◌, min,
}
use limit_order_book.Types.{
  Side, bid, ask, Tif, gtc, no_price, SubmitResult, ModifyResult, Trade, is_gtc, is_fok,
}
use limit_order_book.Priority.{
  Offer, accepts, total, reach, beyond, fills, remain, join, find_offer, remove_offer, amend_offer,
}

pub record Market : Type 0 where
  pub bids : List Offer
  pub asks : List Offer
  pub trades : List Trade

abbrev pub resting : Side → Market → List Offer
resting bid m = m.bids
resting ask m = m.asks

abbrev pub facing : Side → Market → List Offer
facing bid m = m.asks
facing ask m = m.bids

abbrev pub set_resting : Side → List Offer → Market → Market
set_resting bid q m = record m { bids = q }
set_resting ask q m = record m { asks = q }

abbrev pub set_facing : Side → List Offer → List Trade → Market → Market
set_facing bid q ts m = record m { asks = q; trades = m.trades ++ ts }
set_facing ask q ts m = record m { bids = q; trades = m.trades ++ ts }

-- The facing offers that a taker with a price test can have.
abbrev pub within : Side → (ℤ → Bool) → Market → List Offer
within s c m = reach c (facing s m)

-- A taker takes up to `qty` of what is within its reach.
unfoldable pub take_offers : ℕ → Side → (ℤ → Bool) → ℕ → Market → Market
take_offers id s c qty m =
    let q = within s c m in set_facing s (remain qty q ++ beyond c (facing s m)) (fills id qty q) m

abbrev pub taken : Side → (ℤ → Bool) → ℕ → Market → ℕ
taken s c qty m = min qty (total (within s c m))

unfoldable pub post : ℕ → Side → ℤ → ℕ → Market → Market
post id s px qty m = set_resting s (join s (record { px = px; id = id; qty = qty }) (resting s m)) m

abbrev pub rejected : SubmitResult
rejected = record { filled = 0; rested = false; rejected = true }

-- Take what crosses; a good-till-cancel remainder rests.
unfoldable pub enter : ℕ → Side → ℤ → ℕ → Tif → Market → Market × SubmitResult
enter id s px qty tif m =
    let filled = taken s (accepts s px) qty m in
    let m' = take_offers id s (accepts s px) qty m in
    if ltb filled qty && is_gtc tif
    then (
      post id s px (qty - filled) m',
      record { filled = filled; rested = true; rejected = false },
    )
    else (m', record { filled = filled; rested = false; rejected = false })

unfoldable pub submit : ℕ → Side → ℤ → ℕ → Tif → Market → Market × SubmitResult
submit id s px qty tif m =
    if qty == 0 || leb_ℤ px (pos 0)
    then (m, rejected)
    else if is_fok tif && ltb (total (within s (accepts s px) m)) qty
    then (m, rejected)
    else enter id s px qty tif m

abbrev pub best_price : List Offer → ℤ
best_price [] = no_price
best_price (o ∷ _) = o.px

-- How far a protected market order goes through the book past the best price.
abbrev pub limit_price : Side → ℤ → ℤ → ℤ
limit_price bid ref p = ref +ℤ p
limit_price ask ref p = ref -ℤ p

abbrev pub market_test : Side → ℤ → Market → ℤ → Bool
market_test s protection m =
    if ltb_ℤ (pos 0) protection
    then accepts s (limit_price s (best_price (facing s m)) protection)
    else λ _. true

unfoldable pub submit_at_market : ℕ → Side → ℕ → ℤ → Market → Market × ℕ
submit_at_market id s qty protection m =
    let c = market_test s protection m in
    if qty == 0 then (m, 0) else (take_offers id s c qty m, taken s c qty m)

-- `none` where no offer has the id.
unfoldable pub withdraw : ℕ → Market → Option Market
withdraw id m = elim (remove_offer id m.bids) [
  | some q ↦ some (record m { bids = q })
  | none ↦ elim (remove_offer id m.asks) [ some q ↦ some (record m { asks = q }) | none ↦ none ]
]

unfoldable pub removed : ℕ → List Offer → List Offer
removed id q = elim (remove_offer id q) [ some q' ↦ q' | none ↦ q ]

unfoldable pub replace : Side → Offer → ℤ → ℕ → Market → Market × ModifyResult
replace s o px qty m =
    if eqb_ℤ px o.px && leb qty o.qty
    then (
      set_resting s (amend_offer o.id qty (resting s m)) m,
      record { ok = true; filled = 0; rested = true; found = true },
    )
    else (let (m', r) = submit o.id s px qty gtc (set_resting s (removed o.id (resting s m)) m) in
        (m', record { ok = true; filled = r.filled; rested = r.rested; found = true }))

unfoldable pub revise : ℕ → ℤ → ℕ → Market → Market × ModifyResult
revise id px qty m =
    let bad = qty == 0 || leb_ℤ px (pos 0) in
    let refused : ModifyResult = record { ok = false; filled = 0; rested = false; found = true } in
    elim (find_offer id m.bids) [
      | some o ↦ if bad then (m, refused) else replace bid o px qty m
      | none ↦ elim (find_offer id m.asks) [
        | some o ↦ if bad then (m, refused) else replace ask o px qty m
        | none ↦ (m, record { ok = false; filled = 0; rested = false; found = false })
      ]
    ]
