-- ===== src/Gateway/OrderIds.antt =====
-- net/gateway.hpp, class OrderIds: the engine ids of the orders that rest, by the connection and by
-- its own id for the order. `by_client_` is a list of entries in the map's order, `live_` one in
-- no order of interest.
pub mod Links
pub mod Tracking
pub mod Owners
use limit_order_book.Base.{
  ℕ, Bool, true, false, ◌&&◌, ◌||◌, Option, none, some, List, [], ◌∷◌, ltb, ◌==◌, if◌then◌else◌,
  add64, sub32, length, lookup, assign, remove,
}
use limit_order_book.Types.{Side}

pub record ClientKey : Type 0 where
  pub owner : ℕ
  pub client : ℕ

abbrev pub same_key : ClientKey → ClientKey → Bool
same_key a b = a.owner == b.owner && a.client == b.client

-- The order of pairs.
abbrev pub less_key : ClientKey → ClientKey → Bool
less_key a b = ltb a.owner b.owner || (a.owner == b.owner && ltb a.client b.client)

abbrev pub unordered : ℕ → ℕ → Bool
unordered a b = false

pub record Live : Type 0 where
  pub owner : ℕ
  pub client : ℕ
  pub open_qty : ℕ
  pub side : Side

abbrev pub key_of : Live → ClientKey
key_of l = record { owner = l.owner; client = l.client }

pub record OrderIds : Type 0 where
  pub by_client : List (ClientKey × ℕ)
  pub live : List (ℕ × Live)
  pub last : ℕ

unfoldable pub new : OrderIds
new = record { by_client = []; live = []; last = 0 }

abbrev pub or_zero : Option ℕ → ℕ
or_zero none = 0
or_zero (some id) = id

-- Engine id of one of this owner's resting orders, or 0.
unfoldable pub find : ℕ → ℕ → OrderIds → ℕ
find owner client ids =
    or_zero (lookup same_key (record { owner = owner; client = client }) ids.by_client)

-- Engine id for a new order, or 0.
unfoldable pub assign_id : ℕ → ℕ → OrderIds → OrderIds × ℕ
assign_id owner client ids =
    if client == 0
    then (ids, 0)
    else if find owner client ids == 0
    then (let last = add64 ids.last 1 in (record ids { last = last }, last))
    else (ids, 0)

unfoldable pub rest : ℕ → ℕ → ℕ → ℕ → Side → OrderIds → OrderIds
rest id owner client open_qty side ids = record ids {
  by_client = assign same_key less_key (record { owner = owner; client = client }) id ids.by_client;
  live =
      assign ◌==◌ unordered id
        (record { owner = owner; client = client; open_qty = open_qty; side = side }) ids.live;
}

unfoldable pub side_of : ℕ → OrderIds → Option Side
side_of id ids = elim (lookup ◌==◌ id ids.live) [ none ↦ none | some l ↦ some l.side ]

unfoldable pub forget : ℕ → OrderIds → OrderIds × ℕ
forget id ids = elim (lookup ◌==◌ id ids.live) [
  | none ↦ (ids, 0)
  | some l ↦ (
    record ids {
      by_client = remove same_key (key_of l) ids.by_client;
      live = remove ◌==◌ id ids.live;
    },
    l.client,
  )
]

-- `it->second.open -= qty` is written back before the test.
unfoldable pub fill : ℕ → ℕ → OrderIds → OrderIds
fill id qty ids = elim (lookup ◌==◌ id ids.live) [
  | none ↦ ids
  | some l ↦
      let open_qty = sub32 l.open_qty qty in
      let ids' = record ids {
        live = assign ◌==◌ unordered id (record l { open_qty = open_qty }) ids.live;
      } in
      if open_qty == 0 then (forget id ids').0 else ids'
]

-- The entries from the first that is not below the owner's, while they are the owner's.
unfoldable pub from_owner : ℕ → List (ClientKey × ℕ) → List (ClientKey × ℕ)
from_owner owner [] = []
from_owner owner ((k, id) ∷ m) =
    if less_key k (record { owner = owner; client = 0 }) then from_owner owner m else (k, id) ∷ m

unfoldable pub while_owner : ℕ → List (ClientKey × ℕ) → List ℕ
while_owner owner [] = []
while_owner owner ((k, id) ∷ m) =
    let ids = while_owner owner m in if k.owner == owner then id ∷ ids else []

pub owned_by : ℕ → OrderIds → List ℕ
owned_by owner ids = while_owner owner (from_owner owner ids.by_client)

pub size : OrderIds → ℕ
size ids = length ids.live
