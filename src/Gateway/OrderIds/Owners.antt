-- ===== src/Gateway/OrderIds/Owners.antt =====
-- What OrderIds of net/gateway.hpp lets a client name, and when an order is forgotten.
use limit_order_book.Base.{
  ℕ, ◌-◌, ◌<◌, ◌≤◌, ◌^◌, ◌≡◌, refl, sym, ap, subst, ◌∙◌, true, false, none, some, inl, inr, arith,
  ◌==◌, lookup, remove, lookup-assign, lookup-assign_other, lookup-remove, lookup-remove_other,
  Bool-cases, Option-cases, sub32, sub32-eq,
}
use limit_order_book.Gateway.OrderIds.{
  ClientKey, same_key, unordered, Live, key_of, OrderIds, find, forget, fill,
}
use limit_order_book.Gateway.OrderIds.Links.{
  IsLinked, IsLive, Names, reopened, same_key_itself, same_key_reads, same_id_itself, same_id_reads,
  other_key,
}

find-Names :
    (owner client id : ℕ) (ids : OrderIds)
    → find owner client ids ≡ id
    → 0 < id
    → Names ids (record { owner = owner; client = client }) id
unfolding find
find-Names owner client id ids e p =
    let k : ClientKey = record { owner = owner; client = client } in
    elim (Option-cases (lookup same_key k ids.by_client)) [
      | inl n ↦ absurd (omega (arith, rw n at e))
      | inr (i, n) ↦ let i_id : i ≡ id = rw n at e in n ∙ ap (λ x. some x) i_id
    ]

Names-find :
    (owner client id : ℕ) (ids : OrderIds)
    → Names ids (record { owner = owner; client = client }) id
    → find owner client ids ≡ id
unfolding find
Names-find owner client id ids e = rw e refl

-- While the two maps are linked, an engine id that find answers to one connection's id for an order
-- is answered to no other connection and for no other id: a client cannot name another client's
-- order.
pub find_apart :
    (owner client owner' client' id : ℕ) (ids : OrderIds)
    → IsLinked ids
    → 0 < id
    → find owner client ids ≡ id
    → find owner' client' ids ≡ id
    → (owner ≡ owner') × (client ≡ client')
find_apart owner client owner' client' id ids v p e e' =
    let (l, lives, key) = v.forward _ id (find-Names owner client id ids e p) in
    let (l', lives', key') = v.forward _ id (find-Names owner' client' id ids e' p) in
    let same : l ≡ l' = cc (lives, lives') in
    let keys = sym key ∙ ap (λ x. key_of x) same ∙ key' in
    (ap (λ k. k.owner) keys, ap (λ k. k.client) keys)

-- What a fill of `qty` leaves of the order `id`, and of the orders beside it.
pub record Filled (id : ℕ) (l : Live) (qty : ℕ) (ids ids' : OrderIds) : Type 0 where
  pub part :
      qty < l.open_qty
      → IsLive ids' id (record l { open_qty = l.open_qty - qty })
        × (find l.owner l.client ids' ≡ id)
  pub whole :
      qty ≡ l.open_qty → (lookup ◌==◌ id ids'.live ≡ none) × (find l.owner l.client ids' ≡ 0)
  pub others :
      (i : ℕ) (o : Live)
      → (id == i) ≡ false
      → IsLive ids i o
      → IsLive ids' i o × (find o.owner o.client ids' ≡ i)

module _ (ids : OrderIds) (v : IsLinked ids) (id : ℕ) (l : Live) (lives : IsLive ids id l) (qty : ℕ)
    (le : qty ≤ l.open_qty) (w : l.open_qty < 2 ^ 32) where
  left : sub32 l.open_qty qty ≡ l.open_qty - qty
  left = sub32-eq l.open_qty qty le w

  opened : OrderIds
  opened = reopened ids id l (sub32 l.open_qty qty)

  found_live : lookup ◌==◌ id opened.live ≡ some (record l { open_qty = sub32 l.open_qty qty })
  unfolding opened reopened
  found_live = lookup-assign ◌==◌ same_id_itself same_id_reads unordered id _ ids.live

  kept_live : (i : ℕ) (o : Live) → (id == i) ≡ false → IsLive ids i o → IsLive opened i o
  unfolding opened reopened
  kept_live i o d e =
      lookup-assign_other ◌==◌ same_id_itself same_id_reads unordered id i _ ids.live d ∙ e

  kept_name : (i : ℕ) (o : Live) → IsLive ids i o → find o.owner o.client opened ≡ i
  unfolding opened reopened
  kept_name i o e = Names-find o.owner o.client i opened (v.backward i o e)

  fill-part : (sub32 l.open_qty qty == 0) ≡ false → fill id qty ids ≡ opened
  unfolding fill opened reopened
  fill-part z = rw (lives, fill, z) refl

  -- The maps without the order.
  emptied : OrderIds
  emptied = record opened {
    by_client = remove same_key (key_of l) opened.by_client;
    live = remove ◌==◌ id opened.live;
  }

  forget-opened : (forget id opened).0 ≡ emptied
  unfolding forget emptied
  forget-opened = rw (found_live, forget) refl

  fill-whole : (sub32 l.open_qty qty == 0) ≡ true → fill id qty ids ≡ emptied
  unfolding fill reopened
  fill-whole z =
      subst (λ x. fill id qty ids ≡ x) forget-opened
        (unfold opened reopened in rw (lives, fill, z) refl)

  emptied_key : (i : ℕ) (o : Live) → (id == i) ≡ false → IsLive ids i o → Names emptied (key_of o) i
  unfolding emptied opened reopened
  emptied_key i o d e =
      lookup-remove_other same_key same_key_itself same_key_reads (key_of l) (key_of o)
        ids.by_client (other_key ids v id (key_of l) (inl (v.backward id l lives)) i o d e)
      ∙ v.backward i o e

  emptied_live : (i : ℕ) (o : Live) → (id == i) ≡ false → IsLive ids i o → IsLive emptied i o
  unfolding emptied
  emptied_live i o d e =
      lookup-remove_other ◌==◌ same_id_itself same_id_reads id i opened.live d ∙ kept_live i o d e

  emptied-find : find l.owner l.client emptied ≡ 0
  unfolding find emptied opened reopened
  emptied-find = rw (lookup-remove same_key same_key_itself same_key_reads) refl

  -- While the two maps are linked, a fill of a live order by no more than its open quantity, which
  -- is below 2^32, leaves the order live under its name with the rest open, or forgets it from both
  -- maps when nothing is left open; every other live order stays as it is and keeps its name.
  pub fill-Filled : Filled id l qty ids (fill id qty ids)
  fill-Filled = elim (Bool-cases (sub32 l.open_qty qty == 0)) [
    | inr z ↦
        let some_left : 0 < l.open_qty - qty = ground (arith, left) in
        rw (fill-part z) (record {
          part = λ p. (
            subst (λ n. IsLive opened id (record l { open_qty = n })) left found_live,
            kept_name id l lives,
          );
          whole = λ e. absurd (omega arith);
          others = λ i o d e. (kept_live i o d e, kept_name i o e);
        })
    | inl z ↦
        let none_left : l.open_qty - qty ≡ 0 = ground (arith, left) in
        rw (fill-whole z) (record {
          part = λ p. absurd (omega arith);
          whole = λ e. (
            unfold emptied in lookup-remove ◌==◌ same_id_itself same_id_reads id opened.live,
            emptied-find,
          );
          others = λ i o d e.
              (emptied_live i o d e, Names-find o.owner o.client i emptied (emptied_key i o d e));
        })
  ]
