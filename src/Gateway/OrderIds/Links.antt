-- ===== src/Gateway/OrderIds/Links.antt =====
-- The two maps of OrderIds, net/gateway.hpp, name the same orders.
use limit_order_book.Base.{
  ℕ, ◌<◌, ◌≤◌, ◌≡◌, sym, ap, ap₂, subst, ◌∙◌, true, false, none, some, ◌⊎◌, inl, inr, List, arith,
  ◌==◌, lookup, assign, lookup-assign, lookup-assign_other, lookup-assign_cases,
  lookup-remove_other, lookup-remove_cases, Bool-cases, Option-cases, sub32,
}
use limit_order_book.Gateway.OrderIds.{
  ClientKey, same_key, less_key, unordered, Live, key_of, OrderIds, new, rest, forget, fill,
}

pub same_key_itself : (k : ClientKey) → same_key k k ≡ true
same_key_itself k = ground arith

pub same_key_reads : (j k : ClientKey) → same_key j k ≡ true → j ≡ k
same_key_reads j k e =
    let owners : j.owner ≡ k.owner = ground arith in
    let clients : j.client ≡ k.client = ground arith in
    ap₂ {C = ClientKey} (λ o c. record { owner = o; client = c }) owners clients

pub same_id_itself : (k : ℕ) → (k == k) ≡ true
same_id_itself k = ground arith

pub same_id_reads : (j k : ℕ) → (j == k) ≡ true → j ≡ k
same_id_reads j k e = ground arith

-- The client's key stands for the engine id.
abbrev pub Names : OrderIds → ClientKey → ℕ → Type 0
Names ids k id = lookup same_key k ids.by_client ≡ some id

-- The order with the engine id rests.
abbrev pub IsLive : OrderIds → ℕ → Live → Type 0
IsLive ids id l = lookup ◌==◌ id ids.live ≡ some l

-- Either map leads to the entry of the other, and the ids are those that were given out.
pub record IsLinked (ids : OrderIds) : Type 0 where
  pub forward :
      (k : ClientKey) (id : ℕ) → Names ids k id → (l : Live) × IsLive ids id l × (key_of l ≡ k)
  pub backward : (id : ℕ) (l : Live) → IsLive ids id l → Names ids (key_of l) id
  pub issued : (id : ℕ) (l : Live) → IsLive ids id l → (0 < id) × (id ≤ ids.last)

pub new-IsLinked : IsLinked new
unfolding new lookup
new-IsLinked = record { forward = λ k id e. cc; backward = λ id l e. cc; issued = λ id l e. cc }

-- The key and the id belong together already, or are both unused.
abbrev pub Fits : OrderIds → ClientKey → ℕ → Type 0
Fits ids k id =
    Names ids k id ⊎ ((lookup same_key k ids.by_client ≡ none) × (lookup ◌==◌ id ids.live ≡ none))

module _ (ids : OrderIds) (v : IsLinked ids) (id : ℕ) (k : ClientKey) (fits : Fits ids k id) where
  -- Another key stands for another id.
  other_id : (j : ClientKey) (i : ℕ) → same_key k j ≡ false → Names ids j i → (id == i) ≡ false
  other_id j i d e = elim (Bool-cases (id == i)) [
    | inr n ↦ n
    | inl s ↦
        let (l, lives, key) = v.forward j i e in
        let lives_id : IsLive ids id l = rw (same_id_reads id i s) lives in
        elim fits [
          | inr (_, free) ↦ absurd (cc (free, lives_id))
          | inl named ↦
              let (l', lives', key') = v.forward k id named in
              let same_live : l' ≡ l = cc (lives_id, lives') in
              let k_j : k ≡ j = sym key' ∙ ap (λ x. key_of x) same_live ∙ key in
              absurd (cc (subst (λ x. same_key k x ≡ true) k_j (same_key_itself k), d))
        ]
  ]

  pub other_key :
      (i : ℕ) (l : Live) → (id == i) ≡ false → IsLive ids i l → same_key k (key_of l) ≡ false
  other_key i l d e = elim (Bool-cases (same_key k (key_of l))) [
    | inr n ↦ n
    | inl s ↦
        let named : Names ids k i =
          subst (λ x. Names ids x i) (sym (same_key_reads k (key_of l) s)) (v.backward i l e) in
        elim fits [
          | inr (free, _) ↦ absurd (cc (free, named))
          | inl mine ↦ let id_i : id ≡ i = cc (mine, named) in absurd (ground arith)
        ]
  ]

pub rest-IsLinked :
    (ids : OrderIds) (id : ℕ) (l : Live)
    → IsLinked ids
    → Fits ids (key_of l) id
    → 0 < id
    → id ≤ ids.last
    → IsLinked (rest id l.owner l.client l.open_qty l.side ids)
unfolding rest
rest-IsLinked ids id l v fits some_id given = record {
  forward = λ j i e.
      elim (lookup-assign_cases same_key same_key_itself same_key_reads less_key (key_of l) j id i
        ids.by_client e) [
          | inl (k_j, id_i) ↦ (
            l,
            subst (λ x. lookup ◌==◌ x (lives) ≡ some l) id_i
                (lookup-assign ◌==◌ same_id_itself same_id_reads unordered id l ids.live),
            k_j,
          )
          | inr (d, named) ↦
              let (l', lives', key') = v.forward j i named in
              (
                l',
                lookup-assign_other ◌==◌ same_id_itself same_id_reads unordered id i l ids.live
                      (other_id ids v id (key_of l) fits j i d named)
                    ∙ lives',
                key',
              )
        ];
  backward = λ i l' e.
      elim (lookup-assign_cases ◌==◌ same_id_itself same_id_reads unordered id i l l' ids.live e) [
        | inl (id_i, l_l') ↦
            subst (λ x. lookup same_key (key_of x) named_by ≡ some i) l_l'
              (lookup-assign same_key same_key_itself same_key_reads less_key (key_of l) id
                  ids.by_client
                ∙ ap (λ x. some x) id_i)
        | inr (d, lives) ↦
            lookup-assign_other same_key same_key_itself same_key_reads less_key (key_of l)
              (key_of l') id ids.by_client (other_key ids v id (key_of l) fits i l' d lives)
            ∙ v.backward i l' lives
      ];
  issued = λ i l' e.
      elim (lookup-assign_cases ◌==◌ same_id_itself same_id_reads unordered id i l l' ids.live e) [
        | inl (id_i, _) ↦ omega arith
        | inr (_, lives) ↦ v.issued i l' lives
      ];
}
  where
    lives : List (ℕ × Live)
    lives = assign ◌==◌ unordered id l ids.live

    named_by : List (ClientKey × ℕ)
    named_by = assign same_key less_key (key_of l) id ids.by_client

pub forget-IsLinked : (ids : OrderIds) (id : ℕ) → IsLinked ids → IsLinked (forget id ids).0
unfolding forget
forget-IsLinked ids id v = elim (Option-cases (lookup ◌==◌ id ids.live)) [
  | inl e ↦ rw (e, forget) v
  | inr (l, e) ↦
      rw (e, forget)
        (record {
          forward = λ j i n.
              let (d, named) =
                lookup-remove_cases same_key same_key_itself same_key_reads (key_of l) j i
                  ids.by_client n in
              let (l', lives', key') = v.forward j i named in
              let other : (id == i) ≡ false =
                other_id ids v id (key_of l) (inl (v.backward id l e)) j i d named in
              (
                l',
                lookup-remove_other ◌==◌ same_id_itself same_id_reads id i ids.live other ∙ lives',
                key',
              );
          backward = λ i l' n.
              let (d, lives) =
                lookup-remove_cases ◌==◌ same_id_itself same_id_reads id i l' ids.live n in
              lookup-remove_other same_key same_key_itself same_key_reads (key_of l) (key_of l')
                ids.by_client (other_key ids v id (key_of l) (inl (v.backward id l e)) i l' d lives)
              ∙ v.backward i l' lives;
          issued = λ i l' n.
              v.issued i l'
                (lookup-remove_cases ◌==◌ same_id_itself same_id_reads id i l' ids.live n).1;
        })
]

-- Another open quantity for a live order.
unfoldable pub reopened : (ids : OrderIds) (id : ℕ) (l : Live) (open_qty : ℕ) → OrderIds
reopened ids id l open_qty = record ids {
  live = assign ◌==◌ unordered id (record l { open_qty = open_qty }) ids.live;
}

pub reopened-IsLinked :
    (ids : OrderIds) (id : ℕ) (l : Live) (open_qty : ℕ)
    → IsLinked ids
    → IsLive ids id l
    → IsLinked (reopened ids id l open_qty)
unfolding reopened
reopened-IsLinked ids id l open_qty v e = record {
  forward = λ j i named.
      let (l', lives', key') = v.forward j i named in
      elim (Bool-cases (id == i)) [
        | inl s ↦
            let id_i = same_id_reads id i s in
            let same_live : l ≡ l' = cc (e, lives', id_i) in
            (
              l2,
              subst (λ x. lookup ◌==◌ x lives ≡ some l2) id_i
                  (lookup-assign ◌==◌ same_id_itself same_id_reads unordered id l2 ids.live),
              ap (λ x. key_of x) same_live ∙ key',
            )
        | inr d ↦ (
          l',
          lookup-assign_other ◌==◌ same_id_itself same_id_reads unordered id i l2 ids.live d
              ∙ lives',
          key',
        )
      ];
  backward = λ i l' n.
      elim (lookup-assign_cases ◌==◌ same_id_itself same_id_reads unordered id i l2 l' ids.live n) [
        | inl (id_i, l2_l') ↦
            subst (λ x. Names ids (key_of x) i) l2_l'
              (subst (λ x. Names ids (key_of l) x) id_i (v.backward id l e))
        | inr (_, lives') ↦ v.backward i l' lives'
      ];
  issued = λ i l' n.
      elim (lookup-assign_cases ◌==◌ same_id_itself same_id_reads unordered id i l2 l' ids.live n) [
        | inl (id_i, _) ↦ let given = v.issued id l e in omega arith
        | inr (_, lives') ↦ v.issued i l' lives'
      ];
}
  where
    l2 : Live
    l2 = record l { open_qty = open_qty }

    lives : List (ℕ × Live)
    lives = assign ◌==◌ unordered id l2 ids.live

pub fill-IsLinked : (ids : OrderIds) (id qty : ℕ) → IsLinked ids → IsLinked (fill id qty ids)
unfolding fill reopened
fill-IsLinked ids id qty v = elim (Option-cases (lookup ◌==◌ id ids.live)) [
  | inl e ↦ rw (e, fill) v
  | inr (l, e) ↦
      let open_qty = sub32 l.open_qty qty in
      let v' = reopened-IsLinked ids id l open_qty v e in
      elim (Bool-cases (open_qty == 0)) [
        | inl z ↦ rw (e, fill, z) (forget-IsLinked (reopened ids id l open_qty) id v')
        | inr z ↦ rw (e, fill, z) v'
      ]
]
