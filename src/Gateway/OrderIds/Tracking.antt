-- ===== src/Gateway/OrderIds/Tracking.antt =====
-- OrderIds of net/gateway.hpp while an engine is at work: the id meant for an order stays free for it.
use limit_order_book.Base.{
  ℕ, ◌+◌, add64, add64-eq, ◌<◌, ◌≤◌, ◌^◌, ◌≡◌, refl, sym, ap, subst, ◌∙◌, false, none, ◌⊎◌, inl,
  inr, arith, ◌==◌, lookup, remove, lookup-assign_other, lookup-remove, lookup-remove_other,
  lookup-remove-none, Bool-cases, Option-cases, sub32,
}
use limit_order_book.Gateway.OrderIds.{
  assign_id, find, ClientKey, same_key, unordered, Live, key_of, OrderIds, forget, fill,
}
use limit_order_book.Gateway.OrderIds.Links.{
  IsLinked, IsLive, Fits, same_key_itself, same_key_reads, same_id_itself, same_id_reads, other_key,
  forget-IsLinked, reopened, reopened-IsLinked,
}

-- What holds of a key and the id meant for it while an engine is at work.
pub record IsTracked (k : ClientKey) (id : ℕ) (ids : OrderIds) : Type 0 where
  pub linked : IsLinked ids
  pub fits : Fits ids k id
  pub given : id ≤ ids.last

module _ (k : ClientKey) (id : ℕ) where
  forget-last : (i : ℕ) (ids : OrderIds) → (forget i ids).0.last ≡ ids.last
  unfolding forget
  forget-last i ids = elim (Option-cases (lookup ◌==◌ i ids.live)) [
    | inl e ↦ rw (e, forget) refl
    | inr (l, e) ↦ rw (e, forget) refl
  ]

  forget-Fits : (i : ℕ) (ids : OrderIds) → IsLinked ids → Fits ids k id → Fits (forget i ids).0 k id
  unfolding forget
  forget-Fits i ids v f = elim (Option-cases (lookup ◌==◌ i ids.live)) [
    | inl e ↦ rw (e, forget) f
    | inr (l, e) ↦ rw (e, forget) (without l e f)
  ]
    where
      without :
          (l : Live)
          → IsLive ids i l
          → Fits ids k id
          → Fits
              (record ids {
                by_client = remove same_key (key_of l) ids.by_client;
                live = remove ◌==◌ i ids.live;
              })
              k
              id
      without l e (inr (free_k, free_id)) = inr (
        lookup-remove-none same_key same_key_itself same_key_reads (key_of l) k ids.by_client
            free_k,
        lookup-remove-none ◌==◌ same_id_itself same_id_reads i id ids.live free_id,
      )
      without l e (inl named) =
          let (l', lives, key) = v.forward k id named in
          elim (Bool-cases (i == id)) [
            | inr d ↦
                let apart : same_key (key_of l) (key_of l') ≡ false =
                  other_key ids v i (key_of l) (inl (v.backward i l e)) id l' d lives in
                inl (
                  lookup-remove_other same_key same_key_itself same_key_reads (key_of l) k
                    ids.by_client (subst (λ x. same_key (key_of l) x ≡ false) key apart)
                  ∙ named)
            | inl s ↦
                let i_id = same_id_reads i id s in
                let same_live : l ≡ l' = cc (e, lives, i_id) in
                let l_k : key_of l ≡ k = ap (λ x. key_of x) same_live ∙ key in
                inr (
                  subst (λ x. lookup same_key k (remove same_key x ids.by_client) ≡ none) (sym l_k)
                      (lookup-remove same_key same_key_itself same_key_reads k ids.by_client),
                  subst (λ x. lookup ◌==◌ id (remove ◌==◌ x ids.live) ≡ none) (sym i_id)
                      (lookup-remove ◌==◌ same_id_itself same_id_reads id ids.live),
                )
          ]

  reopened-Fits :
      (ids : OrderIds) (i : ℕ) (l : Live) (open_qty : ℕ)
      → IsLive ids i l
      → Fits ids k id
      → Fits (reopened ids i l open_qty) k id
  unfolding reopened
  reopened-Fits ids i l open_qty e (inl named) = inl named
  reopened-Fits ids i l open_qty e (inr (free_k, free_id)) = elim (Bool-cases (i == id)) [
    | inl s ↦ absurd (cc (e, free_id, same_id_reads i id s))
    | inr d ↦ inr (
      free_k,
      lookup-assign_other ◌==◌ same_id_itself same_id_reads unordered i id _ ids.live d ∙ free_id,
    )
  ]

  pub forget-IsTracked :
      (i : ℕ) (ids : OrderIds) → IsTracked k id ids → IsTracked k id (forget i ids).0
  forget-IsTracked i ids t = record {
    linked = forget-IsLinked ids i t.linked;
    fits = forget-Fits i ids t.linked t.fits;
    given = rw (forget-last i ids) t.given;
  }

  pub fill-IsTracked :
      (i qty : ℕ) (ids : OrderIds) → IsTracked k id ids → IsTracked k id (fill i qty ids)
  unfolding fill reopened
  fill-IsTracked i qty ids t = elim (Option-cases (lookup ◌==◌ i ids.live)) [
    | inl e ↦ rw (e, fill) t
    | inr (l, e) ↦
        let open_qty = sub32 l.open_qty qty in
        let t' : IsTracked k id (reopened ids i l open_qty) = record {
          linked = reopened-IsLinked ids i l open_qty t.linked e;
          fits = reopened-Fits ids i l open_qty e t.fits;
          given = t.given;
        } in
        elim (Bool-cases (open_qty == 0)) [
          | inl z ↦ rw (e, fill, z) (forget-IsTracked i (reopened ids i l open_qty) t')
          | inr z ↦ rw (e, fill, z) t'
        ]
  ]

-- What `find` and `assign_id` answer: 0, or an id that the owner's order may rest under.
abbrev pub Answers : ClientKey → ℕ → OrderIds → Type 0
Answers k id ids = (id ≡ 0) ⊎ ((0 < id) × IsTracked k id ids)

pub find-Answers :
    (owner client : ℕ) (ids : OrderIds)
    → IsLinked ids
    → Answers (record { owner = owner; client = client }) (find owner client ids) ids
unfolding find
find-Answers owner client ids v =
    let k : ClientKey = record { owner = owner; client = client } in
    elim (Option-cases (lookup same_key k ids.by_client)) [
      | inl e ↦ inl (rw e refl)
      | inr (id, e) ↦
          let (l, lives, _) = v.forward k id e in
          let given = v.issued id l lives in
          inr (rw e (given.0, record { linked = v; fits = inl e; given = given.1 }))
    ]

later : OrderIds → OrderIds
later ids = record ids { last = add64 ids.last 1 }

module _ (ids : OrderIds) (v : IsLinked ids) (room : ids.last + 1 < 2 ^ 64) where
  later-last : (later ids).last ≡ ids.last + 1
  unfolding later
  later-last = add64-eq ids.last 1 room

  later-IsLinked : IsLinked (later ids)
  unfolding later
  later-IsLinked = record {
    forward = v.forward;
    backward = v.backward;
    issued = λ id l e. let given = v.issued id l e in omega (arith, later-last);
  }

  fresh_id : lookup ◌==◌ (ids.last + 1) ids.live ≡ none
  fresh_id = elim (Option-cases (lookup ◌==◌ (ids.last + 1) ids.live)) [
    | inl e ↦ e
    | inr (l, e) ↦ let given = v.issued (ids.last + 1) l e in absurd (omega arith)
  ]

  pub assign_id-Answers :
      (owner client : ℕ)
      → let (ids', id) = assign_id owner client ids in
        IsLinked ids' × Answers (record { owner = owner; client = client }) id ids'
  unfolding assign_id find later
  assign_id-Answers owner client =
      let k : ClientKey = record { owner = owner; client = client } in
      elim (Bool-cases (client == 0)) [
        | inl z ↦ rw z (v, inl refl)
        | inr z ↦ elim (Option-cases (lookup same_key k ids.by_client)) [
          | inl e ↦
              rw (z, e)
                (
                  later-IsLinked,
                  inr (
                    omega (arith, later-last),
                    record {
                      linked = later-IsLinked;
                      fits = inr (e, rw later-last fresh_id);
                      given = omega arith;
                    },
                  ),
                )
          | inr (id, e) ↦
              let (l, lives, _) = v.forward k id e in
              let given = v.issued id l lives in
              let known : (id == 0) ≡ false = ground arith in rw (z, e, known) (v, inl refl)
        ]
      ]
