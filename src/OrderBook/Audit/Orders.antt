-- ===== src/OrderBook/Audit/Orders.antt =====
-- The audit of include/lob/order_book.hpp on the linked queue of a level.
use limit_order_book.Base.{
  ℕ, zero, suc, ◌+◌, ◌%◌, ◌^◌, ◌<◌, ◌≡◌, refl, sym, ap, subst, ◌∙◌, ℤ, false, Option, none, some,
  List, [], ◌∷◌, ◌++◌, All, append_assoc, length, arith, lookup, ◌==◌, add64,
}
use limit_order_book.Types.{Side, bid, ask}
use limit_order_book.Fifo.{Ptr, null, Order, Heap, up32}
use limit_order_book.Fifo.Cells.{Cell, front, back, sum_qty, node, AreReal, Differ}
use limit_order_book.Fifo.Links.{AreLinked}
use limit_order_book.Engine.Walking.{keys, Holds}
use limit_order_book.OrderBook.Cancels.{lookup-keys}
use limit_order_book.OrderBook.Audit.{Audit, passed, Tally, order_fault, unless, audit_orders}

-- An order that the index finds at its address.
abbrev pub IsFound : (ℕ → Option Ptr) → Cell → Type 0
IsFound find c = find c.id ≡ some c.ptr

pub lookup-keys-all :
    (xs ys : List Cell)
    → Differ (λ c. c.id) (xs ++ ys)
    → All (λ c. lookup ◌==◌ c.id (keys (xs ++ ys)) ≡ some c.ptr) ys
lookup-keys-all xs [] d = tt
lookup-keys-all xs (c ∷ ys) d =
    let moved = append_assoc xs (c ∷ []) ys in
    (
      lookup-keys xs c ys d,
      subst (λ zs. All (λ c. lookup ◌==◌ c.id (keys zs) ≡ some c.ptr) ys) moved
          (lookup-keys-all (xs ++ c ∷ []) ys (subst (Differ (λ c. c.id)) (sym moved) d)),
    )

node_fault :
    (s : Side) (px : ℤ) (prev next : Ptr) (c : Cell)
    → 0 < c.qty
    → order_fault s px prev (some c.ptr) c.ptr (node s px prev next c) ≡ none
unfolding order_fault
node_fault bid px prev next c some_qty = ground arith
node_fault ask px prev next c some_qty = ground arith

tally_path :
    {p : Ptr} {a a' b b' c c' : ℕ}
    → a ≡ a'
    → b ≡ b'
    → c ≡ c'
    → ◌≡◌ {A = Tally}
        (record { prev = p; sum = a; cnt = b; seen = c })
        (record { prev = p; sum = a'; cnt = b'; seen = c' })
tally_path {p} x y z = λ i. record { prev = p; sum = x i; cnt = y i; seen = z i }

module _ (h : Heap) (find : ℕ → Option Ptr) (s : Side) (px : ℤ) where
  abbrev counted : List Cell → Tally → Tally
  counted cs t = record {
    prev = back t.prev cs;
    sum = (t.sum + sum_qty cs) % 2 ^ 64;
    cnt = (t.cnt + length cs) % 2 ^ 32;
    seen = t.seen + length cs;
  }

  abbrev step : Ptr → Order → ℕ → Tally → Audit Tally
  step p o fuel t = unless (order_fault s px t.prev (find o.id) p o) (
      audit_orders fuel h find s px o.next
        (record { prev = p; sum = add64 t.sum o.qty; cnt = up32 t.cnt; seen = suc t.seen }))

  orders-step :
      (fuel : ℕ) (p : Ptr) (t : Tally)
      → 0 < p
      → audit_orders (suc fuel) h find s px p t ≡ step p (h p) fuel t
  unfolding audit_orders
  orders-step fuel p t real = let some_ptr : (p == null) ≡ false = ground arith in rw some_ptr refl

  pub audit_orders-passed :
      (fuel : ℕ) (cs : List Cell) (t : Tally)
      → length cs < fuel
      → t.sum < 2 ^ 64
      → t.cnt < 2 ^ 32
      → AreReal cs
      → All Holds cs
      → All (IsFound find) cs
      → AreLinked h s px t.prev cs null
      → audit_orders fuel h find s px (front cs null) t ≡ passed (counted cs t)
  unfolding front back sum_qty
  audit_orders-passed zero cs t long a b r q f l = absurd (omega arith)
  audit_orders-passed (suc fuel) [] t long a b r q f l =
      unfold audit_orders in ap passed (tally_path (omega arith) (omega arith) (omega arith))
  audit_orders-passed (suc fuel) (c ∷ cs) t long a b r q f l =
      let t' : Tally = record {
        prev = c.ptr;
        sum = add64 t.sum c.qty;
        cnt = up32 t.cnt;
        seen = suc t.seen;
      } in
      let sum : add64 t.sum c.qty ≡ (t.sum + c.qty) % 2 ^ 64 = unfold add64 in refl in
      let cnt : up32 t.cnt ≡ (t.cnt + 1) % 2 ^ 32 = unfold up32 in refl in
      let rest =
        audit_orders-passed fuel cs t' (omega arith) (omega (arith, sum)) (omega (arith, cnt)) r.1
          q.1 f.1 l.1 in
      let good : order_fault s px t.prev (find c.id) c.ptr (node s px t.prev (front cs null) c)
          ≡ none =
        rw (f.0) (node_fault s px t.prev (front cs null) c q.0.0) in
      orders-step fuel c.ptr t r.0
      ∙ ap (λ o. step c.ptr o fuel t) l.0
      ∙ ap (λ e. unless e (audit_orders fuel h find s px (front cs null) t')) good
      ∙ rest
      ∙ ap passed (tally_path (omega (arith, sum)) (omega (arith, cnt)) (omega arith))
