-- ===== src/OrderBook/Audit/Rounds.antt =====
-- A round of the audit of include/lob/order_book.hpp: one price of the band.
use limit_order_book.Base.{
  ℕ, ◌+◌, ◌<◌, ◌≡◌, refl, ap, ℤ, false, not, Option, List, [], ◌∷◌, All, length, arith, ◌==◌,
  if◌then◌else◌,
}
use limit_order_book.Types.{Side}
use limit_order_book.Fifo.{Ptr, null, Level, Heap}
use limit_order_book.Fifo.Cells.{Cell, front, sum_qty, level_of, AreReal}
use limit_order_book.Fifo.Links.{AreLinked}
use limit_order_book.Engine.Entries.{eqb_itself}
use limit_order_book.Engine.Walking.{Holds}
use limit_order_book.OrderBook.Audit.{passed, Tally, close_level, next_best, audit_level}
use limit_order_book.OrderBook.Audit.Orders.{IsFound, audit_orders-passed}
use limit_order_book.OrderBook.Audit.Levels.{is_nil}

close_level-passed :
    (lvl : Level) (best : ℤ) (t : Tally)
    → lvl.tail ≡ t.prev
    → t.sum ≡ lvl.total_qty
    → t.cnt ≡ lvl.count
    → close_level lvl best (passed t) ≡ passed (best, t.seen)
unfolding close_level
close_level-passed lvl best t a b c = ground arith

-- A level of the ladder that stands for `cs`, with its bit.
module _ (h : Heap) (find : ℕ → Option Ptr) (s : Side) (q : ℤ) (fuel : ℕ) (best : ℤ)
    (seen : ℕ) where
  pub audit_level-passed :
      (cs : List Cell)
      → length cs < fuel
      → AreReal cs
      → All Holds cs
      → All (IsFound find) cs
      → AreLinked h s q null cs null
      → audit_level fuel h find s q (level_of q cs) (not (is_nil cs)) best seen
        ≡ passed (if is_nil cs then best else next_best s q best, seen + length cs)
  unfolding audit_level
  audit_level-passed [] long r w f l =
      let same : seen ≡ seen + 0 = omega arith in
      unfold front sum_qty in ap (λ n. passed (best, n)) same
  audit_level-passed (c ∷ cs) long r w f l =
      let t : Tally = record { prev = null; sum = 0; cnt = 0; seen = seen } in
      let orders =
        audit_orders-passed h find s q fuel (c ∷ cs) t long (omega arith) (omega arith) r w f l in
      let real = r.0 in
      let some_ptr : (front (c ∷ cs) null == null) ≡ false = unfold front in ground arith in
      rw (some_ptr, orders, eqb_itself q)
        (close_level-passed (level_of q (c ∷ cs)) (next_best s q best) _ refl (omega arith)
          (omega arith))
