-- ===== src/Fifo/Fills.antt =====
-- Another quantity for an order, in its place in the queue.
use limit_order_book.Base.{
  ℕ, ◌-◌, ◌%◌, ◌^◌, ◌<◌, ◌≤◌, ◌≡◌, refl, sym, ap, ◌∙◌, ℤ, List, [], ◌∷◌, ◌++◌, arith, length,
  length-append,
}
use limit_order_book.Types.{Side}
use limit_order_book.Fifo.{null, Order, Heap, set_qty, sub64}
use limit_order_book.Fifo.Cells.{
  Cell, front, back, level_of, sum_qty, sum_qty-append, AreApart, apart_middle, back-append,
  Avoids-append_right, AreApart-append_right,
}
use limit_order_book.Fifo.Links.{
  AreLinked, AreLinked-write, linked_split, linked_join, write-same, write-other,
}
use limit_order_book.Fifo.Moves.{Queued, level_path}

abbrev pub with_qty : ℕ → Cell → Cell
with_qty q c = record c { qty = q }

module _ (s : Side) (px : ℤ) (h : Heap) (xs : List Cell) (c : Cell) (ys : List Cell) (q : ℕ) where
  set_qty-AreLinked :
      AreApart (xs ++ c ∷ ys)
      → AreLinked h s px null (xs ++ c ∷ ys) null
      → AreLinked (set_qty c.ptr q h) s px null (xs ++ with_qty q c ∷ ys) null
  unfolding set_qty
  set_qty-AreLinked a l =
      let parts = linked_split s px h null xs (c ∷ ys) null l in
      linked_join s px (set_qty c.ptr q h) null xs (with_qty q c ∷ ys) null
        (unfold front in
          AreLinked-write s px h c.ptr _ null xs c.ptr (apart_middle xs c ys a)
            (unfold front in parts.0))
        (
          write-same c.ptr _ h ∙ ap (λ (o : Order). record o { qty = q }) parts.1.0,
          AreLinked-write s px h c.ptr _ c.ptr ys null (AreApart-append_right xs (c ∷ ys) a).0
              parts.1.1,
        )

  set_qty-head : front (xs ++ c ∷ ys) null ≡ front (xs ++ with_qty q c ∷ ys) null
  set_qty-head = by_left xs
    where
      by_left : (xs : List Cell) → front (xs ++ c ∷ ys) null ≡ front (xs ++ with_qty q c ∷ ys) null
      by_left [] = unfold front in refl
      by_left (x ∷ xs) = unfold front in refl

  set_qty-tail : back null (xs ++ c ∷ ys) ≡ back null (xs ++ with_qty q c ∷ ys)
  set_qty-tail =
      back-append null xs (c ∷ ys) ∙ (unfold back in sym (back-append null xs (with_qty q c ∷ ys)))

  set_qty-total :
      q ≤ c.qty
      → c.qty < 2 ^ 32
      → sub64 (sum_qty (xs ++ c ∷ ys) % 2 ^ 64) (c.qty - q)
        ≡ sum_qty (xs ++ with_qty q c ∷ ys) % 2 ^ 64
  unfolding sub64 sum_qty
  set_qty-total le w =
      omega (arith, sum_qty-append xs (c ∷ ys), sum_qty-append xs (with_qty q c ∷ ys))

  set_qty-count : length (xs ++ c ∷ ys) % 2 ^ 32 ≡ length (xs ++ with_qty q c ∷ ys) % 2 ^ 32
  set_qty-count = omega (arith, length-append xs (c ∷ ys), length-append xs (with_qty q c ∷ ys))

  -- Writing a smaller quantity into an order below 2^32 and taking the difference off the level's
  -- total leaves the level and the links of the queue with that quantity in that place, and orders
  -- outside it untouched.
  pub set_qty-Queued :
      AreApart (xs ++ c ∷ ys)
      → q ≤ c.qty
      → c.qty < 2 ^ 32
      → AreLinked h s px null (xs ++ c ∷ ys) null
      → let lvl = level_of px (xs ++ c ∷ ys) in
        Queued s px
          (xs ++ with_qty q c ∷ ys)
          h
          (record lvl { total_qty = sub64 lvl.total_qty (c.qty - q) }, set_qty c.ptr q h)
  unfolding set_qty
  set_qty-Queued a le w l = record {
    level = level_path set_qty-head set_qty-tail (set_qty-total le w) set_qty-count;
    links = set_qty-AreLinked a l;
    same = λ p out.
        write-other c.ptr p _ h (λ e. (Avoids-append_right p xs (with_qty q c ∷ ys) out).0 (sym e));
  }
