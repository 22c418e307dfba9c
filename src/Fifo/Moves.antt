-- ===== src/Fifo/Moves.antt =====
-- What unlinking, linking and filling an order do to the queue that its level stands for.
use limit_order_book.Base.{
  ℕ, ◌%◌, ◌^◌, ◌<◌, ◌≡◌, refl, sym, ap, subst, ◌∙◌, ℤ, false, List, [], ◌∷◌, ◌++◌, arith, All, ◌==◌,
  if◌then◌else◌, length, length-append, add64, append-nil,
}
use limit_order_book.Types.{Side}
use limit_order_book.Fifo.{
  Ptr, null, Order, Level, Heap, write, set_next, set_prev, unlink_order, unlink, link, sub64,
  down32, up32,
}
use limit_order_book.Fifo.Cells.{
  Cell, front, back, node, level_of, sum_qty, sum_qty-append, back-append, Avoids, AreReal,
  AreApart, AreReal-append_left, AreReal-append_right, AreApart-append_left, AreApart-append_right,
  Avoids-append_left, Avoids-append_right, apart_middle, apart_without, back_real, back_differs,
}
use limit_order_book.Fifo.Links.{
  AreLinked, AreLinked-frame, AreLinked-write, linked_split, linked_join, relink_next, relink_prev,
  write-same, write-other,
}

pub level_path :
    {hd hd' tl tl' : Ptr} {q q' n n' : ℕ} {px : ℤ}
    → hd ≡ hd'
    → tl ≡ tl'
    → q ≡ q'
    → n ≡ n'
    → ◌≡◌ {A = Level}
        (record { head = hd; tail = tl; total_qty = q; count = n; price = px })
        (record { head = hd'; tail = tl'; total_qty = q'; count = n'; price = px })
level_path {px} a b c d =
    λ i. record { head = a i; tail = b i; total_qty = c i; count = d i; price = px }

set_next_real :
    (p q : Ptr) (h : Heap) → 0 < p → set_next p q h ≡ write p (record (h p) { next = q }) h
unfolding set_next
set_next_real p q h r = let some_ptr : (p == 0) ≡ false = ground arith in rw some_ptr refl

set_prev_real :
    (p q : Ptr) (h : Heap) → 0 < p → set_prev p q h ≡ write p (record (h p) { prev = q }) h
unfolding set_prev
set_prev_real p q h r = let some_ptr : (p == 0) ≡ false = ground arith in rw some_ptr refl

set_next-frame :
    (xs : List Cell) (n q : Ptr) (h : Heap)
    → AreReal xs
    → Avoids q xs
    → set_next (back null xs) n h q ≡ h q
set_next-frame [] n q h r a = unfold set_next back in refl
set_next-frame (x ∷ xs) n q h r a =
    ap (λ (g : Heap). g q) (set_next_real _ n h (back_real x xs null r))
    ∙ write-other _ q _ h (λ e. back_differs x xs null q a (sym e))

set_prev-frame :
    (ys : List Cell) (n q : Ptr) (h : Heap)
    → AreReal ys
    → Avoids q ys
    → set_prev (front ys null) n h q ≡ h q
unfolding front
set_prev-frame [] n q h r a = unfold set_prev in refl
set_prev-frame (y ∷ ys) n q h r a =
    ap (λ (g : Heap). g q) (set_prev_real y.ptr n h r.0)
    ∙ write-other y.ptr q _ h (λ e. a.0 (sym e))

-- No cell of the right is the last of the left, and none of the left the first of the right.
frame_right :
    (xs ys : List Cell) (n : Ptr) (h : Heap)
    → AreReal xs
    → AreApart (xs ++ ys)
    → All (λ c. set_next (back null xs) n h c.ptr ≡ h c.ptr) ys
frame_right xs [] n h r a = tt
frame_right xs (y ∷ ys) n h r a = (
  set_next-frame xs n y.ptr h r (apart_middle xs y ys a),
  frame_right xs ys n h r (apart_without xs y ys a),
)

frame_left :
    (xs ys : List Cell) (n : Ptr) (h : Heap)
    → AreReal ys
    → AreApart (xs ++ ys)
    → All (λ c. set_prev (front ys null) n h c.ptr ≡ h c.ptr) xs
frame_left [] ys n h r a = tt
frame_left (x ∷ xs) ys n h r a = (
  set_prev-frame ys n x.ptr h r (Avoids-append_right x.ptr xs ys a.0),
  frame_left xs ys n h r a.1,
)

module _ (s : Side) (px : ℤ) where
  set_next-AreLinked :
      (h : Heap) (xs : List Cell) (stop other : Ptr)
      → AreReal xs
      → AreApart xs
      → AreLinked h s px null xs stop
      → AreLinked (set_next (back null xs) other h) s px null xs other
  set_next-AreLinked h [] stop other r a l = tt
  set_next-AreLinked h (x ∷ xs) stop other r a l =
      subst (λ (g : Heap). AreLinked g s px null (x ∷ xs) other)
        (sym (set_next_real _ other h (back_real x xs null r)))
        (relink_next s px h null x xs stop other a l)

  set_prev-AreLinked :
      (h : Heap) (prev other : Ptr) (ys : List Cell)
      → AreReal ys
      → AreApart ys
      → AreLinked h s px prev ys null
      → AreLinked (set_prev (front ys null) other h) s px other ys null
  unfolding front
  set_prev-AreLinked h prev other [] r a l = tt
  set_prev-AreLinked h prev other (y ∷ ys) r a l =
      subst (λ (g : Heap). AreLinked g s px other (y ∷ ys) null)
        (sym (set_prev_real y.ptr other h r.0)) (relink_prev s px h prev other y ys null a l)

module _ (xs : List Cell) (c : Cell) (ys : List Cell) where
  unlink-head :
      AreReal xs
      → (if back null xs == null then front ys null else front (xs ++ c ∷ ys) null)
        ≡ front (xs ++ ys) null
  unlink-head r = by_left xs r
    where
      by_left :
          (xs : List Cell)
          → AreReal xs
          → (if back null xs == null then front ys null else front (xs ++ c ∷ ys) null)
            ≡ front (xs ++ ys) null
      by_left [] r = unfold back in refl
      by_left (x ∷ xs) r =
          let p = back_real x xs null r in
          let some_ptr : (back null (x ∷ xs) == null) ≡ false = ground arith in
          rw some_ptr (unfold front in refl)

  unlink-tail :
      AreReal ys
      → (if front ys null == null then back null xs else back null (xs ++ c ∷ ys))
        ≡ back null (xs ++ ys)
  unlink-tail r = by_right ys r
    where
      by_right :
          (ys : List Cell)
          → AreReal ys
          → (if front ys null == null then back null xs else back null (xs ++ c ∷ ys))
            ≡ back null (xs ++ ys)
      by_right [] r = rw append-nil (unfold front in refl)
      by_right (y ∷ ys) r =
          let p = r.0 in
          let some_ptr : (front (y ∷ ys) null == null) ≡ false = unfold front in ground arith in
          rw (some_ptr, back-append, back-append) (unfold back in refl)

  unlink-total :
      c.qty < 2 ^ 32 → sub64 (sum_qty (xs ++ c ∷ ys) % 2 ^ 64) c.qty ≡ sum_qty (xs ++ ys) % 2 ^ 64
  unfolding sub64 sum_qty
  unlink-total w = omega (arith, sum_qty-append xs (c ∷ ys), sum_qty-append xs ys)

  unlink-count : down32 (length (xs ++ c ∷ ys) % 2 ^ 32) ≡ length (xs ++ ys) % 2 ^ 32
  unfolding down32
  unlink-count = omega (arith, length-append xs (c ∷ ys), length-append xs ys)

module _ (cs : List Cell) (c : Cell) where
  link-head :
      AreReal cs
      → (if back null cs == null then c.ptr else front cs null) ≡ front (cs ++ c ∷ []) null
  link-head r = by_cells cs r
    where
      by_cells :
          (cs : List Cell)
          → AreReal cs
          → (if back null cs == null then c.ptr else front cs null) ≡ front (cs ++ c ∷ []) null
      by_cells [] r = unfold back front in refl
      by_cells (x ∷ xs) r =
          let p = back_real x xs null r in
          let some_ptr : (back null (x ∷ xs) == null) ≡ false = ground arith in
          rw some_ptr (unfold front in refl)

  link-tail : c.ptr ≡ back null (cs ++ c ∷ [])
  link-tail = rw back-append (unfold back in refl)

  link-total : add64 (sum_qty cs % 2 ^ 64) c.qty ≡ sum_qty (cs ++ c ∷ []) % 2 ^ 64
  unfolding add64 sum_qty
  link-total = omega (arith, sum_qty-append cs (c ∷ []))

  link-count : up32 (length cs % 2 ^ 32) ≡ length (cs ++ c ∷ []) % 2 ^ 32
  unfolding up32
  link-count = omega (arith, length-append cs (c ∷ []))

-- A level and a heap after a step, where the queue is `cs`: what else is in the heap is as before.
pub record Queued (s : Side) (px : ℤ) (cs : List Cell) (h : Heap) (r : Level × Heap) : Type 0 where
  pub level : r.0 ≡ level_of px cs
  pub links : AreLinked r.1 s px null cs null
  pub same : (q : Ptr) → Avoids q cs → r.1 q ≡ h q

module _ (s : Side) (px : ℤ) (h : Heap) where
  unlink_order-Queued :
      (xs : List Cell) (c : Cell) (ys : List Cell)
      → AreReal (xs ++ c ∷ ys)
      → AreApart (xs ++ c ∷ ys)
      → c.qty < 2 ^ 32
      → AreLinked h s px null xs c.ptr
      → AreLinked h s px c.ptr ys null
      → Queued s px
          (xs ++ ys)
          h
          (unlink_order (level_of px (xs ++ c ∷ ys)) (node s px (back null xs) (front ys null) c) h)
  unfolding unlink_order
  unlink_order-Queued xs c ys r a w l k =
      let rx = AreReal-append_left xs (c ∷ ys) r in
      let ry = (AreReal-append_right xs (c ∷ ys) r).1 in
      let ax = AreApart-append_left xs (c ∷ ys) a in
      let ay = (AreApart-append_right xs (c ∷ ys) a).1 in
      let apart = apart_without xs c ys a in
      let h1 = set_next (back null xs) (front ys null) h in
      let l1 = set_next-AreLinked s px h xs c.ptr (front ys null) rx ax l in
      let k1 =
        AreLinked-frame s px h h1 c.ptr ys null (frame_right xs ys (front ys null) h rx apart) k in
      let h2 = set_prev (front ys null) (back null xs) h1 in
      record {
        level =
            level_path (unlink-head xs c ys rx) (unlink-tail xs c ys ry) (unlink-total xs c ys w)
              (unlink-count xs c ys);
        links =
            linked_join s px h2 null xs ys null
              (AreLinked-frame s px h1 h2 null xs (front ys null)
                (frame_left xs ys (back null xs) h1 ry apart) l1)
              (set_prev-AreLinked s px h1 c.ptr (back null xs) ys ry ay k1);
        same = λ q out.
            set_prev-frame ys (back null xs) q h1 ry (Avoids-append_right q xs ys out)
            ∙ set_next-frame xs (front ys null) q h rx (Avoids-append_left q xs ys out);
      }

  -- Unlinking an order from the linked queue of its level, wherever it stands, leaves the level and
  -- the links of the queue without it: first, last, total modulo 2^64, count modulo 2^32, and every
  -- next and prev. Orders outside that queue are untouched. Addresses are real and differ, and the
  -- order has less than 2^32.
  pub unlink-Queued :
      (xs : List Cell) (c : Cell) (ys : List Cell)
      → AreReal (xs ++ c ∷ ys)
      → AreApart (xs ++ c ∷ ys)
      → c.qty < 2 ^ 32
      → AreLinked h s px null (xs ++ c ∷ ys) null
      → Queued s px (xs ++ ys) h (unlink (level_of px (xs ++ c ∷ ys)) c.ptr h)
  unfolding unlink
  unlink-Queued xs c ys r a w l =
      let parts = linked_split s px h null xs (c ∷ ys) null l in
      subst
        (λ (o : Order). Queued s px (xs ++ ys) h (unlink_order (level_of px (xs ++ c ∷ ys)) o h))
        (sym parts.1.0) (unlink_order-Queued xs c ys r a w (unfold front in parts.0) parts.1.1)

  -- Linking a new order at an address that the queue does not have puts it at the end of the queue:
  -- the level and all links are those of the longer queue, and orders outside it are untouched.
  pub link-Queued :
      (cs : List Cell) (c : Cell)
      → AreReal cs
      → AreApart cs
      → Avoids c.ptr cs
      → AreLinked h s px null cs null
      → Queued s px
          (cs ++ c ∷ [])
          h
          (link (level_of px cs) c.ptr (node s px (back null cs) null c) h)
  unfolding link
  link-Queued cs c r a out l =
      let o = node s px (back null cs) null c in
      let h1 = write c.ptr o h in
      let l1 = AreLinked-write s px h c.ptr o null cs null out l in
      let h2 = set_next (back null cs) c.ptr h1 in
      let at_end : h2 c.ptr ≡ o = set_next-frame cs c.ptr c.ptr h1 r out ∙ write-same c.ptr o h in
      record {
        level = level_path (link-head cs c r) (link-tail cs c) (link-total cs c) (link-count cs c);
        links =
            linked_join s px h2 null cs (c ∷ []) null
              (unfold front in set_next-AreLinked s px h1 cs null c.ptr r a l1)
              (unfold front in (at_end, tt));
        same = λ q q_out.
            set_next-frame cs c.ptr q h1 r (Avoids-append_left q cs (c ∷ []) q_out)
            ∙ write-other c.ptr q o h (λ e. (Avoids-append_right q cs (c ∷ []) q_out).0 (sym e));
      }
