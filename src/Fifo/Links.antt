-- ===== src/Fifo/Links.antt =====
-- The links of a queue in a heap, and what writes leave of them.
use limit_order_book.Base.{◌≢◌, ◌≡◌, refl, sym, ℤ, List, [], ◌∷◌, ◌++◌, arith, All, ap, ◌∙◌}
use limit_order_book.Types.{Side}
use limit_order_book.Fifo.{Ptr, Order, Heap, write}
use limit_order_book.Fifo.Cells.{Cell, front, back, node, Avoids, AreApart, back_differs}

-- From `prev` the cells are linked up to `stop`.
abbrev pub AreLinked : Heap → Side → ℤ → Ptr → List Cell → Ptr → Type 0
AreLinked h s px prev [] stop = Unit
AreLinked h s px prev (c ∷ cs) stop =
    (h c.ptr ≡ node s px prev (front cs stop) c) × AreLinked h s px c.ptr cs stop

pub write-same : (p : Ptr) (o : Order) (h : Heap) → write p o h p ≡ o
unfolding write
write-same p o h = ground arith

pub write-other : (p q : Ptr) (o : Order) (h : Heap) → q ≢ p → write p o h q ≡ h q
unfolding write
write-other p q o h d = ground arith

module _ (s : Side) (px : ℤ) where
  pub AreLinked-frame :
      (h g : Heap) (prev : Ptr) (cs : List Cell) (stop : Ptr)
      → All (λ c. g c.ptr ≡ h c.ptr) cs
      → AreLinked h s px prev cs stop
      → AreLinked g s px prev cs stop
  AreLinked-frame h g prev [] stop e l = tt
  AreLinked-frame h g prev (c ∷ cs) stop e l =
      (e.0 ∙ l.0, AreLinked-frame h g c.ptr cs stop e.1 l.1)

  pub AreLinked-write :
      (h : Heap) (p : Ptr) (o : Order) (prev : Ptr) (cs : List Cell) (stop : Ptr)
      → Avoids p cs
      → AreLinked h s px prev cs stop
      → AreLinked (write p o h) s px prev cs stop
  AreLinked-write h p o prev [] stop a l = tt
  AreLinked-write h p o prev (c ∷ cs) stop a l =
      (write-other p c.ptr o h a.0 ∙ l.0, AreLinked-write h p o c.ptr cs stop a.1 l.1)

  pub front-append :
      (xs ys : List Cell) (stop : Ptr) → front (xs ++ ys) stop ≡ front xs (front ys stop)
  unfolding front
  front-append [] ys stop = refl
  front-append (x ∷ xs) ys stop = refl

  pub linked_split :
      (h : Heap) (prev : Ptr) (xs ys : List Cell) (stop : Ptr)
      → AreLinked h s px prev (xs ++ ys) stop
      → AreLinked h s px prev xs (front ys stop) × AreLinked h s px (back prev xs) ys stop
  unfolding back
  linked_split h prev [] ys stop l = (tt, l)
  linked_split h prev (x ∷ xs) ys stop l =
      let r = linked_split h x.ptr xs ys stop l.1 in
      ((rw (← front-append xs ys stop) l.0, r.0), r.1)

  pub linked_join :
      (h : Heap) (prev : Ptr) (xs ys : List Cell) (stop : Ptr)
      → AreLinked h s px prev xs (front ys stop)
      → AreLinked h s px (back prev xs) ys stop
      → AreLinked h s px prev (xs ++ ys) stop
  unfolding back
  linked_join h prev [] ys stop l r = r
  linked_join h prev (x ∷ xs) ys stop l r =
      (rw front-append l.0, linked_join h x.ptr xs ys stop l.1 r)

  -- Another stop, written into the last cell.
  pub relink_next :
      (h : Heap) (prev : Ptr) (x : Cell) (xs : List Cell) (stop other : Ptr)
      → AreApart (x ∷ xs)
      → AreLinked h s px prev (x ∷ xs) stop
      → let p = back prev (x ∷ xs) in
        AreLinked (write p (record (h p) { next = other }) h) s px prev (x ∷ xs) other
  unfolding back front
  relink_next h prev x [] stop other a l =
      (write-same x.ptr _ h ∙ ap (λ (o : Order). record o { next = other }) l.0, tt)
  relink_next h prev x (y ∷ xs) stop other a l = (
    write-other _ x.ptr _ h (λ e. back_differs y xs x.ptr x.ptr a.0 (sym e)) ∙ l.0,
    relink_next h x.ptr y xs stop other a.1 l.1,
  )

  -- Another predecessor, written into the first cell.
  pub relink_prev :
      (h : Heap) (prev other : Ptr) (x : Cell) (xs : List Cell) (stop : Ptr)
      → AreApart (x ∷ xs)
      → AreLinked h s px prev (x ∷ xs) stop
      → AreLinked (write x.ptr (record (h x.ptr) { prev = other }) h) s px other (x ∷ xs) stop
  relink_prev h prev other x xs stop a l = (
    write-same x.ptr _ h ∙ ap (λ (o : Order). record o { prev = other }) l.0,
    AreLinked-write h x.ptr _ x.ptr xs stop a.0 l.1,
  )
