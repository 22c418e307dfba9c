-- ===== src/Fifo/Cells.antt =====
-- What a queue of orders at addresses stands for: the orders, each with its address, in order.
use limit_order_book.Base.{
  ℕ, ◌+◌, ◌%◌, ◌^◌, ◌<◌, ◌≢◌, ◌≡◌, sym, ℤ, List, [], ◌∷◌, ◌++◌, length, All, arith, refl,
}
use limit_order_book.Types.{Side}
use limit_order_book.Fifo.{Ptr, null, Order, Level}

pub record Cell : Type 0 where
  pub ptr : Ptr
  pub id : ℕ
  pub qty : ℕ
  pub owner : ℕ

unfoldable pub front : List Cell → Ptr → Ptr
front [] stop = stop
front (c ∷ cs) stop = c.ptr

unfoldable pub back : Ptr → List Cell → Ptr
back prev [] = prev
back prev (c ∷ cs) = back c.ptr cs

unfoldable pub sum_qty : List Cell → ℕ
sum_qty [] = 0
sum_qty (c ∷ cs) = c.qty + sum_qty cs

-- The level that holds the cells at a price.
abbrev pub level_of : ℤ → List Cell → Level
level_of px cs = record {
  head = front cs null;
  tail = back null cs;
  total_qty = sum_qty cs % 2 ^ 64;
  count = length cs % 2 ^ 32;
  price = px;
}

-- The order that stands for a cell between two addresses.
abbrev pub node : Side → ℤ → Ptr → Ptr → Cell → Order
node s px prev next c = record {
  qty = c.qty;
  owner = c.owner;
  next = next;
  id = c.id;
  price = px;
  prev = prev;
  level = (s, px);
  side = s;
}

abbrev pub Avoids : Ptr → List Cell → Type 0
Avoids p = All (λ c. c.ptr ≢ p)

abbrev pub AreReal : List Cell → Type 0
AreReal = All (λ c. 0 < c.ptr)

-- No two cells agree in something.
abbrev pub Differ : (Cell → ℕ) → List Cell → Type 0
Differ f [] = Unit
Differ f (c ∷ cs) = All (λ d. f d ≢ f c) cs × Differ f cs

abbrev pub AreApart : List Cell → Type 0
AreApart = Differ (λ c. c.ptr)

module _ (p : Ptr) where
  pub Avoids-append_left : (xs ys : List Cell) → Avoids p (xs ++ ys) → Avoids p xs
  Avoids-append_left [] ys h = tt
  Avoids-append_left (x ∷ xs) ys h = (h.0, Avoids-append_left xs ys h.1)

  pub Avoids-append_right : (xs ys : List Cell) → Avoids p (xs ++ ys) → Avoids p ys
  Avoids-append_right [] ys h = h
  Avoids-append_right (x ∷ xs) ys h = Avoids-append_right xs ys h.1

pub AreReal-append_left : (xs ys : List Cell) → AreReal (xs ++ ys) → AreReal xs
AreReal-append_left [] ys h = tt
AreReal-append_left (x ∷ xs) ys h = (h.0, AreReal-append_left xs ys h.1)

pub AreReal-append_right : (xs ys : List Cell) → AreReal (xs ++ ys) → AreReal ys
AreReal-append_right [] ys h = h
AreReal-append_right (x ∷ xs) ys h = AreReal-append_right xs ys h.1

pub AreApart-append_left : (xs ys : List Cell) → AreApart (xs ++ ys) → AreApart xs
AreApart-append_left [] ys h = tt
AreApart-append_left (x ∷ xs) ys h =
    (Avoids-append_left x.ptr xs ys h.0, AreApart-append_left xs ys h.1)

pub AreApart-append_right : (xs ys : List Cell) → AreApart (xs ++ ys) → AreApart ys
AreApart-append_right [] ys h = h
AreApart-append_right (x ∷ xs) ys h = AreApart-append_right xs ys h.1

-- An address on the left is none on the right.
pub apart_middle :
    (xs : List Cell) (c : Cell) (ys : List Cell) → AreApart (xs ++ c ∷ ys) → Avoids c.ptr xs
apart_middle [] c ys h = tt
apart_middle (x ∷ xs) c ys h =
    (λ e. (Avoids-append_right x.ptr xs (c ∷ ys) h.0).0 (sym e), apart_middle xs c ys h.1)

pub back-Avoids :
    (xs ys : List Cell) (x : Cell)
    → AreApart ((x ∷ xs) ++ ys)
    → (q : Ptr) → Avoids (back q (x ∷ xs)) ys
unfolding back
back-Avoids [] ys x h q = h.0
back-Avoids (y ∷ xs) ys x h q = back-Avoids xs ys y h.1 x.ptr

pub back_real : (x : Cell) (xs : List Cell) (q : Ptr) → AreReal (x ∷ xs) → 0 < back q (x ∷ xs)
unfolding back
back_real x [] q h = h.0
back_real x (y ∷ xs) q h = back_real y xs x.ptr h.1

pub back-append : (q : Ptr) (xs ys : List Cell) → back q (xs ++ ys) ≡ back (back q xs) ys
unfolding back
back-append q [] ys = refl
back-append q (x ∷ xs) ys = back-append x.ptr xs ys

pub sum_qty-append : (xs ys : List Cell) → sum_qty (xs ++ ys) ≡ sum_qty xs + sum_qty ys
unfolding sum_qty
sum_qty-append [] ys = omega arith
sum_qty-append (x ∷ xs) ys = omega (arith, sum_qty-append xs ys)

pub back_differs : (x : Cell) (xs : List Cell) (q p : Ptr) → Avoids p (x ∷ xs) → back q (x ∷ xs) ≢ p
unfolding back
back_differs x [] q p a = a.0
back_differs x (y ∷ xs) q p a = back_differs y xs x.ptr p a.1

-- The queue without a cell.
pub Avoids-without :
    (p : Ptr) (xs : List Cell) (c : Cell) (ys : List Cell)
    → Avoids p (xs ++ c ∷ ys)
    → Avoids p (xs ++ ys)
Avoids-without p [] c ys h = h.1
Avoids-without p (x ∷ xs) c ys h = (h.0, Avoids-without p xs c ys h.1)

pub apart_without :
    (xs : List Cell) (c : Cell) (ys : List Cell) → AreApart (xs ++ c ∷ ys) → AreApart (xs ++ ys)
apart_without [] c ys h = h.1
apart_without (x ∷ xs) c ys h = (Avoids-without x.ptr xs c ys h.0, apart_without xs c ys h.1)
