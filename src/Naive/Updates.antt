-- ===== src/Naive/Updates.antt =====
-- What writing one side of engines/naive_book.hpp's book leaves of the rest.
use limit_order_book.Base.{◌≡◌, refl, List, ◌++◌}
use limit_order_book.Types.{Side, bid, ask, Trade}
use limit_order_book.Naive.Sides.{BookSide}
use limit_order_book.Naive.{NaiveBook, own, opposite, set_opposite, set_own}

pub opposite-set_opposite :
    (s : Side) (levels : BookSide) (ts : List Trade) (n : NaiveBook)
    → opposite s (set_opposite s levels ts n) ≡ levels
opposite-set_opposite bid levels ts n = refl
opposite-set_opposite ask levels ts n = refl

pub trades-set_opposite :
    (s : Side) (levels : BookSide) (ts : List Trade) (n : NaiveBook)
    → (set_opposite s levels ts n).trades ≡ n.trades ++ ts
trades-set_opposite bid levels ts n = refl
trades-set_opposite ask levels ts n = refl

pub own-set_own :
    (s : Side) (levels : BookSide) (n : NaiveBook) → own s (set_own s levels n) ≡ levels
own-set_own bid levels n = refl
own-set_own ask levels n = refl

pub opposite-set_own :
    (s : Side) (levels : BookSide) (n : NaiveBook) → opposite s (set_own s levels n) ≡ opposite s n
opposite-set_own bid levels n = refl
opposite-set_own ask levels n = refl

pub trades-set_own :
    (s : Side) (levels : BookSide) (n : NaiveBook) → (set_own s levels n).trades ≡ n.trades
trades-set_own bid levels n = refl
trades-set_own ask levels n = refl
