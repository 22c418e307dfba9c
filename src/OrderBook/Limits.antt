-- ===== src/OrderBook/Limits.antt =====
-- A limit order in include/lob/order_book.hpp, from its guards to the book that it leaves, against the
-- reference engine of engines/naive_book.hpp.
use limit_order_book.Base.{
  ℕ, ◌^◌, ◌<◌, ◌≡◌, refl, ap, ◌∙◌, ℤ, pos, leb_ℤ, Bool, true, false, not, ◌&&◌, none, List, arith,
  ltb, ◌==◌, if◌then◌else◌, Bool-cases, inl, inr,
}
use limit_order_book.Types.{Side, bid, ask, Tif, allow, SubmitResult, is_fok}
use limit_order_book.Fifo.{Ptr}
use limit_order_book.Fifo.Cells.{sum_qty}
use limit_order_book.Naive
use limit_order_book.Naive.{NaiveBook, own, opposite, crossable_qty}
use limit_order_book.Engine.{Parts, Book, own_ladder, stp_is_on}
use limit_order_book.Engine.Execution.{execute, fok_fillable, rejection}
use limit_order_book.Engine.Laws.{Entries, LadderLaws, IndexLaws, AllocLaws}
use limit_order_book.Engine.Queues.{Groups, all_cells}
use limit_order_book.Engine.Books.{Represents}
use limit_order_book.Engine.Levels.{book_side}
use limit_order_book.OrderBook.{submit_limit, is_resting}
use limit_order_book.OrderBook.FillOrKill.{fok_fillable-crossable_qty}
use limit_order_book.OrderBook.Missing.{not_resting-missing}
use limit_order_book.OrderBook.Submission.{Submitted, Submitted-unchanged, execute-Submitted}

not-not : (t : Bool) → not (not t) ≡ t
not-not true = refl
not-not false = refl

module _ {L I A : Type 0} (parts : Parts L I A) (Shows : Side → L → Entries → Type 0)
    (Indexes : I → List (ℕ × Ptr) → Type 0) (Owns : A → List Ptr → Type 0)
    (ladder : LadderLaws parts Shows) (index : IndexLaws parts Indexes)
    (alloc : AllocLaws parts Owns) (s : Side) (id : ℕ) (px : ℤ) (qty owner : ℕ) (tif : Tif)
    (own_groups opposite_groups : Groups) (b : Book L I A) (n : NaiveBook)
    (h : Represents parts Shows Indexes Owns s own_groups opposite_groups b)
    (same_own : own s n ≡ book_side own_groups)
    (same_opposite : opposite s n ≡ book_side opposite_groups) (no_stp : b.stp ≡ allow)
    (small : qty < 2 ^ 32) (real_id : 0 < id) (missing : parts.find id b.orders ≡ none)
    (band : parts.in_band px b.bids ≡ true)
    (same_band : parts.in_band px b.asks ≡ parts.in_band px b.bids)
    (fits : is_fok tif ≡ true → sum_qty (all_cells opposite_groups) < 2 ^ 64) where
  abbrev Same : Book L I A × SubmitResult → NaiveBook × SubmitResult → Type 0
  Same x y = Submitted parts Shows Indexes Owns s b n x y

  own_band : (t : Side) → parts.in_band px (own_ladder t b) ≡ true
  own_band bid = band
  own_band ask = same_band ∙ band

  rejected : Same (b, rejection) (n, rejection)
  rejected =
      Submitted-unchanged parts Shows Indexes Owns ladder index alloc s id px qty owner own_groups
        opposite_groups b n h same_own same_opposite rejection

  -- The fill-or-kill test, and what stands behind it.
  abbrev naive_execute : NaiveBook × SubmitResult
  naive_execute =
      if is_fok tif && ltb (crossable_qty s px n) qty
      then (n, rejection)
      else Naive.execute id s px qty tif n

  same_test :
      (is_fok tif && not (fok_fillable parts s (stp_is_on b.stp) px qty owner b))
      ≡ (is_fok tif && ltb (crossable_qty s px n) qty)
  same_test = elim (Bool-cases (is_fok tif)) [
    | inr other ↦ rw other refl
    | inl fok ↦
        let off = ap (λ stp. fok_fillable parts s (stp_is_on stp) px qty owner b) no_stp in
        let sum =
          fok_fillable-crossable_qty parts Shows Indexes Owns ladder index s px qty owner own_groups
            opposite_groups b n h same_opposite (fits fok) in
        ap (λ t. is_fok tif && not t) (off ∙ sum) ∙ ap (λ t. is_fok tif && t) (not-not _)
  ]

  execute-Same : 0 < qty → Same (execute parts s id px qty tif owner b) naive_execute
  unfolding execute
  execute-Same some_qty = elim (Bool-cases (is_fok tif && ltb (crossable_qty s px n) qty)) [
    | inl short ↦ rw (same_test, short) rejected
    | inr enough ↦
        rw (same_test, enough)
          (execute-Submitted parts Shows Indexes Owns ladder index alloc s id px qty owner
            own_groups opposite_groups b n h same_own same_opposite some_qty small real_id missing
            (own_band s) tif no_stp)
  ]

  not_resting : is_resting parts id b ≡ false
  not_resting = not_resting-missing parts id b missing

  -- Over any containers that keep their laws and with self-trades allowed, on a book and a
  -- reference book of the same price levels, for any side and time in force, a quantity below 2^32,
  -- a price in the band of both ladders and a positive id that does not rest, the final engine's
  -- submit_limit does what the reference engine's does: the books then stand for the same levels,
  -- they report the same trades in the same order, and the two answers are equal. For fill-or-kill
  -- the facing orders sum to less than 2^64.
  pub submit_limit-Submitted :
      Submitted parts Shows Indexes Owns s b n
        (submit_limit parts id s px qty tif owner b)
        (Naive.submit_limit id s px qty tif n)
  unfolding submit_limit Naive.submit_limit
  submit_limit-Submitted =
      let some_id : (id == 0) ≡ false = ground arith in
      let positive = ladder.in_band_positive s (own_ladder s b) _ px h.own_shows (own_band s) in
      let some_price : leb_ℤ px (pos 0) ≡ false = ground arith in
      elim (Bool-cases (qty == 0)) [
        | inl none_wanted ↦ rw (some_id, none_wanted) rejected
        | inr wanted ↦
            rw (some_id, wanted, band, some_price, not_resting) (execute-Same (ground arith))
      ]
