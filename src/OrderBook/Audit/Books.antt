-- ===== src/OrderBook/Audit/Books.antt =====
-- The audit of include/lob/order_book.hpp on a whole book.
use limit_order_book.Base.{
  ℕ, suc, ◌+◌, ◌≡◌, refl, ap, ◌∙◌, ◌<ℤ◌, eqb_ℤ, leb_ℤ, true, false, not, ◌&&◌, Option, none, List,
  [], ◌∷◌, ◌++◌, All, All-map, All-append_left, All-append_right, length, length-append, arith,
  ◌==◌,
}
use limit_order_book.Types.{bid, ask, no_price}
use limit_order_book.Fifo.{Ptr}
use limit_order_book.Engine.{Parts, Book}
use limit_order_book.Engine.Laws.{Entries, first_price, IndexLaws}
use limit_order_book.Engine.Queues.{Groups, entries, all_cells}
use limit_order_book.Engine.Walking.{keys}
use limit_order_book.Engine.Groups.{length-keys}
use limit_order_book.Engine.Books.{Represents}
use limit_order_book.FlatLadder.{FlatLadder}
use limit_order_book.FlatLadder.Contents.{Shows}
use limit_order_book.OrderBook.Audit.{passed, check_side, audit_asks, audit_bids, check_invariants}
use limit_order_book.OrderBook.Audit.Orders.{IsFound, lookup-keys-all}
use limit_order_book.OrderBook.Audit.Band.{check_side-passed}

-- Every price of one list is below every price of the other.
abbrev pub AreUncrossed : Entries → Entries → Type 0
AreUncrossed bids asks = All (λ x. All (λ y. x.0 <ℤ y.0) asks) bids

first_uncrossed :
    (bids asks : Entries)
    → AreUncrossed bids asks
    → (not (eqb_ℤ (first_price bids) no_price)
        && (not (eqb_ℤ (first_price asks) no_price) && leb_ℤ (first_price asks) (first_price bids)))
      ≡ false
first_uncrossed [] asks u = refl
first_uncrossed (x ∷ bids) [] u = ground arith
first_uncrossed (x ∷ bids) (y ∷ asks) u = let below = u.0.0 in ground arith

module _ {I A : Type 0} (parts : Parts FlatLadder I A) (Indexes : I → List (ℕ × Ptr) → Type 0)
    (Owns : A → List Ptr → Type 0) (index : IndexLaws parts Indexes) (bids asks : Groups)
    (b : Book FlatLadder I A) (h : Represents parts Shows Indexes Owns bid bids asks b)
    (uncrossed : AreUncrossed (entries bids) (entries asks)) where
  abbrev fuel : ℕ
  fuel = suc (parts.size b.orders)

  abbrev find : ℕ → Option Ptr
  find k = parts.find k b.orders

  size_eq : parts.size b.orders ≡ length (all_cells asks) + length (all_cells bids)
  size_eq =
      let cells = all_cells asks ++ all_cells bids in
      omega (
        arith,
        index.size b.orders (keys cells) h.common.indexed,
        length-keys cells,
        length-append (all_cells asks) (all_cells bids),
      )

  all-IsFound : All (IsFound find) (all_cells asks ++ all_cells bids)
  all-IsFound =
      let cells = all_cells asks ++ all_cells bids in
      All-map _ _ (λ c e. index.find b.orders (keys cells) c.id h.common.indexed ∙ e) cells
        (lookup-keys-all [] cells h.common.differ)

  bids_passed : check_side fuel b.heap find b.bids bid 0 ≡ passed (0 + length (all_cells bids))
  bids_passed =
      check_side-passed b.heap find bid fuel b.bids bids h.own_shows h.own_links
        (All-append_right _ (all_cells asks) (all_cells bids) h.common.real)
        (All-append_right _ (all_cells asks) (all_cells bids) h.common.holds)
        (All-append_right _ (all_cells asks) (all_cells bids) all-IsFound) (omega (arith, size_eq))
        0

  asks_passed :
      (seen : ℕ)
      → check_side fuel b.heap find b.asks ask seen ≡ passed (seen + length (all_cells asks))
  asks_passed seen =
      check_side-passed b.heap find ask fuel b.asks asks h.opposite_shows h.opposite_links
        (All-append_left _ (all_cells asks) (all_cells bids) h.common.real)
        (All-append_left _ (all_cells asks) (all_cells bids) h.common.holds)
        (All-append_left _ (all_cells asks) (all_cells bids) all-IsFound) (omega (arith, size_eq))
        seen

  -- Over the flat ladder and any index and allocator, on a book whose linked queues stand for two
  -- lists of price levels with every bid below every ask, and whose index keeps its laws, the
  -- structural audit passes: at every price of the band the bit, the array and the links agree,
  -- every order is found under its id, every total and count is right, each cached best price is
  -- the best, and the orders are as many as the index holds. Its loops do not run out of fuel.
  pub check_invariants-none : check_invariants parts b ≡ none
  unfolding check_invariants
  check_invariants-none =
      let seen = 0 + length (all_cells bids) + length (all_cells asks) in
      let all_seen : (seen == parts.size b.orders) ≡ true = ground (arith, size_eq) in
      let sides = first_uncrossed (entries bids) (entries asks) uncrossed in
      ap (audit_bids parts b) bids_passed
      ∙ ap (audit_asks parts b) (asks_passed (0 + length (all_cells bids)))
      ∙ rw (all_seen, h.own_shows.best, h.opposite_shows.best, sides) refl
