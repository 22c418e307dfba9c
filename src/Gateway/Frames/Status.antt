-- ===== src/Gateway/Frames/Status.antt =====
-- The status that net/gateway.hpp reports for a limit order, against what became of the order.
use limit_order_book.Base.{
  ℕ, ◌<◌, ℤ, ◌≡◌, ◌≢◌, refl, true, false, arith, ◌==◌, inl, inr, Bool-cases,
}
use limit_order_book.Types.{Side, Tif, gtc, SubmitResult}
use limit_order_book.Protocol.{ExecStatus}
use limit_order_book.Priority.Market.{Market}
use limit_order_book.Priority.Effects.{LimitEffect}
use limit_order_book.Gateway.Frames.{submit_status}

-- What a status says of an order for `want`, given the engine's answer and the markets before and after.
abbrev pub Tells : ExecStatus → Tif → ℕ → Market → Market → SubmitResult → Type 0
Tells ExecStatus.accepted tif want m m' r = (r.filled ≡ 0) × (r.rested ≡ true) × (tif ≡ gtc)
Tells ExecStatus.filled tif want m m' r = (r.filled ≡ want) × (r.rested ≡ false)
Tells ExecStatus.partial_rest tif want m m' r =
    (0 < r.filled) × (r.filled < want) × (r.rested ≡ true) × (tif ≡ gtc)
Tells ExecStatus.partial_done tif want m m' r =
    (0 < r.filled) × (r.filled < want) × (r.rested ≡ false) × (tif ≢ gtc)
Tells ExecStatus.rejected tif want m m' r = m' ≡ m
Tells ExecStatus.canceled tif want m m' r = (r.filled ≡ 0) × (r.rested ≡ false) × (tif ≢ gtc)
Tells _ tif want m m' r = ⊥

-- For a limit order whose effect on the market is as submit_limit's, the reported status tells what
-- became of it: accepted orders rest untouched, filled ones took all that they wanted, partly
-- filled ones took some and rest or, if they are not GTC, are done, canceled ones are not GTC and
-- took nothing, and a rejected one changed nothing.
pub submit_status-Tells :
    (id : ℕ) (s : Side) (px : ℤ) (want : ℕ) (tif : Tif) (m m' : Market) (r : SubmitResult)
    → LimitEffect id s px want tif m m' r
    → Tells (submit_status r want) tif want m m' r
unfolding submit_status
submit_status-Tells id s px want tif m m' r h = elim (Bool-cases r.rejected) [
  | inl e ↦ rw e (h.rejected_unchanged e).0
  | inr e ↦ elim (Bool-cases (r.filled == want)) [
    | inl k ↦ elim (Bool-cases r.rested) [
      | inl d ↦ let short = (h.only_gtc_rests d).1 in absurd (ground arith)
      | inr d ↦ rw (e, k) (ground arith, d)
    ]
    | inr k ↦
        let below : r.filled < want = let bound = h.within_qty in ground arith in
        elim (Bool-cases r.rested) [
          | inl d ↦
              let is_gtc_order = (h.only_gtc_rests d).0 in
              elim (Bool-cases (r.filled == 0)) [
                | inl z ↦ rw (e, k, d, z) (ground arith, refl, is_gtc_order)
                | inr z ↦ rw (e, k, d, z) (ground arith, below, refl, is_gtc_order)
              ]
          | inr d ↦
              let not_gtc : tif ≢ gtc = λ g. elim (h.gtc_finishes g e) [
                | inl whole ↦ omega arith
                | inr rests ↦ cc (rests, d)
              ] in
              elim (Bool-cases (r.filled == 0)) [
                | inl z ↦ rw (e, k, d, z) (ground arith, refl, not_gtc)
                | inr z ↦ rw (e, k, d, z) (ground arith, below, refl, not_gtc)
              ]
        ]
  ]
]
