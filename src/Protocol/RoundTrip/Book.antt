-- ===== src/Protocol/RoundTrip/Book.antt =====
-- The book snapshot of net/protocol.hpp: its loops over the levels, and `encode` against its
-- decoder.
use limit_order_book.Base.{
  ℕ, zero, suc, ◌+◌, ◌*◌, ◌≡◌, refl, subst, append-nil, ℤ, List, [], ◌∷◌, ◌++◌, arith, length,
  length-append, All, IsI64, word64,
}
use limit_order_book.Protocol.{MsgType, BookMsg, IsU64, to_type, book_depth}
use limit_order_book.Protocol.Bytes.{le_bytes, ◌>>=◌, pure}
use limit_order_book.Protocol.Bytes.Laws.{length-le_bytes}
use limit_order_book.Protocol.Bytes.Writing.{Puts, put-Puts, then-Puts, none-Puts}
use limit_order_book.Protocol.Bytes.Reading.{Reads, pure-Reads, bind-Reads}
use limit_order_book.Protocol.Encode.{encode_book, fill_book, put_levels}
use limit_order_book.Protocol.Decode.{decode_book, parse_book, get_levels}
use limit_order_book.Protocol.Fields.{put_i64-Puts, read_word, read_price}
use limit_order_book.Protocol.Framed.{Sent, frame-Sent}

abbrev levels_bytes : List ℤ → List ℕ → List ℕ
levels_bytes (px ∷ pxs) (qty ∷ qtys) =
    le_bytes 8 (word64 px) ++ (le_bytes 8 qty ++ levels_bytes pxs qtys)
levels_bytes _ _ = []

put_levels-Puts :
    (pxs : List ℤ) (qtys : List ℕ) → Puts (put_levels pxs qtys) (levels_bytes pxs qtys)
unfolding put_levels
put_levels-Puts (px ∷ pxs) (qty ∷ qtys) =
    then-Puts _ _ (put_i64-Puts px) (then-Puts _ _ (put-Puts 8 qty) (put_levels-Puts pxs qtys))
put_levels-Puts _ _ = none-Puts

-- `n` levels whose numbers are within the ranges of their types.
pub record AreLevels (n : ℕ) (pxs : List ℤ) (qtys : List ℕ) : Type 0 where
  pub prices : length pxs ≡ n
  pub quantities : length qtys ≡ n
  pub px : All IsI64 pxs
  pub qty : All IsU64 qtys

get_levels-Reads :
    (n : ℕ) (pxs : List ℤ) (qtys : List ℕ)
    → AreLevels n pxs qtys
    → Reads (get_levels n) (levels_bytes pxs qtys) (pxs, qtys)
unfolding get_levels
get_levels-Reads zero [] [] h = pure-Reads ([], [])
get_levels-Reads zero [] (y ∷ ys) h = absurd (omega (arith, h.quantities))
get_levels-Reads zero (x ∷ xs) ys h = absurd (omega (arith, h.prices))
get_levels-Reads (suc n) [] ys h = absurd (omega (arith, h.prices))
get_levels-Reads (suc n) (x ∷ xs) [] h = absurd (omega (arith, h.quantities))
get_levels-Reads (suc n) (x ∷ xs) (y ∷ ys) h =
    let rest = get_levels-Reads n xs ys (record {
      prices = omega (arith, h.prices);
      quantities = omega (arith, h.quantities);
      px = h.px.1;
      qty = h.qty.1;
    }) in
    let whole : Reads {A = List ℤ × List ℕ}
        (get_levels n >>= λ (pxs, qtys). pure (x ∷ pxs, y ∷ qtys)) (levels_bytes xs ys)
        (x ∷ xs, y ∷ ys) =
      subst
        (λ bytes.
          Reads {A = List ℤ × List ℕ} (get_levels n >>= λ (pxs, qtys). pure (x ∷ pxs, y ∷ qtys))
            bytes (x ∷ xs, y ∷ ys))
        (append-nil (levels_bytes xs ys))
        (bind-Reads (get_levels n) _ (levels_bytes xs ys) [] (xs, ys) (x ∷ xs, y ∷ ys) rest
          (pure-Reads (x ∷ xs, y ∷ ys))) in
    read_price _ (x ∷ xs, y ∷ ys) x _ h.px.0
      (read_word _ (x ∷ xs, y ∷ ys) 8 y _ (omega (arith, h.qty.0)) whole)

pub record IsBookMsg (m : BookMsg) : Type 0 where
  pub seq : IsU64 m.seq
  pub bids : AreLevels book_depth m.bid_px m.bid_qty
  pub asks : AreLevels book_depth m.ask_px m.ask_qty

abbrev book_bytes : BookMsg → List ℕ
book_bytes m =
    le_bytes 8 m.seq ++ (levels_bytes m.bid_px m.bid_qty ++ (levels_bytes m.ask_px m.ask_qty ++ []))

book-Puts : (m : BookMsg) → Puts (fill_book m) (book_bytes m)
unfolding fill_book
book-Puts m = then-Puts _ _ (put-Puts 8 m.seq) (
    then-Puts _ _ (put_levels-Puts m.bid_px m.bid_qty)
      (then-Puts _ _ (put_levels-Puts m.ask_px m.ask_qty) none-Puts))

book-Reads : (m : BookMsg) → IsBookMsg m → Reads parse_book (book_bytes m) m
unfolding parse_book
book-Reads m h = read_word _ m 8 m.seq _ (omega (arith, h.seq)) (
    bind-Reads (get_levels book_depth) _ (levels_bytes m.bid_px m.bid_qty) _ (m.bid_px, m.bid_qty) m
      (get_levels-Reads book_depth m.bid_px m.bid_qty h.bids)
      (bind-Reads (get_levels book_depth) _ (levels_bytes m.ask_px m.ask_qty) []
        (m.ask_px, m.ask_qty) m (get_levels-Reads book_depth m.ask_px m.ask_qty h.asks)
        (pure-Reads m)))

length-levels_bytes :
    (pxs : List ℤ) (qtys : List ℕ)
    → length pxs ≡ length qtys
    → length (levels_bytes pxs qtys) ≡ 16 * length pxs
length-levels_bytes [] qtys h = omega arith
length-levels_bytes (px ∷ pxs) [] h = absurd (omega arith)
length-levels_bytes (px ∷ pxs) (qty ∷ qtys) h =
    rw (length-append, length-append, length-le_bytes, length-le_bytes)
      (omega (arith, length-levels_bytes pxs qtys))

length-book_bytes : (m : BookMsg) → IsBookMsg m → length (book_bytes m) ≡ 168
length-book_bytes m h =
    rw (length-append, length-le_bytes, length-append, length-append)
      (omega (
        arith,
        h.bids.prices,
        h.bids.quantities,
        h.asks.prices,
        h.asks.quantities,
        length-levels_bytes m.bid_px m.bid_qty,
        length-levels_bytes m.ask_px m.ask_qty,
      ))

-- A book snapshot of five levels a side with fields in their ranges goes out as a frame into any
-- buffer of at least 171 bytes, is typed as one and decodes to the same message, all five levels of
-- both sides, the buffer behind being as it was; a smaller buffer is refused with 0.
pub encode_book-Sent :
    (m : BookMsg) (buf : List ℕ) (cap : ℕ)
    → IsBookMsg m
    → length buf ≡ cap
    → Sent buf cap (encode_book buf cap m) 171 MsgType.book decode_book m
unfolding encode_book decode_book to_type
encode_book-Sent m buf cap h whole =
    let size : 3 + length (book_bytes m) ≡ 171 = omega (arith, length-book_bytes m h) in
    subst (λ k. Sent buf cap (encode_book buf cap m) k MsgType.book decode_book m) size
      (frame-Sent MsgType.book (fill_book m) parse_book (book_bytes m) m (book-Puts m)
        (book-Reads m h) (omega (arith, length-book_bytes m h)) (omega arith, refl) buf cap whole)
