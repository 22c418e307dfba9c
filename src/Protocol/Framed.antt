-- ===== src/Protocol/Framed.antt =====
-- What a frame in a buffer promises, and why writing steps and reading steps for the same bytes
-- keep that promise.
use limit_order_book.Base.{
  ℕ, suc, ◌+◌, ◌-◌, ◌%◌, ◌^◌, ◌<◌, ◌≤◌, ◌≡◌, refl, ap, subst, ◌∙◌, true, Option, some, List, [],
  ◌∷◌, ◌++◌, arith, take, drop, length, ◌==◌, append-nil, ◌⊎◌, inl, inr, dec_lt,
}
use limit_order_book.Protocol.{MsgType, type_code, to_type, max_frame_len, header_len}
use limit_order_book.Protocol.Bytes.{le_bytes, Writer, Parser, encode_frame}
use limit_order_book.Protocol.Bytes.Laws.{take-append_self, drop-append_self}
use limit_order_book.Protocol.Bytes.Writing.{Puts, frame, encode_frame_lem, encode_frame_overflow}
use limit_order_book.Protocol.Bytes.Reading.{Reads, between}
use limit_order_book.Protocol.Decode.{peek_type, decode_body, pred64}

-- The frame's body as its receiver gets it: from the type byte to the end.
abbrev pub body_of : ℕ → List ℕ → List ℕ
body_of size out = drop header_len (take size out)

-- An encoder's answer `out` for `m`, of `size` bytes in all: the length prefix counts the body, the
-- body names the type and decodes to `m`, the receiver accepts the length, and the buffer behind
-- the frame is as it was.
pub record Carries {M : Type 0} (buf : List ℕ) (out : ℕ × List ℕ) (size : ℕ) (t : MsgType)
    (decode : List ℕ → Option M) (m : M) : Type 0 where
  pub returned : out.0 ≡ size
  pub counted : take header_len out.1 ≡ le_bytes 2 (size - header_len)
  pub legal : size - header_len ≤ max_frame_len
  pub typed : peek_type (body_of size out.1) ≡ some t
  pub decoded : decode (body_of size out.1) ≡ some m
  pub behind : drop size out.1 ≡ drop size buf

abbrev pub Sent :
    {M : Type 0} → List ℕ → ℕ → ℕ × List ℕ → ℕ → MsgType → (List ℕ → Option M) → M → Type 0
Sent buf cap out size t decode m =
    ((size ≤ cap) × Carries buf out size t decode m) ⊎ ((cap < size) × (out.0 ≡ 0))

decode_body-Reads :
    {M : Type 0} (code : ℕ) (bytes : List ℕ) (parse : Parser M) (m : M)
    → Reads parse bytes m
    → decode_body (code ∷ bytes) parse ≡ some m
unfolding decode_body
decode_body-Reads code bytes parse m h =
    let len : pred64 (suc (length bytes)) ≡ 0 + length bytes = ground arith in
    let start : between [] (bytes ++ [])
        ≡ record { buf = bytes; len = pred64 (suc (length bytes)); pos = 0 } =
      rw (append-nil, len) in
    let end : (length bytes == length bytes + 0) ≡ true = ground arith in
    let read = subst (λ r. parse r ≡ some (m, between bytes [])) start (h [] []) in
    rw (decode_body, read, end)

module _ (code : ℕ) (bytes old : List ℕ) where
  length-frame : length (frame code bytes) ≡ 3 + length bytes
  unfolding le_bytes
  length-frame = omega arith

  take-frame : take (3 + length bytes) (frame code bytes ++ old) ≡ frame code bytes
  take-frame =
      subst (λ k. take k (frame code bytes ++ old) ≡ frame code bytes) length-frame
        (take-append_self (frame code bytes) old)

  drop-frame : drop (3 + length bytes) (frame code bytes ++ old) ≡ old
  drop-frame =
      subst (λ k. drop k (frame code bytes ++ old) ≡ old) length-frame
        (drop-append_self (frame code bytes) old)

  frame_prefix : take 2 (frame code bytes ++ old) ≡ le_bytes 2 ((1 + length bytes) % 2 ^ 16)
  unfolding le_bytes
  frame_prefix = refl

  frame_body : code < 256 → drop 2 (frame code bytes) ≡ code ∷ bytes
  unfolding le_bytes
  frame_body h = let same : code % 256 ≡ code = omega arith in rw same

module _ {M : Type 0} (t : MsgType) (fill : Writer → Writer) (parse : Parser M) (bytes : List ℕ)
    (m : M) (puts : Puts fill bytes) (reads : Reads parse bytes m) (small : length bytes < 256)
    (known : (type_code t < 256) × (to_type (type_code t) ≡ t)) (buf : List ℕ) (cap : ℕ)
    (whole : length buf ≡ cap) where
  -- A buffer that the frame fits into carries the message.
  frame-Carries :
      3 + length bytes ≤ cap
      → Carries buf
          (encode_frame buf cap (type_code t) fill)
          (3 + length bytes)
          t
          (λ body. decode_body body parse)
          m
  unfolding peek_type
  frame-Carries fits =
      let code = type_code t in
      let old = drop (3 + length bytes) buf in
      let count : (1 + length bytes) % 2 ^ 16 ≡ 3 + length bytes - 2 = omega arith in
      let body : drop 2 (take (3 + length bytes) (frame code bytes ++ old)) ≡ code ∷ bytes =
        rw (take-frame code bytes old) (frame_body code bytes old known.0) in
      rw (encode_frame_lem buf bytes cap code fill puts whole fits) (record {
        returned = refl;
        counted = frame_prefix code bytes old ∙ ap (le_bytes 2) count;
        legal = omega arith;
        typed = rw (body, peek_type, known.1);
        decoded = rw body (decode_body-Reads code bytes parse m reads);
        behind = drop-frame code bytes old;
      })

  -- And the frame is as long as it says.
  pub length-encode_frame :
      3 + length bytes ≤ cap
      → length (take (3 + length bytes) (encode_frame buf cap (type_code t) fill).1)
        ≡ 3 + length bytes
  length-encode_frame fits =
      let old = drop (3 + length bytes) buf in
      rw (encode_frame_lem buf bytes cap (type_code t) fill puts whole fits)
        (ap length (take-frame (type_code t) bytes old) ∙ length-frame (type_code t) bytes old)

  -- Into any buffer: it carries the message, or is too small and the answer is 0.
  pub frame-Sent :
      Sent buf cap
        (encode_frame buf cap (type_code t) fill)
        (3 + length bytes)
        t
        (λ body. decode_body body parse)
        m
  frame-Sent = elim (dec_lt cap (3 + length bytes)) [
    | yes short ↦ inr (short, encode_frame_overflow buf bytes cap (type_code t) fill puts short)
    | no room ↦ inl (omega arith, frame-Carries (omega arith))
  ]
