-- ===== src/Protocol/Bytes/Writing.antt =====
-- A Writer that has not overflowed has appended to what it wrote; one that overflows says so.
use limit_order_book.Base.{
  ℕ, ◌+◌, ◌-◌, ◌%◌, ◌^◌, ◌<◌, ◌≤◌, ◌≡◌, refl, ◌∙◌, true, List, [], ◌++◌, arith, drop, length,
  length-append, leb, append_assoc, append-nil, length-drop,
}
use limit_order_book.Protocol.Bytes.{le_bytes, copy_at, Writer, put, finish, encode_frame}
use limit_order_book.Protocol.Bytes.Laws.{
  length-le_bytes, take-append_self, drop-append_more, drop-drop,
}

-- `old` is what the buffer still holds behind the bytes written.
pub record Wrote (written old : List ℕ) (w : Writer) : Type 0 where
  pub buf : w.buf ≡ written ++ old
  pub pos : w.pos ≡ length written
  pub cap : w.cap ≡ length written + length old

-- A writing step puts these bytes if they fit, and moves on by as many in any case.
pub record Puts (f : Writer → Writer) (bytes : List ℕ) : Type 0 where
  pub wrote :
      (written old : List ℕ) (w : Writer)
      → Wrote written old w
      → length bytes ≤ length old
      → Wrote (written ++ bytes) (drop (length bytes) old) (f w)
  pub moved : (w : Writer) → (f w).pos ≡ w.pos + length bytes
  pub same_cap : (w : Writer) → (f w).cap ≡ w.cap

copy_at-written :
    (written bytes old : List ℕ)
    → copy_at (length written) bytes (written ++ old)
      ≡ (written ++ bytes) ++ drop (length bytes) old
unfolding copy_at
copy_at-written written bytes old =
    rw (take-append_self, drop-append_more written old (length bytes))

pub put-Puts : (n v : ℕ) → Puts (put n v) (le_bytes n v)
unfolding put
put-Puts n v = record {
  wrote = λ written old w h fits.
      let n_eq = length-le_bytes n v in
      let room : leb (w.pos + n) w.cap ≡ true = ground (arith, h.pos, h.cap) in
      rw room (record {
        buf = rw (h.buf, h.pos) (copy_at-written written (le_bytes n v) old);
        pos = rw length-append (omega (arith, h.pos));
        cap = rw (length-append, length-drop) (omega (arith, h.cap));
      });
  moved = λ w. ground (arith, length-le_bytes n v);
  same_cap = λ w. ground arith;
}

pub then-Puts :
    {f g : Writer → Writer} (p q : List ℕ) → Puts f p → Puts g q → Puts (λ w. g (f w)) (p ++ q)
then-Puts p q a b = record {
  wrote = λ written old w h fits.
      let first = a.wrote written old w h (omega (arith, length-append p q)) in
      let second =
        b.wrote (written ++ p) (drop (length p) old) _ first
          (omega (arith, length-append p q, length-drop (length p) old)) in
      rw (length-append, ← append_assoc, ← drop-drop) second;
  moved = λ w. omega (arith, length-append p q, a.moved w, b.moved _);
  same_cap = λ w. b.same_cap _ ∙ a.same_cap w;
}

pub none-Puts : Puts (λ w. w) []
none-Puts = record {
  wrote = λ written old w h fits. rw append-nil h;
  moved = λ w. omega arith;
  same_cap = λ w. refl;
}

-- The frame of a payload.
abbrev pub frame : ℕ → List ℕ → List ℕ
frame code payload = le_bytes 2 ((1 + length payload) % 2 ^ 16) ++ le_bytes 1 code ++ payload

-- `finish` writes the length over the two bytes that were put for it.
patch_head :
    (n : ℕ) (code payload old : List ℕ)
    → copy_at 0 (le_bytes 2 n) (le_bytes 2 0 ++ code ++ payload ++ old)
      ≡ le_bytes 2 n ++ code ++ payload ++ old
unfolding copy_at le_bytes
patch_head n code payload old = refl

module _ (buf payload : List ℕ) (cap code : ℕ) (fill : Writer → Writer)
    (f : Puts fill payload) where
  head_then_fill :
      Puts (λ w. fill (put 1 code (put 2 0 w))) ((le_bytes 2 0 ++ le_bytes 1 code) ++ payload)
  head_then_fill =
      then-Puts (le_bytes 2 0 ++ le_bytes 1 code) payload
        (then-Puts (le_bytes 2 0) (le_bytes 1 code) (put-Puts 2 0) (put-Puts 1 code)) f

  start : Writer
  start = record { buf = buf; cap = cap; pos = 0 }

  head_length : length ((le_bytes 2 0 ++ le_bytes 1 code) ++ payload) ≡ 3 + length payload
  unfolding le_bytes
  head_length = omega arith

  -- A buffer that holds the frame gets the frame at its front, and keeps the rest.
  pub encode_frame_lem :
      length buf ≡ cap
      → 3 + length payload ≤ cap
      → encode_frame buf cap code fill
        ≡ (3 + length payload, frame code payload ++ drop (3 + length payload) buf)
  unfolding encode_frame finish start
  encode_frame_lem whole fits =
      let w = fill (put 1 code (put 2 0 start)) in
      let h =
        head_then_fill.wrote [] buf start (record { buf = refl; pos = refl; cap = omega arith })
          (omega (arith, head_length)) in
      let size : w.pos ≡ 3 + length payload = h.pos ∙ head_length in
      let body : w.pos - 2 ≡ 1 + length payload = omega (arith, size) in
      let room : leb w.pos w.cap ≡ true = ground (arith, size, head_then_fill.same_cap start) in
      rw (room, body, size, h.buf, head_length) (rw (patch_head _ (le_bytes 1 code) payload))

  -- A buffer that does not gets nothing but the answer 0.
  pub encode_frame_overflow : cap < 3 + length payload → (encode_frame buf cap code fill).0 ≡ 0
  unfolding encode_frame finish start
  encode_frame_overflow short =
      let p = head_then_fill.moved start in
      let c = head_then_fill.same_cap start in ground (arith, p, c, head_length)
