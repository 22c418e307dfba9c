-- ===== src/Framing/Chunks.antt =====
-- `feed` of net/framing.hpp, called on the chunks of a byte stream one after another.
use limit_order_book.Base.{
  ℕ, ◌+◌, ◌≤◌, ◌<◌, ◌≡◌, refl, ap, ap₂, sym, subst, ◌∙◌, Bool, true, false, ◌&&◌, List, [], ◌∷◌,
  ◌++◌, arith, take, drop, length, All, length-append, append_assoc, append-nil,
}
use limit_order_book.Protocol.{max_frame_len, header_len}
use limit_order_book.Protocol.Bytes.{le_bytes, le_value}
use limit_order_book.Protocol.Bytes.Laws.{
  take-append_self, drop-append_self, drop-drop, le_value-le_bytes, length-le_bytes,
}
use limit_order_book.Framing.{
  FrameBuffer, Outcome, stuck, violated, waiting, prepend, drain, drain_loop, Fed, fed, feed, new,
}
use limit_order_book.Framing.Drain.{
  whole, announced, body, behind, drain-Front, drain-append, Extends,
}
use limit_order_book.Framing.Stream.{Waits, Waits-small, Rests, drain-Rests, feed_loop-drain}

-- The buffer between two calls, while no illegal length has come.
abbrev pub open_buffer : List ℕ → FrameBuffer
open_buffer bytes = record { bytes = bytes; poisoned = false }

-- What a call of `feed` returns for an outcome of the parser.
abbrev pub Tells : Outcome → Fed → Type 0
Tells stuck r = ⊥
Tells (violated fs) r = (r.ok ≡ false) × (r.frames ≡ fs) × (r.buffer.poisoned ≡ true)
Tells (waiting fs rest) r = (r.ok ≡ true) × (r.frames ≡ fs) × (r.buffer ≡ open_buffer rest)

fed-Tells : (bytes : List ℕ) (o : Outcome) → Rests o → Tells o (fed (open_buffer bytes) o)
fed-Tells bytes stuck r = r
fed-Tells bytes (violated fs) r = (refl, refl, refl)
fed-Tells bytes (waiting fs rest) r = (refl, refl, refl)

feed-Tells :
    (bytes chunk : List ℕ)
    → Waits bytes
    → Tells (drain (bytes ++ chunk)) (feed (open_buffer bytes) chunk)
unfolding feed
feed-Tells bytes chunk w =
    rw (feed_loop-drain (length chunk) bytes chunk (omega arith) w)
      (fed-Tells bytes _ (drain-Rests (bytes ++ chunk)))

-- The chunks one after another, with all that the sink was given.
pub feed_all : FrameBuffer → List (List ℕ) → Fed
feed_all fb [] = record { buffer = fb; ok = true; frames = [] }
feed_all fb (c ∷ cs) =
    let r = feed fb c in
    let rs = feed_all r.buffer cs in
    record { buffer = rs.buffer; ok = r.ok && rs.ok; frames = r.frames ++ rs.frames }

unfoldable pub joined : List (List ℕ) → List ℕ
joined [] = []
joined (c ∷ cs) = c ++ joined cs

poisoned_silent :
    (bytes : List ℕ) (p : Bool) (cs : List (List ℕ))
    → p ≡ true
    → let r = feed_all (record { bytes = bytes; poisoned = p }) cs in
      (r.buffer.poisoned ≡ true) × (r.frames ≡ [])
unfolding feed_all feed
poisoned_silent bytes false cs e = cc
poisoned_silent bytes true [] e = (refl, refl)
poisoned_silent bytes true (c ∷ cs) e = poisoned_silent bytes true cs refl

Tells-after :
    (fs : List (List ℕ)) (o : Outcome) (s : Fed)
    → Tells o s
    → Tells (prepend fs o) (record { buffer = s.buffer; ok = s.ok; frames = fs ++ s.frames })
Tells-after fs stuck s h = h
Tells-after fs (violated gs) s h = (h.0, ap (λ x. fs ++ x) h.1, h.2)
Tells-after fs (waiting gs rest) s h = (h.0, ap (λ x. fs ++ x) h.1, h.2)

-- Where the buffer holds no whole frame at the start, and however a stream is cut into chunks, the
-- sink gets the frames that the stream holds, in order; all calls return true unless the stream
-- holds an illegal length, in which case a call returns false and the sink gets only the frames
-- before it; and what is left in the buffer is the frame that is not complete.
pub feed_all-Tells :
    (bytes : List ℕ) (cs : List (List ℕ))
    → Waits bytes
    → Tells (drain (bytes ++ joined cs)) (feed_all (open_buffer bytes) cs)
unfolding feed_all joined
feed_all-Tells bytes [] w = rw (append-nil, w) (refl, refl, refl)
feed_all-Tells bytes (c ∷ cs) w =
    after_first (drain (bytes ++ c)) (feed (open_buffer bytes) c) (drain-Rests (bytes ++ c))
      (feed-Tells bytes c w)
      (subst (λ x. Extends (drain (bytes ++ c)) (joined cs) (drain x))
        (append_assoc bytes c (joined cs)) (drain-append (bytes ++ c) (joined cs)))
      (λ rest r. feed_all-Tells rest cs r)
  where
    after_first :
        (o : Outcome) (r : Fed)
        → Rests o
        → Tells o r
        → Extends o (joined cs) (drain (bytes ++ (c ++ joined cs)))
        → ((rest : List ℕ)
            → Waits rest
            → Tells (drain (rest ++ joined cs)) (feed_all (open_buffer rest) cs))
        → Tells (drain (bytes ++ (c ++ joined cs))) (record {
          buffer = (feed_all r.buffer cs).buffer;
          ok = r.ok && (feed_all r.buffer cs).ok;
          frames = r.frames ++ (feed_all r.buffer cs).frames;
        })
    after_first stuck r rests t e ih = absurd rests
    after_first (violated fs) r rests t e ih =
        let quiet = poisoned_silent r.buffer.bytes r.buffer.poisoned cs t.2 in
        rw e (rw t.0, rw (t.1, quiet.1, append-nil), quiet.0)
    after_first (waiting fs rest) r rests t e ih =
        rw (e, t.0, t.1, t.2) (Tells-after fs (drain (rest ++ joined cs)) _ (ih rest rests))

-- A body that a sender may frame.
abbrev pub IsBody : List ℕ → Type 0
IsBody f = (0 < length f) × (length f ≤ max_frame_len)

-- The stream of a sender: each body behind its length.
unfoldable pub wire : List (List ℕ) → List ℕ
wire [] = []
wire (f ∷ fs) = le_bytes header_len (length f) ++ (f ++ wire fs)

module _ (f : List ℕ) (rest : List ℕ) (h : IsBody f) where
  framed : List ℕ
  framed = le_bytes 2 (length f) ++ (f ++ rest)

  framed_header : take 2 framed ≡ le_bytes 2 (length f)
  unfolding framed le_bytes
  framed_header = refl

  framed_behind_header : drop 2 framed ≡ f ++ rest
  unfolding framed le_bytes
  framed_behind_header = refl

  framed-announced : announced framed ≡ length f
  framed-announced = rw (framed_header) (le_value-le_bytes 2 (length f) (omega arith))

  framed-length : length framed ≡ 2 + (length f + length rest)
  unfolding framed
  framed-length = rw (length-append, length-append, length-le_bytes)

  framed-body : body framed ≡ f
  framed-body = rw (framed-announced, framed_behind_header) (take-append_self f rest)

  framed_behind : behind framed ≡ rest
  framed_behind =
      sym (drop-drop 2 (announced framed) framed)
      ∙ rw (framed-announced, framed_behind_header) (drop-append_self f rest)

  drain-framed : drain framed ≡ prepend (f ∷ []) (drain rest)
  drain-framed =
      drain-Front framed (
        whole (omega (arith, framed-announced)) (omega (arith, framed-announced))
          (omega (arith, framed-announced, framed-length)))
      ∙ ap₂ (λ x y. prepend (x ∷ []) (drain y)) framed-body framed_behind

nothing-Waits : Waits []
unfolding drain drain_loop le_value
nothing-Waits = refl

drain-wire : (fs : List (List ℕ)) → All IsBody fs → drain (wire fs) ≡ waiting fs []
unfolding wire framed
drain-wire [] h = nothing-Waits
drain-wire (f ∷ fs) h = rw (drain-framed f (wire fs) h.0, drain-wire fs h.1)

-- Bodies of 1 to 256 bytes, framed one behind the other and cut into chunks anywhere: a new buffer
-- hands the sink exactly these bodies in their order, every call returns true, and the buffer ends
-- up empty.
pub feed_all-wire :
    (fs cs : List (List ℕ))
    → All IsBody fs
    → joined cs ≡ wire fs
    → feed_all new cs ≡ record { buffer = new; ok = true; frames = fs }
unfolding new
feed_all-wire fs cs h e =
    let t = feed_all-Tells [] cs nothing-Waits in
    let whole_stream : drain (joined cs) ≡ waiting fs [] = ap drain e ∙ drain-wire fs h in
    let t' = rw whole_stream at t in ground (arith, t')

-- Where the buffer holds no whole frame and the call returns true, the buffer holds less afterwards
-- than the longest frame, so that it never fills up.
pub feed-small :
    (bytes chunk : List ℕ)
    → Waits bytes
    → (feed (open_buffer bytes) chunk).ok ≡ true
    → length (feed (open_buffer bytes) chunk).buffer.bytes < header_len + max_frame_len
feed-small bytes chunk w ok =
    small (drain (bytes ++ chunk)) (drain-Rests (bytes ++ chunk)) (feed-Tells bytes chunk w)
  where
    r : Fed
    r = feed (open_buffer bytes) chunk

    small : (o : Outcome) → Rests o → Tells o r → length r.buffer.bytes < header_len + max_frame_len
    small stuck rests t = absurd rests
    small (violated fs) rests t = cc
    small (waiting fs rest) rests t = rw t.2 (Waits-small rest rests)
