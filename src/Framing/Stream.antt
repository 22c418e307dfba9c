-- ===== src/Framing/Stream.antt =====
-- Chunks of a byte stream through the buffer of net/framing.hpp: the chunking does not matter, and
-- the buffer never fills up.
use limit_order_book.Base.{
  ℕ, zero, suc, ◌+◌, ◌-◌, ◌≤◌, ◌<◌, ◌≡◌, refl, ◌≢◌, ap, sym, subst, ◌∙◌, List, [], ◌∷◌, ◌++◌, arith,
  take, drop, length, min, length-drop, append_assoc, append-nil,
}
use limit_order_book.Protocol.{max_frame_len, header_len}
use limit_order_book.Framing.{
  Outcome, stuck, violated, waiting, prepend, drain, feed_loop, capacity,
}
use limit_order_book.Framing.Drain.{
  Front, no_header, illegal, partial, whole, front, announced, body, behind, drain-Front,
  drain-append, Extends,
}

-- Bytes that are no whole frame yet.
abbrev pub Waits : List ℕ → Type 0
Waits bytes = drain bytes ≡ waiting [] bytes

-- They leave room in the buffer.
pub Waits-small : (bytes : List ℕ) → Waits bytes → length bytes < header_len + max_frame_len
Waits-small bytes h = by_front (front bytes)
  where
    whole_waits : (o : Outcome) (f : List ℕ) → prepend (f ∷ []) o ≢ waiting [] bytes
    whole_waits stuck f e = cc
    whole_waits (violated gs) f e = cc
    whole_waits (waiting gs rest) f e = cc

    by_front : Front bytes → length bytes < header_len + max_frame_len
    by_front (no_header l) = omega arith
    by_front (illegal l b) = absurd (cc (h, drain-Front bytes (illegal l b)))
    by_front (partial l p u c) = omega arith
    by_front (whole p u c) = absurd (whole_waits _ _ (sym (drain-Front bytes (whole p u c)) ∙ h))

-- What the parser leaves waits, and it always comes to an end.
abbrev pub Rests : Outcome → Type 0
Rests stuck = ⊥
Rests (violated fs) = Unit
Rests (waiting fs rest) = Waits rest

Rests-prepend : (fs : List (List ℕ)) (o : Outcome) → Rests o → Rests (prepend fs o)
Rests-prepend fs stuck h = elim h [ ]
Rests-prepend fs (violated gs) h = h
Rests-prepend fs (waiting gs rest) h = h

drain-Rests_below : (n : ℕ) (bytes : List ℕ) → length bytes < n → Rests (drain bytes)
drain-Rests_below zero bytes h = absurd (omega arith)
drain-Rests_below (suc n) bytes h = by_front (front bytes) (λ c.
    drain-Rests_below n (behind bytes) (omega (arith, length-drop (2 + announced bytes) bytes)))
  where
    by_front :
        Front bytes
        → (2 + announced bytes ≤ length bytes → Rests (drain (behind bytes)))
        → Rests (drain bytes)
    by_front (no_header l) ih =
        rw (drain-Front bytes (no_header l)) (drain-Front bytes (no_header l))
    by_front (illegal l b) ih = rw (drain-Front bytes (illegal l b)) tt
    by_front (partial l p u c) ih =
        rw (drain-Front bytes (partial l p u c)) (drain-Front bytes (partial l p u c))
    by_front (whole p u c) ih =
        rw (drain-Front bytes (whole p u c)) (Rests-prepend (body bytes ∷ []) _ (ih c))

pub drain-Rests : (bytes : List ℕ) → Rests (drain bytes)
drain-Rests bytes = drain-Rests_below (suc (length bytes)) bytes (omega arith)

take-append-drop : (n : ℕ) (xs : List ℕ) → take n xs ++ drop n xs ≡ xs
take-append-drop zero xs = refl
take-append-drop (suc n) [] = refl
take-append-drop (suc n) (x ∷ xs) = rw (take-append-drop n xs)

-- A round of `feed`, given what `drain` made of the filled buffer.
abbrev feed_round : Outcome → (List ℕ → Outcome) → Outcome
feed_round stuck again = stuck
feed_round (violated fs) again = violated fs
feed_round (waiting fs rest) again = prepend fs (again rest)

feed_loop-nil : (fuel : ℕ) (bytes : List ℕ) → feed_loop fuel bytes [] ≡ waiting [] bytes
unfolding feed_loop
feed_loop-nil zero bytes = refl
feed_loop-nil (suc fuel) bytes = refl

feed_loop-round :
    (fuel : ℕ) (bytes : List ℕ) (b : ℕ) (chunk : List ℕ)
    → let n = min (length (b ∷ chunk)) (capacity - length bytes) in
      feed_loop (suc fuel) bytes (b ∷ chunk)
      ≡ feed_round
          (drain (bytes ++ take n (b ∷ chunk)))
          (λ rest. feed_loop fuel rest (drop n (b ∷ chunk)))
unfolding feed_loop
feed_loop-round fuel bytes b chunk = ground arith

-- Where the buffer holds no whole frame, rounds of feed as many as the chunk has bytes are enough
-- to consume the chunk, and they parse the buffer and the chunk as one stream: neither the fuel nor
-- the capacity of the buffer shows.
pub feed_loop-drain :
    (fuel : ℕ) (bytes chunk : List ℕ)
    → length chunk ≤ fuel
    → Waits bytes
    → feed_loop fuel bytes chunk ≡ drain (bytes ++ chunk)
feed_loop-drain fuel bytes [] h w = rw (feed_loop-nil, append-nil) (sym w)
feed_loop-drain zero bytes (b ∷ chunk) h w = absurd (omega arith)
feed_loop-drain (suc fuel) bytes (b ∷ chunk) h w = rw (feed_loop-round fuel bytes b chunk) (
    rounds (drain (bytes ++ take n (b ∷ chunk))) (drain-Rests (bytes ++ take n (b ∷ chunk))) joined
      (λ rest r.
        feed_loop-drain fuel rest (drop n (b ∷ chunk))
          (omega (arith, Waits-small bytes w, length-drop n (b ∷ chunk))) r))
  where
    n : ℕ
    n = min (length (b ∷ chunk)) (capacity - length bytes)

    joined :
        Extends
          (drain (bytes ++ take n (b ∷ chunk)))
          (drop n (b ∷ chunk))
          (drain (bytes ++ b ∷ chunk))
    joined =
        subst (λ x. Extends (drain (bytes ++ take n (b ∷ chunk))) (drop n (b ∷ chunk)) (drain x))
          (append_assoc bytes _ _ ∙ ap (λ x. bytes ++ x) (take-append-drop n (b ∷ chunk)))
          (drain-append (bytes ++ take n (b ∷ chunk)) (drop n (b ∷ chunk)))

    rounds :
        (o : Outcome)
        → Rests o
        → Extends o (drop n (b ∷ chunk)) (drain (bytes ++ b ∷ chunk))
        → ((rest : List ℕ)
            → Waits rest
            → feed_loop fuel rest (drop n (b ∷ chunk)) ≡ drain (rest ++ drop n (b ∷ chunk)))
        → feed_round o (λ rest. feed_loop fuel rest (drop n (b ∷ chunk)))
          ≡ drain (bytes ++ b ∷ chunk)
    rounds stuck r e ih = absurd r
    rounds (violated fs) r e ih = sym e
    rounds (waiting fs rest) r e ih = rw (e, ih rest r)
