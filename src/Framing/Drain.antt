-- ===== src/Framing/Drain.antt =====
-- The parser of net/framing.hpp on whole streams: enough fuel, what it accepts, and what a longer
-- stream changes.
use limit_order_book.Base.{
  ℕ, zero, suc, ◌+◌, ◌≤◌, ◌<◌, ◌≡◌, refl, ap₂, sym, ◌∙◌, true, false, ◌||◌, ◌⊎◌, inl, inr, List, [],
  ◌∷◌, ◌++◌, arith, ltb, ◌==◌, take, drop, length, length-append, length-drop, append_assoc,
  Bool-cases, dec_lt, lt→ltb, not_lt→ltb,
}
use limit_order_book.Protocol.{header_len}
use limit_order_book.Protocol.Bytes.{le_value}
use limit_order_book.Framing.{Outcome, stuck, violated, waiting, prepend, drain_loop, drain}

-- Any two amounts of fuel over the length of the stream give the same.
drain_loop-fuel :
    (f g : ℕ) (rest : List ℕ)
    → length rest < f
    → length rest < g
    → drain_loop f rest ≡ drain_loop g rest
unfolding drain_loop
drain_loop-fuel zero g rest h k = absurd (omega arith)
drain_loop-fuel (suc f) zero rest h k = absurd (omega arith)
drain_loop-fuel (suc f) (suc g) rest h k =
    let len = le_value (take header_len rest) in
    elim (Bool-cases (ltb (length rest) header_len)) [
      | inl a ↦ rw a
      | inr a ↦
          let tail = drop (header_len + len) rest in
          let some_bytes : 2 ≤ length rest = ground arith in
          let shorter : length tail + 2 ≤ length rest =
            omega (arith, length-drop (header_len + len) rest) in
          rw (a, drain_loop-fuel f g tail (omega arith) (omega arith))
    ]

-- The length in the header.
abbrev pub announced : List ℕ → ℕ
announced rest = le_value (take header_len rest)

-- What stands at the front of a stream.
pub data Front (rest : List ℕ) : Type 0 where
  no_header : length rest < 2 → Front rest
  illegal : 2 ≤ length rest → (announced rest ≡ 0) ⊎ (256 < announced rest) → Front rest
  partial :
      2 ≤ length rest
      → 0 < announced rest
      → announced rest ≤ 256
      → length rest < 2 + announced rest
      → Front rest
  whole : 0 < announced rest → announced rest ≤ 256 → 2 + announced rest ≤ length rest → Front rest

pub front : (rest : List ℕ) → Front rest
front rest = elim (dec_lt (length rest) 2) [
  | yes short ↦ no_header short
  | no long ↦ elim (dec_lt 0 (announced rest)) [
    | no zero_len ↦ illegal (omega arith) (inl (omega arith))
    | yes some_len ↦ elim (dec_lt 256 (announced rest)) [
      | yes over ↦ illegal (omega arith) (inr over)
      | no legal ↦ elim (dec_lt (length rest) (2 + announced rest)) [
        | yes cut ↦ partial (omega arith) some_len (omega arith) cut
        | no all ↦ whole some_len (omega arith) (omega arith)
      ]
    ]
  ]
]

-- The body of the frame at the front, and the stream behind it.
abbrev pub body : List ℕ → List ℕ
body rest = take (announced rest) (drop header_len rest)

abbrev pub behind : List ℕ → List ℕ
behind rest = drop (header_len + announced rest) rest

abbrev pub answer : {rest : List ℕ} → Front rest → Outcome
answer {rest} (no_header _) = waiting [] rest
answer {rest} (illegal _ _) = violated []
answer {rest} (partial _ _ _ _) = waiting [] rest
answer {rest} (whole _ _ _) = prepend (body rest ∷ []) (drain (behind rest))

-- A round of the loop does what the front of the stream asks for.
pub drain-Front : (rest : List ℕ) (f : Front rest) → drain rest ≡ answer f
unfolding drain drain_loop
drain-Front rest (no_header h) = rw (lt→ltb (length rest) 2 h)
drain-Front rest (illegal l h) =
    let bad : (announced rest == 0 || ltb 256 (announced rest)) ≡ true = ground arith in
    rw (not_lt→ltb (length rest) 2 (omega arith), bad)
drain-Front rest (partial l p u c) =
    let good : (announced rest == 0 || ltb 256 (announced rest)) ≡ false = ground arith in
    rw (not_lt→ltb (length rest) 2 (omega arith), good, lt→ltb (length rest) (2 + announced rest) c)
drain-Front rest (whole p u c) =
    let good : (announced rest == 0 || ltb 256 (announced rest)) ≡ false = ground arith in
    let shorter = length-drop (header_len + announced rest) rest in
    rw (
      not_lt→ltb (length rest) 2 (omega arith),
      good,
      not_lt→ltb (length rest) (2 + announced rest) (omega arith),
      drain_loop-fuel (length rest) (suc (length (behind rest))) (behind rest) (omega arith)
          (omega arith),
    )

module _ {ℓ} {A : Type ℓ} where
  take-append_le : (n : ℕ) (xs ys : List A) → n ≤ length xs → take n (xs ++ ys) ≡ take n xs
  take-append_le zero xs ys h = refl
  take-append_le (suc n) [] ys h = absurd (omega arith)
  take-append_le (suc n) (x ∷ xs) ys h = rw (take-append_le n xs ys (omega arith))

  drop-append_le : (n : ℕ) (xs ys : List A) → n ≤ length xs → drop n (xs ++ ys) ≡ drop n xs ++ ys
  drop-append_le zero xs ys h = refl
  drop-append_le (suc n) [] ys h = absurd (omega arith)
  drop-append_le (suc n) (x ∷ xs) ys h = drop-append_le n xs ys (omega arith)

prepend-prepend :
    (fs gs : List (List ℕ)) (o : Outcome) → prepend fs (prepend gs o) ≡ prepend (fs ++ gs) o
prepend-prepend fs gs stuck = refl
prepend-prepend fs gs (violated hs) = rw (append_assoc fs gs hs)
prepend-prepend fs gs (waiting hs rest) = rw (append_assoc fs gs hs)

-- What bytes behind a stream change: an illegal length is as it was, and bytes that waited are
-- parsed with the new ones.
abbrev pub Extends : Outcome → List ℕ → Outcome → Type 0
Extends stuck more o = ⊥
Extends (violated fs) more o = o ≡ violated fs
Extends (waiting fs rest) more o = o ≡ prepend fs (drain (rest ++ more))

pub prepend-nil : (o : Outcome) → prepend [] o ≡ o
prepend-nil stuck = refl
prepend-nil (violated fs) = refl
prepend-nil (waiting fs rest) = refl

Extends-prepend :
    (fs : List (List ℕ)) (o p : Outcome) (more : List ℕ)
    → Extends o more p
    → Extends (prepend fs o) more (prepend fs p)
Extends-prepend fs stuck p more h = h
Extends-prepend fs (violated gs) p more h = rw h
Extends-prepend fs (waiting gs rest) p more h = rw (h, prepend-prepend)

module _ (bytes more : List ℕ) where
  header_kept : 2 ≤ length bytes → announced (bytes ++ more) ≡ announced bytes
  header_kept l = rw (take-append_le 2 bytes more l)

  body_kept : 2 + announced bytes ≤ length bytes → body (bytes ++ more) ≡ body bytes
  body_kept c = rw (
    header_kept (omega arith),
    drop-append_le 2 bytes more (omega arith),
    take-append_le (announced bytes) (drop 2 bytes) more (omega (arith, length-drop 2 bytes)),
  )

  behind_kept : 2 + announced bytes ≤ length bytes → behind (bytes ++ more) ≡ behind bytes ++ more
  behind_kept c =
      rw (header_kept (omega arith), drop-append_le (2 + announced bytes) bytes more (omega arith))

  Extends-illegal :
      2 ≤ length bytes
      → (announced bytes ≡ 0) ⊎ (256 < announced bytes)
      → Extends (drain bytes) more (drain (bytes ++ more))
  Extends-illegal l b =
      let longer = length-append bytes more in
      rw (drain-Front bytes (illegal l b))
        (drain-Front (bytes ++ more) (illegal (omega arith) (rw (header_kept l) b)))

  Extends-whole :
      0 < announced bytes
      → announced bytes ≤ 256
      → 2 + announced bytes ≤ length bytes
      → Extends (drain (behind bytes)) more (drain (behind bytes ++ more))
      → Extends (drain bytes) more (drain (bytes ++ more))
  Extends-whole p u c ih =
      let longer = length-append bytes more in
      let same = header_kept (omega arith) in
      let front_more : Front (bytes ++ more) = whole (omega arith) (omega arith) (omega arith) in
      let step : drain (bytes ++ more) ≡ prepend (body bytes ∷ []) (drain (behind bytes ++ more)) =
        drain-Front (bytes ++ more) front_more
        ∙ ap₂ (λ x y. prepend (x ∷ []) (drain y)) (body_kept c) (behind_kept c) in
      rw (drain-Front bytes (whole p u c), step)
        (Extends-prepend (body bytes ∷ []) (drain (behind bytes)) _ more ih)

drain-append_below :
    (n : ℕ) (bytes more : List ℕ)
    → length bytes < n
    → Extends (drain bytes) more (drain (bytes ++ more))
drain-append_below zero bytes more h = absurd (omega arith)
drain-append_below (suc n) bytes more h = by_front (front bytes) (λ c.
    drain-append_below n (behind bytes) more
      (omega (arith, length-drop (2 + announced bytes) bytes)))
  where
    by_front :
        Front bytes
        → (2 + announced bytes ≤ length bytes
            → Extends (drain (behind bytes)) more (drain (behind bytes ++ more)))
        → Extends (drain bytes) more (drain (bytes ++ more))
    by_front (no_header l) ih = rw (drain-Front bytes (no_header l)) (sym (prepend-nil _))
    by_front (partial l p u c) ih = rw (drain-Front bytes (partial l p u c)) (sym (prepend-nil _))
    by_front (illegal l b) ih = Extends-illegal bytes more l b
    by_front (whole p u c) ih = Extends-whole bytes more p u c (ih c)

pub drain-append : (bytes more : List ℕ) → Extends (drain bytes) more (drain (bytes ++ more))
drain-append bytes more = drain-append_below (suc (length bytes)) bytes more (omega arith)
