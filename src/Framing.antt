-- ===== src/Framing.antt =====
-- net/framing.hpp: reassembly of frames from the chunks of a byte stream. `bytes` is the filled part
-- of the buffer, and the sink is the list of the bodies that it was given.
pub mod Drain
pub mod Stream
pub mod Chunks
use limit_order_book.Base.{
  ℕ, zero, suc, ◌+◌, ◌-◌, Bool, true, false, ◌||◌, List, [], ◌∷◌, ◌++◌, ltb, ◌==◌, if◌then◌else◌,
  take, drop, length, min,
}
use limit_order_book.Protocol.{max_frame_len, header_len}
use limit_order_book.Protocol.Bytes.{le_value}

abbrev pub capacity : ℕ
capacity = 4096

pub record FrameBuffer : Type 0 where
  pub bytes : List ℕ
  pub poisoned : Bool

pub new : FrameBuffer
new = record { bytes = []; poisoned = false }

-- How a run of the parser ends: at an illegal length, or with some bytes left that are no whole
-- frame. `stuck` is no outcome of the code: the fuel ran out.
pub data Outcome : Type 0 where
  stuck : Outcome
  violated : List (List ℕ) → Outcome
  waiting : List (List ℕ) → List ℕ → Outcome

abbrev pub prepend : List (List ℕ) → Outcome → Outcome
prepend fs stuck = stuck
prepend fs (violated gs) = violated (fs ++ gs)
prepend fs (waiting gs rest) = waiting (fs ++ gs) rest

-- The loop of `drain`. `rest` is the buffer from `pos` to `fill_`, so `fill_ - pos` is its length.
unfoldable pub drain_loop : ℕ → List ℕ → Outcome
drain_loop zero rest = stuck
drain_loop (suc fuel) rest =
    let len = le_value (take header_len rest) in
    let next = drain_loop fuel (drop (header_len + len) rest) in
    if ltb (length rest) header_len
    then waiting [] rest
    else if len == 0 || ltb max_frame_len len
    then violated []
    else if ltb (length rest) (header_len + len)
    then waiting [] rest
    else prepend (take len (drop header_len rest) ∷ []) next

-- A round takes a byte at least, so this fuel is enough.
unfoldable pub drain : List ℕ → Outcome
drain bytes = drain_loop (suc (length bytes)) bytes

-- The loop of `feed`: top the buffer up with what fits, and drain it.
unfoldable pub feed_loop : ℕ → List ℕ → List ℕ → Outcome
feed_loop fuel bytes [] = waiting [] bytes
feed_loop zero bytes (b ∷ chunk) = stuck
feed_loop (suc fuel) bytes (b ∷ chunk) =
    let space = capacity - length bytes in
    let n = min (length (b ∷ chunk)) space in
    elim (drain (bytes ++ take n (b ∷ chunk))) [
      | stuck ↦ stuck
      | violated fs ↦ violated fs
      | waiting fs rest ↦ prepend fs (feed_loop fuel rest (drop n (b ∷ chunk)))
    ]

-- The buffer after a call, whether the call returned true, and the bodies given to the sink.
pub record Fed : Type 0 where
  pub buffer : FrameBuffer
  pub ok : Bool
  pub frames : List (List ℕ)

-- After an illegal length the flag is set, and the bytes do not count: `feed` never reads them again.
abbrev pub fed : FrameBuffer → Outcome → Fed
fed fb stuck = record { buffer = fb; ok = false; frames = [] }
fed fb (violated fs) = record { buffer = record fb { poisoned = true }; ok = false; frames = fs }
fed fb (waiting fs rest) = record { buffer = record fb { bytes = rest }; ok = true; frames = fs }

unfoldable pub feed : FrameBuffer → List ℕ → Fed
feed fb chunk =
    if fb.poisoned
    then record { buffer = fb; ok = false; frames = [] }
    else fed fb (feed_loop (length chunk) fb.bytes chunk)
