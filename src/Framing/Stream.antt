-- ===== src/Framing/Stream.antt =====
-- What the stream of the socket means: packets of 1 to 10240 bytes, each behind its length in network
-- order.
use blehostd.Prelude.{ℕ, ◌+◌, ◌*◌, ◌≤◌, ◌<◌, ◌≡◌, List, [], ◌∷◌, ◌++◌, Bytes, IsByte, length}
use blehostd.Framing.{max_msg_sz}

-- The two bytes of a length that the reader takes for one.
abbrev pub IsHeader : ℕ → ℕ → Type 0
IsHeader hi lo = IsByte hi × IsByte lo × (0 < hi * 256 + lo) × (hi * 256 + lo ≤ max_msg_sz)

-- `Frames stream packets rest`: the stream has these packets, and then `rest`, which is empty or a header
-- with less than its packet.
pub data Frames : Bytes → List Bytes → Bytes → Type 0 where
  empty : Frames [] [] []
  short :
      (hi lo : ℕ) (part : Bytes)
      → IsHeader hi lo
      → length part < hi * 256 + lo
      → Frames (hi ∷ lo ∷ part) [] (hi ∷ lo ∷ part)
  one :
      (hi lo : ℕ) (body stream : Bytes) (packets : List Bytes) (rest : Bytes)
      → IsHeader hi lo
      → length body ≡ hi * 256 + lo
      → Frames stream packets rest
      → Frames (hi ∷ lo ∷ (body ++ stream)) (body ∷ packets) rest

-- `Feed held chunks packets rest`: with `held` left from before, each chunk completes some packets, none
-- ends behind the first byte of a header, and `rest` is left behind the last one.
pub data Feed : Bytes → List Bytes → List Bytes → Bytes → Type 0 where
  done : (held : Bytes) → Feed held [] [] held
  chunk :
      (held bytes : Bytes) (chunks packets later : List Bytes) (between rest : Bytes)
      → 0 < length bytes
      → Frames (held ++ bytes) packets between
      → Feed between chunks later rest
      → Feed held (bytes ∷ chunks) (packets ++ later) rest
