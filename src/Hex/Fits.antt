-- ===== src/Hex/Fits.antt =====
-- How much of its buffer `bhd_hex_str` uses, and when the text is whole.
use blehostd.Prelude.{
  ℕ, ◌+◌, ◌-◌, ◌*◌, ◌≤◌, ◌<◌, ◌≡◌, refl, Bool, true, false, [], ◌∷◌, ◌++◌, arith, Bytes, length,
  take, append_assoc, append-nil, length-append, length-take,
}
use blehostd.Hex.{hex_byte, hex_piece, hex_loop, hex_str}

-- The whole text of the bytes behind the first.
unfoldable pub hex_tail : Bytes → Bytes
hex_tail [] = []
hex_tail (b ∷ src) = b':' ∷ b'0' ∷ b'x' ∷ hex_byte b ++ hex_tail src

-- The text of a byte string, with no bound.
unfoldable pub hex_text : Bytes → Bytes
unfolding hex_tail
hex_text [] = []
hex_text (b ∷ src) = b'0' ∷ b'x' ∷ hex_byte b ++ hex_tail src

length-hex_piece : (first : Bool) (b : ℕ) → length (hex_piece first b) ≤ 5
unfolding hex_piece
length-hex_piece true b = omega arith
length-hex_piece false b = omega arith

length-hex_loop :
    (src : Bytes) (first : Bool) (dst : Bytes) (rem : ℕ)
    → 0 < rem
    → length (hex_loop first dst rem src).0 < length dst + rem
unfolding hex_loop
length-hex_loop [] first dst rem h = omega arith
length-hex_loop (b ∷ src) first dst rem h = ground (
  arith,
  length-hex_loop src false (dst ++ hex_piece first b) (rem - length (hex_piece first b)),
  length-append dst (hex_piece first b),
  length-append dst (take (rem - 1) (hex_piece first b)),
  length-take (rem - 1) (hex_piece first b),
)

-- `bhd_hex_str` never writes past its buffer: for a buffer of `max_dst_len` bytes, at least one, the
-- text and its terminating NUL fit, whatever the bytes.
pub hex_str-fits :
    (max_dst_len : ℕ) (src : Bytes)
    → 0 < max_dst_len
    → length (hex_str max_dst_len src).0 + 1 ≤ max_dst_len
unfolding hex_str
hex_str-fits n src h = omega (arith, length-hex_loop src true [] n h)

hex_loop-hex_tail :
    (src dst : Bytes) (rem : ℕ)
    → 5 * length src < rem
    → (hex_loop false dst rem src).0 ≡ dst ++ hex_tail src
unfolding hex_loop hex_tail
hex_loop-hex_tail [] dst rem h = rw append-nil
hex_loop-hex_tail (b ∷ src) dst rem h = ground (
  arith,
  hex_loop-hex_tail src (dst ++ hex_piece false b) (rem - 5),
  append_assoc dst (hex_piece false b) (hex_tail src),
)

-- Where the buffer has five bytes for each byte of the source, the whole text is written: the bytes
-- as `0xXX`, with a colon between two of them.
pub hex_str-hex_text :
    (max_dst_len : ℕ) (src : Bytes)
    → 5 * length src ≤ max_dst_len
    → (hex_str max_dst_len src).0 ≡ hex_text src
unfolding hex_str hex_text hex_loop
hex_str-hex_text n [] h = refl
hex_str-hex_text n (b ∷ src) h = ground (arith, hex_loop-hex_tail src (hex_piece true b) (n - 4))
