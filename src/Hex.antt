-- ===== src/Hex.antt =====
-- bhd_hex_str and bhd_addr_str of apps/blehostd/src/bhd_util.c: bytes written as text.
pub mod Fits
use blehostd.Prelude.{
  ℕ, ◌+◌, ◌-◌, ◌*◌, ◌/◌, ◌%◌, ◌≡◌, refl, Bool, true, false, List, [], ◌∷◌, ◌++◌, Bytes, codes, ltb,
  leb, if◌then◌else◌, length, get_or, take,
}

-- `%x` of a number below 16, and `%02x` of a byte.
unfoldable pub hex_char : ℕ → ℕ
hex_char n = if ltb n 10 then b'0' + n else b'a' + (n - 10)

unfoldable pub hex_byte : ℕ → Bytes
unfolding hex_char
hex_byte b = hex_char (b / 16) ∷ hex_char (b % 16) ∷ []

-- What one `snprintf` of the loop prints: `"%s0x%02x"` with the separator from the second byte on.
unfoldable pub hex_piece : Bool → ℕ → Bytes
unfolding hex_byte
hex_piece first b = (if first then [] else b':' ∷ []) ++ (b'0' ∷ b'x' ∷ hex_byte b)

-- `dst` is the text so far, and its length is `off`. `snprintf` writes at most `rem_len - 1` bytes
-- and returns the length that the whole piece has. The result is the text and `off` at the end.
unfoldable pub hex_loop : Bool → Bytes → ℕ → Bytes → Bytes × ℕ
unfolding hex_piece
hex_loop first dst rem_len [] = (dst, length dst)
hex_loop first dst rem_len (b ∷ src) =
    let rc = length (hex_piece first b) in
    let rest = hex_loop false (dst ++ hex_piece first b) (rem_len - rc) src in
    if leb rem_len rc then (dst ++ take (rem_len - 1) (hex_piece first b), length dst) else rest

-- `bhd_hex_str(dst, max_dst_len, &out_dst_len, src, src_len)`: the text in `dst`, `out_dst_len`.
unfoldable pub hex_str : ℕ → Bytes → Bytes × ℕ
unfolding hex_loop
hex_str max_dst_len src = hex_loop true [] max_dst_len src

-- `bhd_addr_str`: the last byte comes first.
unfoldable pub addr_str : Bytes → Bytes
unfolding hex_byte
addr_str addr =
    hex_byte (get_or addr 5 0)
    ++ (b':' ∷ hex_byte (get_or addr 4 0)
        ++ (b':' ∷ hex_byte (get_or addr 3 0)
            ++ (b':' ∷ hex_byte (get_or addr 2 0)
                ++ (b':' ∷ hex_byte (get_or addr 1 0) ++ (b':' ∷ hex_byte (get_or addr 0 0))))))

hex_str_runs : hex_str 11 (1 ∷ 255 ∷ []) ≡ (codes "0x01:0xff", 9)
unfolding hex_str
hex_str_runs = refl

hex_str_cut : hex_str 9 (1 ∷ 255 ∷ []) ≡ (codes "0x01:0xf", 4)
unfolding hex_str
hex_str_cut = refl
