-- ===== src/Parse.antt =====
-- apps/blehostd/src/parse.c: byte strings and addresses as text.
pub mod Bounds
pub mod Reverse
pub mod RoundTrip
use blehostd.Prelude.{
  ℕ, zero, suc, ◌+◌, ◌-◌, ◌/◌, ◌≡◌, refl, Bool, true, false, ◌||◌, not, List, [], ◌∷◌, ◌++◌, Bytes,
  codes, ltb, leb, ◌==◌, if◌then◌else◌, length, get_or, set, streq,
}
use blehostd.Status.{Result, ok, err, minus_one, sys_einval, ◌>>=◌}
use blehostd.Libc.{strtok, strtoul}

-- One round of the loop over the tokens, from `i >= max_len` on. `sval[0]` is NUL only in an empty
-- text, since `strtok` writes behind a token; `first_is_nul` is that test. What was stored before
-- an error is not read by any caller, so the result is the stored bytes on success only.
unfoldable pub parse_token : Bool → Bytes → Result ℕ
unfolding strtoul
parse_token first_is_nul token =
    let (ul, rest) = strtoul token in
    if first_is_nul || not (streq rest []) || ltb 255 ul then err minus_one else ok ul

-- `dst` holds what was stored so far, and `i` is its length.
unfoldable pub parse_tokens : Bool → ℕ → List Bytes → Bytes → Result Bytes
unfolding parse_token
parse_tokens nul max_len [] dst = ok dst
parse_tokens nul max_len (token ∷ ts) dst = elim (leb max_len (length dst)) [
  | true ↦ err sys_einval
  | false ↦ parse_token nul token >>= λ b. parse_tokens nul max_len ts (dst ++ b ∷ [])
]

unfoldable pub parse_arg_byte_stream_delim : Bytes → Bytes → ℕ → Result Bytes
unfolding parse_tokens strtok
parse_arg_byte_stream_delim sval delims max_len =
    parse_tokens (streq sval []) max_len (strtok delims sval) []

unfoldable pub parse_arg_byte_stream : Bytes → ℕ → Result Bytes
unfolding parse_arg_byte_stream_delim
parse_arg_byte_stream val max_len = parse_arg_byte_stream_delim val (codes ":-") max_len

unfoldable pub parse_arg_byte_stream_exact_length : Bytes → ℕ → Result Bytes
unfolding parse_arg_byte_stream
parse_arg_byte_stream_exact_length val len =
    parse_arg_byte_stream val len >>= λ dst. if length dst == len then ok dst else err sys_einval

-- One round: `tmp = bytes[i]; bytes[i] = bytes[len - i - 1]; bytes[len - i - 1] = tmp`.
unfoldable pub swap_ends : Bytes → ℕ → ℕ → Bytes
swap_ends bytes len i =
    set (set bytes i (get_or bytes (len - i - 1) 0)) (len - i - 1) (get_or bytes i 0)

-- The first argument counts the rounds that are left.
unfoldable pub reverse_rounds : ℕ → ℕ → Bytes → ℕ → Bytes
unfolding swap_ends
reverse_rounds zero i bytes len = bytes
reverse_rounds (suc n) i bytes len = reverse_rounds n (i + 1) (swap_ends bytes len i) len

unfoldable pub parse_reverse_bytes : Bytes → ℕ → Bytes
unfolding reverse_rounds
parse_reverse_bytes bytes len = reverse_rounds (len / 2) 0 bytes len

unfoldable pub parse_arg_mac : Bytes → Result Bytes
unfolding parse_arg_byte_stream_exact_length parse_reverse_bytes
parse_arg_mac val =
    parse_arg_byte_stream_exact_length val 6 >>= λ dst. ok (parse_reverse_bytes dst 6)

mac_runs : parse_arg_mac (codes "01:02:0a:ff:00:-10") ≡ ok (0x10 ∷ 0 ∷ 0xff ∷ 0xa ∷ 2 ∷ 1 ∷ [])
unfolding parse_arg_mac
mac_runs = refl
