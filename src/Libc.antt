-- ===== src/Libc.antt =====
-- The functions of the C library that the parsers call: `strtok`, by the sequence of tokens that it
-- returns, and `strtoul` in base 16 with a 64-bit `unsigned long`.
use blehostd.Prelude.{
  ℕ, ◌+◌, ◌-◌, ◌*◌, ◌%◌, ◌^◌, Bool, true, false, ◌&&◌, ◌||◌, Option, none, some, List, [], ◌∷◌,
  ◌++◌, Bytes, leb, ◌==◌, if◌then◌else◌,
}

abbrev pub contains : Bytes → ℕ → Bool
contains [] c = false
contains (d ∷ ds) c = c == d || contains ds c

-- A finished run of bytes is a token if it is not empty.
abbrev pub flush : Bytes → List Bytes → List Bytes
flush [] ts = ts
flush (c ∷ cur) ts = (c ∷ cur) ∷ ts

unfoldable pub tokens_from : Bytes → Bytes → Bytes → List Bytes
tokens_from delims [] cur = flush cur []
tokens_from delims (c ∷ s) cur = elim (contains delims c) [
  | true ↦ flush cur (tokens_from delims s [])
  | false ↦ tokens_from delims s (cur ++ c ∷ [])
]

-- What `strtok(s, delims)` and then `strtok(NULL, delims)` return, up to the first NULL.
unfoldable pub strtok : Bytes → Bytes → List Bytes
unfolding tokens_from
strtok delims s = tokens_from delims s []

-- The value of a hexadecimal digit.
unfoldable pub hex_digit : ℕ → Option ℕ
hex_digit c =
    if leb b'0' c && leb c b'9'
    then some (c - b'0')
    else if leb b'a' c && leb c b'f'
    then some (c - b'a' + 10)
    else if leb b'A' c && leb c b'F'
    then some (c - b'A' + 10)
    else none

unfoldable pub is_hex : Bytes → Bool
unfolding hex_digit
is_hex [] = false
is_hex (c ∷ s) = elim (hex_digit c) [ none ↦ false | some _ ↦ true ]

-- The value of the digits at the front, and the text behind them.
unfoldable pub hex_run : Bytes → ℕ → ℕ × Bytes
unfolding hex_digit
hex_run [] acc = (acc, [])
hex_run (c ∷ s) acc = elim (hex_digit c) [ none ↦ (acc, c ∷ s) | some d ↦ hex_run s (acc * 16 + d) ]

unfoldable pub is_space : ℕ → Bool
is_space c = c == 32 || (leb 9 c && leb c 13)

unfoldable pub skip_space : Bytes → Bytes
unfolding is_space
skip_space [] = []
skip_space (c ∷ s) = if is_space c then skip_space s else c ∷ s

-- Whether there is a minus sign, and the text behind the sign.
unfoldable pub skip_sign : Bytes → Bool × Bytes
skip_sign [] = (false, [])
skip_sign (c ∷ s) =
    if c == b'-' then (true, s) else if c == b'+' then (false, s) else (false, c ∷ s)

-- `0x` is skipped only where a digit follows.
unfoldable pub skip_prefix : Bytes → Bytes
unfolding is_hex
skip_prefix (z ∷ x ∷ s) = if z == b'0' && (x == b'x' || x == b'X') && is_hex s then s else z ∷ x ∷ s
skip_prefix s = s

abbrev pub ulong_mod : ℕ
ulong_mod = 2 ^ 64

-- Saturation, then negation in `unsigned long`.
unfoldable pub to_ulong : Bool → ℕ → ℕ
to_ulong neg v =
    if leb ulong_mod v then ulong_mod - 1 else if neg then (ulong_mod - v) % ulong_mod else v

-- `strtoul(s, &endptr, 16)`: the number, and the text at `endptr`.
unfoldable pub strtoul : Bytes → ℕ × Bytes
unfolding is_hex hex_run skip_space skip_sign skip_prefix to_ulong
strtoul s =
    let (neg, t) = skip_sign (skip_space s) in
    let digits = skip_prefix t in
    let (v, rest) = hex_run digits 0 in if is_hex digits then (to_ulong neg v, rest) else (0, s)

-- The C string in a buffer: the bytes before the first NUL.
unfoldable pub c_string : Bytes → Bytes
c_string [] = []
c_string (c ∷ buf) = let rest = c_string buf in if c == 0 then [] else c ∷ rest
