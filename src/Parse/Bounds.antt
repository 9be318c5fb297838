-- ===== src/Parse/Bounds.antt =====
-- What the byte stream parser stores: bytes, and no more of them than the caller has room for.
use blehostd.Prelude.{
  ℕ, ◌≤◌, ◌<◌, ◌≡◌, Bool, inl, inr, Bool-cases, List, [], ◌∷◌, ◌++◌, arith, Bytes, leb, length,
  length-append, IsByte, All, All-append,
}
use blehostd.Status.{ok, >>=-ok, ◌>>=◌}
use blehostd.Parse.{parse_token, parse_tokens, parse_arg_byte_stream}

parse_token-IsByte : (nul : Bool) (t : Bytes) (b : ℕ) → parse_token nul t ≡ ok b → b < 256
unfolding parse_token
parse_token-IsByte nul t b h = ground arith

-- An accepted token was stored below the bound.
parse_tokens-cons :
    (t : Bytes) (ts : List Bytes) (nul : Bool) (max_len : ℕ) (dst out : Bytes)
    → parse_tokens nul max_len (t ∷ ts) dst ≡ ok out
    → (b : ℕ) × (parse_token nul t ≡ ok b)
      × (length dst < max_len)
      × (parse_tokens nul max_len ts (dst ++ b ∷ []) ≡ ok out)
unfolding parse_tokens
parse_tokens-cons t ts nul max_len dst out h = elim (Bool-cases (leb max_len (length dst))) [
  | inl full ↦ absurd (ground arith)
  | inr room ↦
      (let e : (parse_token nul t >>= λ b. parse_tokens nul max_len ts (dst ++ b ∷ [])) ≡ ok out =
          ground arith in
        let (b, rest, read) = >>=-ok _ (parse_token nul t) e in (b, read, ground arith, rest))
]

parse_tokens_bounds :
    (ts : List Bytes) (nul : Bool) (max_len : ℕ) (dst out : Bytes)
    → length dst ≤ max_len
    → All IsByte dst
    → parse_tokens nul max_len ts dst ≡ ok out
    → (length out ≤ max_len) × All IsByte out
parse_tokens_bounds [] nul max_len dst out fits bytes h =
    unfold parse_tokens in (let e : dst ≡ out = cc in rw (← e) (fits, bytes))
parse_tokens_bounds (t ∷ ts) nul max_len dst out fits bytes h =
    let (b, read, room, rest) = parse_tokens-cons t ts nul max_len dst out h in
    parse_tokens_bounds ts nul max_len (dst ++ b ∷ []) out
      (omega (arith, length-append dst (b ∷ [])))
      (All-append IsByte dst (b ∷ []) bytes (parse_token-IsByte nul t b read, tt)) rest

-- What `parse_arg_byte_stream` accepts has at most `max_len` bytes, and each is a byte.
pub parse_arg_byte_stream_bounds :
    (val : Bytes) (max_len : ℕ) (dst : Bytes)
    → parse_arg_byte_stream val max_len ≡ ok dst
    → (length dst ≤ max_len) × All IsByte dst
unfolding parse_arg_byte_stream
parse_arg_byte_stream_bounds val max_len dst h =
    parse_tokens_bounds _ _ max_len [] dst (omega arith) tt h
