-- ===== src/Parse/RoundTrip.antt =====
-- The parsers undo the printers `bhd_hex_str` and `bhd_addr_str`.
use blehostd.Prelude.{
  tested, tested_sound, ℕ, ◌+◌, ◌*◌, ◌/◌, ◌%◌, ◌≤◌, ◌<◌, ◌≡◌, refl, Bool, true, false, [], ◌∷◌,
  ◌++◌, map, arith, Bytes, codes, leb, ◌==◌, length, length-append, IsByte, All, append_assoc,
  append-nil, ap, sym, ◌∙◌,
}
use blehostd.Status.{Result, ok, err}
use blehostd.Libc.{contains, flush, tokens_from, strtok}
use blehostd.Hex.{hex_char, hex_byte, hex_str, addr_str}
use blehostd.Hex.Fits.{hex_tail, hex_text, hex_str-hex_text}
use blehostd.Parse.{parse_token, parse_tokens, parse_arg_byte_stream, parse_arg_mac}

abbrev delims : Bytes
delims = codes ":-"

-- A token as the printer writes it.
abbrev token : ℕ → Bytes
token b = b'0' ∷ b'x' ∷ hex_byte b

abbrev reads : Result ℕ → ℕ → Bool
reads (ok v) b = v == b
reads (err _) b = false

token_table : tested (λ b. reads (parse_token false (token b)) b) 256 ≡ true
unfolding tested parse_token hex_byte
token_table = refl

bare_table : tested (λ b. reads (parse_token false (hex_byte b)) b) 256 ≡ true
unfolding tested parse_token hex_byte
bare_table = refl

reads_sound : (r : Result ℕ) (b : ℕ) → reads r b ≡ true → r ≡ ok b
reads_sound (ok v) b h = ground arith
reads_sound (err e) b h = cc

parse_token-token : (b : ℕ) → b < 256 → parse_token false (token b) ≡ ok b
parse_token-token b h = reads_sound _ b (tested_sound _ 256 b h token_table)

parse_token-hex_byte : (b : ℕ) → b < 256 → parse_token false (hex_byte b) ≡ ok b
parse_token-hex_byte b h = reads_sound _ b (tested_sound _ 256 b h bare_table)

hex_char-not-delim : (n : ℕ) → contains delims (hex_char n) ≡ false
unfolding hex_char
hex_char-not-delim n = ground arith

-- A run of bytes that are no delimiters goes into the current token.
abbrev Plain : ℕ → Type 0
Plain c = contains delims c ≡ false

tokens_from-append :
    (p rest cur : Bytes)
    → All Plain p
    → tokens_from delims (p ++ rest) cur ≡ tokens_from delims rest (cur ++ p)
unfolding tokens_from
tokens_from-append [] rest cur h = rw append-nil
tokens_from-append (c ∷ p) rest cur (hc, hp) =
    rw (hc, tokens_from) (rw (tokens_from-append p rest (cur ++ c ∷ []) hp, append_assoc))

token-Plain : (b : ℕ) → All Plain (token b)
unfolding hex_byte
token-Plain b = (refl, (refl, (hex_char-not-delim (b / 16), (hex_char-not-delim (b % 16), tt))))

tokens_from-hex_tail :
    (src cur : Bytes) → tokens_from delims (hex_tail src) cur ≡ flush cur (map token src)
unfolding tokens_from hex_tail
tokens_from-hex_tail [] cur = refl
tokens_from-hex_tail (b ∷ src) cur = ap (flush cur) (
    tokens_from-append (token b) (hex_tail src) [] (token-Plain b)
    ∙ tokens_from-hex_tail src (token b))

strtok-hex_text : (src : Bytes) → strtok delims (hex_text src) ≡ map token src
unfolding strtok hex_text
strtok-hex_text [] = refl
strtok-hex_text (b ∷ src) =
    tokens_from-append (token b) (hex_tail src) [] (token-Plain b)
    ∙ tokens_from-hex_tail src (token b)

module _ (print : ℕ → Bytes)
    (read_back : (b : ℕ) → b < 256 → parse_token false (print b) ≡ ok b) where
  parse_tokens-map :
      (src : Bytes) (max_len : ℕ) (dst : Bytes)
      → length dst + length src ≤ max_len
      → All IsByte src
      → parse_tokens false max_len (map print src) dst ≡ ok (dst ++ src)
  unfolding parse_tokens
  parse_tokens-map [] max_len dst h _ = rw append-nil
  parse_tokens-map (b ∷ src) max_len dst h (hb, hs) =
      let room : leb max_len (length dst) ≡ false = ground arith in
      let rest =
        parse_tokens-map src max_len (dst ++ b ∷ []) (omega (arith, length-append dst (b ∷ [])))
          hs in
      rw (room, parse_tokens) (rw (read_back b hb) (rest ∙ ap ok (append_assoc dst (b ∷ []) src)))

-- The parser reads back what the printer wrote: if the printer's buffer has five bytes for each byte
-- and the parser has room for them, `parse_arg_byte_stream` on the text of `bhd_hex_str` gives the
-- printed bytes.
pub parse_arg_byte_stream-hex_str :
    (max_dst_len max_len : ℕ) (src : Bytes)
    → 5 * length src ≤ max_dst_len
    → length src ≤ max_len
    → All IsByte src
    → parse_arg_byte_stream (hex_str max_dst_len src).0 max_len ≡ ok src
unfolding parse_arg_byte_stream
parse_arg_byte_stream-hex_str n m [] h k bytes =
    rw (hex_str-hex_text n [] h) (unfold hex_text in refl)
parse_arg_byte_stream-hex_str n m (b ∷ src) h k bytes = rw (hex_str-hex_text n (b ∷ src) h) (
    rw (strtok-hex_text (b ∷ src)) (
      unfold hex_text in
      parse_tokens-map token parse_token-token (b ∷ src) m [] (omega arith) bytes))

hex_byte-Plain : (b : ℕ) → All Plain (hex_byte b)
unfolding hex_byte
hex_byte-Plain b = (hex_char-not-delim (b / 16), (hex_char-not-delim (b % 16), tt))

-- A printed byte, a colon and the text behind it.
tokens_from-hex_byte :
    (b : ℕ) (rest : Bytes)
    → tokens_from delims (hex_byte b ++ (b':' ∷ rest)) [] ≡ hex_byte b ∷ tokens_from delims rest []
tokens_from-hex_byte b rest =
    tokens_from-append (hex_byte b) (b':' ∷ rest) [] (hex_byte-Plain b)
    ∙ (unfold tokens_from hex_byte in refl)

tokens_from-last : (b : ℕ) → tokens_from delims (hex_byte b) [] ≡ hex_byte b ∷ []
tokens_from-last b =
    ap (λ t. tokens_from delims t []) (sym (append-nil (hex_byte b)))
    ∙ tokens_from-append (hex_byte b) [] [] (hex_byte-Plain b)
    ∙ (unfold tokens_from hex_byte in refl)

strtok-addr_str :
    (a b c d e f : ℕ)
    → strtok delims (addr_str (a ∷ b ∷ c ∷ d ∷ e ∷ f ∷ []))
      ≡ map hex_byte (f ∷ e ∷ d ∷ c ∷ b ∷ a ∷ [])
unfolding strtok addr_str
strtok-addr_str a b c d e f = rw (
  tokens_from-hex_byte f,
  tokens_from-hex_byte e,
  tokens_from-hex_byte d,
  tokens_from-hex_byte c,
  tokens_from-hex_byte b,
  tokens_from-last a,
)

mac-addr_str :
    (a b c d e f : ℕ)
    → All IsByte (f ∷ e ∷ d ∷ c ∷ b ∷ a ∷ [])
    → parse_arg_mac (addr_str (a ∷ b ∷ c ∷ d ∷ e ∷ f ∷ [])) ≡ ok (a ∷ b ∷ c ∷ d ∷ e ∷ f ∷ [])
unfolding parse_arg_mac
mac-addr_str a b c d e f h = rw (strtok-addr_str a b c d e f) (
    unfold addr_str in
    rw (
      parse_tokens-map hex_byte parse_token-hex_byte (f ∷ e ∷ d ∷ c ∷ b ∷ a ∷ []) 6 [] (omega arith)
        h))

-- `parse_arg_mac` reads back the address that `bhd_addr_str` wrote, for every six bytes.
pub parse_arg_mac-addr_str :
    (addr : Bytes) → length addr ≡ 6 → All IsByte addr → parse_arg_mac (addr_str addr) ≡ ok addr
parse_arg_mac-addr_str (a ∷ b ∷ c ∷ d ∷ e ∷ f ∷ []) n (ha, (hb, (hc, (hd, (he, (hf, _)))))) =
    mac-addr_str a b c d e f (hf, (he, (hd, (hc, (hb, (ha, tt))))))
parse_arg_mac-addr_str [] n h = absurd (omega arith)
parse_arg_mac-addr_str (a ∷ []) n h = absurd (omega arith)
parse_arg_mac-addr_str (a ∷ b ∷ []) n h = absurd (omega arith)
parse_arg_mac-addr_str (a ∷ b ∷ c ∷ []) n h = absurd (omega arith)
parse_arg_mac-addr_str (a ∷ b ∷ c ∷ d ∷ []) n h = absurd (omega arith)
parse_arg_mac-addr_str (a ∷ b ∷ c ∷ d ∷ e ∷ []) n h = absurd (omega arith)
parse_arg_mac-addr_str (a ∷ b ∷ c ∷ d ∷ e ∷ f ∷ g ∷ r) n h = absurd (omega arith)
