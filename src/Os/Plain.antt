-- ===== src/Os/Plain.antt =====
-- Mbufs as plain bytes and queues as plain lists, with memory without end, or for so many mbufs: an
-- operating system that keeps the laws, on which the definitions run.
use blehostd.Prelude.{
  ℕ, zero, suc, ◌+◌, ◌*◌, ◌/◌, ◌%◌, ◌<◌, ◌≡◌, refl, Bool, true, false, Option, none, some, List, [],
  ◌∷◌, ◌++◌, Bytes, length, take, drop, get_or, leb, if◌then◌else◌, arith,
}
use mathlib.Core.Path.{ap₂}
use blehostd.Os.{Os, IsLawful, IsAmple, Sent, sent, again}

abbrev copy_plain : Option Bytes → ℕ → ℕ → Bytes → Bool × Bytes
copy_plain none off len dst = (false, dst)
copy_plain (some m) off len dst =
    if leb (off + len) (length m) then (true, take len (drop off m)) else (false, dst)

abbrev get_plain : List Bytes → Option Bytes × List Bytes
get_plain [] = (none, [])
get_plain (m ∷ q) = (some m, q)

abbrev swapped : ℕ → ℕ
swapped n = n % 256 * 256 + n / 256

-- The socket takes so many packets and then returns MN_EAGAIN.
abbrev pub Line : Type 0
Line = ℕ × List Bytes

abbrev send_plain : Line → Bytes → Sent × Line
send_plain (zero, log) m = (again, (0, log))
send_plain (suc n, log) m = (sent, (n, log ++ (m ∷ [])))

abbrev pub plain : Os
plain = record {
  Mbuf = Bytes;
  Mqueue = List Bytes;
  Pool = Unit;
  Socket = Line;
  pktlen = λ m. length m;
  copydata = copy_plain;
  adj = λ m n. drop n m;
  concat = λ m n. m ++ n;
  get_pkthdr = λ _ pool. (some [], pool);
  extend = λ m more pool. (true, m ++ more, pool);
  append = λ m more pool. (true, m ++ more, pool);
  appendfrom = λ m src off len pool. (true, m ++ take len (drop off src), pool);
  free_chain = λ _ pool. pool;
  mqueue_put = λ q m. (true, q ++ (m ∷ []));
  mqueue_get = get_plain;
  insert_head = λ q m. m ∷ q;
  load16 = λ dst. get_or dst 0 0 + get_or dst 1 0 * 256;
  store16 = λ n. n % 256 ∷ n / 256 ∷ [];
  ntohs = swapped;
  htons = swapped;
  sendto = send_plain;
}

get_empty : (q : List Bytes) → q ≡ [] → ((get_plain q).0 ≡ none) × ((get_plain q).1 ≡ [])
get_empty [] e = (refl, refl)
get_empty (m ∷ q) e = ground arith

get_head :
    (q : List Bytes) (m : Bytes) (rest : List Bytes)
    → q ≡ m ∷ rest
    → ((get_plain q).0 ≡ some m) × ((get_plain q).1 ≡ rest)
get_head [] m rest e = ground arith
get_head (n ∷ q) m rest e = ground arith

store_swapped :
    (n : ℕ)
    → n < 65536
    → ◌≡◌ {A = Bytes} (swapped n % 256 ∷ swapped n / 256 ∷ []) (n / 256 ∷ n % 256 ∷ [])
store_swapped n h = ap₂ (λ hi lo. hi ∷ lo ∷ []) (omega arith) (omega arith)

send_sent :
    (s : Line) (m : Bytes) → (send_plain s m).0 ≡ sent → (send_plain s m).1.1 ≡ s.1 ++ (m ∷ [])
send_sent (zero, log) m e = ground arith
send_sent (suc n, log) m e = refl

send_again : (s : Line) (m : Bytes) → (send_plain s m).0 ≡ again → (send_plain s m).1.1 ≡ s.1
send_again (zero, log) m e = refl
send_again (suc n, log) m e = ground arith

unfoldable pub plain-IsLawful : IsLawful plain
unfolding get_empty get_head store_swapped send_sent send_again
plain-IsLawful = record {
  bytes = λ m. m;
  contents = λ q. q;
  written = λ s. s.1;
  pktlen-eq = λ m. refl;
  copydata-some = λ m off len dst h e. ground arith;
  copydata-short = λ m off len dst h. ground arith;
  copydata-null = λ off len dst h. refl;
  bytes-adj = λ m n h. refl;
  bytes-concat = λ m n. refl;
  bytes-get_pkthdr = λ n pool m e. ground arith;
  bytes-extend = λ m more pool e. refl;
  bytes-append = λ m more pool e. refl;
  bytes-appendfrom = λ m src off len pool h e. refl;
  mqueue_put-succeeds = λ q m. refl;
  contents-put = λ q m. refl;
  mqueue_get-empty = λ q e. get_empty q e;
  mqueue_get-head = λ q m rest e. get_head q m rest e;
  contents-insert_head = λ q m. refl;
  ntohs-load16 = λ hi lo h l. omega arith;
  store16-htons = λ n h. store_swapped n h;
  load16-zero = refl;
  written-sent = λ s m e. send_sent s m e;
  written-again = λ s m e. send_again s m e;
}

pub plain-IsAmple : IsAmple plain
plain-IsAmple = record {
  get_pkthdr-some = λ n pool e. ground arith;
  extend-true = λ m more pool. refl;
  append-true = λ m more pool. refl;
  appendfrom-true = λ m src off len pool. refl;
}
