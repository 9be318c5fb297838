-- ===== src/Os.antt =====
-- The operating system below apps/blehostd/src/main.c: the mbufs, the message queues and the socket of
-- Mynewt, whose code is outside the repository. `Os` has the functions that main.c calls, `IsLawful`
-- what their documentation says of them, and `IsAmple` says that no allocation fails.
pub mod Plain
use blehostd.Prelude.{
  ℕ, ◌+◌, ◌*◌, ◌/◌, ◌%◌, ◌≤◌, ◌<◌, ◌≡◌, ◌≢◌, Bool, true, false, Option, none, some, List, [], ◌∷◌,
  ◌++◌, Bytes, length, take, drop,
}

-- What `mn_sendto` returns: 0, MN_EAGAIN, or another code.
pub data Sent : Type 0 where
  sent : Sent
  again : Sent
  failed : Sent

-- A Boolean result is true where the function returns 0, or not NULL.
pub record Os : Type 1 where
  -- `struct os_mbuf`, `struct os_mqueue`, the memory that mbufs come from, and the socket
  pub Mbuf : Type 0
  pub Mqueue : Type 0
  pub Pool : Type 0
  pub Socket : Type 0
  -- `OS_MBUF_PKTLEN`
  pub pktlen : Mbuf → ℕ
  -- the chain (NULL is `none`), the offset, the length and the destination before and after the call
  pub copydata : Option Mbuf → ℕ → ℕ → Bytes → Bool × Bytes
  -- with a positive length: bytes are dropped at the front
  pub adj : Mbuf → ℕ → Mbuf
  pub concat : Mbuf → Mbuf → Mbuf
  -- `os_msys_get_pkthdr` for so many bytes
  pub get_pkthdr : ℕ → Pool → Option Mbuf × Pool
  -- `os_mbuf_extend` by the length of these bytes, and the store of them at the pointer that it returns
  pub extend : Mbuf → Bytes → Pool → Bool × Mbuf × Pool
  pub append : Mbuf → Bytes → Pool → Bool × Mbuf × Pool
  -- destination, source, offset and length
  pub appendfrom : Mbuf → Mbuf → ℕ → ℕ → Pool → Bool × Mbuf × Pool
  pub free_chain : Option Mbuf → Pool → Pool
  pub mqueue_put : Mqueue → Mbuf → Bool × Mqueue
  pub mqueue_get : Mqueue → Option Mbuf × Mqueue
  -- `STAILQ_INSERT_HEAD` on the list of the queue
  pub insert_head : Mqueue → Mbuf → Mqueue
  -- a `uint16_t` in memory, in the order of the host
  pub load16 : Bytes → ℕ
  pub store16 : ℕ → Bytes
  pub ntohs : ℕ → ℕ
  pub htons : ℕ → ℕ
  pub sendto : Socket → Mbuf → Sent × Socket

pub record IsLawful (os : Os) : Type 0 where
  -- the packet, the queue and what the peer has been sent
  pub bytes : os.Mbuf → Bytes
  pub contents : os.Mqueue → List os.Mbuf
  pub written : os.Socket → List Bytes
  pub pktlen-eq : (m : os.Mbuf) → os.pktlen m ≡ length (bytes m)
  -- a copy within the packet succeeds, one beyond its end fails, one from no packet writes nothing
  pub copydata-some :
      (m : os.Mbuf) (off len : ℕ) (dst : Bytes)
      → off + len ≤ length (bytes m)
      → len ≡ length dst
      → os.copydata (some m) off len dst ≡ (true, take len (drop off (bytes m)))
  pub copydata-short :
      (m : os.Mbuf) (off len : ℕ) (dst : Bytes)
      → length (bytes m) < off + len
      → (os.copydata (some m) off len dst).0 ≡ false
  pub copydata-null :
      (off len : ℕ) (dst : Bytes) → 0 < len → os.copydata none off len dst ≡ (false, dst)
  pub bytes-adj :
      (m : os.Mbuf) (n : ℕ) → n ≤ length (bytes m) → bytes (os.adj m n) ≡ drop n (bytes m)
  pub bytes-concat : (m n : os.Mbuf) → bytes (os.concat m n) ≡ bytes m ++ bytes n
  pub bytes-get_pkthdr :
      (n : ℕ) (pool : os.Pool) (m : os.Mbuf) → (os.get_pkthdr n pool).0 ≡ some m → bytes m ≡ []
  pub bytes-extend :
      (m : os.Mbuf) (data_of : Bytes) (pool : os.Pool)
      → (os.extend m data_of pool).0 ≡ true
      → bytes (os.extend m data_of pool).1 ≡ bytes m ++ data_of
  pub bytes-append :
      (m : os.Mbuf) (data_of : Bytes) (pool : os.Pool)
      → (os.append m data_of pool).0 ≡ true
      → bytes (os.append m data_of pool).1 ≡ bytes m ++ data_of
  pub bytes-appendfrom :
      (m src : os.Mbuf) (off len : ℕ) (pool : os.Pool)
      → off + len ≤ length (bytes src)
      → (os.appendfrom m src off len pool).0 ≡ true
      → bytes (os.appendfrom m src off len pool).1 ≡ bytes m ++ take len (drop off (bytes src))
  pub mqueue_put-succeeds : (q : os.Mqueue) (m : os.Mbuf) → (os.mqueue_put q m).0 ≡ true
  pub contents-put :
      (q : os.Mqueue) (m : os.Mbuf) → contents (os.mqueue_put q m).1 ≡ contents q ++ (m ∷ [])
  pub mqueue_get-empty :
      (q : os.Mqueue)
      → contents q ≡ []
      → ((os.mqueue_get q).0 ≡ none) × (contents (os.mqueue_get q).1 ≡ [])
  pub mqueue_get-head :
      (q : os.Mqueue) (m : os.Mbuf) (rest : List os.Mbuf)
      → contents q ≡ m ∷ rest
      → ((os.mqueue_get q).0 ≡ some m) × (contents (os.mqueue_get q).1 ≡ rest)
  pub contents-insert_head :
      (q : os.Mqueue) (m : os.Mbuf) → contents (os.insert_head q m) ≡ m ∷ contents q
  -- network order has the high byte first
  pub ntohs-load16 :
      (hi lo : ℕ) → hi < 256 → lo < 256 → os.ntohs (os.load16 (hi ∷ lo ∷ [])) ≡ hi * 256 + lo
  pub store16-htons : (n : ℕ) → n < 65536 → os.store16 (os.htons n) ≡ n / 256 ∷ n % 256 ∷ []
  pub load16-zero : os.load16 (0 ∷ 0 ∷ []) ≡ 0
  pub written-sent :
      (s : os.Socket) (m : os.Mbuf)
      → (os.sendto s m).0 ≡ sent
      → written (os.sendto s m).1 ≡ written s ++ (bytes m ∷ [])
  pub written-again :
      (s : os.Socket) (m : os.Mbuf)
      → (os.sendto s m).0 ≡ again
      → written (os.sendto s m).1 ≡ written s

pub record IsAmple (os : Os) : Type 0 where
  pub get_pkthdr-some : (n : ℕ) (pool : os.Pool) → (os.get_pkthdr n pool).0 ≢ none
  pub extend-true :
      (m : os.Mbuf) (data_of : Bytes) (pool : os.Pool) → (os.extend m data_of pool).0 ≡ true
  pub append-true :
      (m : os.Mbuf) (data_of : Bytes) (pool : os.Pool) → (os.append m data_of pool).0 ≡ true
  pub appendfrom-true :
      (m src : os.Mbuf) (off len : ℕ) (pool : os.Pool) → (os.appendfrom m src off len pool).0 ≡ true
