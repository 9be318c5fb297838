-- ===== src/Framing/Step.antt =====
-- One round of the loop of `blehostd_socket_readable`, on a stream of packets.
use blehostd.Prelude.{
  ℕ, ◌+◌, ◌*◌, ◌≤◌, ◌<◌, ◌≡◌, refl, ◌∙◌, ap, Bool, true, false, Bool-cases, none, some,
  Option-cases, inl, inr, List, [], ◌∷◌, ◌++◌, map, Bytes, length, take, arith,
}
use blehostd.Os.{Os, IsLawful, IsAmple}
use blehostd.Framing.{
  Ran, ran, Rx, header_read, read_header, put_request, split_packet, take_packet,
}
use blehostd.Framing.Stream.{IsHeader}

module _ {os : Os} (law : IsLawful os) where
  open os use {Mbuf}
  open law use {bytes, contents}

  abbrev pub queued : Rx os → List Bytes
  queued rx = map bytes (contents rx.req_mq)

  -- `Holds rx stream`: these bytes of the stream have been received and are not in a packet of the queue.
  pub data Holds (rx : Rx os) : Bytes → Type 0 where
    idle : rx.packet ≡ none → rx.packet_len ≡ 0 → Holds rx []
    at_header :
        (m : Mbuf)
        → rx.packet ≡ some m
        → rx.packet_len ≡ 0
        → 0 < length (bytes m)
        → Holds rx (bytes m)
    in_body :
        (m : Mbuf) (hi lo : ℕ)
        → rx.packet ≡ some m
        → rx.packet_len ≡ hi * 256 + lo
        → IsHeader hi lo
        → Holds rx (hi ∷ lo ∷ bytes m)

  pub read_header-idle :
      (rx : Rx os)
      → rx.packet ≡ none
      → rx.packet_len ≡ 0
      → read_header os rx ≡ ran (record rx { packet_len = 0 })
  unfolding read_header header_read
  read_header-idle rx e z =
      ground (arith, law.copydata-null 0 2 (0 ∷ 0 ∷ []) (omega arith), law.load16-zero)

  pub read_header-some :
      (rx : Rx os) (m : Mbuf) (hi lo : ℕ) (part : Bytes)
      → rx.packet ≡ some m
      → rx.packet_len ≡ 0
      → bytes m ≡ hi ∷ lo ∷ part
      → IsHeader hi lo
      → (m' : Mbuf) × (read_header os rx
          ≡ ran (record rx { packet = some m'; packet_len = hi * 256 + lo }))
        × (bytes m' ≡ part)
  unfolding read_header header_read
  read_header-some rx m hi lo part e z b h = (
    os.adj m 2,
    ground (
      arith,
      law.copydata-some m 0 2 (0 ∷ 0 ∷ []) (rw b (omega arith)) refl,
      law.ntohs-load16 hi lo h.0 h.1,
    ),
    ground (arith, law.bytes-adj m 2 (rw b (omega arith))),
  )

  pub read_header-in_body : (rx : Rx os) → 0 < rx.packet_len → read_header os rx ≡ ran rx
  unfolding read_header
  read_header-in_body rx h = ground arith

  pub take_packet-idle : (rx : Rx os) → rx.packet_len ≡ 0 → take_packet os rx ≡ ran (false, rx)
  unfolding take_packet
  take_packet-idle rx z = ground arith

  put_request-eq :
      (rx : Rx os) (m : Mbuf)
      → put_request os rx m ≡ ran (true, record rx { req_mq = (os.mqueue_put rx.req_mq m).1 })
  unfolding put_request
  put_request-eq rx m = ground (arith, law.mqueue_put-succeeds rx.req_mq m)

  pub take_packet-part :
      (rx : Rx os) (m : Mbuf)
      → rx.packet ≡ some m
      → length (bytes m) < rx.packet_len
      → take_packet os rx ≡ ran (false, rx)
  unfolding take_packet
  take_packet-part rx m e h = ground (arith, law.pktlen-eq m)

  pub take_packet-whole :
      (rx : Rx os) (m : Mbuf)
      → rx.packet ≡ some m
      → 0 < rx.packet_len
      → length (bytes m) ≡ rx.packet_len
      → take_packet os rx
        ≡ ran (
          true,
          record rx { packet = none; packet_len = 0; req_mq = (os.mqueue_put rx.req_mq m).1 },
        )
  unfolding take_packet put_request
  take_packet-whole rx m e z h =
      ground (arith, law.pktlen-eq m, law.mqueue_put-succeeds rx.req_mq m)

  -- The two ends of `split_packet`.
  pub data Split (rx : Rx os) (m : Mbuf) : Ran (Bool × Rx os) → Type 0 where
    refused : (pool : os.Pool) → ¬ IsAmple os → Split rx m (ran (false, record rx { pool = pool }))
    cut :
        (om : Mbuf) (pool : os.Pool)
        → bytes om ≡ take rx.packet_len (bytes m)
        → Split rx m (
            ran (
              true,
              record rx {
                packet = some (os.adj m rx.packet_len);
                packet_len = 0;
                req_mq = (os.mqueue_put rx.req_mq om).1;
                pool = pool;
              },
            ))

  pub split_packet-Split :
      (rx : Rx os) (m : Mbuf) → rx.packet_len ≤ length (bytes m) → Split rx m (split_packet os rx m)
  unfolding split_packet
  split_packet-Split rx m h =
      let got = os.get_pkthdr rx.packet_len rx.pool in
      elim (Option-cases got.0) [
        | inl e ↦
            rw (split_packet, e)
              (refused got.1 (λ ample. absurd (ample.get_pkthdr-some rx.packet_len rx.pool e)))
        | inr (om, e) ↦
            let copied = os.appendfrom om m 0 rx.packet_len got.1 in
            elim (Bool-cases copied.0) [
              | inl c ↦
                  rw (split_packet, e, c, put_request-eq)
                    (cut copied.1 copied.2 (
                      law.bytes-appendfrom om m 0 rx.packet_len got.1 (omega arith) c
                      ∙ ap (λ b. b ++ take rx.packet_len (bytes m))
                          (law.bytes-get_pkthdr rx.packet_len rx.pool om e)))
              | inr c ↦
                  rw (split_packet, e, c)
                    (refused copied.2
                      (λ ample. ground (arith, ample.appendfrom-true om m 0 rx.packet_len got.1)))
            ]
      ]

  pub take_packet-split_packet :
      (rx : Rx os) (m : Mbuf)
      → rx.packet ≡ some m
      → 0 < rx.packet_len
      → rx.packet_len < length (bytes m)
      → take_packet os rx ≡ split_packet os rx m
  unfolding take_packet
  take_packet-split_packet rx m e z h = ground (arith, law.pktlen-eq m)
