-- ===== src/Framing/Round.antt =====
-- A round of the loop of `blehostd_socket_readable`, on a stream of packets.
use mathlib.Core.List.{map-append}
use blehostd.Prelude.{
  ℕ, ◌+◌, ◌*◌, ◌<◌, ◌≡◌, refl, sym, ◌∙◌, ap, Bool, true, false, some, List, [], ◌∷◌, ◌++◌, map,
  append-nil, Bytes, length, take-append_length, drop-append_length, length-append, arith,
}
use blehostd.Os.{Os, IsLawful, IsAmple}
use blehostd.Framing.{Ran, ran, Rx, take_packet, enqueue_one}
use blehostd.Framing.Stream.{IsHeader, Frames, empty, short, one}
use blehostd.Framing.Step.{
  queued, Holds, idle, at_header, in_body, Split, refused, cut, read_header-idle, read_header-some,
  read_header-in_body, take_packet-idle, take_packet-part, take_packet-whole, split_packet-Split,
  take_packet-split_packet,
}

module _ {os : Os} (law : IsLawful os) where
  open os use {Mbuf, Mqueue}
  open law use {bytes, contents}

  -- What a round does with the stream: it moves a packet to the queue, or stops, and with a complete
  -- packet there it stops only where an allocation fails.
  pub data Round (queue : List Bytes) (stream : Bytes) (packets : List Bytes) (rest : Bytes)
      : Ran (Bool × Rx os) → Type 0 where
    moved :
        (rx : Rx os) (body later : Bytes) (packets' : List Bytes)
        → packets ≡ body ∷ packets'
        → Frames later packets' rest
        → Holds law rx later
        → queued law rx ≡ queue ++ (body ∷ [])
        → Round queue stream packets rest (ran (true, rx))
    stopped :
        (rx : Rx os)
        → (IsAmple os → packets ≡ [])
        → Holds law rx stream
        → queued law rx ≡ queue
        → Round queue stream packets rest (ran (false, rx))

  put-bytes :
      (q : Mqueue) (m : Mbuf) (body : Bytes)
      → bytes m ≡ body
      → map bytes (contents (os.mqueue_put q m).1) ≡ map bytes (contents q) ++ (body ∷ [])
  put-bytes q m body e = rw (law.contents-put q m, map-append bytes (contents q) (m ∷ []), e) refl

  -- With the packet `body` and something behind it received, the round moves the packet, or an
  -- allocation fails.
  split-Round :
      (rx : Rx os) (m : Mbuf) (hi lo : ℕ) (body more : Bytes) (packets : List Bytes) (rest : Bytes)
      (r : Ran (Bool × Rx os))
      → rx.packet ≡ some m
      → rx.packet_len ≡ hi * 256 + lo
      → IsHeader hi lo
      → Frames more packets rest
      → 0 < length more
      → length body ≡ rx.packet_len
      → bytes m ≡ body ++ more
      → Split law rx m r
      → Round (queued law rx) (hi ∷ lo ∷ bytes m) (body ∷ packets) rest r
  split-Round rx m hi lo body more packets rest _ e n h f z l b (refused pool scarce) =
      stopped _ (λ ample. absurd (scarce ample)) (in_body m hi lo e n h) refl
  split-Round rx m hi lo body more packets rest _ e n h f z l b (cut om pool c) =
      let left : bytes (os.adj m rx.packet_len) ≡ more =
        law.bytes-adj m rx.packet_len (rw (b, length-append) (omega arith))
        ∙ ground (arith, b, drop-append_length body more) in
      moved _ body (bytes (os.adj m rx.packet_len)) packets refl (rw left f)
        (at_header (os.adj m rx.packet_len) refl refl (rw left z))
        (put-bytes rx.req_mq om body (ground (arith, take-append_length body more)))

  -- The bytes of a packet, behind its header, make the stream.
  body-Round :
      (rx : Rx os) (m : Mbuf) (hi lo : ℕ) (stream : Bytes) (packets : List Bytes) (rest : Bytes)
      → rx.packet ≡ some m
      → rx.packet_len ≡ hi * 256 + lo
      → IsHeader hi lo
      → Frames stream packets rest
      → stream ≡ hi ∷ lo ∷ bytes m
      → Round (queued law rx) (hi ∷ lo ∷ bytes m) packets rest (take_packet os rx)
  body-Round rx m hi lo _ _ _ e n h empty s = ground arith
  body-Round rx m hi lo _ _ _ e n h (short hi' lo' part h' less) s =
      rw (take_packet-part law rx m e (ground arith))
        (stopped rx (λ _. refl) (in_body m hi lo e n h) refl)
  body-Round rx m hi lo _ _ _ e n h (one hi' lo' body [] packets rest h' l f) s =
      let whole : bytes m ≡ body = ground (arith, append-nil body) in
      rw (take_packet-whole law rx m e (omega arith) (ground arith))
        (moved _ body [] packets refl f (idle refl refl) (put-bytes rx.req_mq m body whole))
  body-Round rx m hi lo _ _ _ e n h (one hi' lo' body (x ∷ more) packets rest h' l f) s =
      let all : bytes m ≡ body ++ (x ∷ more) = ground arith in
      let same : length body ≡ rx.packet_len = ground arith in
      let behind : rx.packet_len < length (bytes m) =
        rw (all, length-append body (x ∷ more)) (omega arith) in
      rw (take_packet-split_packet law rx m e (omega arith) behind) (
        split-Round rx m hi lo body (x ∷ more) packets rest _ e n h f (omega arith) same all
          (split_packet-Split law rx m (omega arith)))

  packets-empty :
      {stream : Bytes} {packets : List Bytes} {rest : Bytes}
      → Frames stream packets rest
      → stream ≡ []
      → packets ≡ []
  packets-empty empty e = refl
  packets-empty (short hi lo part h less) e = refl
  packets-empty (one hi lo body later packets rest h l f) e = ground arith

  -- A stream that is not empty begins with a length.
  starts_with_length :
      {stream : Bytes} {packets : List Bytes} {rest : Bytes}
      → Frames stream packets rest
      → 0 < length stream
      → (hi : ℕ) × (lo : ℕ) × (part : Bytes) × (stream ≡ hi ∷ lo ∷ part) × IsHeader hi lo
  starts_with_length empty z = absurd (omega arith)
  starts_with_length (short hi lo part h less) z = (hi, lo, part, refl, h)
  starts_with_length (one hi lo body later packets rest h l f) z = (hi, lo, body ++ later, refl, h)

  pub enqueue_one-Round :
      (rx : Rx os) (stream : Bytes) (packets : List Bytes) (rest : Bytes)
      → Holds law rx stream
      → Frames stream packets rest
      → Round (queued law rx) stream packets rest (enqueue_one os rx)
  unfolding enqueue_one
  enqueue_one-Round rx _ packets rest (idle p n) f =
      rw (read_header-idle law rx p n, take_packet-idle law (record rx { packet_len = 0 }) refl)
        (stopped _ (λ _. packets-empty f refl) (idle p refl) refl)
  enqueue_one-Round rx _ packets rest (at_header m p n z) f =
      let (hi, lo, part, s, h) = starts_with_length f z in
      let (m', r, b) = read_header-some law rx m hi lo part p n s h in
      rw (r, s, sym b)
        (body-Round (record rx { packet = some m'; packet_len = hi * 256 + lo }) m' hi lo _ packets
          rest refl refl h f (s ∙ ap (λ l. hi ∷ lo ∷ l) (sym b)))
  enqueue_one-Round rx _ packets rest (in_body m hi lo p n h) f =
      rw (read_header-in_body law rx (omega arith))
        (body-Round rx m hi lo _ packets rest p n h f refl)
