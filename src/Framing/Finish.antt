-- ===== src/Framing/Finish.antt =====
-- The loop of `blehostd_socket_readable` ends, on any bytes.
use blehostd.Prelude.{
  ℕ, zero, suc, ◌+◌, ◌%◌, ltb, ◌==◌, ◌≤◌, ◌<◌, ◌≡◌, refl, ◌⊎◌, inl, inr, Bool, true, false,
  Bool-cases, none, some, Option-cases, [], ◌∷◌, Bytes, length, length-append, length-drop, arith,
}
use blehostd.Prelude.Int.{pos}
use blehostd.Os.{Os, IsLawful}
use blehostd.Framing
use blehostd.Framing.{
  max_msg_sz, Ran, ran, Rx, header_read, read_header, take_packet, enqueue_one, enqueue_all,
  receive, socket_readable,
}
use blehostd.Framing.Step.{
  Split, refused, cut, read_header-idle, take_packet-part, take_packet-whole, take_packet-idle,
  split_packet-Split, take_packet-split_packet,
}

compare_cases : (a b : ℕ) → (a < b) ⊎ (a ≡ b) ⊎ (b < a)
compare_cases a b = ground arith

module _ {os : Os} (law : IsLawful os) where
  open os use {Mbuf}
  open law use {bytes}

  -- A length is pending only with a packet.
  unfoldable pub IsReady : Rx os → Type 0
  IsReady rx = (rx.packet_len ≡ 0) ⊎ ((m : Mbuf) × (rx.packet ≡ some m))

  -- The number of bytes that the reader holds.
  abbrev pub held : Rx os → ℕ
  held rx = elim rx.packet [ none ↦ 0 | some m ↦ length (bytes m) ]

  -- Where a step leads: some state that is ready and holds no more.
  abbrev Less : Rx os → Ran (Rx os) → Type 0
  Less rx r = (rx' : Rx os) × (r ≡ ran rx') × IsReady rx' × (held rx' ≤ held rx)

  header_read-Less :
      (rx : Rx os) (m : Mbuf) (copied : Bool × Bytes)
      → rx.packet ≡ some m
      → ((copied.0 ≡ false) ⊎ (2 ≤ length (bytes m)))
      → Less rx (header_read os rx copied)
  unfolding header_read IsReady
  header_read-Less rx m (false, dst) e h = (_, refl, inr (m, e), omega arith)
  header_read-Less rx m (true, dst) e (inl h) = ground arith
  header_read-Less rx m (true, dst) e (inr h) =
      elim (Bool-cases (ltb max_msg_sz (os.ntohs (os.load16 dst)))) [
        | inl b ↦
            (record rx { packet_len = os.pktlen m % 65536 }, ground arith, inr (m, e), omega arith)
        | inr b ↦ (
          record rx { packet = some (os.adj m 2); packet_len = os.ntohs (os.load16 dst) },
          ground arith,
          inr (os.adj m 2, refl),
          rw (e, law.bytes-adj m 2 h, length-drop) (omega arith),
        )
      ]

  -- The bytes that a copy of the header needs.
  copied_or_short :
      (m : Mbuf) (dst : Bytes) → ((os.copydata (some m) 0 2 dst).0 ≡ false) ⊎ (2 ≤ length (bytes m))
  copied_or_short m dst = elim (Bool-cases (ltb (length (bytes m)) 2)) [
    | inl b ↦ inl (law.copydata-short m 0 2 dst (ground arith))
    | inr b ↦ inr (ground arith)
  ]

  read_header-Less : (rx : Rx os) → IsReady rx → Less rx (read_header os rx)
  unfolding read_header IsReady
  read_header-Less rx r = elim (Bool-cases (rx.packet_len == 0)) [
    | inr b ↦ (rx, ground arith, r, omega arith)
    | inl b ↦ elim (Option-cases rx.packet) [
      | inl e ↦ (
        record rx { packet_len = 0 },
        read_header-idle law rx e (ground arith),
        inl refl,
        omega arith,
      )
      | inr (m, e) ↦
          let here : read_header os rx ≡ header_read os rx (os.copydata (some m) 0 2 (0 ∷ 0 ∷ [])) =
            ground arith in
          rw here (header_read-Less rx m _ e (copied_or_short m (0 ∷ 0 ∷ [])))
    ]
  ]

  -- Where a round leads: with a packet in the queue the reader holds less than `size`.
  data Ends (size : ℕ) : Ran (Bool × Rx os) → Type 0 where
    again : (rx : Rx os) → IsReady rx → held rx < size → Ends size (ran (true, rx))
    over : (rx : Rx os) → IsReady rx → Ends size (ran (false, rx))

  Split-Ends :
      (rx : Rx os) (m : Mbuf) (r : Ran (Bool × Rx os))
      → rx.packet ≡ some m
      → 0 < rx.packet_len
      → rx.packet_len ≤ length (bytes m)
      → Split law rx m r
      → Ends (held rx) r
  unfolding IsReady
  Split-Ends rx m _ e z h (refused pool scarce) = over _ (inr (m, e))
  Split-Ends rx m _ e z h (cut om pool b) =
      again _ (inl refl) (rw (e, law.bytes-adj m rx.packet_len h, length-drop) (omega arith))

  take_packet-Ends : (rx : Rx os) → IsReady rx → Ends (held rx) (take_packet os rx)
  unfolding IsReady
  take_packet-Ends rx (inl n) = rw (take_packet-idle law rx n) (over rx (inl n))
  take_packet-Ends rx (inr (m, e)) = elim (Bool-cases (rx.packet_len == 0)) [
    | inl b ↦ rw (take_packet-idle law rx (ground arith)) (over rx (inr (m, e)))
    | inr b ↦ elim (compare_cases (length (bytes m)) rx.packet_len) [
      | inl less ↦ rw (take_packet-part law rx m e less) (over rx (inr (m, e)))
      | inr (inl same) ↦
          rw (take_packet-whole law rx m e (ground arith) same)
            (again _ (inl refl) (rw e (ground arith)))
      | inr (inr more) ↦ rw (take_packet-split_packet law rx m e (ground arith) more) (
          Split-Ends rx m _ e (ground arith) (omega arith)
            (split_packet-Split law rx m (omega arith)))
    ]
  ]

  Ends-le : {a b : ℕ} {r : Ran (Bool × Rx os)} → a ≤ b → Ends a r → Ends b r
  Ends-le le (again rx r h) = again rx r (omega arith)
  Ends-le le (over rx r) = over rx r

  enqueue_one-Ends : (rx : Rx os) → IsReady rx → Ends (held rx) (enqueue_one os rx)
  unfolding enqueue_one
  enqueue_one-Ends rx r =
      let (read, e, ready, le) = read_header-Less rx r in
      rw e (Ends-le le (take_packet-Ends read ready))

  rounds_finish :
      (fuel size : ℕ) (r : Ran (Bool × Rx os))
      → ((rx : Rx os)
          → IsReady rx
          → held rx < fuel
          → (rx' : Rx os) × (enqueue_all os fuel rx ≡ ran rx') × IsReady rx')
      → size ≤ fuel
      → Ends size r
      → (rx' : Rx os) × (Framing.◌>>=◌ r
            (λ one. elim one.0 [ true ↦ enqueue_all os fuel one.1 | false ↦ ran one.1 ])
          ≡ ran rx')
        × IsReady rx'
  rounds_finish fuel size _ next le (again rx r h) = next rx r (omega arith)
  rounds_finish fuel size _ next le (over rx r) = (rx, refl, r)

  enqueue_all_finish :
      (fuel : ℕ) (rx : Rx os)
      → IsReady rx
      → held rx < fuel
      → (rx' : Rx os) × (enqueue_all os fuel rx ≡ ran rx') × IsReady rx'
  unfolding enqueue_all
  enqueue_all_finish zero rx r h = absurd (omega arith)
  enqueue_all_finish (suc fuel) rx r h =
      rounds_finish fuel (held rx) _ (λ rx' r' h'. enqueue_all_finish fuel rx' r' h') (omega arith)
        (enqueue_one-Ends rx r)

  receive-IsReady : (rx : Rx os) (om : Mbuf) → IsReady rx → IsReady (receive os om rx)
  unfolding receive IsReady
  receive-IsReady rx om r = elim (Option-cases rx.packet) [
    | inl e ↦ inr (om, ground arith)
    | inr (m, e) ↦ inr (os.concat m om, ground arith)
  ]

  held-receive : (rx : Rx os) (om : Mbuf) → held (receive os om rx) ≡ held rx + length (bytes om)
  unfolding receive
  held-receive rx om = elim (Option-cases rx.packet) [
    | inl e ↦ rw e (omega arith)
    | inr (m, e) ↦ rw (e, law.bytes-concat m om, length-append) (omega arith)
  ]

  -- The read of any bytes, framed or not, ends without a read through NULL and without a failed
  -- assertion, in a state in which no length is pending without a packet, if the state before is one;
  -- fuel above the number of bytes held and received is enough, whatever allocations fail.
  pub socket_readable-ends :
      (fuel : ℕ) (rx : Rx os) (om : Mbuf)
      → IsReady rx
      → held rx + length (bytes om) < fuel
      → (rx' : Rx os) × (socket_readable os fuel (pos 0) (some om) rx ≡ ran rx') × IsReady rx'
  unfolding socket_readable receive IsReady
  socket_readable-ends fuel rx om r h =
      enqueue_all_finish fuel (receive os om rx) (receive-IsReady rx om r)
        (rw (held-receive rx om) h)
