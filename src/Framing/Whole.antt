-- ===== src/Framing/Whole.antt =====
-- What the reader of apps/blehostd/src/main.c makes of a whole sequence of reads.
use blehostd.Prelude.{
  ℕ, ◌<◌, ◌≡◌, refl, sym, ◌∙◌, ap, none, List, [], ◌++◌, map, append-nil, Bytes, length, arith,
}
use blehostd.Os.{Os, IsLawful, IsAmple}
use blehostd.Framing.{Ran, ran, Rx, reads}
use blehostd.Framing.Stream.{Frames, empty, short, one, Feed}
use blehostd.Framing.Step.{queued, Holds, idle}
use blehostd.Framing.Deliver.{Progress, progress, reads-Progress}

Frames-none :
    {stream : Bytes} {packets : List Bytes} {rest : Bytes}
    → Frames stream packets rest
    → packets ≡ []
    → stream ≡ rest
Frames-none empty e = refl
Frames-none (short hi lo part h less) e = refl
Frames-none (one hi lo body stream packets rest h l f) e = ground arith

module _ {os : Os} (law : IsLawful os) where
  open os use {Mbuf}
  open law use {bytes}

  start-Progress :
      (fuel : ℕ) (rx : Rx os) (oms : List Mbuf) (packets : List Bytes) (rest : Bytes)
      → rx.packet ≡ none
      → rx.packet_len ≡ 0
      → Feed [] (map bytes oms) packets rest
      → length packets < fuel
      → Progress law (queued law rx) packets rest (reads os fuel oms rx)
  start-Progress fuel rx oms packets rest p n feed less =
      reads-Progress law fuel oms (map bytes oms) rx [] [] rest [] packets refl (idle p n) empty
        (λ _. refl) feed less

  kept :
      {queue packets : List Bytes} {rest : Bytes} {r : Ran (Rx os)}
      → Progress law queue packets rest r
      → (rx' : Rx os) × (moved_ : List Bytes) × (left : List Bytes) × (stream : Bytes) × (r
          ≡ ran rx')
        × (queued law rx' ≡ queue ++ moved_)
        × (packets ≡ moved_ ++ left)
        × Holds law rx' stream
        × Frames stream left rest
  kept (progress rx' moved_ left stream p f h q a) = (rx', moved_, left, stream, refl, q, p, h, f)

  delivered :
      {queue packets : List Bytes} {rest : Bytes} {r : Ran (Rx os)}
      → IsAmple os
      → Progress law queue packets rest r
      → (rx' : Rx os) × (r ≡ ran rx') × (queued law rx' ≡ queue ++ packets) × Holds law rx' rest
  delivered {queue} ample (progress rx' moved_ left stream p f h q a) =
      let none_left : left ≡ [] = a ample in
      (
        rx',
        refl,
        q
            ∙ ap (λ l. queue ++ l)
                (sym (append-nil moved_) ∙ ap (λ l. moved_ ++ l) (sym none_left) ∙ sym p),
        rw (sym (Frames-none f none_left)) h,
      )

  -- If no allocation fails, a reader that holds nothing, and gets a stream of packets in any chunks none
  -- of which ends behind the first byte of a header, puts exactly the complete packets into the queue of
  -- the requests, in their order and behind what was there, and holds the rest of the stream; fuel above
  -- the number of the packets is enough.
  pub reads-delivers :
      (ample : IsAmple os) (fuel : ℕ) (rx : Rx os) (oms : List Mbuf) (packets : List Bytes)
      (rest : Bytes)
      → rx.packet ≡ none
      → rx.packet_len ≡ 0
      → Feed [] (map bytes oms) packets rest
      → length packets < fuel
      → (rx' : Rx os) × (reads os fuel oms rx ≡ ran rx')
        × (queued law rx' ≡ queued law rx ++ packets)
        × Holds law rx' rest
  reads-delivers ample fuel rx oms packets rest p n feed less =
      delivered ample (start-Progress fuel rx oms packets rest p n feed less)

  -- Whatever allocations fail, no byte of such a stream is lost or reordered: the first packets are in
  -- the queue, and the reader still holds the other packets and the rest, from which the next read goes
  -- on.
  pub reads-keeps :
      (fuel : ℕ) (rx : Rx os) (oms : List Mbuf) (packets : List Bytes) (rest : Bytes)
      → rx.packet ≡ none
      → rx.packet_len ≡ 0
      → Feed [] (map bytes oms) packets rest
      → length packets < fuel
      → (rx' : Rx os) × (moved_ : List Bytes) × (left : List Bytes) × (stream : Bytes) × (reads os
            fuel oms rx
          ≡ ran rx')
        × (queued law rx' ≡ queued law rx ++ moved_)
        × (packets ≡ moved_ ++ left)
        × Holds law rx' stream
        × Frames stream left rest
  reads-keeps fuel rx oms packets rest p n feed less =
      kept (start-Progress fuel rx oms packets rest p n feed less)
