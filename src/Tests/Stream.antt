-- ===== src/Tests/Stream.antt =====
-- Examples for the framing of the socket: a stream with the packets "AB" and "C" and a packet that has
-- begun, in two chunks, and the response "OK".
use blehostd.Prelude.{
  true, false, ℕ, zero, suc, ◌≡◌, ◌<◌, ◌≤◌, refl, ◌⊎◌, inl, none, some, List, [], ◌∷◌, ◌++◌, map,
  Bytes, joined, codes, arith,
}
use blehostd.Prelude.Int.{pos}
use blehostd.Status.{Rc, success, fail, sys_einval, sys_enomem}
use blehostd.Os.{failed}
use blehostd.Os.Plain.{plain, plain-IsLawful, plain-IsAmple}
use blehostd.Framing.{max_msg_sz, ran, Rx, Tx, socket_readable, reads}
use blehostd.Framing.Stream.{Frames, short, one, Feed, done, chunk}
use blehostd.Framing.Step.{queued, Holds}
use blehostd.Framing.Whole.{reads-delivers, reads-keeps}
use blehostd.Framing.Finish.{IsReady, socket_readable-ends}
use blehostd.Framing.Send.{enqueue_rsp, process_rsp_mq}
use blehostd.Framing.Send.Order.{Stops, process_rsp_mq-keeps, wakeups, wakeups-sends}
use blehostd.Framing.Send.Framed.{message, allocates, enqueues, enqueue_rsp-cases, enqueues-Frames}

abbrev pub at_rest : Rx plain
at_rest = record { packet = none; packet_len = 0; req_mq = []; pool = tt }

abbrev pub chunks : List Bytes
chunks = (0 ∷ 2 ∷ 65 ∷ []) ∷ (66 ∷ 0 ∷ 1 ∷ 67 ∷ 0 ∷ 3 ∷ 68 ∷ []) ∷ []

abbrev pub packets : List Bytes
packets = (65 ∷ 66 ∷ []) ∷ (67 ∷ []) ∷ []

abbrev pub rest : Bytes
rest = 0 ∷ 3 ∷ 68 ∷ []

pub feed : Feed [] chunks packets rest
feed =
    chunk [] (0 ∷ 2 ∷ 65 ∷ []) _ [] packets (0 ∷ 2 ∷ 65 ∷ []) rest (ground arith)
      (short 0 2 (65 ∷ []) (ground arith) (ground arith))
      (chunk (0 ∷ 2 ∷ 65 ∷ []) (66 ∷ 0 ∷ 1 ∷ 67 ∷ 0 ∷ 3 ∷ 68 ∷ []) [] packets [] rest rest
        (ground arith)
        (one 0 2 (65 ∷ 66 ∷ []) (0 ∷ 1 ∷ 67 ∷ 0 ∷ 3 ∷ 68 ∷ []) ((67 ∷ []) ∷ []) rest (ground arith)
          refl
          (one 0 1 (67 ∷ []) (0 ∷ 3 ∷ 68 ∷ []) [] rest (ground arith) refl
            (short 0 3 (68 ∷ []) (ground arith) (ground arith))))
        (done rest))

reads-delivers_example :
    (rx' : Rx plain) × (reads plain 3 chunks at_rest ≡ ran rx')
    × (queued plain-IsLawful rx' ≡ packets)
    × Holds plain-IsLawful rx' rest
unfolding plain-IsLawful
reads-delivers_example =
    reads-delivers plain-IsLawful plain-IsAmple 3 at_rest chunks packets rest refl refl feed
      (ground arith)

reads-keeps_example :
    (rx' : Rx plain) × (moved_ : List Bytes) × (left : List Bytes) × (stream : Bytes) × (reads plain
        3 chunks at_rest
      ≡ ran rx')
    × (queued plain-IsLawful rx' ≡ moved_)
    × (packets ≡ moved_ ++ left)
    × Holds plain-IsLawful rx' stream
    × Frames stream left rest
unfolding plain-IsLawful
reads-keeps_example =
    reads-keeps plain-IsLawful 3 at_rest chunks packets rest refl refl feed (ground arith)

at_rest-IsReady : IsReady plain-IsLawful at_rest
unfolding IsReady
at_rest-IsReady = inl refl

-- Bytes with a length of 0 and a length above the bound.
socket_readable-ends_example :
    (rx' : Rx plain) × (socket_readable plain 9 (pos 0) (some (0 ∷ 0 ∷ 255 ∷ 255 ∷ 1 ∷ [])) at_rest
      ≡ ran rx')
    × IsReady plain-IsLawful rx'
unfolding plain-IsLawful
socket_readable-ends_example =
    socket_readable-ends plain-IsLawful 9 at_rest (0 ∷ 0 ∷ 255 ∷ 255 ∷ 1 ∷ []) at_rest-IsReady
      (ground arith)

abbrev waiting : Tx plain
waiting = record {
  rsp_mq = message (codes "A") ∷ message (codes "B") ∷ [];
  socket = (1, []);
  pool = tt;
}

sendto-ne-failed : (s : ℕ × List Bytes) (m : Bytes) → ¬ ((plain.sendto s m).0 ≡ failed)
sendto-ne-failed (zero, log) m e = ground arith
sendto-ne-failed (suc n, log) m e = ground arith

process_rsp_mq-keeps_example :
    (tx' : Tx plain) × (out : List Bytes) × (process_rsp_mq plain 3 waiting ≡ ran tx')
    × (waiting.rsp_mq ≡ out ++ tx'.rsp_mq)
    × (tx'.socket.1 ≡ map (λ m. m) out)
    × Stops plain-IsLawful waiting out tx'
unfolding plain-IsLawful
process_rsp_mq-keeps_example =
    process_rsp_mq-keeps plain-IsLawful 3 waiting sendto-ne-failed (ground arith)

abbrev reopen : ℕ × List Bytes → ℕ × List Bytes
reopen (n, log) = (suc n, log)

wakeups-sends_example :
    (tx' : Tx plain) × (wakeups plain-IsLawful reopen 3 2 waiting ≡ ran tx')
    × (tx'.rsp_mq ≡ [])
    × (tx'.socket.1 ≡ map (λ m. m) waiting.rsp_mq)
unfolding plain-IsLawful
wakeups-sends_example =
    wakeups-sends plain-IsLawful reopen 3 2 waiting sendto-ne-failed (λ s m. refl) (λ s. refl)
      (ground arith) (ground arith)

enqueue_rsp-cases_example :
    (tx' : Tx plain) × (rc : Rc) × (enqueue_rsp plain (codes "OK") waiting ≡ ran (rc, tx'))
    × (((rc ≡ fail sys_einval) × (tx'.rsp_mq ≡ waiting.rsp_mq) × (max_msg_sz < 2))
        ⊎ ((rc ≡ fail sys_enomem)
            × (tx'.rsp_mq ≡ waiting.rsp_mq)
            × (2 ≤ max_msg_sz)
            × (allocates plain-IsLawful (codes "OK") waiting.pool ≡ false))
        ⊎ ((rc ≡ success)
            × (2 ≤ max_msg_sz)
            × (allocates plain-IsLawful (codes "OK") waiting.pool ≡ true)
            × ((m : Bytes) × (tx'.rsp_mq ≡ waiting.rsp_mq ++ (m ∷ []))
                × (m ≡ message (codes "OK")))))
unfolding plain-IsLawful
enqueue_rsp-cases_example = enqueue_rsp-cases plain-IsLawful (codes "OK") waiting

enqueues-Frames_example :
    (tx' : Tx plain) × (messages : List Bytes) × (enqueues plain-IsLawful
        (codes "OK" ∷ codes "A" ∷ [])
        waiting
      ≡ ran tx')
    × (tx'.rsp_mq ≡ waiting.rsp_mq ++ messages)
    × Frames (joined (map (λ m. m) messages)) (codes "OK" ∷ codes "A" ∷ []) []
unfolding plain-IsLawful
enqueues-Frames_example =
    enqueues-Frames plain-IsLawful plain-IsAmple (codes "OK" ∷ codes "A" ∷ []) waiting
      ((ground arith, ground arith), ((ground arith, ground arith), tt))
