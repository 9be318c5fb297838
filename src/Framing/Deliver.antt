-- ===== src/Framing/Deliver.antt =====
-- The reader of apps/blehostd/src/main.c implements the packets of the stream, however it is cut.
use blehostd.Prelude.{
  ℕ, zero, suc, ◌<◌, ◌≡◌, refl, sym, ◌∙◌, ap, Bool, true, false, some, List, [], ◌∷◌, ◌++◌, map,
  append-nil, append_assoc, Bytes, length, length-append, arith,
}
use blehostd.Prelude.Int.{pos}
use blehostd.Os.{Os, IsLawful, IsAmple}
use blehostd.Framing
use blehostd.Framing.{Ran, ran, Rx, enqueue_one, enqueue_all, receive, socket_readable, reads}
use blehostd.Framing.Stream.{Frames, empty, short, one, Feed, done, chunk}
use blehostd.Framing.Step.{queued, Holds, idle, at_header, in_body}
use blehostd.Framing.Round.{Round, moved, stopped, enqueue_one-Round}

-- More of the stream behind what was left.
Frames-append :
    (more : Bytes) {stream : Bytes} {packets later : List Bytes} {between rest : Bytes}
    → Frames stream packets between
    → Frames (between ++ more) later rest
    → Frames (stream ++ more) (packets ++ later) rest
Frames-append more empty g = g
Frames-append more (short hi lo part h less) g = g
Frames-append more (one hi lo body stream packets between h l f) g =
    rw (append_assoc body stream more) (one hi lo body _ _ _ h l (Frames-append more f g))

module _ {os : Os} (law : IsLawful os) where
  open os use {Mbuf}
  open law use {bytes}

  -- What the reader makes of the packets of its stream, with allocations that may fail: the first ones
  -- are in the queue, behind what was there, and the others are still in the stream.
  pub data Progress (queue : List Bytes) (packets : List Bytes) (rest : Bytes)
      : Ran (Rx os) → Type 0 where
    progress :
        (rx : Rx os) (moved_ left : List Bytes) (stream : Bytes)
        → packets ≡ moved_ ++ left
        → Frames stream left rest
        → Holds law rx stream
        → queued law rx ≡ queue ++ moved_
        → (IsAmple os → left ≡ [])
        → Progress queue packets rest (ran rx)

  -- Progress behind packets that have been moved.
  prefix-Progress :
      (queue moved_ packets all : List Bytes) (rest : Bytes) (rx : Rx os) (r : Ran (Rx os))
      → all ≡ moved_ ++ packets
      → queued law rx ≡ queue ++ moved_
      → Progress (queued law rx) packets rest r
      → Progress queue all rest r
  prefix-Progress queue moved_ packets all rest rx _ e q (progress rx' more left s p f h q' a) =
      progress rx' (moved_ ++ more) left s
        (e ∙ ap (λ l. moved_ ++ l) p ∙ sym (append_assoc moved_ more left)) f h
        (q' ∙ ap (λ l. l ++ more) q ∙ append_assoc queue moved_ more) a

  round-Progress :
      (fuel : ℕ) (packets : List Bytes) (rest : Bytes) (queue : List Bytes) (stream : Bytes)
      (r : Ran (Bool × Rx os))
      → ((rx : Rx os) (later : Bytes) (packets' : List Bytes)
          → Holds law rx later
          → Frames later packets' rest
          → length packets' < fuel
          → Progress (queued law rx) packets' rest (enqueue_all os fuel rx))
      → length packets < suc fuel
      → Frames stream packets rest
      → Round law queue stream packets rest r
      → Progress queue packets rest (
          Framing.◌>>=◌ r
            (λ one. elim one.0 [ true ↦ enqueue_all os fuel one.1 | false ↦ ran one.1 ]))
  round-Progress fuel packets rest queue stream _ next less f
        (moved rx body later packets' e f' h q) =
      prefix-Progress queue (body ∷ []) packets' packets rest rx _ e q
        (next rx later packets' h f' (ground (arith, e)))
  round-Progress fuel packets rest queue stream _ next less f (stopped rx a h q) =
      progress rx [] packets stream refl f h (q ∙ sym (append-nil _)) a

  pub enqueue_all-Progress :
      (fuel : ℕ) (rx : Rx os) (stream : Bytes) (packets : List Bytes) (rest : Bytes)
      → Holds law rx stream
      → Frames stream packets rest
      → length packets < fuel
      → Progress (queued law rx) packets rest (enqueue_all os fuel rx)
  unfolding enqueue_all
  enqueue_all-Progress zero rx stream packets rest h f less = absurd (omega arith)
  enqueue_all-Progress (suc fuel) rx stream packets rest h f less =
      round-Progress fuel packets rest _ _ _
        (λ rx' later packets' h' f' less'.
          enqueue_all-Progress fuel rx' later packets' rest h' f' less')
        (omega arith) f (enqueue_one-Round law rx stream packets rest h f)

  receive-Holds :
      (rx : Rx os) (om : Mbuf) (stream : Bytes)
      → Holds law rx stream
      → 0 < length (bytes om)
      → Holds law (receive os om rx) (stream ++ bytes om)
  unfolding receive
  receive-Holds rx om _ (idle p n) z = rw p (at_header om refl n z)
  receive-Holds rx om _ (at_header m p n z) zm =
      rw (p, sym (law.bytes-concat m om))
        (at_header (os.concat m om) refl n
          (rw (law.bytes-concat m om, length-append (bytes m) (bytes om)) (omega arith)))
  receive-Holds rx om _ (in_body m hi lo p n h) z =
      rw (p, sym (law.bytes-concat m om)) (in_body (os.concat m om) hi lo refl n h)

  queued-receive : (rx : Rx os) (om : Mbuf) → queued law (receive os om rx) ≡ queued law rx
  unfolding receive
  queued-receive rx om = ground arith

  -- A read, with the packets `left` from before: their allocations are tried again.
  socket_readable-Progress :
      (fuel : ℕ) (rx : Rx os) (om : Mbuf) (stream between rest : Bytes) (left packets : List Bytes)
      → Holds law rx stream
      → Frames stream left between
      → Frames (between ++ bytes om) packets rest
      → 0 < length (bytes om)
      → length (left ++ packets) < fuel
      → Progress
          (queued law rx)
          (left ++ packets)
          rest
          (socket_readable os fuel (pos 0) (some om) rx)
  unfolding socket_readable
  socket_readable-Progress fuel rx om stream between rest left packets h f g z less =
      rw (sym (queued-receive rx om)) (
        enqueue_all-Progress fuel (receive os om rx) (stream ++ bytes om) (left ++ packets) rest
          (receive-Holds rx om stream h z) (Frames-append (bytes om) f g) less)

  -- The reads behind one that leaves the packets `left`.
  then-Progress :
      (fuel : ℕ) (oms : List Mbuf) (queue packets later : List Bytes) (between rest : Bytes)
      (r : Ran (Rx os))
      → ((rx : Rx os) (stream : Bytes) (left : List Bytes)
          → Holds law rx stream
          → Frames stream left between
          → (IsAmple os → left ≡ [])
          → length (left ++ later) < fuel
          → Progress (queued law rx) (left ++ later) rest (reads os fuel oms rx))
      → length (packets ++ later) < fuel
      → Progress queue packets between r
      → Progress queue (packets ++ later) rest (Framing.◌>>=◌ r (reads os fuel oms))
  then-Progress fuel oms queue packets later between rest _ next less
        (progress rx moved_ left stream p f h q a) =
      let behind : length (left ++ later) < fuel = omega (
        arith,
        length-append left later,
        length-append packets later,
        length-append moved_ left,
        ap (λ l. length l) p,
      ) in
      prefix-Progress queue moved_ (left ++ later) (packets ++ later) rest rx _
        (ap (λ l. l ++ later) p ∙ append_assoc moved_ left later) q
        (next rx stream left h f a behind)

  pub reads-Progress :
      (fuel : ℕ) (oms : List Mbuf) (chunks : List Bytes) (rx : Rx os) (stream held rest : Bytes)
      (left packets : List Bytes)
      → map bytes oms ≡ chunks
      → Holds law rx stream
      → Frames stream left held
      → (IsAmple os → left ≡ [])
      → Feed held chunks packets rest
      → length (left ++ packets) < fuel
      → Progress (queued law rx) (left ++ packets) rest (reads os fuel oms rx)
  unfolding reads
  reads-Progress fuel [] _ rx stream held rest left packets e h f a (done _) less =
      progress rx [] left stream (append-nil left) f h (sym (append-nil _)) a
  reads-Progress fuel [] _ rx stream held rest left packets e h f a
        (chunk _ c cs ps later b _ z g k) less =
      absurd (ground (arith, e))
  reads-Progress fuel (om ∷ oms) _ rx stream held rest left packets e h f a (done _) less =
      absurd (ground (arith, e))
  reads-Progress fuel (om ∷ oms) _ rx stream held rest left packets e h f a
        (chunk _ c cs ps later b _ z g k) less =
      let same : bytes om ≡ c = ground (arith, e) in
      let behind : map bytes oms ≡ cs = ground (arith, e) in
      let less' : length ((left ++ ps) ++ later) < fuel = rw (append_assoc left ps later) less in
      rw (sym (append_assoc left ps later)) (
        then-Progress fuel oms (queued law rx) (left ++ ps) later b rest _
          (λ rx' s' left' h' f' a' less'.
            reads-Progress fuel oms cs rx' s' b rest left' later behind h' f' a' k less')
          less'
          (socket_readable-Progress fuel rx om stream held b left ps h f (rw same g) (rw same z)
            (omega (arith, length-append (left ++ ps) later))))
