-- ===== src/Framing/Serve.antt =====
-- The requests in the queue, of apps/blehostd/src/main.c, go to `bhd_req_dec`, and the calls that it makes run one behind
-- the other on the state of the daemon.
use blehostd.Prelude.{
  inl, inr, Option-cases, ℕ, zero, suc, ◌<◌, ◌≡◌, refl, sym, ◌∙◌, ap, Option, none, some, List, [],
  ◌∷◌, ◌++◌, map, Bytes, if◌then◌else◌, length, length-map, length-replicate, take,
  take-append_length, append-nil, replicate, arith,
}
use blehostd.Libc.{c_string}
use blehostd.Cjson.{Cjson}
use blehostd.Enc.Send.{Rsp}
use blehostd.Req.Outcome.{HostSizes}
use blehostd.Req.Run.{Answer, req_dec}
use blehostd.Daemon.{Hosts, State, executed, lost, respond, respond_all}
use blehostd.Daemon.Tables.{Executed-cases}
use blehostd.Os.{Os, IsLawful, IsAmple}
use blehostd.Framing.{Ran, crashed, unfinished, ran, ◌>>=◌, Rx, reads}
use blehostd.Framing.Stream.{Feed}
use blehostd.Framing.Step.{queued, Holds, idle, at_header, in_body}
use blehostd.Framing.Whole.{reads-delivers}

module _ (os : Os) (J : Cjson) (sizes : HostSizes) (hosts : Hosts) where
  open os use {Mbuf, pktlen, copydata, free_chain, mqueue_get}

  -- The JSON text that `blehostd_process_req` copies to its buffer, if the copy succeeds.
  unfoldable pub request_text : Mbuf → Option Bytes
  unfolding c_string
  request_text om =
      let copied = copydata (some om) 0 (pktlen om) (replicate (pktlen om) 0) in
      if copied.0 then some (c_string (copied.1 ++ (0 ∷ []))) else none

  -- The response that `blehostd_process_req` gives to `bhd_rsp_send`, if it does, and the state behind it. What is lost
  -- on the way is `crashed`.
  unfoldable pub process_req : Mbuf → State → Ran (List Rsp × State)
  unfolding request_text
  process_req om s = elim (request_text om) [
    | none ↦ ran ([], s)
    | some json ↦ elim (respond hosts (req_dec J sizes hosts.consts json) s) [
      | lost ↦ crashed
      | executed rsp s' ↦ ran (rsp ∷ [], s')
    ]
  ]

  -- `blehostd_process_req_mq`, with the responses in their order.
  unfoldable pub process_req_mq : ℕ → Rx os → State → Ran (List Rsp × Rx os × State)
  unfolding process_req
  process_req_mq zero rx s = unfinished
  process_req_mq (suc fuel) rx s =
      let got = mqueue_get rx.req_mq in
      elim got.0 [
        | none ↦ ran ([], record rx { req_mq = got.1 }, s)
        | some om ↦ do
          now ← process_req om s
          later ←
              process_req_mq fuel
                (record rx { req_mq = got.1; pool = free_chain (some om) rx.pool }) now.1
          ran (now.0 ++ later.0, later.1, later.2)
      ]

  -- What `bhd_req_dec` makes of a packet: the text before its first NUL.
  abbrev pub answer : Bytes → Answer
  answer packet = req_dec J sizes hosts.consts (c_string packet)

c_string-append_nul : (packet : Bytes) → c_string (packet ++ (0 ∷ [])) ≡ c_string packet
unfolding c_string
c_string-append_nul [] = refl
c_string-append_nul (c ∷ packet) = rw (c_string-append_nul packet) refl

take_all : (xs : Bytes) → take (length xs) xs ≡ xs
take_all xs = ap (take (length xs)) (sym (append-nil xs)) ∙ take-append_length xs []

module _ {os : Os} (law : IsLawful os) (J : Cjson) (sizes : HostSizes) (hosts : Hosts) where
  open os use {Mbuf}
  open law use {bytes, contents}

  request_text-bytes : (om : Mbuf) → request_text os J sizes hosts om ≡ some (c_string (bytes om))
  unfolding request_text
  request_text-bytes om =
      rw
        (
          request_text,
          law.copydata-some om 0 (os.pktlen om) (replicate (os.pktlen om) 0)
              (rw (law.pktlen-eq om) (omega arith)) (sym (length-replicate (os.pktlen om) 0)),
          law.pktlen-eq om,
          take_all (bytes om),
          c_string-append_nul (bytes om),
        )
        refl

  process_req-executed :
      (om : Mbuf) (s s' : State) (rsp : Rsp)
      → respond hosts (answer os J sizes hosts (bytes om)) s ≡ executed rsp s'
      → process_req os J sizes hosts om s ≡ ran (rsp ∷ [], s')
  unfolding process_req
  process_req-executed om s s' rsp e = rw (process_req, request_text-bytes om, e) refl

  -- The loop over the queue of the requests empties it and gives `bhd_rsp_send` the responses to the packets, in
  -- their order; fuel above the number of the packets is enough.
  pub process_req_mq-respond_all :
      (fuel : ℕ) (rx : Rx os) (s s' : State) (rsps : List Rsp) (queue : List Mbuf)
      → contents rx.req_mq ≡ queue
      → length queue < fuel
      → respond_all hosts (map (answer os J sizes hosts) (map bytes queue)) s ≡ some (rsps, s')
      → (rx' : Rx os) × (process_req_mq os J sizes hosts fuel rx s ≡ ran (rsps, rx', s'))
        × (contents rx'.req_mq ≡ [])
        × (rx'.packet ≡ rx.packet)
        × (rx'.packet_len ≡ rx.packet_len)
        × (length rsps ≡ length queue)
  unfolding process_req_mq respond_all
  process_req_mq-respond_all zero rx s s' rsps queue e h run = absurd (omega arith)
  process_req_mq-respond_all (suc fuel) rx s s' rsps [] e h run =
      let (g, z) = law.mqueue_get-empty rx.req_mq e in
      let same : (rsps ≡ []) × (s' ≡ s) = (ground arith, ground arith) in
      (
        record rx { req_mq = (os.mqueue_get rx.req_mq).1 },
        rw (process_req_mq, g, same.0, same.1) refl,
        z,
        refl,
        refl,
        ground arith,
      )
  process_req_mq-respond_all (suc fuel) rx s s' rsps (m ∷ queue) e h run =
      let (g, z) = law.mqueue_get-head rx.req_mq m queue e in
      let next : Rx os = record rx {
        req_mq = (os.mqueue_get rx.req_mq).1;
        pool = os.free_chain (some m) rx.pool;
      } in
      elim (Executed-cases (respond hosts (answer os J sizes hosts (bytes m)) s)) [
        | inl is_lost ↦ absurd (ground arith)
        | inr (rsp, s1, one) ↦
            elim (Option-cases
              (respond_all hosts (map (answer os J sizes hosts) (map bytes queue)) s1)) [
                | inl later_lost ↦ absurd (ground arith)
                | inr ((more, s2), all) ↦
                    let (rx', r, q, p, n, l) =
                      process_req_mq-respond_all fuel next s1 s2 more queue z (omega arith) all in
                    let same : (rsps ≡ rsp ∷ more) × (s' ≡ s2) =
                      (ground (arith, one, all), ground (arith, one, all)) in
                    (
                      rx',
                      rw (process_req_mq, g, process_req-executed m s s1 rsp one, r, same.0, same.1)
                          refl,
                      q,
                      p,
                      n,
                      ground (arith, same.0, l),
                    )
              ]
      ]

  Holds-same :
      {rx rx' : Rx os} {stream : Bytes}
      → rx'.packet ≡ rx.packet
      → rx'.packet_len ≡ rx.packet_len
      → Holds law rx stream
      → Holds law rx' stream
  Holds-same p n (idle e z) = idle (p ∙ e) (n ∙ z)
  Holds-same p n (at_header m e z l) = at_header m (p ∙ e) (n ∙ z) l
  Holds-same p n (in_body m hi lo e z h) = in_body m hi lo (p ∙ e) (n ∙ z) h

  -- The daemon from the socket to the responses: a reader that holds nothing, with an empty queue, gets a stream of
  -- packets in any chunks none of which ends behind the first byte of a header, and no allocation fails. Where the
  -- requests, one behind the other, run without undefined behaviour from the state of the daemon, `bhd_rsp_send` gets
  -- exactly their responses, one for each complete packet and in the order of the packets, the daemon is left in the
  -- state behind the last of them, the queue is empty, and the reader holds the rest of the stream.
  pub reads-answers :
      (ample : IsAmple os) (fuel : ℕ) (rx : Rx os) (oms : List Mbuf) (packets : List Bytes)
      (rest : Bytes) (s s' : State) (rsps : List Rsp)
      → rx.packet ≡ none
      → rx.packet_len ≡ 0
      → contents rx.req_mq ≡ []
      → Feed [] (map bytes oms) packets rest
      → length packets < fuel
      → respond_all hosts (map (answer os J sizes hosts) packets) s ≡ some (rsps, s')
      → (rx' : Rx os) × ((reads os fuel oms rx >>= λ read.
            process_req_mq os J sizes hosts fuel read s)
          ≡ ran (rsps, rx', s'))
        × (length rsps ≡ length packets)
        × (contents rx'.req_mq ≡ [])
        × Holds law rx' rest
  reads-answers ample fuel rx oms packets rest s s' rsps p n z feed less run =
      let (mid, r, q, h) = reads-delivers law ample fuel rx oms packets rest p n feed less in
      let all : queued law mid ≡ packets = q ∙ ap (λ l. map bytes l ++ packets) z in
      let count : length (contents mid.req_mq) ≡ length packets =
        sym (length-map (contents mid.req_mq) bytes) ∙ ap (λ l. length l) all in
      let (rx', r', q', p', n', l) =
        process_req_mq-respond_all fuel mid s s' rsps (contents mid.req_mq) refl (omega arith)
          (rw all run) in
      (rx', rw (r, r') refl, l ∙ count, q', Holds-same p' n' h)
