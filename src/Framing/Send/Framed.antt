-- ===== src/Framing/Send/Framed.antt =====
-- The messages that `blehostd_enqueue_rsp` builds are packets of the stream.
use blehostd.Prelude.{
  Bool, true, false, ◌&&◌, ◌+◌, ◌/◌, ◌%◌, ◌≤◌, ◌<◌, ◌≡◌, refl, sym, ◌∙◌, ap, ◌⊎◌, inl, inr,
  Bool-cases, none, some, Option-cases, List, [], ◌∷◌, ◌++◌, map, append-nil, append_assoc, Bytes,
  All, length, joined, ltb, arith,
}
use blehostd.Status.{sys_einval, sys_enomem, Rc, success, fail}
use blehostd.Os.{Os, IsLawful, IsAmple}
use blehostd.Framing.{max_msg_sz, Ran, ran, ◌>>=◌, Tx}
use blehostd.Framing.Stream.{Frames, empty, one}
use blehostd.Framing.Send.{enqueue_failed, enqueue_filled, enqueue_rsp}

-- The message for a response.
abbrev pub message : Bytes → Bytes
message json_rsp = length json_rsp / 256 ∷ length json_rsp % 256 ∷ json_rsp

message-Frames :
    (json_rsp stream : Bytes) (packets : List Bytes) (rest : Bytes)
    → 0 < length json_rsp
    → length json_rsp ≤ max_msg_sz
    → Frames stream packets rest
    → Frames (message json_rsp ++ stream) (json_rsp ∷ packets) rest
message-Frames json_rsp stream packets rest z h f =
    one (length json_rsp / 256) (length json_rsp % 256) json_rsp stream packets rest
      (omega arith, omega arith, omega arith, omega arith) (omega arith) f

module _ {os : Os} (law : IsLawful os) where
  open os use {Mbuf, Pool}
  open law use {bytes, contents}

  -- Whether the header and the text can be added to a message.
  abbrev appends : Bytes → Mbuf → Pool → Bool
  appends json_rsp om pool =
      let ext = os.extend om (os.store16 (os.htons (length json_rsp))) pool in
      ext.0 && (os.append ext.1 json_rsp ext.2).0

  -- Whether the three allocations for a message succeed.
  abbrev pub allocates : Bytes → Pool → Bool
  allocates json_rsp pool =
      let got = os.get_pkthdr (length json_rsp + 2) pool in
      elim got.0 [ none ↦ false | some om ↦ appends json_rsp om got.1 ]

  ample-allocates : (json_rsp : Bytes) (pool : Pool) → IsAmple os → allocates json_rsp pool ≡ true
  ample-allocates json_rsp pool ample =
      let got = os.get_pkthdr (length json_rsp + 2) pool in
      elim (Option-cases got.0) [
        | inl e ↦ absurd (ample.get_pkthdr-some (length json_rsp + 2) pool e)
        | inr (om, e) ↦
            let ext = os.extend om (os.store16 (os.htons (length json_rsp))) got.1 in
            ground (
              arith,
              e,
              ample.extend-true om (os.store16 (os.htons (length json_rsp))) got.1,
              ample.append-true ext.1 json_rsp ext.2,
            )
      ]

  enqueue_filled-cases :
      (json_rsp : Bytes) (om : Mbuf) (pool : Pool) (tx : Tx os)
      → bytes om ≡ []
      → length json_rsp ≤ max_msg_sz
      → (tx' : Tx os) × (rc : Rc) × (enqueue_filled os json_rsp om pool tx ≡ ran (rc, tx'))
        × (((rc ≡ fail sys_enomem) × (tx'.rsp_mq ≡ tx.rsp_mq) × (appends json_rsp om pool ≡ false))
            ⊎ ((rc ≡ success)
                × (appends json_rsp om pool ≡ true)
                × ((m : Mbuf) × (contents tx'.rsp_mq ≡ contents tx.rsp_mq ++ (m ∷ []))
                    × (bytes m ≡ message json_rsp))))
  unfolding enqueue_filled enqueue_failed
  enqueue_filled-cases json_rsp om pool tx b h =
      let header = os.store16 (os.htons (length json_rsp)) in
      let ext = os.extend om header pool in
      let app = os.append ext.1 json_rsp ext.2 in
      elim (Bool-cases ext.0) [
        | inr e ↦ (
          record tx { pool = os.free_chain (some ext.1) ext.2 },
          fail sys_enomem,
          ground arith,
          inl (refl, refl, ground (arith, e)),
        )
        | inl e ↦ elim (Bool-cases app.0) [
          | inr a ↦ (
            record tx { pool = os.free_chain (some app.1) app.2 },
            fail sys_enomem,
            ground arith,
            inl (refl, refl, ground (arith, e, a)),
          )
          | inl a ↦ (
            record tx { rsp_mq = (os.mqueue_put tx.rsp_mq app.1).1; pool = app.2 },
            success,
            ground (arith, law.mqueue_put-succeeds tx.rsp_mq app.1),
            inr (
              refl,
              ground (arith, e, a),
              (
                app.1,
                law.contents-put tx.rsp_mq app.1,
                law.bytes-append ext.1 json_rsp ext.2 a
                    ∙ ap (λ l. l ++ json_rsp)
                        (law.bytes-extend om header pool e
                          ∙ ap (λ l. l ++ header) b
                          ∙ law.store16-htons (length json_rsp) (omega arith)),
              ),
            ),
          )
        ]
      ]

  -- What `blehostd_enqueue_rsp` does: a text of more than 10240 bytes gives SYS_EINVAL; a shorter
  -- one for which one of the three allocations fails gives SYS_ENOMEM, both with the queue as it was; a shorter one
  -- for which they succeed gives 0, and behind the queue
  -- stands one message, which has the length in network order and the text.
  pub enqueue_rsp-cases :
      (json_rsp : Bytes) (tx : Tx os)
      → (tx' : Tx os) × (rc : Rc) × (enqueue_rsp os json_rsp tx ≡ ran (rc, tx'))
        × (((rc ≡ fail sys_einval) × (tx'.rsp_mq ≡ tx.rsp_mq) × (max_msg_sz < length json_rsp))
            ⊎ ((rc ≡ fail sys_enomem)
                × (tx'.rsp_mq ≡ tx.rsp_mq)
                × (length json_rsp ≤ max_msg_sz)
                × (allocates json_rsp tx.pool ≡ false))
            ⊎ ((rc ≡ success)
                × (length json_rsp ≤ max_msg_sz)
                × (allocates json_rsp tx.pool ≡ true)
                × ((m : Mbuf) × (contents tx'.rsp_mq ≡ contents tx.rsp_mq ++ (m ∷ []))
                    × (bytes m ≡ message json_rsp))))
  unfolding enqueue_rsp enqueue_failed
  enqueue_rsp-cases json_rsp tx =
      let got = os.get_pkthdr (length json_rsp + 2) tx.pool in
      elim (Bool-cases (ltb max_msg_sz (length json_rsp))) [
        | inl b ↦ (
          record tx { pool = os.free_chain none tx.pool },
          fail sys_einval,
          ground arith,
          inl (refl, refl, ground arith),
        )
        | inr b ↦ elim (Option-cases got.0) [
          | inl e ↦ (
            record tx { pool = os.free_chain none got.1 },
            fail sys_enomem,
            ground arith,
            inr (inl (refl, refl, ground arith, ground (arith, e))),
          )
          | inr (om, e) ↦
              let fits : length json_rsp ≤ max_msg_sz = ground arith in
              let (tx', rc, r, c) =
                enqueue_filled-cases json_rsp om got.1 tx
                  (law.bytes-get_pkthdr (length json_rsp + 2) tx.pool om e) fits in
              (
                tx',
                rc,
                ground arith,
                elim c [
                  | inl (f, q, a) ↦ inr (inl (f, q, fits, ground (arith, e, a)))
                  | inr (s, a, m) ↦ inr (inr (s, fits, ground (arith, e, a), m))
                ],
              )
        ]
      ]

  -- The responses of a run of requests; the result of `bhd_rsp_send` is not read.
  unfoldable pub enqueues : List Bytes → Tx os → Ran (Tx os)
  unfolding enqueue_rsp
  enqueues [] tx = ran tx
  enqueues (json_rsp ∷ later) tx = do put ← enqueue_rsp os json_rsp tx; enqueues later put.1

  -- Responses of 1 to 10240 bytes, given to `blehostd_enqueue_rsp` one after the other while no allocation
  -- fails, stand in the queue in their order, and the bytes of the messages, end to end, are a stream
  -- whose packets are exactly the responses.
  pub enqueues-Frames :
      (ample : IsAmple os) (responses : List Bytes) (tx : Tx os)
      → All (λ json_rsp. (0 < length json_rsp) × (length json_rsp ≤ max_msg_sz)) responses
      → (tx' : Tx os) × (messages : List Mbuf) × (enqueues responses tx ≡ ran tx')
        × (contents tx'.rsp_mq ≡ contents tx.rsp_mq ++ messages)
        × Frames (joined (map bytes messages)) responses []
  unfolding enqueues
  enqueues-Frames ample [] tx h = (tx, [], refl, sym (append-nil _), empty)
  enqueues-Frames ample (json_rsp ∷ later) tx (h, hs) =
      let (put, rc, e, c) = enqueue_rsp-cases json_rsp tx in
      elim c [
        | inl (_, _, more) ↦ absurd (omega arith)
        | inr (inl (_, _, _, scarce)) ↦
            let plenty = ample-allocates json_rsp tx.pool ample in absurd (ground arith)
        | inr (inr (_, _, _, (m, q, b))) ↦
            let (tx', ms, r, q', f) = enqueues-Frames ample later put hs in
            (
              tx',
              m ∷ ms,
              rw e r,
              q' ∙ ap (λ l. l ++ ms) q ∙ append_assoc (contents tx.rsp_mq) (m ∷ []) ms,
              rw b (message-Frames json_rsp _ later [] h.0 h.1 f),
            )
      ]
