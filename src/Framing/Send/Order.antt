-- ===== src/Framing/Send/Order.antt =====
-- The responses leave in the order in which they were queued.
use mathlib.Core.List.{map-append}
use blehostd.Prelude.{
  ℕ, zero, suc, ◌-◌, ◌≤◌, ◌<◌, ◌≡◌, ◌≢◌, refl, sym, ◌∙◌, ap, ◌⊎◌, inl, inr, List, [], ◌∷◌, ◌++◌,
  map, append-nil, append_assoc, length, length-append, arith,
}
use blehostd.Os.{Os, IsLawful, Sent, sent, again, failed}
use blehostd.Framing.{Ran, ◌>>=◌, aborted, ran, Tx}
use blehostd.Framing.Send.{process_rsp_mq}

length-zero {ℓ} : {A : Type ℓ} (q : List A) → length q ≤ 0 → q ≡ []
length-zero [] h = refl
length-zero (m ∷ q) h = absurd (omega arith)

fewer {ℓ} :
    {A : Type ℓ} (out rest all : List A)
    → all ≡ out ++ rest
    → (all ≡ []) ⊎ (out ≢ [])
    → length rest ≤ length all - 1
fewer [] rest all e (inl z) = ground arith
fewer [] rest all e (inr ne) = absurd (ne refl)
fewer (m ∷ out) rest all e h = rw (e, length-append) (omega arith)

module _ {os : Os} (law : IsLawful os) where
  open os use {Mbuf, Socket}
  open law use {bytes, contents, written}

  -- The socket behind these messages, each of which it accepted.
  abbrev pub Accepts : Socket → List Mbuf → Socket → Type 0
  Accepts s [] s' = s' ≡ s
  Accepts s (m ∷ out) s' = ((os.sendto s m).0 ≡ sent) × Accepts (os.sendto s m).1 out s'

  -- Why a run of the loop that sent `out` stopped: no message is left, or the socket answered the first one that is
  -- with MN_EAGAIN.
  abbrev pub Stops : Tx os → List Mbuf → Tx os → Type 0
  Stops tx out tx' =
      (s : Socket) × Accepts tx.socket out s
      × (((contents tx'.rsp_mq ≡ []) × (tx'.socket ≡ s))
          ⊎ ((m : Mbuf) × (later : List Mbuf) × (contents tx'.rsp_mq ≡ m ∷ later)
              × (os.sendto s m ≡ (again, tx'.socket))))

  -- How a run of the loop ends: the socket fails, or it has sent the first messages of the queue, and
  -- the others are still queued; it sends none only where there is none, or the socket takes none.
  data Drained (tx : Tx os) : Ran (Tx os) → Type 0 where
    broken : (s : Socket) (m : Mbuf) → (os.sendto s m).0 ≡ failed → Drained tx aborted
    drained :
        (tx' : Tx os) (out : List Mbuf)
        → contents tx.rsp_mq ≡ out ++ contents tx'.rsp_mq
        → written tx'.socket ≡ written tx.socket ++ map bytes out
        → Stops tx out tx'
        → ((contents tx.rsp_mq ≡ [])
            ⊎ (out ≢ [])
            ⊎ ((m : Mbuf) × ((os.sendto tx.socket m).0 ≡ again)))
        → Drained tx (ran tx')

  sent-Drained :
      (tx next : Tx os) (m : Mbuf) (r : Ran (Tx os))
      → contents tx.rsp_mq ≡ m ∷ contents next.rsp_mq
      → written next.socket ≡ written tx.socket ++ (bytes m ∷ [])
      → (os.sendto tx.socket m).0 ≡ sent
      → next.socket ≡ (os.sendto tx.socket m).1
      → Drained next r
      → Drained tx r
  sent-Drained tx next m _ e w put moved (broken s n f) = broken s n f
  sent-Drained tx next m _ e w put moved (drained tx' out c w' (s, accepts, why) go) =
      drained tx' (m ∷ out) (e ∙ ap (λ l. m ∷ l) c)
        (w'
          ∙ ap (λ l. l ++ map bytes out) w
          ∙ append_assoc (written tx.socket) (bytes m ∷ []) (map bytes out))
        (s, (put, rw (sym moved) accepts), why) (inr (inl (λ e'. ground arith)))

  Sent-cases : (s : Sent) → (s ≡ sent) ⊎ (s ≡ again) ⊎ (s ≡ failed)
  Sent-cases sent = inl refl
  Sent-cases again = inr (inl refl)
  Sent-cases failed = inr (inr refl)

  process_rsp_mq-Drained :
      (fuel : ℕ) (tx : Tx os) (queue : List Mbuf)
      → contents tx.rsp_mq ≡ queue
      → length queue < fuel
      → Drained tx (process_rsp_mq os fuel tx)
  unfolding process_rsp_mq
  process_rsp_mq-Drained zero tx queue e h = absurd (omega arith)
  process_rsp_mq-Drained (suc fuel) tx [] e h =
      let (g, c) = law.mqueue_get-empty tx.rsp_mq e in
      rw (process_rsp_mq, g)
        (drained _ [] (e ∙ sym c) (sym (append-nil _)) (_, refl, inl (c, refl)) (inl e))
  process_rsp_mq-Drained (suc fuel) tx (m ∷ queue) e h =
      let (g, c) = law.mqueue_get-head tx.rsp_mq m queue e in
      elim (Sent-cases (os.sendto tx.socket m).0) [
        | inl s ↦
            rw (process_rsp_mq, g, s)
              (sent-Drained tx _ m _ (rw c e) (law.written-sent tx.socket m s) s refl
                (process_rsp_mq-Drained fuel _ queue c (omega arith)))
        | inr (inl s) ↦
            rw (process_rsp_mq, g, s)
              (drained _ [] (rw (law.contents-insert_head, c) e)
                (law.written-again tx.socket m s ∙ sym (append-nil _))
                (
                  _,
                  refl,
                  inr (
                    m,
                    queue,
                    rw (law.contents-insert_head, c) refl,
                    ap (λ a. (a, (os.sendto tx.socket m).1)) s,
                  ),
                )
                (inr (inr (m, s))))
        | inr (inr s) ↦ rw (process_rsp_mq, g, s) (broken tx.socket m s)
      ]

  ends :
      {tx : Tx os} {r : Ran (Tx os)}
      → ((s : Socket) (m : Mbuf) → (os.sendto s m).0 ≢ failed)
      → Drained tx r
      → (tx' : Tx os) × (out : List Mbuf) × (r ≡ ran tx')
        × (contents tx.rsp_mq ≡ out ++ contents tx'.rsp_mq)
        × (written tx'.socket ≡ written tx.socket ++ map bytes out)
        × Stops tx out tx'
  ends works (broken s m f) = absurd (works s m f)
  ends works (drained tx' out c w stop go) = (tx', out, refl, c, w, stop)

  -- A run of the loop on the queue of the responses sends the first messages of the queue, in their order,
  -- and leaves the others queued in theirs, unless `mn_sendto` fails with a code other than MN_EAGAIN;
  -- the socket has accepted the messages that were sent one after the other, and messages are left only
  -- if it then returned MN_EAGAIN for the first of them. Fuel above the number of the messages is enough.
  pub process_rsp_mq-keeps :
      (fuel : ℕ) (tx : Tx os)
      → ((s : Socket) (m : Mbuf) → (os.sendto s m).0 ≢ failed)
      → length (contents tx.rsp_mq) < fuel
      → (tx' : Tx os) × (out : List Mbuf) × (process_rsp_mq os fuel tx ≡ ran tx')
        × (contents tx.rsp_mq ≡ out ++ contents tx'.rsp_mq)
        × (written tx'.socket ≡ written tx.socket ++ map bytes out)
        × Stops tx out tx'
  process_rsp_mq-keeps fuel tx works h =
      ends works (process_rsp_mq-Drained fuel tx (contents tx.rsp_mq) refl h)

  -- A run on a socket that takes a message leaves fewer of them.
  shrinks :
      {tx : Tx os} {r : Ran (Tx os)}
      → ((s : Socket) (m : Mbuf) → (os.sendto s m).0 ≢ failed)
      → ((m : Mbuf) → (os.sendto tx.socket m).0 ≡ sent)
      → Drained tx r
      → (tx' : Tx os) × (out : List Mbuf) × (r ≡ ran tx')
        × (contents tx.rsp_mq ≡ out ++ contents tx'.rsp_mq)
        × (written tx'.socket ≡ written tx.socket ++ map bytes out)
        × (length (contents tx'.rsp_mq) ≤ length (contents tx.rsp_mq) - 1)
  shrinks works takes (broken s m f) = absurd (works s m f)
  shrinks works takes (drained tx' out c w stop go) = (
    tx',
    out,
    refl,
    c,
    w,
    fewer out _ _ c (elim go [
      | inl e ↦ inl e
      | inr (inl ne) ↦ inr ne
      | inr (inr (m, e)) ↦ ground (arith, takes m)
    ]),
  )

  -- The runs of the loop that the events of the writable socket start; `reopen` is what makes room in
  -- the socket between two of them.
  unfoldable pub wakeups : (Socket → Socket) → ℕ → ℕ → Tx os → Ran (Tx os)
  wakeups reopen fuel zero tx = ran tx
  wakeups reopen fuel (suc n) tx = do
    tx' ← process_rsp_mq os fuel (record tx { socket = reopen tx.socket })
    wakeups reopen fuel n tx'

  -- Every response is sent: if the socket accepts at least one message after each of its events and never
  -- fails, as many events as there are messages empty the queue, and the messages have been sent in
  -- the order in which they were queued.
  pub wakeups-sends :
      (reopen : Socket → Socket) (fuel n : ℕ) (tx : Tx os)
      → ((s : Socket) (m : Mbuf) → (os.sendto s m).0 ≢ failed)
      → ((s : Socket) (m : Mbuf) → (os.sendto (reopen s) m).0 ≡ sent)
      → ((s : Socket) → written (reopen s) ≡ written s)
      → length (contents tx.rsp_mq) < fuel
      → length (contents tx.rsp_mq) ≤ n
      → (tx' : Tx os) × (wakeups reopen fuel n tx ≡ ran tx')
        × (contents tx'.rsp_mq ≡ [])
        × (written tx'.socket ≡ written tx.socket ++ map bytes (contents tx.rsp_mq))
  unfolding wakeups
  wakeups-sends reopen fuel zero tx works opens same h le =
      let none_left = length-zero (contents tx.rsp_mq) (omega arith) in
      (tx, refl, none_left, rw none_left (sym (append-nil _)))
  wakeups-sends reopen fuel (suc n) tx works opens same h le =
      let open_tx : Tx os = record tx { socket = reopen tx.socket } in
      let run = process_rsp_mq-Drained fuel open_tx (contents tx.rsp_mq) refl h in
      let (tx', out, e, c, w, less) = shrinks works (λ m. opens tx.socket m) run in
      let (last, e', c', w') =
        wakeups-sends reopen fuel n tx' works opens same (omega arith) (omega arith) in
      (
        last,
        rw e e',
        c',
        w'
            ∙ ap (λ l. l ++ map bytes (contents tx'.rsp_mq))
                (w ∙ ap (λ l. l ++ map bytes out) (same tx.socket))
            ∙ append_assoc (written tx.socket) (map bytes out) _
            ∙ ap (λ l. written tx.socket ++ l)
                (sym (map-append bytes out _) ∙ ap (map bytes) (sym c)),
      )
