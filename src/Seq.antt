-- ===== src/Seq.antt =====
-- `bhd_next_evt_seq` of apps/blehostd/src/bhd_util.c: the sequence numbers of unsolicited events. The
-- static `next_seq` is the state, and a critical section makes each call one step.
use blehostd.Prelude.{
  ℕ, zero, suc, ◌+◌, ◌-◌, ◌%◌, ◌^◌, ◌<◌, ◌≡◌, ◌≢◌, refl, arith, ltb, if◌then◌else◌,
}
use blehostd.Proto.Numbers.{seq_evt_min, seq_max}

-- The result, and `next_seq` behind the call; `next_seq++` is in `uint32_t`.
unfoldable pub next_evt_seq : ℕ → ℕ × ℕ
next_evt_seq next_seq =
    let incremented = (next_seq + 1) % 2 ^ 32 in
    (next_seq, if ltb seq_max incremented then seq_evt_min else incremented)

-- `next_seq` after `n` calls from the start of the program.
unfoldable pub after_calls : ℕ → ℕ
unfolding next_evt_seq
after_calls zero = seq_evt_min
after_calls (suc n) = (next_evt_seq (after_calls n)).1

-- How many numbers there are from `BHD_SEQ_EVT_MIN` to `BHD_SEQ_MAX`.
abbrev pub evt_period : ℕ
evt_period = seq_max - seq_evt_min + 1

-- The call number `n`, counted from 0, returns `BHD_SEQ_EVT_MIN + n % 241`: the numbers go round
-- the range from `BHD_SEQ_EVT_MIN` to `BHD_SEQ_MAX` without leaving it.
pub next_evt_seq-after_calls :
    (n : ℕ) → (next_evt_seq (after_calls n)).0 ≡ seq_evt_min + n % evt_period
unfolding after_calls
next_evt_seq-after_calls zero = refl
next_evt_seq-after_calls (suc n) = ground (arith, next_evt_seq-after_calls n)

-- Two calls that are fewer than 241 calls apart return different numbers.
pub next_evt_seq-injective :
    (m n : ℕ)
    → m < n
    → n < m + evt_period
    → (next_evt_seq (after_calls m)).0 ≢ (next_evt_seq (after_calls n)).0
next_evt_seq-injective m n h k e =
    absurd (omega (arith, next_evt_seq-after_calls m, next_evt_seq-after_calls n))
