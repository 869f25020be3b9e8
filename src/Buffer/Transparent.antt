-- ===== src/Buffer/Transparent.antt =====
-- What passes through the proxy of DDFileLogger+Buffering.m: the data that the file logger has received,
-- the data in the buffer, and its size.
use cocoa_lumberjack.Base.{
  ◌+◌, ◌<◌, ◌≡◌, ◌⊎◌, inl, inr, refl, sym, ap, ◌∙◌, List, [], ◌∷◌, ◌++◌, append_assoc, append-nil,
  arith, length, length-append,
}
use cocoa_lumberjack.FileName.{Bytes}
use cocoa_lumberjack.Buffer.{
  Sink, Buffer, Call, log_bytes, flush_all, set_max_buffer_size, flush_buffer,
  lt_send_buffered_data, append_range, log_ranges, flush, set_max_buffer_size_bytes, run_call,
  run_calls,
}

-- The bytes of a message whose data comes in ranges.
abbrev pub joined : List Bytes → Bytes
joined [] = []
joined (r ∷ rs) = r ++ joined rs

-- The bytes that a call on the proxy logs.
abbrev pub logged_by : Call → Bytes
logged_by (log_bytes ranges) = joined ranges
logged_by flush_all = []
logged_by (set_max_buffer_size mounts n) = []

abbrev pub all_logged : List Call → Bytes
all_logged [] = []
all_logged (c ∷ cs) = logged_by c ++ all_logged cs

module _ (sink : Sink) where
  open sink use {State, IsGood, log_data, received, log_data-IsGood, received-log_data}

  -- The file logger's data followed by the buffer's.
  abbrev pub total : Buffer State → Bytes
  total b = received b.file_logger ++ b.buffer

  -- The counter is the length of the buffer, and the file logger is in a good state.
  pub record IsCounted (b : Buffer State) : Type 0 where
    pub counted : b.current_buffer_size_bytes ≡ length b.buffer
    pub good : IsGood b.file_logger

  -- Sending moves all data from the buffer to the file logger.
  send-total :
      (b : Buffer State) → IsGood b.file_logger → total (lt_send_buffered_data sink b) ≡ total b
  unfolding lt_send_buffered_data flush_buffer
  send-total b g =
      append-nil (received (log_data b.buffer b.file_logger))
      ∙ received-log_data b.buffer b.file_logger g

  send-IsCounted :
      (b : Buffer State) → IsGood b.file_logger → IsCounted (lt_send_buffered_data sink b)
  unfolding lt_send_buffered_data flush_buffer
  send-IsCounted b g = record { counted = refl; good = log_data-IsGood b.buffer b.file_logger g }

  -- A state of the proxy after a range was appended, before the test of the size.
  appended : Bytes → Buffer State → Buffer State
  appended bytes b = record b {
    buffer = b.buffer ++ bytes;
    current_buffer_size_bytes = b.current_buffer_size_bytes + length bytes;
  }

  append_range-cases :
      (bytes : Bytes) (b : Buffer State)
      → let b' = appended bytes b in
        (append_range sink bytes b ≡ lt_send_buffered_data sink b')
        ⊎ ((append_range sink bytes b ≡ b')
            × (b'.current_buffer_size_bytes < b.max_buffer_size_bytes))
  unfolding append_range appended
  append_range-cases bytes b = ground arith

  -- A range is logged: nothing is lost, and the counter stays right.
  append_range-total :
      (bytes : Bytes) (b : Buffer State)
      → IsCounted b
      → IsCounted (append_range sink bytes b)
        × (total (append_range sink bytes b) ≡ total b ++ bytes)
  unfolding appended
  append_range-total bytes b v =
      let sum = sym (append_assoc (received b.file_logger) b.buffer bytes) in
      elim (append_range-cases bytes b) [
        | inl e ↦
            rw e
              (send-IsCounted (appended bytes b) v.good, send-total (appended bytes b) v.good ∙ sum)
        | inr (e, _) ↦ rw e (
          record {
            counted = omega (arith, v.counted, length-append b.buffer bytes);
            good = v.good;
          },
          sum,
        )
      ]

  log_ranges-total :
      (ranges : List Bytes) (b : Buffer State)
      → IsCounted b
      → IsCounted (log_ranges sink ranges b)
        × (total (log_ranges sink ranges b) ≡ total b ++ joined ranges)
  unfolding log_ranges
  log_ranges-total [] b v = (v, sym (append-nil (total b)))
  log_ranges-total (r ∷ rs) b v =
      let (v', t) = append_range-total r b v in
      let (v'', t') = log_ranges-total rs (append_range sink r b) v' in
      (v'', t' ∙ ap (λ x. x ++ joined rs) t ∙ append_assoc (total b) r (joined rs))

  run_call-total :
      (c : Call) (b : Buffer State)
      → IsCounted b
      → IsCounted (run_call sink c b) × (total (run_call sink c b) ≡ total b ++ logged_by c)
  unfolding run_call flush set_max_buffer_size_bytes
  run_call-total (log_bytes ranges) b v = log_ranges-total ranges b v
  run_call-total flush_all b v =
      (send-IsCounted b v.good, send-total b v.good ∙ sym (append-nil (total b)))
  run_call-total (set_max_buffer_size mounts n) b v =
      (record { counted = v.counted; good = v.good }, sym (append-nil (total b)))

  -- Any sequence of calls on the proxy: what the file logger has received, followed by what is in the
  -- buffer, is what it was and then all bytes of all messages in their order, however they are cut into
  -- ranges and wherever the buffer is sent. The counter remains the length of the buffer.
  pub run_calls-total :
      (cs : List Call) (b : Buffer State)
      → IsCounted b
      → IsCounted (run_calls sink cs b) × (total (run_calls sink cs b) ≡ total b ++ all_logged cs)
  unfolding run_calls
  run_calls-total [] b v = (v, sym (append-nil (total b)))
  run_calls-total (c ∷ cs) b v =
      let (v', t) = run_call-total c b v in
      let (v'', t') = run_calls-total cs (run_call sink c b) v' in
      (
        v'',
        t' ∙ ap (λ x. x ++ all_logged cs) t ∙ append_assoc (total b) (logged_by c) (all_logged cs),
      )

  -- After a flush the file logger has received all of it: nothing is in the buffer.
  pub flush-received :
      (b : Buffer State)
      → IsCounted b
      → ((flush sink b).buffer ≡ []) × (received (flush sink b).file_logger ≡ total b)
  unfolding flush lt_send_buffered_data flush_buffer
  flush-received b v = (refl, received-log_data b.buffer b.file_logger v.good)

  -- The buffer is empty or below its limit.
  abbrev pub IsBelow : Buffer State → Type 0
  IsBelow b = (b.buffer ≡ []) ⊎ (length b.buffer < b.max_buffer_size_bytes)

  append_range-IsBelow :
      (bytes : Bytes) (b : Buffer State) → IsCounted b → IsBelow (append_range sink bytes b)
  unfolding appended lt_send_buffered_data flush_buffer
  append_range-IsBelow bytes b v = elim (append_range-cases bytes b) [
    | inl e ↦ rw e (inl refl)
    | inr (e, lt) ↦ rw e (inr (omega (arith, v.counted, length-append b.buffer bytes, lt)))
  ]

  -- The limit holds of the data in memory: after a message of at least one range is logged, the buffer is
  -- empty or shorter than the limit, whatever it held before.
  pub log_ranges-IsBelow :
      (r : Bytes) (rs : List Bytes) (b : Buffer State)
      → IsCounted b
      → IsBelow (log_ranges sink (r ∷ rs) b)
  unfolding log_ranges
  log_ranges-IsBelow r [] b v = append_range-IsBelow r b v
  log_ranges-IsBelow r (r' ∷ rs) b v =
      log_ranges-IsBelow r' rs (append_range sink r b) (append_range-total r b v).0
