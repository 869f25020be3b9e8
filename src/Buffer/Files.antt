-- ===== src/Buffer/Files.antt =====
-- The proxy in front of the file logger itself: what ends up in the log files.
use cocoa_lumberjack.Base.{
  ℕ, suc, ◌≡◌, ◌⊎◌, inl, inr, refl, sym, ap, ◌∙◌, true, List, [], ◌∷◌, ◌++◌, append-nil, is_some,
}
use cocoa_lumberjack.FileName.{Bytes}
use cocoa_lumberjack.FileLogger.{FileLogger, Env, background, lt_log_data}
use cocoa_lumberjack.FileLogger.Invariant.{IsSound}
use cocoa_lumberjack.FileLogger.Deleting.{background-IsSound}
use cocoa_lumberjack.FileLogger.Rolling.{lt_log_data-IsSound}
use cocoa_lumberjack.FileLogger.Contents.{
  all_bytes, IsFresh, lt_log_data-appends, lt_log_data-empty,
}
use cocoa_lumberjack.FileLogger.Kept.{
  everything, everything-grows, background-everything, Unused, Distinct, Unused-background,
  Unused-IsFresh, lt_log_data-Unused,
}
use cocoa_lumberjack.Buffer.{Sink, Mount, Call, init_with_file_logger, run_calls, flush}
use cocoa_lumberjack.Buffer.Transparent.{all_logged, run_calls-total, flush-received}

-- Files can be created, opened, written to and deleted, and a new file has no header.
pub record Works (env : Env) : Type 0 where
  pub creates : is_some env.create ≡ true
  pub opens : env.can_open ≡ true
  pub writes : env.can_write ≡ true
  pub no_header : env.header ≡ []
  pub removes : (p : ℕ) → env.can_remove p ≡ true

log_data-all :
    (env : Env) (d : Bytes) (s : FileLogger)
    → Works env
    → IsSound s
    → IsFresh env s.disk
    → everything (lt_log_data env d s) ≡ everything s ++ d
log_data-all env [] s w v fresh =
    ap everything (lt_log_data-empty env s) ∙ sym (append-nil (everything s))
log_data-all env (b ∷ bs) s w v fresh =
    let (extra, which, all, kept) =
      lt_log_data-appends env b bs s v fresh w.creates w.opens w.writes in
    everything-grows s (lt_log_data env (b ∷ bs) s) (b ∷ bs)
      (all
        ∙ ap (λ x. (all_bytes s.disk ++ x) ++ b ∷ bs) (no_extra extra which)
        ∙ ap (λ x. x ++ b ∷ bs) (append-nil (all_bytes s.disk)))
      kept
  where
    no_extra : (extra : Bytes) → (extra ≡ []) ⊎ (extra ≡ env.header) → extra ≡ []
    no_extra extra (inl e) = e
    no_extra extra (inr e) = e ∙ w.no_header

-- Every operation on files works in all surroundings, and no two create a file at the same path.
pub record Reliable (around : ℕ → Env) : Type 0 where
  pub works : (n : ℕ) → Works (around n)
  pub distinct : Distinct around

-- The file logger is sound, and the paths of files yet to be created are not on disk.
abbrev pub IsReady : (ℕ → Env) → ℕ → FileLogger → Type 0
IsReady around n s = IsSound s × Unused around n s

module _ (around : ℕ → Env) (reliable : Reliable around) where
  -- What the global queue does leaves the logger ready, and everything as it was.
  pub background-IsReady :
      (n : ℕ) (s : FileLogger)
      → IsReady around n s
      → IsReady around n (background (around n) s)
        × (everything (background (around n) s) ≡ everything s)
  background-IsReady n s v = (
    (background-IsSound (around n) s v.0, Unused-background around (around n) n s v.1),
    background-everything (around n) s (reliable.works n).removes,
  )

  -- Logging adds the data.
  pub log_data-IsReady :
      (n : ℕ) (d : Bytes) (s : FileLogger)
      → IsReady around n s
      → IsReady around (suc n) (lt_log_data (around n) d s)
        × (everything (lt_log_data (around n) d s) ≡ everything s ++ d)
  log_data-IsReady n d s v = (
    (lt_log_data-IsSound (around n) d s v.0, lt_log_data-Unused around n d s reliable.distinct v.1),
    log_data-all (around n) d s (reliable.works n) v.0 (Unused-IsFresh around n s v.1),
  )

  -- The file logger as what is behind the buffer. The surroundings of each call are given by its number;
  -- a block that deletes old files may run before the call.
  abbrev pub file_sink : Sink
  file_sink = record {
    State = ℕ × FileLogger;
    IsGood = λ s. IsReady around s.0 s.1;
    log_data = λ d s. (suc s.0, lt_log_data (around s.0) d (background (around s.0) s.1));
    received = λ s. everything s.1;
    log_data-IsGood = λ d s v.
        (log_data-IsReady s.0 d (background (around s.0) s.1) (background-IsReady s.0 s.1 v).0).0;
    received-log_data = λ d s v.
        let (ready, same) = background-IsReady s.0 s.1 v in
        (log_data-IsReady s.0 d (background (around s.0) s.1) ready).1 ∙ ap (λ x. x ++ d) same;
  }

  -- A buffered file logger loses nothing: the proxy is put in front of a sound file logger and receives
  -- any calls, then a flush. If creating, opening, writing and deleting files works, new files have no
  -- header and their paths are unused, each different from the others, then the log files together with
  -- those that the manager deleted since, the oldest first, hold exactly what they held before and all
  -- bytes of all messages in their order, however often files were rolled and old ones deleted in
  -- between.
  pub buffered_complete :
      (mounts : List Mount) (s : FileLogger) (cs : List Call)
      → IsSound s
      → Unused around 0 s
      → let b = run_calls file_sink cs (init_with_file_logger file_sink mounts (0, s)) in
        everything (flush file_sink b).file_logger.1 ≡ everything s ++ all_logged cs
  unfolding init_with_file_logger
  buffered_complete mounts s cs v u =
      let start = init_with_file_logger file_sink mounts (0, s) in
      let (counted, all) =
        run_calls-total file_sink cs start (record { counted = refl; good = (v, u) }) in
      (flush-received file_sink (run_calls file_sink cs start) counted).1
      ∙ all
      ∙ ap (λ x. x ++ all_logged cs) (append-nil (everything s))
