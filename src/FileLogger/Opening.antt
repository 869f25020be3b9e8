-- ===== src/FileLogger/Opening.antt =====
-- How the logger finds or creates its file and opens it.
use cocoa_lumberjack.Base.{
  ℕ, ◌≡◌, ◌⊎◌, inl, inr, refl, ap, Bool, true, false, List, [], ◌∷◌, none, some, arith,
  if◌then◌else◌, Option-cases, is_some, Bool-cases, ◌∙◌, not, ◌==◌, keep,
}
use cocoa_lumberjack.FileLogger.{
  File, FileLogger, Env, lt_should_use_log_file, new_file, create_log_file, use_or_create, resume,
  lt_current_log_file_info, open_current, lt_current_log_file_handle,
}
use cocoa_lumberjack.FileLogger.Invariant.{KnowsNewest, IsClosed, IsOpen, IsSound, file_info-head}

-- A closed logger that has a file to open, if the manager could create one.
abbrev pub HasFile : FileLogger → Type 0
HasFile s =
    (s.current ≡ none)
    ⊎ ((f : File) × (fs : List File) × (s.disk ≡ f ∷ fs)
        × (s.current ≡ some f.path)
        × (f.is_archived ≡ false)
        × (f.is_symlink ≡ false))

pub record IsReady (s : FileLogger) : Type 0 where
  pub no_handle : s.handle ≡ none
  pub no_vnode : s.vnode ≡ false
  pub no_timer : s.timer ≡ none
  pub file : HasFile s

create_log_file-IsReady :
    (env : Env) (s : FileLogger)
    → s.handle ≡ none
    → s.vnode ≡ false
    → s.timer ≡ none
    → IsReady (create_log_file env s)
unfolding create_log_file
create_log_file-IsReady env s h v t = elim (Option-cases env.create) [
  | inl e ↦ record {
    no_handle = ground arith;
    no_vnode = ground arith;
    no_timer = ground arith;
    file = inl (ground arith);
  }
  | inr (p, e) ↦ record {
    no_handle = ground arith;
    no_vnode = ground arith;
    no_timer = ground arith;
    file = inr (
      new_file env p,
      keep (λ f. not (f.path == p)) s.disk,
      ground arith,
      ground arith,
      refl,
      refl,
    );
  }
]

-- The file is used as it is, or not used; in no case is it opened.
pub should_use-cases :
    (env : Env) (f : File) (is_resuming : Bool) (s : FileLogger)
    → let r = lt_should_use_log_file env f is_resuming s in
      (r ≡ (true, s)) × (f.is_archived ≡ false) × (f.is_symlink ≡ false)
      ⊎ ((r.0 ≡ false) × (r.1.handle ≡ s.handle) × (r.1.vnode ≡ s.vnode) × (r.1.timer ≡ s.timer))
unfolding lt_should_use_log_file
should_use-cases env f is_resuming s = ground arith

use_or_create-no :
    (env : Env) (path : ℕ) (r : Bool × FileLogger)
    → r.0 ≡ false
    → use_or_create env path r ≡ create_log_file env r.1
unfolding use_or_create
use_or_create-no env path (true, s) e = cc
use_or_create-no env path (false, s) e = refl

use_or_create-IsReady :
    (env : Env) (f : File) (fs : List File) (is_resuming : Bool) (s : FileLogger)
    → s.handle ≡ none
    → s.vnode ≡ false
    → s.timer ≡ none
    → s.disk ≡ f ∷ fs
    → IsReady (use_or_create env f.path (lt_should_use_log_file env f is_resuming s))
use_or_create-IsReady env f fs is_resuming s h v t d = elim (should_use-cases env f is_resuming s) [
  | inl (e, na, nl) ↦ rw (e) (
      unfold use_or_create in
      record { no_handle = h; no_vnode = v; no_timer = t; file = inr (f, fs, d, refl, na, nl) })
  | inr (e, h', v', t') ↦
      rw (use_or_create-no env f.path (lt_should_use_log_file env f is_resuming s) e) (
        create_log_file-IsReady env (lt_should_use_log_file env f is_resuming s).1 (h' ∙ h) (v' ∙ v)
          (t' ∙ t))
]

resume-IsReady :
    (env : Env) (fs : List File) (s : FileLogger)
    → s.handle ≡ none
    → s.vnode ≡ false
    → s.timer ≡ none
    → s.disk ≡ fs
    → IsReady (resume env fs s)
resume-IsReady env [] s h v t d = unfold resume in create_log_file-IsReady env s h v t
resume-IsReady env (f ∷ fs) s h v t d =
    unfold resume in use_or_create-IsReady env f fs true s h v t d

info-none :
    (env : Env) (s : FileLogger)
    → s.current ≡ none
    → lt_current_log_file_info env s ≡ resume env s.disk s
unfolding lt_current_log_file_info
info-none env s e = ground arith

pub info-some :
    (env : Env) (s : FileLogger) (f : File) (fs : List File)
    → s.disk ≡ f ∷ fs
    → s.current ≡ some f.path
    → lt_current_log_file_info env s
      ≡ use_or_create env f.path (lt_should_use_log_file env f false s)
unfolding lt_current_log_file_info
info-some env s f fs d e = ground (arith, file_info-head env.now f fs)

pub lt_current_log_file_info-IsReady :
    (env : Env) (s : FileLogger) → IsClosed s → IsReady (lt_current_log_file_info env s)
lt_current_log_file_info-IsReady env s c = elim c.newest [
  | inl e ↦
      rw (info-none env s e) (resume-IsReady env s.disk s c.no_handle c.no_vnode c.no_timer refl)
  | inr (f, fs, d, e, na) ↦
      rw (info-some env s f fs d e)
        (use_or_create-IsReady env f fs false s c.no_handle c.no_vnode c.no_timer d)
]

pub IsReady-IsClosed : (s : FileLogger) → IsReady s → IsClosed s
IsReady-IsClosed s r = record {
  no_handle = r.no_handle;
  no_vnode = r.no_vnode;
  no_timer = r.no_timer;
  newest = known r.file;
}
  where
    known : HasFile s → KnowsNewest s
    known (inl e) = inl e
    known (inr (f, fs, d, e, na, nl)) = inr (f, fs, d, e, na)

pub open_current-none : (env : Env) (s : FileLogger) → s.current ≡ none → open_current env s ≡ s
unfolding open_current
open_current-none env s e = ground arith

-- Opening fails and changes nothing, or the file is open.
pub open_current-cases :
    (env : Env) (s : FileLogger) (f : File) (fs : List File)
    → s.disk ≡ f ∷ fs
    → s.current ≡ some f.path
    → f.is_archived ≡ false
    → f.is_symlink ≡ false
    → (env.can_open ≡ false) × (open_current env s ≡ s)
      ⊎ ((env.can_open ≡ true)
          × IsOpen (open_current env s) f fs
          × ((open_current env s).disk ≡ s.disk))
unfolding open_current
open_current-cases env s f fs d e na nl = elim (Bool-cases env.can_open) [
  | inl opens ↦ inr (
    opens,
    record { opening = ground arith; timed = ground (arith, file_info-head env.now f fs) },
    ground arith,
  )
  | inr fails ↦ inl (fails, ground arith)
]

open_current-IsSound : (env : Env) (s : FileLogger) → IsReady s → IsSound (open_current env s)
open_current-IsSound env s r = elim r.file [
  | inl e ↦ rw (open_current-none env s e) (inl (IsReady-IsClosed s r))
  | inr (f, fs, d, e, na, nl) ↦ elim (open_current-cases env s f fs d e na nl) [
    | inl (_, same) ↦ rw same (inl (IsReady-IsClosed s r))
    | inr (_, o, _) ↦ inr (f, fs, o)
  ]
]

pub handle-closed :
    (env : Env) (s : FileLogger)
    → s.handle ≡ none
    → lt_current_log_file_handle env s ≡ open_current env (lt_current_log_file_info env s)
unfolding lt_current_log_file_handle
handle-closed env s e =
    ap (λ h. if is_some h then s else open_current env (lt_current_log_file_info env s)) e

pub handle-open :
    (env : Env) (s : FileLogger) (p : ℕ) → s.handle ≡ some p → lt_current_log_file_handle env s ≡ s
unfolding lt_current_log_file_handle
handle-open env s p e = ground arith

pub lt_current_log_file_handle-IsSound :
    (env : Env) (s : FileLogger) → IsSound s → IsSound (lt_current_log_file_handle env s)
lt_current_log_file_handle-IsSound env s (inl c) = rw (handle-closed env s c.no_handle) (
    open_current-IsSound env (lt_current_log_file_info env s)
      (lt_current_log_file_info-IsReady env s c))
lt_current_log_file_handle-IsSound env s (inr (f, fs, o)) =
    rw (handle-open env s f.path o.opening.has_handle) (inr (f, fs, o))

active-used :
    (env : Env) (s : FileLogger) (f : File)
    → f.is_archived ≡ false
    → f.is_symlink ≡ false
    → use_or_create env f.path (lt_should_use_log_file env f false s)
      ≡ record s { current = some f.path }
unfolding use_or_create lt_should_use_log_file
active-used env s f na nl = rw (na, nl) refl

-- The current file of an open logger is used again.
info-open :
    (env : Env) (s : FileLogger) (f : File) (fs : List File)
    → IsOpen s f fs
    → lt_current_log_file_info env s ≡ record s { current = some f.path }
info-open env s f fs o =
    info-some env s f fs o.opening.on_disk o.opening.is_current
    ∙ active-used env s f o.opening.not_archived o.opening.not_symlink

pub info-IsSound :
    (env : Env) (s : FileLogger) → IsSound s → IsSound (lt_current_log_file_info env s)
info-IsSound env s (inl c) = inl (IsReady-IsClosed _ (lt_current_log_file_info-IsReady env s c))
info-IsSound env s (inr (f, fs, o)) = rw (info-open env s f fs o) (inr (f, fs, ground arith))
