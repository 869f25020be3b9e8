-- ===== src/FileLogger/Contents.antt =====
-- What the log files hold.
use cocoa_lumberjack.Base.{
  ℕ, ◌+◌, ◌≡◌, ◌⊎◌, inl, inr, refl, sym, ap, ◌∙◌, Bool, true, false, List, [], ◌∷◌, ◌++◌,
  append_assoc, append-nil, Option, none, some, arith, if◌then◌else◌, is_some, Option-cases,
  Bool-cases, ◌==◌, ==_iff, not, ◌||◌, keep, ◌≢◌,
}
use cocoa_lumberjack.FileName.{Bytes}
use cocoa_lumberjack.FileLogger.{
  File, FileLogger, Env, file_info, update_file, archive, lt_roll_log_file_now,
  lt_maybe_roll_log_file_due_to_size, lt_should_use_log_file, create_log_file, use_or_create,
  resume, lt_current_log_file_info, open_current, lt_current_log_file_handle, write_data,
  lt_log_data, append_bytes, new_file,
}
use cocoa_lumberjack.FileLogger.Invariant.{IsSound, size-cases}
use cocoa_lumberjack.FileLogger.Opening.{
  HasFile, handle-closed, handle-open, lt_current_log_file_info-IsReady,
  lt_current_log_file_handle-IsSound, open_current-cases,
}
use cocoa_lumberjack.FileLogger.Rolling.{write_data-open, write_data-closed}

-- The contents of all files, the oldest first.
abbrev pub all_bytes : List File → Bytes
all_bytes [] = []
all_bytes (f ∷ fs) = all_bytes fs ++ f.content

all_bytes-archive :
    (path : ℕ) (fs : List File) → all_bytes (update_file path archive fs) ≡ all_bytes fs
unfolding update_file
all_bytes-archive path [] = refl
all_bytes-archive path (f ∷ fs) = ground (arith, all_bytes-archive path fs)

-- The path at which a file would be created is not that of a file.
unfoldable pub is_on_disk : ℕ → List File → Bool
is_on_disk path [] = false
is_on_disk path (f ∷ fs) = f.path == path || is_on_disk path fs

abbrev pub IsFresh : Env → List File → Type 0
IsFresh env fs = (path : ℕ) → env.create ≡ some path → is_on_disk path fs ≡ false

pub is_on_disk-archive :
    (p path : ℕ) (fs : List File) → is_on_disk p (update_file path archive fs) ≡ is_on_disk p fs
unfolding update_file is_on_disk
is_on_disk-archive p path [] = refl
is_on_disk-archive p path (f ∷ fs) = ground (arith, is_on_disk-archive p path fs)

fresh-kept :
    (path : ℕ) (fs : List File)
    → is_on_disk path fs ≡ false
    → (keep (λ f. not (f.path == path)) fs ≡ fs) × (keep (λ f. f.path == path) fs ≡ [])
unfolding is_on_disk
fresh-kept path [] h = (refl, refl)
fresh-kept path (f ∷ fs) h = elim (Bool-cases (f.path == path)) [
  | inl e ↦ absurd (ground (arith, h, e))
  | inr e ↦
      let rest = fresh-kept path fs (ground (arith, h, e)) in
      (ground (arith, e, rest.0), ground (arith, e, rest.1))
]

-- The same contents at the same paths, and nothing deleted.
abbrev Same : FileLogger → FileLogger → Type 0
Same s t =
    (all_bytes t.disk ≡ all_bytes s.disk)
    × (t.deleted ≡ s.deleted)
    × ((p : ℕ) → is_on_disk p t.disk ≡ is_on_disk p s.disk)

pub Same-roll : (s : FileLogger) → Same s (lt_roll_log_file_now s)
unfolding lt_roll_log_file_now
Same-roll s = elim (Option-cases s.current) [
  | inl e ↦ (ground arith, ground arith, λ p. ground arith)
  | inr (q, e) ↦ (
    ground (arith, all_bytes-archive q s.disk),
    ground arith,
    λ p. ground (arith, is_on_disk-archive p q s.disk),
  )
]

Same-size : (env : Env) (s : FileLogger) → Same s (lt_maybe_roll_log_file_due_to_size env s)
Same-size env s = elim (size-cases env s) [
  | inl e ↦ rw e (Same-roll s)
  | inr e ↦ rw e (refl, refl, λ p. refl)
]

-- A path that was free is free unless the file was created there.
abbrev pub Frees : Env → FileLogger → FileLogger → Type 0
Frees env s t =
    (p : ℕ) → is_on_disk p s.disk ≡ false → env.create ≢ some p → is_on_disk p t.disk ≡ false

-- The files hold what they held before, and the header if a file was created; none was deleted.
abbrev GrowsBy : Env → FileLogger → FileLogger → Bytes → Type 0
GrowsBy env s t extra =
    (all_bytes t.disk ≡ all_bytes s.disk ++ extra)
    × (t.deleted ≡ s.deleted)
    × Frees env s t
    × ((extra ≡ []) ⊎ (extra ≡ env.header))

abbrev Grows : Env → FileLogger → FileLogger → Type 0
Grows env s t = (extra : Bytes) × GrowsBy env s t extra

Grows-not : (env : Env) (s t : FileLogger) → Same s t → Grows env s t
Grows-not env s t e =
    ([], (e.0 ∙ sym (append-nil (all_bytes s.disk)), e.1, λ p free other. e.2 p ∙ free, inl refl))

created-free :
    (env : Env) (t : FileLogger) (q p : ℕ)
    → env.create ≡ some q
    → is_on_disk q t.disk ≡ false
    → is_on_disk p t.disk ≡ false
    → env.create ≢ some p
    → is_on_disk p (create_log_file env t).disk ≡ false
unfolding create_log_file is_on_disk
created-free env t q p c fresh free other = elim (Bool-cases (q == p)) [
  | inl e ↦ absurd (other (c ∙ ap some ((==_iff q p).0 e)))
  | inr e ↦ ground (arith, c, e, free, (fresh-kept q t.disk fresh).0)
]

create_log_file-fails :
    (env : Env) (t : FileLogger)
    → env.create ≡ none
    → create_log_file env t ≡ record t { current = none }
unfolding create_log_file
create_log_file-fails env t c =
    ap
      (λ o. elim o [
        | none ↦ record t { current = none }
        | some path ↦ record t {
          current = some path;
          disk = new_file env path ∷ keep (λ f. not (f.path == path)) t.disk;
          deletions = t.deletions + 1;
          deleted = keep (λ f. f.path == path) t.disk ++ t.deleted;
        }
      ])
      c

create_log_file-Grows :
    (env : Env) (s t : FileLogger)
    → Same s t
    → IsFresh env s.disk
    → Grows env s (create_log_file env t)
create_log_file-Grows env s t e fresh = elim (Option-cases env.create) [
  | inl c ↦ rw (create_log_file-fails env t c) (Grows-not env s (record t { current = none }) e)
  | inr (q, c) ↦
      let free = e.2 q ∙ fresh q c in
      let kept = fresh-kept q t.disk free in
      (
        env.header,
        (
          unfold create_log_file in ground (arith, c, kept.0, e.0),
          unfold create_log_file in ground (arith, c, kept.1, e.1),
          λ p before other. created-free env t q p c free (e.2 p ∙ before) other,
          inr refl,
        ),
      )
]

should_use-Same :
    (env : Env) (f : File) (is_resuming : Bool) (s : FileLogger)
    → Same s (lt_should_use_log_file env f is_resuming s).1
unfolding lt_should_use_log_file
should_use-Same env f is_resuming s = (
  ground (arith, all_bytes-archive f.path s.disk),
  ground arith,
  λ p. ground (arith, is_on_disk-archive p f.path s.disk),
)

use_or_create-Grows :
    (env : Env) (path : ℕ) (s : FileLogger) (r : Bool × FileLogger)
    → Same s r.1
    → IsFresh env s.disk
    → Grows env s (use_or_create env path r)
unfolding use_or_create
use_or_create-Grows env path s (true, t) e fresh =
    Grows-not env s (record t { current = some path }) e
use_or_create-Grows env path s (false, t) e fresh = create_log_file-Grows env s t e fresh

resume-Grows :
    (env : Env) (fs : List File) (s : FileLogger)
    → IsFresh env s.disk
    → Grows env s (resume env fs s)
unfolding resume
resume-Grows env [] s fresh = create_log_file-Grows env s s (refl, refl, λ p. refl) fresh
resume-Grows env (f ∷ fs) s fresh =
    use_or_create-Grows env f.path s (lt_should_use_log_file env f true s)
      (should_use-Same env f true s) fresh

info-Grows :
    (env : Env) (s : FileLogger) → IsFresh env s.disk → Grows env s (lt_current_log_file_info env s)
unfolding lt_current_log_file_info
info-Grows env s fresh = by_current s.current
  where
    by_current :
        (o : Option ℕ)
        → Grows env s (elim o [
          | none ↦ resume env s.disk s
          | some path ↦
              use_or_create env path
                (lt_should_use_log_file env (file_info env.now path s.disk) false s)
        ])
    by_current none = resume-Grows env s.disk s fresh
    by_current (some path) =
        let f = file_info env.now path s.disk in
        use_or_create-Grows env path s (lt_should_use_log_file env f false s)
          (should_use-Same env f false s) fresh

open_current-Same : (env : Env) (s : FileLogger) → Same s (open_current env s)
unfolding open_current
open_current-Same env s = (ground arith, ground arith, λ p. ground arith)

Grows-Same : (env : Env) (s t u : FileLogger) → Grows env s t → Same t u → Grows env s u
Grows-Same env s t u (extra, (bytes, kept, frees, which)) e =
    (extra, (e.0 ∙ bytes, e.1 ∙ kept, λ p free other. e.2 p ∙ frees p free other, which))

handle-Grows :
    (env : Env) (s : FileLogger)
    → IsFresh env s.disk
    → Grows env s (lt_current_log_file_handle env s)
handle-Grows env s fresh = elim (Option-cases s.handle) [
  | inl e ↦
      let t = lt_current_log_file_info env s in
      rw (handle-closed env s e)
        (Grows-Same env s t (open_current env t) (info-Grows env s fresh) (open_current-Same env t))
  | inr (p, e) ↦ rw (handle-open env s p e) (Grows-not env s s (refl, refl, λ q. refl))
]

is_on_disk-append :
    (p path : ℕ) (bytes : Bytes) (fs : List File)
    → is_on_disk p (update_file path (append_bytes bytes) fs) ≡ is_on_disk p fs
unfolding update_file is_on_disk
is_on_disk-append p path bytes [] = refl
is_on_disk-append p path bytes (f ∷ fs) = ground (arith, is_on_disk-append p path bytes fs)

write_data-others :
    (env : Env) (bytes : Bytes) (s : FileLogger)
    → ((write_data env bytes s).deleted ≡ s.deleted)
      × ((p : ℕ) → is_on_disk p (write_data env bytes s).disk ≡ is_on_disk p s.disk)
unfolding write_data
write_data-others env bytes s = elim (Option-cases s.handle) [
  | inl e ↦ (ground arith, λ p. ground arith)
  | inr (q, e) ↦ (ground arith, λ p. ground (arith, is_on_disk-append p q bytes s.disk))
]

write_data-bytes :
    (env : Env) (bytes : Bytes) (s : FileLogger)
    → IsSound s
    → env.can_write ≡ true
    → all_bytes (write_data env bytes s).disk
      ≡ all_bytes s.disk ++ (if is_some s.handle then bytes else [])
write_data-bytes env bytes s (inl c) w =
    ap (λ t. all_bytes t.disk) (write_data-closed env bytes s c.no_handle)
    ∙ sym (append-nil (all_bytes s.disk))
    ∙ ap (λ h. all_bytes s.disk ++ (if is_some h then bytes else [])) (sym c.no_handle)
write_data-bytes env bytes s (inr (f, fs, o)) w =
    ap (λ t. all_bytes t.disk)
      (write_data-open env bytes s f fs o.opening.has_handle o.opening.on_disk)
    ∙ rw (w, o.opening.has_handle, o.opening.on_disk)
        (sym (append_assoc (all_bytes fs) f.content bytes))

-- Whether the logger has an open file once data is to be logged.
abbrev pub has_file : Env → FileLogger → Bool
has_file env s = is_some (lt_current_log_file_handle env s).handle

pub lt_log_data-bytes :
    (env : Env) (b : ℕ) (bs : Bytes) (s : FileLogger)
    → IsSound s
    → IsFresh env s.disk
    → env.can_write ≡ true
    → (extra : Bytes) × ((extra ≡ []) ⊎ (extra ≡ env.header))
      × (all_bytes (lt_log_data env (b ∷ bs) s).disk
          ≡ (all_bytes s.disk ++ extra) ++ (if has_file env s then b ∷ bs else []))
      × ((lt_log_data env (b ∷ bs) s).deleted ≡ s.deleted)
unfolding lt_log_data
lt_log_data-bytes env b bs s v fresh w =
    let t = lt_current_log_file_handle env s in
    let (extra, (same, kept, frees, which)) = handle-Grows env s fresh in
    let end = Same-size env (write_data env (b ∷ bs) t) in
    let wrote = write_data-bytes env (b ∷ bs) t (lt_current_log_file_handle-IsSound env s v) w in
    (
      extra,
      which,
      end.0 ∙ wrote ∙ ap (λ x. x ++ (if is_some t.handle then b ∷ bs else [])) same,
      end.1 ∙ (write_data-others env (b ∷ bs) t).0 ∙ kept,
    )

pub lt_log_data-Frees :
    (env : Env) (d : Bytes) (s : FileLogger)
    → IsFresh env s.disk
    → Frees env s (lt_log_data env d s)
unfolding lt_log_data
lt_log_data-Frees env [] s fresh p free other = free
lt_log_data-Frees env (b ∷ bs) s fresh p free other =
    let t = lt_current_log_file_handle env s in
    let (extra, (same, kept, frees, which)) = handle-Grows env s fresh in
    (Same-size env (write_data env (b ∷ bs) t)).2 p
    ∙ (write_data-others env (b ∷ bs) t).1 p
    ∙ frees p free other

module _ (env : Env) (works : is_some env.create ≡ true) where
  create_log_file-current : (s : FileLogger) → is_some (create_log_file env s).current ≡ true
  unfolding create_log_file
  create_log_file-current s = ground arith

  use_or_create-current :
      (path : ℕ) (r : Bool × FileLogger) → is_some (use_or_create env path r).current ≡ true
  unfolding use_or_create
  use_or_create-current path (true, s) = refl
  use_or_create-current path (false, s) = create_log_file-current s

  resume-current : (fs : List File) (s : FileLogger) → is_some (resume env fs s).current ≡ true
  unfolding resume
  resume-current [] s = create_log_file-current s
  resume-current (f ∷ fs) s = use_or_create-current f.path (lt_should_use_log_file env f true s)

  info-current : (s : FileLogger) → is_some (lt_current_log_file_info env s).current ≡ true
  unfolding lt_current_log_file_info
  info-current s = ground (
    arith,
    resume-current s.disk s,
    λ (path : ℕ).
        use_or_create-current path
          (lt_should_use_log_file env (file_info env.now path s.disk) false s),
  )

-- A file is there whenever the manager can create one and files can be opened.
pub has_file_if :
    (env : Env) (s : FileLogger)
    → IsSound s
    → is_some env.create ≡ true
    → env.can_open ≡ true
    → has_file env s ≡ true
has_file_if env s (inr (f, fs, o)) c opens =
    ap (λ t. is_some t.handle) (handle-open env s f.path o.opening.has_handle)
    ∙ ap is_some o.opening.has_handle
has_file_if env s (inl c) created opens =
    let t = lt_current_log_file_info env s in
    ap (λ u. is_some u.handle) (handle-closed env s c.no_handle)
    ∙ opened t (lt_current_log_file_info-IsReady env s c).file (info-current env created s)
  where
    opened :
        (t : FileLogger)
        → HasFile t
        → is_some t.current ≡ true
        → is_some (open_current env t).handle ≡ true
    opened t (inl e) known = cc
    opened t (inr (f, fs, d, e, na, nl)) known = elim (open_current-cases env t f fs d e na nl) [
      | inl (fails, same) ↦ cc
      | inr (_, o, _) ↦ ap is_some o.opening.has_handle
    ]

-- When creating, opening and writing work, and the path of a new file is free, nothing is lost: the data is the very end of the contents
-- of all files, behind what they held before and the header of a file that is created.
pub lt_log_data-appends :
    (env : Env) (b : ℕ) (bs : Bytes) (s : FileLogger)
    → IsSound s
    → IsFresh env s.disk
    → is_some env.create ≡ true
    → env.can_open ≡ true
    → env.can_write ≡ true
    → (extra : Bytes) × ((extra ≡ []) ⊎ (extra ≡ env.header))
      × (all_bytes (lt_log_data env (b ∷ bs) s).disk ≡ (all_bytes s.disk ++ extra) ++ b ∷ bs)
      × ((lt_log_data env (b ∷ bs) s).deleted ≡ s.deleted)
lt_log_data-appends env b bs s v fresh created opens w =
    let (extra, which, all, kept) = lt_log_data-bytes env b bs s v fresh w in
    (extra, which, rw (has_file_if env s v created opens) at all, kept)

pub lt_log_data-empty : (env : Env) (s : FileLogger) → lt_log_data env [] s ≡ s
unfolding lt_log_data
lt_log_data-empty env s = refl
