-- ===== src/Log/AbstractLogger/Notices.antt =====
-- The notices that formatters get when they are added to a logger and removed from it.
use cocoa_lumberjack.Base.{
  ℕ, ◌+◌, ◌≡◌, ◌⊎◌, inl, inr, refl, Bool, true, false, List, [], ◌∷◌, ◌++◌, Option, none, some,
  ◌==◌, if◌then◌else◌, keep, keep-append, length, length-append, All, arith, Bool-cases,
}
use cocoa_lumberjack.Log.AbstractLogger.{
  LogFormatter, Notice, Logging, is_same, removal, addition, set_log_formatter,
}

abbrev is_adding : ℕ → Notice → Bool
is_adding x (Notice.did_add_to_logger f) = f == x
is_adding x (Notice.did_add_to_logger_in_queue f) = f == x
is_adding x (Notice.will_remove_from_logger f) = false

abbrev is_removing : ℕ → Notice → Bool
is_removing x (Notice.did_add_to_logger f) = false
is_removing x (Notice.did_add_to_logger_in_queue f) = false
is_removing x (Notice.will_remove_from_logger f) = f == x

abbrev pub added : ℕ → List Notice → ℕ
added x ns = length (keep (is_adding x) ns)

abbrev pub removed : ℕ → List Notice → ℕ
removed x ns = length (keep (is_removing x) ns)

counts :
    (p : Notice → Bool) (xs ys zs : List Notice)
    → length (keep p ((xs ++ ys) ++ zs))
      ≡ (length (keep p xs) + length (keep p ys)) + length (keep p zs)
counts p xs ys zs =
    rw (keep-append p (xs ++ ys) zs, length-append, keep-append p xs ys, length-append)

module _ {Message : Type 0} where
  -- It responds to the removal, and to one of the two methods about adding.
  abbrev pub Responds : Option (LogFormatter Message) → Type 0
  Responds none = Unit
  Responds (some f) =
      (f.has_will_remove_from_logger ≡ true)
      × ((f.has_did_add_to_logger_in_queue ≡ true) ⊎ (f.has_did_add_to_logger ≡ true))

  abbrev pub holds : ℕ → Option (LogFormatter Message) → ℕ
  holds x none = 0
  holds x (some f) = if f.ident == x then 1 else 0

  -- Setting formatters one after the other.
  pub set_all : List (Option (LogFormatter Message)) → Logging Message → Logging Message
  set_all [] s = s
  set_all (f ∷ fs) s = set_all fs (set_log_formatter f s)

  removal-count :
      (x : ℕ) (f : Option (LogFormatter Message))
      → Responds f
      → (removed x (removal f) ≡ holds x f) × (added x (removal f) ≡ 0)
  unfolding removal
  removal-count x none r = (refl, refl)
  removal-count x (some f) r = (ground (arith, r.0), ground (arith, r.0))

  addition-count :
      (x : ℕ) (f : Option (LogFormatter Message))
      → Responds f
      → (added x (addition f) ≡ holds x f) × (removed x (addition f) ≡ 0)
  unfolding addition
  addition-count x none r = (refl, refl)
  addition-count x (some f) r = (ground (arith, r.1), ground (arith, r.1))

  same-holds :
      (x : ℕ) (f g : Option (LogFormatter Message)) → is_same f g ≡ true → holds x f ≡ holds x g
  unfolding is_same
  same-holds x none none e = refl
  same-holds x none (some g) e = ground (arith, e)
  same-holds x (some f) none e = ground (arith, e)
  same-holds x (some f) (some g) e = ground (arith, e)

  -- As often as it was added, a formatter was removed, or once less while it is the current one.
  record IsBalanced (x : ℕ) (s : Logging Message) : Type 0 where
    balance : added x s.notices ≡ removed x s.notices + holds x s.formatter
    responds : Responds s.formatter

  set-IsBalanced :
      (x : ℕ) (f : Option (LogFormatter Message)) (s : Logging Message)
      → Responds f
      → IsBalanced x s
      → IsBalanced x (set_log_formatter f s)
  unfolding set_log_formatter
  set-IsBalanced x f s r h = elim (Bool-cases (is_same s.formatter f)) [
    | inl e ↦ rw e h
    | inr e ↦ rw e (record {
      balance =
          let out = removal-count x s.formatter h.responds in
          let in_ = addition-count x f r in
          omega (
            arith,
            h.balance,
            out.0,
            out.1,
            in_.0,
            in_.1,
            counts (is_adding x) s.notices (removal s.formatter) (addition f),
            counts (is_removing x) s.notices (removal s.formatter) (addition f),
          );
      responds = r;
    })
  ]

  set_all-IsBalanced :
      (x : ℕ) (fs : List (Option (LogFormatter Message))) (s : Logging Message)
      → All Responds fs
      → IsBalanced x s
      → IsBalanced x (set_all fs s)
  unfolding set_all
  set_all-IsBalanced x [] s r h = h
  set_all-IsBalanced x (f ∷ fs) s r h =
      set_all-IsBalanced x fs (set_log_formatter f s) r.1 (set-IsBalanced x f s r.0 h)

  -- After formatters, or nil, that respond to the notices were set one after the other on a logger that
  -- had none, each was told of its removal as often as of its addition, but for the current one, which
  -- was added once more.
  pub set_all-balance :
      (x queue : ℕ) (fs : List (Option (LogFormatter Message)))
      → All Responds fs
      → let s =
          set_all fs (record { formatter = none; queue = queue; logged = []; notices = [] }) in
        added x s.notices ≡ removed x s.notices + holds x s.formatter
  set_all-balance x queue fs r =
      (set_all-IsBalanced x fs _ r (record { balance = refl; responds = tt })).balance
