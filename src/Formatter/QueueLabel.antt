-- ===== src/Formatter/QueueLabel.antt =====
-- `queueThreadLabelForLogMessage:` of Extensions/DDDispatchQueueLogFormatter.m: the name of the queue or
-- thread in a line. A string is the list of its characters, here bytes.
use cocoa_lumberjack.Base.{
  ℕ, ◌-◌, ◌≤◌, ◌≡◌, ◌≢◌, ◌⊎◌, inl, inr, refl, Bool, true, false, not, ◌&&◌, ◌||◌, List, [], ◌∷◌,
  ◌++◌, Option, none, some, arith, ltb, if◌then◌else◌, length, take, replicate, length-append,
  length-take, length-replicate, bytes_eq, bytes_eq→≡, codes, Bool-cases, Option-cases,
}
use cocoa_lumberjack.FileName.{Bytes}

abbrev pub space : ℕ
space = b' '

-- What the method reads of a DDLogMessage.
pub record Origin : Type 0 where
  pub queue_label : Option Bytes
  pub thread_name : Bytes
  pub thread_id : Bytes

-- NSMutableDictionary from labels to their short forms, without repeated keys.
unfoldable pub replacement_for : Bytes → List (Bytes × Bytes) → Option Bytes
replacement_for label [] = none
replacement_for label (r ∷ rs) = if bytes_eq r.0 label then some r.1 else replacement_for label rs

remove_replacement : Bytes → List (Bytes × Bytes) → List (Bytes × Bytes)
remove_replacement label [] = []
remove_replacement label (r ∷ rs) =
    let rest = remove_replacement label rs in if bytes_eq r.0 label then rest else r ∷ rest

-- `setReplacementString:forQueueLabel:`
unfoldable pub set_replacement : Option Bytes → Bytes → List (Bytes × Bytes) → List (Bytes × Bytes)
unfolding remove_replacement
set_replacement none label rs = remove_replacement label rs
set_replacement (some short) label rs = (label, short) ∷ remove_replacement label rs

is_one_of : Bytes → List Bytes → Bool
is_one_of label [] = false
is_one_of label (n ∷ ns) = if bytes_eq label n then true else is_one_of label ns

-- The labels of the queues of threads that were made by hand, which say less than the thread.
abbrev pub shared_names : List Bytes
shared_names =
    codes "com.apple.root.low-priority"
    ∷ codes "com.apple.root.default-priority"
    ∷ codes "com.apple.root.high-priority"
    ∷ codes "com.apple.root.low-overcommit-priority"
    ∷ codes "com.apple.root.default-overcommit-priority"
    ∷ codes "com.apple.root.high-overcommit-priority"
    ∷ codes "com.apple.root.default-qos.overcommit"
    ∷ []

unfoldable pub use_queue_label : Option Bytes → Bool
unfolding is_one_of
use_queue_label none = false
use_queue_label (some label) = not (is_one_of label shared_names)

abbrev pub nonempty : Bytes → Bool
nonempty s = ltb 0 (length s)

-- The label of the queue, if it is used, or else the name of the thread; a message to nil gives nil.
abbrev pub full_label : Origin → Bytes
full_label m =
    if use_queue_label m.queue_label
    then elim m.queue_label [ none ↦ [] | some label ↦ label ]
    else m.thread_name

abbrev pub short_label : List (Bytes × Bytes) → Bytes → Bytes
short_label rs label = elim (replacement_for label rs) [ none ↦ label | some short ↦ short ]

unfoldable pub chosen_label : List (Bytes × Bytes) → Origin → Bytes
chosen_label rs m =
    if use_queue_label m.queue_label || nonempty m.thread_name
    then short_label rs (full_label m)
    else m.thread_id

-- Truncation, padding, or neither.
unfoldable pub fit_label : ℕ → ℕ → Bytes → Bytes
fit_label min_length max_length label =
    if ltb 0 max_length && ltb max_length (length label)
    then take max_length label
    else if ltb (length label) min_length
    then label ++ replicate (min_length - length label) b' '
    else label

unfoldable pub queue_thread_label : List (Bytes × Bytes) → ℕ → ℕ → Origin → Bytes
queue_thread_label rs min_length max_length m = fit_label min_length max_length (chosen_label rs m)

-- A label that equals one of two equal labels equals the other.
eq-label : (a b c : Bytes) → bytes_eq a b ≡ true → bytes_eq a c ≡ bytes_eq b c
eq-label a b c h = rw (bytes_eq→≡ a b h) refl

eq-other : (a b c : Bytes) → bytes_eq b c ≡ true → bytes_eq a c ≡ bytes_eq a b
eq-other a b c h = rw (bytes_eq→≡ b c h) refl

remove-replacement_for :
    (label other : Bytes) (rs : List (Bytes × Bytes))
    → replacement_for other (remove_replacement label rs)
      ≡ (if bytes_eq label other then none else replacement_for other rs)
unfolding replacement_for remove_replacement
remove-replacement_for label other [] = ground arith
remove-replacement_for label other (r ∷ rs) = ground (
  arith,
  remove-replacement_for label other rs,
  eq-label r.0 label other,
  eq-other r.0 label other,
)

-- Setting or removing the short form of one label changes the short form of that label and no other.
pub set_replacement-replacement_for :
    (short : Option Bytes) (label other : Bytes) (rs : List (Bytes × Bytes))
    → replacement_for other (set_replacement short label rs)
      ≡ (if bytes_eq label other then short else replacement_for other rs)
unfolding set_replacement replacement_for
set_replacement-replacement_for none label other rs = remove-replacement_for label other rs
set_replacement-replacement_for (some short) label other rs =
    ground (arith, remove-replacement_for label other rs)

-- The label has at least the minimal length and, if the maximal length is not 0, at most that, unless the
-- minimum exceeds the maximum; it is the chosen label, cut at its end or filled with spaces.
pub queue_thread_label-length :
    (rs : List (Bytes × Bytes)) (min_length max_length : ℕ) (m : Origin)
    → (max_length ≡ 0) ⊎ (min_length ≤ max_length)
    → let shown = queue_thread_label rs min_length max_length m in
      let chosen = chosen_label rs m in
      (min_length ≤ length shown)
      × ((max_length ≡ 0) ⊎ (length shown ≤ max_length))
      × ((shown ≡ chosen)
          ⊎ (shown ≡ take max_length chosen)
          ⊎ (shown ≡ chosen ++ replicate (min_length - length chosen) space))
unfolding queue_thread_label fit_label
queue_thread_label-length rs min_length max_length m h =
    let c = chosen_label rs m in
    ground (
      arith,
      length-take max_length c,
      length-append c (replicate (min_length - length c) space),
      length-replicate {A = ℕ} (min_length - length c) space,
    )

no_queue_label : use_queue_label none ≡ false
unfolding use_queue_label
no_queue_label = refl

nonempty-cases : (s : Bytes) → ((nonempty s ≡ true) × (s ≢ [])) ⊎ ((nonempty s ≡ false) × (s ≡ []))
nonempty-cases [] = inr (refl, refl)
nonempty-cases (c ∷ cs) = inl (ground arith, λ e. cc)

-- Which label is chosen: that of a queue of its own, or else the name of the thread, each in its short form
-- if it has one; and the number of the thread when the queue is shared and the thread has no name.
pub chosen_label-cases :
    (rs : List (Bytes × Bytes)) (m : Origin)
    → ((label : Bytes) × (m.queue_label ≡ some label)
        × (use_queue_label (some label) ≡ true)
        × (chosen_label rs m ≡ short_label rs label))
      ⊎ ((use_queue_label m.queue_label ≡ false)
          × (m.thread_name ≢ [])
          × (chosen_label rs m ≡ short_label rs m.thread_name))
      ⊎ ((use_queue_label m.queue_label ≡ false)
          × (m.thread_name ≡ [])
          × (chosen_label rs m ≡ m.thread_id))
unfolding chosen_label
chosen_label-cases rs m = elim (Bool-cases (use_queue_label m.queue_label)) [
  | inl used ↦ elim (Option-cases m.queue_label) [
    | inl e ↦ cc (used, e, no_queue_label)
    | inr (label, e) ↦ inl (label, e, rw e at used, rw (used, e) refl)
  ]
  | inr unused ↦ elim (nonempty-cases m.thread_name) [
    | inl (e, named) ↦ inr (inl (unused, named, rw (unused, e) refl))
    | inr (e, unnamed) ↦ inr (inr (unused, unnamed, rw (unused, e) refl))
  ]
]
