-- ===== src/Formatter/Context.antt =====
-- Extensions/DDContextFilterLogFormatter.m: the set of contexts and the two filters. A context is the bits
-- of an NSInteger; the lock makes each method one step.
use cocoa_lumberjack.Base.{
  ℕ, ◌≡◌, inl, inr, refl, ap, ◌∙◌, Bool, true, false, List, [], ◌∷◌, Option, none, some, arith,
  ◌==◌, ==_iff, if◌then◌else◌, Bool-cases,
}
use cocoa_lumberjack.FileName.{Bytes}

-- NSMutableSet, by its elements.
unfoldable pub is_in_set : ℕ → List ℕ → Bool
is_in_set c [] = false
is_in_set c (d ∷ ds) = if d == c then true else is_in_set c ds

unfoldable pub add_to_set : ℕ → List ℕ → List ℕ
unfolding is_in_set
add_to_set c s = if is_in_set c s then s else c ∷ s

unfoldable pub remove_from_set : ℕ → List ℕ → List ℕ
remove_from_set c [] = []
remove_from_set c (d ∷ ds) = let rest = remove_from_set c ds in if d == c then rest else d ∷ rest

-- `formatLogMessage:` of the two filters, for the context and the text of a message.
unfoldable pub allowlist_format : List ℕ → ℕ → Bytes → Option Bytes
unfolding is_in_set
allowlist_format s context message = if is_in_set context s then some message else none

unfoldable pub denylist_format : List ℕ → ℕ → Bytes → Option Bytes
unfolding is_in_set
denylist_format s context message = if is_in_set context s then none else some message

-- A call of `addTo…list:` or `removeFrom…list:`.
pub data SetCall : Type 0 where
  adding removing : ℕ → SetCall

pub run_set_calls : List SetCall → List ℕ → List ℕ
unfolding add_to_set remove_from_set is_in_set
run_set_calls [] s = s
run_set_calls (adding c ∷ cs) s = run_set_calls cs (add_to_set c s)
run_set_calls (removing c ∷ cs) s = run_set_calls cs (remove_from_set c s)

-- Whether a context is listed, by the calls alone: the last one about it decides.
abbrev pub is_listed : ℕ → List SetCall → Bool → Bool
is_listed c [] before = before
is_listed c (adding d ∷ cs) before = is_listed c cs (if d == c then true else before)
is_listed c (removing d ∷ cs) before = is_listed c cs (if d == c then false else before)

-- An array of `allObjects` holds nothing twice.
abbrev pub HasNoDuplicates : List ℕ → Type 0
HasNoDuplicates [] = Unit {0}
HasNoDuplicates (c ∷ cs) = (is_in_set c cs ≡ false) × HasNoDuplicates cs

pub is_in_set-add :
    (c d : ℕ) (s : List ℕ) → is_in_set c (add_to_set d s) ≡ (if d == c then true else is_in_set c s)
unfolding add_to_set is_in_set
is_in_set-add c d s = elim (Bool-cases (is_in_set d s)) [
  | inl h ↦ elim (Bool-cases (d == c)) [
    | inl e ↦ ground (arith, (==_iff d c).0 e)
    | inr e ↦ ground arith
  ]
  | inr h ↦ ground arith
]

pub is_in_set-remove :
    (c d : ℕ) (s : List ℕ)
    → is_in_set c (remove_from_set d s) ≡ (if d == c then false else is_in_set c s)
unfolding remove_from_set is_in_set
is_in_set-remove c d [] = ground arith
is_in_set-remove c d (x ∷ xs) = ground (arith, is_in_set-remove c d xs)

add-HasNoDuplicates : (c : ℕ) (s : List ℕ) → HasNoDuplicates s → HasNoDuplicates (add_to_set c s)
unfolding add_to_set
add-HasNoDuplicates c s h = ground arith

remove-HasNoDuplicates :
    (c : ℕ) (s : List ℕ) → HasNoDuplicates s → HasNoDuplicates (remove_from_set c s)
unfolding remove_from_set
remove-HasNoDuplicates c [] h = tt
remove-HasNoDuplicates c (x ∷ xs) h =
    ground (arith, remove-HasNoDuplicates c xs h.1, is_in_set-remove x c xs, h.0)

-- After any calls a context is in the set exactly if the last call about it added it, or none was about it
-- and it was there before; and the set holds nothing twice if it did not before.
run_set_calls-is_listed :
    (cs : List SetCall) (s : List ℕ) (c : ℕ)
    → HasNoDuplicates s
    → (is_in_set c (run_set_calls cs s) ≡ is_listed c cs (is_in_set c s))
      × HasNoDuplicates (run_set_calls cs s)
unfolding run_set_calls
run_set_calls-is_listed [] s c h = (refl, h)
run_set_calls-is_listed (adding d ∷ cs) s c h =
    let (same, nodup) = run_set_calls-is_listed cs (add_to_set d s) c (add-HasNoDuplicates d s h) in
    (same ∙ ap (is_listed c cs) (is_in_set-add c d s), nodup)
run_set_calls-is_listed (removing d ∷ cs) s c h =
    let (same, nodup) =
      run_set_calls-is_listed cs (remove_from_set d s) c (remove-HasNoDuplicates d s h) in
    (same ∙ ap (is_listed c cs) (is_in_set-remove c d s), nodup)

-- With the same calls the two filters let through opposite messages: the allow list gives the text of
-- the message and the deny list nil when the context is listed, and the other way round when not.
pub filters_opposite :
    (cs : List SetCall) (c : ℕ) (message : Bytes)
    → let s = run_set_calls cs [] in
      (allowlist_format s c message ≡ (if is_listed c cs false then some message else none))
      × (denylist_format s c message ≡ (if is_listed c cs false then none else some message))
unfolding allowlist_format denylist_format is_in_set
filters_opposite cs c message =
    let e = (run_set_calls-is_listed cs [] c tt).0 in
    (ap (λ b. if b then some message else none) e, ap (λ b. if b then none else some message) e)
