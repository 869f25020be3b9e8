-- ===== src/FileManager/Creation/Attempts.antt =====
-- How the loop of `createNewLogFileWithError:` ends.
use native.Mathlib.Nat.{add-sub_cancel}
use cocoa_lumberjack.Base.{
  ℕ, zero, suc, ◌+◌, ◌-◌, ◌≤◌, ◌<◌, ◌≡◌, ◌≢◌, ◌⊎◌, inl, inr, refl, true, false, Option, none, some,
  arith, leb, ap, ◌∙◌, Bool-cases,
}
use cocoa_lumberjack.FileManager.Creation.{
  Write, written, exists, critical, Creation, created, failed, max_allowed_error, create_loop,
  create_new_log_file,
}

-- A file is created by a successful write, on this attempt or a later one, after fewer than five
-- critical errors; or the critical error of a write that came after four others is returned.
abbrev pub Ends : (ℕ → ℕ → Write) → ℕ → Creation → Type 0
Ends write start r =
    ((a : ℕ) × (c : ℕ) × (r ≡ created a)
      × (start ≤ a)
      × (c < max_allowed_error)
      × (write a c ≡ written))
    ⊎ ((a : ℕ) × (e : ℕ) × (r ≡ failed (some e)) × (write a 4 ≡ critical e))

-- The last error, where there is one, is that of the last critical write.
abbrev LastError : (ℕ → ℕ → Write) → ℕ → Option ℕ → Type 0
LastError write errors last =
    (errors ≡ 0) ⊎ ((a : ℕ) × (e : ℕ) × (last ≡ some e) × (write a (errors - 1) ≡ critical e))

Write-cases : (w : Write) → (w ≡ written) ⊎ ((w ≡ exists) ⊎ ((e : ℕ) × (w ≡ critical e)))
Write-cases written = inl refl
Write-cases exists = inr (inl refl)
Write-cases (critical e) = inr (inr (e, refl))

Ends-mono :
    (write : ℕ → ℕ → Write) (i j : ℕ) (r : Creation) → i ≤ j → Ends write j r → Ends write i r
Ends-mono write i j r h (inl (a, c, e, late, few, ok)) = inl (a, c, e, omega arith, few, ok)
Ends-mono write i j r h (inr bad) = inr bad

module _ (write : ℕ → ℕ → Write) (fuel attempt errors : ℕ) (last : Option ℕ)
    (room : leb max_allowed_error errors ≡ false) where
  create_loop-written :
      write attempt errors ≡ written
      → create_loop (suc fuel) write attempt errors last ≡ created attempt
  unfolding create_loop
  create_loop-written e = rw (room, e) refl

  create_loop-exists :
      write attempt errors ≡ exists
      → create_loop (suc fuel) write attempt errors last
        ≡ create_loop fuel write (attempt + 1) errors last
  unfolding create_loop
  create_loop-exists e = rw (room, e) refl

  create_loop-critical :
      (e : ℕ)
      → write attempt errors ≡ critical e
      → create_loop (suc fuel) write attempt errors last
        ≡ create_loop fuel write attempt (errors + 1) (some e)
  unfolding create_loop
  create_loop-critical e eq = rw (room, eq) refl

create_loop-full :
    (write : ℕ → ℕ → Write) (fuel attempt errors : ℕ) (last : Option ℕ)
    → leb max_allowed_error errors ≡ true
    → create_loop (suc fuel) write attempt errors last ≡ failed last
unfolding create_loop
create_loop-full write fuel attempt errors last full = rw full refl

create_loop-Ends :
    (write : ℕ → ℕ → Write) (free fuel attempt errors : ℕ) (last : Option ℕ)
    → ((a c : ℕ) → free ≤ a → write a c ≢ exists)
    → errors ≤ max_allowed_error
    → (free - attempt) + (max_allowed_error - errors) < fuel
    → LastError write errors last
    → Ends write attempt (create_loop fuel write attempt errors last)
create_loop-Ends write free zero attempt errors last h b m l = absurd (omega arith)
create_loop-Ends write free (suc fuel) attempt errors last h b m l =
    elim (Bool-cases (leb max_allowed_error errors)) [
      | inl full ↦
          let at_limit : errors - 1 ≡ 4 = ground arith in
          elim l [
            | inl e ↦ absurd (omega (arith, at_limit))
            | inr (a, e, same, fails) ↦ inr (
              a,
              e,
              create_loop-full write fuel attempt errors last full ∙ ap failed same,
              rw at_limit at fails,
            )
          ]
      | inr room ↦ elim (Write-cases (write attempt errors)) [
        | inl ok ↦ inl (
          attempt,
          errors,
          create_loop-written write fuel attempt errors last room ok,
          omega arith,
          ground arith,
          ok,
        )
        | inr (inl taken) ↦ rw (create_loop-exists write fuel attempt errors last room taken) (
            Ends-mono write attempt (attempt + 1) _ (omega arith) (
              create_loop-Ends write free fuel (attempt + 1) errors last h b
                (ground (arith, h attempt errors)) l))
        | inr (inr (e, fails)) ↦
            rw (create_loop-critical write fuel attempt errors last room e fails) (
              create_loop-Ends write free fuel attempt (errors + 1) (some e) h (ground arith)
                (ground arith) (inr (attempt, e, refl, rw (add-sub_cancel errors 1) fails)))
      ]
    ]

-- If there is a number from which on no attempt's name exists, then with fuel for that many attempts
-- and six rounds more the loop ends: with a new file, on an attempt of number one or more, or with the
-- fifth critical error.
pub create_new_log_file-Ends :
    (write : ℕ → ℕ → Write) (free fuel : ℕ)
    → ((a c : ℕ) → free ≤ a → write a c ≢ exists)
    → free + 5 < fuel
    → Ends write 1 (create_new_log_file fuel write)
unfolding create_new_log_file
create_new_log_file-Ends write free fuel h enough =
    create_loop-Ends write free fuel 1 0 none h (omega arith) (omega arith) (inl refl)
