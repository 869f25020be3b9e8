-- ===== src/TtyLogger/Profiles.antt =====
-- The color profiles of DDTTYLogger: which one a message gets, and setting and clearing them.
use cocoa_lumberjack.Base.{
  ℕ, ◌≡◌, refl, ◌∙◌, Bool, false, ◌&&◌, List, [], ◌∷◌, Option, none, some, ◌==◌, ==_refl,
  if◌then◌else◌, arith, Bool-cases, inl, inr,
}
use cocoa_lumberjack.FileName.{Bytes}
use cocoa_lumberjack.Log.Level.{is_enabled}
use cocoa_lumberjack.TtyLogger.{
  Color, ColorProfile, TtyLogger, log_context_all, is_for, replace_profile, remove_profile,
  clear_colors_for_flag, clear_colors_for_flag_context, new_profile,
  set_foreground_color_for_flag_context, set_foreground_color_for_flag, search_profile,
}

-- The first profile that has a bit of the flag and the message's own context.
pub first_exact : ℕ → ℕ → List ColorProfile → Option ColorProfile
first_exact flag context [] = none
first_exact flag context (p ∷ ps) =
    if is_enabled flag p.mask && context == p.context then some p else first_exact flag context ps

-- The last profile that has a bit of the flag and is for all contexts.
pub last_general : ℕ → List ColorProfile → Option ColorProfile → Option ColorProfile
last_general flag [] found = found
last_general flag (p ∷ ps) found =
    last_general flag ps
      (if is_enabled flag p.mask && p.context == log_context_all then some p else found)

-- The profile found for a flag and a context is the first one made for that context, wherever it stands,
-- or else the last one for all contexts.
pub search_profile-specific :
    (flag context : ℕ) (found : Option ColorProfile) (ps : List ColorProfile)
    → search_profile flag context found ps
      ≡ elim (first_exact flag context ps) [ some p ↦ some p | none ↦ last_general flag ps found ]
unfolding search_profile first_exact last_general
search_profile-specific flag context found [] = refl
search_profile-specific flag context found (p ∷ ps) = elim (Bool-cases (is_enabled flag p.mask)) [
  | inr e ↦ ground (arith, e, search_profile-specific flag context found ps)
  | inl e ↦ elim (Bool-cases (context == p.context)) [
    | inl c ↦ ground (arith, e, c)
    | inr c ↦ elim (Bool-cases (p.context == log_context_all)) [
      | inl a ↦ ground (arith, e, c, a, search_profile-specific flag context (some p) ps)
      | inr a ↦ ground (arith, e, c, a, search_profile-specific flag context found ps)
    ]
  ]
]

-- The profile that is set for a mask and a context.
pub profile_at : ℕ → ℕ → List ColorProfile → Option ColorProfile
profile_at mask context [] = none
profile_at mask context (p ∷ ps) =
    if is_for mask context p then some p else profile_at mask context ps

-- Whether two pairs of a mask and a context are the same.
abbrev pub same_pair : ℕ → ℕ → ℕ → ℕ → Bool
same_pair m c n d = m == n && c == d

replace-profile_at :
    (new : ColorProfile) (mask context : ℕ) (ps : List ColorProfile)
    → profile_at mask context (replace_profile new ps) ≡ (
        if same_pair new.mask new.context mask context
        then some new
        else profile_at mask context ps)
unfolding profile_at replace_profile is_for
replace-profile_at new mask context [] = ground arith
replace-profile_at new mask context (p ∷ ps) =
    ground (arith, replace-profile_at new mask context ps)

remove-profile_at :
    (m c mask context : ℕ) (ps : List ColorProfile)
    → same_pair m c mask context ≡ false
    → profile_at mask context (remove_profile m c ps) ≡ profile_at mask context ps
unfolding profile_at remove_profile is_for
remove-profile_at m c mask context [] h = refl
remove-profile_at m c mask context (p ∷ ps) h =
    ground (arith, remove-profile_at m c mask context ps h)

-- Setting colors for a flag and a context sets the profile of that pair and of no other.
pub set_foreground_color-profile_at :
    (codes : Option Color → Option Color → Bytes × (Bytes × Bytes)) (fg bg : Option Color)
    (m c mask context : ℕ) (s : TtyLogger)
    → profile_at mask context
        (set_foreground_color_for_flag_context codes fg bg m c s).color_profiles_array
      ≡ (if same_pair m c mask context
          then some (new_profile codes fg bg m c)
          else profile_at mask context s.color_profiles_array)
unfolding set_foreground_color_for_flag_context new_profile
set_foreground_color-profile_at codes fg bg m c mask context s =
    replace-profile_at (new_profile codes fg bg m c) mask context s.color_profiles_array

-- Clearing the colors of a flag does not clear what setting the colors of that flag set: the profile for
-- all contexts stays, since only one for the context 0 is removed.
pub clear_colors_for_flag-profile_at :
    (codes : Option Color → Option Color → Bytes × (Bytes × Bytes)) (fg bg : Option Color) (m : ℕ)
    (s : TtyLogger)
    → profile_at m log_context_all
        (clear_colors_for_flag m
          (set_foreground_color_for_flag codes fg bg m s)).color_profiles_array
      ≡ some (new_profile codes fg bg m log_context_all)
unfolding clear_colors_for_flag clear_colors_for_flag_context set_foreground_color_for_flag
clear_colors_for_flag-profile_at codes fg bg m s =
    remove-profile_at m 0 m log_context_all
      (set_foreground_color_for_flag_context codes fg bg m log_context_all s).color_profiles_array
      (ground (arith, ==_refl m))
    ∙ set_foreground_color-profile_at codes fg bg m log_context_all m log_context_all s
    ∙ ground (arith, ==_refl m)
