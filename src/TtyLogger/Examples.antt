-- ===== src/TtyLogger/Examples.antt =====
-- Color profiles at which the theorems apply.
use cocoa_lumberjack.Base.{ℕ, ◌≡◌, List, [], ◌∷◌, none, some}
use cocoa_lumberjack.TtyLogger.{ColorProfile, log_context_all, search_profile}
use cocoa_lumberjack.TtyLogger.Profiles.{first_exact, last_general, search_profile-specific}

abbrev profile_for : ℕ → ColorProfile
profile_for context = record {
  mask = 3;
  context = context;
  fg_code = 49 ∷ [];
  bg_code = [];
  reset_code = 48 ∷ [];
}

-- One for all contexts before the one for the context 7.
abbrev profiles : List ColorProfile
profiles = profile_for log_context_all ∷ profile_for 7 ∷ []

search_profile-specific_example :
    search_profile 2 7 none profiles
    ≡ elim (first_exact 2 7 profiles) [ some p ↦ some p | none ↦ last_general 2 profiles none ]
search_profile-specific_example = search_profile-specific 2 7 none profiles
