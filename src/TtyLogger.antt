-- ===== src/TtyLogger.antt =====
-- DDTTYLogger of include/CocoaLumberjack/DDTTYLogger.h and DDTTYLogger.m: its color profiles and what it
-- writes to the terminal. Blocks run on the logger's own queue. The escape sequences of a pair of
-- colors, which depend on the terminal, are a parameter; a tag that is equal to another has its number.
pub mod Profiles
mod Examples
use cocoa_lumberjack.Base.{
  ℕ, ◌^◌, ◌-◌, Bool, true, false, not, ◌&&◌, List, [], ◌∷◌, ◌++◌, Option, none, some, ◌==◌,
  if◌then◌else◌, take, codes, length,
}
use cocoa_lumberjack.FileName.{Bytes}
use cocoa_lumberjack.Log.Level.{Flag, flag_bits, is_enabled}
use cocoa_lumberjack.FileLogger.Text.{
  Formatted, formatted_text, is_formatted, dropped, newline, ends_in_newline,
}

-- `INT_MAX`
abbrev pub log_context_all : ℕ
log_context_all = 2 ^ 31 - 1

-- `DDMakeColor`
pub record Color : Type 0 where
  pub red : ℕ
  pub green : ℕ
  pub blue : ℕ

pub record ColorProfile : Type 0 where
  pub mask : ℕ
  pub context : ℕ
  pub fg_code : Bytes
  pub bg_code : Bytes
  pub reset_code : Bytes

-- The properties and methods of the class, on the state of the logger.
pub record TtyLoggerInterface (Logger : Type 0) : Type 0 where
  pub shared_instance : Logger
  pub colors_enabled : Logger → Bool
  pub set_colors_enabled : Bool → Logger → Logger
  pub automatically_append_newline_for_custom_formatters : Logger → Bool
  pub set_automatically_append_newline_for_custom_formatters : Bool → Logger → Logger
  pub set_foreground_color_for_flag : Option Color → Option Color → ℕ → Logger → Logger
  pub set_foreground_color_for_flag_context : Option Color → Option Color → ℕ → ℕ → Logger → Logger
  pub set_foreground_color_for_tag : Option Color → Option Color → ℕ → Logger → Logger
  pub clear_colors_for_flag : ℕ → Logger → Logger
  pub clear_colors_for_flag_context : ℕ → ℕ → Logger → Logger
  pub clear_colors_for_tag : ℕ → Logger → Logger
  pub clear_colors_for_all_flags : Logger → Logger
  pub clear_colors_for_all_tags : Logger → Logger
  pub clear_all_colors : Logger → Logger

-- The variables that messages depend on, and what was written.
pub record TtyLogger : Type 0 where
  pub colors_enabled : Bool
  pub automatically_append_newline : Bool
  pub color_profiles_array : List ColorProfile
  pub color_profiles_dict : List (ℕ × ColorProfile)
  pub written : Bytes

abbrev pub initial_tty_logger : TtyLogger
initial_tty_logger = record {
  colors_enabled = false;
  automatically_append_newline = true;
  color_profiles_array = [];
  color_profiles_dict = [];
  written = [];
}

unfoldable pub is_for : ℕ → ℕ → ColorProfile → Bool
is_for mask context p = p.mask == mask && p.context == context

-- The first profile of that mask and context is replaced, or the new one is added at the end.
unfoldable pub replace_profile : ColorProfile → List ColorProfile → List ColorProfile
unfolding is_for
replace_profile new [] = new ∷ []
replace_profile new (p ∷ ps) =
    let rest = replace_profile new ps in
    if is_for new.mask new.context p then new ∷ ps else p ∷ rest

-- The first profile of that mask and context is taken out.
unfoldable pub remove_profile : ℕ → ℕ → List ColorProfile → List ColorProfile
unfolding is_for
remove_profile mask context [] = []
remove_profile mask context (p ∷ ps) =
    let rest = remove_profile mask context ps in if is_for mask context p then ps else p ∷ rest

remove_tag : ℕ → List (ℕ × ColorProfile) → List (ℕ × ColorProfile)
remove_tag tag [] = []
remove_tag tag (e ∷ es) = let rest = remove_tag tag es in if e.0 == tag then rest else e ∷ rest

unfoldable pub profile_of_tag : ℕ → List (ℕ × ColorProfile) → Option ColorProfile
profile_of_tag tag [] = none
profile_of_tag tag (e ∷ es) = if e.0 == tag then some e.1 else profile_of_tag tag es

unfoldable pub clear_colors_for_flag_context : ℕ → ℕ → TtyLogger → TtyLogger
clear_colors_for_flag_context mask context s = record s {
  color_profiles_array = remove_profile mask context s.color_profiles_array;
}

-- The method passes the context 0.
unfoldable pub clear_colors_for_flag : ℕ → TtyLogger → TtyLogger
unfolding clear_colors_for_flag_context
clear_colors_for_flag mask s = clear_colors_for_flag_context mask 0 s

module _ (color_codes : Option Color → Option Color → Bytes × (Bytes × Bytes)) where
  unfoldable pub new_profile : Option Color → Option Color → ℕ → ℕ → ColorProfile
  new_profile fg bg mask context =
      let sequences = color_codes fg bg in
      record {
        mask = mask;
        context = context;
        fg_code = sequences.0;
        bg_code = sequences.1.0;
        reset_code = sequences.1.1;
      }

  unfoldable pub set_foreground_color_for_flag_context :
      Option Color → Option Color → ℕ → ℕ → TtyLogger → TtyLogger
  unfolding new_profile
  set_foreground_color_for_flag_context fg bg mask context s = record s {
    color_profiles_array = replace_profile (new_profile fg bg mask context) s.color_profiles_array;
  }

  unfoldable pub set_foreground_color_for_flag :
      Option Color → Option Color → ℕ → TtyLogger → TtyLogger
  unfolding set_foreground_color_for_flag_context
  set_foreground_color_for_flag fg bg mask s =
      set_foreground_color_for_flag_context fg bg mask log_context_all s

  set_foreground_color_for_tag : Option Color → Option Color → ℕ → TtyLogger → TtyLogger
  unfolding new_profile remove_tag
  set_foreground_color_for_tag fg bg tag s = record s {
    color_profiles_dict = (tag, new_profile fg bg 0 0) ∷ remove_tag tag s.color_profiles_dict;
  }

  -- `loadDefaultColorProfiles`
  load_default_color_profiles : TtyLogger → TtyLogger
  unfolding set_foreground_color_for_flag
  load_default_color_profiles s =
      set_foreground_color_for_flag (some (record { red = 204; green = 121; blue = 32 })) none
        (flag_bits Flag.warning)
        (set_foreground_color_for_flag (some (record { red = 214; green = 57; blue = 30 })) none
          (flag_bits Flag.error) s)

  set_colors_enabled : Bool → TtyLogger → TtyLogger
  unfolding load_default_color_profiles
  set_colors_enabled enabled s =
      let s' = record s { colors_enabled = enabled } in
      if length s.color_profiles_array == 0 then load_default_color_profiles s' else s'

  abbrev pub tty_logger : TtyLoggerInterface TtyLogger
  unfolding set_colors_enabled set_foreground_color_for_tag remove_tag
  tty_logger = record {
    shared_instance = initial_tty_logger;
    colors_enabled = λ s. s.colors_enabled;
    set_colors_enabled = set_colors_enabled;
    automatically_append_newline_for_custom_formatters = λ s. s.automatically_append_newline;
    set_automatically_append_newline_for_custom_formatters =
        λ b s. record s { automatically_append_newline = b };
    set_foreground_color_for_flag = set_foreground_color_for_flag;
    set_foreground_color_for_flag_context = set_foreground_color_for_flag_context;
    set_foreground_color_for_tag = set_foreground_color_for_tag;
    clear_colors_for_flag = clear_colors_for_flag;
    clear_colors_for_flag_context = clear_colors_for_flag_context;
    clear_colors_for_tag =
        λ tag s. record s { color_profiles_dict = remove_tag tag s.color_profiles_dict };
    clear_colors_for_all_flags = λ s. record s { color_profiles_array = [] };
    clear_colors_for_all_tags = λ s. record s { color_profiles_dict = [] };
    clear_all_colors = λ s. record s { color_profiles_array = []; color_profiles_dict = [] };
  }

-- What `logMessage:` reads of a message; the tag is `_representedObject`, and the timestamp is a text of
-- at most 23 bytes.
pub record TtyMessage : Type 0 where
  pub text : Bytes
  pub flag : ℕ
  pub context : ℕ
  pub tag : Option ℕ
  pub timestamp : Bytes
  pub thread_id : Bytes

-- The loop over the array, with what was found so far.
unfoldable pub search_profile :
    ℕ → ℕ → Option ColorProfile → List ColorProfile → Option ColorProfile
search_profile flag context found [] = found
search_profile flag context found (p ∷ ps) =
    let all = search_profile flag context (some p) ps in
    let rest = search_profile flag context found ps in
    if is_enabled flag p.mask
    then if context == p.context then some p else if p.context == log_context_all then all else rest
    else rest

-- The profile of a message: that of its tag, if there is one, or else one of its flag and context.
unfoldable pub color_profile : TtyMessage → TtyLogger → Option ColorProfile
unfolding search_profile profile_of_tag
color_profile m s =
    let by_tag : Option ColorProfile = elim m.tag [
      | none ↦ none
      | some t ↦ profile_of_tag t s.color_profiles_dict
    ] in
    if s.colors_enabled
    then elim by_tag [
      | some p ↦ some p
      | none ↦ search_profile m.flag m.context none s.color_profiles_array
    ]
    else none

abbrev fg_of : Option ColorProfile → Bytes
fg_of none = []
fg_of (some p) = p.fg_code ++ p.bg_code

abbrev reset_of : Option ColorProfile → Bytes
reset_of none = []
reset_of (some p) = p.reset_code

-- The line of a text that a formatter made: the last of the five parts, which resets the colors, is
-- written only if line ends are appended.
unfoldable pub formatted_line : Bool → Option ColorProfile → Bytes → Bytes
formatted_line append_newline profile text =
    let end : Bytes = if ends_in_newline text then [] else newline ∷ [] in
    if append_newline
    then fg_of profile ++ text ++ end ++ reset_of profile
    else fg_of profile ++ text

-- The line in the style of NSLog; the byte behind the text, which decides about the line end, is the 0
-- at its end.
unfoldable pub standard_line : Bytes → Bytes → Option ColorProfile → TtyMessage → Bytes
standard_line app pid profile m =
    fg_of profile
    ++ m.timestamp
    ++ codes " "
    ++ app
    ++ codes "["
    ++ pid
    ++ codes ":"
    ++ take 8 m.thread_id
    ++ codes "] "
    ++ m.text
    ++ newline ∷ []
    ++ reset_of profile

-- `logMessage:` with what the formatter, if there is one, makes of the message.
pub log_message : Bytes → Bytes → Option Formatted → TtyMessage → TtyLogger → TtyLogger
unfolding color_profile formatted_line standard_line
log_message app pid r m s =
    let profile = color_profile m s in
    let line : Bytes =
      if is_formatted r
      then formatted_line s.automatically_append_newline profile (formatted_text r m.text)
      else standard_line app pid profile m in
    let wrote = record s { written = s.written ++ line } in elim r [ some dropped ↦ s | _ ↦ wrote ]
