-- ===== src/Formatter/Chain.antt =====
-- Extensions/DDMultiFormatter.m: formatters one after the other. A formatter is an object of the
-- application: who it is, and what it makes of a message; the barriers make each method one step.
use cocoa_lumberjack.Base.{
  ℕ, ◌≡◌, refl, Bool, true, false, List, [], ◌∷◌, ◌++◌, Option, none, some, arith, ◌==◌,
  if◌then◌else◌, Option-cases, inl, inr,
}
use cocoa_lumberjack.FileName.{Bytes}
use cocoa_lumberjack.Message.{LogMessage, copy}

pub record Formatter (Object : Type 0) : Type 0 where
  pub ident : ℕ
  pub format : LogMessage Object → Option Bytes

-- The methods of DDMultiFormatter on its array of formatters.
pub record MultiFormatter (State Object : Type 0) : Type 0 where
  pub formatters : State → List (Formatter Object)
  pub add_formatter : Formatter Object → State → State
  pub remove_formatter : Formatter Object → State → State
  pub remove_all_formatters : State → State
  pub is_formatting_with_formatter : Formatter Object → State → Bool
  pub format_log_message : State → LogMessage Object → Option Bytes

module _ {Object : Type 0} where
  pub log_message_for_line : Bytes → LogMessage Object → LogMessage Object
  log_message_for_line line m = record (copy m) { message = line }

  -- The loop, which ends when a formatter returns nil.
  pub format_line : List (Formatter Object) → Bytes → LogMessage Object → Option Bytes
  unfolding log_message_for_line
  format_line [] line m = some line
  format_line (f ∷ fs) line m = elim (f.format (log_message_for_line line m)) [
    | none ↦ none
    | some line' ↦ format_line fs line' m
  ]

  pub format_log_message : List (Formatter Object) → LogMessage Object → Option Bytes
  unfolding format_line
  format_log_message fs m = format_line fs m.message m

  pub add_formatter : Formatter Object → List (Formatter Object) → List (Formatter Object)
  add_formatter f fs = fs ++ f ∷ []

  -- `removeObject:` takes out every occurrence.
  pub remove_formatter : ℕ → List (Formatter Object) → List (Formatter Object)
  remove_formatter x [] = []
  remove_formatter x (f ∷ fs) =
      let rest = remove_formatter x fs in if f.ident == x then rest else f ∷ rest

  pub is_formatting_with_formatter : ℕ → List (Formatter Object) → Bool
  is_formatting_with_formatter x [] = false
  is_formatting_with_formatter x (f ∷ fs) =
      if f.ident == x then true else is_formatting_with_formatter x fs

  pub remove_all_formatters : List (Formatter Object) → List (Formatter Object)
  remove_all_formatters fs = []

  format_line-append :
      (fs gs : List (Formatter Object)) (line : Bytes) (m : LogMessage Object)
      → format_line (fs ++ gs) line m
        ≡ elim (format_line fs line m) [ none ↦ none | some line' ↦ format_line gs line' m ]
  unfolding format_line
  format_line-append [] gs line m = refl
  format_line-append (f ∷ fs) gs line m =
      elim (Option-cases (f.format (log_message_for_line line m))) [
        | inl e ↦ ground arith
        | inr (line', e) ↦ ground (arith, format_line-append fs gs line' m)
      ]

  format_line-one :
      (f : Formatter Object) (line : Bytes) (m : LogMessage Object)
      → format_line (f ∷ []) line m ≡ f.format (log_message_for_line line m)
  unfolding format_line
  format_line-one f line m = ground arith

  -- A formatter that is added gets what the others made of the message, in a copy of the message that
  -- differs only in the text; when they drop the message it is not asked, and the result is nil.
  pub format_log_message-added :
      (f : Formatter Object) (fs : List (Formatter Object)) (m : LogMessage Object)
      → format_log_message (add_formatter f fs) m ≡ elim (format_log_message fs m) [
        | none ↦ none
        | some line ↦ f.format (log_message_for_line line m)
      ]
  unfolding format_log_message add_formatter
  format_log_message-added f fs m = ground (
    arith,
    format_line-append fs (f ∷ []) m.message m,
    λ (line : Bytes). format_line-one f line m,
  )

  -- After a removal the formatter is not in the list, and every other one is as before.
  pub remove_formatter-is_formatting_with_formatter :
      (x y : ℕ) (fs : List (Formatter Object))
      → is_formatting_with_formatter y (remove_formatter x fs)
        ≡ (if x == y then false else is_formatting_with_formatter y fs)
  unfolding remove_formatter is_formatting_with_formatter
  remove_formatter-is_formatting_with_formatter x y [] = ground arith
  remove_formatter-is_formatting_with_formatter x y (f ∷ fs) =
      ground (arith, remove_formatter-is_formatting_with_formatter x y fs)

  abbrev pub multi_formatter : MultiFormatter (List (Formatter Object)) Object
  unfolding add_formatter remove_formatter remove_all_formatters is_formatting_with_formatter
      format_log_message
  multi_formatter = record {
    formatters = λ fs. fs;
    add_formatter = add_formatter;
    remove_formatter = λ f. remove_formatter f.ident;
    remove_all_formatters = remove_all_formatters;
    is_formatting_with_formatter = λ f. is_formatting_with_formatter f.ident;
    format_log_message = format_log_message;
  }
