-- ===== src/FileLogger/Examples.antt =====
-- File loggers at which the theorems apply.
use cocoa_lumberjack.Base.{inr, refl, true, false, List, [], ◌∷◌, Option, none, some}
use cocoa_lumberjack.FileLogger.{
  File, FileLogger, Env, Event, log_data, set_max_size, handle_event, timer_fires, lt_log_data,
}
use cocoa_lumberjack.FileLogger.Unlimited.{IsUnlimited, Stays, handle_events, handle_events-Stays}
use cocoa_lumberjack.FileLogger.Invariant.{IsSound}
use cocoa_lumberjack.FileLogger.Rolling.{handle_event-IsSound, IsLimited, lt_log_data-IsLimited}
use cocoa_lumberjack.FileLogger.Text.{Formatted, changed}

abbrev old_file : File
old_file = record {
  path = 1;
  content = 65 ∷ 66 ∷ [];
  created = 500;
  is_archived = false;
  can_mark = true;
  is_symlink = false;
}

-- The logger has the file open; it may hold four bytes, and a second of time.
abbrev writing : FileLogger
writing = record {
  maximum_file_size = 4;
  rolling_frequency = 1000;
  do_not_reuse_log_files = false;
  current = some 1;
  handle = some 1;
  vnode = true;
  timer = some 1500;
  disk = old_file ∷ [];
  archived = [];
  deletions = 0;
  deleted = [];
}

abbrev started : FileLogger
started = record writing { current = none; handle = none; vnode = false; timer = none }

abbrev around : Env
around = record {
  now = 700;
  create = some 2;
  header = 35 ∷ [];
  can_open = true;
  can_get_offset = true;
  can_write = true;
  should_archive_recent = false;
  can_mark_new = true;
  deletes = true;
  disk_quota = 5;
  max_files = 3;
  can_remove = λ p. true;
}

writing-IsSound : IsSound writing
writing-IsSound = inr (
  old_file,
  [],
  record {
    opening = record {
      on_disk = refl;
      has_handle = refl;
      is_current = refl;
      not_archived = refl;
      not_symlink = refl;
      watched = refl;
    };
    timed = refl;
  },
)

handle_event-IsSound_example : IsSound (handle_event around timer_fires writing)
handle_event-IsSound_example = handle_event-IsSound around timer_fires writing writing-IsSound

lt_log_data-IsLimited_example : IsLimited (lt_log_data around (67 ∷ 68 ∷ []) writing)
lt_log_data-IsLimited_example =
    lt_log_data-IsLimited around 67 (68 ∷ []) writing writing-IsSound refl

abbrev formatted : Option Formatted
formatted = some (changed (65 ∷ []))

-- A logger with its file open and without limits.
abbrev unlimited : FileLogger
unlimited = record writing { maximum_file_size = 0; rolling_frequency = 0; timer = none }

unlimited-IsUnlimited : IsUnlimited unlimited old_file []
unlimited-IsUnlimited = record {
  any_size = refl;
  any_age = refl;
  opened = record {
    opening = record {
      on_disk = refl;
      has_handle = refl;
      is_current = refl;
      not_archived = refl;
      not_symlink = refl;
      watched = refl;
    };
    timed = refl;
  };
}

abbrev some_events : List (Env × Event)
some_events =
    (around, log_data (67 ∷ 68 ∷ [])) ∷ (around, set_max_size 0) ∷ (around, timer_fires) ∷ []

handle_events-Stays_example : Stays unlimited (handle_events some_events unlimited) old_file []
handle_events-Stays_example =
    handle_events-Stays some_events unlimited old_file [] (tt, (refl, (tt, tt)))
      unlimited-IsUnlimited
