-- ===== src/FileManager/Sorting/Dates.antt =====
-- The date in the name of a log file that the manager created.
use cocoa_lumberjack.Base.{
  ℕ, suc, ◌+◌, ◌≡◌, ◌≢◌, refl, ap, ◌∙◌, false, [], ◌∷◌, ◌++◌, append_assoc, Option, none, some,
  arith, length, drop,
}
use cocoa_lumberjack.FileName.{Bytes, Lacks, dot}
use cocoa_lumberjack.FileName.Loop.{last_index-last}
use cocoa_lumberjack.FileManager.Creation.{space, log_extension, new_log_file_name, has_prefix}
use cocoa_lumberjack.FileManager.Sorting.{
  Info, last_component, without_extension, string_date, file_date,
}

-- A text that begins with another character than a dot does not begin with ".log".
no_dot : (c : ℕ) (cs : Bytes) → c ≢ dot → has_prefix (dot ∷ log_extension) (c ∷ cs) ≡ false
unfolding has_prefix
no_dot c cs h = ground arith

without_extension-append :
    (date : Bytes) → Lacks dot date → without_extension 0 (date ++ dot ∷ log_extension) ≡ date
unfolding without_extension has_prefix
without_extension-append [] h = refl
without_extension-append (c ∷ cs) h =
    ground (arith, no_dot c (cs ++ dot ∷ log_extension) h.0, without_extension-append cs h.1)

drop_behind : (front rest : Bytes) → drop (suc (length front)) (front ++ space ∷ rest) ≡ rest
drop_behind [] rest = refl
drop_behind (c ∷ cs) rest = drop_behind cs rest

behind : (n : ℕ) → 0 + n + 1 ≡ suc n
behind n = omega arith

last_component-append :
    (front rest : Bytes) → Lacks space rest → last_component (front ++ space ∷ rest) ≡ rest
unfolding last_component
last_component-append front rest h =
    rw (last_component, last_index-last space front rest 0 none h)
      (ap (λ n. drop n (front ++ space ∷ rest)) (behind (length front)) ∙ drop_behind front rest)

Lacks-extension : (date : Bytes) → Lacks space date → Lacks space (date ++ dot ∷ log_extension)
Lacks-extension [] h = (omega arith, (omega arith, (omega arith, (omega arith, tt))))
Lacks-extension (c ∷ cs) h = (h.0, Lacks-extension cs h.1)

string_date-new_log_file_name :
    (app date : Bytes)
    → Lacks space date
    → Lacks dot date
    → string_date (new_log_file_name app date) ≡ date
unfolding string_date new_log_file_name
string_date-new_log_file_name app date hs hd =
    ap (λ n. without_extension 0 (last_component n))
      (append_assoc app (space ∷ date) (dot ∷ log_extension))
    ∙ ap (without_extension 0)
        (last_component-append app (date ++ dot ∷ log_extension) (Lacks-extension date hs))
    ∙ without_extension-append date hd

file_date-read :
    (read_date : Bytes → Option ℕ) (f : Info) (d : ℕ)
    → read_date (string_date f.file_name) ≡ some d
    → file_date read_date f ≡ some d
unfolding file_date
file_date-read read_date f d e = ground arith

-- A file that the manager created at the first attempt is sorted by the date that was written into its
-- name, whatever the application's name is and whatever date of creation the disk has, if the text of the
-- date has no space and no dot and reads as that date.
pub file_date-new_log_file_name :
    (read_date : Bytes → Option ℕ) (app date : Bytes) (d : ℕ) (created : Option ℕ)
    → Lacks space date
    → Lacks dot date
    → read_date date ≡ some d
    → file_date read_date
        (record { file_name = new_log_file_name app date; creation_date = created })
      ≡ some d
file_date-new_log_file_name read_date app date d created hs hd e =
    file_date-read read_date
      (record { file_name = new_log_file_name app date; creation_date = created }) d
      (ap read_date (string_date-new_log_file_name app date hs hd) ∙ e)
