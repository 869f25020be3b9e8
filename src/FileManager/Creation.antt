-- ===== src/FileManager/Creation.antt =====
-- `newLogFileName`, `isLogFile:` and `createNewLogFileWithError:`. A name is the list of its characters;
-- the text of the date is a parameter, since NSDateFormatter makes it.
pub mod Names
pub mod Attempts
use cocoa_lumberjack.Base.{
  ℕ, zero, suc, ◌+◌, ◌-◌, ◌/◌, ◌%◌, Bool, true, false, ◌&&◌, List, [], ◌∷◌, ◌++◌, Option, none,
  some, ltb, leb, ◌==◌, if◌then◌else◌, length, drop, bytes_eq,
}
use cocoa_lumberjack.FileName.{Bytes, dot, last_index, strip_extension}

abbrev pub space : ℕ
space = b' '

-- "log"
abbrev pub log_extension : Bytes
log_extension = b'l' ∷ b'o' ∷ b'g' ∷ []

unfoldable pub new_log_file_name : Bytes → Bytes → Bytes
new_log_file_name app date = (app ++ space ∷ date) ++ dot ∷ log_extension

unfoldable pub has_prefix : Bytes → Bytes → Bool
has_prefix [] s = true
has_prefix (p ∷ ps) [] = false
has_prefix (p ∷ ps) (c ∷ cs) = p == c && has_prefix ps cs

pub has_suffix : Bytes → Bytes → Bool
has_suffix suffix s =
    leb (length suffix) (length s) && bytes_eq (drop (length s - length suffix) s) suffix

-- `isLogFile:` with the name of the application.
pub is_log_file : Bytes → Bytes → Bool
is_log_file app name = has_prefix (app ++ space ∷ []) name && has_suffix (dot ∷ log_extension) name

-- `%lu`, on fuel that bounds the number of digits.
pub digits : ℕ → ℕ → Bytes → Bytes
digits zero n out = out
digits (suc fuel) n out =
    let more = digits fuel (n / 10) ((b'0' + n % 10) ∷ out) in
    if ltb n 10 then (b'0' + n % 10) ∷ out else more

pub decimal : ℕ → Bytes
unfolding digits
decimal n = digits (suc n) n []

-- The part behind the last dot; none is the empty text.
pub path_extension : Bytes → Bytes
path_extension name = elim (last_index dot name 0 none) [ none ↦ [] | some i ↦ drop (i + 1) name ]

-- `actualFileName` in the round with this number.
pub actual_file_name : Bytes → Bytes → ℕ → Bytes
actual_file_name app date attempt =
    let name = new_log_file_name app date in
    let numbered = strip_extension name ++ space ∷ decimal attempt in
    let extended = numbered ++ dot ∷ path_extension name in
    if ltb 1 attempt
    then if ltb 0 (length (path_extension name)) then extended else numbered
    else name

-- What writing the header to the file does.
pub data Write : Type 0 where
  written exists : Write
  critical : ℕ → Write

pub data Creation : Type 0 where
  created : ℕ → Creation
  failed : Option ℕ → Creation
  out_of_fuel : Creation

abbrev pub max_allowed_error : ℕ
max_allowed_error = 5

-- The loop. `write attempt errors` is what happens on the attempt with that number, after that many
-- critical errors; `last` is the last critical error. The result names the attempt whose file was made.
pub create_loop : ℕ → (ℕ → ℕ → Write) → ℕ → ℕ → Option ℕ → Creation
create_loop zero write attempt errors last = out_of_fuel
create_loop (suc fuel) write attempt errors last =
    let next : Creation = elim (write attempt errors) [
      | written ↦ created attempt
      | exists ↦ create_loop fuel write (attempt + 1) errors last
      | critical e ↦ create_loop fuel write attempt (errors + 1) (some e)
    ] in
    if leb max_allowed_error errors then failed last else next

pub create_new_log_file : ℕ → (ℕ → ℕ → Write) → Creation
create_new_log_file fuel write = create_loop fuel write 1 0 none
