-- ===== src/FileManager/FileInfo/Archiving.antt =====
-- The extended attributes of a file, the mark of archived files, and renaming. Which files may be
-- written to is a parameter, and so are the file that a path leads to when symbolic links are
-- followed, the path of a file of another name in the same directory and
-- which moves the file system makes.
use cocoa_lumberjack.Base.{
  ◌≡◌, refl, Bool, true, false, ◌&&◌, [], ◌∷◌, Option, none, some, ◌∙◌, ap, sym, Bool-cases, inl,
  inr, bytes_eq→≡, ◌==◌, if◌then◌else◌, bytes_eq, bytes_eq_refl, codes, arith,
}
use cocoa_lumberjack.FileName.{Bytes}
use cocoa_lumberjack.FileManager.FileInfo.{
  Entry, Disk, FileInfo, LogFileInfo, init_with_file_path, log_file_with_path, file_name,
  file_attributes, creation_date, modification_date, file_size, age, is_symlink, reset,
  reverse_compare_by_creation_date, reverse_compare_by_modification_date,
}

-- `kDDXAttrArchivedName`
abbrev pub archived_name : Bytes
archived_name = codes "lumberjack.log.archived"

-- The value that marks an attribute.
abbrev mark : Bytes
mark = 1 ∷ []

abbrev put : Bytes → Option Bytes → Entry → Entry
put name value e = record e { extended = λ n. if bytes_eq n name then value else e.extended n }

abbrev store : Bytes → Option Entry → Disk → Disk
store path e disk p = if bytes_eq p path then e else disk p

-- The value of an attribute of the file at a path.
abbrev pub value_at : Bytes → Bytes → Disk → Option Bytes
value_at path name disk = elim (disk path) [ none ↦ none | some e ↦ e.extended name ]

-- `setxattr` and `removexattr`, which do nothing to a file that is missing or may not be changed.
unfoldable pub set_extended : (Bytes → Bool) → Bytes → Option Bytes → Disk → Bytes → Disk
set_extended writable name value disk path = elim (disk path) [
  | none ↦ disk
  | some e ↦ if writable path then store path (some (put name value e)) disk else disk
]

-- Whether `getxattr` succeeds with a buffer of one byte.
abbrev is_set : Option Bytes → Bool
is_set none = false
is_set (some []) = true
is_set (some (c ∷ [])) = true
is_set (some (c ∷ d ∷ ds)) = false

-- The answer to a value that was read, and the files after it; a value other than the mark is one of an
-- older version, which is replaced.
answer : Option Bytes → Disk → Disk → Bool × Disk
answer none disk upgraded = (false, disk)
answer (some []) disk upgraded = (true, upgraded)
answer (some (c ∷ [])) disk upgraded = (true, if c == 1 then disk else upgraded)
answer (some (c ∷ d ∷ ds)) disk upgraded = (false, disk)

answer-is_set : (v : Option Bytes) (disk upgraded : Disk) → (answer v disk upgraded).0 ≡ is_set v
unfolding answer
answer-is_set none disk upgraded = refl
answer-is_set (some []) disk upgraded = refl
answer-is_set (some (c ∷ [])) disk upgraded = refl
answer-is_set (some (c ∷ d ∷ ds)) disk upgraded = refl

-- What holds of the files exactly if the attribute is set holds so of those after the answer.
answer-kept :
    (f : Disk → Bool) (v : Option Bytes) (disk upgraded : Disk)
    → f disk ≡ is_set v
    → (is_set v ≡ true → f upgraded ≡ true)
    → f (answer v disk upgraded).1 ≡ is_set v
unfolding answer
answer-kept f none disk upgraded h u = h
answer-kept f (some []) disk upgraded h u = u refl
answer-kept f (some (c ∷ [])) disk upgraded h u = ground (arith, h, u refl)
answer-kept f (some (c ∷ d ∷ ds)) disk upgraded h u = h

module _ (writable : Bytes → Bool) (follow : Bytes → Bytes) where
  pub add_extended_attribute_with_name : Bytes → Disk → FileInfo → Disk
  add_extended_attribute_with_name name disk i =
      set_extended writable name (some mark) disk (follow i.file_path)

  pub remove_extended_attribute_with_name : Bytes → Disk → FileInfo → Disk
  remove_extended_attribute_with_name name disk i =
      set_extended writable name none disk (follow i.file_path)

  -- `getxattr` with a buffer of one byte fails for a longer value.
  pub has_extended_attribute_with_name : Bytes → Disk → FileInfo → Bool × Disk
  unfolding add_extended_attribute_with_name answer
  has_extended_attribute_with_name name disk i =
      let upgraded = add_extended_attribute_with_name name disk i in
      answer (value_at (follow i.file_path) name disk) disk upgraded

  pub is_archived : Disk → FileInfo → Bool × Disk
  is_archived disk i = has_extended_attribute_with_name archived_name disk i

  pub set_is_archived : Bool → Disk → FileInfo → Disk
  set_is_archived flag disk i =
      if flag
      then add_extended_attribute_with_name archived_name disk i
      else remove_extended_attribute_with_name archived_name disk i

  add-value :
      (name : Bytes) (disk : Disk) (i : FileInfo) (e : Entry)
      → disk (follow i.file_path) ≡ some e
      → writable (follow i.file_path) ≡ true
      → value_at (follow i.file_path) name (add_extended_attribute_with_name name disk i)
        ≡ some mark
  unfolding add_extended_attribute_with_name set_extended
  add-value name disk i e h w =
      ground (arith, h, w, bytes_eq_refl name, bytes_eq_refl (follow i.file_path))

  remove-value :
      (name : Bytes) (disk : Disk) (i : FileInfo) (e : Entry)
      → disk (follow i.file_path) ≡ some e
      → writable (follow i.file_path) ≡ true
      → value_at (follow i.file_path) name (remove_extended_attribute_with_name name disk i) ≡ none
  unfolding remove_extended_attribute_with_name set_extended
  remove-value name disk i e h w =
      ground (arith, h, w, bytes_eq_refl name, bytes_eq_refl (follow i.file_path))

  has-value :
      (name : Bytes) (disk : Disk) (i : FileInfo)
      → (has_extended_attribute_with_name name disk i).0
        ≡ is_set (value_at (follow i.file_path) name disk)
  unfolding has_extended_attribute_with_name
  has-value name disk i = answer-is_set (value_at (follow i.file_path) name disk) disk _

  add-set :
      (name : Bytes) (disk : Disk) (i : FileInfo)
      → is_set (value_at (follow i.file_path) name disk) ≡ true
      → is_set (value_at (follow i.file_path) name (add_extended_attribute_with_name name disk i))
        ≡ true
  unfolding add_extended_attribute_with_name set_extended
  add-set name disk i h = ground (arith, h, bytes_eq_refl name, bytes_eq_refl (follow i.file_path))

  set-others :
      (name : Bytes) (value : Option Bytes) (disk : Disk) (path n p : Bytes)
      → (bytes_eq n name && bytes_eq p path) ≡ false
      → value_at p n (set_extended writable name value disk path) ≡ value_at p n disk
  unfolding set_extended
  set-others name value disk path n p h = elim (Bool-cases (bytes_eq p path)) [
    | inr q ↦ ground (arith, q)
    | inl q ↦ ground (arith, h, q, ap disk (bytes_eq→≡ p path q))
  ]

  -- Setting the flag of an existing file that may be changed, which a path may lead to through symbolic
  -- links, makes it read so; it leaves every other
  -- attribute, and all attributes of all other files, as they are.
  pub set_is_archived-is_archived :
      (flag : Bool) (disk : Disk) (i : FileInfo) (e : Entry) (name path : Bytes)
      → disk (follow i.file_path) ≡ some e
      → writable (follow i.file_path) ≡ true
      → (bytes_eq name archived_name && bytes_eq path (follow i.file_path)) ≡ false
      → ((is_archived (set_is_archived flag disk i) i).0 ≡ flag)
        × (value_at path name (set_is_archived flag disk i) ≡ value_at path name disk)
  unfolding is_archived set_is_archived add_extended_attribute_with_name
      remove_extended_attribute_with_name
  set_is_archived-is_archived true disk i e name path h w o = (
    has-value archived_name _ i ∙ ap is_set (add-value archived_name disk i e h w),
    set-others archived_name (some mark) disk (follow i.file_path) name path o,
  )
  set_is_archived-is_archived false disk i e name path h w o = (
    has-value archived_name _ i ∙ ap is_set (remove-value archived_name disk i e h w),
    set-others archived_name none disk (follow i.file_path) name path o,
  )

  -- Asking whether a file has an attribute changes neither the answer nor any other attribute.
  pub has_extended_attribute_with_name-again :
      (name : Bytes) (disk : Disk) (i : FileInfo)
      → (has_extended_attribute_with_name name (has_extended_attribute_with_name name disk i).1 i).0
        ≡ (has_extended_attribute_with_name name disk i).0
  unfolding has_extended_attribute_with_name
  has_extended_attribute_with_name-again name disk i =
      let v = value_at (follow i.file_path) name disk in
      let upgraded = add_extended_attribute_with_name name disk i in
      has-value name (answer v disk upgraded).1 i
      ∙ answer-kept (λ d. is_set (value_at (follow i.file_path) name d)) v disk upgraded refl
          (add-set name disk i)
      ∙ sym (has-value name disk i)

  -- Renaming. `sibling` is the path of a file of that name in the same directory, and `moves` says
  -- whether the file system removes what is there and makes the move.
  pub rename_file :
      (Bytes → Bytes → Bytes) → (Bytes → Bytes → Bool) → Bytes → Disk → FileInfo → FileInfo × Disk
  rename_file sibling moves new disk i =
      let named = file_name i in
      let target = sibling i.file_path new in
      let moved = store target (disk i.file_path) (store i.file_path none disk) in
      if bytes_eq new named.0 then (named.1, disk) else (
        reset (record (named.1) { file_path = target }),
        if moves i.file_path target then moved else disk,
      )

  abbrev pub log_file_info :
      (Bytes → Bytes → Bytes) → (Bytes → Bytes → Bool) → LogFileInfo FileInfo Disk
  log_file_info sibling moves = record {
    file_path = λ i. i.file_path;
    file_name = file_name;
    file_attributes = file_attributes;
    creation_date = creation_date;
    modification_date = modification_date;
    file_size = file_size;
    age = age;
    is_symlink = is_symlink;
    is_archived = is_archived;
    set_is_archived = set_is_archived;
    log_file_with_path = log_file_with_path;
    init_with_file_path = init_with_file_path;
    reset = reset;
    rename_file = rename_file sibling moves;
    has_extended_attribute_with_name = has_extended_attribute_with_name;
    add_extended_attribute_with_name = add_extended_attribute_with_name;
    remove_extended_attribute_with_name = remove_extended_attribute_with_name;
    reverse_compare_by_creation_date = reverse_compare_by_creation_date;
    reverse_compare_by_modification_date = reverse_compare_by_modification_date;
  }

  rename_file-value :
      (sibling : Bytes → Bytes → Bytes) (moves : Bytes → Bytes → Bool) (new name : Bytes)
      (disk : Disk) (i : FileInfo)
      → moves i.file_path (sibling i.file_path new) ≡ true
      → value_at
          (rename_file sibling moves new disk i).0.file_path
          name
          (rename_file sibling moves new disk i).1
        ≡ value_at i.file_path name disk
  unfolding rename_file file_name reset
  rename_file-value sibling moves new name disk i h =
      ground (arith, h, bytes_eq_refl (sibling i.file_path new))

  -- If the move is made, and neither path leads elsewhere, renaming neither archives a file nor makes it one that is not archived, and
  -- the object then stands for the file in its new place.
  pub rename_file-is_archived :
      (sibling : Bytes → Bytes → Bytes) (moves : Bytes → Bytes → Bool) (new : Bytes) (disk : Disk)
      (i : FileInfo)
      → moves i.file_path (sibling i.file_path new) ≡ true
      → ((p : Bytes) → follow p ≡ p)
      → let renamed = rename_file sibling moves new disk i in
        (is_archived renamed.1 renamed.0).0 ≡ (is_archived disk i).0
  unfolding is_archived
  rename_file-is_archived sibling moves new disk i h direct =
      let renamed = rename_file sibling moves new disk i in
      has-value archived_name renamed.1 renamed.0
      ∙ ap (λ p. is_set (value_at p archived_name renamed.1)) (direct renamed.0.file_path)
      ∙ ap is_set (rename_file-value sibling moves new archived_name disk i h)
      ∙ ap (λ p. is_set (value_at p archived_name disk)) (sym (direct i.file_path))
      ∙ sym (has-value archived_name disk i)
