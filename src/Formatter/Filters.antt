-- ===== src/Formatter/Filters.antt =====
-- The context filters as include/CocoaLumberjack/DDContextFilterLogFormatter.h and
-- DDContextFilterLogFormatter+Deprecated.h declare them: two classes, each with its older names, and the
-- laws that make a list of contexts of each.
use cocoa_lumberjack.Base.{
  ℕ, ◌≡◌, refl, Bool, true, false, List, [], none, some, ◌==◌, if◌then◌else◌,
}
use cocoa_lumberjack.FileName.{Bytes}
use cocoa_lumberjack.Formatter.Context.{
  is_in_set, add_to_set, remove_from_set, allowlist_format, denylist_format, is_in_set-add,
  is_in_set-remove,
}

-- DDContextAllowlistFilterLogFormatter, by the set of its contexts.
pub record AllowlistFilter (Filter : Type 0) : Type 0 where
  pub init : Filter
  pub add_to_allowlist : ℕ → Filter → Filter
  pub remove_from_allowlist : ℕ → Filter → Filter
  pub allowlist : Filter → List ℕ
  pub is_on_allowlist : ℕ → Filter → Bool

-- DDContextDenylistFilterLogFormatter.
pub record DenylistFilter (Filter : Type 0) : Type 0 where
  pub init : Filter
  pub add_to_denylist : ℕ → Filter → Filter
  pub remove_from_denylist : ℕ → Filter → Filter
  pub denylist : Filter → List ℕ
  pub is_on_denylist : ℕ → Filter → Bool

-- The deprecated category of the first class, DDContextWhitelistFilterLogFormatter.
pub record WhitelistFilter (Filter : Type 0) : Type 0 where
  pub add_to_whitelist : ℕ → Filter → Filter
  pub remove_from_whitelist : ℕ → Filter → Filter
  pub whitelist : Filter → List ℕ
  pub is_on_whitelist : ℕ → Filter → Bool

-- The deprecated category of the second class, DDContextBlacklistFilterLogFormatter.
pub record BlacklistFilter (Filter : Type 0) : Type 0 where
  pub add_to_blacklist : ℕ → Filter → Filter
  pub remove_from_blacklist : ℕ → Filter → Filter
  pub blacklist : Filter → List ℕ
  pub is_on_blacklist : ℕ → Filter → Bool

abbrev pub allowlist_filter : AllowlistFilter (List ℕ)
allowlist_filter = record {
  init = [];
  add_to_allowlist = add_to_set;
  remove_from_allowlist = remove_from_set;
  allowlist = λ s. s;
  is_on_allowlist = is_in_set;
}

abbrev pub denylist_filter : DenylistFilter (List ℕ)
denylist_filter = record {
  init = [];
  add_to_denylist = add_to_set;
  remove_from_denylist = remove_from_set;
  denylist = λ s. s;
  is_on_denylist = is_in_set;
}

-- Each deprecated method calls the new one.
abbrev pub whitelist_filter : WhitelistFilter (List ℕ)
whitelist_filter = record {
  add_to_whitelist = allowlist_filter.add_to_allowlist;
  remove_from_whitelist = allowlist_filter.remove_from_allowlist;
  whitelist = allowlist_filter.allowlist;
  is_on_whitelist = allowlist_filter.is_on_allowlist;
}

abbrev pub blacklist_filter : BlacklistFilter (List ℕ)
blacklist_filter = record {
  add_to_blacklist = denylist_filter.add_to_denylist;
  remove_from_blacklist = denylist_filter.remove_from_denylist;
  blacklist = denylist_filter.denylist;
  is_on_blacklist = denylist_filter.is_on_denylist;
}

-- A list of contexts: a context is on it exactly after it was added and until it is removed, and the
-- list that is returned has the contexts that are on it.
pub record IsContextList {Filter : Type 0} (start : Filter) (add remove : ℕ → Filter → Filter)
    (all : Filter → List ℕ) (is_on : ℕ → Filter → Bool) : Type 0 where
  pub start-none : (c : ℕ) → is_on c start ≡ false
  pub add-is_on : (c d : ℕ) (f : Filter) → is_on c (add d f) ≡ (if d == c then true else is_on c f)
  pub remove-is_on :
      (c d : ℕ) (f : Filter) → is_on c (remove d f) ≡ (if d == c then false else is_on c f)
  pub all-is_on : (c : ℕ) (f : Filter) → is_in_set c (all f) ≡ is_on c f

-- Under the new names and under the deprecated ones, both filters keep a list of contexts, empty at
-- first, that holds exactly the contexts added and not removed since; and a message passes the filter
-- of allowed contexts exactly if its context is on the list, and that of denied ones exactly if not.
pub filters-IsContextList :
    (f : List ℕ) (c : ℕ) (message : Bytes)
    → IsContextList allowlist_filter.init allowlist_filter.add_to_allowlist
        allowlist_filter.remove_from_allowlist allowlist_filter.allowlist
        allowlist_filter.is_on_allowlist
      × IsContextList denylist_filter.init denylist_filter.add_to_denylist
          denylist_filter.remove_from_denylist denylist_filter.denylist
          denylist_filter.is_on_denylist
      × IsContextList allowlist_filter.init whitelist_filter.add_to_whitelist
          whitelist_filter.remove_from_whitelist whitelist_filter.whitelist
          whitelist_filter.is_on_whitelist
      × IsContextList denylist_filter.init blacklist_filter.add_to_blacklist
          blacklist_filter.remove_from_blacklist blacklist_filter.blacklist
          blacklist_filter.is_on_blacklist
      × (allowlist_format f c message
          ≡ (if allowlist_filter.is_on_allowlist c f then some message else none))
      × (denylist_format f c message
          ≡ (if denylist_filter.is_on_denylist c f then none else some message))
unfolding is_in_set allowlist_format denylist_format
filters-IsContextList f c message =
    let list : IsContextList {Filter = List ℕ} [] add_to_set remove_from_set (λ s. s) is_in_set =
      record {
        start-none = λ c. refl;
        add-is_on = is_in_set-add;
        remove-is_on = is_in_set-remove;
        all-is_on = λ c f. refl;
      } in
    (list, list, list, list, refl, refl)
