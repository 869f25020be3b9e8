-- ===== src/Formatter/Examples.antt =====
-- A list of contexts at which the theorem on the filters applies.
use cocoa_lumberjack.Base.{◌≡◌, [], ◌∷◌, none, some, if◌then◌else◌}
use cocoa_lumberjack.Formatter.Filters.{
  IsContextList, allowlist_filter, denylist_filter, whitelist_filter, blacklist_filter,
  filters-IsContextList,
}
use cocoa_lumberjack.Formatter.Context.{allowlist_format, denylist_format}

filters-IsContextList_example :
    IsContextList allowlist_filter.init allowlist_filter.add_to_allowlist
      allowlist_filter.remove_from_allowlist allowlist_filter.allowlist
      allowlist_filter.is_on_allowlist
    × IsContextList denylist_filter.init denylist_filter.add_to_denylist
        denylist_filter.remove_from_denylist denylist_filter.denylist denylist_filter.is_on_denylist
    × IsContextList allowlist_filter.init whitelist_filter.add_to_whitelist
        whitelist_filter.remove_from_whitelist whitelist_filter.whitelist
        whitelist_filter.is_on_whitelist
    × IsContextList denylist_filter.init blacklist_filter.add_to_blacklist
        blacklist_filter.remove_from_blacklist blacklist_filter.blacklist
        blacklist_filter.is_on_blacklist
    × (allowlist_format (4 ∷ 7 ∷ []) 7 (72 ∷ [])
        ≡ (if allowlist_filter.is_on_allowlist 7 (4 ∷ 7 ∷ []) then some (72 ∷ []) else none))
    × (denylist_format (4 ∷ 7 ∷ []) 7 (72 ∷ [])
        ≡ (if denylist_filter.is_on_denylist 7 (4 ∷ 7 ∷ []) then none else some (72 ∷ [])))
filters-IsContextList_example = filters-IsContextList (4 ∷ 7 ∷ []) 7 (72 ∷ [])
