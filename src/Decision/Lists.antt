-- ===== src/Decision/Lists.antt =====
-- The allow and deny lists of internal/decision/decision.go: entries with an optional expiry.
use custom_waf.Base.{
  ℕ, ℤ, Bool, Bytes, Bytes_eq, List, [], eqb, Option, pos, not, ◌∷◌, lookup, insert, erase,
  if◌then◌else◌, ◌||◌, false, suc, ◌&&◌, bytes_beq, true, ltb, some, ◌+◌, negsuc, none, zero,
}
use custom_waf.Decision.Types.{DecisionEngine, IpListEntry}

-- `entryActive`: permanent, or not yet expired.
unfoldable pub entry_active : ℕ → ℕ → Bool
entry_active now exp = eqb exp 0 || ltb now exp

-- `exp, ok := m[ip]; ok && entryActive(exp)`
abbrev pub has_active : ℕ → Option ℕ → Bool
has_active now none = false
has_active now (some exp) = entry_active now exp

-- `m[path]` of a map into booleans.
abbrev pub or_false : Option Bool → Bool
or_false none = false
or_false (some b) = b

-- The expiry of a new entry: none (zero) unless the time to live is positive.
unfoldable pub expiry : ℕ → ℤ → ℕ
expiry now (pos zero) = 0
expiry now (pos (suc n)) = now + suc n
expiry now (negsuc n) = 0

-- `!exp.IsZero() && !now.Before(exp)`
unfoldable pub expired : ℕ → ℕ → Bool
expired now exp = not (eqb exp 0) && not (ltb now exp)

-- One loop of `PruneExpiredIPs`: the map, and how many entries it lost.
unfoldable pub prune : ℕ → List (Bytes × ℕ) → List (Bytes × ℕ) × ℕ
prune now [] = ([], 0)
prune now ((ip, exp) ∷ m) =
    let (m', n) = prune now m in if expired now exp then (m', suc n) else ((ip, exp) ∷ m', n)

-- `activeEntriesOnly`
unfoldable pub active_entries_only : ℕ → List (Bytes × ℕ) → List IpListEntry
active_entries_only now [] = []
active_entries_only now ((ip, exp) ∷ m) =
    let rest = active_entries_only now m in
    if entry_active now exp then record { ip = ip; expires_at = exp } ∷ rest else rest

-- The body of `SetWhitelistEntries` and `SetBlacklistEntries`; `trim` is `strings.TrimSpace`.
unfoldable pub restore_entries :
    (Bytes → Bytes) → ℕ → List (Bytes × ℕ) → List IpListEntry → List (Bytes × ℕ)
restore_entries trim now out [] = out
restore_entries trim now out (e ∷ entries) =
    restore_entries trim now
      (if bytes_beq (trim e.ip) [] || expired now e.expires_at
        then out
        else insert (trim e.ip) e.expires_at out)
      entries

module _ {F : Type 0} where
  unfoldable pub is_blacklisted : DecisionEngine F → ℕ → Bytes → Bool
  is_blacklisted de now ip = has_active now (lookup ip de.blacklist_ips)

  -- A path that is not in the map reads as false.
  unfoldable pub is_whitelisted : DecisionEngine F → ℕ → Bytes → Bytes → Bool
  is_whitelisted de now ip path =
      has_active now (lookup ip de.whitelist_ips) || or_false (lookup path de.whitelist_paths)

  -- `AddWhitelistIPWithTTL`, `AddBlacklistIPWithTTL`
  unfoldable pub add_whitelist_ip_with_ttl : DecisionEngine F → ℕ → Bytes → ℤ → DecisionEngine F
  add_whitelist_ip_with_ttl de now ip ttl = record de {
    whitelist_ips = insert ip (expiry now ttl) de.whitelist_ips;
  }

  unfoldable pub add_blacklist_ip_with_ttl : DecisionEngine F → ℕ → Bytes → ℤ → DecisionEngine F
  add_blacklist_ip_with_ttl de now ip ttl = record de {
    blacklist_ips = insert ip (expiry now ttl) de.blacklist_ips;
  }

  unfoldable pub add_whitelist_ip : DecisionEngine F → ℕ → Bytes → DecisionEngine F
  unfolding add_whitelist_ip_with_ttl
  add_whitelist_ip de now ip = add_whitelist_ip_with_ttl de now ip (pos 0)

  unfoldable pub add_blacklist_ip : DecisionEngine F → ℕ → Bytes → DecisionEngine F
  unfolding add_blacklist_ip_with_ttl
  add_blacklist_ip de now ip = add_blacklist_ip_with_ttl de now ip (pos 0)

  unfoldable pub remove_whitelist_ip : DecisionEngine F → Bytes → DecisionEngine F
  remove_whitelist_ip de ip = record de { whitelist_ips = erase ip de.whitelist_ips }

  unfoldable pub remove_blacklist_ip : DecisionEngine F → Bytes → DecisionEngine F
  remove_blacklist_ip de ip = record de { blacklist_ips = erase ip de.blacklist_ips }

  unfoldable pub add_whitelist_path : DecisionEngine F → Bytes → DecisionEngine F
  add_whitelist_path de path = record de { whitelist_paths = insert path true de.whitelist_paths }

  unfoldable pub remove_whitelist_path : DecisionEngine F → Bytes → DecisionEngine F
  remove_whitelist_path de path = record de { whitelist_paths = erase path de.whitelist_paths }

  unfoldable pub prune_expired_ips : DecisionEngine F → ℕ → DecisionEngine F × ℕ × ℕ
  unfolding prune
  prune_expired_ips de now =
      let (wl, w) = prune now de.whitelist_ips in
      let (bl, b) = prune now de.blacklist_ips in
      (record de { whitelist_ips = wl; blacklist_ips = bl }, w, b)

  unfoldable pub get_whitelist_entries : DecisionEngine F → ℕ → List IpListEntry
  unfolding active_entries_only
  get_whitelist_entries de now = active_entries_only now de.whitelist_ips

  unfoldable pub get_blacklist_entries : DecisionEngine F → ℕ → List IpListEntry
  unfolding active_entries_only
  get_blacklist_entries de now = active_entries_only now de.blacklist_ips

  unfoldable pub set_whitelist_entries :
      (Bytes → Bytes) → DecisionEngine F → ℕ → List IpListEntry → DecisionEngine F
  unfolding restore_entries
  set_whitelist_entries trim de now entries = record de {
    whitelist_ips = restore_entries trim now [] entries;
  }

  unfoldable pub set_blacklist_entries :
      (Bytes → Bytes) → DecisionEngine F → ℕ → List IpListEntry → DecisionEngine F
  unfolding restore_entries
  set_blacklist_entries trim de now entries = record de {
    blacklist_ips = restore_entries trim now [] entries;
  }

  -- `IsWhitelistedIP`
  unfoldable pub is_whitelisted_ip : DecisionEngine F → ℕ → Bytes → Bool
  unfolding is_blacklisted
  is_whitelisted_ip de now ip =
      if not de.config.enable_whitelist
      then false
      else if de.config.enable_blacklist && is_blacklisted de now ip
      then false
      else has_active now (lookup ip de.whitelist_ips)
