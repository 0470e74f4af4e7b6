-- ===== src/Decision/Expiry.antt =====
-- Time and the allow and deny lists of internal/decision/decision.go.
use custom_waf.Decision.Lists.{
  entry_active, is_blacklisted, expired, prune, has_active, prune_expired_ips, expiry,
  add_blacklist_ip_with_ttl, is_whitelisted, or_false,
}
use custom_waf.Base.{
  ℕ, ℤ, Bool, Bytes, List, [], pos, Option, true, ◌≤◌, suc, ltb, ◌+◌, negsuc, zero, not, retain,
  length, ◌≡◌, keep_if, arith, if◌then◌else◌, false, some, Distinct, bytes_beq, lookup, refl,
  lookup-insert, ap, ◌∙◌, Bytes_eq, lookup-retain, ◌||◌, none, ◌∷◌, String_eq, ℕ_eq,
}
use custom_waf.Decision.Types.{DecisionEngine}

-- Whether a time to live that was given at `since` still runs at `now`.
abbrev pub runs : ℕ → ℤ → ℕ → Bool
runs since (pos zero) now = true
runs since (pos (suc n)) now = ltb now (since + suc n)
runs since (negsuc n) now = true

expiry-runs : (since now : ℕ) (ttl : ℤ) → entry_active now (expiry since ttl) ≡ runs since ttl now
unfolding entry_active expiry
expiry-runs since now (pos zero) = refl
expiry-runs since now (pos (suc n)) = ground arith
expiry-runs since now (negsuc n) = refl

module _ {F : Type 0} where
  -- A ban with a time to live holds at every time before it runs out, one without (zero or
  -- negative) for ever; the bans of other addresses are as before.
  pub blacklisted-add :
      (de : DecisionEngine F) (since now : ℕ) (ip ip' : Bytes) (ttl : ℤ)
      → is_blacklisted (add_blacklist_ip_with_ttl de since ip ttl) now ip'
        ≡ (if bytes_beq ip ip' then runs since ttl now else is_blacklisted de now ip')
  unfolding is_blacklisted add_blacklist_ip_with_ttl
  blacklisted-add de since now ip ip' ttl =
      ground
        (arith, lookup-insert ip ip' (expiry since ttl) de.blacklist_ips, expiry-runs since now ttl)

pub active_not-expired : (now exp : ℕ) → not (expired now exp) ≡ entry_active now exp
unfolding expired entry_active
active_not-expired now exp = ground arith

prune-retain :
    (now : ℕ) (m : List (Bytes × ℕ)) → (prune now m).0 ≡ retain (λ exp. entry_active now exp) m
unfolding prune retain
prune-retain now [] = refl
prune-retain now ((ip, exp) ∷ m) = ground (arith, prune-retain now m, active_not-expired now exp)

prune_count : (now : ℕ) (m : List (Bytes × ℕ)) → (prune now m).1 + length (prune now m).0 ≡ length m
unfolding prune
prune_count now [] = refl
prune_count now ((ip, exp) ∷ m) = ground (arith, prune_count now m)

-- An entry that has expired stays so.
active_later :
    (now later exp : ℕ)
    → now ≤ later
    → entry_active now exp ≡ false
    → entry_active later exp ≡ false
unfolding entry_active
active_later now later exp h e = ground arith

active-keep_if :
    (now later : ℕ) (o : Option ℕ)
    → now ≤ later
    → has_active later (keep_if (λ exp. entry_active now exp) o) ≡ has_active later o
active-keep_if now later none h = refl
active-keep_if now later (some exp) h = ground (arith, active_later now later exp)

module _ {F : Type 0} where
  -- Pruning changes no answer, now or later: an address is on a list after it exactly if it was
  -- before; and it reports how many entries it removed. Keys are distinct, as in a map.
  pub prune_expired_ips_lem :
      (de : DecisionEngine F) (now : ℕ)
      → Distinct de.whitelist_ips
      → Distinct de.blacklist_ips
      → let r = prune_expired_ips de now in
        ((later : ℕ) (ip path : Bytes)
          → now ≤ later
          → (is_blacklisted r.0 later ip ≡ is_blacklisted de later ip)
            × (is_whitelisted r.0 later ip path ≡ is_whitelisted de later ip path))
        × (r.1 + length r.0.whitelist_ips ≡ length de.whitelist_ips)
        × (r.2 + length r.0.blacklist_ips ≡ length de.blacklist_ips)
  unfolding prune_expired_ips is_blacklisted is_whitelisted
  prune_expired_ips_lem de now dw db = (
    λ later ip path h. (
      kept de.blacklist_ips later ip db h,
      ap (λ b. b || or_false (lookup path de.whitelist_paths))
          (kept de.whitelist_ips later ip dw h),
    ),
    prune_count now de.whitelist_ips,
    prune_count now de.blacklist_ips,
  )
    where
      kept :
          (m : List (Bytes × ℕ)) (later : ℕ) (ip : Bytes)
          → Distinct m
          → now ≤ later
          → has_active later (lookup ip (prune now m).0) ≡ has_active later (lookup ip m)
      kept m later ip d h =
          ap (has_active later) (
            ap (lookup ip) (prune-retain now m)
            ∙ lookup-retain (λ exp. entry_active now exp) ip m d)
          ∙ active-keep_if now later (lookup ip m) h
