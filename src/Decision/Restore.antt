-- ===== src/Decision/Restore.antt =====
-- Saved and restored lists, and the adaptive threshold, of internal/decision/decision.go.
use custom_waf.Decision.Expiry.{active_not-expired}
use custom_waf.Decision.Threshold.{adjust_threshold}
use custom_waf.Decision.Lists.{
  active_entries_only, set_blacklist_entries, restore_entries, get_blacklist_entries, entry_active,
}
use custom_waf.Base.{
  ℕ, ◌≡◌, refl, ◌∙◌, ◌≢◌, ◌⊎◌, inl, inr, false, Option, none, some, List, [], ◌∷◌, arith, Bytes,
  Bytes_eq, String_eq, ℕ_eq, bytes_beq_iff, Bool-cases, lookup, insert, Float64, bytes_beq_ne,
  lookup-insert, ◌*◌, ◌/◌, true, eqb,
}
use custom_waf.Base.{Distinct, keep_if}
use custom_waf.Base.{map_found, eqb}
use custom_waf.RateLimit.Types.{second}
use custom_waf.Decision.Stored.{marshal_entry, unmarshal_entry, reread}
use custom_waf.Decision.Types.{DecisionEngine, IpListEntry}

-- Addresses as the dashboard stores them: trimmed, and not empty.
abbrev pub AllClean : (Bytes → Bytes) → List (Bytes × ℕ) → Type 0
AllClean trim [] = Unit
AllClean trim ((ip, exp) ∷ m) = (trim ip ≡ ip) × (ip ≢ []) × AllClean trim m

-- The last of several values.
abbrev or_else {ℓ} : {A : Type ℓ} → Option A → Option A → Option A
or_else none o = o
or_else (some a) o = some a

-- The whole seconds of a time.
unfoldable pub whole_seconds : ℕ → ℕ
whole_seconds t = t / second * second

-- What is left of an entry that is saved at `now` and restored at `later`.
abbrev pub survives : ℕ → ℕ → Option ℕ → Option ℕ
survives now later o =
    keep_if (λ exp. entry_active later exp)
      (map_found whole_seconds (keep_if (λ exp. entry_active now exp) o))

reread_expiry :
    (e : IpListEntry)
    → unmarshal_entry (marshal_entry e)
      ≡ record { ip = e.ip; expires_at = whole_seconds e.expires_at }
unfolding unmarshal_entry marshal_entry whole_seconds
reread_expiry e = elim (Bool-cases (eqb e.expires_at 0)) [
  | inl y ↦ let z : e.expires_at ≡ 0 = ground (arith, y) in rw (z) refl
  | inr n ↦ rw n refl
]

lookup-restore_entries :
    (trim : Bytes → Bytes) (now later : ℕ) (m out : List (Bytes × ℕ)) (ip : Bytes)
    → AllClean trim m
    → Distinct m
    → lookup ip (restore_entries trim later out (reread (active_entries_only now m)))
      ≡ or_else (survives now later (lookup ip m)) (lookup ip out)
unfolding lookup active_entries_only restore_entries reread
lookup-restore_entries trim now later [] out ip c d = refl
lookup-restore_entries trim now later ((j, exp) ∷ m) out ip (t, ne, c) (fresh, d) = ground (
  arith,
  t,
  reread_expiry (record { ip = j; expires_at = exp }),
  bytes_beq_ne j [] ne,
  bytes_beq_iff j ip,
  active_not-expired later (whole_seconds exp),
  lookup-insert j ip (whole_seconds exp) out,
  lookup-restore_entries trim now later m out ip c d,
  lookup-restore_entries trim now later m (insert j (whole_seconds exp) out) ip c d,
)

or_else-nothing : (ip : Bytes) (o : Option ℕ) → or_else o (lookup ip []) ≡ o
unfolding lookup
or_else-nothing ip none = refl
or_else-nothing ip (some a) = refl

module _ {F : Type 0} where
  -- To save the active entries of the deny list, in the form in which the store holds them, and to
  -- restore them later, in any engine, gives back every entry that was in effect, a permanent one
  -- as such and a dated one with its expiry cut to whole seconds, but for those whose expiry, so
  -- cut, has come by then; nothing else is restored. The addresses are distinct, trimmed and not
  -- empty.
  pub blacklist_restored :
      (trim : Bytes → Bytes) (de de' : DecisionEngine F) (now later : ℕ) (ip : Bytes)
      → AllClean trim de.blacklist_ips
      → Distinct de.blacklist_ips
      → lookup ip
          (set_blacklist_entries trim de' later
            (reread (get_blacklist_entries de now))).blacklist_ips
        ≡ survives now later (lookup ip de.blacklist_ips)
  unfolding set_blacklist_entries get_blacklist_entries
  blacklist_restored trim de de' now later ip c d =
      lookup-restore_entries trim now later de.blacklist_ips [] ip c d ∙ or_else-nothing ip _

-- What IEEE comparison gives: 20 is not below 5, and nothing is below itself.
pub record Bounds (F : Type 0) ⦃fl : Float64 F⦄ : Type 0 where
  pub apart : fl.flt (fl.lit 200 1) (fl.lit 50 1) ≡ false
  pub irreflexive : (x : F) → fl.flt x x ≡ false

module _ {F : Type 0} ⦃fl : Float64 F⦄ where
  -- With the adaptive mode off an adjustment changes nothing; with it on the block threshold is
  -- afterwards neither below 5 nor above 20, whatever it was and whatever the block rate. Of the
  -- floats it is used that 20 is not below 5 and that nothing is below itself.
  pub adjust_threshold-Bounds :
      (de : DecisionEngine F) (rate : F)
      → Bounds F
      → ((de.config.adaptive_threshold ≡ false) × (adjust_threshold de rate ≡ de))
        ⊎ ((de.config.adaptive_threshold ≡ true)
            × (fl.flt (adjust_threshold de rate).config.block_threshold (fl.lit 50 1) ≡ false)
            × (fl.flt (fl.lit 200 1) (adjust_threshold de rate).config.block_threshold ≡ false))
  unfolding adjust_threshold
  adjust_threshold-Bounds de rate b = elim (Bool-cases de.config.adaptive_threshold) [
    | inl y ↦ inr (
      y,
      ground (arith, b.apart, b.irreflexive (fl.lit 50 1), b.irreflexive (fl.lit 200 1)),
      ground (arith, b.apart, b.irreflexive (fl.lit 50 1), b.irreflexive (fl.lit 200 1)),
    )
    | inr n ↦ inl (n, ground arith)
  ]
