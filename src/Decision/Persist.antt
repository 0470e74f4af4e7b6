-- ===== src/Decision/Persist.antt =====
-- internal/decision/persist.go, without the encoding as JSON and the time of saving.
use custom_waf.Base.{ℕ, Bytes_eq, String_eq, ℕ_eq, if◌then◌else◌, eqb}
use custom_waf.Decision.Types.{DecisionEngine}

pub record StatsSnapshot : Type 0 where
  pub version : ℕ
  pub total_decisions : ℕ
  pub allow_count : ℕ
  pub block_count : ℕ
  pub monitor_count : ℕ
  pub whitelist_hits : ℕ
  pub blacklist_hits : ℕ

module _ {F : Type 0} where
  unfoldable pub snapshot_stats : DecisionEngine F → StatsSnapshot
  snapshot_stats de = record {
    version = 1;
    total_decisions = de.stats.total_decisions;
    allow_count = de.stats.allow_count;
    block_count = de.stats.block_count;
    monitor_count = de.stats.monitor_count;
    whitelist_hits = de.stats.whitelist_hits;
    blacklist_hits = de.stats.blacklist_hits;
  }

  unfoldable pub restore_stats : DecisionEngine F → StatsSnapshot → DecisionEngine F
  restore_stats de snap =
      if eqb snap.version 1
      then record de {
        stats = record {
          total_decisions = snap.total_decisions;
          allow_count = snap.allow_count;
          block_count = snap.block_count;
          monitor_count = snap.monitor_count;
          whitelist_hits = snap.whitelist_hits;
          blacklist_hits = snap.blacklist_hits;
        };
      }
      else de
