-- ===== src/Engine/Persist.antt =====
-- internal/engine/tracker_persist.go and metrics_persist.go, without the encoding as JSON, the
-- time of saving and the average time of an evaluation.
use custom_waf.Base.{ℕ, not, List, ℤ, pos, Bytes, Bytes_eq, String_eq, ℕ_eq, if◌then◌else◌, eqb}
use custom_waf.Base.{retain, leb_ℤ, map_values}
use custom_waf.Engine.Tracker.{Tracker, TrackEntry, is_past}
use custom_waf.Engine.Evaluate.{RuleEngine}

pub record TrackEntryWire : Type 0 where
  pub count : ℕ
  pub expire_at : ℤ

pub record TrackerSnapshot : Type 0 where
  pub version : ℕ
  pub entries : List (Bytes × TrackEntryWire)

abbrev pub to_wire : TrackEntry → TrackEntryWire
to_wire e = record { count = e.count; expire_at = e.expire_at }

abbrev pub from_wire : TrackEntryWire → TrackEntry
from_wire w = record { count = w.count; expire_at = w.expire_at }

-- `SnapshotState`: what has expired is left out.
unfoldable pub snapshot_state : Tracker → ℕ → TrackerSnapshot
unfolding retain map_values
snapshot_state t now = record {
  version = 1;
  entries = map_values to_wire (retain (λ e. not (is_past now e)) t);
}

-- `RestoreState`: what has expired since then is left out.
unfoldable pub restore_state : Tracker → ℕ → TrackerSnapshot → Tracker
unfolding retain map_values
restore_state t now snap =
    if eqb snap.version 1
    then map_values from_wire (retain (λ w. not (leb_ℤ w.expire_at (pos now))) snap.entries)
    else t

pub record MetricsSnapshot : Type 0 where
  pub version : ℕ
  pub total_evaluations : ℕ
  pub total_matches : ℕ
  pub total_blocks : ℕ
  pub rule_hit_count : List (Bytes × ℕ)
  pub category_stats : List (Bytes × ℕ)

module _ {F : Type 0} where
  unfoldable pub snapshot_metrics : RuleEngine F → MetricsSnapshot
  snapshot_metrics re = record {
    version = 1;
    total_evaluations = re.metrics.total_evaluations;
    total_matches = re.metrics.total_matches;
    total_blocks = re.metrics.total_blocks;
    rule_hit_count = re.metrics.rule_hit_count;
    category_stats = re.metrics.category_stats;
  }

  unfoldable pub restore_metrics : RuleEngine F → MetricsSnapshot → RuleEngine F
  restore_metrics re snap =
      if eqb snap.version 1
      then record re {
        metrics = record {
          total_evaluations = snap.total_evaluations;
          total_matches = snap.total_matches;
          total_blocks = snap.total_blocks;
          rule_hit_count = snap.rule_hit_count;
          category_stats = snap.category_stats;
        };
      }
      else re
