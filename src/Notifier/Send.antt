-- ===== src/Notifier/Send.antt =====
-- `Send` of internal/notifier/notifier.go: what gets into the queue.
use custom_waf.Base.{
  ℕ, suc, Bool, not, ◌&&◌, Option, none, some, List, [], ◌∷◌, ◌++◌, Bytes, Bytes_eq, bytes,
  bytes_beq, if◌then◌else◌, ltb, leb, eqb, lookup, length,
}
use custom_waf.Notifier.Types.{Event, NotifierConfig, NotifierStats, Notifier}

abbrev pub sev_rank : List (Bytes × ℕ)
sev_rank =
    (bytes "INFO", 0)
    ∷ (bytes "LOW", 1)
    ∷ (bytes "MEDIUM", 2)
    ∷ (bytes "HIGH", 3)
    ∷ (bytes "CRITICAL", 4)
    ∷ []

-- An unknown severity counts as MEDIUM.
abbrev pub rank_or_medium : Option ℕ → ℕ
rank_or_medium none = 2
rank_or_medium (some r) = r

-- `upper` is `strings.ToUpper`.
unfoldable pub sev_ok : (Bytes → Bytes) → Bytes → Bytes → Bool
sev_ok upper s min =
    leb (rank_or_medium (lookup (upper min) sev_rank)) (rank_or_medium (lookup (upper s) sev_rank))

-- Events of no kind or of an unknown kind count as those of requests.
unfoldable pub kind_wanted : NotifierConfig → Bytes → Bool
kind_wanted c kind =
    if bytes_beq kind (bytes "system") then c.send_system_events else c.send_request_events

abbrev pub inc_queued : NotifierStats → NotifierStats
inc_queued s = record s { queued = suc s.queued }

abbrev pub inc_below_sev : NotifierStats → NotifierStats
inc_below_sev s = record s { below_sev = suc s.below_sev }

abbrev pub inc_throttled : NotifierStats → NotifierStats
inc_throttled s = record s { throttled = suc s.throttled }

abbrev pub inc_failed : Bytes → NotifierStats → NotifierStats
inc_failed msg s = record s { failed = suc s.failed; last_err = msg }

abbrev pub queue_size : ℕ
queue_size = 256

module _ {F : Type 0} where
  abbrev pub stamp : ℕ → Event F → Event F
  stamp now e = record e { timestamp = if eqb e.timestamp 0 then now else e.timestamp }

  -- The queue takes the event, or is full.
  unfoldable pub enqueue : Notifier F → Event F → Notifier F
  enqueue n e =
      if ltb (length n.queue) queue_size
      then record n { queue = n.queue ++ (e ∷ []); stats = inc_queued n.stats }
      else record n { stats = inc_failed (bytes "queue full") n.stats }

  unfoldable pub send : (Bytes → Bytes) → Notifier F → ℕ → Event F → Notifier F
  send upper n now e =
      if not (n.cfg.enabled && kind_wanted n.cfg e.kind)
      then n
      else if sev_ok upper e.severity n.cfg.min_severity
      then enqueue n (stamp now e)
      else record n { stats = inc_below_sev n.stats }
