-- ===== src/Notifier/Run.antt =====
-- A run of the notifier of internal/notifier/notifier.go.
use custom_waf.Base.{ℕ, ◌≤◌, List, [], ◌∷◌, Bytes, Bytes_eq, String_eq, ℕ_eq}
use custom_waf.Notifier.Types.{Event, Notifier}
use custom_waf.Notifier.Send.{send}
use custom_waf.Notifier.Work.{Channels, worker, dedup_sweep}

-- What happens to the notifier while its configuration stands.
pub data NotifierOp (F : Type 0) : Type 0 where
  raise : Event F → NotifierOp F
  pick : Channels F → NotifierOp F
  tidy : NotifierOp F

module _ {F : Type 0} where
  abbrev pub apply_op : (Bytes → Bytes) → Notifier F → ℕ → NotifierOp F → Notifier F
  apply_op upper n now (raise e) = send upper n now e
  apply_op upper n now (pick ch) = (worker ch n now).1
  apply_op upper n now tidy = dedup_sweep n now

  -- Each operation with its time.
  unfoldable pub run_ops : (Bytes → Bytes) → Notifier F → List (ℕ × NotifierOp F) → Notifier F
  run_ops upper n [] = n
  run_ops upper n ((now, o) ∷ os) = run_ops upper (apply_op upper n now o) os

  -- The times lie between the two.
  abbrev pub Between : ℕ → ℕ → List (ℕ × NotifierOp F) → Type 0
  Between a b [] = Unit
  Between a b ((now, o) ∷ os) = (a ≤ now) × (now ≤ b) × Between a b os
