-- ===== src/Base/Floats.antt =====
-- `float64`: there are no floats here, so the type and the operations that the code uses are an
-- interface. `lit m k` is the literal m / 10^k, `of_int` the conversion of an integer.
use Prim.Native.Nat.{ℕ}
use mathlib.Core.Bool.{Bool}
use custom_waf.Base.Integer.{ℤ}

pub record Float64 (F : Type 0) : Type 0 where
  pub lit : ℕ → ℕ → F
  pub fadd : F → F → F
  pub fsub : F → F → F
  pub fmul : F → F → F
  pub fneg : F → F
  pub flt : F → F → Bool
  pub fle : F → F → Bool
  pub feq : F → F → Bool
  pub fdiv : F → F → F
  pub of_int : ℤ → F
