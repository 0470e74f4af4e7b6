-- ===== src/Engine/MlHook.antt =====
-- internal/engine/ml_hook.go: the confirmation of a hit by the ML service.
use custom_waf.Engine.Selector.{collect_args, uri_of, concat_headers}
use custom_waf.Base.{
  Bool, not, ◌||◌, Option, none, some, List, [], ◌∷◌, ◌++◌, Bytes, Bytes_eq, String_eq, ℕ_eq, bytes,
  bytes_beq, if◌then◌else◌, Float64,
}
use custom_waf.Base.{take}
use custom_waf.Engine.Types.{ParsedRequest, MlConfirm}
use custom_waf.Engine.Platform.{Platform}

pub record MlVerdict (F : Type 0) : Type 0 where
  pub label : Bytes
  pub confidence : F
  pub is_attack : Bool

-- `MLPredictor`: `none` stands for an error or a missing verdict.
pub record MlPredictor (F : Type 0) : Type 0 where
  pub enabled : Bool
  pub predict : Bytes → Option (MlVerdict F)

module _ {F : Type 0} ⦃fl : Float64 F⦄ (pl : Platform F) where
  -- `pickMLInput`: the body, unless another part is named.
  unfoldable pub pick_ml_input : Bytes → ParsedRequest → Bytes
  pick_ml_input input req =
      let name = pl.lower input in
      if bytes_beq name (bytes "args")
      then collect_args pl req
      else if bytes_beq name (bytes "query")
      then req.normalized_query
      else if bytes_beq name (bytes "uri")
      then uri_of req
      else if bytes_beq name (bytes "headers_all")
      then concat_headers req
      else req.normalized_body

  -- The adjustment for a verdict.
  unfoldable pub adjust : MlConfirm F → Option (MlVerdict F) → F × List Bytes
  adjust cfg none = (fl.lit 0 0, [])
  adjust cfg (some v) =
      if fl.flt v.confidence cfg.min_confidence
      then (fl.lit 0 0, [])
      else if v.is_attack
      then (cfg.on_attack_add, bytes "ml:confirmed" ∷ (bytes "ml:" ++ v.label) ∷ [])
      else (fl.fneg cfg.on_normal_subtract, bytes "ml:cleared" ∷ [])

  -- `runMLConfirm`: nothing changes unless there is a confident verdict.
  unfoldable pub run_ml_confirm :
      Option (MlPredictor F) → MlConfirm F → ParsedRequest → F × List Bytes
  unfolding adjust pick_ml_input
  run_ml_confirm none cfg req = (fl.lit 0 0, [])
  run_ml_confirm (some p) cfg req =
      let text = pick_ml_input cfg.input req in
      if not p.enabled || not cfg.enabled || bytes_beq text []
      then (fl.lit 0 0, [])
      else adjust cfg (p.predict (take 4096 text))
