-- ===== src/Pipeline/Inference.antt =====
-- Step 4b of internal/middleware/waf.go: the model is asked about ambiguous scores.
use custom_waf.Base.{
  ℕ, inl, inr, Bool, true, false, not, ◌&&◌, ◌||◌, Option, none, some, List, [], Bytes, Bytes_eq,
  String_eq, ℕ_eq, bytes_beq, if◌then◌else◌, Float64,
}
use custom_waf.Engine.Types.{EvaluationResult}
use custom_waf.Ml.Client.{Client, Answer, predict}
use custom_waf.Request.Types.{FullRequest}
use custom_waf.Training.Text.{redact}
use custom_waf.Training.Canonical.{build_canonical_text}
use custom_waf.Pipeline.Types.{WafSettings, Outside, MlVerdictRecord}

module _ {F : Type 0} ⦃fl : Float64 F⦄ where
  abbrev pub no_verdict : MlVerdictRecord F
  no_verdict = record {
    called = false;
    label = [];
    confidence = fl.lit 0 0;
    is_attack = false;
    adjustment = fl.lit 0 0;
    failed = false;
  }

  -- What an answer does to the score.
  unfoldable pub apply_answer :
      WafSettings F → EvaluationResult F → Answer F → EvaluationResult F × MlVerdictRecord F
  apply_answer s ev (inl err) = (ev, record no_verdict { called = true; failed = true })
  apply_answer s ev (inr resp) =
      let verdict = record no_verdict {
        called = true;
        label = resp.label;
        confidence = resp.confidence;
        is_attack = resp.is_attack;
      } in
      let score = ev.total_score in
      let drop = if fl.flt score s.ml_normal_penalty then s.ml_normal_penalty else score in
      let rest = fl.fsub score drop in
      if fl.flt resp.confidence s.ml_confidence_minimum
      then (ev, verdict)
      else if resp.is_attack
      then (
        record ev { total_score = fl.fadd score s.ml_attack_bump },
        record verdict { adjustment = s.ml_attack_bump },
      )
      else (
        record ev { total_score = if fl.flt rest (fl.lit 0 0) then fl.lit 0 0 else rest },
        record verdict { adjustment = fl.fneg drop },
      )

  -- The score is in the gray zone, and the zone is not empty.
  abbrev pub is_gray : WafSettings F → F → Bool
  is_gray s score =
      not (fl.fle s.ml_gray_upper s.ml_gray_lower)
      && not (fl.flt score s.ml_gray_lower || fl.fle s.ml_gray_upper score)

  -- `runMLInference`, with the texts that were sent to the service.
  unfoldable pub run_ml_inference :
      Outside F
      → WafSettings F
      → Option (Client F)
      → ℕ
      → FullRequest
      → EvaluationResult F
      → Option (Client F) × EvaluationResult F × MlVerdictRecord F × List Bytes
  unfolding apply_answer
  run_ml_inference out s none now req ev = (none, ev, no_verdict, [])
  run_ml_inference out s (some client) now req ev =
      let text =
        redact out.strings (build_canonical_text out.strings out.url_codec req s.ml_max_text_len) in
      let p = predict out.transport client now text in
      let a = apply_answer s ev p.1 in
      if not client.enabled || not (is_gray s ev.total_score) || bytes_beq text []
      then (some client, ev, no_verdict, [])
      else (some (p.0), a.0, a.1, p.2)
