-- ===== src/Behavior/Ban.antt =====
-- The temporary bans of internal/behavior/detector.go.
use mathlib.Core.Path.{subst}
use custom_waf.Base.{
  bytes_beq_self, ℕ, ◌≡◌, refl, sym, ◌∙◌, inl, inr, true, false, some, List, [], ◌∷◌, arith, ℤ, pos,
  Bytes, Bytes_eq, String_eq, ℕ_eq, bytes_beq, bytes_beq_iff, Bool-cases, lookup, Float64,
}
use custom_waf.Base.{All, ltb_ℤ, lookup-insert}
use custom_waf.Engine.Types.{ParsedRequest, EvaluationResult}
use custom_waf.Decision.Types.{BehaviorResult}
use custom_waf.Behavior.Types.{IpStatistics, Detector}
use custom_waf.Behavior.Detector.{banned, statistics_of, note_request, analyze, refuse, inspect}

-- The address is marked as blocked until `until`.
abbrev pub Banned : {F : Type 0} → Detector F → Bytes → ℤ → Type 0
Banned {F} d ip until =
    (s : IpStatistics F) × (lookup ip d.ip_stats ≡ some s)
    × (s.is_blocked ≡ true)
    × (s.blocked_until ≡ until)

pub record Visit (F : Type 0) : Type 0 where
  pub at : ℕ
  pub req : ParsedRequest
  pub ev : EvaluationResult F

module _ {F : Type 0} ⦃fl : Float64 F⦄ where
  -- The results of the analyses of a run of requests.
  unfoldable pub run : Detector F → List (Visit F) → List (BehaviorResult F)
  run d [] = []
  run d (v ∷ vs) = let a = analyze d v.at v.req v.ev in a.1 ∷ run a.0 vs

  analyze_other :
      (d : Detector F) (now : ℕ) (req : ParsedRequest) (ev : EvaluationResult F) (ip : Bytes)
      → bytes_beq req.client_ip ip ≡ false
      → lookup ip (analyze d now req ev).0.ip_stats ≡ lookup ip d.ip_stats
  unfolding analyze refuse inspect
  analyze_other d now req ev ip h =
      let s = note_request (statistics_of d now req.client_ip) now req ev in
      elim (Bool-cases (banned now s)) [
        | inl y ↦ rw (analyze, y) (lookup-insert req.client_ip ip _ d.ip_stats ∙ rw h refl)
        | inr n ↦ rw (analyze, n) (lookup-insert req.client_ip ip _ d.ip_stats ∙ rw h refl)
      ]

  statistics_found :
      (d : Detector F) (now : ℕ) (ip : Bytes) (s : IpStatistics F)
      → lookup ip d.ip_stats ≡ some s
      → statistics_of d now ip ≡ s
  unfolding statistics_of
  statistics_found d now ip s l = ground arith

  -- An analysis under a ban answers with a block and keeps the ban.
  analyze-Banned :
      (d : Detector F) (now : ℕ) (req : ParsedRequest) (ev : EvaluationResult F) (until : ℤ)
      → Banned d req.client_ip until
      → ltb_ℤ (pos now) until ≡ true
      → Banned (analyze d now req ev).0 req.client_ip until
        × ((analyze d now req ev).1.recommend_action ≡ "BLOCK")
  unfolding analyze refuse note_request banned
  analyze-Banned d now req ev until (s, l, b, u) h =
      let s' = note_request s now req ev in
      let y : banned now s' ≡ true = ground arith in
      rw (analyze, statistics_found d now req.client_ip s l, y)
        (
          (
            s',
            lookup-insert req.client_ip req.client_ip s' d.ip_stats
                ∙ rw (bytes_beq_self req.client_ip) refl,
            b,
            u,
          ),
          refl,
        )

  -- Every request is before the end of the ban.
  abbrev pub Before : ℤ → List (Visit F) → Type 0
  Before until vs = All (λ v. ltb_ℤ (pos v.at) until ≡ true) vs

  -- Every request of the address is answered with a block.
  abbrev pub Refused : Bytes → List (Visit F) → List (BehaviorResult F) → Type 0
  Refused ip [] rs = Unit
  Refused ip (v ∷ vs) [] = ⊥
  Refused ip (v ∷ vs) (r ∷ rs) =
      (bytes_beq v.req.client_ip ip ≡ true → r.recommend_action ≡ "BLOCK") × Refused ip vs rs

  pub run-Refused :
      (vs : List (Visit F)) (d : Detector F) (ip : Bytes) (until : ℤ)
      → Banned d ip until
      → Before until vs
      → Refused ip vs (run d vs)
  unfolding run
  run-Refused [] d ip until b t = tt
  run-Refused (v ∷ vs) d ip until b (t, ts) = elim (Bool-cases (bytes_beq v.req.client_ip ip)) [
    | inl y ↦
        let e = (bytes_beq_iff v.req.client_ip ip).0 y in
        let a =
          analyze-Banned d v.at v.req v.ev until (subst (λ i. Banned d i until) (sym e) b) t in
        (
          λ h. a.1,
          run-Refused vs _ ip until
              (subst (λ i. Banned (analyze d v.at v.req v.ev).0 i until) e a.0) ts,
        )
    | inr n ↦ (
      λ h. ground arith,
      run-Refused vs _ ip until (b.0, analyze_other d v.at v.req v.ev ip n ∙ b.1, b.2, b.3) ts,
    )
  ]
