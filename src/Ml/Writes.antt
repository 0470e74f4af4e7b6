-- ===== src/Ml/Writes.antt =====
-- What a prediction of internal/ml/client.go may write to the cache.

use custom_waf.Base.{
  ℕ, ◌+◌, ◌≡◌, refl, ◌∙◌, ◌⊎◌, inl, inr, some, Bytes, Bytes_eq, String_eq, ℕ_eq, eqb, Bool-cases,
  Option-cases,
}
use custom_waf.Ml.Cache.{PredictionCache, put}
use custom_waf.Ml.Client.{
  Client, Transport, PredictResponse, Reply, request, finish, note_success, note_error, unreachable,
  responded, ask_breaker, consult,
}
use custom_waf.Ml.Answered.{ask_breaker-kept}

module _ {F : Type 0} (tr : Transport F) where
  -- The switch stays, and the cache stays or takes one answer for the text.
  abbrev pub Writes : Client F → PredictionCache (PredictResponse F) → Bytes → Client F → Type 0
  Writes c k text d =
      (d.enabled ≡ c.enabled)
      × ((d.cache ≡ some k)
          ⊎ ((done : ℕ) × ((v : PredictResponse F) × (d.cache ≡ some (put tr.hash k done text v)))))

  finish-Writes :
      (c : Client F) (k : PredictionCache (PredictResponse F)) (done took : ℕ) (text : Bytes)
      (reply : Reply F)
      → c.cache ≡ some k
      → Writes c k text (finish tr c done took text reply).0
  unfolding finish note_success note_error
  finish-Writes c k done took text (unreachable msg) e = (refl, inl e)
  finish-Writes c k done took text (responded code raw (inl err)) e =
      elim (Bool-cases (eqb code 200)) [ inl y ↦ rw y (refl, inl e) | inr n ↦ rw n (refl, inl e) ]
  finish-Writes c k done took text (responded code raw (inr body)) e =
      elim (Bool-cases (eqb code 200)) [
        | inl y ↦ rw (y, e) (refl, inr (done, (body, refl)))
        | inr n ↦ rw n (refl, inl e)
      ]

  request-Writes :
      (c : Client F) (k : PredictionCache (PredictResponse F)) (now : ℕ) (text : Bytes)
      → c.cache ≡ some k
      → Writes c k text (request tr c now text).0
  unfolding request
  request-Writes c k now text e = elim (Option-cases (tr.prepare c.endpoint text)) [
    | inl n ↦
        let r = tr.exchange c.endpoint text in
        rw (request, n) (finish-Writes c k (now + r.1) r.1 text r.0 e)
    | inr (err, s) ↦ rw (request, s) (refl, inl e)
  ]

  pub consult-Writes :
      (c : Client F) (k : PredictionCache (PredictResponse F)) (now : ℕ) (text : Bytes)
      → c.cache ≡ some k
      → Writes c k text (consult tr c now text).0
  unfolding consult
  consult-Writes c k now text e =
      let a = (ask_breaker c now).0 in
      let (ca, en, pt) = ask_breaker-kept tr c now in
      elim (Bool-cases (ask_breaker c now).1) [
        | inl y ↦ let w = request-Writes a k now text (ca ∙ e) in rw (consult, y) (w.0 ∙ en, w.1)
        | inr n ↦ rw (consult, n) (en, inl (ca ∙ e))
      ]
