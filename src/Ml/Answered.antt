-- ===== src/Ml/Answered.antt =====
-- What one prediction of internal/ml/client.go leaves in the cache, and a hit.
use mathlib.Core.Path.{subst}
use custom_waf.Base.{
  ℕ, ◌+◌, ◌<◌, ◌≡◌, refl, ◌∙◌, inl, inr, some, arith, Bytes, Bytes_eq, String_eq, ℕ_eq, eqb,
  Bool-cases, Option-cases, ap, true, false, Option, none, [], ◌∷◌, bytes_beq, sym,
}
use custom_waf.Base.{take}
use custom_waf.Ml.Cache.{PredictionCache, get, put}
use custom_waf.Ml.Client.{
  Client, Transport, PredictResponse, Reply, request, finish, note_success, note_error, unreachable,
  responded, ask_breaker, consult, read_cache, predict, after_read,
}
use custom_waf.Ml.Refine.{IsSound}

-- The client has this cache, in good order and with room.
pub record Caching {F : Type 0} (c : Client F) (k : PredictionCache (PredictResponse F))
    : Type 0 where
  pub cached : c.cache ≡ some k
  pub sound : IsSound k
  pub room : 0 < k.capacity

module _ {F : Type 0} (tr : Transport F) where
  -- The client keeps this cache, and its switch.
  abbrev pub Keeps : Client F → Client F → PredictionCache (PredictResponse F) → Type 0
  Keeps c c' k = (c'.cache ≡ some k) × (c'.enabled ≡ c.enabled) × (c'.endpoint ≡ c.endpoint)

  -- An answer was stored.
  finish-Keeps :
      (c : Client F) (k : PredictionCache (PredictResponse F)) (done took : ℕ) (text : Bytes)
      (reply : Reply F) (out : PredictResponse F)
      → c.cache ≡ some k
      → (finish tr c done took text reply).1 ≡ inr out
      → Keeps c (finish tr c done took text reply).0 (put tr.hash k done text out)
  unfolding finish note_success note_error
  finish-Keeps c k done took text (unreachable msg) out e h = absurd (cc)
  finish-Keeps c k done took text (responded code raw (inl err)) out e h =
      elim (Bool-cases (eqb code 200)) [
        | inl y ↦ absurd (ground arith)
        | inr n ↦ absurd (ground arith)
      ]
  finish-Keeps c k done took text (responded code raw (inr body)) out e h =
      elim (Bool-cases (eqb code 200)) [
        | inl y ↦ let q : body ≡ out = ground arith in rw (y, e, q) (refl, refl, refl)
        | inr n ↦ absurd (ground arith)
      ]

  request-Keeps :
      (c : Client F) (k : PredictionCache (PredictResponse F)) (now : ℕ) (text : Bytes)
      (out : PredictResponse F)
      → c.cache ≡ some k
      → (request tr c now text).1 ≡ inr out
      → Keeps c
          (request tr c now text).0
          (put tr.hash k (now + (tr.exchange c.endpoint text).1) text out)
  unfolding request
  request-Keeps c k now text out e h = elim (Option-cases (tr.prepare c.endpoint text)) [
    | inl n ↦
        let r = tr.exchange c.endpoint text in
        let g : (finish tr c (now + r.1) r.1 text r.0).1 ≡ inr out = ground arith in
        rw (request, n) (finish-Keeps c k (now + r.1) r.1 text r.0 out e g)
    | inr (err, s) ↦ absurd (ground arith)
  ]

  pub ask_breaker-kept :
      (c : Client F) (now : ℕ)
      → ((ask_breaker c now).0.cache ≡ c.cache)
        × ((ask_breaker c now).0.enabled ≡ c.enabled)
        × ((ask_breaker c now).0.endpoint ≡ c.endpoint)
  unfolding ask_breaker
  ask_breaker-kept c now = elim (Option-cases c.breaker) [
    | inl n ↦ rw n (refl, refl, refl)
    | inr (b, s) ↦ rw s (refl, refl, refl)
  ]

  consult-Keeps :
      (c : Client F) (k : PredictionCache (PredictResponse F)) (now : ℕ) (text : Bytes)
      (out : PredictResponse F)
      → c.cache ≡ some k
      → (consult tr c now text).1 ≡ inr out
      → Keeps c
          (consult tr c now text).0
          (put tr.hash k (now + (tr.exchange c.endpoint text).1) text out)
  unfolding consult
  consult-Keeps c k now text out e h = elim (Bool-cases (ask_breaker c now).1) [
    | inl y ↦
        let a = (ask_breaker c now).0 in
        let (ca, en, pt) = ask_breaker-kept c now in
        let g : (request tr a now text).1 ≡ inr out = ground arith in
        let r = request-Keeps a k now text out (ca ∙ e) g in
        rw (consult, y)
          (
            r.0 ∙ ap (λ p. some (put tr.hash k (now + (tr.exchange p text).1) text out)) pt,
            r.1 ∙ en,
            r.2 ∙ pt,
          )
    | inr n ↦ absurd (ground arith)
  ]

  pub read_cache-some :
      (c : Client F) (k : PredictionCache (PredictResponse F)) (now : ℕ) (text : Bytes)
      → c.cache ≡ some k
      → read_cache tr c now text
        ≡ (record c { cache = some ((get tr.hash k now text).0) }, (get tr.hash k now text).1)
  unfolding read_cache
  read_cache-some c k now text e = rw e refl

  -- An answer that is not a hit came from the service.
  after_read_asked :
      (now : ℕ) (text : Bytes) (c : Client F) (o : Option (PredictResponse F))
      → (after_read tr now text (c, o)).2 ≡ text ∷ []
      → after_read tr now text (c, o) ≡ consult tr c now text
  unfolding after_read
  after_read_asked now text c none s = refl
  after_read_asked now text c (some out) s = absurd (cc)

  -- A prediction that is answered passes the switch and the test for empty input.
  pub predict_read :
      (c : Client F) (now : ℕ) (input : Bytes) (out : PredictResponse F)
      → (predict tr c now input).1 ≡ inr out
      → (c.enabled ≡ true)
        × (bytes_beq input [] ≡ false)
        × (predict tr c now input
            ≡ after_read tr now (take 4096 input) (read_cache tr c now (take 4096 input)))
  unfolding predict
  predict_read c now input out h = elim (Bool-cases c.enabled) [
    | inl y ↦ elim (Bool-cases (bytes_beq input [])) [
      | inl z ↦ absurd (ground arith)
      | inr z ↦ (y, z, ground arith)
    ]
    | inr n ↦ absurd (ground arith)
  ]

  -- What the service answered is in the cache.
  pub predict-Keeps :
      (c : Client F) (k : PredictionCache (PredictResponse F)) (now : ℕ) (input : Bytes)
      (out : PredictResponse F)
      → c.cache ≡ some k
      → (predict tr c now input).1 ≡ inr out
      → (predict tr c now input).2 ≡ take 4096 input ∷ []
      → let text = take 4096 input in
        Keeps c
          (predict tr c now input).0
          (put tr.hash (get tr.hash k now text).0 (now + (tr.exchange c.endpoint text).1) text out)
  predict-Keeps c k now input out e h s =
      let text = take 4096 input in
      let g = get tr.hash k now text in
      let d = record c { cache = some (g.0) } in
      let p : predict tr c now input ≡ after_read tr now text (d, g.1) =
        (predict_read c now input out h).2
        ∙ ap (after_read tr now text) (read_cache-some c k now text e) in
      let q : predict tr c now input ≡ consult tr d now text =
        p ∙ after_read_asked now text d g.1 (sym (ap (λ r. r.2) p) ∙ s) in
      let r = consult-Keeps d g.0 now text out refl (sym (ap (λ r. r.1) q) ∙ h) in
      subst (λ r. Keeps c r.0 (put tr.hash g.0 (now + (tr.exchange c.endpoint text).1) text out))
        (sym q) r

  -- Empty input changes nothing.
  pub predict_empty :
      (c : Client F) (now : ℕ) (input : Bytes)
      → c.enabled ≡ true
      → bytes_beq input [] ≡ true
      → (predict tr c now input).0 ≡ c
  unfolding predict
  predict_empty c now input on empty = ground (arith, on, empty)

  -- Other input is looked up first.
  pub predict_full :
      (c : Client F) (k : PredictionCache (PredictResponse F)) (now : ℕ) (input : Bytes)
      → c.cache ≡ some k
      → c.enabled ≡ true
      → bytes_beq input [] ≡ false
      → let text = take 4096 input in
        let g = get tr.hash k now text in
        predict tr c now input ≡ after_read tr now text (record c { cache = some (g.0) }, g.1)
  unfolding predict
  predict_full c k now input e on some_input =
      let text = take 4096 input in
      let passes : predict tr c now input ≡ after_read tr now text (read_cache tr c now text) =
        ground (arith, on, some_input) in
      passes ∙ ap (after_read tr now text) (read_cache-some c k now text e)

  -- A hit answers, and nothing is sent.
  pub predict_hit :
      (c : Client F) (k : PredictionCache (PredictResponse F)) (now : ℕ) (input : Bytes)
      (out : PredictResponse F)
      → c.cache ≡ some k
      → c.enabled ≡ true
      → bytes_beq input [] ≡ false
      → (get tr.hash k now (take 4096 input)).1 ≡ some out
      → ((predict tr c now input).1 ≡ inr out) × ((predict tr c now input).2 ≡ [])
  unfolding after_read
  predict_hit c k now input out e on some_input hit =
      let text = take 4096 input in
      let d = record c { cache = some ((get tr.hash k now text).0) } in
      let p =
        predict_full c k now input e on some_input ∙ ap (λ o. after_read tr now text (d, o)) hit in
      (ap (λ r. r.1) p, ap (λ r. r.2) p)
