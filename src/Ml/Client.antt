-- ===== src/Ml/Client.antt =====
-- internal/ml/client.go: the client of the prediction service. What net/http and encoding/json do
-- with a request is a parameter; times are nanoseconds.
use custom_waf.Ml.Breaker.{
  CircuitBreaker, new_circuit_breaker, record_success, record_failure, allow, state_name,
}
use custom_waf.Base.{
  ℕ, suc, ◌+◌, ◌/◌, String, ◌⊎◌, inl, inr, Bool, true, not, ◌&&◌, Option, none, some, List, [], ◌∷◌,
  ◌++◌, ℤ, pos, Bytes, Bytes_eq, String_eq, ℕ_eq, bytes, bytes_beq, if◌then◌else◌, ltb, eqb,
  Float64,
}
use custom_waf.Base.{take, leb_ℤ}
use custom_waf.Ml.Cache.{PredictionCache, new_prediction_cache, get, put, CacheStats, stats}

pub record PredictResponse (F : Type 0) : Type 0 where
  pub label : Bytes
  pub label_id : ℤ
  pub confidence : F
  pub scores : List (Bytes × F)
  pub is_attack : Bool
  pub latency_ms : F

-- What an exchange ends with: an error of the transport, or a response with its status, the start
-- of its body, and its body decoded.
pub data Reply (F : Type 0) : Type 0 where
  unreachable : Bytes → Reply F
  responded : ℕ → Bytes → Bytes ⊎ PredictResponse F → Reply F

-- The code that is not the repository's. `prepare` is the error of building the request, if there
-- is one; `exchange` gives the reply and the time it took; `status_text` is `Sprintf`.
pub record Transport (F : Type 0) : Type 0 where
  pub hash : Bytes → Bytes
  pub prepare : Bytes → Bytes → Option Bytes
  pub exchange : Bytes → Bytes → Reply F × ℕ
  pub status_text : ℕ → Bytes → Bytes

pub record ClientConfig : Type 0 where
  pub endpoint : Bytes
  pub enabled : Bool
  pub cache_size : ℤ
  pub cache_ttl : ℤ
  pub breaker_threshold : ℤ
  pub breaker_cooldown : ℤ

pub record Client (F : Type 0) : Type 0 where
  pub endpoint : Bytes
  pub enabled : Bool
  pub cache : Option (PredictionCache (PredictResponse F))
  pub breaker : Option CircuitBreaker
  pub total_calls : ℕ
  pub total_errors : ℕ
  pub total_latency : ℕ
  pub last_error_text : Bytes

-- The errors of a prediction.
pub data PredictError : Type 0 where
  err_disabled err_circuit_open empty_input : PredictError
  failed : Bytes → PredictError

abbrev pub Answer : Type 0 → Type 0
Answer F = PredictError ⊎ PredictResponse F

module _ {F : Type 0} where
  -- `NewClient`; the timeout is the transport's, and the length limit of the configuration is not
  -- kept.
  unfoldable pub new_client : ClientConfig → Client F
  new_client cfg = record {
    endpoint = cfg.endpoint;
    enabled = cfg.enabled && not (bytes_beq cfg.endpoint []);
    cache =
        if leb_ℤ cfg.cache_size (pos 0)
        then none
        else new_prediction_cache cfg.cache_size cfg.cache_ttl;
    breaker =
        if leb_ℤ cfg.breaker_threshold (pos 0)
        then none
        else some (new_circuit_breaker cfg.breaker_threshold cfg.breaker_cooldown);
    total_calls = 0;
    total_errors = 0;
    total_latency = 0;
    last_error_text = [];
  }

  unfoldable pub set_enabled : Client F → Bool → Client F
  set_enabled c v = record c { enabled = v }

  -- `recordSuccess` of the client and of the breaker.
  unfoldable pub note_success : Client F → ℕ → Client F
  note_success c took = record c {
    total_calls = suc c.total_calls;
    total_latency = c.total_latency + took;
    breaker = elim c.breaker [ none ↦ none | some b ↦ some (record_success b) ];
  }

  -- `recordError`, and `recordFailure` of the breaker.
  unfoldable pub note_error : Client F → Bytes → ℕ → ℕ → Client F
  note_error c msg now took = record c {
    total_calls = suc c.total_calls;
    total_errors = suc c.total_errors;
    total_latency = c.total_latency + took;
    last_error_text = msg;
    breaker = elim c.breaker [ none ↦ none | some b ↦ some (record_failure b now) ];
  }

  -- `c.cache.Put`, which does nothing where there is no cache.
  abbrev pub keep : Transport F → Client F → ℕ → Bytes → PredictResponse F → Client F
  keep tr c now text out = record c {
    cache = elim c.cache [ none ↦ none | some k ↦ some (put tr.hash k now text out) ];
  }

  -- What a reply does.
  unfoldable pub finish : Transport F → Client F → ℕ → ℕ → Bytes → Reply F → Client F × Answer F
  unfolding note_success note_error
  finish tr c done took text (unreachable msg) =
      (note_error c msg done took, inl (failed (bytes "ml: do: " ++ msg)))
  finish tr c done took text (responded code raw body) =
      let msg = tr.status_text code raw in
      if eqb code 200
      then elim body [
        | inl err ↦ (
          note_error c (bytes "decode: " ++ err) done took,
          inl (failed (bytes "ml: decode: " ++ err)),
        )
        | inr out ↦ (keep tr (note_success c took) done text out, inr out)
      ]
      else (note_error c msg done took, inl (failed (bytes "ml: " ++ msg)))

  -- The breaker's leave, if there is a breaker.
  unfoldable pub ask_breaker : Client F → ℕ → Client F × Bool
  ask_breaker c now = elim c.breaker [
    | none ↦ (c, true)
    | some b ↦ let r = allow b now in (record c { breaker = some (r.0) }, r.1)
  ]

  -- The request itself; the texts sent to the service come last.
  unfoldable pub request : Transport F → Client F → ℕ → Bytes → Client F × Answer F × List Bytes
  unfolding finish
  request tr c now text = elim (tr.prepare c.endpoint text) [
    | some err ↦ (c, inl (failed err), [])
    | none ↦
        let (reply, took) = tr.exchange c.endpoint text in
        let r = finish tr c (now + took) took text reply in (r.0, r.1, text ∷ [])
  ]

  -- `c.cache.Get`, which misses where there is no cache.
  unfoldable pub read_cache :
      Transport F → Client F → ℕ → Bytes → Client F × Option (PredictResponse F)
  read_cache tr c now text = elim c.cache [
    | none ↦ (c, none)
    | some k ↦ let r = get tr.hash k now text in (record c { cache = some (r.0) }, r.1)
  ]

  -- After a miss.
  unfoldable pub consult : Transport F → Client F → ℕ → Bytes → Client F × Answer F × List Bytes
  unfolding ask_breaker request
  consult tr c now text =
      let a = ask_breaker c now in
      if a.1 then request tr a.0 now text else (a.0, inl err_circuit_open, [])

  -- A hit is the answer.
  unfoldable pub after_read :
      Transport F
      → ℕ
      → Bytes
      → Client F × Option (PredictResponse F)
      → Client F × Answer F × List Bytes
  unfolding consult
  after_read tr now text (c, some out) = (c, inr out, [])
  after_read tr now text (c, none) = consult tr c now text

  -- `Predict`
  unfoldable pub predict : Transport F → Client F → ℕ → Bytes → Client F × Answer F × List Bytes
  unfolding read_cache after_read
  predict tr c now input =
      let text = take 4096 input in
      if not c.enabled
      then (c, inl err_disabled, [])
      else if bytes_beq input []
      then (c, inl empty_input, [])
      else after_read tr now text (read_cache tr c now text)

-- `Stats`; the average latency is in milliseconds.
pub record ClientStats (F : Type 0) : Type 0 where
  pub total_calls : ℕ
  pub total_errors : ℕ
  pub avg_latency_ms : F
  pub last_error_text : Bytes
  pub cache : CacheStats F
  pub breaker_state : String

unfoldable pub client_stats : {F : Type 0} ⦃fl : Float64 F⦄ → Client F → ClientStats F
client_stats ⦃fl⦄ c = record {
  total_calls = c.total_calls;
  total_errors = c.total_errors;
  avg_latency_ms =
      if ltb 0 c.total_calls
      then fl.fdiv (fl.of_int (pos (c.total_latency / 1000000))) (fl.of_int (pos c.total_calls))
      else fl.lit 0 0;
  last_error_text = c.last_error_text;
  cache = stats c.cache;
  breaker_state = elim c.breaker [ none ↦ "disabled" | some b ↦ state_name b.state ];
}

pub record ClientSnapshot : Type 0 where
  pub version : ℕ
  pub total_calls : ℕ
  pub total_errors : ℕ
  pub total_latency : ℕ
  pub last_error_text : Bytes

module _ {F : Type 0} where
  -- `SnapshotStats`, without the encoding as JSON.
  unfoldable pub snapshot_stats : Client F → ClientSnapshot
  snapshot_stats c = record {
    version = 1;
    total_calls = c.total_calls;
    total_errors = c.total_errors;
    total_latency = c.total_latency;
    last_error_text = c.last_error_text;
  }

  unfoldable pub restore_stats : Client F → ClientSnapshot → Client F
  restore_stats c snap =
      if eqb snap.version 1
      then record c {
        total_calls = snap.total_calls;
        total_errors = snap.total_errors;
        total_latency = snap.total_latency;
        last_error_text = snap.last_error_text;
      }
      else c
