-- ===== src/Tests/Predictions.antt =====
-- The theorems on the cache and the client of internal/ml, applied to small ones.
use custom_waf.Base.{
  ℕ, ◌≡◌, refl, inr, true, false, none, some, List, [], ◌∷◌, arith, pos, Bytes_eq, String_eq, ℕ_eq,
  bytes, bytes_beq, lookup, Bytes,
}
use custom_waf.Ml.Cache.{new_prediction_cache, get, get_at}
use custom_waf.Ml.Client.{
  PredictResponse, Transport, Client, responded, predict, read_cache, after_read, consult,
  ask_breaker, request, finish, note_success,
}
use custom_waf.Ml.Replay.{
  asks, stores, CacheCall, cache_answers, lru_answers, cache_refines, empty_cache, empty-Refines,
}
use custom_waf.Ml.Remembered.{predict_replayed, predictions}

abbrev calls : List (CacheCall ℕ)
calls =
    stores 1 (bytes "a") 10
    ∷ stores 2 (bytes "b") 20
    ∷ asks 3 (bytes "a")
    ∷ stores 4 (bytes "c") 30
    ∷ asks 5 (bytes "b")
    ∷ asks 200 (bytes "a")
    ∷ []

cache_refines_example :
    cache_answers (λ s. s) (empty_cache 2 100) calls ≡ lru_answers (λ s. s) 2 100 [] calls
unfolding new_prediction_cache
cache_refines_example = cache_refines (λ s. s) (pos 2) (pos 100) (empty_cache 2 100) calls refl

abbrev clean : PredictResponse ℕ
clean = record {
  label = bytes "normal";
  label_id = pos 0;
  confidence = 99;
  scores = [];
  is_attack = false;
  latency_ms = 3;
}

-- The service finds everything clean, after seven nanoseconds.
abbrev service : Transport ℕ
service = record {
  hash = λ s. s;
  prepare = λ url text. none;
  exchange = λ url text. (responded 200 [] (inr clean), 7);
  status_text = λ code raw. raw;
}

abbrev client : Client ℕ
client = record {
  endpoint = bytes "http://ml:8000";
  enabled = true;
  cache = some (empty_cache 2 100);
  breaker = none;
  total_calls = 0;
  total_errors = 0;
  total_latency = 0;
  last_error_text = [];
}

-- Another page and the same one, before the end at 112.
abbrev visits : List (ℕ × Bytes)
visits = (20, bytes "GET /a") ∷ []

predict_replayed_example :
    let c = predictions service (predict service client 5 (bytes "GET /")).0 visits in
    let again = predict service c 60 (bytes "GET /") in (again.1 ≡ inr clean) × (again.2 ≡ [])
unfolding predict read_cache after_read consult ask_breaker request finish note_success get get_at
    lookup bytes_beq
predict_replayed_example =
    predict_replayed service client (empty_cache 2 100) 5 60 (bytes "GET /") clean visits
      (record {
        cached = refl;
        sound = (empty-Refines {V = PredictResponse ℕ} 2 100).sound;
        room = omega arith;
      })
      refl refl (omega arith, tt) (omega arith) (omega arith)
