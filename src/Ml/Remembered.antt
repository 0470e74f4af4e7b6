-- ===== src/Ml/Remembered.antt =====
-- The client of internal/ml/client.go and its cache together, over a run of predictions.
use custom_waf.Ml.Recent.{any_get, first_put, other_put, missed_other, own_get, other_miss}
use custom_waf.Ml.Writes.{consult-Writes}
use custom_waf.Ml.Replay.{put-Refines, get-Refines}
use mathlib.Core.Path.{subst}
use custom_waf.Base.{
  ℕ, suc, ◌+◌, ◌≤◌, ◌≡◌, refl, ◌∙◌, inl, inr, true, false, some, List, [], ◌∷◌, arith, pos, Bytes,
  Bytes_eq, String_eq, ℕ_eq, bytes_beq, Bool-cases, Option-cases, ◌<◌, sym, ap, length,
}
use custom_waf.Base.{take}
use custom_waf.Ml.Linked.{contents}
use custom_waf.Ml.Cache.{PredictionCache, put, get}
use custom_waf.Ml.Refine.{IsSound}
use custom_waf.Ml.Client.{Client, Transport, PredictResponse, consult, predict, after_read}
use custom_waf.Ml.Answered.{
  Caching, predict_empty, predict-Keeps, predict_read, predict_full, predict_hit,
}
use custom_waf.Ml.Held.{Near, Near-more}

-- The predictions of a run, one after the other.
unfoldable pub predictions : {F : Type 0} → Transport F → Client F → List (ℕ × Bytes) → Client F
predictions tr c [] = c
predictions tr c ((at, input) ∷ calls) = predictions tr (predict tr c at input).0 calls

-- The calls come no later than this.
abbrev pub AllBefore : ℕ → List (ℕ × Bytes) → Type 0
AllBefore end [] = Unit
AllBefore end ((at, input) ∷ calls) = (at ≤ end) × AllBefore end calls

module _ {F : Type 0} (tr : Transport F) where
  -- The client works, and its cache of this capacity holds the answer among the first n entries.
  record Remembers (cap end : ℕ) (key : Bytes) (out : PredictResponse F) (n : ℕ) (c : Client F)
      : Type 0 where
    cell : PredictionCache (PredictResponse F)
    cached : c.cache ≡ some cell
    on : c.enabled ≡ true
    sound : IsSound cell
    size : cell.capacity ≡ cap
    near : Near n key (out, pos end) (contents cell.ll)

  module _ (cap end : ℕ) (key : Bytes) (out : PredictResponse F) where
    consulted :
        (n now : ℕ) (text : Bytes) (d : Client F) (k : PredictionCache (PredictResponse F))
        → suc n ≤ cap
        → d.cache ≡ some k
        → d.enabled ≡ true
        → IsSound k
        → k.capacity ≡ cap
        → bytes_beq (tr.hash text) key ≡ false
        → Near n key (out, pos end) (contents k.ll)
        → Remembers cap end key out (suc n) (consult tr d now text).0
    consulted n now text d k room c on sound size ne h =
        let w = consult-Writes tr d k now text c in
        elim w.1 [
          | inl same ↦ record {
            cell = k;
            cached = same;
            on = w.0 ∙ on;
            sound = sound;
            size = size;
            near = Near-more n key (out, pos end) (contents k.ll) h;
          }
          | inr (done, (v, put_there)) ↦
              let p = put-Refines tr.hash k done text v sound in
              record {
                cell = put tr.hash k done text v;
                cached = put_there;
                on = w.0 ∙ on;
                sound = p.0.sound;
                size = p.1.0 ∙ size;
                near = subst (Near (suc n) key (out, pos end)) (sym p.0.same) (
                    rw size
                      (other_put cap end key out n (tr.hash text) v _ (contents k.ll) room ne h));
              }
        ]

    -- One prediction moves the entry one place back at most.
    step :
        (n now : ℕ) (input : Bytes) (c : Client F)
        → suc n ≤ cap
        → now ≤ end
        → Remembers cap end key out n c
        → Remembers cap end key out (suc n) (predict tr c now input).0
    unfolding after_read
    step n now input c room live r =
        let text = take 4096 input in
        let g = get tr.hash r.cell now text in
        let d = record c { cache = some (g.0) } in
        let q = get-Refines tr.hash r.cell now text r.sound in
        let l = contents r.cell.ll in
        elim (Bool-cases (bytes_beq input [])) [
          | inl y ↦ rw (predict_empty tr c now input r.on y) (record {
            cell = r.cell;
            cached = r.cached;
            on = r.on;
            sound = r.sound;
            size = r.size;
            near = Near-more n key (out, pos end) l r.near;
          })
          | inr z ↦
              let p : predict tr c now input ≡ after_read tr now text (d, g.1) =
                predict_full tr c r.cell now input r.cached r.on z in
              elim (Option-cases g.1) [
                | inr (v, s) ↦
                    subst (λ x. Remembers cap end key out (suc n) x.0)
                      (sym (p ∙ ap (λ o. after_read tr now text (d, o)) s))
                      (record {
                        cell = g.0;
                        cached = refl;
                        on = r.on;
                        sound = q.0.sound;
                        size = q.1.0 ∙ r.size;
                        near =
                            subst (Near (suc n) key (out, pos end)) (sym q.0.same)
                              (any_get cap end key out n now (tr.hash text) l live r.near);
                      })
                | inl s ↦
                    let miss = sym q.2 ∙ s in
                    let ne = missed_other cap end key out n now (tr.hash text) l live r.near miss in
                    subst (λ x. Remembers cap end key out (suc n) x.0)
                      (sym (p ∙ ap (λ o. after_read tr now text (d, o)) s))
                      (consulted n now text d g.0 room refl r.on q.0.sound (q.1.0 ∙ r.size) ne (
                        subst (Near n key (out, pos end)) (sym q.0.same)
                          (other_miss cap end key out n now (tr.hash text) l ne miss r.near)))
              ]
        ]

    run_step :
        (calls : List (ℕ × Bytes)) (n : ℕ) (c : Client F)
        → n + length calls ≤ cap
        → AllBefore end calls
        → Remembers cap end key out n c
        → Remembers cap end key out (n + length calls) (predictions tr c calls)
    unfolding predictions
    run_step [] n c room live r = subst (λ m. Remembers cap end key out m c) (omega arith) r
    run_step ((at, input) ∷ calls) n c room live r =
        subst (λ m. Remembers cap end key out m (predictions tr (predict tr c at input).0 calls))
          (omega arith)
          (run_step calls (suc n) (predict tr c at input).0 (omega (arith, room)) live.1
            (step n at input c (omega (arith, room)) live.0 r))

-- Replayed payloads: after a prediction that the service answered, and any further predictions,
-- fewer than the cache has room for and made before the end of the cache's time to live, whatever
-- they answer and whatever becomes of the breaker meanwhile, the same input gets the same answer up
-- to that end, and nothing is sent; the client has a cache in good order.
pub predict_replayed :
    {F : Type 0} (tr : Transport F) (c : Client F) (k : PredictionCache (PredictResponse F))
    (now later : ℕ) (input : Bytes) (out : PredictResponse F) (calls : List (ℕ × Bytes))
    → Caching c k
    → (predict tr c now input).1 ≡ inr out
    → (predict tr c now input).2 ≡ take 4096 input ∷ []
    → let end = now + (tr.exchange c.endpoint (take 4096 input)).1 + k.ttl in
      AllBefore end calls
      → length calls < k.capacity
      → later ≤ end
      → let again = predict tr (predictions tr (predict tr c now input).0 calls) later input in
        (again.1 ≡ inr out) × (again.2 ≡ [])
predict_replayed tr c k now later input out calls h answered asked before few live =
    let text = take 4096 input in
    let key = tr.hash text in
    let done = now + (tr.exchange c.endpoint text).1 in
    let end = done + k.ttl in
    let g = get-Refines tr.hash k now text h.sound in
    let k' = (get tr.hash k now text).0 in
    let p = put-Refines tr.hash k' done text out g.0.sound in
    let kept = predict-Keeps tr c k now input out h.cached answered asked in
    let r = predict_read tr c now input out answered in
    let first : Remembers tr k.capacity end key out 1 (predict tr c now input).0 = record {
      cell = put tr.hash k' done text out;
      cached = kept.0;
      on = kept.1 ∙ r.0;
      sound = p.0.sound;
      size = p.1.0 ∙ g.1.0;
      near = subst (Near 1 key (out, pos end)) (sym p.0.same) (
          first_put k'.capacity (contents k'.ll) key out done k'.ttl k.ttl g.1.1
            (omega (arith, few, g.1.0)));
    } in
    let last =
      run_step tr k.capacity end key out calls 1 (predict tr c now input).0 (omega (arith, few))
        before first in
    let m = get-Refines tr.hash last.cell later text last.sound in
    let hit =
      own_get k.capacity end key out (1 + length calls) later (contents last.cell.ll) live
        last.near in
    predict_hit tr (predictions tr (predict tr c now input).0 calls) last.cell later input out
      last.cached last.on r.1 (m.2 ∙ hit.0)
