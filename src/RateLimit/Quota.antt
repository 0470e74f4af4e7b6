-- ===== src/RateLimit/Quota.antt =====
-- The bound that internal/ratelimit/ratelimit.go exists for: how many requests of one client a
-- pattern lets through, over any run of requests of any clients and of cleanups.
use custom_waf.RateLimit.Budget.{Within, cost, Within-new, Within-use, Within-later}
use mathlib.Core.Path.{subst}
use custom_waf.RateLimit.Runs.{
  Request, LimiterOp, ask, clean, hits, is_own, Ordered, Spared, granted, Limits,
}
use custom_waf.RateLimit.Cleaned.{
  AllDistinct, cleanup_found, cleanup-AllDistinct, request-AllDistinct,
}
use custom_waf.RateLimit.Budget.{Since, Within-kept, use_bucket_asked}
use custom_waf.RateLimit.Limiter.{cleanup}
use custom_waf.RateLimit.Longest.{lookup-match_endpoint}
use custom_waf.RateLimit.Match.{match_endpoint}
use custom_waf.Base.{
  ℕ, ◌+◌, ◌-◌, ◌*◌, ◌/◌, ◌≤◌, ◌<◌, ◌≡◌, pos, true, false, none, some, Bytes, Bytes_eq, half_word,
  arith, List, ◌∷◌, Distinct, lookup, if◌then◌else◌, bytes_beq_iff, [], Option-cases, Bool-cases,
  inl, inr, String_eq, ℕ_eq,
}
use custom_waf.RateLimit.Types.{ClientBucket, second, RateLimitConfig, RateLimiter, LimitConfig}
use custom_waf.RateLimit.Bucket.{new_bucket}
use custom_waf.RateLimit.Limiter.{or_new, is_rate_limited_with_route, limit_matched}
use custom_waf.RateLimit.Frame.{
  find_bucket, request_frame, request_matched, request_config, used_by, find-limit_matched_self,
}

module _ (key ip : Bytes) (lc : LimitConfig) (rpm burst end : ℕ) where
  unfoldable pub Follows : RateLimiter → ℕ → List LimiterOp → Type 0
  Follows rl n os =
      (now last : ℕ)
      → Limits rl.config key lc rpm burst
      → AllDistinct rl
      → Ordered now end os
      → Spared rl.config key ip rpm burst last os
      → Since last (find_bucket rl key ip)
      → Within rpm burst end (find_bucket rl key ip) now n
      → granted key ip rl os ≤ n

  Within-weaken :
      (b : ClientBucket) (now m n : ℕ)
      → m ≤ n
      → Within rpm burst end (some b) now m
      → Within rpm burst end (some b) now n
  Within-weaken b now m n h (t, e, s, l, o, f, w) = (t, e, s, l, o, f, omega arith)

  own_matched :
      (rl : RateLimiter) (at : ℕ) (route : Bytes) (now n : ℕ)
      → Limits rl.config key lc rpm burst
      → now ≤ at
      → at ≤ end
      → Within rpm burst end (find_bucket rl key ip) now n
      → let r = limit_matched rl at ip route lc key in
        (cost r.1 ≤ n)
        × Within rpm burst end (find_bucket r.0 key ip) at (n - cost r.1)
        × Since at (find_bucket r.0 key ip)
  own_matched rl at route now n l h k w =
      let r = limit_matched rl at ip route lc key in
      let u = used_by rl at ip key rpm burst in
      let (b, same, found, adm) =
        find-limit_matched_self rl at ip route key lc rpm burst l.rate l.size l.rate_pos
          l.size_pos in
      let (le, win) =
        Within-use rpm burst end l.rate_small l.size_small
          (or_new (find_bucket rl key ip) (new_bucket at (pos burst))) b at n k same
          (Within-new rpm burst end l.rate_small l.size_small (find_bucket rl key ip) now at n h k
            w) in
      let less : cost r.1 ≤ cost u.1 = elim (Bool-cases r.1) [
        | inl y ↦ rw y (omega arith)
        | inr f ↦ rw (f, adm f) (omega arith)
      ] in
      let asked =
        use_bucket_asked (or_new (find_bucket rl key ip) (new_bucket at (pos burst))) at (pos rpm)
          (pos burst) in
      (
        omega arith,
        rw found (Within-weaken b at (n - cost u.1) (n - cost r.1) (omega arith) win),
        rw found (omega (arith, same.2, asked)),
      )

  own_request :
      (rl : RateLimiter) (q : Request) (now n : ℕ)
      → Limits rl.config key lc rpm burst
      → q.ip ≡ ip
      → match_endpoint rl.config q.route ≡ some (lc, key)
      → now ≤ q.at
      → q.at ≤ end
      → Within rpm burst end (find_bucket rl key ip) now n
      → let r = is_rate_limited_with_route rl q.at q.ip q.route in
        (cost r.1 ≤ n)
        × Within rpm burst end (find_bucket r.0 key ip) q.at (n - cost r.1)
        × Since q.at (find_bucket r.0 key ip)
  own_request rl q now n l e m h k w =
      rw (e, request_matched rl q.at ip q.route key lc m)
        (own_matched rl q.at q.route now n l h k w)

  other_request :
      (rl : RateLimiter) (q : Request) (now n : ℕ)
      → is_own rl.config key ip q ≡ false
      → find_bucket (is_rate_limited_with_route rl q.at q.ip q.route).0 key ip
        ≡ find_bucket rl key ip
  unfolding hits
  other_request rl q now n h =
      request_frame rl q.at q.ip q.route key ip
        (λ lc' s e. ground (arith, bytes_beq_iff q.ip ip, bytes_beq_iff key key))

  hits-match :
      (config : RateLimitConfig) (route : Bytes)
      → Distinct config.endpoint_limits
      → lookup key config.endpoint_limits ≡ some lc
      → hits config key route ≡ true
      → match_endpoint config route ≡ some (lc, key)
  unfolding hits
  hits-match config route d l h = elim (Option-cases (match_endpoint config route)) [
    | inl n ↦ ground arith
    | inr (m, s) ↦
        ground (arith, bytes_beq_iff m.1 key, lookup-match_endpoint config route m.1 m.0 d s)
  ]

  Limits-kept :
      (rl : RateLimiter) (q : Request)
      → Limits rl.config key lc rpm burst
      → Limits (is_rate_limited_with_route rl q.at q.ip q.route).0.config key lc rpm burst
  Limits-kept rl q l = rw (request_config rl q.at q.ip q.route) l

  Limits-cleaned :
      (rl : RateLimiter) (at : ℕ)
      → Limits rl.config key lc rpm burst
      → Limits (cleanup rl at).config key lc rpm burst
  unfolding cleanup
  Limits-cleaned rl at l = l

  Spared-cleaned :
      (rl : RateLimiter) (at last : ℕ) (os : List LimiterOp)
      → Spared rl.config key ip rpm burst last os
      → Spared (cleanup rl at).config key ip rpm burst last os
  unfolding cleanup
  Spared-cleaned rl at last os s = s

  Spared-kept :
      (rl : RateLimiter) (q : Request) (os : List LimiterOp) (last : ℕ)
      → Spared rl.config key ip rpm burst last os
      → Spared (is_rate_limited_with_route rl q.at q.ip q.route).0.config key ip rpm burst last os
  Spared-kept rl q os last s = rw (request_config rl q.at q.ip q.route) s

  cleanup_le :
      (os : List LimiterOp) (rl : RateLimiter) (at n : ℕ)
      → Follows (cleanup rl at) n os
      → Follows rl n (clean at ∷ os)
  unfolding granted Follows
  cleanup_le os rl at n f now last l d (h, k, o) (c, sp) s w =
      let e = cleanup_found rl at key ip (d key) in
      let (w', s') =
        Within-kept rpm burst end l.rate_small l.size_small (find_bucket rl key ip) now at n last h
          k c s w in
      f at last (Limits-cleaned rl at l) (cleanup-AllDistinct rl at d) o
        (Spared-cleaned rl at last os sp) (rw e s') (rw e w')

  pub granted_le : (os : List LimiterOp) (rl : RateLimiter) (n : ℕ) → Follows rl n os
  unfolding granted Follows
  granted_le [] rl n now last l d o sp s w = omega arith
  granted_le (clean at ∷ os) rl n now last l d o sp s w =
      cleanup_le os rl at n (granted_le os (cleanup rl at) n) now last l d o sp s w
  granted_le (ask q ∷ os) rl n now last l d (h, k, o) sp s w =
      let r = is_rate_limited_with_route rl q.at q.ip q.route in
      let kept = Limits-kept rl q l in
      let d' = request-AllDistinct rl q.at q.ip q.route d in
      let sp' = Spared-kept rl q os _ sp in
      elim (Bool-cases (is_own rl.config key ip q)) [
        | inl y ↦
            let same : q.ip ≡ ip = ground (arith, bytes_beq_iff q.ip ip) in
            let hit = hits-match rl.config q.route l.distinct l.entry (ground arith) in
            let own = own_request rl q now n l same hit h k w in
            let rest =
              granted_le os r.0 (n - cost r.1) q.at q.at kept d' o
                (subst (λ b. Spared r.0.config key ip rpm burst (if b then q.at else last) os) y
                  sp')
                own.2 own.1 in
            ground arith
        | inr f ↦
            let e = other_request rl q now n f in
            let rest =
              granted_le os r.0 n q.at last kept d' o
                (subst (λ b. Spared r.0.config key ip rpm burst (if b then q.at else last) os) f
                  sp')
                (rw e s)
                (rw e (
                  Within-later rpm burst end l.rate_small l.size_small (find_bucket rl key ip) now
                    q.at n h k w)) in
            ground (arith, rest)
      ]

-- The purpose of the limiter. Take a pattern with a positive limit `rpm` and burst (both below
-- 2^31) and a client that has no bucket under it yet. Over any run of requests of any clients and
-- of cleanups, in the order of their times and less than 2^63 nanoseconds long, the client gets at
-- most the burst and, for each whole second of the run, the whole number rpm / 60 of requests
-- through; provided that, at each cleanup, ten minutes earn no less than the burst or the client
-- has asked in the ten minutes before, for which the start of the run counts. (A cleanup drops a
-- bucket that was idle for ten minutes, and a slow one would be made anew with more tokens.) The
-- keys of the maps are distinct.
pub granted_quota :
    (key ip : Bytes) (lc : LimitConfig) (rpm burst : ℕ) (rl : RateLimiter) (start end : ℕ)
    (os : List LimiterOp)
    → Limits rl.config key lc rpm burst
    → AllDistinct rl
    → find_bucket rl key ip ≡ none
    → Ordered start end os
    → Spared rl.config key ip rpm burst start os
    → end - start < half_word
    → granted key ip rl os ≤ burst + (end - start) / second * (rpm / 60)
unfolding Follows
granted_quota key ip lc rpm burst rl start end os l d none_yet o sp short =
    granted_le key ip lc rpm burst end os rl _ start start l d o sp (rw none_yet tt)
      (rw none_yet (short, omega arith))
