-- ===== src/RateLimit/Admin.antt =====
-- The operations of internal/ratelimit/ratelimit.go on the map `clients`: blocks, bursts and
-- statistics of single clients.
use custom_waf.Base.{
  ℕ, suc, zero, ◌+◌, ◌-◌, ℤ, pos, negsuc, ◌+ℤ◌, int64, ltb_ℤ, Bool, false, List, [], ◌∷◌, Option,
  none, some, map, Bytes, Bytes_eq, ltb, length, take, lookup, insert, erase, filter, if◌then◌else◌,
}
use custom_waf.RateLimit.Types.{ClientBucket, RateLimiter, second}

unfoldable pub reset_client : RateLimiter → Bytes → RateLimiter
reset_client rl ip = record rl { clients = erase ip rl.clients }

unfoldable pub allow_burst : RateLimiter → Bytes → ℤ → RateLimiter
allow_burst rl ip additional = elim (lookup ip rl.clients) [
  | none ↦ rl
  | some b ↦ record rl {
    clients = insert ip (record b { tokens = int64 (b.tokens +ℤ additional) }) rl.clients;
  }
]

-- -1000
abbrev pub blocked_tokens : ℤ
blocked_tokens = negsuc 999

-- The bucket that `BlockClient` makes, or the client's with its tokens overwritten.
abbrev pub blocked_bucket : Option ClientBucket → ℕ → ClientBucket
blocked_bucket none now = record {
  tokens = blocked_tokens;
  last_refill = now;
  request_count = 0;
  blocked_count = 0;
  first_request = now;
  last_request = now;
}
blocked_bucket (some b) now = record b { tokens = blocked_tokens }

-- `BlockClient`; the code ignores its duration.
unfoldable pub block_client : RateLimiter → Bytes → ℕ → ℤ → RateLimiter
block_client rl ip now duration = record rl {
  clients = insert ip (blocked_bucket (lookup ip rl.clients) now) rl.clients;
}

unfoldable pub is_client_blocked : RateLimiter → Bytes → Bool
is_client_blocked rl ip = elim (lookup ip rl.clients) [
  | none ↦ false
  | some b ↦ ltb_ℤ b.tokens (pos 0)
]

unfoldable pub get_remaining_tokens : RateLimiter → Bytes → ℤ
get_remaining_tokens rl ip = elim (lookup ip rl.clients) [
  | none ↦ rl.config.burst_size
  | some b ↦ b.tokens
]

-- The time to the next second after the last refill; `-` stops at 0, as the code does.
unfoldable pub get_time_until_refill : RateLimiter → ℕ → Bytes → ℕ
get_time_until_refill rl now ip = elim (lookup ip rl.clients) [
  | none ↦ 0
  | some b ↦ b.last_refill + second - now
]

-- `ClientStats`, without the rate that only the dashboard shows.
pub record ClientStats : Type 0 where
  pub ip : Bytes
  pub request_count : ℕ
  pub blocked_count : ℕ
  pub current_tokens : ℤ
  pub first_request : ℕ
  pub last_request : ℕ

abbrev pub stats_of : Bytes × ClientBucket → ClientStats
stats_of (ip, b) = record {
  ip = ip;
  request_count = b.request_count;
  blocked_count = b.blocked_count;
  current_tokens = b.tokens;
  first_request = b.first_request;
  last_request = b.last_request;
}

unfoldable pub get_client_stats : RateLimiter → Bytes → Option ClientStats
get_client_stats rl ip = elim (lookup ip rl.clients) [
  | none ↦ none
  | some b ↦ some (stats_of (ip, b))
]

unfoldable pub get_all_client_stats : RateLimiter → List ClientStats
get_all_client_stats rl = map stats_of rl.clients

-- The inner loop of `GetTopClients`: `n` comparisons of neighbours from the front.
unfoldable pub bubble : ℕ → List ClientStats → List ClientStats
bubble zero l = l
bubble (suc n) [] = []
bubble (suc n) (x ∷ []) = x ∷ []
bubble (suc n) (x ∷ y ∷ l) =
    if ltb x.request_count y.request_count then y ∷ bubble n (x ∷ l) else x ∷ bubble n (y ∷ l)

-- The outer loop: the rounds that are left are the comparisons of the next pass.
unfoldable pub bubble_sort : ℕ → List ClientStats → List ClientStats
unfolding bubble
bubble_sort zero l = l
bubble_sort (suc n) l = bubble_sort n (bubble (suc n) l)

unfoldable pub get_top_clients : RateLimiter → ℕ → List ClientStats
unfolding get_all_client_stats bubble_sort
get_top_clients rl n =
    let all_stats = get_all_client_stats rl in take n (bubble_sort (length all_stats - 1) all_stats)

unfoldable pub get_blocked_clients : RateLimiter → List ClientStats
unfolding get_all_client_stats filter
get_blocked_clients rl = filter (λ s. ltb 0 s.blocked_count) (get_all_client_stats rl)
