-- ===== src/Engine/Tracker.antt =====
-- internal/engine/tracker.go: counters with an expiry, keyed by scope, counter and identity.
use custom_waf.Base.{
  ℕ, suc, String, Bool, not, Option, none, some, List, [], ◌∷◌, ◌++◌, ℤ, pos, Bytes, Bytes_eq,
  String_eq, ℕ_eq, bytes, bytes_beq, if◌then◌else◌, ◌==◌, lookup, insert, ltb_ℤ,
}
use custom_waf.Base.{erase, retain, ◌+ℤ◌}
use custom_waf.Engine.Types.{ParsedRequest}

pub record TrackEntry : Type 0 where
  pub count : ℕ
  pub expire_at : ℤ

abbrev pub Tracker : Type 0
Tracker = List (Bytes × TrackEntry)

-- `now.After(e.expireAt)`
unfoldable pub is_past : ℕ → TrackEntry → Bool
is_past now e = ltb_ℤ e.expire_at (pos now)

-- The count that is still in force.
abbrev pub live_count : ℕ → Option TrackEntry → ℕ
live_count now none = 0
live_count now (some e) = if is_past now e then 0 else e.count

-- `Incr`; the time to live may be negative.
unfoldable pub incr : Tracker → ℕ → Bytes → ℤ → Tracker × ℕ
incr t now key ttl =
    let n = suc (live_count now (lookup key t)) in
    (insert key (record { count = n; expire_at = pos now +ℤ ttl }) t, n)

-- `Get`
unfoldable pub get : Tracker → ℕ → Bytes → ℕ
get t now key = live_count now (lookup key t)

unfoldable pub reset : Tracker → Bytes → Tracker
reset t key = erase key t

unfoldable pub sweep : Tracker → ℕ → Tracker
sweep t now = retain (λ e. not (is_past now e)) t

unfoldable pub track_key : Bytes → Bytes → Bytes → Bytes
track_key scope counter identity = scope ++ (bytes ":" ++ (counter ++ (bytes ":" ++ identity)))

-- The first session cookie that is set and not empty.
unfoldable pub first_cookie : List (Bytes × Bytes) → List Bytes → Option Bytes
first_cookie cookies [] = none
first_cookie cookies (name ∷ names) =
    let rest = first_cookie cookies names in
    elim (lookup name cookies) [ none ↦ rest | some v ↦ if bytes_beq v [] then rest else some v ]

abbrev pub session_cookies : List Bytes
session_cookies = bytes "sessionid" ∷ bytes "PHPSESSID" ∷ bytes "JSESSIONID" ∷ bytes "session" ∷ []

unfoldable pub session_identity : ParsedRequest → Bytes
unfolding first_cookie
session_identity req = elim (first_cookie req.cookies session_cookies) [
  | none ↦ req.client_ip ++ (bytes "|" ++ req.user_agent)
  | some v ↦ v
]

unfoldable pub resolve_identity : String → ParsedRequest → Bytes
unfolding session_identity
resolve_identity scope req =
    if scope == "ip"
    then req.client_ip
    else if scope == "session"
    then session_identity req
    else if scope == "global"
    then []
    else req.client_ip
