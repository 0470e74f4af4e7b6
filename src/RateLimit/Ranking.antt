-- ===== src/RateLimit/Ranking.antt =====
-- `GetTopClients` of internal/ratelimit/ratelimit.go: its bubble sort ranks the clients.
use custom_waf.Base.{
  ℕ, zero, suc, ◌-◌, ◌≤◌, ◌≡◌, refl, ap, ◌∙◌, List, [], ◌∷◌, ◌++◌, All, length, take, arith, ltb,
  Bool-cases, inl, inr,
}
use mathlib.Core.Path.{subst, sym}
use mathlib.Core.List.{Perm, append-nil}
use mathlib.Core.List.Perm
use custom_waf.RateLimit.Types.{RateLimiter}
use custom_waf.RateLimit.Admin.{
  ClientStats, bubble, bubble_sort, get_all_client_stats, get_top_clients,
}

bubble-perm : (n : ℕ) (l : List ClientStats) → Perm (bubble n l) l
unfolding bubble
bubble-perm zero l = Perm.refl l
bubble-perm (suc n) [] = Perm.refl []
bubble-perm (suc n) (x ∷ []) = Perm.refl (x ∷ [])
bubble-perm (suc n) (x ∷ y ∷ l) = elim (Bool-cases (ltb x.request_count y.request_count)) [
  | inl h ↦ rw h (Perm.trans (Perm.cons y (bubble-perm n (x ∷ l))) (Perm.swap x y l))
  | inr h ↦ rw h (Perm.cons x (bubble-perm n (y ∷ l)))
]

bubble_sort-perm : (n : ℕ) (l : List ClientStats) → Perm (bubble_sort n l) l
unfolding bubble_sort
bubble_sort-perm zero l = Perm.refl l
bubble_sort-perm (suc n) l =
    Perm.trans (bubble_sort-perm n (bubble (suc n) l)) (bubble-perm (suc n) l)

-- Nobody in the list has more requests than `x`.
abbrev pub Leads : ClientStats → List ClientStats → Type 0
Leads x l = All (λ y. y.request_count ≤ x.request_count) l

-- Each entry leads those behind it.
abbrev pub IsRanked : List ClientStats → Type 0
IsRanked [] = Unit
IsRanked (x ∷ l) = Leads x l × IsRanked l

-- What holds of all entries still does after a pass.
bubble-All :
    (P : ClientStats → Type 0) (n : ℕ) (l : List ClientStats) → All P l → All P (bubble n l)
unfolding bubble
bubble-All P zero l h = h
bubble-All P (suc n) [] h = h
bubble-All P (suc n) (x ∷ []) h = h
bubble-All P (suc n) (x ∷ y ∷ l) (hx, (hy, h)) =
    elim (Bool-cases (ltb x.request_count y.request_count)) [
      | inl e ↦ rw e (hy, bubble-All P n (x ∷ l) (hx, h))
      | inr e ↦ rw e (hx, bubble-All P n (y ∷ l) (hy, h))
    ]

-- A pass of `n` comparisons does not reach behind the first `n + 1` entries.
bubble-append :
    (n : ℕ) (a s : List ClientStats) → length a ≡ suc n → bubble n (a ++ s) ≡ bubble n a ++ s
unfolding bubble
bubble-append zero a s h = refl
bubble-append (suc n) [] s h = absurd (omega arith)
bubble-append (suc n) (x ∷ []) s h = absurd (omega arith)
bubble-append (suc n) (x ∷ y ∷ a) s h =
    ground (arith, bubble-append n (x ∷ a) s (omega arith), bubble-append n (y ∷ a) s (omega arith))

-- After it the last entry has the fewest requests.
bubble_last :
    (n : ℕ) (a : List ClientStats)
    → length a ≡ suc n
    → (b : List ClientStats) × (m : ClientStats) × (bubble n a ≡ b ++ (m ∷ []))
      × (length b ≡ n)
      × All (λ x. m.request_count ≤ x.request_count) b
      × All (λ x. m.request_count ≤ x.request_count) a
unfolding bubble
bubble_last zero [] h = absurd (omega arith)
bubble_last zero (x ∷ []) h = ([], x, refl, refl, tt, (omega arith, tt))
bubble_last zero (x ∷ y ∷ a) h = absurd (omega arith)
bubble_last (suc n) [] h = absurd (omega arith)
bubble_last (suc n) (x ∷ []) h = absurd (omega arith)
bubble_last (suc n) (x ∷ y ∷ a) h = elim (Bool-cases (ltb x.request_count y.request_count)) [
  | inl e ↦
      let (b, m, eq, len, lo, all) = bubble_last n (x ∷ a) (omega arith) in
      (y ∷ b, m, rw (e, eq), ap suc len, (ground arith, lo), (all.0, (ground arith, all.1)))
  | inr e ↦
      let (b, m, eq, len, lo, all) = bubble_last n (y ∷ a) (omega arith) in
      (x ∷ b, m, rw (e, eq), ap suc len, (ground arith, lo), (ground arith, (all.0, all.1)))
]

all_lead :
    (x m : ClientStats) (s : List ClientStats)
    → m.request_count ≤ x.request_count
    → Leads m s
    → Leads x s
all_lead x m [] h l = tt
all_lead x m (y ∷ s) h (p, l) = (omega arith, all_lead x m s h l)

-- The entries of the front lead `m` and all that `m` leads.
front-Leads :
    (b : List ClientStats) (m : ClientStats) (s : List ClientStats)
    → All (λ x. m.request_count ≤ x.request_count) b
    → Leads m s
    → All (λ x. Leads x (m ∷ s)) b
front-Leads [] m s h l = tt
front-Leads (x ∷ b) m s (p, h) l = ((p, all_lead x m s p l), front-Leads b m s h l)

last-Leads :
    (b : List ClientStats) (m : ClientStats) (s : List ClientStats)
    → All (λ x. Leads x s) (b ++ (m ∷ []))
    → Leads m s
last-Leads [] m s h = h.0
last-Leads (x ∷ b) m s h = last-Leads b m s h.1

append_one :
    (b : List ClientStats) (m : ClientStats) (s : List ClientStats)
    → (b ++ (m ∷ [])) ++ s ≡ b ++ (m ∷ s)
append_one [] m s = refl
append_one (x ∷ b) m s = ap (◌∷◌ x) (append_one b m s)

bubble_sort-IsRanked :
    (n : ℕ) (a s : List ClientStats)
    → length a ≡ suc n
    → IsRanked s
    → All (λ x. Leads x s) a
    → IsRanked (bubble_sort n (a ++ s))
unfolding bubble_sort
bubble_sort-IsRanked zero [] s h r d = absurd (omega arith)
bubble_sort-IsRanked zero (x ∷ []) s h r d = (d.0, r)
bubble_sort-IsRanked zero (x ∷ y ∷ a) s h r d = absurd (omega arith)
bubble_sort-IsRanked (suc n) a s h r d =
    let (b, m, eq, len, lo, all) = bubble_last (suc n) a h in
    let moved = subst (All (λ x. Leads x s)) eq (bubble-All (λ x. Leads x s) (suc n) a d) in
    let ml = last-Leads b m s moved in
    subst (λ l. IsRanked (bubble_sort n l))
      (sym (bubble-append (suc n) a s h ∙ ap (λ l. l ++ s) eq ∙ append_one b m s))
      (bubble_sort-IsRanked n b (m ∷ s) len (ml, r) (front-Leads b m s lo ml))

All-nothing : (a : List ClientStats) → All (λ x. Leads x []) a
All-nothing [] = tt
All-nothing (x ∷ a) = (tt, All-nothing a)

IsRanked-whole : (l : List ClientStats) → IsRanked (bubble_sort (length l - 1) l)
unfolding bubble_sort
IsRanked-whole [] = tt
IsRanked-whole (x ∷ l) =
    let e : suc (length l) - 1 ≡ length l = omega arith in
    rw e (
      subst (λ k. IsRanked (bubble_sort (length l) k)) (append-nil (x ∷ l))
        (bubble_sort-IsRanked (length l) (x ∷ l) [] refl tt (All-nothing (x ∷ l))))

-- The dashboard's ranking: some rearrangement of the statistics of all clients, in which nobody
-- stands before a client with more requests, cut after `n` entries.
pub get_top_clients-IsRanked :
    (rl : RateLimiter) (n : ℕ)
    → (l : List ClientStats) × Perm l (get_all_client_stats rl)
      × IsRanked l
      × (get_top_clients rl n ≡ take n l)
unfolding get_top_clients
get_top_clients-IsRanked rl n =
    let all_stats = get_all_client_stats rl in
    (
      bubble_sort (length all_stats - 1) all_stats,
      bubble_sort-perm (length all_stats - 1) all_stats,
      IsRanked-whole all_stats,
      refl,
    )
