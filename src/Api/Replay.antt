-- ===== src/Api/Replay.antt =====
-- The restored ring of internal/api/logbuffer.go is the one that the entries would have left.
use custom_waf.Base.{
  ℕ, zero, suc, ◌+◌, ◌-◌, ◌%◌, ◌≤◌, ◌<◌, ◌≡◌, refl, sym, ap, ◌∙◌, ◌≢◌, inl, inr, Option, some, List,
  [], ◌∷◌, ◌++◌, map, arith, Bytes_eq, String_eq, ℕ_eq, if◌then◌else◌, ltb, Bool-cases, length,
  none, Bytes, bytes_beq, Option-cases, ltb→lt,
}
use custom_waf.Base.{drop, get_elem?, length-append}
use custom_waf.Api.Ring.{Circle, push, collect, scan}

one_more : (k i : ℕ) → suc k + i ≡ k + suc i
one_more k i = omega arith

-- The arithmetic of the array's indices, below the capacity and at it.
old_below :
    (head n i : ℕ)
    → head < 1000
    → n < 1000
    → i < n
    → ((((head + 1) % 1000 + 1000 - suc n) % 1000 + i) % 1000
        ≡ ((head + 1000 - n) % 1000 + i) % 1000)
      × (((head + 1000 - n) % 1000 + i) % 1000 ≢ head)
old_below head n i h l j = (omega arith, λ e. omega (arith, e))

new_below :
    (head n : ℕ)
    → head < 1000
    → n < 1000
    → (((head + 1) % 1000 + 1000 - suc n) % 1000 + n) % 1000 ≡ head
new_below head n h l = omega arith

old_full :
    (head i : ℕ)
    → head < 1000
    → i < 999
    → ((((head + 1) % 1000 + 1000 - 1000) % 1000 + i) % 1000
        ≡ ((head + 1000 - 1000) % 1000 + suc i) % 1000)
      × (((head + 1000 - 1000) % 1000 + suc i) % 1000 ≢ head)
old_full head i h j = (omega arith, λ e. omega (arith, e))

new_full : (head : ℕ) → head < 1000 → (((head + 1) % 1000 + 1000 - 1000) % 1000 + 999) % 1000 ≡ head
new_full head h = omega arith

module _ {A : Type 0} where
  get-append : (xs ys : List A) (i : ℕ) → i < length xs → get_elem? (xs ++ ys) i ≡ get_elem? xs i
  get-append [] ys i h = absurd (omega (arith, h))
  get-append (x ∷ xs) ys zero h = refl
  get-append (x ∷ xs) ys (suc i) h = get-append xs ys i (omega (arith, h))

  get-last : (xs : List A) (x : A) → get_elem? (xs ++ (x ∷ [])) (length xs) ≡ some x
  get-last [] x = refl
  get-last (y ∷ xs) x = get-last xs x

  get-drop : (xs : List A) (i : ℕ) → get_elem? (drop 1 xs) i ≡ get_elem? xs (suc i)
  get-drop [] i = refl
  get-drop (x ∷ xs) i = refl

  -- The loop that flattens reads the list that the array holds.
  pub collect-map :
      (q : List A) (ring : ℕ → Option A) (start k : ℕ)
      → ((i : ℕ) → i < length q → ring ((start + (k + i)) % 1000) ≡ get_elem? q i)
      → collect ring start k (length q) ≡ map some q
  unfolding collect
  collect-map [] ring start k h = refl
  collect-map (x ∷ q) ring start k h =
      let at = λ (t : ℕ). ring ((start + t) % 1000) in
      let none_more : k ≡ k + 0 = omega arith in
      let rest =
        collect-map q ring start (suc k)
          (λ i l. ap at (one_more k i) ∙ h (suc i) (omega (arith, l))) in
      λ j. (ap at none_more ∙ h 0 (omega arith)) j ∷ rest j

  -- Where the oldest entry stands.
  abbrev pub oldest : Circle A → ℕ
  oldest c = (c.head + 1000 - c.count) % 1000

  -- The array holds the list.
  pub record Holds (c : Circle A) (q : List A) : Type 0 where
    pub counted : c.count ≡ length q
    pub bounded : c.count ≤ 1000
    pub inside : c.head < 1000
    pub read : (i : ℕ) → i < length q → c.ring ((oldest c + i) % 1000) ≡ get_elem? q i

  -- `add`, on the entries themselves.
  abbrev pub add_entry : List A → A → List A
  add_entry q x =
      let longer = q ++ (x ∷ []) in if ltb 1000 (length longer) then drop 1 longer else longer

  push_head : (c : Circle A) (x : A) (k : ℕ) → k ≡ c.head → (push c x).ring k ≡ some x
  unfolding push
  push_head c x k e = ground arith

  push_other : (c : Circle A) (x : A) (k : ℕ) → k ≢ c.head → (push c x).ring k ≡ c.ring k
  unfolding push
  push_other c x k e = ground arith

  push-count :
      (c : Circle A) (x : A)
      → c.count ≤ 1000
      → (push c x).count ≡ (if ltb c.count 1000 then suc c.count else 1000)
  unfolding push
  push-count c x h = ground arith

  push-oldest :
      (c : Circle A) (x : A) (n : ℕ)
      → (push c x).count ≡ n
      → oldest (push c x) ≡ ((c.head + 1) % 1000 + 1000 - n) % 1000
  unfolding push
  push-oldest c x n e = ap (λ t. ((c.head + 1) % 1000 + 1000 - t) % 1000) e

  push-short :
      (c : Circle A) (q : List A) (x : A)
      → Holds c q
      → c.count < 1000
      → Holds (push c x) (q ++ (x ∷ []))
  push-short c q x h l =
      let n : (push c x).count ≡ suc c.count = push-count c x h.bounded ∙ ground arith in
      let o = push-oldest c x (suc c.count) n in
      let at = λ (t i : ℕ). (push c x).ring ((t + i) % 1000) in
      record {
        counted = omega (arith, n, length-append q (x ∷ []), h.counted);
        bounded = omega (arith, n, l);
        inside = unfold push in omega arith;
        read = λ i j. ap (λ t. at t i) o ∙ elim (Bool-cases (ltb i (length q))) [
          | inl y ↦
              let k : i < c.count = ground (arith, h.counted) in
              let b = old_below c.head c.count i h.inside l k in
              ap (push c x).ring b.0
              ∙ push_other c x _ b.1
              ∙ h.read i (ground arith)
              ∙ sym (get-append q (x ∷ []) i (ground arith))
          | inr m ↦
              let k : i ≡ length q = ground (arith, length-append q (x ∷ []), j) in
              let e : i ≡ c.count = omega (arith, k, h.counted) in
              ap (at _) e
              ∙ push_head c x _ (new_below c.head c.count h.inside l)
              ∙ sym (get-last q x)
              ∙ ap (get_elem? (q ++ (x ∷ []))) (sym k)
        ];
      }

  length-drop : (xs : List A) → length (drop 1 xs) ≡ length xs - 1
  length-drop [] = omega arith
  length-drop (x ∷ xs) = omega arith

  push-full :
      (c : Circle A) (q : List A) (x : A)
      → Holds c q
      → c.count ≡ 1000
      → Holds (push c x) (drop 1 (q ++ (x ∷ [])))
  push-full c q x h l =
      let n : (push c x).count ≡ 1000 = push-count c x h.bounded ∙ ground (arith, l) in
      let o = push-oldest c x 1000 n in
      let o' : oldest c ≡ (c.head + 1000 - 1000) % 1000 = ap (λ t. (c.head + 1000 - t) % 1000) l in
      let at = λ (t i : ℕ). (push c x).ring ((t + i) % 1000) in
      let grown = length-append q (x ∷ []) in
      let cut = length-drop (q ++ (x ∷ [])) in
      record {
        counted = omega (arith, n, grown, cut, h.counted, l);
        bounded = omega (arith, n);
        inside = unfold push in omega arith;
        read = λ i j. ap (λ t. at t i) o ∙ elim (Bool-cases (ltb i 999)) [
          | inl y ↦
              let k : i < 999 = ltb→lt i 999 y in
              let b = old_full c.head i h.inside k in
              let r = h.read (suc i) (omega (arith, k, h.counted, l)) in
              ap (push c x).ring b.0
              ∙ push_other c x _ b.1
              ∙ ap (λ t. c.ring ((t + suc i) % 1000)) (sym o')
              ∙ r
              ∙ sym (get-append q (x ∷ []) (suc i) (omega (arith, k, h.counted, l)))
              ∙ sym (get-drop (q ++ (x ∷ [])) i)
          | inr m ↦
              let k : i ≡ 999 = ground (arith, cut, grown, h.counted, l, j) in
              let e : suc i ≡ length q = omega (arith, k, h.counted, l) in
              ap (at _) k
              ∙ push_head c x _ (new_full c.head h.inside)
              ∙ sym (get-last q x)
              ∙ ap (get_elem? (q ++ (x ∷ []))) (sym e)
              ∙ sym (get-drop (q ++ (x ∷ [])) i)
        ];
      }

  push-Holds : (c : Circle A) (q : List A) (x : A) → Holds c q → Holds (push c x) (add_entry q x)
  push-Holds c q x h = elim (Bool-cases (ltb 1000 (length (q ++ (x ∷ []))))) [
    | inl y ↦
        let full : c.count ≡ 1000 =
          ground (arith, length-append q (x ∷ []), h.counted, h.bounded) in
        rw y (push-full c q x h full)
    | inr n ↦
        let short : c.count < 1000 =
          ground (arith, length-append q (x ∷ []), h.counted, h.bounded) in
        rw n (push-short c q x h short)
  ]

module _ {A : Type 0} (decode : Bytes → Option A) where
  -- What a line adds.
  abbrev pub add_decoded : List A → Option A → List A
  add_decoded q none = q
  add_decoded q (some x) = add_entry q x

  -- The entries that the lines hold, added one by one.
  unfoldable pub added : List A → List Bytes → List A
  added q [] = q
  added q (raw ∷ lines) = added (if bytes_beq raw [] then q else add_decoded q (decode raw)) lines

  pub scan-Holds :
      (lines : List Bytes) (c : Circle A) (q : List A)
      → Holds c q
      → Holds (scan decode c lines) (added q lines)
  unfolding scan added
  scan-Holds [] c q h = h
  scan-Holds (raw ∷ lines) c q h = elim (Bool-cases (bytes_beq raw [])) [
    | inl y ↦ rw y (scan-Holds lines c q h)
    | inr n ↦ elim (Option-cases (decode raw)) [
      | inl o ↦ rw (n, o) (scan-Holds lines c q h)
      | inr (x, o) ↦ rw (n, o) (scan-Holds lines (push c x) (add_entry q x) (push-Holds c q x h))
    ]
  ]
