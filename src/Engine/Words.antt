-- ===== src/Engine/Words.antt =====
-- The word search of internal/engine/operators.go finds the leftmost whole word.
use custom_waf.Base.{
  ltb→lt, ℕ, zero, suc, ◌+◌, ◌-◌, ◌≤◌, ◌<◌, ◌≡◌, refl, sym, ap, ◌∙◌, ◌≢◌, inl, inr, Bool, true,
  false, ◌&&◌, Option, none, some, [], ◌∷◌, arith, Bytes, Bytes_eq, String_eq, ℕ_eq, ltb,
  Bool-cases, Option-cases, length,
}
use custom_waf.Base.{has_prefix, index_of, drop}
use mathlib.Core.Path.{subst}
use custom_waf.Engine.Operators.{is_word_boundary, scan_word}

drop-nil : (j : ℕ) → drop {A = ℕ} j [] ≡ []
drop-nil zero = refl
drop-nil (suc j) = refl

drop-drop : (i j : ℕ) (s : Bytes) → drop j (drop i s) ≡ drop (i + j) s
drop-drop zero j s = let e : 0 + j ≡ j = omega arith in rw e
drop-drop (suc i) j [] = drop-nil j ∙ sym (drop-nil (suc i + j))
drop-drop (suc i) j (x ∷ s) =
    let e : suc i + j ≡ suc (i + j) = omega arith in rw e (drop-drop i j s)

length-drop : (i : ℕ) (s : Bytes) → length (drop i s) ≡ length s - i
length-drop zero s = omega arith
length-drop (suc i) [] = omega arith
length-drop (suc i) (x ∷ s) = omega (arith, length-drop i s)

-- Where the search finds nothing, no occurrence starts anywhere.
index_of-none : (s t : Bytes) (j : ℕ) → index_of s t ≡ none → has_prefix (drop j s) t ≡ false
unfolding index_of
index_of-none [] t j h = rw (drop-nil j) (ground arith)
index_of-none (x ∷ s) t zero h = ground arith
index_of-none (x ∷ s) t (suc j) h = index_of-none s t j (ground arith)

-- What it finds is an occurrence, and none starts before it.
index_of-some :
    (s t : Bytes) (k : ℕ)
    → index_of s t ≡ some k
    → (has_prefix (drop k s) t ≡ true) × ((j : ℕ) → j < k → has_prefix (drop j s) t ≡ false)
unfolding index_of
index_of-some [] t zero h = (ground arith, λ j l. elim l [ ])
index_of-some [] t (suc k) h = ground arith
index_of-some (x ∷ s) t zero h = (ground arith, λ j l. elim l [ ])
index_of-some (x ∷ s) t (suc k) h =
    let later = index_of-some s t k (ground arith) in (later.0, before later.1)
  where
    before :
        ((j : ℕ) → j < k → has_prefix (drop j s) t ≡ false)
        → (j : ℕ) → j < suc k
        → has_prefix (drop j (x ∷ s)) t ≡ false
    before f zero l = ground arith
    before f (suc j) l = f j (omega arith)

-- A whole word starts at the position.
abbrev pub occurs : Bytes → Bytes → ℕ → Bool
occurs w input j = has_prefix (drop j input) w && is_word_boundary input j (length w)

-- The leftmost whole word from `i` on, or that there is none.
abbrev pub IsLeftmost : Bytes → Bytes → ℕ → Option ℕ → Type 0
IsLeftmost w input i none = (k : ℕ) → i ≤ k → occurs w input k ≡ false
IsLeftmost w input i (some j) =
    (i ≤ j) × (occurs w input j ≡ true) × ((k : ℕ) → i ≤ k → k < j → occurs w input k ≡ false)

has_prefix-nil : (w : Bytes) → w ≢ [] → has_prefix [] w ≡ false
unfolding has_prefix
has_prefix-nil [] h = absurd (h refl)
has_prefix-nil (x ∷ w) h = refl

-- An occurrence of a word that is not empty starts before the end.
in_range : (w s : Bytes) (k : ℕ) → w ≢ [] → has_prefix (drop k s) w ≡ true → k < length s
in_range w [] k ne h =
    let e : has_prefix [] w ≡ true = subst (λ l. has_prefix l w ≡ true) (drop-nil k) h in
    absurd (ground (arith, has_prefix-nil w ne))
in_range w (x ∷ s) zero ne h = omega arith
in_range w (x ∷ s) (suc k) ne h = omega (arith, in_range w s k ne h)

module _ (w input : Bytes) (ne : w ≢ []) where
  -- Positions in the rest of the input are positions in the input.
  none_left : (i k : ℕ) → index_of (drop i input) w ≡ none → i ≤ k → occurs w input k ≡ false
  none_left i k h l =
      let e : i + (k - i) ≡ k = omega arith in
      let p = index_of-none (drop i input) w (k - i) h in
      ground (arith, p, drop-drop i (k - i) input, e)

  -- Before the first occurrence in the rest there is none.
  none_before :
      (i k j : ℕ)
      → index_of (drop i input) w ≡ some k
      → i ≤ j
      → j < i + k
      → occurs w input j ≡ false
  none_before i k j h l b =
      let e : i + (j - i) ≡ j = omega arith in
      let p = (index_of-some (drop i input) w k h).1 (j - i) (omega arith) in
      ground (arith, p, drop-drop i (j - i) input, e)

  starts_there :
      (i k : ℕ) → index_of (drop i input) w ≡ some k → has_prefix (drop (i + k) input) w ≡ true
  starts_there i k h = ground (arith, (index_of-some (drop i input) w k h).0, drop-drop i k input)

  extend :
      (i i' : ℕ) (o : Option ℕ)
      → i ≤ i'
      → ((k : ℕ) → i ≤ k → k < i' → occurs w input k ≡ false)
      → IsLeftmost w input i' o
      → IsLeftmost w input i o
  extend i i' none l gap h = λ k ik. elim (Bool-cases (ltb k i')) [
    | inl y ↦ gap k ik (ltb→lt k i' y)
    | inr n ↦ h k (ground arith)
  ]
  extend i i' (some j) l gap (ij, hit, first) = (
    omega arith,
    hit,
    λ k ik kj. elim (Bool-cases (ltb k i')) [
      | inl y ↦ gap k ik (ltb→lt k i' y)
      | inr n ↦ first k (ground arith) kj
    ],
  )

  scan_none :
      (fuel i : ℕ) (rest : Bytes)
      → index_of rest w ≡ none
      → scan_word (suc fuel) w input i rest ≡ none
  unfolding scan_word
  scan_none fuel i rest h = ground arith

  scan_hit :
      (fuel i k : ℕ) (rest : Bytes)
      → index_of rest w ≡ some k
      → is_word_boundary input (i + k) (length w) ≡ true
      → scan_word (suc fuel) w input i rest ≡ some (i + k)
  unfolding scan_word
  scan_hit fuel i k rest h b = ground arith

  scan_next :
      (fuel i k : ℕ) (rest : Bytes)
      → index_of rest w ≡ some k
      → is_word_boundary input (i + k) (length w) ≡ false
      → scan_word (suc fuel) w input i rest ≡ scan_word fuel w input (i + k + 1) (drop (k + 1) rest)
  unfolding scan_word
  scan_next fuel i k rest h b = ground arith

  gap :
      (i k : ℕ)
      → index_of (drop i input) w ≡ some k
      → is_word_boundary input (i + k) (length w) ≡ false
      → (j : ℕ) → i ≤ j
      → j < i + k + 1
      → occurs w input j ≡ false
  gap i k s b j ij jk = elim (Bool-cases (ltb j (i + k))) [
    | inl y ↦ none_before i k j s ij (ltb→lt j (i + k) y)
    | inr n ↦ let e : j ≡ i + k = ground arith in rw e (ground arith)
  ]

  scan_word-IsLeftmost_from :
      (fuel i : ℕ)
      → length (drop i input) < fuel
      → IsLeftmost w input i (scan_word fuel w input i (drop i input))
  scan_word-IsLeftmost_from zero i l = elim l [ ]
  scan_word-IsLeftmost_from (suc fuel) i l = elim (Option-cases (index_of (drop i input) w)) [
    | inl n ↦
        subst (IsLeftmost w input i) (sym (scan_none fuel i (drop i input) n))
          (λ k h. none_left i k n h)
    | inr (k, s) ↦ elim (Bool-cases (is_word_boundary input (i + k) (length w))) [
      | inl y ↦
          subst (IsLeftmost w input i) (sym (scan_hit fuel i k (drop i input) s y))
            (omega arith, ground (arith, starts_there i k s), λ j ij jk. none_before i k j s ij jk)
      | inr b ↦
          let e : drop (k + 1) (drop i input) ≡ drop (i + k + 1) input =
            drop-drop i (k + 1) input ∙ ap (λ n. drop n input) (omega arith) in
          let shorter : length (drop (i + k + 1) input) < fuel = omega (
            arith,
            length-drop i input,
            length-drop (i + k + 1) input,
            in_range w (drop i input) k ne (index_of-some (drop i input) w k s).0,
          ) in
          subst (IsLeftmost w input i)
            (sym
              (scan_next fuel i k (drop i input) s b ∙ ap (scan_word fuel w input (i + k + 1)) e))
            (extend i (i + k + 1) _ (omega arith) (gap i k s b)
              (scan_word-IsLeftmost_from fuel (i + k + 1) shorter))
    ]
  ]

-- The search for one word that is not empty returns the leftmost place where it stands as a whole
-- word, and nothing only if it stands nowhere as one: the fuel, one more than the length of the
-- input, is enough.
pub scan_word-IsLeftmost :
    (w input : Bytes)
    → w ≢ []
    → IsLeftmost w input 0 (scan_word (suc (length input)) w input 0 input)
scan_word-IsLeftmost w input ne =
    scan_word-IsLeftmost_from w input ne (suc (length input)) 0 (omega arith)
