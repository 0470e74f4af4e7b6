-- ===== src/Base/Text.antt =====
-- Go strings that the program walks: lists of bytes.
use Prim.Native.Nat.{ℕ, suc, ◌-◌, ◌≤◌}
use Prim.Native.Char.{code}
use Prim.Native.String.{String}
use mathlib.Core.Path.{◌≡◌, refl}
use mathlib.Core.Logic.{◌↔◌, ◌≢◌}
use mathlib.Core.Bool.{Bool, true, false, ◌&&◌}
use mathlib.Core.Option.{Option, none, some}
use mathlib.Core.List.{List, [], ◌∷◌, ◌++◌}
use native.Mathlib.Omega.{arith}
use custom_waf.Base.Tests.{eqb, leb, if◌then◌else◌}
use custom_waf.Base.Lists.{length, drop}
use custom_waf.Base.Class.{Eq}

abbrev pub Bytes : Type 0
Bytes = List ℕ

-- The bytes of an ASCII literal. `String` has its own `[]` and `∷`.
abbrev pub bytes : String → Bytes
bytes String.[] = []
bytes (String.◌∷◌ c s) = code c ∷ bytes s

unfoldable pub bytes_beq : Bytes → Bytes → Bool
bytes_beq [] [] = true
bytes_beq [] (y ∷ ys) = false
bytes_beq (x ∷ xs) [] = false
bytes_beq (x ∷ xs) (y ∷ ys) = eqb x y && bytes_beq xs ys

pub bytes_beq_iff : (s t : Bytes) → (bytes_beq s t ≡ true) ↔ (s ≡ t)
unfolding bytes_beq
bytes_beq_iff [] [] = ground arith
bytes_beq_iff [] (y ∷ ys) = ground arith
bytes_beq_iff (x ∷ xs) [] = ground arith
bytes_beq_iff (x ∷ xs) (y ∷ ys) = ground (arith, bytes_beq_iff xs ys)

pub bytes_beq_ne : (s t : Bytes) → s ≢ t → bytes_beq s t ≡ false
bytes_beq_ne s t h = ground (arith, bytes_beq_iff s t)

pub bytes_beq_self : (s : Bytes) → bytes_beq s s ≡ true
bytes_beq_self s = (bytes_beq_iff s s).1 refl

instance abbrev pub Bytes_eq : Eq Bytes
Bytes_eq = record { beq = bytes_beq; beq_iff = bytes_beq_iff }

-- `strings.HasPrefix(s, p)`
unfoldable pub has_prefix : Bytes → Bytes → Bool
has_prefix s [] = true
has_prefix [] (y ∷ ys) = false
has_prefix (x ∷ xs) (y ∷ ys) = eqb x y && has_prefix xs ys

-- `strings.HasSuffix(s, t)`
unfoldable pub has_suffix : Bytes → Bytes → Bool
has_suffix s t = leb (length t) (length s) && bytes_beq (drop (length s - length t) s) t

abbrev pub shift : Option ℕ → Option ℕ
shift none = none
shift (some i) = some (suc i)

-- `strings.Index(s, t)`: where the leftmost occurrence starts.
unfoldable pub index_of : Bytes → Bytes → Option ℕ
index_of [] t = if has_prefix [] t then some 0 else none
index_of (x ∷ xs) t =
    let rest = shift (index_of xs t) in if has_prefix (x ∷ xs) t then some 0 else rest

-- A prefix splits the string.
pub split_of_prefix : (s p : Bytes) → has_prefix s p ≡ true → s ≡ p ++ drop (length p) s
unfolding has_prefix
split_of_prefix s [] h = refl
split_of_prefix [] (y ∷ ys) h = cc
split_of_prefix (x ∷ xs) (y ∷ ys) h = ground (arith, split_of_prefix xs ys)

pub has_prefix-append : (p t : Bytes) → has_prefix (p ++ t) p ≡ true
unfolding has_prefix
has_prefix-append [] t = refl
has_prefix-append (x ∷ xs) t = ground (arith, has_prefix-append xs t)

pub has_prefix-length : (s p : Bytes) → has_prefix s p ≡ true → length p ≤ length s
unfolding has_prefix
has_prefix-length s [] h = omega arith
has_prefix-length [] (y ∷ ys) h = cc
has_prefix-length (x ∷ xs) (y ∷ ys) h = ground (arith, has_prefix-length xs ys)

-- Two prefixes of one string that have one length are equal.
pub prefix_unique :
    (s p q : Bytes) → has_prefix s p ≡ true → has_prefix s q ≡ true → length p ≡ length q → p ≡ q
unfolding has_prefix
prefix_unique s [] [] hp hq e = refl
prefix_unique s [] (y ∷ ys) hp hq e = absurd (omega arith)
prefix_unique s (y ∷ ys) [] hp hq e = absurd (omega arith)
prefix_unique [] (x ∷ p) (y ∷ q) hp hq e = cc
prefix_unique (z ∷ s) (x ∷ p) (y ∷ q) hp hq e = ground (arith, prefix_unique s p q)

pub has_prefix_self : (p : Bytes) → has_prefix p p ≡ true
unfolding has_prefix
has_prefix_self [] = refl
has_prefix_self (x ∷ xs) = ground (arith, has_prefix_self xs)
