-- ===== src/Engine/Labels.antt =====
-- The labels of an evaluation in internal/engine/rule_engine.go.
use custom_waf.Base.{
  ◌≡◌, refl, false, ◌||◌, List, [], ◌∷◌, ◌++◌, arith, Bytes, Bytes_eq, String_eq, ℕ_eq, bytes_beq,
  bytes_beq_iff,
}
use custom_waf.Base.{any}
use custom_waf.Engine.Filter.{has_label}
use custom_waf.Engine.Evaluate.{add_label, add_labels}

-- Each label stands once.
abbrev pub Once : List Bytes → Type 0
Once [] = Unit
Once (l ∷ ls) = (has_label ls l ≡ false) × Once ls

any-append :
    (l k : Bytes) (ls : List Bytes)
    → any (bytes_beq l) (ls ++ (k ∷ [])) ≡ (any (bytes_beq l) ls || bytes_beq l k)
unfolding any
any-append l k [] = ground arith
any-append l k (x ∷ ls) = ground (arith, any-append l k ls)

Once-append :
    (l : Bytes) (ls : List Bytes) → Once ls → has_label ls l ≡ false → Once (ls ++ (l ∷ []))
unfolding any
Once-append l [] o h = (refl, tt)
Once-append l (x ∷ ls) o h =
    ground (arith, any-append x l ls, Once-append l ls o.1, bytes_beq_iff x l, bytes_beq_iff l x)

add_label-Once : (ls : List Bytes) (l : Bytes) → Once ls → Once (add_label ls l)
unfolding add_label
add_label-Once ls l o = ground (arith, Once-append l ls o)

pub add_labels-Once : (ls ks : List Bytes) → Once ls → Once (add_labels ls ks)
unfolding add_labels
add_labels-Once ls [] o = o
add_labels-Once ls (k ∷ ks) o = add_labels-Once (add_label ls k) ks (add_label-Once ls k o)
