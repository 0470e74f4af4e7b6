-- ===== src/Request/Normalizer.antt =====
-- internal/normalizer/normalizer.go. `unescape` is `url.QueryUnescape`, none for an error, and
-- `clean` is `path.Clean`.
use custom_waf.Base.{
  ℕ, zero, suc, Option, none, some, [], ◌∷◌, Bytes, Bytes_eq, String_eq, ℕ_eq, bytes_beq,
  if◌then◌else◌, eqb,
}
use custom_waf.Request.Types.{FullRequest}

pub record Codec : Type 0 where
  pub unescape : Bytes → Option Bytes
  pub clean : Bytes → Bytes

-- `multiDecode`: stop at an error or when nothing changes.
unfoldable pub multi_decode : Codec → ℕ → Bytes → Bytes
multi_decode k zero s = s
multi_decode k (suc rounds) s = elim (k.unescape s) [
  | none ↦ s
  | some decoded ↦
      let rest = multi_decode k rounds decoded in if bytes_beq decoded s then s else rest
]

abbrev pub max_decode_rounds : ℕ
max_decode_rounds = 3

-- `strings.ReplaceAll(p, "\\", "/")`
unfoldable pub forward_slashes : Bytes → Bytes
forward_slashes [] = []
forward_slashes (c ∷ s) = (if eqb c 92 then b'/' else c) ∷ forward_slashes s

-- `Path`
unfoldable pub normalize_path : Codec → Bytes → Bytes
unfolding multi_decode forward_slashes
normalize_path k p =
    if bytes_beq p [] then [] else k.clean (forward_slashes (multi_decode k max_decode_rounds p))

-- `Query`
unfoldable pub normalize_query : Codec → Bytes → Bytes
unfolding multi_decode
normalize_query k q = multi_decode k max_decode_rounds q

-- `Normalize`, which does not fail.
unfoldable pub normalize : Codec → FullRequest → FullRequest
unfolding normalize_path normalize_query
normalize k req = record req {
  parsed = record (req.parsed) {
    normalized_path = normalize_path k req.raw_path;
    normalized_query = normalize_query k req.raw_query;
    normalized_body = req.raw_body;
  };
}
