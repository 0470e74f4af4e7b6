-- ===== src/Request/Types.antt =====
-- An HTTP request of net/http, as far as the program reads it, and the whole `ParsedRequest` of
-- internal/engine/types.go.
use custom_waf.Base.{
  ℕ, Bool, Option, none, some, List, [], ◌∷◌, ℤ, Bytes, Bytes_eq, String_eq, ℕ_eq, lookup,
}
use custom_waf.Engine.Types.{ParsedRequest}

-- The keys of the headers are in net/http's canonical form. `read_body n` is what `io.ReadAll` of
-- the first n bytes of the body gives, none if it fails; a length that is not declared is -1.
pub record HttpRequest : Type 0 where
  pub method : Bytes
  pub url_path : Bytes
  pub raw_query : Bytes
  pub proto : Bytes
  pub host : Bytes
  pub headers : List (Bytes × List Bytes)
  pub cookies : List (Bytes × Bytes)
  pub remote_addr : Bytes
  pub content_length : ℤ
  pub has_body : Bool
  pub read_body : ℕ → Option Bytes
  pub tls : Bool

-- The fields that the rules read, and the rest.
pub record FullRequest : Type 0 where
  pub parsed : ParsedRequest
  pub request_id : Bytes
  pub timestamp : ℕ
  pub raw_method : Bytes
  pub raw_path : Bytes
  pub raw_query : Bytes
  pub raw_body : Bytes
  pub header_count : ℕ
  pub protocol : Bytes
  pub host : Bytes
  pub body_size : ℕ

abbrev pub first_or_empty : Option (List Bytes) → Bytes
first_or_empty none = []
first_or_empty (some []) = []
first_or_empty (some (v ∷ vs)) = v

-- `r.Header.Get(name)`, for a name in canonical form.
unfoldable pub header_get : HttpRequest → Bytes → Bytes
header_get r name = first_or_empty (lookup name r.headers)
