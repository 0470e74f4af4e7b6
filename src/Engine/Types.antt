-- ===== src/Engine/Types.antt =====
-- The data of internal/engine/types.go, over a type of floats `F`. A string that the code only
-- compares with literals is a `String`; identifiers, labels, categories and input are bytes.
use custom_waf.Base.{
  ℕ, ℤ, Bool, Bytes, String, List, Option, Float64, if◌then◌else◌, ◌==◌, String_eq,
}

pub record RuleInfo : Type 0 where
  pub category : Bytes
  pub severity : String
  pub description : Bytes

pub record RuleWhen (F : Type 0) : Type 0 where
  pub methods : List Bytes
  pub path_prefix : List Bytes
  pub path_exclude : List Bytes
  pub min_score : F
  pub max_score : F
  pub require_labels : List Bytes
  pub exclude_labels : List Bytes

pub record InputSel : Type 0 where
  pub source : String
  pub name : Bytes

pub record Pattern : Type 0 where
  pub type : String
  pub value : Bytes
  pub values : List Bytes
  pub flags : Bytes
  pub negate : Bool

pub record RuleDetect : Type 0 where
  pub logic : String
  pub patterns : List Pattern

pub record MlConfirm (F : Type 0) : Type 0 where
  pub enabled : Bool
  pub input : Bytes
  pub min_confidence : F
  pub on_attack_add : F
  pub on_normal_subtract : F

pub record TrackCfg (F : Type 0) : Type 0 where
  pub enabled : Bool
  pub scope : String
  pub counter : Bytes
  pub ttl_minutes : ℤ
  pub threshold : ℤ
  pub on_threshold_score : F
  pub on_threshold_labels : List Bytes

pub record RuleAction (F : Type 0) : Type 0 where
  pub score : F
  pub labels : List Bytes
  pub log : Bool
  pub block : Bool
  pub ml_confirm : Option (MlConfirm F)
  pub track : Option (TrackCfg F)

pub record RuleExcept : Type 0 where
  pub ips : List Bytes
  pub paths : List Bytes
  pub path_prefixes : List Bytes
  pub user_agents : List Bytes
  pub labels : List Bytes

-- A compiled regular expression is the function that finds the start of its first match.
pub record CompiledRule (F : Type 0) : Type 0 where
  pub regexes : List (Option (Bytes → Option ℕ))
  pub wordlists : List (List Bytes)
  pub numerics : List F
  pub sev_mul : F

pub record Rule (F : Type 0) : Type 0 where
  pub id : Bytes
  pub version : Bytes
  pub enabled : Bool
  pub info : RuleInfo
  pub when : RuleWhen F
  pub inspect : List InputSel
  pub transforms : List Bytes
  pub detect : RuleDetect
  pub action : RuleAction F
  pub except : RuleExcept
  pub compiled : CompiledRule F

pub record ParsedRequest : Type 0 where
  pub raw_headers : List (Bytes × List Bytes)
  pub client_ip : Bytes
  pub method : Bytes
  pub user_agent : Bytes
  pub content_type : Bytes
  pub cookies : List (Bytes × Bytes)
  pub normalized_path : Bytes
  pub normalized_query : Bytes
  pub normalized_body : Bytes

-- The time of the match is left out.
pub record MatchResult (F : Type 0) : Type 0 where
  pub rule_id : Bytes
  pub rule_name : Bytes
  pub matched_on : Bytes
  pub pattern : Bytes
  pub value : Bytes
  pub offset : ℤ
  pub score : F
  pub severity : String
  pub category : Bytes
  pub labels : List Bytes

-- The reason and the duration of the evaluation, which are only shown, are left out.
pub record EvaluationResult (F : Type 0) : Type 0 where
  pub total_score : F
  pub matched_rules : List (MatchResult F)
  pub decision : String
  pub bucket_scores : List (Bytes × F)
  pub labels : List Bytes

unfoldable pub severity_multiplier : {F : Type 0} ⦃fl : Float64 F⦄ → String → F
severity_multiplier ⦃fl⦄ sev =
    if sev == "critical"
    then fl.lit 2 0
    else if sev == "high"
    then fl.lit 15 1
    else if sev == "medium"
    then fl.lit 1 0
    else if sev == "low"
    then fl.lit 5 1
    else if sev == "info"
    then fl.lit 0 0
    else fl.lit 1 0
