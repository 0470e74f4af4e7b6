-- ===== src/Notifier/Types.antt =====
-- The data of internal/notifier/notifier.go. Times are nanoseconds, of which 0 is the zero time;
-- a date that is only shown is the time it is made of. Counters do not wrap.
use custom_waf.Base.{ℕ, Bool, List, ℤ, Bytes}

pub record Event (F : Type 0) : Type 0 where
  pub kind : Bytes
  pub timestamp : ℕ
  pub decision : Bytes
  pub severity : Bytes
  pub client_ip : Bytes
  pub method : Bytes
  pub host : Bytes
  pub path : Bytes
  pub reason : Bytes
  pub rule_id : Bytes
  pub score : F
  pub user_agent : Bytes
  pub request_id : Bytes

pub record DestStats : Type 0 where
  pub sent : ℕ
  pub failed : ℕ
  pub last_test_result : Bytes
  pub last_test_at : ℕ
  pub last_error : Bytes
  pub last_sent_at : ℕ

pub record SlackDestination : Type 0 where
  pub id : Bytes
  pub name : Bytes
  pub enabled : Bool
  pub webhook_url : Bytes
  pub channel : Bytes
  pub username : Bytes
  pub message_template : Bytes
  pub stats : DestStats

pub record EmailDestination : Type 0 where
  pub id : Bytes
  pub name : Bytes
  pub enabled : Bool
  pub host : Bytes
  pub port : ℤ
  pub username : Bytes
  pub password : Bytes
  pub from_address : Bytes
  pub recipients : List Bytes
  pub use_tls : Bool
  pub subject_template : Bytes
  pub body_template : Bytes
  pub stats : DestStats

pub record WebhookDestination : Type 0 where
  pub id : Bytes
  pub name : Bytes
  pub enabled : Bool
  pub url : Bytes
  pub method : Bytes
  pub headers : List (Bytes × Bytes)
  pub payload_template : Bytes
  pub stats : DestStats

pub record NotifierConfig : Type 0 where
  pub enabled : Bool
  pub min_severity : Bytes
  pub throttle_seconds : ℤ
  pub timeout : ℤ
  pub send_request_events : Bool
  pub send_system_events : Bool
  pub slack : List SlackDestination
  pub email : List EmailDestination
  pub webhook : List WebhookDestination

-- `atomicStats`, the last error and the last time being empty or 0 where nothing is stored.
pub record NotifierStats : Type 0 where
  pub queued : ℕ
  pub sent : ℕ
  pub failed : ℕ
  pub throttled : ℕ
  pub below_sev : ℕ
  pub slack_sent : ℕ
  pub email_sent : ℕ
  pub webhook_ok : ℕ
  pub last_err : Bytes
  pub last_sent_at : ℕ

-- The oldest event of the queue comes first. The channel that stops the worker is left out.
pub record Notifier (F : Type 0) : Type 0 where
  pub cfg : NotifierConfig
  pub queue : List (Event F)
  pub dedup : List (Bytes × ℕ)
  pub stats : NotifierStats
