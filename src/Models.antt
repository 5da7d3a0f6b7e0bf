-- ===== src/Models.antt =====
-- The rows of app/models/: one record for each table, with the columns that the code reads or
-- writes. A status that the code only ever sets to one of a few literals is an enumeration. The
-- stamps of `TimestampMixin` are kept for the ledger, whose queries read them.
pub mod Table
use ai_generation_api.Prelude.{ℕ, String, Option, Bool, List, Eq}
use ai_generation_api.Prelude.Int.{ℤ}
use ai_generation_api.Value.{Fields}
use Table.{Keyed}

-- app/models/api_key.py: active | suspended | expired
pub data KeyStatus : Type 0 where
  active suspended expired : KeyStatus

unfoldable pub KeyStatus-discrete : Discrete KeyStatus
KeyStatus-discrete = hlevel

instance abbrev pub KeyStatus_eq : Eq KeyStatus
KeyStatus_eq = record { dec = KeyStatus-discrete }

-- app/models/api_key.py
pub record ApiKey : Type 0 where
  pub id : String
  pub name : String
  pub key_hash : String
  pub callback_url : Option String
  pub user_id : Option String
  pub status : KeyStatus
  pub expires_at : Option ℕ
  pub balance_credits : ℤ
  pub price_overrides : Fields

-- app/models/task.py: queued | processing | completed | failed
pub data TaskState : Type 0 where
  queued processing completed failed : TaskState

-- app/models/task.py
pub record Task : Type 0 where
  pub id : String
  pub request_id : Option String
  pub task_type : String
  pub mode : String
  pub image_url : Option String
  pub reference_urls : List String
  pub driving_url : Option String
  pub mask_url : Option String
  pub user_id : Option String
  pub api_key_id : Option String
  pub callback_url : Option String
  pub meta : Fields
  pub status : TaskState
  pub progress : ℤ
  pub result_url : Option String
  pub error : Option String
  pub retries : ℕ
  pub generation_time_ms : Option ℕ
  pub price_credits : Option ℤ

-- app/models/billing_ledger.py: hold | refund | topup | adjust
pub data EntryType : Type 0 where
  hold refund topup adjust : EntryType

unfoldable pub EntryType-discrete : Discrete EntryType
EntryType-discrete = hlevel

instance abbrev pub EntryType_eq : Eq EntryType
EntryType_eq = record { dec = EntryType-discrete }

-- app/models/billing_ledger.py
pub record BillingLedger : Type 0 where
  pub id : String
  pub api_key_id : String
  pub task_id : Option String
  pub entry_type : EntryType
  pub amount_credits : ℤ
  pub balance_after : ℤ
  pub note : Option String
  pub created_at : ℕ

-- app/models/generation.py
pub record Generation : Type 0 where
  pub task_id : String
  pub provider : String
  pub model : Option String
  pub prompt : Option String
  pub params : Fields
  pub result_url : Option String
  pub duration_ms : Option ℕ

-- app/models/task_log.py
pub record TaskLog : Type 0 where
  pub task_id : String
  pub level : String
  pub event : String
  pub message : Option String
  pub detail : Fields

-- app/models/system_event.py
pub record SystemEvent : Type 0 where
  pub level : String
  pub source : String
  pub event : String
  pub message : Option String
  pub detail : Fields

-- app/models/webhook.py: pending | delivered | failed
pub data HookState : Type 0 where
  pending delivered failed : HookState

-- app/models/webhook.py
pub record Webhook : Type 0 where
  pub id : String
  pub task_id : String
  pub url : String
  pub payload : Fields
  pub status : HookState
  pub attempts : ℕ
  pub response_code : Option ℕ
  pub last_error : Option String

instance abbrev pub ApiKey_keyed : Keyed ApiKey
ApiKey_keyed = record { key = λ r. r.id }

instance abbrev pub Task_keyed : Keyed Task
Task_keyed = record { key = λ r. r.id }

instance abbrev pub Webhook_keyed : Keyed Webhook
Webhook_keyed = record { key = λ r. r.id }

-- The database.
pub record Tables : Type 0 where
  pub api_keys : List ApiKey
  pub tasks : List Task
  pub ledger : List BillingLedger
  pub generations : List Generation
  pub task_logs : List TaskLog
  pub system_events : List SystemEvent
  pub webhooks : List Webhook
