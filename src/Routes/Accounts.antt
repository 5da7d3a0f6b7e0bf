-- ===== src/Routes/Accounts.antt =====
-- app/api/routes/billing.py with app/schemas/billing.py: a partner's balance and usage, and the
-- administration of accounts and prices. `datetime.fromisoformat`, `isoformat` and `repr` are
-- parameters; `None` of the first is its `ValueError`.
use ai_generation_api.Prelude.{
  ℕ, String, ◌<>◌, Option, none, some, List, map, ◌==◌, string_eq, if◌then◌else◌,
}
use ai_generation_api.Prelude.Int.{ℤ, pos, leb_ℤ}
use ai_generation_api.Errors.{raised, validation, not_found, other}
use ai_generation_api.Exec.{Result, ok, err, Exec, pure, gets, lift, ◌>>=◌, ◌>>◌, raise_if}
use ai_generation_api.Value.{Fields}
use ai_generation_api.Models.{ApiKey, ApiKey_keyed, EntryType, BillingLedger}
use ai_generation_api.Models.Table
use ai_generation_api.Session.{Session}
use ai_generation_api.BillingRepo.{get_balance}
use ai_generation_api.BillingRepo.Usage.{UsageSummary, usage_summary, list_ledger}
use ai_generation_api.Billing
use ai_generation_api.ApiKeyRepo.{get_api_key}
use ai_generation_api.Pricing
use ai_generation_api.Pricing.{PricingRegistry, PricingFile}
use ai_generation_api.Security.{Jwt, require_internal_token}
use ai_generation_api.Routes.{Request}

pub record LedgerEntry : Type 0 where
  pub id : String
  pub entry_type : EntryType
  pub amount_credits : ℤ
  pub balance_after : ℤ
  pub task_id : Option String
  pub note : Option String
  pub created_at : String

pub record UsageResponse : Type 0 where
  pub summary : UsageSummary
  pub entries : List LedgerEntry

pub record TopupRequest : Type 0 where
  pub amount_credits : ℤ
  pub note : Option String

pub record TopupResponse : Type 0 where
  pub api_key_id : String
  pub balance_credits : ℤ

pub record AdminBillingResponse : Type 0 where
  pub api_key_id : String
  pub balance_credits : ℤ
  pub usage_summary : UsageSummary
  pub recent_ledger : List LedgerEntry

-- What the routes are built from.
pub record Desk : Type 0 where
  pub hash_api_key : String → String
  pub api_key_header : String
  pub jwt : Jwt
  pub internal_secret : String
  pub fromisoformat : String → Option ℕ
  pub isoformat : ℕ → String
  pub quoted : String → String

module _ (v : Desk) where
  -- `BillingLedger.to_public`, as the schema `LedgerEntry` takes it.
  abbrev pub to_public : BillingLedger → LedgerEntry
  to_public r = record {
    id = r.id;
    entry_type = r.entry_type;
    amount_credits = r.amount_credits;
    balance_after = r.balance_after;
    task_id = r.task_id;
    note = r.note;
    created_at = v.isoformat r.created_at;
  }

  abbrev or_invalid_date : String → Option ℕ → Result (Option ℕ)
  or_invalid_date value none = err (raised validation ("invalid datetime: " <> v.quoted value))
  or_invalid_date value (some t) = ok (some t)

  -- `_parse_dt`
  unfoldable pub parse_dt : Option String → Result (Option ℕ)
  parse_dt none = ok none
  parse_dt (some value) =
      if value == "" then ok none else or_invalid_date value (v.fromisoformat value)

  abbrev pub caller : Request → Exec Session ApiKey
  caller request = get_api_key v.hash_api_key v.api_key_header request.api_key

  -- The route `get_balance`.
  unfoldable pub read_balance : Request → Exec Session ℤ
  read_balance request = do key ← caller request; get_balance (some key.id)

  -- `get_usage`; `list_ledger` has a limit of 200 by default.
  unfoldable pub get_usage : Request → Option String → Option String → Exec Session UsageResponse
  unfolding parse_dt
  get_usage request from_text to_text = do
    key ← caller request
    frm ← lift (parse_dt from_text)
    to ← lift (parse_dt to_text)
    gets (λ s. record {
      summary = usage_summary s.current key.id frm to;
      entries = map to_public (list_ledger s.current key.id frm to 200);
    })

  abbrev pub granted : Result Fields → Result (Unit {0})
  granted (ok claims) = ok tt
  granted (err e) = err e

  -- The dependency of the admin routes; the claims are not read.
  abbrev pub admin : {A : Type 0} → Request → ℕ → Exec A Unit
  admin request now =
      lift (granted (require_internal_token v.jwt v.internal_secret request.authorization now))

  -- The route `topup`; pydantic refuses a body whose amount is not positive, after the guard.
  unfoldable pub post_topup : Request → String → TopupRequest → ℕ → Exec Session TopupResponse
  post_topup request api_key_id body now = do
    admin request now
    raise_if (leb_ℤ body.amount_credits (pos 0)) (other "RequestValidationError")
    new_balance ← Billing.topup api_key_id body.amount_credits body.note
    pure (record { api_key_id = api_key_id; balance_credits = new_balance })

  abbrev shown_account : String → Session → Option ApiKey → Result AdminBillingResponse
  shown_account api_key_id s none = err (raised not_found "api key not found")
  shown_account api_key_id s (some key) = ok (record {
    api_key_id = api_key_id;
    balance_credits = key.balance_credits;
    usage_summary = usage_summary s.current api_key_id none none;
    recent_ledger = map to_public (list_ledger s.current api_key_id none none 50);
  })

  -- `admin_view`
  unfoldable pub admin_view : Request → String → ℕ → Exec Session AdminBillingResponse
  admin_view request api_key_id now = do
    admin request now
    λ s. (shown_account api_key_id s (Table.get api_key_id s.current.api_keys), s)

  -- `reload_pricing`, with what the file of prices holds; it replies with the number of prices.
  unfoldable pub reload_pricing : Request → PricingFile → ℕ → Exec PricingRegistry ℕ
  reload_pricing request file now = do admin request now; Pricing.reload file
