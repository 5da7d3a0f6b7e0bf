-- ===== src/BillingRepo/Usage.antt =====
-- app/repositories/billing_repo.py: the two queries over a partner's ledger, `list_ledger` and
-- `usage_summary`.
use ai_generation_api.Prelude.{
  ℕ, String, Bool, true, ◌&&◌, Option, none, some, List, [], ◌∷◌, length, take, select, leb, ◌==◌,
  string_eq, if◌then◌else◌,
}
use ai_generation_api.Prelude.Int.{ℤ, pos, ◌+ℤ◌, ◌-ℤ◌}
use ai_generation_api.Models.{EntryType, EntryType_eq, hold, refund, BillingLedger, Tables}

abbrev since : Option ℕ → BillingLedger → Bool
since none r = true
since (some frm) r = leb frm r.created_at

abbrev until : Option ℕ → BillingLedger → Bool
until none r = true
until (some to) r = leb r.created_at to

-- The `WHERE` of both queries.
abbrev pub is_selected : String → Option ℕ → Option ℕ → BillingLedger → Bool
is_selected key frm to r = r.api_key_id == key && (since frm r && until to r)

-- `ORDER BY created_at DESC`; rows of one time keep their order.
unfoldable pub insert_desc : BillingLedger → List BillingLedger → List BillingLedger
insert_desc r [] = r ∷ []
insert_desc r (x ∷ xs) = if leb x.created_at r.created_at then r ∷ x ∷ xs else x ∷ insert_desc r xs

unfoldable pub order_desc : List BillingLedger → List BillingLedger
unfolding insert_desc
order_desc [] = []
order_desc (x ∷ xs) = insert_desc x (order_desc xs)

unfoldable pub list_ledger : Tables → String → Option ℕ → Option ℕ → ℕ → List BillingLedger
unfolding order_desc
list_ledger t key frm to limit = take limit (order_desc (select (is_selected key frm to) t.ledger))

unfoldable pub sum_amounts : List BillingLedger → ℤ
sum_amounts [] = pos 0
sum_amounts (r ∷ rs) = r.amount_credits +ℤ sum_amounts rs

pub record Totals : Type 0 where
  pub count : ℕ
  pub sum : ℤ

-- One line of `GROUP BY entry_type`, absent where no row has the type.
abbrev pub group_of : List BillingLedger → Option Totals
group_of [] = none
group_of (r ∷ rs) = some (record { count = length (r ∷ rs); sum = sum_amounts (r ∷ rs) })

abbrev pub totals_or_zero : Option Totals → Totals
totals_or_zero none = record { count = 0; sum = pos 0 }
totals_or_zero (some g) = g

pub record UsageSummary : Type 0 where
  pub generations_charged : ℕ
  pub refunds : ℕ
  pub spent_credits : ℤ
  pub by_type : EntryType → Option Totals

unfoldable pub usage_summary : Tables → String → Option ℕ → Option ℕ → UsageSummary
unfolding sum_amounts
usage_summary t key frm to =
    let rows = select (is_selected key frm to) t.ledger in
    let by_type = λ (e : EntryType). group_of (select (λ r. r.entry_type == e) rows) in
    let holds = totals_or_zero (by_type hold) in
    let refunds = totals_or_zero (by_type refund) in
    record {
      generations_charged = holds.count;
      refunds = refunds.count;
      spent_credits = pos 0 -ℤ holds.sum -ℤ refunds.sum;
      by_type = by_type;
    }
