-- ===== src/Billing/Movement.antt =====
-- What a call of app/services/billing.py may do to the database: nothing, or one whole movement, a
-- ledger row together with the balance and the price that belong to it.
use ai_generation_api.Prelude.{
  String, ◌≡◌, refl, true, Option, none, some, arith, ◌==◌, string_eq, if◌then◌else◌,
}
use ai_generation_api.Prelude.Int.{ℤ, pos, ◌+ℤ◌, ◌-ℤ◌, ◌≤ℤ◌, ◌<ℤ◌}
use ai_generation_api.Models.{ApiKey_keyed, Task, Task_keyed, EntryType, BillingLedger, Tables}
use ai_generation_api.Models.Table
use ai_generation_api.Session.{Database, Session}
use ai_generation_api.BillingRepo.{
  balance, set_balance, move_balance, insert_row, key_known, task_free,
}
use ai_generation_api.Billing.{set_price}

-- A row that the table's constraints admit, stamped with the balance that it leaves.
pub record IsEntry (t : Tables) (r : BillingLedger) : Type 0 where
  pub known : key_known (some r.api_key_id) t ≡ true
  pub free : task_free r.task_id r.entry_type t ≡ true
  pub stamped : r.balance_after ≡ balance r.api_key_id t +ℤ r.amount_credits

abbrev pub credited : BillingLedger → Tables → Tables
credited r t = insert_row r (move_balance r.api_key_id (λ b. b +ℤ r.amount_credits) t)

abbrev pub charged : BillingLedger → String → ℤ → Tables → Tables
charged r task price t =
    let t' = insert_row r (move_balance r.api_key_id (λ b. b -ℤ price) t) in
    record t' { tasks = Table.update task (set_price price) t.tasks }

pub data Movement (t t' : Tables) : Type 0 where
  nothing : t' ≡ t → Movement t t'
  charge :
      (r : BillingLedger) (task : String) (price : ℤ)
      → IsEntry t r
      → r.entry_type ≡ EntryType.hold
      → r.task_id ≡ some task
      → r.amount_credits ≡ pos 0 -ℤ price
      → price ≤ℤ balance r.api_key_id t
      → pos 0 ≤ℤ price
      → t' ≡ charged r task price t
      → Movement t t'
  give_back :
      (r : BillingLedger) (id : String) (task : Task) (price : ℤ)
      → IsEntry t r
      → r.entry_type ≡ EntryType.refund
      → r.task_id ≡ some id
      → Table.get id t.tasks ≡ some task
      → task.price_credits ≡ some price
      → task.api_key_id ≡ some r.api_key_id
      → r.amount_credits ≡ price
      → t' ≡ credited r t
      → Movement t t'
  audit :
      (r : BillingLedger)
      → IsEntry t r
      → r.entry_type ≡ EntryType.adjust
      → r.amount_credits ≡ pos 0
      → t' ≡ insert_row r t
      → Movement t t'
  deposit :
      (r : BillingLedger)
      → IsEntry t r
      → r.entry_type ≡ EntryType.topup
      → r.task_id ≡ none
      → pos 0 <ℤ r.amount_credits
      → t' ≡ credited r t
      → Movement t t'

-- No transaction is open.
abbrev pub IsClean : Session → Type 0
IsClean s = s.current ≡ s.stored

-- What one call has done: it committed one movement or nothing, and left no transaction open.
abbrev pub Commits : {A : Type 0} → Database → A × Session → Type 0
Commits d (_, s) = Movement d.stored s.stored × IsClean s

module _ (key : String) (f : ℤ → ℤ) (t : Tables) where
  pub key_known-move_balance :
      (j : Option String) → key_known j (move_balance key f t) ≡ key_known j t
  key_known-move_balance none = refl
  key_known-move_balance (some j) = ground (
    arith,
    Table.get-update (λ k. set_balance (f k.balance_credits) k) (λ k. refl) key j t.api_keys,
  )

  -- The moved balance of the key itself, and of any other key.
  pub balance-move_balance :
      (j : String)
      → key_known (some key) t ≡ true
      → balance j (move_balance key f t) ≡ (if key == j then f (balance j t) else balance j t)
  unfolding balance
  balance-move_balance j known = ground (
    arith,
    Table.get-update (λ k. set_balance (f k.balance_credits) k) (λ k. refl) key j t.api_keys,
  )

  pub balance-move_balance_self :
      key_known (some key) t ≡ true → balance key (move_balance key f t) ≡ f (balance key t)
  balance-move_balance_self known = ground (arith, balance-move_balance key known)
