-- ===== src/Billing.antt =====
-- app/services/billing.py: reserve, refund, audit and top-up, each one transaction.
pub mod Movement
pub mod Commits
pub mod Sound
pub mod Calls
pub mod Refund
pub mod Charge
use ai_generation_api.Prelude.{String, true, false, Option, none, some, is_some, if◌then◌else◌}
use ai_generation_api.Prelude.Int.{ℤ, pos, ◌-ℤ◌, leb_ℤ}
use ai_generation_api.Errors.{raised, payment_required, not_found, validation}
use ai_generation_api.Exec.{
  Exec, pure, raise, gets, ◌>>=◌, ◌>>◌, modify, raise_if, except_integrity,
}
use ai_generation_api.Models.{ApiKey, ApiKey_keyed, Task, Task_keyed, EntryType}
use ai_generation_api.Models.Table
use ai_generation_api.Session.{Session, commit, rollback, write}
use ai_generation_api.BillingRepo.{try_debit, get_balance, credit, add_ledger, ledger_exists}
use ai_generation_api.TaskRepo

abbrev pub set_price : ℤ → Task → Task
set_price price t = record t { price_credits = some price }

-- `if task is not None: task.price_credits = price`
abbrev assign_price : ℤ → Option Task → Exec Session Unit
assign_price price none = pure tt
assign_price price (some task) =
    modify (write (λ t. record t { tasks = Table.update task.id (set_price price) t.tasks }))

-- The `try` block of `reserve`.
abbrev record_hold : ApiKey → String → ℤ → Exec Session Unit
record_hold api_key task_id price = do
  bal ← get_balance (some api_key.id)
  add_ledger (some api_key.id) EntryType.hold (pos 0 -ℤ price) bal (some task_id) (some "reserve")
  task ← TaskRepo.get task_id
  assign_price price task
  modify commit

unfoldable pub reserve : ApiKey → String → ℤ → Exec Session Unit
unfolding try_debit get_balance add_ledger TaskRepo.get write commit rollback
reserve api_key task_id price = do
  debited ← try_debit api_key.id price
  if debited
      then except_integrity (record_hold api_key task_id price) (modify rollback)
      else (modify rollback >> raise (raised payment_required "insufficient balance"))

-- The `try` block of `refund`, for a task that was charged `price`.
abbrev pub give_back : String → Task → ℤ → Exec Session Unit
give_back task_id task price =
    except_integrity
      (do
        new_bal ← credit task.api_key_id price
        add_ledger task.api_key_id EntryType.refund price new_bal (some task_id) (some "refund")
        modify commit)
      (modify rollback)

-- `if task is None or task.price_credits is None: return`, then `if ledger_exists(…): return`.
abbrev refund_charge : String → Task → Option ℤ → Exec Session Unit
refund_charge task_id task none = pure tt
refund_charge task_id task (some price) = do
  done ← ledger_exists task_id EntryType.refund
  if done then pure tt else give_back task_id task price

abbrev refund_task : String → Option Task → Exec Session Unit
refund_task task_id none = pure tt
refund_task task_id (some task) = refund_charge task_id task task.price_credits

unfoldable pub refund : String → Exec Session Unit
unfolding get_balance credit add_ledger ledger_exists TaskRepo.get write commit rollback
refund task_id = do task ← TaskRepo.get task_id; refund_task task_id task

-- The `try` block of `commit_charge_audit`.
abbrev record_audit : String → Task → Exec Session Unit
record_audit task_id task =
    except_integrity
      (do
        bal ← get_balance task.api_key_id
        add_ledger task.api_key_id EntryType.adjust (pos 0) bal (some task_id) (some "committed")
        modify commit)
      (modify rollback)

abbrev audit_charge : String → Task → Option ℤ → Exec Session Unit
audit_charge task_id task none = pure tt
audit_charge task_id task (some price) = do
  done ← ledger_exists task_id EntryType.adjust
  if done then pure tt else record_audit task_id task

abbrev audit_task : String → Option Task → Exec Session Unit
audit_task task_id none = pure tt
audit_task task_id (some task) = audit_charge task_id task task.price_credits

unfoldable pub commit_charge_audit : String → Exec Session Unit
unfolding get_balance add_ledger ledger_exists TaskRepo.get write commit rollback
commit_charge_audit task_id = do task ← TaskRepo.get task_id; audit_task task_id task

unfoldable pub topup : String → ℤ → Option String → Exec Session ℤ
unfolding credit add_ledger commit
topup key amount note = do
  raise_if (leb_ℤ amount (pos 0)) (raised validation "topup amount must be > 0")
  row ← gets (λ s. Table.get key s.current.api_keys)
  raise_if (if is_some row then false else true) (raised not_found "api key not found")
  new_bal ← credit (some key) amount
  add_ledger (some key) EntryType.topup amount new_bal none note
  modify commit
  pure new_bal
