-- ===== src/BillingRepo.antt =====
-- app/repositories/billing_repo.py: balances and the ledger, with the constraints of the table
-- `billing_ledger` (app/models/billing_ledger.py) that a flush checks.
pub mod Usage
pub mod Listing
pub mod Statement
use ai_generation_api.Prelude.{
  ℕ, String, Bool, true, false, not, ◌&&◌, Option, none, some, ◌∷◌, any, is_some, ◌==◌, string_eq,
  option_eq, if◌then◌else◌,
}
use ai_generation_api.Prelude.Int.{ℤ, pos, ◌+ℤ◌, ◌-ℤ◌, leb_ℤ}
use ai_generation_api.Errors.{integrity_error}
use ai_generation_api.Exec.{Result, ok, err, Exec, pure, gets, ◌>>=◌, ◌>>◌, modify}
use ai_generation_api.Models.{
  ApiKey, ApiKey_keyed, Task_keyed, EntryType, EntryType_eq, BillingLedger, Tables,
}
use ai_generation_api.Models.Table
use ai_generation_api.Session.{Session, write, next_id, draw}

abbrev pub set_balance : ℤ → ApiKey → ApiKey
set_balance b k = record k { balance_credits = b }

-- `SET balance_credits = balance_credits + amount WHERE id = key`
abbrev pub move_balance : String → (ℤ → ℤ) → Tables → Tables
move_balance key f t = record t {
  api_keys = Table.update key (λ k. set_balance (f k.balance_credits) k) t.api_keys;
}

-- The row that the `WHERE` of `try_debit` selects: `id = key AND balance_credits >= amount`.
abbrev pub covered : Option ApiKey → ℤ → Bool
covered none amount = false
covered (some k) amount = leb_ℤ amount k.balance_credits

unfoldable pub try_debit : String → ℤ → Exec Session Bool
unfolding write
try_debit key amount s =
    if covered (Table.get key s.current.api_keys) amount
    then (ok true, write (move_balance key (λ b. b -ℤ amount)) s)
    else (ok false, s)

abbrev pub balance_of : Option ApiKey → ℤ
balance_of none = pos 0
balance_of (some k) = k.balance_credits

-- The balance that the tables hold for a key, 0 for none.
unfoldable pub balance : String → Tables → ℤ
balance key t = balance_of (Table.get key t.api_keys)

-- The id is `None` where a task has no key; then no row is selected.
abbrev pub balance_at : Option String → Tables → ℤ
balance_at none t = pos 0
balance_at (some key) t = balance key t

unfoldable pub get_balance : Option String → Exec Session ℤ
unfolding balance
get_balance key s = (ok (balance_at key s.current), s)

abbrev pub credit_row : Option String → ℤ → Tables → Tables
credit_row none amount t = t
credit_row (some key) amount t = move_balance key (λ b. b +ℤ amount) t

unfoldable pub credit : Option String → ℤ → Exec Session ℤ
unfolding get_balance write
credit key amount = do modify (write (credit_row key amount)); get_balance key

abbrev pub is_entry : String → EntryType → BillingLedger → Bool
is_entry task entry r = r.task_id == some task && r.entry_type == entry

-- The query of `ledger_exists`, on the tables.
unfoldable pub has_entry : String → EntryType → Tables → Bool
has_entry task entry t = any (is_entry task entry) t.ledger

unfoldable pub ledger_exists : String → EntryType → Exec Session Bool
unfolding has_entry
ledger_exists task entry s = (ok (has_entry task entry s.current), s)

-- `ForeignKey("api_keys.id")`, not null.
abbrev pub key_known : Option String → Tables → Bool
key_known none t = false
key_known (some key) t = is_some (Table.get key t.api_keys)

-- `ForeignKey("tasks.id")` and `UniqueConstraint("task_id", "entry_type")`; NULL meets both.
abbrev pub task_free : Option String → EntryType → Tables → Bool
task_free none entry t = true
task_free (some task) entry t = is_some (Table.get task t.tasks) && not (has_entry task entry t)

abbrev pub or_empty : Option String → String
or_empty none = ""
or_empty (some key) = key

abbrev pub insert_row : BillingLedger → Tables → Tables
insert_row r t = record t { ledger = r ∷ t.ledger }

abbrev pub new_row :
    Option String → EntryType → ℤ → ℤ → Option String → Option String → Session → BillingLedger
new_row key entry amount balance_after task note s = record {
  id = next_id s;
  api_key_id = or_empty key;
  task_id = task;
  entry_type = entry;
  amount_credits = amount;
  balance_after = balance_after;
  note = note;
  created_at = s.now;
}

-- The constraints that the flush of a new row checks.
abbrev pub admits : Option String → Option String → EntryType → Tables → Bool
admits key task entry t = key_known key t && task_free task entry t

-- `db.add(row); db.flush()`
unfoldable pub add_ledger :
    Option String → EntryType → ℤ → ℤ → Option String → Option String → Exec Session BillingLedger
unfolding write has_entry
add_ledger key entry amount balance_after task note s =
    let row = new_row key entry amount balance_after task note s in
    if admits key task entry s.current
    then (ok row, draw (write (insert_row row) s))
    else (err integrity_error, draw s)
