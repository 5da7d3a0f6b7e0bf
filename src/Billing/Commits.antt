-- ===== src/Billing/Commits.antt =====
-- Every call of app/services/billing.py, on every branch, commits one movement or nothing.
use ai_generation_api.Prelude.{
  String, ◌≡◌, refl, true, false, Option, none, some, is_some-eq-some, ◌∙◌, arith, Bool-cases,
  Option-cases, inl, inr,
}
use ai_generation_api.Prelude.Int.{ℤ, pos, ◌+ℤ◌, ◌-ℤ◌, ◌≤ℤ◌, leb_ℤ, int_laws, -ℤ_as_+ℤ}
use ai_generation_api.Models.{
  ApiKey, ApiKey_keyed, Task, Task_keyed, EntryType, BillingLedger, Tables,
}
use ai_generation_api.Models.Table
use ai_generation_api.Session.{Database, open_session}
use ai_generation_api.BillingRepo.{
  balance, move_balance, key_known, task_free, covered, admits, new_row, has_entry,
}
use ai_generation_api.Billing.{reserve, refund, commit_charge_audit, topup}
use ai_generation_api.Billing.Movement.{
  IsEntry, Commits, nothing, charge, give_back, audit, deposit, key_known-move_balance,
  balance-move_balance_self,
}

task_known :
    (key : Option String) (task : String) (e : EntryType) (t : Tables)
    → admits key (some task) e t ≡ true
    → (x : Task) × (Table.get task t.tasks ≡ some x)
task_known key task e t free = is_some-eq-some (Table.get task t.tasks) (ground arith)

module _ (k : ApiKey) (task : String) (price : ℤ) (d : Database) where
  abbrev pub debited : Tables
  debited = move_balance k.id (λ b. b -ℤ price) d.stored

  abbrev pub hold_row : BillingLedger
  hold_row =
      new_row (some k.id) EntryType.hold (pos 0 -ℤ price) (balance k.id debited) (some task)
        (some "reserve") (open_session d)

  hold_row-IsEntry :
      covered (Table.get k.id d.stored.api_keys) price ≡ true
      → admits (some k.id) (some task) EntryType.hold debited ≡ true
      → IsEntry d.stored hold_row × (price ≤ℤ balance k.id d.stored)
  unfolding balance has_entry
  hold_row-IsEntry enough free = (
    record {
      known = ground (arith, key_known-move_balance k.id (λ b. b -ℤ price) d.stored (some k.id));
      free = ground arith;
      stamped =
          balance-move_balance_self k.id (λ b. b -ℤ price) d.stored (ground arith)
          ∙ -ℤ_as_+ℤ (balance k.id d.stored) price;
    },
    ground arith,
  )

  pub reserve-Commits : pos 0 ≤ℤ price → Commits d (reserve k task price (open_session d))
  unfolding reserve
  reserve-Commits positive = elim (Bool-cases (covered (Table.get k.id d.stored.api_keys) price)) [
    | inr short ↦ rw short (nothing refl, refl)
    | inl enough ↦ elim (Bool-cases (admits (some k.id) (some task) EntryType.hold debited)) [
      | inr clash ↦ rw (enough, clash) (nothing refl, refl)
      | inl free ↦
          let (entry, afford) = hold_row-IsEntry enough free in
          let (t, found) = task_known (some k.id) task EntryType.hold debited free in
          rw (enough, free, found, Table.key-get task d.stored.tasks t found)
            (charge hold_row task price entry refl refl refl afford positive refl, refl)
    ]
  ]

-- A row for `amount` that is flushed after the balance of `key` has grown by it.
abbrev pub grown : String → ℤ → Database → Tables
grown key amount d = move_balance key (λ b. b +ℤ amount) d.stored

module _ (key : String) (amount : ℤ) (entry : EntryType) (task note : Option String)
    (d : Database) where
  abbrev pub credit_row : BillingLedger
  credit_row =
      new_row (some key) entry amount (balance key (grown key amount d)) task note (open_session d)

  credit_row-IsEntry :
      admits (some key) task entry (grown key amount d) ≡ true → IsEntry d.stored credit_row
  unfolding has_entry
  credit_row-IsEntry free = record {
    known = known;
    free = task_is_free task (ground arith);
    stamped = balance-move_balance_self key (λ b. b +ℤ amount) d.stored known;
  }
    where
      known : key_known (some key) d.stored ≡ true
      known = ground (arith, key_known-move_balance key (λ b. b +ℤ amount) d.stored (some key))

      task_is_free :
          (o : Option String)
          → task_free o entry (grown key amount d) ≡ true
          → task_free o entry d.stored ≡ true
      task_is_free none h = refl
      task_is_free (some x) h = h

module _ (task : String) (d : Database) where
  give_back-Commits :
      (t : Task) (price : ℤ) (owner : Option String)
      → Table.get task d.stored.tasks ≡ some t
      → t.price_credits ≡ some price
      → t.api_key_id ≡ owner
      → has_entry task EntryType.refund d.stored ≡ false
      → Commits d (refund task (open_session d))
  unfolding refund
  give_back-Commits t price none found priced owner new =
      rw (found, priced, owner, new) (nothing refl, refl)
  give_back-Commits t price (some key) found priced owner new =
      elim (Bool-cases (admits (some key) (some task) EntryType.refund (grown key price d))) [
        | inr clash ↦ rw (found, priced, owner, new, clash) (nothing refl, refl)
        | inl free ↦
            rw (found, priced, owner, new, free)
              (
                give_back (credit_row key price EntryType.refund (some task) (some "refund") d) task
                    t price
                    (credit_row-IsEntry key price EntryType.refund (some task) (some "refund") d
                      free)
                    refl refl found priced owner refl refl,
                refl,
              )
      ]

  -- A refund gives back what the task was charged, once, or changes nothing.
  pub refund-Commits : Commits d (refund task (open_session d))
  unfolding refund
  refund-Commits = elim (Option-cases (Table.get task d.stored.tasks)) [
    | inl missing ↦ rw missing (nothing refl, refl)
    | inr (t, found) ↦ elim (Option-cases t.price_credits) [
      | inl free ↦ rw (found, free) (nothing refl, refl)
      | inr (price, priced) ↦ elim (Bool-cases (has_entry task EntryType.refund d.stored)) [
        | inl done ↦ rw (found, priced, done) (nothing refl, refl)
        | inr new ↦ give_back-Commits t price t.api_key_id found priced refl new
      ]
    ]
  ]

  audit-Commits :
      (t : Task) (price : ℤ) (owner : Option String)
      → Table.get task d.stored.tasks ≡ some t
      → t.price_credits ≡ some price
      → t.api_key_id ≡ owner
      → has_entry task EntryType.adjust d.stored ≡ false
      → Commits d (commit_charge_audit task (open_session d))
  unfolding commit_charge_audit
  audit-Commits t price none found priced owner new =
      rw (found, priced, owner, new) (nothing refl, refl)
  audit-Commits t price (some key) found priced owner new =
      elim (Bool-cases (admits (some key) (some task) EntryType.adjust d.stored)) [
        | inr clash ↦ rw (found, priced, owner, new, clash) (nothing refl, refl)
        | inl free ↦
            rw (found, priced, owner, new, free)
              (
                audit
                    (new_row (some key) EntryType.adjust (pos 0) (balance key d.stored) (some task)
                      (some "committed") (open_session d))
                    (record { known = ground arith; free = ground arith; stamped = omega int_laws })
                    refl refl refl,
                refl,
              )
      ]

  -- The audit of a success moves no money.
  pub commit_charge_audit-Commits : Commits d (commit_charge_audit task (open_session d))
  unfolding commit_charge_audit
  commit_charge_audit-Commits = elim (Option-cases (Table.get task d.stored.tasks)) [
    | inl missing ↦ rw missing (nothing refl, refl)
    | inr (t, found) ↦ elim (Option-cases t.price_credits) [
      | inl free ↦ rw (found, free) (nothing refl, refl)
      | inr (price, priced) ↦ elim (Bool-cases (has_entry task EntryType.adjust d.stored)) [
        | inl done ↦ rw (found, priced, done) (nothing refl, refl)
        | inr new ↦ audit-Commits t price t.api_key_id found priced refl new
      ]
    ]
  ]

module _ (key : String) (amount : ℤ) (note : Option String) (d : Database) where
  pub topup-Commits : Commits d (topup key amount note (open_session d))
  unfolding topup
  topup-Commits = elim (Bool-cases (leb_ℤ amount (pos 0))) [
    | inl bad ↦ rw bad (nothing refl, refl)
    | inr good ↦ elim (Bool-cases (key_known (some key) d.stored)) [
      | inr unknown ↦ rw (good, unknown) (nothing refl, refl)
      | inl known ↦
          let free : admits (some key) none EntryType.topup (grown key amount d) ≡ true =
            ground (arith, key_known-move_balance key (λ b. b +ℤ amount) d.stored (some key)) in
          rw (good, known, free)
            (
              deposit (credit_row key amount EntryType.topup none note d)
                  (credit_row-IsEntry key amount EntryType.topup none note d free) refl refl
                  (ground arith) refl,
              refl,
            )
    ]
  ]
