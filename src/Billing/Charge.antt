-- ===== src/Billing/Charge.antt =====
-- Charges: what `reserve` does on each branch, and that a refund takes a charge back.
use ai_generation_api.Prelude.{
  String, ◌≡◌, refl, ap, ◌∙◌, Bool, true, false, Bool-cases, inl, inr, Option, none, some, arith,
  string_eq,
}
use ai_generation_api.Prelude.Int.{ℤ, ◌+ℤ◌, ◌-ℤ◌, -ℤ+ℤ_cancel}
use ai_generation_api.Errors.{raised, payment_required}
use ai_generation_api.Exec.{Result, ok, err}
use ai_generation_api.Models.{
  ApiKey, ApiKey_keyed, Task, Task_keyed, EntryType, EntryType_eq, Tables, BillingLedger,
}
use ai_generation_api.Models.Table
use ai_generation_api.Session.{Database, open_session, commit, rollback, write}
use ai_generation_api.BillingRepo.{
  balance, covered, admits, key_known, has_entry, credit, add_ledger, get_balance, credit_row,
}
use ai_generation_api.Billing.{reserve, set_price, give_back}
use ai_generation_api.Billing.Movement.{
  balance-move_balance_self, credited, charged, key_known-move_balance, balance-move_balance,
}
use ai_generation_api.Billing.Commits
use ai_generation_api.Billing.Commits.{hold_row, debited}
use ai_generation_api.Billing.Refund.{after_refund, refund_pays}

-- A charge and a credit of the same price on one key leave every balance as it was.
balance-credited-charged :
    (t t' : Tables) (r r' : BillingLedger) (task : String) (price : ℤ) (key : String)
    → t' ≡ charged r task price t
    → key_known (some r.api_key_id) t ≡ true
    → r'.api_key_id ≡ r.api_key_id
    → r'.amount_credits ≡ price
    → balance key (credited r' t') ≡ balance key t
unfolding balance
balance-credited-charged t t' r r' task price key e known same a =
    rw (e, same, a)
      (ground (
        arith,
        key_known-move_balance r.api_key_id (λ b. b -ℤ price) t (some r.api_key_id),
        balance-move_balance r.api_key_id (λ b. b +ℤ price) (charged r task price t) key,
        balance-move_balance r.api_key_id (λ b. b -ℤ price) t key,
        -ℤ+ℤ_cancel (balance key t) price,
      ))

-- The `try` block of a refund, run where the task's refund is already in the ledger: the call
-- returns, and the credit is rolled back with the refused row.
pub give_back_late :
    (task : String) (x : Task) (price : ℤ) (d : Database)
    → has_entry task EntryType.refund d.stored ≡ true
    → let (r, s) = give_back task x price (open_session d) in
      (r ≡ ok tt) × (s.stored ≡ d.stored) × (s.current ≡ d.stored)
unfolding credit add_ledger get_balance write commit rollback has_entry
give_back_late task x price d done =
    let clash : admits x.api_key_id (some task) EntryType.refund
          (credit_row x.api_key_id price d.stored)
        ≡ false =
      refused x.api_key_id in
    (rw clash refl, rw clash refl, rw clash refl)
  where
    refused :
        (owner : Option String)
        → admits owner (some task) EntryType.refund (credit_row owner price d.stored) ≡ false
    refused none = refl
    refused (some key) = ground arith

module _ (k : ApiKey) (task : String) (price : ℤ) (d : Database) where
  abbrev pub after_reserve : Database
  after_reserve = (reserve k task price (open_session d)).1.database

  -- A reservation at a price that the key's balance does not cover, or for an unknown key, raises
  -- 402 and leaves the session as it was.
  pub reserve_short :
      covered (Table.get k.id d.stored.api_keys) price ≡ false
      → reserve k task price (open_session d)
        ≡ (err (raised payment_required "insufficient balance"), open_session d)
  unfolding reserve
  reserve_short short = rw short refl

  -- A reservation for a task that has a hold already, at a price that the balance covers, returns
  -- and changes no table.
  pub reserve_again :
      covered (Table.get k.id d.stored.api_keys) price ≡ true
      → has_entry task EntryType.hold d.stored ≡ true
      → ((reserve k task price (open_session d)).0 ≡ ok tt) × (after_reserve.stored ≡ d.stored)
  unfolding reserve has_entry
  reserve_again enough held =
      let clash : admits (some k.id) (some task) EntryType.hold (debited k task price d) ≡ false =
        ground arith in
      (rw (enough, clash) refl, rw (enough, clash, after_reserve) refl)

  pub reserve_pays :
      (x : Task)
      → covered (Table.get k.id d.stored.api_keys) price ≡ true
      → Table.get task d.stored.tasks ≡ some x
      → has_entry task EntryType.hold d.stored ≡ false
      → ((reserve k task price (open_session d)).0 ≡ ok tt)
        × (after_reserve.stored ≡ charged (hold_row k task price d) task price d.stored)
  unfolding reserve has_entry
  reserve_pays x enough found new =
      let free : admits (some k.id) (some task) EntryType.hold (debited k task price d) ≡ true =
        ground (arith, key_known-move_balance k.id (λ b. b -ℤ price) d.stored (some k.id)) in
      (
        rw (enough, free, found) refl,
        rw (enough, free, found, Table.key-get task d.stored.tasks x found, after_reserve) refl,
      )

  found_priced :
      (x : Task)
      → Table.get task d.stored.tasks ≡ some x
      → Table.get task (Table.update task (set_price price) d.stored.tasks)
        ≡ some (set_price price x)
  found_priced x found =
      ground (arith, Table.get-update (set_price price) (λ y. refl) task task d.stored.tasks)

  -- By whether the balance covers the price and whether the task has a hold.
  abbrev pub Outcome : Task → Bool → Bool → Result (Unit {0}) → Tables → Type 0
  Outcome x false held r t =
      (r ≡ err (raised payment_required "insufficient balance")) × (t ≡ d.stored)
  Outcome x true true r t = (r ≡ ok tt) × (t ≡ d.stored)
  Outcome x true false r t =
      (r ≡ ok tt)
      × (balance k.id t ≡ balance k.id d.stored -ℤ price)
      × (Table.get task t.tasks ≡ some (set_price price x))
      × (has_entry task EntryType.hold t ≡ true)

  paid_row :
      (x : Task)
      → covered (Table.get k.id d.stored.api_keys) price ≡ true
      → Table.get task d.stored.tasks ≡ some x
      → Outcome x true false (ok tt) (charged (hold_row k task price d) task price d.stored)
  unfolding balance has_entry
  paid_row x enough found = (
    refl,
    balance-move_balance_self k.id (λ b. b -ℤ price) d.stored (ground arith),
    found_priced x found,
    ground arith,
  )

  -- A reservation for a task that exists. If the balance does not cover the price, or the key is
  -- unknown, it raises 402 and no table changes; if the task has a hold already, it returns and
  -- no table changes; otherwise it returns, the price is taken from the balance, the task has the
  -- price, and the hold is in the ledger.
  pub reserve-Outcome :
      (x : Task)
      → Table.get task d.stored.tasks ≡ some x
      → let (r, s) = reserve k task price (open_session d) in
        Outcome x
          (covered (Table.get k.id d.stored.api_keys) price)
          (has_entry task EntryType.hold d.stored)
          r
          s.stored
  reserve-Outcome x found = elim (Bool-cases (covered (Table.get k.id d.stored.api_keys) price)) [
    | inr short ↦ rw (short, reserve_short short) (refl, refl)
    | inl enough ↦ elim (Bool-cases (has_entry task EntryType.hold d.stored)) [
      | inl held ↦ rw (enough, held) (reserve_again enough held)
      | inr new ↦
          let paid = reserve_pays x enough found new in
          rw (enough, new, paid.0, paid.1) (paid_row x enough found)
    ]
  ]

  unpaid_after :
      has_entry task EntryType.refund d.stored ≡ false
      → has_entry task EntryType.refund (charged (hold_row k task price d) task price d.stored)
        ≡ false
  unfolding has_entry
  unpaid_after unpaid = ground arith

  known_after :
      key_known (some k.id) d.stored ≡ true
      → key_known (some k.id) (charged (hold_row k task price d) task price d.stored) ≡ true
  known_after known =
      ground (arith, key_known-move_balance k.id (λ b. b -ℤ price) d.stored (some k.id))

  -- For a task of the key that has neither a hold nor a refund, and a price that the key's
  -- balance covers, a reservation and then a refund leave every balance as it was.
  pub refund-reserve :
      (x : Task)
      → covered (Table.get k.id d.stored.api_keys) price ≡ true
      → Table.get task d.stored.tasks ≡ some x
      → x.api_key_id ≡ some k.id
      → has_entry task EntryType.hold d.stored ≡ false
      → has_entry task EntryType.refund d.stored ≡ false
      → (key : String) → balance key (after_refund task after_reserve) ≡ balance key d.stored
  refund-reserve x enough found owner unheld unpaid key =
      let e = (reserve_pays x enough found unheld).1 in
      let known : key_known (some k.id) d.stored ≡ true = ground arith in
      let paid =
        refund_pays task after_reserve (set_price price x) price k.id (rw e (found_priced x found))
          refl owner (rw e (unpaid_after unpaid)) (rw e (known_after known)) in
      ap (balance key) paid
      ∙ balance-credited-charged d.stored after_reserve.stored (hold_row k task price d)
          (Commits.credit_row k.id price EntryType.refund (some task) (some "refund") after_reserve)
          task price key e known refl refl
