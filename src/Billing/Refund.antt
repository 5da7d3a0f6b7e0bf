-- ===== src/Billing/Refund.antt =====
-- Refunds: given once, for what was charged, and back to the balance before the charge.
use ai_generation_api.Prelude.{
  String, ◌≡◌, refl, ◌∙◌, Bool, true, false, not, ◌||◌, Option, none, some, arith, Bool-cases,
  Option-cases, inl, inr, is_some, string_eq,
}
use ai_generation_api.Prelude.Int.{ℤ, ◌+ℤ◌}
use ai_generation_api.Models.{ApiKey_keyed, Task, Task_keyed, EntryType, EntryType_eq, Tables}
use ai_generation_api.Models.Table
use ai_generation_api.Session.{Database, open_session}
use ai_generation_api.BillingRepo.{admits, key_known, has_entry}
use ai_generation_api.Billing.{refund}
use ai_generation_api.Billing.Movement.{credited, key_known-move_balance}
use ai_generation_api.Billing.Commits.{credit_row, grown}

-- The database after one call in a session of its own.
abbrev pub after_refund : String → Database → Tables
after_refund task d = (refund task (open_session d)).1.stored

-- Nothing to give back: no task, no price, a refund already, or a row that the table refuses.
abbrev nothing_due : String → Option Task → Tables → Bool
nothing_due task none t = true
nothing_due task (some x) t =
    not (is_some x.price_credits)
    || (has_entry task EntryType.refund t || not (key_known x.api_key_id t))

abbrev is_idle : String → Tables → Bool
is_idle task t = nothing_due task (Table.get task t.tasks) t

module _ (task : String) (d : Database) where
  free_to_refund :
      (x : Task) (key : String) (price : ℤ)
      → Table.get task d.stored.tasks ≡ some x
      → has_entry task EntryType.refund d.stored ≡ false
      → key_known (some key) d.stored ≡ true
      → admits (some key) (some task) EntryType.refund (grown key price d) ≡ true
  unfolding has_entry
  free_to_refund x key price found new known =
      ground (arith, key_known-move_balance key (λ b. b +ℤ price) d.stored (some key))

  pub refund_pays :
      (x : Task) (price : ℤ) (key : String)
      → Table.get task d.stored.tasks ≡ some x
      → x.price_credits ≡ some price
      → x.api_key_id ≡ some key
      → has_entry task EntryType.refund d.stored ≡ false
      → key_known (some key) d.stored ≡ true
      → after_refund task d
        ≡ credited (credit_row key price EntryType.refund (some task) (some "refund") d) d.stored
  unfolding refund
  refund_pays x price key found priced owner new known =
      let free : admits (some key) (some task) EntryType.refund (grown key price d) ≡ true =
        free_to_refund x key price found new known in
      rw (found, priced, owner, new, free, after_refund) refl

  refund_unknown :
      (x : Task) (price : ℤ) (owner : Option String)
      → Table.get task d.stored.tasks ≡ some x
      → x.price_credits ≡ some price
      → x.api_key_id ≡ owner
      → has_entry task EntryType.refund d.stored ≡ false
      → key_known owner d.stored ≡ false
      → after_refund task d ≡ d.stored
  unfolding refund
  refund_unknown x price none found priced owner new unknown =
      rw (found, priced, owner, new, after_refund) refl
  refund_unknown x price (some key) found priced owner new unknown =
      let clash : admits (some key) (some task) EntryType.refund (grown key price d) ≡ false =
        ground (arith, key_known-move_balance key (λ b. b +ℤ price) d.stored (some key)) in
      rw (found, priced, owner, new, clash, after_refund) refl

  refund_idle : is_idle task d.stored ≡ true → after_refund task d ≡ d.stored
  unfolding refund
  refund_idle h = elim (Option-cases (Table.get task d.stored.tasks)) [
    | inl missing ↦ rw (missing, after_refund) refl
    | inr (x, found) ↦ elim (Option-cases x.price_credits) [
      | inl unpriced ↦ rw (found, unpriced, after_refund) refl
      | inr (price, priced) ↦ elim (Bool-cases (has_entry task EntryType.refund d.stored)) [
        | inl done ↦ rw (found, priced, done, after_refund) refl
        | inr new ↦ refund_unknown x price x.api_key_id found priced refl new (ground arith)
      ]
    ]
  ]

-- What a task must have for a refund to be due.
record IsDue (task : String) (t : Tables) : Type 0 where
  row : Task
  price : ℤ
  key : String
  found : Table.get task t.tasks ≡ some row
  priced : row.price_credits ≡ some price
  owner : row.api_key_id ≡ some key
  new : has_entry task EntryType.refund t ≡ false
  known : key_known (some key) t ≡ true

IsDue-row :
    (task : String) (t : Tables) (x : Task) (price key : Option _)
    → Table.get task t.tasks ≡ some x
    → x.price_credits ≡ price
    → x.api_key_id ≡ key
    → nothing_due task (some x) t ≡ false
    → IsDue task t
IsDue-row task t x none key found priced owner h = cc
IsDue-row task t x (some price) none found priced owner h = absurd (ground arith)
IsDue-row task t x (some price) (some key) found priced owner h = record {
  row = x;
  price = price;
  key = key;
  found = found;
  priced = priced;
  owner = owner;
  new = ground arith;
  known = ground arith;
}

module _ (task : String) (d : Database) where
  IsDue-database : is_idle task d.stored ≡ false → IsDue task d.stored
  IsDue-database h = elim (Option-cases (Table.get task d.stored.tasks)) [
    | inl missing ↦ absurd (ground arith)
    | inr (x, found) ↦
        IsDue-row task d.stored x x.price_credits x.api_key_id found refl refl (ground arith)
  ]

  -- A refund that was given is an entry of the task.
  refund_settles :
      is_idle task d.stored ≡ false → has_entry task EntryType.refund (after_refund task d) ≡ true
  unfolding has_entry
  refund_settles h =
      let due = IsDue-database h in
      rw
        (refund_pays task d due.row due.price due.key due.found due.priced due.owner due.new
          due.known)
        (ground arith)

  idle_of_entry : (t : Tables) → has_entry task EntryType.refund t ≡ true → is_idle task t ≡ true
  idle_of_entry t h = ground arith

  -- A second refund of a task, in a database with the tables that the first left, changes no
  -- table.
  pub refund_idempotent :
      (later : Database)
      → later.stored ≡ after_refund task d
      → after_refund task later ≡ after_refund task d
  refund_idempotent later same = elim (Bool-cases (is_idle task d.stored)) [
    | inl idle ↦
        let kept = refund_idle task d idle in refund_idle task later (rw (same, kept) idle) ∙ same
    | inr due ↦
        refund_idle task later (rw same (idle_of_entry (after_refund task d) (refund_settles due)))
        ∙ same
  ]
