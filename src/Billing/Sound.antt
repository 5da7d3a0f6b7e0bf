-- ===== src/Billing/Sound.antt =====
-- The books: what holds of the balances and the ledger after any calls of app/services/billing.py.
use ai_generation_api.Prelude.{
  String, ◌≡◌, refl, sym, ap, ◌∙◌, ◌⊎◌, inl, inr, Bool, true, false, Option, none, some, List, [],
  ◌∷◌, any, arith, ◌==◌, string_eq, if◌then◌else◌,
}
use ai_generation_api.Prelude.Int.{ℤ, pos, ◌+ℤ◌, ◌-ℤ◌, ◌≤ℤ◌, int_laws, +ℤ_zero, -ℤ_as_+ℤ, +ℤ_front}
use ai_generation_api.Models.{Task, Task_keyed, EntryType, BillingLedger, Tables}
use ai_generation_api.Models.Table
use ai_generation_api.Billing.{set_price}
use mathlib.Core.Option
use ai_generation_api.BillingRepo.{balance, insert_row, task_free, is_entry, has_entry}
use ai_generation_api.Billing.Movement.{
  IsEntry, Movement, nothing, charge, give_back, audit, deposit, balance-move_balance, credited,
  charged,
}

-- The sum of a key's movements.
abbrev pub sum_for : String → List BillingLedger → ℤ
sum_for key [] = pos 0
sum_for key (r ∷ rs) =
    if r.api_key_id == key then r.amount_credits +ℤ sum_for key rs else sum_for key rs

-- Every row's snapshot is the opening balance and all movements up to and with the row.
abbrev pub Snapshots : (String → ℤ) → List BillingLedger → Type 0
Snapshots opening [] = Unit
Snapshots opening (r ∷ rs) =
    (r.balance_after ≡ opening r.api_key_id +ℤ sum_for r.api_key_id (r ∷ rs)) × Snapshots opening rs

abbrev clashes : Option String → EntryType → List BillingLedger → Bool
clashes none e rs = false
clashes (some task) e rs = any (is_entry task e) rs

-- No task has two rows of one type.
abbrev pub Unique : List BillingLedger → Type 0
Unique [] = Unit
Unique (r ∷ rs) = (clashes r.task_id r.entry_type rs ≡ false) × Unique rs

pub record IsSound (opening : String → ℤ) (t : Tables) : Type 0 where
  pub accounted : (key : String) → balance key t ≡ opening key +ℤ sum_for key t.ledger
  pub snapshots : Snapshots opening t.ledger
  pub unique : Unique t.ledger
  pub solvent : (key : String) → pos 0 ≤ℤ balance key t
  pub priced :
      (id : String) (task : Task) (price : ℤ)
      → Table.get id t.tasks ≡ some task
      → task.price_credits ≡ some price
      → pos 0 ≤ℤ price

-- A movement that wrote the row `r`.
record Posts (t t' : Tables) (r : BillingLedger) : Type 0 where
  entry : IsEntry t r
  ledger : t'.ledger ≡ r ∷ t.ledger
  shifted :
      (key : String)
      → balance key t'
        ≡ (if r.api_key_id == key then balance key t +ℤ r.amount_credits else balance key t)

Posts-credited : (t : Tables) (r : BillingLedger) → IsEntry t r → Posts t (credited r t) r
unfolding balance
Posts-credited t r e = record {
  entry = e;
  ledger = refl;
  shifted = λ key. balance-move_balance r.api_key_id (λ b. b +ℤ r.amount_credits) t key e.known;
}

Posts-charged :
    (t : Tables) (r : BillingLedger) (task : String) (price : ℤ)
    → IsEntry t r
    → r.amount_credits ≡ pos 0 -ℤ price
    → Posts t (charged r task price t) r
unfolding balance
Posts-charged t r task price e a = record {
  entry = e;
  ledger = refl;
  shifted = λ key.
      balance-move_balance r.api_key_id (λ b. b -ℤ price) t key e.known
      ∙ ap (λ (x : ℤ). if r.api_key_id == key then x else balance key t)
          (-ℤ_as_+ℤ (balance key t) price ∙ ap (λ (x : ℤ). balance key t +ℤ x) (sym a));
}

Posts-audit :
    (t : Tables) (r : BillingLedger)
    → IsEntry t r
    → r.amount_credits ≡ pos 0
    → Posts t (insert_row r t) r
unfolding balance
Posts-audit t r e a = record {
  entry = e;
  ledger = refl;
  shifted = λ key. rw a (ground (arith, +ℤ_zero (balance key t)));
}

not-clashes :
    (task : Option String) (e : EntryType) (t : Tables)
    → task_free task e t ≡ true
    → clashes task e t.ledger ≡ false
unfolding has_entry
not-clashes none e t h = refl
not-clashes (some task) e t h = ground arith

module _ (opening : String → ℤ) (t t' : Tables) (r : BillingLedger) (sound : IsSound opening t)
    (p : Posts t t' r) where
  accounted-Posts : (key : String) → balance key t' ≡ opening key +ℤ sum_for key t'.ledger
  accounted-Posts key =
      rw (p.shifted key, p.ledger)
        (ground (
          arith,
          sound.accounted key,
          +ℤ_front (opening key) (sum_for key t.ledger) r.amount_credits,
        ))

  Snapshots-Posts : Snapshots opening t'.ledger
  Snapshots-Posts = rw p.ledger (
    ground (
      arith,
      p.entry.stamped,
      sound.accounted r.api_key_id,
      +ℤ_front (opening r.api_key_id) (sum_for r.api_key_id t.ledger) r.amount_credits,
    ),
    sound.snapshots,
  )

  Unique-Posts : Unique t'.ledger
  Unique-Posts = rw p.ledger (not-clashes r.task_id r.entry_type t p.entry.free, sound.unique)

Movement-Posts : (t t' : Tables) → Movement t t' → (t' ≡ t) ⊎ ((r : BillingLedger) × Posts t t' r)
Movement-Posts t t' (nothing e) = inl e
Movement-Posts t t' (charge r task price e _ _ a _ _ same) =
    inr (r, rw same (Posts-charged t r task price e a))
Movement-Posts t t' (give_back r id task price e _ _ _ _ _ _ same) =
    inr (r, rw same (Posts-credited t r e))
Movement-Posts t t' (audit r e _ a same) = inr (r, rw same (Posts-audit t r e a))
Movement-Posts t t' (deposit r e _ _ _ same) = inr (r, rw same (Posts-credited t r e))

-- A task whose price is written at most by `set_price` has a price of zero or more.
priced-set_price :
    (hit : Bool) (old : Option Task) (task : Task) (price' price : ℤ)
    → (if hit then Option.map (set_price price') old else old) ≡ some task
    → task.price_credits ≡ some price
    → (old ≡ some task → task.price_credits ≡ some price → pos 0 ≤ℤ price)
    → pos 0 ≤ℤ price'
    → pos 0 ≤ℤ price
priced-set_price true none task price' price h paid before positive = cc
priced-set_price true (some x) task price' price h paid before positive = ground arith
priced-set_price false old task price' price h paid before positive = before h paid

module _ (opening : String → ℤ) (t t' : Tables) (sound : IsSound opening t) where
  -- A row keeps every balance at zero or more if it does so for its own key.
  solvent-Posts :
      (r : BillingLedger)
      → Posts t t' r
      → pos 0 ≤ℤ balance r.api_key_id t +ℤ r.amount_credits
      → (key : String) → pos 0 ≤ℤ balance key t'
  solvent-Posts r p covers key = rw (p.shifted key) (ground (arith, sound.solvent key))

  solvent-Movement : Movement t t' → (key : String) → pos 0 ≤ℤ balance key t'
  solvent-Movement (nothing e) key = rw e (sound.solvent key)
  solvent-Movement (charge r task price e _ _ a afford _ same) key =
      solvent-Posts r (rw same (Posts-charged t r task price e a)) (rw a (omega int_laws)) key
  solvent-Movement (give_back r id task price e _ _ found priced _ a same) key =
      solvent-Posts r (rw same (Posts-credited t r e))
        (rw a
          (omega (int_laws, sound.priced id task price found priced, sound.solvent r.api_key_id)))
        key
  solvent-Movement (audit r e _ a same) key =
      solvent-Posts r (rw same (Posts-audit t r e a))
        (rw a (omega (int_laws, sound.solvent r.api_key_id))) key
  solvent-Movement (deposit r e _ _ p same) key =
      solvent-Posts r (rw same (Posts-credited t r e))
        (omega (int_laws, sound.solvent r.api_key_id)) key

  priced-Movement :
      Movement t t'
      → (id : String) (task : Task) (price : ℤ) → Table.get id t'.tasks ≡ some task
      → task.price_credits ≡ some price
      → pos 0 ≤ℤ price
  priced-Movement (nothing e) id task price = rw e (sound.priced id task price)
  priced-Movement (charge r id' price' e _ _ a _ positive same) id task price =
      rw same (λ found paid.
        priced-set_price (id' == id) (Table.get id t.tasks) task price' price
          (sym (Table.get-update (set_price price') (λ x. refl) id' id t.tasks) ∙ found) paid
          (sound.priced id task price) positive)
  priced-Movement (give_back r _ _ _ e _ _ _ _ _ _ same) id task price =
      rw same (sound.priced id task price)
  priced-Movement (audit r e _ a same) id task price = rw same (sound.priced id task price)
  priced-Movement (deposit r e _ _ _ same) id task price = rw same (sound.priced id task price)

-- Every movement keeps the books sound.
pub Movement-IsSound :
    (opening : String → ℤ) (t t' : Tables) → IsSound opening t → Movement t t' → IsSound opening t'
Movement-IsSound opening t t' sound m = elim (Movement-Posts t t' m) [
  | inl same ↦ rw same sound
  | inr (r, p) ↦ record {
    accounted = accounted-Posts opening t t' r sound p;
    snapshots = Snapshots-Posts opening t t' r sound p;
    unique = Unique-Posts opening t t' r sound p;
    solvent = solvent-Movement opening t t' sound m;
    priced = priced-Movement opening t t' sound m;
  }
]
