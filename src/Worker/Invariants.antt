-- ===== src/Worker/Invariants.antt =====
-- Two properties that every run of the task keeps: the bounds of a task's progress, and the books.
use ai_generation_api.Prelude.{
  ℕ, String, ◌≡◌, refl, sym, ap, ◌∙◌, some, All, inl, inr, ◌==◌, string_eq, Bool-cases,
  Option-cases, arith,
}
use ai_generation_api.Prelude.Int.{ℤ, pos, negsuc, ◌≤ℤ◌}
use ai_generation_api.Models.{ApiKey_keyed, Task, Task_keyed, Tables}
use ai_generation_api.Models.Table
use ai_generation_api.TaskRepo
use ai_generation_api.BillingRepo.{balance}
use ai_generation_api.Billing.{set_price}
use ai_generation_api.Billing.Movement.{Movement, nothing, charge, give_back, audit, deposit}
use ai_generation_api.Billing.Sound.{IsSound, Movement-IsSound}
use ai_generation_api.World.{World}
use ai_generation_api.Callback.Frame.{frame}
use ai_generation_api.Engine.{Engine}
use ai_generation_api.Worker.{clamp, process_generation}
use ai_generation_api.Worker.Blocks.{
  Change, started, progressed, done, gave_up, retried, IsInvariant,
}
use ai_generation_api.Worker.Keeps.{process_generation-Keeps}

abbrev pub IsBounded : Task → Type 0
IsBounded t = (pos 0 ≤ℤ t.progress) × (t.progress ≤ℤ pos 100)

clamp-bounds : (p : ℤ) → (pos 0 ≤ℤ clamp p) × (clamp p ≤ℤ pos 100)
clamp-bounds (pos n) = ground arith
clamp-bounds (negsuc n) = ground arith

Change-IsBounded : (f : Task → Task) → Change f → (t : Task) → IsBounded t → IsBounded (f t)
Change-IsBounded _ started t b = ground arith
Change-IsBounded _ (progressed p) t b = clamp-bounds p
Change-IsBounded _ (done url ms) t b = ground arith
Change-IsBounded _ (gave_up error) t b = b
Change-IsBounded _ (retried n) t b = b

abbrev pub Bounded : Tables → Type 0
Bounded t = All IsBounded t.tasks

Movement-Bounded : (t t' : Tables) → Movement t t' → Bounded t → Bounded t'
Movement-Bounded t t' (nothing e) b = rw e b
Movement-Bounded t t' (charge r task price _ _ _ _ _ _ e) b =
    rw e (Table.All-update task (set_price price) (λ t h. h) t.tasks b)
Movement-Bounded t t' (give_back _ _ _ _ _ _ _ _ _ _ _ e) b = rw e b
Movement-Bounded t t' (audit _ _ _ _ e) b = rw e b
Movement-Bounded t t' (deposit _ _ _ _ _ e) b = rw e b

Bounded-IsInvariant : IsInvariant Bounded
Bounded-IsInvariant = record {
  stable = record {
    framed = λ t t' e b. let same : t'.tasks ≡ t.tasks = ap (λ f. f.0) e in rw same b;
    moved = Movement-Bounded;
  };
  changed = λ id f c t b. Table.All-update id f (Change-IsBounded f c) t.tasks b;
}

IsSound-framed :
    (opening : String → ℤ) (t t' : Tables)
    → frame t' ≡ frame t
    → IsSound opening t
    → IsSound opening t'
unfolding balance
IsSound-framed opening t t' e s =
    let tasks : t'.tasks ≡ t.tasks = ap (λ f. f.0) e in
    let ledger : t'.ledger ≡ t.ledger = ap (λ f. f.1) e in
    let keys : t'.api_keys ≡ t.api_keys = ap (λ f. f.2) e in
    record {
      accounted = rw (keys, ledger) s.accounted;
      snapshots = rw ledger s.snapshots;
      unique = rw ledger s.unique;
      solvent = rw keys s.solvent;
      priced = rw tasks s.priced;
    }

Change-price : (f : Task → Task) → Change f → (t : Task) → (f t).price_credits ≡ t.price_credits
Change-price _ started t = refl
Change-price _ (progressed p) t = refl
Change-price _ (done url ms) t = refl
Change-price _ (gave_up error) t = refl
Change-price _ (retried n) t = refl

pub Change-id : (f : Task → Task) → Change f → (t : Task) → (f t).id ≡ t.id
Change-id _ started t = refl
Change-id _ (progressed p) t = refl
Change-id _ (done url ms) t = refl
Change-id _ (gave_up error) t = refl
Change-id _ (retried n) t = refl

IsSound-changed :
    (opening : String → ℤ) (id : String) (f : Task → Task)
    → Change f
    → (t : Tables) → IsSound opening t
    → IsSound opening (TaskRepo.with_task id f t)
unfolding balance
IsSound-changed opening id f c t s = record {
  accounted = s.accounted;
  snapshots = s.snapshots;
  unique = s.unique;
  solvent = s.solvent;
  priced = λ id' x price found paid. elim (Option-cases (Table.get id' t.tasks)) [
    | inl missing ↦ absurd (ground (arith, Table.get-update f (Change-id f c) id id' t.tasks))
    | inr (y, e) ↦
        let same : y.price_credits ≡ some price = unchanged id' y x price e found paid in
        s.priced id' y price e same
  ];
}
  where
    unchanged :
        (id' : String) (y x : Task) (price : ℤ)
        → Table.get id' t.tasks ≡ some y
        → Table.get id' (Table.update id f t.tasks) ≡ some x
        → x.price_credits ≡ some price
        → y.price_credits ≡ some price
    unchanged id' y x price e found paid =
        let u = Table.get-update f (Change-id f c) id id' t.tasks in
        elim (Bool-cases (id == id')) [
          | inl here ↦
              let changed : x ≡ f y = ground arith in sym (Change-price f c y) ∙ rw (← changed) paid
          | inr there ↦ let kept : x ≡ y = ground arith in rw (← kept) paid
        ]

pub IsSound-IsInvariant : (opening : String → ℤ) → IsInvariant (IsSound opening)
IsSound-IsInvariant opening = record {
  stable = record {
    framed = IsSound-framed opening;
    moved = λ t t' m s. Movement-IsSound opening t t' s m;
  };
  changed = λ id f c t s. IsSound-changed opening id f c t s;
}

module _ (g : Engine) (id : String) (retries : ℕ) (w : World) where
  -- Where every task's progress is from 0 to 100, it is so after a run of the task, whatever
  -- progress the provider reports.
  pub progress-process_generation :
      Bounded w.stored → Bounded (process_generation g id retries w).1.stored
  progress-process_generation b =
      process_generation-Keeps Bounded Bounded-IsInvariant g id retries w b

  -- A run of the task keeps the books sound, however it ends.
  pub IsSound-process_generation :
      (opening : String → ℤ)
      → IsSound opening w.stored
      → IsSound opening (process_generation g id retries w).1.stored
  IsSound-process_generation opening s =
      process_generation-Keeps (IsSound opening) (IsSound-IsInvariant opening) g id retries w s
