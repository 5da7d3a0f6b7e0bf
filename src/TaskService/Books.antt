-- ===== src/TaskService/Books.antt =====
-- Acceptance and the books: whatever the request, they stay sound.
use ai_generation_api.Prelude.{
  String, ◌≡◌, refl, ap, Bool, true, Option, none, some, List, find, ◌==◌, string_eq, arith,
  Bool-cases, Option-cases, inl, inr,
}
use ai_generation_api.Prelude.Int.{ℤ, pos, ◌≤ℤ◌, int_laws}
use ai_generation_api.Errors.{Error, ErrorClass, AppError, app_raised, payment_required}
use ai_generation_api.Exec.{Result, ok, err, Result-cases, raise, continue, pure, ◌>>◌}
use ai_generation_api.Models.{ApiKey, ApiKey_keyed, Task, Task_keyed, Tables}
use ai_generation_api.Models.Table
use ai_generation_api.Session.{Session, Database, open_session}
use ai_generation_api.Settings.{Settings}
use ai_generation_api.Value.{Value}
use ai_generation_api.Modes
use ai_generation_api.Modes.{ModeRegistry}
use ai_generation_api.Pricing.{PricingRegistry}
use ai_generation_api.Pricing.Precedence.{price_for-Outcome, Outcome}
use ai_generation_api.BillingRepo.{balance}
use ai_generation_api.TaskRepo
use ai_generation_api.Billing
use ai_generation_api.Billing.Commits.{reserve-Commits}
use ai_generation_api.Billing.Sound.{IsSound, Movement-IsSound}
use ai_generation_api.World.Hoare.{Ends, Block, IsClean}
use ai_generation_api.Worker.Blocks.{update_keeps, gave_up}
use ai_generation_api.Worker.Invariants.{IsSound-IsInvariant}
use ai_generation_api.TaskService.{
  enqueue, queue_of, GenerateRequest, Message, App, on_session, key_id, new_task, find_existing,
  reject, give_up, settle_hold, hold_price, quote, with_key, accept, create_task,
}
use ai_generation_api.TaskService.Accept.{opened, open_task_lem}

-- The query for an earlier task writes nothing.
pub find_existing-pure :
    (request owner : Option String) (s : Session)
    → (o : Option Task) × (find_existing request owner s ≡ (ok o, s))
unfolding TaskRepo.get_by_request_id
find_existing-pure none owner s = (none, refl)
find_existing-pure (some r) owner s = elim (Bool-cases (r == "")) [
  | inl empty ↦ (none, rw empty refl)
  | inr named ↦ (find (TaskRepo.is_request owner r) s.current.tasks, rw named refl)
]

abbrev Priced : Option (ApiKey × ℤ) → Type 0
Priced none = Unit
Priced (some (k, price)) = pos 0 ≤ℤ price

unbilled : (o : Option (ApiKey × ℤ)) → ok none ≡ ok o → Priced o
unbilled none e = tt
unbilled (some p) e = absurd (ground arith)

module _ (c : Settings) (modes : ModeRegistry) (pricing : PricingRegistry)
    (repr : Value → String) where
  with_key-Priced :
      (k : ApiKey) (decisive : Option Value) (r : Result ℤ) (o : Option (ApiKey × ℤ))
      → Outcome repr decisive r
      → with_key k r ≡ ok o
      → Priced o
  with_key-Priced k decisive (ok price) none h e = tt
  with_key-Priced k decisive (ok price) (some (k', price')) h e =
      let same : price ≡ price' = ground arith in rw (← same) (omega (int_laws, h))
  with_key-Priced k decisive (err x) o h e = absurd (ground arith)

  quote-Priced :
      (req : GenerateRequest) (key : Option ApiKey) (o : Option (ApiKey × ℤ))
      → quote c modes pricing repr req key ≡ ok o
      → Priced o
  quote-Priced req none none e = tt
  quote-Priced req none (some p) e = absurd (ground arith)
  quote-Priced req (some k) o e = elim (Bool-cases c.billing_enabled) [
    | inl on ↦
        with_key-Priced k _ _ o (price_for-Outcome repr pricing req.task_type req.mode (some k))
          (rw on at e)
    | inr off ↦ unbilled o (rw off at e)
  ]

module _ (opening : String → ℤ) where
  abbrev Sound : Tables → Type 0
  Sound = IsSound opening

  opened-Sound :
      (req : GenerateRequest) (key : Option ApiKey) (d : Database)
      → Sound d.stored
      → Sound (opened req key d).stored
  unfolding balance
  opened-Sound req key d s = record {
    accounted = s.accounted;
    snapshots = s.snapshots;
    unique = s.unique;
    solvent = s.solvent;
    priced = λ id t price found paid. elim (Option-cases (Table.get id d.stored.tasks)) [
      | inl missing ↦ absurd (
          ground (
            arith,
            Table.get-append_none id d.stored.tasks (new_task req key (d.uuid d.drawn)) missing,
          ))
      | inr (x, e) ↦
          let old =
            Table.get-append_old id d.stored.tasks (new_task req key (d.uuid d.drawn)) x e in
          let same : x ≡ t = cc in s.priced id x price e (rw same paid)
    ];
  }

  rejecting : (id : String) → Block Sound (TaskRepo.update id reject) (λ _. Sound) (λ _. Sound)
  rejecting id =
      update_keeps (IsSound-IsInvariant opening) id reject (gave_up "insufficient_balance")

  raised-Sound :
      {A : Type 0} (e : AppError) (r : Result A) (s : Session)
      → Ends (λ _. Sound) (λ _. Sound) r s.stored
      → Sound (continue r (λ _. raise {A = Unit {0}} (app_raised e)) s).1.stored
  raised-Sound e (ok a) s h = h
  raised-Sound e (err x) s h = h

  given_up-Sound :
      (class : ErrorClass) (id : String) (e : AppError) (s : Session)
      → IsClean s
      → Sound s.stored
      → Sound (give_up class id e s).1.stored
  given_up-Sound payment_required id e s clean sound =
      let opened : s ≡ open_session s.database =
        ap (λ t. record { database = s.database; current = t }) clean in
      rw opened (
        raised-Sound e (TaskRepo.update id reject (open_session s.database)).0 _
          ((rejecting id).ends s.database sound).0)
  given_up-Sound _ id e s clean sound = sound

  settled-Sound :
      (id : String) (r : Result (Unit {0})) (s : Session)
      → IsClean s
      → Sound s.stored
      → Sound (settle_hold id r s).1.stored
  settled-Sound id (err (app_raised e)) s clean sound = given_up-Sound e.class id e s clean sound
  settled-Sound id (ok _) s clean sound = sound
  settled-Sound id (err _) s clean sound = sound

  hold_price-Sound :
      (o : Option (ApiKey × ℤ)) (id : String) (d : Database)
      → Priced o
      → Sound d.stored
      → Sound (hold_price o id (open_session d)).1.stored
  hold_price-Sound none id d p sound = sound
  hold_price-Sound (some (k, price)) id d p sound =
      let (moved, clean) = reserve-Commits k id price d p in
      settled-Sound id (Billing.reserve k id price (open_session d)).0
        (Billing.reserve k id price (open_session d)).1 clean
        (Movement-IsSound opening _ _ sound moved)

  module _ (c : Settings) (modes : ModeRegistry) (pricing : PricingRegistry) (repr : Value → String)
      (req : GenerateRequest) (key : Option ApiKey) (d : Database) (broker : List Message)
      (outage : Option Error) where
    abbrev start : App
    start = record { session = open_session d; broker = broker; outage = outage }

    held :
        (r : Result (Unit {0})) (a : App)
        → Sound a.stored
        → Sound
            (continue {B = String × Bool} r
              (λ _.
                enqueue (queue_of req.task_type) (d.uuid d.drawn) >> pure (d.uuid d.drawn, true))
              a).1.stored
    held (ok _) a sound = elim (Option-cases a.outage) [
      | inl up ↦ rw up sound
      | inr (e, down) ↦ rw down sound
    ]
    held (err e) a sound = sound

    accept-Sound :
        (o : Option Task)
        → Sound d.stored
        → Sound (accept c modes pricing repr req key o start).1.stored
    unfolding on_session
    accept-Sound (some t) sound = sound
    accept-Sound none sound = elim (Result-cases (quote c modes pricing repr req key)) [
      | inl (o, e) ↦
          rw (e, open_task_lem req key d)
            (held (hold_price o (d.uuid d.drawn) (open_session (opened req key d))).0 _ (
              hold_price-Sound o (d.uuid d.drawn) (opened req key d)
                (quote-Priced c modes pricing repr req key o e) (opened-Sound req key d sound)))
      | inr (x, e) ↦ rw e sound
    ]

    -- A call of `create_task` on a committed session with sound books leaves them sound, however
    -- it ends.
    pub create_task-IsSound :
        IsSound opening d.stored
        → IsSound opening (create_task c modes pricing repr req key start).1.stored
    unfolding create_task on_session
    create_task-IsSound sound = elim (Result-cases (Modes.get modes req.mode)) [
      | inr (x, e) ↦ rw e sound
      | inl (m, e) ↦ elim (Bool-cases (m.type == req.task_type)) [
        | inr other ↦ rw (e, other) sound
        | inl typed ↦
            let (o, q) = find_existing-pure req.request_id (key_id key) (open_session d) in
            rw (e, typed, q) (accept-Sound o sound)
      ]
    ]
