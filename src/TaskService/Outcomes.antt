-- ===== src/TaskService/Outcomes.antt =====
-- Every end of a call of `create_task`.
use ai_generation_api.Prelude.{
  String, ◌≡◌, refl, ap, ◌∙◌, ◌⊎◌, if◌then◌else◌, Option-cases, Bool, true, false, Option, none,
  some, List, [], ◌∷◌, ◌++◌, ◌==◌, string_eq, arith, Bool-cases, inl, inr, ==_self,
}
use ai_generation_api.Prelude.Int.{ℤ}
use ai_generation_api.Errors.{Error, raised, payment_required}
use ai_generation_api.Exec.{Result, ok, err, Result-cases}
use ai_generation_api.Models.{ApiKey, ApiKey_keyed, Task, Task_keyed, EntryType, Tables}
use ai_generation_api.Models.Table
use ai_generation_api.Session.{Database, open_session, commit, write}
use ai_generation_api.Settings.{Settings}
use ai_generation_api.Value.{Value}
use ai_generation_api.Modes
use ai_generation_api.Modes.{ModeRegistry, ModeConfig}
use ai_generation_api.Pricing.{PricingRegistry}
use ai_generation_api.BillingRepo.{covered, has_entry}
use ai_generation_api.TaskRepo
use ai_generation_api.Billing
use ai_generation_api.Billing.Movement.{charged}
use ai_generation_api.Billing.Commits.{hold_row}
use ai_generation_api.Billing.Charge.{reserve_again}
use ai_generation_api.TaskService.{
  GenerateRequest, Message, App, on_session, key_id, queue_of, find_existing, quote, create_task,
  sent, delivered, reject, wrong_type,
}
use ai_generation_api.TaskService.Accept
use ai_generation_api.TaskService.Accept.{opened, open_task_lem, queued_lem}
use ai_generation_api.TaskService.Books.{find_existing-pure}

module _ (c : Settings) (modes : ModeRegistry) (pricing : PricingRegistry) (repr : Value → String)
    (req : GenerateRequest) (key : Option ApiKey) (d : Database) (broker : List Message)
    (outage : Option Error) where
  abbrev start : App
  start = record { session = open_session d; broker = broker; outage = outage }

  abbrev id : String
  id = d.uuid d.drawn

  abbrev message : Message
  message = record { queue = queue_of req.task_type; task_id = id }

  abbrev pub Quoted : Option (ApiKey × ℤ) → Type 0
  Quoted o = quote c modes pricing repr req key ≡ ok o

  abbrev pub Searched : Option Task → Type 0
  Searched o = find_existing req.request_id (key_id key) (open_session d) ≡ (ok o, open_session d)

  -- The tables with the new task, after the reservation, if one is asked for: the balance covers
  -- the price, which is charged unless the id had a hold already.
  abbrev pub Holds : Option (ApiKey × ℤ) → Tables → Type 0
  Holds none t = t ≡ (opened req key d).stored
  Holds (some (k, price)) t =
      (covered (Table.get k.id d.stored.api_keys) price ≡ true)
      × (t ≡ (
          if has_entry id EntryType.hold d.stored
          then (opened req key d).stored
          else charged (hold_row k id price (opened req key d)) id price (opened req key d).stored))

  abbrev pub IsOpened : App → Type 0
  IsOpened a = (o : Option (ApiKey × ℤ)) × (Quoted o × Holds o a.stored)

  -- The mode is unknown or disabled, of another type, or there is no price.
  abbrev pub IsRefused : Error → Type 0
  IsRefused e =
      (Modes.get modes req.mode ≡ err e)
      ⊎ (((m : ModeConfig) × ((Modes.get modes req.mode ≡ ok m)
              × (((m.type == req.task_type) ≡ false) × (e ≡ wrong_type req m))))
          ⊎ (quote c modes pricing repr req key ≡ err e))

  -- The balance does not cover the price: the new task is there and failed.
  abbrev pub IsUnpaid : Error → App → Type 0
  IsUnpaid e a =
      (k : ApiKey) × ((price : ℤ) × (Quoted (some (k, price))
          × ((covered (Table.get k.id d.stored.api_keys) price ≡ false)
              × ((e ≡ raised payment_required "insufficient balance")
                  × ((a.broker ≡ broker)
                      × (a.stored ≡ TaskRepo.with_task id reject (opened req key d).stored))))))

  abbrev pub Outcome : Result (String × Bool) → App → Type 0
  Outcome (ok (i, true)) a =
      (i ≡ id) × (outage ≡ none) × (a.broker ≡ broker ++ message ∷ []) × IsOpened a
  Outcome (ok (i, false)) a = (a ≡ start) × ((t : Task) × (Searched (some t) × (t.id ≡ i)))
  Outcome (err e) a =
      (IsRefused e × (a ≡ start))
      ⊎ (IsUnpaid e a ⊎ ((outage ≡ some e) × (a.broker ≡ broker) × IsOpened a))

  abbrev pub Ended : Result (String × Bool) × App → Type 0
  Ended (r, a) = Outcome r a

  abbrev call : Result (String × Bool) × App
  call = create_task c modes pricing repr req key start

  -- A task that was opened, and the message for it.
  finished :
      (p : Result (String × Bool) × App)
      → p.0 ≡ sent outage (id, true)
      → p.1.broker ≡ delivered outage broker message
      → IsOpened p.1
      → Ended p
  finished p replied queued made = elim (Option-cases outage) [
    | inl up ↦ rw (replied, up) (refl, refl, rw up at queued, made)
    | inr (e, down) ↦ rw (replied, down) (inr (inr (refl, rw down at queued, made)))
  ]

  module _ (mode : ModeConfig) (known : Modes.get modes req.mode ≡ ok mode)
      (typed : mode.type ≡ req.task_type) where
    module _ (fresh : Table.get (d.uuid d.drawn) d.stored.tasks ≡ none)
        (first : Searched none) where
      held_lem :
          (k : ApiKey) (price : ℤ)
          → Quoted (some (k, price))
          → (Billing.reserve k id price (open_session (opened req key d))).0 ≡ ok tt
          → call ≡ (
            sent outage (id, true),
            record {
              session = (Billing.reserve k id price (open_session (opened req key d))).1;
              broker = delivered outage broker message;
              outage = outage;
            },
          )
      unfolding create_task on_session
      held_lem k price priced reserved =
          rw
            (
              known,
              typed,
              ==_self req.task_type,
              first,
              priced,
              open_task_lem req key d,
              reserved,
              queued_lem
                  (record {
                    session = (Billing.reserve k id price (open_session (opened req key d))).1;
                    broker = broker;
                    outage = outage;
                  })
                  (queue_of req.task_type) id (id, true),
            )
            refl

      billed : (k : ApiKey) (price : ℤ) → Quoted (some (k, price)) → Ended call
      unfolding create_task on_session has_entry commit write
      billed k price priced = elim (Bool-cases (covered (Table.get k.id d.stored.api_keys) price)) [
        | inr short ↦
            rw
              (Accept.short_lem c modes pricing repr req key d broker outage mode k price known
                typed first priced fresh short)
              (inr (inl (k, (price, (priced, (short, (refl, (refl, refl))))))))
        | inl enough ↦ elim (Bool-cases (has_entry id EntryType.hold d.stored)) [
          | inr new ↦
              let paid =
                Accept.pays_lem c modes pricing repr req key d broker outage mode k price known
                  typed first priced fresh enough new in
              finished call paid.0 paid.1 (some (k, price), (priced, (enough, rw new paid.2)))
          | inl held ↦
              let again = reserve_again k id price (opened req key d) enough held in
              let e = held_lem k price priced again.0 in
              finished call (ap (λ p. p.0) e) (ap (λ p. p.1.broker) e)
                (some (k, price), (priced, (enough, rw held (ap (λ p. p.1.stored) e ∙ again.1))))
        ]
      ]

      -- The price of a request, and what follows.
      quoted : (o : Option (ApiKey × ℤ)) → Quoted o → Ended call
      unfolding create_task on_session commit write
      quoted none e =
          let sending : call ≡ (
            sent outage (id, true),
            record {
              session = open_session (opened req key d);
              broker = delivered outage broker message;
              outage = outage;
            },
          ) =
            rw
              (
                known,
                typed,
                ==_self req.task_type,
                first,
                e,
                open_task_lem req key d,
                queued_lem
                    (record {
                      session = open_session (opened req key d);
                      broker = broker;
                      outage = outage;
                    })
                    (queue_of req.task_type) id (id, true),
              )
              refl in
          finished call (ap (λ p. p.0) sending) (ap (λ p. p.1.broker) sending)
            (none, (e, ap (λ p. p.1.stored) sending))
      quoted (some (k, price)) e = billed k price e

    asked :
        Table.get (d.uuid d.drawn) d.stored.tasks ≡ none
        → (o : Option Task) → Searched o
        → Ended call
    unfolding create_task on_session
    asked fresh (some t) q = rw (known, typed, ==_self req.task_type, q) (refl, (t, (q, refl)))
    asked fresh none q = elim (Result-cases (quote c modes pricing repr req key)) [
      | inl (o, e) ↦ quoted fresh q o e
      | inr (x, e) ↦ rw (known, typed, ==_self req.task_type, q, e) (inl (inr (inr e), refl))
    ]

  -- A call on a committed session where the next id is free. If it replies with a new task, the
  -- broker is reachable, the reply is the next id, one message for it was added on the queue of
  -- its type, and the tables have the new task after the reservation, if one is asked for. If it
  -- replies with an earlier task, it is the one that the query found, and nothing changed. If it
  -- raises, then nothing changed and the mode or the price is refused; or the balance does not
  -- cover the price, the error is the 402, no message was added, and the new task is there and
  -- failed; or the broker's error passes, no message was added, and the new task stays, with its
  -- reservation.
  pub create_task-Outcome :
      Table.get (d.uuid d.drawn) d.stored.tasks ≡ none
      → let (r, a) = create_task c modes pricing repr req key start in Outcome r a
  unfolding create_task
  create_task-Outcome fresh = elim (Result-cases (Modes.get modes req.mode)) [
    | inr (x, e) ↦ rw e (inl (inl e, refl))
    | inl (m, e) ↦ elim (Bool-cases (m.type == req.task_type)) [
      | inr other ↦ rw (e, other) (inl (inr (inl (m, (e, (other, refl)))), refl))
      | inl typed ↦
          let (o, q) = find_existing-pure req.request_id (key_id key) (open_session d) in
          asked m e (ground arith) fresh o q
    ]
  ]
