-- ===== src/TaskService/Accept.antt =====
-- What `create_task` does with a request.
use ai_generation_api.Prelude.{
  suc, String, ◌≡◌, refl, ap, ◌∙◌, Bool, true, false, Option, none, some, List, [], ◌∷◌, ◌++◌,
  string_eq, arith, ==_self, Option-cases, inl, inr,
}
use ai_generation_api.Prelude.Int.{ℤ, ◌-ℤ◌}
use ai_generation_api.Errors.{Error, raised, payment_required}
use ai_generation_api.Exec.{ok, err, pure, ◌>>◌}
use ai_generation_api.Models.{ApiKey, ApiKey_keyed, Task_keyed, EntryType}
use ai_generation_api.Models.Table
use ai_generation_api.Session.{Database, open_session, commit, write}
use ai_generation_api.Settings.{Settings}
use ai_generation_api.Value.{Value, field, end, str}
use ai_generation_api.Modes
use ai_generation_api.Modes.{ModeRegistry, ModeConfig}
use ai_generation_api.Pricing.{PricingRegistry}
use ai_generation_api.BillingRepo.{covered, has_entry, balance}
use ai_generation_api.TaskRepo
use ai_generation_api.Billing
use ai_generation_api.Billing.Movement.{charged, balance-move_balance_self}
use ai_generation_api.Billing.Commits.{hold_row}
use ai_generation_api.Billing.Charge.{reserve_short, reserve_pays}
use ai_generation_api.TaskService.{
  GenerateRequest, Message, App, on_session, key_id, new_task, find_existing, reject, open_task,
  queue_of, quote, sent, delivered, enqueue, create_task,
}

-- The database once the task's row and first log are committed.
abbrev pub opened : GenerateRequest → Option ApiKey → Database → Database
opened req key d = record d {
  drawn = suc d.drawn;
  stored = record d.stored {
    tasks = d.stored.tasks ++ new_task req key (d.uuid d.drawn) ∷ [];
    task_logs =
        d.stored.task_logs
        ++ record {
          task_id = d.uuid d.drawn;
          level = "info";
          event = "task_created";
          message = none;
          detail = field "mode" (str req.mode) end;
        }
          ∷ [];
  };
}

pub open_task_lem :
    (req : GenerateRequest) (key : Option ApiKey) (d : Database)
    → open_task req key (open_session d)
      ≡ (ok (new_task req key (d.uuid d.drawn)), open_session (opened req key d))
unfolding TaskRepo.create TaskRepo.add_log TaskRepo.add_row commit write
open_task_lem req key d =
    rw (Table.is_some-get_append d.stored.tasks (new_task req key (d.uuid d.drawn))) refl

-- The message and the reply that follows it.
pub queued_lem :
    (a : App) (queue id : String) (x : String × Bool)
    → (enqueue queue id >> pure x) a ≡ (
      sent a.outage x,
      record a { broker = delivered a.outage a.broker (record { queue = queue; task_id = id }) },
    )
queued_lem a queue id x = elim (Option-cases a.outage) [
  | inl up ↦ rw up refl
  | inr (e, down) ↦ rw down refl
]

module _ (c : Settings) (modes : ModeRegistry) (pricing : PricingRegistry) (repr : Value → String)
    (req : GenerateRequest) (key : Option ApiKey) (d : Database) (broker : List Message)
    (outage : Option Error) where
  abbrev pub before : App
  before = record { session = open_session d; broker = broker; outage = outage }

  abbrev pub id : String
  id = d.uuid d.drawn

  abbrev pub after : App
  after = (create_task c modes pricing repr req key before).1

  module _ (mode : ModeConfig) (k : ApiKey) (price : ℤ) (known : Modes.get modes req.mode ≡ ok mode)
      (typed : mode.type ≡ req.task_type)
      (first : find_existing req.request_id (key_id key) (open_session d)
        ≡ (ok none, open_session d))
      (priced : quote c modes pricing repr req key ≡ ok (some (k, price)))
      (fresh : Table.get (d.uuid d.drawn) d.stored.tasks ≡ none) where
    row : Table.get id (opened req key d).stored.tasks ≡ some (new_task req key id)
    row = Table.get-append_new d.stored.tasks (new_task req key id) fresh

    module _ (short : covered (Table.get k.id d.stored.api_keys) price ≡ false) where
      pub short_lem : create_task c modes pricing repr req key before ≡ (
        err (raised payment_required "insufficient balance"),
        record {
          session = commit (write (TaskRepo.with_task id reject) (open_session (opened req key d)));
          broker = broker;
          outage = outage;
        },
      )
      unfolding create_task on_session
      short_lem =
          rw
            (
              known,
              typed,
              ==_self req.task_type,
              first,
              priced,
              open_task_lem req key d,
              reserve_short k id price (opened req key d) short,
              TaskRepo.update_found id reject (open_session (opened req key d))
                  (new_task req key id) row,
            )
            refl

      pub tasks_short : after.stored.tasks ≡ Table.update id reject (opened req key d).stored.tasks
      unfolding commit write
      tasks_short = ap (λ r. r.1.stored.tasks) short_lem

      -- A request for a known mode of its type, with no earlier task, whose price the balance of
      -- the priced key does not cover, and whose new id is free: 402, no message, no ledger
      -- entry, every key as it was, and the new task is marked failed.
      pub create_task_short :
          ((create_task c modes pricing repr req key before).0
            ≡ err (raised payment_required "insufficient balance"))
          × (after.broker ≡ broker)
          × (after.stored.ledger ≡ d.stored.ledger)
          × (after.stored.api_keys ≡ d.stored.api_keys)
          × (Table.get (d.uuid d.drawn) after.stored.tasks
              ≡ some (reject (new_task req key (d.uuid d.drawn))))
      unfolding commit write
      create_task_short = (
        ap (λ r. r.0) short_lem,
        ap (λ r. r.1.broker) short_lem,
        ap (λ r. r.1.stored.ledger) short_lem,
        ap (λ r. r.1.stored.api_keys) short_lem,
        rw tasks_short (
            Table.get-update_self reject (λ t. refl) id (opened req key d).stored.tasks
              (new_task req key id) row),
      )

    module _ (enough : covered (Table.get k.id d.stored.api_keys) price ≡ true)
        (new : has_entry (d.uuid d.drawn) EntryType.hold d.stored ≡ false) where
      pub pays_lem :
          let (r, a) = create_task c modes pricing repr req key before in
          (r ≡ sent outage (id, true))
          × (a.broker
              ≡ delivered outage broker (record { queue = queue_of req.task_type; task_id = id }))
          × (a.stored
              ≡ charged (hold_row k id price (opened req key d)) id price (opened req key d).stored)
      unfolding create_task on_session has_entry
      pays_lem =
          let paid =
            reserve_pays k id price (opened req key d) (new_task req key id) enough row new in
          rw
            (
              known,
              typed,
              ==_self req.task_type,
              first,
              priced,
              open_task_lem req key d,
              paid.0,
              queued_lem
                  (record {
                    session = (Billing.reserve k id price (open_session (opened req key d))).1;
                    broker = broker;
                    outage = outage;
                  })
                  (queue_of req.task_type) id (id, true),
            )
            (refl, refl, paid.1)

      pub tasks_pays :
          after.stored.tasks
          ≡ Table.update id (Billing.set_price price) (opened req key d).stored.tasks
      tasks_pays = ap (λ t. t.tasks) pays_lem.2

      -- A request for a known mode of its type, with no earlier task, whose price the balance of
      -- the priced key covers, and whose new id is free and holds no charge: with a reachable
      -- broker the reply is the new id and one message for it goes to the queue of its type, and
      -- otherwise the broker's error is raised and no message goes; in both cases the task has
      -- its price, and the price is taken from the key's balance.
      pub create_task_pays :
          ((create_task c modes pricing repr req key before).0 ≡ sent outage (d.uuid d.drawn, true))
          × (after.broker
              ≡ delivered outage broker
                  (record { queue = queue_of req.task_type; task_id = d.uuid d.drawn }))
          × (Table.get (d.uuid d.drawn) after.stored.tasks
              ≡ some (Billing.set_price price (new_task req key (d.uuid d.drawn))))
          × (balance k.id after.stored ≡ balance k.id d.stored -ℤ price)
      unfolding balance
      create_task_pays = (
        pays_lem.0,
        pays_lem.1,
        rw tasks_pays (
            Table.get-update_self (Billing.set_price price) (λ t. refl) id
              (opened req key d).stored.tasks (new_task req key id) row),
        ap (balance k.id) pays_lem.2
            ∙ balance-move_balance_self k.id (λ b. b -ℤ price) d.stored (ground arith),
      )
