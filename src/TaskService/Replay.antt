-- ===== src/TaskService/Replay.antt =====
-- A request that is sent again: `request_id` answers with the task of the first call.
use mathlib.Core.Option
use ai_generation_api.Prelude.{
  String, ◌≡◌, ◌≢◌, refl, true, false, Option, none, some, List, string_eq, option_eq, arith,
  Bool-cases, Option-cases, inl, inr, find, ==_self, ==_ne,
}
use ai_generation_api.Prelude.Int.{ℤ}
use ai_generation_api.Errors.{Error}
use ai_generation_api.Exec.{ok}
use ai_generation_api.Models.{ApiKey, ApiKey_keyed, Task, Task_keyed, EntryType}
use ai_generation_api.Models.Table
use ai_generation_api.Session.{Database, open_session}
use ai_generation_api.Settings.{Settings}
use ai_generation_api.Value.{Value}
use ai_generation_api.Modes
use ai_generation_api.Modes.{ModeRegistry, ModeConfig}
use ai_generation_api.Pricing.{PricingRegistry}
use ai_generation_api.BillingRepo.{covered, has_entry}
use ai_generation_api.TaskRepo
use ai_generation_api.Billing
use ai_generation_api.TaskService.{
  GenerateRequest, Message, App, on_session, key_id, new_task, find_existing, reject, quote,
  create_task,
}
use ai_generation_api.TaskService.Accept
use ai_generation_api.TaskService.Accept.{opened}

-- The id of the task that the query for a request finds.
abbrev earlier : Option ApiKey → String → List Task → Option String
earlier key request tasks =
    Option.map (λ t. t.id) (find (TaskRepo.is_request (key_id key) request) tasks)

matches :
    (key : Option ApiKey) (request : String) (t : Task)
    → t.request_id ≡ some request
    → t.api_key_id ≡ key_id key
    → TaskRepo.is_request (key_id key) request t ≡ true
matches none request t given owner = rw (given, ==_self (some request)) refl
matches (some k) request t given owner =
    rw (given, owner, ==_self (some request), ==_self (some k.id)) (ground arith)

keeps_request :
    (owner : Option String) (request : String) (f : Task → Task)
    → ((t : Task) → (f t).request_id ≡ t.request_id)
    → ((t : Task) → (f t).api_key_id ≡ t.api_key_id)
    → (t : Task) → TaskRepo.is_request owner request (f t) ≡ TaskRepo.is_request owner request t
keeps_request none request f r o t = rw (r t) refl
keeps_request (some k) request f r o t = rw (r t, o t) refl

module _ (c : Settings) (modes : ModeRegistry) (pricing : PricingRegistry) (repr : Value → String)
    (req : GenerateRequest) (key : Option ApiKey) (request : String)
    (given : req.request_id ≡ some request) (named : request ≢ "") where
  module _ (mode : ModeConfig) (known : Modes.get modes req.mode ≡ ok mode)
      (typed : mode.type ≡ req.task_type) where
    replay_known :
        (d : Database) (broker : List Message) (outage : Option Error) (id : String)
        → earlier key request d.stored.tasks ≡ some id
        → let a : App = record { session = open_session d; broker = broker; outage = outage } in
          create_task c modes pricing repr req key a ≡ (ok (id, false), a)
    unfolding create_task on_session TaskRepo.get_by_request_id
    replay_known d broker outage id found =
        elim (Option-cases (find (TaskRepo.is_request (key_id key) request) d.stored.tasks)) [
          | inl missing ↦ absurd (ground arith)
          | inr (t, e) ↦
              let same : t.id ≡ id = ground arith in
              rw (known, typed, ==_self req.task_type, given, ==_ne request "" named, e, same) refl
        ]

    -- The tasks after an accepted or an unpaid call.
    earlier_new :
        (d : Database) (f : Task → Task)
        → ((t : Task)
            → TaskRepo.is_request (key_id key) request (f t)
              ≡ TaskRepo.is_request (key_id key) request t)
        → ((t : Task) → (f t).id ≡ t.id)
        → find (TaskRepo.is_request (key_id key) request) d.stored.tasks ≡ none
        → earlier key request (Table.update (d.uuid d.drawn) f (opened req key d).stored.tasks)
          ≡ some (d.uuid d.drawn)
    earlier_new d f keeps same first =
        let p = TaskRepo.is_request (key_id key) request in
        let e =
          Table.find-append_new p d.stored.tasks (new_task req key (d.uuid d.drawn)) first
            (matches key request (new_task req key (d.uuid d.drawn)) given refl) in
        rw (Table.find-update p (d.uuid d.drawn) f keeps same (opened req key d).stored.tasks, e)
          refl

    find_existing-none :
        (d : Database)
        → find (TaskRepo.is_request (key_id key) request) d.stored.tasks ≡ none
        → find_existing req.request_id (key_id key) (open_session d) ≡ (ok none, open_session d)
    unfolding TaskRepo.get_by_request_id
    find_existing-none d first = rw (given, ==_ne request "" named, first) refl

    -- A request with a nonempty id for a known mode of its type, that is priced and has no
    -- earlier task, is sent again after its first call, to the tables that this call left: the
    -- answer is the first call's task, and nothing is written or queued, whether the balance
    -- covered the first call or not, and whether the broker took its message or not.
    pub create_task_replay :
        (k : ApiKey) (price : ℤ) (d later : Database) (broker broker' : List Message)
        (outage outage' : Option Error)
        → find (TaskRepo.is_request (key_id key) request) d.stored.tasks ≡ none
        → quote c modes pricing repr req key ≡ ok (some (k, price))
        → has_entry (d.uuid d.drawn) EntryType.hold d.stored ≡ false
        → Table.get (d.uuid d.drawn) d.stored.tasks ≡ none
        → later.stored
          ≡ (create_task c modes pricing repr req key
              (record { session = open_session d; broker = broker; outage = outage })).1.stored
        → let again : App = record {
          session = open_session later;
          broker = broker';
          outage = outage';
        } in
          create_task c modes pricing repr req key again ≡ (ok (d.uuid d.drawn, false), again)
    create_task_replay k price d later broker broker' outage outage' first priced new fresh same =
        let asked = find_existing-none d first in
        elim (Bool-cases (covered (Table.get k.id d.stored.api_keys) price)) [
          | inl enough ↦ replay_known later broker' outage' (d.uuid d.drawn) (
              rw
                (
                  same,
                  Accept.tasks_pays c modes pricing repr req key d broker outage mode k price known
                      typed asked priced fresh enough new,
                )
                (earlier_new d (Billing.set_price price)
                  (keeps_request (key_id key) request (Billing.set_price price) (λ t. refl)
                    (λ t. refl))
                  (λ t. refl) first))
          | inr short ↦ replay_known later broker' outage' (d.uuid d.drawn) (
              rw
                (
                  same,
                  Accept.tasks_short c modes pricing repr req key d broker outage mode k price known
                      typed asked priced fresh short,
                )
                (earlier_new d reject
                  (keeps_request (key_id key) request reject (λ t. refl) (λ t. refl)) (λ t. refl)
                  first))
        ]
