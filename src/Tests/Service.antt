-- ===== src/Tests/Service.antt =====
-- Acceptance of a request: paid, not covered, and sent again.
use ai_generation_api.Prelude.{
  String, ◌≡◌, refl, true, false, none, some, [], ◌∷◌, ◌++◌, string_eq, option_eq,
}
use ai_generation_api.Prelude.Int.{ℤ, pos, ◌-ℤ◌}
use ai_generation_api.Errors.{raised, payment_required}
use ai_generation_api.Exec.{ok, err}
use ai_generation_api.Value
use ai_generation_api.Value.{Value, field, end, int, dict}
use ai_generation_api.Models.{ApiKey_keyed, Task_keyed}
use ai_generation_api.Models.Table
use ai_generation_api.Session.{Database, open_session}
use ai_generation_api.Modes
use ai_generation_api.Modes.{ModeRegistry}
use ai_generation_api.Pricing.{PricingRegistry, price_for, as_int}
use ai_generation_api.BillingRepo.{balance, has_entry}
use ai_generation_api.Billing
use ai_generation_api.TaskRepo
use ai_generation_api.TaskService.{App, queue_of, new_task, reject, create_task}
use ai_generation_api.TaskService.Accept.{create_task_pays, create_task_short}
use ai_generation_api.TaskService.Outcomes.{Outcome, create_task-Outcome}
use ai_generation_api.TaskService.Books.{create_task-IsSound}
use ai_generation_api.Billing.Sound.{IsSound}
use ai_generation_api.Tests.Money.{opening, fresh-IsSound}
use ai_generation_api.TaskService.Replay.{create_task_replay}
use ai_generation_api.Tests.Samples.{
  fresh_database, partner, settings, portrait_mode, request, tables_of, database_of,
}

abbrev pub modes : ModeRegistry
modes = record { modes = portrait_mode ∷ []; models = dict end }

abbrev pub repr : Value → String
repr v = "?"

abbrev pub prices : ℤ → PricingRegistry
prices p = record { defaults = end; modes = field "portrait" (int p) end; api_keys = [] }

abbrev empty : Database
empty = database_of (tables_of [] [])

abbrev pub start : App
start = record { session = open_session empty; broker = []; outage = none }

-- The call at a price of 30, which the balance of 100 covers.
abbrev paid : App
paid = (create_task settings modes (prices (pos 30)) repr request (some partner) start).1

create_task_pays_example :
    ((create_task settings modes (prices (pos 30)) repr request (some partner) start).0
      ≡ ok ("id", true))
    × (paid.broker ≡ [] ++ record { queue = queue_of "photo"; task_id = "id" } ∷ [])
    × (Table.get "id" paid.stored.tasks
        ≡ some (Billing.set_price (pos 30) (new_task request (some partner) "id")))
    × (balance "k1" paid.stored ≡ balance "k1" empty.stored -ℤ pos 30)
unfolding Modes.get string_eq price_for as_int Value.get Table.get has_entry
    TaskRepo.get_by_request_id
create_task_pays_example =
    create_task_pays settings modes (prices (pos 30)) repr request (some partner) empty [] none
      portrait_mode partner (pos 30) refl refl refl refl refl refl refl

-- At a price of 101.
abbrev short : App
short = (create_task settings modes (prices (pos 101)) repr request (some partner) start).1

create_task_short_example :
    ((create_task settings modes (prices (pos 101)) repr request (some partner) start).0
      ≡ err (raised payment_required "insufficient balance"))
    × (short.broker ≡ [])
    × (short.stored.ledger ≡ [])
    × (short.stored.api_keys ≡ partner ∷ [])
    × (Table.get "id" short.stored.tasks ≡ some (reject (new_task request (some partner) "id")))
unfolding Modes.get string_eq price_for as_int Value.get Table.get has_entry
    TaskRepo.get_by_request_id
create_task_short_example =
    create_task_short settings modes (prices (pos 101)) repr request (some partner) empty [] none
      portrait_mode partner (pos 101) refl refl refl refl refl refl

abbrev again : App
again = record { session = open_session (database_of short.stored); broker = []; outage = none }

-- The request that was refused for its balance is sent again: its failed task is the answer.
create_task_replay_example :
    create_task settings modes (prices (pos 101)) repr request (some partner) again
    ≡ (ok ("id", false), again)
unfolding Modes.get string_eq price_for as_int Value.get Table.get has_entry
create_task_replay_example =
    create_task_replay settings modes (prices (pos 101)) repr request (some partner) "r1" refl
      (λ h. cc) portrait_mode refl refl partner (pos 101) empty (database_of short.stored) [] []
      none none refl refl refl refl refl

-- The call on the sample database.
abbrev charging : App
charging = record { session = open_session fresh_database; broker = []; outage = none }

create_task-Outcome_example :
    Outcome settings modes
      (prices (pos 101))
      repr
      request
      (some partner)
      empty
      []
      none
      (create_task settings modes (prices (pos 101)) repr request (some partner) start).0
      short
unfolding Table.get
create_task-Outcome_example =
    create_task-Outcome settings modes (prices (pos 101)) repr request (some partner) empty [] none
      refl

create_task-IsSound_example :
    IsSound opening
      (create_task settings modes (prices (pos 30)) repr request (some partner) charging).1.stored
create_task-IsSound_example =
    create_task-IsSound opening settings modes (prices (pos 30)) repr request (some partner)
      fresh_database [] none fresh-IsSound
