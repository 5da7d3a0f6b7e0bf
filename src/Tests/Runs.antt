-- ===== src/Tests/Runs.antt =====
-- Runs of the worker: a generation that succeeds, one that fails, and the callbacks.
use ai_generation_api.Prelude.{
  ◌⊎◌, false, ℕ, suc, ◌+◌, ◌<◌, ◌≡◌, refl, inr, true, none, some, [], ◌∷◌, length, string_eq,
  option_eq, arith,
}
use ai_generation_api.Prelude.Int.{pos, negsuc, ◌+ℤ◌}
use ai_generation_api.Errors.{other, integrity_error}
use ai_generation_api.Exec.{Result, ok, err}
use ai_generation_api.Value.{end, dict}
use ai_generation_api.Models.{
  Task, ApiKey_keyed, Task_keyed, Webhook_keyed, EntryType, EntryType-discrete, failed,
}
use ai_generation_api.Models.Table
use ai_generation_api.Session.{Database}
use ai_generation_api.Safety.{Detector}
use ai_generation_api.BillingRepo.{balance, has_entry}
use ai_generation_api.Billing.Sound.{IsSound}
use ai_generation_api.World.{World}
use ai_generation_api.World.Hoare.{Ends}
use ai_generation_api.Callback.{send_callback, new_hook}
use ai_generation_api.Callback.Attempts.{IsError}
use ai_generation_api.Callback.Delivery.{send_callback-Final}
use ai_generation_api.Callback.Delivery
use ai_generation_api.Callback.Frame.{frame, frame-send_callback}
use ai_generation_api.Engine.{Engine, Provider, GenerationResult, text}
use ai_generation_api.DeadLetter.{dead_letter}
use ai_generation_api.Worker.{process_generation, run_task}
use ai_generation_api.Worker.Ends
use ai_generation_api.Worker.Ends.{Outcome, process_generation-Outcome, run_task-Final}
use ai_generation_api.Worker.Invariants.{
  Bounded, IsSound-process_generation, progress-process_generation,
}
use ai_generation_api.Worker.Refunds.{dead_letter-refund}
use ai_generation_api.Worker.Settles.{IsState}
use ai_generation_api.Tests.Retries.{tenacity}
use ai_generation_api.Tests.Samples.{
  settings, paid_portrait, portrait_mode, tables_of, database_of, entry, fresh_database,
}
use ai_generation_api.Tests.Money.{opening, fresh-IsSound}

abbrev camera : Detector
camera = record {
  Image = ℕ;
  is_blank = λ n. false;
  faces = λ n. inr [];
  rounded = λ a. "age";
  digits = λ n. "n";
}

-- It reports a progress that is out of range.
abbrev provider_of : Result GenerationResult → Provider
provider_of r = record {
  name = "mock";
  reports = λ req run. pos 25 ∷ pos 150 ∷ [];
  generate = λ req run. r;
}

abbrev picture : GenerationResult
picture = record { content = "png"; ext = "png"; content_type = "image/png"; model = none }

abbrev engine_of : Result GenerationResult → Engine
engine_of r = record {
  settings = settings;
  modes = record { modes = portrait_mode ∷ []; models = dict end };
  models = λ name. none;
  detector = camera;
  load_bytes = λ u. some 1;
  render = λ template context. text template;
  mock = provider_of r;
  comfyui = provider_of r;
  save = λ key content type. ok "http://files/1.png";
  elapsed_ms = λ run. 5;
  tenacity = tenacity;
  describe = λ e. "error";
}

abbrev works : Engine
works = engine_of (ok picture)

abbrev breaks : Engine
breaks = engine_of (err (other "boom"))

abbrev world_of : Database → World
world_of d = record { database = d; replies = λ n. ok 200; posted = [] }

abbrev charged : World
charged =
    world_of (database_of (tables_of (paid_portrait ∷ []) (entry EntryType.hold (negsuc 29) ∷ [])))

progress-process_generation_example : Bounded (process_generation works "t1" 0 charged).1.stored
progress-process_generation_example =
    progress-process_generation works "t1" 0 charged ((omega arith, omega arith), tt)

IsSound-process_generation_example :
    IsSound opening (process_generation works "t1" 0 (world_of fresh_database)).1.stored
IsSound-process_generation_example =
    IsSound-process_generation works "t1" 0 (world_of fresh_database) opening fresh-IsSound

process_generation-Outcome_example :
    Ends
      (Outcome breaks "t1" 0)
      (λ _. IsState "t1" failed)
      (process_generation breaks "t1" 0 charged).0
      (process_generation breaks "t1" 0 charged).1.stored
unfolding Table.get string_eq
process_generation-Outcome_example = process_generation-Outcome breaks "t1" 0 charged refl

run_task-Final_example :
    Ends
      (Ends.Final breaks "t1")
      (λ _. IsState "t1" failed)
      (run_task breaks 2 "t1" 0 charged).0
      (run_task breaks 2 "t1" 0 charged).1.stored
unfolding Table.get string_eq
run_task-Final_example = run_task-Final breaks "t1" charged refl

dead_letter-refund_example :
    let after = (dead_letter breaks "t1" "boom" charged).1.stored in
    (has_entry "t1" EntryType.refund after ≡ true)
    × (balance "k1" after ≡ balance "k1" charged.stored +ℤ pos 30)
unfolding Table.get string_eq has_entry option_eq EntryType-discrete
dead_letter-refund_example =
    dead_letter-refund breaks "t1" "boom" charged paid_portrait "k1" (pos 30) refl refl refl refl
      refl refl

abbrev hook : World
hook = (send_callback tenacity settings "t1" "http://partner" end charged).1

send_callback-Final_example :
    ((Table.get "t1" charged.stored.tasks ≡ none)
      × ((send_callback tenacity settings "t1" "http://partner" end charged).0
          ≡ err integrity_error)
      × (hook.posted ≡ charged.posted)
      × (hook.stored ≡ charged.stored))
    ⊎ (((t : Task) × (Table.get "t1" charged.stored.tasks ≡ some t))
        × ((count : ℕ) × (count < 2)
            × ((k : ℕ) → k < count → IsError (charged.replies (0 + k)))
            × (IsError (charged.replies (0 + count)) → suc count ≡ 2)
            × (length hook.posted ≡ 0 + suc count)
            × Delivery.Final
                (new_hook "t1" "http://partner" end "id")
                (charged.replies (0 + count))
                (suc count)
                (send_callback tenacity settings "t1" "http://partner" end charged).0
                (Table.get "id" hook.stored.webhooks)))
unfolding Table.get
send_callback-Final_example =
    send_callback-Final tenacity settings 1 "t1" "http://partner" end charged refl (λ h. cc) refl

frame-send_callback_example : frame hook.stored ≡ frame charged.stored
frame-send_callback_example =
    frame-send_callback tenacity settings "t1" "http://partner" end charged
