-- ===== src/Worker/Settles.antt =====
-- How a run of the task ends: what is returned, and the state of the task's row.
use mathlib.Core.Option
use ai_generation_api.Prelude.{
  ℕ, String, ◌<>◌, ◌≡◌, refl, ap, ◌∙◌, Bool, true, Option, none, some, is_some, inl, inr, string_eq,
  Option-cases, arith,
}
use ai_generation_api.Errors.{Error}
use ai_generation_api.Models.{Task, Task_keyed, TaskState, completed, failed, Tables}
use ai_generation_api.Models.Table
use ai_generation_api.Session.{open_session, commit, write}
use ai_generation_api.Value.{Fields}
use ai_generation_api.Modes
use ai_generation_api.TaskRepo
use ai_generation_api.Billing
use ai_generation_api.Billing.{set_price}
use ai_generation_api.Billing.Movement.{Movement, nothing, charge, give_back, audit, deposit}
use ai_generation_api.World.Hoare.{Triple, Block, bind, block_bind, of_block, weaken}
use ai_generation_api.Callback.Frame.{frame}
use ai_generation_api.Engine.{Engine, resolve, get_provider, build_prompt}
use ai_generation_api.DeadLetter.{
  swallow, callback_of, fail_fields, dead_event, failure_payload, meta_of, record_failure,
  dead_letter,
}
use ai_generation_api.Worker.{
  start_fields, done_fields, success_detail, success_payload, context_of, request_of,
  generation_row, check_safety, record_success, send_success_callback, work,
}
use ai_generation_api.Worker.Blocks.{
  Change, started, done, gave_up, IsStable, IsInvariant, add_log_keeps, add_generation_keeps,
  add_event_keeps, get_keeps, if_keeps, refund_keeps, audit_keeps, update_keeps, notify_keeps,
}
use ai_generation_api.Worker.Keeps.{lift_keeps, generate_keeps}
use ai_generation_api.Worker.Invariants.{Change-id}

-- The state of a task's row, if there is one.
abbrev pub state_of : String → Tables → Option TaskState
state_of id t = Option.map (λ x. x.status) (Table.get id t.tasks)

abbrev pub IsState : String → TaskState → Tables → Type 0
IsState id st t = state_of id t ≡ some st

abbrev pub HasTask : String → Tables → Type 0
HasTask id t = is_some (Table.get id t.tasks) ≡ true

state_of-framed :
    (id : String) (t t' : Tables)
    → frame t' ≡ frame t
    → Table.get id t'.tasks ≡ Table.get id t.tasks
state_of-framed id t t' e = ap (λ f. Table.get id f.0) e

state_of-moved : (id : String) (t t' : Tables) → Movement t t' → state_of id t' ≡ state_of id t
state_of-moved id t t' (nothing e) = rw e refl
state_of-moved id t t' (charge r task price _ _ _ _ _ _ e) =
    rw e (ground (arith, Table.get-update (set_price price) (λ x. refl) task id t.tasks))
state_of-moved id t t' (give_back _ _ _ _ _ _ _ _ _ _ _ e) = rw e refl
state_of-moved id t t' (audit _ _ _ _ e) = rw e refl
state_of-moved id t t' (deposit _ _ _ _ _ e) = rw e refl

IsState-IsStable : (id : String) (st : TaskState) → IsStable (IsState id st)
IsState-IsStable id st = record {
  framed = λ t t' e s. ap (Option.map (λ x. x.status)) (state_of-framed id t t' e) ∙ s;
  moved = λ t t' m s. state_of-moved id t t' m ∙ s;
}

HasTask-moved : (id : String) (t t' : Tables) → Movement t t' → HasTask id t → HasTask id t'
HasTask-moved id t t' m h = ground (arith, state_of-moved id t t' m)

pub HasTask-IsInvariant : (id : String) → IsInvariant (HasTask id)
HasTask-IsInvariant id = record {
  stable = record {
    framed = λ t t' e h. ap is_some (state_of-framed id t t' e) ∙ h;
    moved = HasTask-moved id;
  };
  changed = λ i f c t h. ground (arith, Table.get-update f (Change-id f c) i id t.tasks);
}

module _ (id : String) where
  -- An update that sets the state.
  update_sets :
      {E : Error → Tables → Type 0} (st : TaskState) (f : Task → Task)
      → Change f
      → ((t : Task) → (f t).status ≡ st)
      → Block (HasTask id) (TaskRepo.update id f) (λ _. IsState id st) E
  unfolding commit write
  update_sets st f c sets = record {
    ends = λ d h. elim (Option-cases (Table.get id d.stored.tasks)) [
      | inl missing ↦ absurd (ground arith)
      | inr (t, found) ↦ rw (TaskRepo.update_found id f (open_session d) t found) (
        rw (Table.get-update_self f (Change-id f c) id d.stored.tasks t found) (ap some (sets t)),
        refl,
      )
    ];
  }

  HasTask-IsState : (st : TaskState) (t : Tables) → IsState id st t → HasTask id t
  HasTask-IsState st t s = ground arith

  module _ (g : Engine) where
    record_failure_sets :
        (error : String)
        → Block
            (HasTask id)
            (record_failure g id error)
            (λ _. IsState id failed)
            (λ _. IsState id failed)
    unfolding record_failure
    record_failure_sets error =
        let stable = IsState-IsStable id failed in
        block_bind _ _ (update_sets failed (fail_fields error) (gave_up error) (λ t. refl)) (λ _.
          block_bind _ _ (add_event_keeps stable (dead_event id error)) (λ _.
            block_bind _ _
              (if_keeps stable g.billing_enabled (swallow (Billing.refund id))
                (refund_keeps stable id))
              (λ _. get_keeps stable id)))

    pub dead_letter_sets :
        (error : String)
        → Triple
            (HasTask id)
            (dead_letter g id error)
            (λ _. IsState id failed)
            (λ _. IsState id failed)
    unfolding dead_letter
    dead_letter_sets error =
        bind _ _ (of_block (record_failure g id error) (record_failure_sets error)) (λ t.
          notify_keeps g (IsState-IsStable id failed).framed id
            (failure_payload id error (meta_of t)) (callback_of t))

    record_success_sets :
        (billing : Bool) (row : _) (ms : ℕ) (url : String)
        → Block
            (HasTask id)
            (record_success billing id row ms url)
            (λ _. IsState id completed)
            (λ _. HasTask id)
    unfolding record_success
    record_success_sets billing row ms url =
        let stable = IsState-IsStable id completed in
        block_bind _ _ (add_generation_keeps (HasTask-IsInvariant id).stable row (λ t h missing. h))
          (λ _.
            block_bind _ _ (update_sets completed (done_fields url ms) (done url ms) (λ t. refl))
              (λ _.
                block_bind _ _
                  (add_log_keeps stable id "completed" "info" none (success_detail url ms)
                    (λ t s missing. HasTask-IsState completed t s))
                  (λ _.
                    if_keeps stable billing (swallow (Billing.commit_charge_audit id))
                      (audit_keeps stable id))))

    callback_keeps_IsState :
        (url : String) (ms : ℕ) (meta : Fields)
        → Triple
            (IsState id completed)
            (send_success_callback g id url ms meta)
            (λ _. IsState id completed)
            (λ _. HasTask id)
    unfolding send_success_callback
    callback_keeps_IsState url ms meta =
        let stable = IsState-IsStable id completed in
        weaken (λ _. HasTask id) _ (λ e t s. HasTask-IsState completed t s)
          (bind _ _ (of_block (TaskRepo.get id) (get_keeps stable id))
            (λ t. notify_keeps g stable.framed id (success_payload id url ms meta) (callback_of t)))

    pub work_sets :
        (retries : ℕ) (t : Task)
        → Triple (HasTask id) (work g id retries t) (λ _. IsState id completed) (λ _. HasTask id)
    unfolding work
    work_sets retries t =
        let here = HasTask-IsInvariant id in
        bind _ _
          (of_block (TaskRepo.update id start_fields) (update_keeps here id start_fields started))
          (λ _. bind _ _ (lift_keeps (HasTask id) (check_safety g t)) (λ _.
            bind _ _ (lift_keeps (HasTask id) (Modes.get g.modes t.mode)) (λ mode.
              bind _ _ (lift_keeps (HasTask id) (build_prompt g mode (context_of t))) (λ prompts.
                bind _ _
                  (generate_keeps (HasTask id) here (get_provider g) retries
                    (request_of id t mode (resolve (g.models mode.model)) prompts))
                  (λ result.
                    bind _ _
                      (lift_keeps (HasTask id)
                        (g.save (id <> ("." <> result.ext)) result.content result.content_type))
                      (λ url.
                        bind _ _
                          (of_block
                            (record_success g.billing_enabled id
                              (generation_row g id t mode prompts result url (g.elapsed_ms retries))
                              (g.elapsed_ms retries) url)
                            (record_success_sets g.billing_enabled
                              (generation_row g id t mode prompts result url (g.elapsed_ms retries))
                              (g.elapsed_ms retries) url))
                          (λ _. callback_keeps_IsState url (g.elapsed_ms retries) t.meta)))))))
