-- ===== src/Worker/Keeps.antt =====
-- The properties of the tables that a run of the task keeps, whatever it meets.
use ai_generation_api.Prelude.{
  ℕ, String, ◌<>◌, Bool, true, false, ◌&&◌, min, ◌*◌, ◌+◌, Option, none, some, List, [], ◌∷◌, ltb,
  if◌then◌else◌,
}
use ai_generation_api.Prelude.Int.{ℤ}
use ai_generation_api.Errors.{Error}
use ai_generation_api.Exec.{Result, ok, err, Exec, lift, pure, ◌>>◌}
use ai_generation_api.Models.{Task, Tables, Generation}
use ai_generation_api.TaskRepo
use ai_generation_api.Billing
use ai_generation_api.World.{World}
use ai_generation_api.World.Hoare.{Ends, Triple, Block, bind, block_bind, of_block, of_result}
use ai_generation_api.Engine.{
  resolve, Engine, Verdict, finished, retry_after, Provider, GenerationRequest, get_provider,
  build_prompt,
}
use ai_generation_api.DeadLetter.{
  fail_fields, with_retries, dead_event, failure_payload, meta_of, swallow, callback_of,
  record_failure, dead_letter, fail_or_retry, log_error, handle, failure_of,
}
use ai_generation_api.Value.{Fields, end}
use ai_generation_api.Modes
use ai_generation_api.Worker.{
  success_detail, success_payload, done_fields, with_progress, context_of, request_of,
  generation_row, start_fields, check_safety, record_success, report_all, set_progress, generate,
  send_success_callback, work, process, process_generation,
}
use ai_generation_api.Worker.Blocks.{
  started, progressed, done, gave_up, retried, IsInvariant, Refused, add_log_keeps,
  add_generation_keeps, add_event_keeps, get_keeps, if_keeps, refund_keeps, audit_keeps,
  update_keeps, notify_keeps,
}

module _ {A : Type 0} (P : Tables → Type 0) where
  -- A result that changes nothing.
  lift-Ends : (r : Result A) (t : Tables) → P t → Ends (λ _. P) (λ _. P) r t
  lift-Ends (ok a) t p = p
  lift-Ends (err e) t p = p

  pub lift_keeps : (r : Result A) → Triple P (lift r) (λ _. P) (λ _. P)
  lift_keeps r = of_result r (lift-Ends r)

  kept : (r : Result A) (t : Tables) → Ends (λ _. P) (λ _. P) r t → P t
  kept (ok a) t p = p
  kept (err e) t p = p

module _ (P : Tables → Type 0) (i : IsInvariant P) where
  pub set_progress_keeps : (id : String) (x : ℤ) → Triple P (set_progress id x) (λ _. P) (λ _. P)
  unfolding set_progress
  set_progress_keeps id x =
      of_block (TaskRepo.update id (with_progress x))
        (update_keeps i id (with_progress x) (progressed x))

  pub report_all_keeps : (id : String) (ps : List ℤ) → Triple P (report_all id ps) (λ _. P) (λ _. P)
  unfolding report_all
  report_all_keeps id [] = record { ends = λ w p. p }
  report_all_keeps id (x ∷ ps) = record {
    ends = λ w p.
        (report_all_keeps id ps).ends (set_progress id x w).1
          (kept P (set_progress id x w).0 _ ((set_progress_keeps id x).ends w p));
  }

  pub generate_keeps :
      (provider : Provider) (run : ℕ) (req : GenerationRequest)
      → Triple P (generate provider run req) (λ _. P) (λ _. P)
  generate_keeps provider run req =
      bind (report_all req.task_id (provider.reports req run))
        (λ _. lift (provider.generate req run))
        (report_all_keeps req.task_id (provider.reports req run))
        (λ _. lift_keeps P (provider.generate req run))

  record_success_keeps :
      (billing : Bool) (id : String) (row : Generation) (ms : ℕ) (url : String)
      → Block P (record_success billing id row ms url) (λ _. P) (λ _. P)
  unfolding record_success
  record_success_keeps billing id row ms url =
      block_bind _ _ (add_generation_keeps i.stable row (λ t p missing. p)) (λ _.
        block_bind _ _ (update_keeps i id (done_fields url ms) (done url ms)) (λ _.
          block_bind _ _
            (add_log_keeps i.stable id "completed" "info" none (success_detail url ms)
              (λ t p missing. p))
            (λ _.
              if_keeps i.stable billing (swallow (Billing.commit_charge_audit id))
                (audit_keeps i.stable id))))

  module _ (g : Engine) where
    send_success_callback_keeps :
        (id url : String) (ms : ℕ) (meta : Fields)
        → Triple P (send_success_callback g id url ms meta) (λ _. P) (λ _. P)
    unfolding send_success_callback
    send_success_callback_keeps id url ms meta =
        bind _ _ (of_block (TaskRepo.get id) (get_keeps i.stable id))
          (λ t. notify_keeps g i.stable.framed id (success_payload id url ms meta) (callback_of t))

    work_keeps :
        (id : String) (retries : ℕ) (t : Task) → Triple P (work g id retries t) (λ _. P) (λ _. P)
    unfolding work
    work_keeps id retries t =
        bind _ _
          (of_block (TaskRepo.update id start_fields) (update_keeps i id start_fields started))
          (λ _. bind _ _ (lift_keeps P (check_safety g t)) (λ _.
            bind _ _ (lift_keeps P (Modes.get g.modes t.mode)) (λ mode.
              bind _ _ (lift_keeps P (build_prompt g mode (context_of t))) (λ prompts.
                bind _ _
                  (generate_keeps (get_provider g) retries
                    (request_of id t mode (resolve (g.models mode.model)) prompts))
                  (λ result.
                    bind _ _
                      (lift_keeps P
                        (g.save (id <> ("." <> result.ext)) result.content result.content_type))
                      (λ url.
                        bind _ _
                          (of_block
                            (record_success g.billing_enabled id
                              (generation_row g id t mode prompts result url (g.elapsed_ms retries))
                              (g.elapsed_ms retries) url)
                            (record_success_keeps g.billing_enabled id
                              (generation_row g id t mode prompts result url (g.elapsed_ms retries))
                              (g.elapsed_ms retries) url))
                          (λ _.
                            send_success_callback_keeps id url (g.elapsed_ms retries) t.meta)))))))

    record_failure_keeps :
        (id error : String) → Block P (record_failure g id error) (λ _. P) (λ _. P)
    unfolding record_failure
    record_failure_keeps id error =
        block_bind _ _ (update_keeps i id (fail_fields error) (gave_up error)) (λ _.
          block_bind _ _ (add_event_keeps i.stable (dead_event id error)) (λ _.
            block_bind _ _
              (if_keeps i.stable g.billing_enabled (swallow (Billing.refund id))
                (refund_keeps i.stable id))
              (λ _. get_keeps i.stable id)))

    dead_letter_keeps : (id error : String) → Triple P (dead_letter g id error) (λ _. P) (λ _. P)
    unfolding dead_letter
    dead_letter_keeps id error =
        bind _ _ (of_block (record_failure g id error) (record_failure_keeps id error)) (λ t.
          notify_keeps g i.stable.framed id (failure_payload id error (meta_of t)) (callback_of t))

    pub log_error_keeps :
        {E : Error → Tables → Type 0} (id : String) (retries : ℕ) (error : String)
        → Refused P E id
        → Block P (log_error g id retries error) (λ _. P) E
    log_error_keeps id retries error refused =
        block_bind _ _ (update_keeps i id (with_retries retries) (retried retries))
          (λ _. add_log_keeps i.stable id "error" "error" (some error) end refused)

    end_keeps :
        (again : Bool) (v : Verdict) (m : Exec World Unit)
        → Triple P m (λ _. P) (λ _. P)
        → Triple P (if again then pure v else (m >> pure finished)) (λ _. P) (λ _. P)
    end_keeps true v m h = record { ends = λ w p. p }
    end_keeps false v m h = bind _ _ h (λ _. record { ends = λ w p. p })

    fail_or_retry_keeps :
        (id : String) (retries : ℕ) (error : String) (retryable : Bool)
        → Triple P (fail_or_retry g id retries error retryable) (λ _. P) (λ _. P)
    unfolding fail_or_retry
    fail_or_retry_keeps id retries error retryable =
        bind _ _
          (of_block (log_error g id retries error)
            (log_error_keeps id retries error (λ t p missing. p)))
          (λ _.
            end_keeps (retryable && ltb retries g.task_max_retries)
              (retry_after (min 60 (10 * (retries + 1)))) (dead_letter g id error)
              (dead_letter_keeps id error))

    handle_keeps :
        (id : String) (retries : ℕ) (r : Result (Unit {0}))
        → Triple P (handle g id retries r) (λ _. P) (λ _. P)
    unfolding handle
    handle_keeps id retries (ok _) = record { ends = λ w p. p }
    handle_keeps id retries (err e) =
        fail_or_retry_keeps id retries (failure_of g e).0 (failure_of g e).1

    process_keeps :
        (id : String) (retries : ℕ) (t : Option Task)
        → Triple P (process g id retries t) (λ _. P) (λ _. P)
    process_keeps id retries none = record { ends = λ w p. p }
    process_keeps id retries (some t) = record {
      ends = λ w p.
          (handle_keeps id retries (work g id retries t w).0).ends (work g id retries t w).1
            (kept P (work g id retries t w).0 _ ((work_keeps id retries t).ends w p));
    }

    process_generation_keeps :
        (id : String) (retries : ℕ) → Triple P (process_generation g id retries) (λ _. P) (λ _. P)
    unfolding process_generation
    process_generation_keeps id retries =
        bind _ _ (of_block (TaskRepo.get id) (get_keeps i.stable id)) (process_keeps id retries)

    -- A property that the writes of the worker keep holds after any run of the task, one that ends in
    -- a retry or raises included.
    pub process_generation-Keeps :
        (id : String) (retries : ℕ) (w : World)
        → P w.stored
        → P (process_generation g id retries w).1.stored
    process_generation-Keeps id retries w p =
        kept P (process_generation g id retries w).0 _
          ((process_generation_keeps id retries).ends w p)
