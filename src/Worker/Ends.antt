-- ===== src/Worker/Ends.antt =====
-- The verdict of a run, and that the redeliveries of a message come to an end.
use ai_generation_api.Prelude.{
  ℕ, zero, suc, ◌+◌, ◌*◌, ◌≤◌, ◌<◌, min, String, ◌≡◌, refl, ◌⊎◌, Bool, ◌&&◌, inl, inr, ltb,
  Bool-cases, Option-cases, arith, if◌then◌else◌,
}
use ai_generation_api.Exec.{Result, ok, err, Exec, pure, continue, ◌>>◌}
use ai_generation_api.Models.{Task_keyed, completed, failed, Tables}
use ai_generation_api.Models.Table
use ai_generation_api.TaskRepo
use ai_generation_api.World.{World, in_session}
use ai_generation_api.World.Hoare.{Ends, Triple, bind, of_block}
use ai_generation_api.Engine.{Engine, Verdict, finished, retry_after}
use ai_generation_api.DeadLetter.{dead_letter, log_error, fail_or_retry, failure_of, handle}
use ai_generation_api.Worker.{work, process_generation, run_task, again}
use ai_generation_api.Worker.Keeps.{log_error_keeps}
use ai_generation_api.Worker.Settles.{
  IsState, HasTask, HasTask-IsInvariant, dead_letter_sets, work_sets,
}

abbrev pub IsSettled : String → Tables → Type 0
IsSettled id t = IsState id completed t ⊎ IsState id failed t

module _ (g : Engine) (id : String) where
  -- What a verdict says of the task, and of the pause before a retry.
  abbrev pub Outcome : ℕ → Verdict → Tables → Type 0
  Outcome retries finished t = IsSettled id t
  Outcome retries (retry_after s) t =
      HasTask id t × (retries < g.task_max_retries) × (10 ≤ s) × (s ≤ 60)

  end-Outcome :
      (retries : ℕ) (error : String) (retryable : Bool)
      → Triple
          (HasTask id)
          (if retryable && ltb retries g.task_max_retries
            then pure (retry_after (min 60 (10 * (retries + 1))))
            else (dead_letter g id error >> pure finished))
          (Outcome retries)
          (λ _. IsState id failed)
  end-Outcome retries error retryable =
      elim (Bool-cases (retryable && ltb retries g.task_max_retries)) [
        | inl again ↦
            rw again (record { ends = λ w h. (h, ground arith, ground arith, ground arith) })
        | inr over ↦ rw over (
            bind (dead_letter g id error) (λ _. pure finished) (dead_letter_sets id g error)
              (λ _. record { ends = λ w s. inr s }))
      ]

  fail_or_retry_ends :
      (retries : ℕ) (error : String) (retryable : Bool)
      → Triple
          (HasTask id)
          (fail_or_retry g id retries error retryable)
          (Outcome retries)
          (λ _. IsState id failed)
  unfolding fail_or_retry
  fail_or_retry_ends retries error retryable =
      bind (in_session (log_error g id retries error)) _
        (of_block (log_error g id retries error) (
          log_error_keeps (HasTask id) (HasTask-IsInvariant id) g id retries error
            (λ t known missing. absurd (ground arith))))
        (λ _. end-Outcome retries error retryable)

  after_work :
      (retries : ℕ) (r : Result (Unit {0})) (w : World)
      → Ends (λ _. IsState id completed) (λ _. HasTask id) r w.stored
      → Ends
          (Outcome retries)
          (λ _. IsState id failed)
          (handle g id retries r w).0
          (handle g id retries r w).1.stored
  unfolding handle
  after_work retries (ok _) w s = inl s
  after_work retries (err e) w h =
      (fail_or_retry_ends retries (failure_of g e).0 (failure_of g e).1).ends w h

  -- A run on a task that exists. If it returns, the task is completed or failed; if it asks for a
  -- retry, the task is there, `TASK_MAX_RETRIES` is not reached and the pause is from 10 to 60
  -- seconds; if it raises, the task is failed.
  pub process_generation-Outcome :
      (retries : ℕ) (w : World)
      → HasTask id w.stored
      → let (r, w') = process_generation g id retries w in
        Ends (Outcome retries) (λ _. IsState id failed) r w'.stored
  unfolding process_generation in_session TaskRepo.get
  process_generation-Outcome retries w h = elim (Option-cases (Table.get id w.stored.tasks)) [
    | inl missing ↦ absurd (ground arith)
    | inr (t, found) ↦ rw found (
        after_work retries (work g id retries t w).0 (work g id retries t w).1
          ((work_sets id g retries t).ends w h))
  ]

  abbrev pub Final : Verdict → Tables → Type 0
  Final v t = (v ≡ finished) × IsSettled id t

  -- What follows a run, where the next run ends as it should.
  then-Ends :
      (retries : ℕ) (rest : ℕ → Exec World Verdict)
      → ((v : World)
          → HasTask id v.stored
          → retries < g.task_max_retries
          → Ends Final
              (λ _. IsState id failed)
              (rest (suc retries) v).0
              (rest (suc retries) v).1.stored)
      → (r : Result Verdict) (v : World)
      → Ends (Outcome retries) (λ _. IsState id failed) r v.stored
      → let (r', v') = continue r (again g rest retries) v in
        Ends Final (λ _. IsState id failed) r' v'.stored
  then-Ends retries rest next (ok finished) v s = (refl, s)
  then-Ends retries rest next (ok (retry_after n)) v s = next v s.0 s.1
  then-Ends retries rest next (err e) v s = s

  runs_end :
      (fuel retries : ℕ) (w : World)
      → retries ≤ g.task_max_retries
      → fuel + retries ≡ suc g.task_max_retries
      → HasTask id w.stored
      → Ends Final
          (λ _. IsState id failed)
          (run_task g fuel id retries w).0
          (run_task g fuel id retries w).1.stored
  unfolding run_task
  runs_end zero retries w below all h = absurd (omega (arith, below, all))
  runs_end (suc fuel) retries w below all h =
      then-Ends retries (run_task g fuel id)
        (λ v here more.
          runs_end fuel (suc retries) v (omega (arith, more)) (omega (arith, all)) here)
        (process_generation g id retries w).0 (process_generation g id retries w).1
        (process_generation-Outcome retries w h)

  -- The deliveries of a task that exists, from retry 0 and each raising the number of retries by
  -- 1, end within `TASK_MAX_RETRIES + 1` runs: the last run returns with the task completed or
  -- failed, or raises with the task failed.
  pub run_task-Final :
      (w : World)
      → HasTask id w.stored
      → let (r, w') = run_task g (suc g.task_max_retries) id 0 w in
        Ends Final (λ _. IsState id failed) r w'.stored
  run_task-Final w h = runs_end (suc g.task_max_retries) 0 w (omega arith) (omega arith) h
