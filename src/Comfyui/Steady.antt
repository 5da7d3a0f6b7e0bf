-- ===== src/Comfyui/Steady.antt =====
-- The provider `comfyui` keeps the contract of a provider.
use ai_generation_api.Prelude.{
  ℕ, zero, suc, ◌+◌, ◌/◌, ◌≤◌, min, String, Option, none, some, List, ltb, Bool-cases, inl, inr,
  arith, ◌==◌, string_eq,
}
use ai_generation_api.Prelude.Int.{ℤ, pos}
use ai_generation_api.Exec.{Result, ok, err}
use ai_generation_api.Engine.{GenerationRequest, GenerationResult}
use ai_generation_api.Engine.Contract.{
  Steady, IsSteady, Steady-report, Steady-err, Steady-full, Steady-weaken,
}
use ai_generation_api.Comfyui.{
  FileInfo, Answer, unreachable, absent, broken, entry, extract_output, finish, fetched, on_answer,
  poll, wait,
}
use ai_generation_api.Comfyui.Generate.{
  Setup, submit, await, with_workflow, generate, comfyui_provider,
}

abbrev level : ℕ → ℤ
level waited = pos (min 90 (10 + waited / 1000))

module _ (lower : String → String) (download : FileInfo → Result String)
    (model : Option String) where
  fetched-Steady :
      (waited : ℕ) (ext ctype : String) (body : Result String)
      → Steady (level waited) (fetched lower download model ext ctype body)
  fetched-Steady waited ext ctype (err e) = Steady-err _ _
  fetched-Steady waited ext ctype (ok body) = Steady-full (level waited) _ (omega arith)

  finish-Steady :
      (waited : ℕ) (o : Option (FileInfo × String × String)) (errors : List String)
      → Steady (level waited) (finish lower download model o errors)
  finish-Steady waited none errors = Steady-err _ _
  finish-Steady waited (some (info, ext, ctype)) errors =
      fetched-Steady waited ext ctype (download info)

  on_answer-Steady :
      (a : Answer) (waited later : ℕ) (rest : List ℤ × Result GenerationResult)
      → waited ≤ later
      → Steady (level later) rest
      → Steady (level waited) (on_answer lower download model a later rest)
  on_answer-Steady unreachable waited later rest h s = Steady-weaken _ _ rest (omega arith) s
  on_answer-Steady absent waited later rest h s =
      Steady-report (level waited) (level later) rest (omega arith) (omega arith) s
  on_answer-Steady (broken e) waited later rest h s = Steady-err _ _
  on_answer-Steady (entry outputs errors) waited later rest h s =
      finish-Steady waited (extract_output lower outputs) errors

  module _ (timeout interval : ℕ) (answers : ℕ → Answer) where
    poll-Steady :
        (fuel n waited : ℕ)
        → Steady (level waited) (poll lower download model timeout interval answers fuel n waited)
    unfolding poll
    poll-Steady zero n waited = Steady-err _ _
    poll-Steady (suc fuel) n waited = elim (Bool-cases (ltb waited timeout)) [
      | inl early ↦ rw early (
          on_answer-Steady (answers n) waited (waited + interval) _ (omega arith)
            (poll-Steady fuel (suc n) (waited + interval)))
      | inr late ↦ rw late (Steady-err _ _)
    ]

    wait-Steady :
        (fuel : ℕ) → Steady (pos 0) (wait lower download model timeout interval answers fuel)
    unfolding wait
    wait-Steady fuel =
        Steady-report (pos 0) (pos 10) (poll lower download model timeout interval answers fuel 0 0)
          (omega arith) (omega arith) (Steady-weaken _ _ _ (omega arith) (poll-Steady fuel 0 0))

module _ (c : Setup) (fuel : ℕ) where
  await-Steady : (req : GenerationRequest) (r : Result String) → Steady (pos 0) (await c fuel req r)
  await-Steady req (err e) = Steady-err _ _
  await-Steady req (ok id) = wait-Steady _ _ _ c.timeout c.interval (c.client.history id) fuel

  with_workflow-Steady :
      (req : GenerationRequest) (drawn : ℕ) (w : Option String)
      → Steady (pos 0) (with_workflow c fuel req drawn w)
  with_workflow-Steady req drawn none = Steady-err _ _
  with_workflow-Steady req drawn (some w) = elim (Bool-cases (w == "")) [
    | inl e ↦ rw e (Steady-err _ _)
    | inr e ↦ rw e (await-Steady req (submit c req w drawn).0)
  ]

  -- With any fuel: the progress that ComfyUI's provider reports never falls and stays from 0 to
  -- 100, and where it returns a result the last report is 100.
  pub comfyui_provider-IsSteady : (drawn : ℕ → ℕ) → IsSteady (comfyui_provider c fuel drawn)
  unfolding generate
  comfyui_provider-IsSteady drawn = record {
    steady = λ req run. with_workflow-Steady req (drawn run) req.workflow;
  }
