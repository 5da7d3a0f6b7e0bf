-- ===== src/Callback/Frame.antt =====
-- A callback writes to the table of webhooks alone.
use ai_generation_api.Prelude.{
  ℕ, zero, suc, String, ◌≡◌, refl, ◌∙◌, ap, List, arith, ◌==◌, string_eq, Bool-cases, inl, inr,
  Option-cases,
}
use ai_generation_api.Errors.{http_error}
use ai_generation_api.Exec.{Result, ok, err}
use ai_generation_api.Models.Table
use ai_generation_api.Models.{ApiKey, Task, Task_keyed, BillingLedger, Tables}
use ai_generation_api.Session.{commit, write}
use ai_generation_api.Settings.{Settings}
use ai_generation_api.Value.{Fields}
use ai_generation_api.World.{World, in_session}
use ai_generation_api.Callback.{Tenacity, Locals, attempt, finalize, settle, send_callback}
use ai_generation_api.Callback.Attempts.{retry-Tries}
use ai_generation_api.Callback.Delivery.{first, send_callback-known, send_callback-unknown}

-- The tables of tasks and money.
abbrev pub frame : Tables → List Task × List BillingLedger × List ApiKey
frame t = (t.tasks, t.ledger, t.api_keys)

frame-settle :
    (id : String) (r : Result ℕ) (s : Locals)
    → frame (settle id r s).1.stored ≡ frame s.world.stored
unfolding in_session finalize commit write
frame-settle id (ok code) s = ground arith
frame-settle id (err (http_error t)) s = ground arith
frame-settle id (err e) s = refl

module _ (tenacity : Tenacity) (c : Settings) where
  retry-database :
      (n : ℕ) (url : String) (payload : Fields) (s : Locals)
      → (tenacity.retry n (attempt url payload) s).1.world.database ≡ s.world.database
  retry-database zero url payload s =
      rw (tenacity.retry-zero (attempt url payload) s)
        (retry-Tries url payload tenacity zero s).kept
  retry-database (suc n) url payload s = (retry-Tries url payload tenacity n s).kept

  -- A callback changes neither tasks, nor the ledger, nor the keys, whatever the servers reply.
  pub frame-send_callback :
      (task url : String) (payload : Fields) (w : World)
      → frame (send_callback tenacity c task url payload w).1.stored ≡ frame w.stored
  unfolding send_callback
  frame-send_callback task url payload w = elim (Bool-cases (url == "")) [
    | inl empty ↦ rw empty refl
    | inr given ↦ elim (Option-cases (Table.get task w.stored.tasks)) [
      | inl missing ↦ rw (send_callback-unknown tenacity c task url payload w given missing) refl
      | inr (t, found) ↦ rw (send_callback-known tenacity c task url payload w given t found) (
          frame-settle (w.uuid w.drawn) _ _
          ∙ ap (λ d. frame d.stored)
              (retry-database c.callback_max_retries url payload (first task url payload w)))
    ]
  ]
