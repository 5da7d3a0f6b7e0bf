-- ===== src/Worker/Blocks.antt =====
-- What a property of the tables must satisfy for the worker's blocks to keep it.
use ai_generation_api.Prelude.{
  ℕ, String, ◌≡◌, refl, Bool, true, false, Option, none, some, inl, inr, Option-cases, Bool-cases,
  if◌then◌else◌, ◌==◌, string_eq, is_some,
}
use ai_generation_api.Prelude.Int.{ℤ}
use ai_generation_api.Errors.{Error, integrity_error}
use ai_generation_api.Exec.{Result, ok, err, Exec, modify}
use ai_generation_api.Models.{Task, Task_keyed, Tables, Generation, SystemEvent}
use ai_generation_api.Models.Table
use ai_generation_api.Session.{Session, open_session, commit, write}
use ai_generation_api.Value.{Fields}
use ai_generation_api.TaskRepo
use ai_generation_api.Billing
use ai_generation_api.Billing.Movement.{Movement}
use ai_generation_api.Billing.Commits.{refund-Commits, commit_charge_audit-Commits}
use ai_generation_api.World.Hoare.{Ends, Triple, Block, bind}
use ai_generation_api.Callback.{send_callback}
use ai_generation_api.Callback.Frame.{frame, frame-send_callback}
use ai_generation_api.Engine.{Engine}
use ai_generation_api.DeadLetter.{
  swallow, no_error, add_event, fail_fields, with_retries, notify, nothing,
}
use ai_generation_api.Worker.{start_fields, with_progress, done_fields, add_generation}

-- The changes that the worker makes to a task's row.
pub data Change : (Task → Task) → Type 0 where
  started : Change start_fields
  progressed : (p : ℤ) → Change (with_progress p)
  done : (url : String) (ms : ℕ) → Change (done_fields url ms)
  gave_up : (error : String) → Change (fail_fields error)
  retried : (n : ℕ) → Change (with_retries n)

-- A property that writes outside of tasks and money do not touch, and that a movement keeps.
pub record IsStable (P : Tables → Type 0) : Type 0 where
  pub framed : (t t' : Tables) → frame t' ≡ frame t → P t → P t'
  pub moved : (t t' : Tables) → Movement t t' → P t → P t'

pub record IsInvariant (P : Tables → Type 0) : Type 0 where
  pub stable : IsStable P
  pub changed :
      (id : String) (f : Task → Task)
      → Change f
      → (t : Tables) → P t
      → P (TaskRepo.with_task id f t)

-- What holds where the foreign key of a row for a task refuses it.
abbrev pub Refused : (Tables → Type 0) → (Error → Tables → Type 0) → String → Type 0
Refused P E id = (t : Tables) → P t → is_some (Table.get id t.tasks) ≡ false → E integrity_error t

module _ {P : Tables → Type 0} {E : Error → Tables → Type 0} (s : IsStable P) where
  add_row_keeps :
      (id : String) (insert : Tables → Tables)
      → ((t : Tables) → frame (insert t) ≡ frame t)
      → Refused P E id
      → Block P (TaskRepo.add_row id insert) (λ _. P) E
  unfolding commit write
  add_row_keeps id insert same refused = record {
    ends = λ d p. elim (Bool-cases (is_some (Table.get id d.stored.tasks))) [
      | inl found ↦
          rw (TaskRepo.add_row-known id insert (open_session d) found)
            (s.framed d.stored _ (same d.stored) p, refl)
      | inr missing ↦
          rw (TaskRepo.add_row-unknown id insert (open_session d) missing)
            (refused d.stored p missing, refl)
    ];
  }

  pub add_log_keeps :
      (id event level : String) (message : Option String) (detail : Fields)
      → Refused P E id
      → Block P (TaskRepo.add_log id event level message detail) (λ _. P) E
  unfolding TaskRepo.add_log
  add_log_keeps id event level message detail = add_row_keeps id _ (λ t. refl)

  pub add_generation_keeps :
      (row : Generation) → Refused P E row.task_id → Block P (add_generation row) (λ _. P) E
  add_generation_keeps row = add_row_keeps row.task_id _ (λ t. refl)

  pub add_event_keeps : (row : SystemEvent) → Block P (modify (add_event row)) (λ _. P) E
  unfolding commit write
  add_event_keeps row = record { ends = λ d p. (s.framed d.stored _ refl p, refl) }

  pub get_keeps : (id : String) → Block P (TaskRepo.get id) (λ _. P) E
  unfolding TaskRepo.get
  get_keeps id = record { ends = λ d p. (p, refl) }

  pub no_error_keeps : Block P no_error (λ _. P) E
  no_error_keeps = record { ends = λ d p. (p, refl) }

  pub if_keeps :
      (b : Bool) (m : Exec Session Unit)
      → Block P m (λ _. P) E
      → Block P (if b then m else no_error) (λ _. P) E
  if_keeps true m h = h
  if_keeps false m h = no_error_keeps

  pub refund_keeps : (id : String) → Block P (swallow (Billing.refund id)) (λ _. P) E
  refund_keeps id = record {
    ends = λ d p. let (m, clean) = refund-Commits id d in (s.moved d.stored _ m p, clean);
  }

  pub audit_keeps : (id : String) → Block P (swallow (Billing.commit_charge_audit id)) (λ _. P) E
  audit_keeps id = record {
    ends =
        λ d p. let (m, clean) = commit_charge_audit-Commits id d in (s.moved d.stored _ m p, clean);
  }

module _ {P : Tables → Type 0} {E : Error → Tables → Type 0} (i : IsInvariant P) where
  pub update_keeps :
      (id : String) (f : Task → Task) → Change f → Block P (TaskRepo.update id f) (λ _. P) E
  unfolding commit write
  update_keeps id f c = record {
    ends = λ d p. elim (Option-cases (Table.get id d.stored.tasks)) [
      | inl missing ↦ rw (TaskRepo.update_missing id f (open_session d) missing) (p, refl)
      | inr (t, found) ↦
          rw (TaskRepo.update_found id f (open_session d) t found)
            (i.changed id f c d.stored p, refl)
    ];
  }

module _ (g : Engine) {P : Tables → Type 0}
    (framed : (t t' : Tables) → frame t' ≡ frame t → P t → P t') where
  callback_keeps :
      (id url : String) (payload : Fields)
      → Triple P (send_callback g.tenacity g.settings id url payload) (λ _. P) (λ _. P)
  callback_keeps id url payload = record {
    ends = λ w p.
        either _ _
          (framed w.stored _ (frame-send_callback g.tenacity g.settings id url payload w) p);
  }
    where
      either : (r : Result Bool) (t : Tables) → P t → Ends (λ _. P) (λ _. P) r t
      either (ok b) t p = p
      either (err e) t p = p

  pub notify_keeps :
      (id : String) (payload : Fields) (url : Option String)
      → Triple P (notify g id payload url) (λ _. P) (λ _. P)
  notify_keeps id payload none = record { ends = λ w p. p }
  notify_keeps id payload (some url) = elim (Bool-cases (url == "")) [
    | inl empty ↦ rw empty (record { ends = λ w p. p })
    | inr given ↦ rw given (
        bind (send_callback g.tenacity g.settings id url payload) (λ _. nothing)
          (callback_keeps id url payload) (λ _. record { ends = λ w p. p }))
  ]
