-- ===== src/TaskRepo.antt =====
-- app/repositories/task_repo.py: tasks and their logs.
use ai_generation_api.Prelude.{
  String, ◌≡◌, refl, Bool, true, ◌&&◌, Option, none, some, ◌∷◌, ◌++◌, [], find, ◌==◌, string_eq,
  option_eq, if◌then◌else◌, is_some, false,
}
use ai_generation_api.Errors.{integrity_error}
use ai_generation_api.Exec.{ok, err, Exec}
use ai_generation_api.Models.{Task, Task_keyed, TaskLog, Tables}
use ai_generation_api.Models.Table
use ai_generation_api.Session.{Session, commit, write, next_id, draw}
use ai_generation_api.Value.{Fields}

-- `db.add(task); db.commit()`, for the fields given and the id that the row draws. The key of a task
-- is a row that `get_api_key` found, and no key is ever deleted: its foreign key holds.
unfoldable pub create : (String → Task) → Exec Session Task
unfolding commit write
create fields s =
    let task = fields (next_id s) in
    (ok task, commit (draw (write (λ t. record t { tasks = t.tasks ++ task ∷ [] }) s)))

unfoldable pub get : String → Exec Session (Option Task)
get id s = (ok (Table.get id s.current.tasks), s)

-- `if api_key_id:` an id that is `None` or empty does not narrow the query.
abbrev pub owned_by : Option String → Task → Bool
owned_by none t = true
owned_by (some key) t = if key == "" then true else t.api_key_id == some key

abbrev pub is_request : Option String → String → Task → Bool
is_request key request t = t.request_id == some request && owned_by key t

unfoldable pub get_by_request_id : Option String → String → Exec Session (Option Task)
get_by_request_id key request s = (ok (find (is_request key request) s.current.tasks), s)

-- `setattr` for each field, then `db.commit()`; nothing is committed for an unknown task.
unfoldable pub update : String → (Task → Task) → Exec Session (Option Task)
unfolding commit write
update id fields s = elim (Table.get id s.current.tasks) [
  | none ↦ (ok none, s)
  | some task ↦ (
    ok (some (fields task)),
    commit (write (λ t. record t { tasks = Table.update id fields t.tasks }) s),
  )
]

abbrev pub with_task : String → (Task → Task) → Tables → Tables
with_task id fields t = record t { tasks = Table.update id fields t.tasks }

-- An update of a row that is there.
pub update_found :
    (id : String) (fields : Task → Task) (s : Session) (task : Task)
    → Table.get id s.current.tasks ≡ some task
    → update id fields s ≡ (ok (some (fields task)), commit (write (with_task id fields) s))
unfolding update
update_found id fields s task found = rw (found, update) refl

-- An update of an unknown task.
pub update_missing :
    (id : String) (fields : Task → Task) (s : Session)
    → Table.get id s.current.tasks ≡ none
    → update id fields s ≡ (ok none, s)
unfolding update
update_missing id fields s missing = rw (missing, update) refl

-- `db.add(row); db.commit()` for a row with a task's id as foreign key.
unfoldable pub add_row : String → (Tables → Tables) → Exec Session Unit
unfolding commit write
add_row id insert s =
    if is_some (Table.get id s.current.tasks)
    then (ok tt, commit (write insert s))
    else (err integrity_error, s)

pub add_row-known :
    (id : String) (insert : Tables → Tables) (s : Session)
    → is_some (Table.get id s.current.tasks) ≡ true
    → add_row id insert s ≡ (ok tt, commit (write insert s))
unfolding add_row
add_row-known id insert s h = rw h refl

pub add_row-unknown :
    (id : String) (insert : Tables → Tables) (s : Session)
    → is_some (Table.get id s.current.tasks) ≡ false
    → add_row id insert s ≡ (err integrity_error, s)
unfolding add_row
add_row-unknown id insert s h = rw h refl

unfoldable pub add_log : String → String → String → Option String → Fields → Exec Session Unit
unfolding add_row
add_log id event level message detail =
    let row : TaskLog = record {
      task_id = id;
      level = level;
      event = event;
      message = message;
      detail = detail;
    } in
    add_row id (λ t. record t { task_logs = t.task_logs ++ row ∷ [] })
