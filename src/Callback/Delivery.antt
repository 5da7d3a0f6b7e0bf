-- ===== src/Callback/Delivery.antt =====
-- What a callback's row records.
use ai_generation_api.Prelude.{
  ℕ, suc, ◌+◌, ◌<◌, String, ◌≡◌, ◌≢◌, refl, ap, ◌∙◌, inl, inr, Bool, true, false, Option, none,
  some, [], ◌∷◌, ◌++◌, ◌⊎◌, Option-cases, length, arith, ◌==◌, ==_ne, string_eq,
}
use ai_generation_api.Errors.{http_error, integrity_error}
use ai_generation_api.Exec.{Result, ok, err, continue}
use ai_generation_api.Models.{
  Task, Task_keyed, Webhook, Webhook_keyed, HookState, delivered, failed,
}
use ai_generation_api.Models.Table
use ai_generation_api.Session.{Session, open_session, commit, write, next_id, draw}
use ai_generation_api.Settings.{Settings}
use ai_generation_api.Value.{Fields}
use ai_generation_api.World.{World, in_session, in_session_lem}
use ai_generation_api.Callback.Attempts.{IsError, Tries, retry-Tries}
use ai_generation_api.Callback.{
  Tenacity, Locals, set_outcome, new_hook, finalize, add_hook, settle, deliver, send_callback,
}

-- What is returned and recorded for a hook, by the last reply and the number of tries.
abbrev pub Final : Webhook → Result ℕ → ℕ → Result Bool → Option Webhook → Type 0
Final hook (ok code) tries r row =
    (r ≡ ok true) × (row ≡ some (set_outcome delivered tries (some code) none hook))
Final hook (err (http_error text)) tries r row =
    (r ≡ ok false) × (row ≡ some (set_outcome failed tries none (some text) hook))
Final hook (err e) tries r row = (r ≡ err e) × (row ≡ some hook)

abbrev settled : String → Result ℕ → Locals → Result Bool × Option Webhook
settled id r s = let (x, w) = settle id r s in (x, Table.get id w.stored.webhooks)

finalize_lem :
    (id : String) (status : HookState) (attempts : ℕ) (code : Option ℕ) (error : Option String)
    (s : Session) (hook : Webhook)
    → Table.get id s.current.webhooks ≡ some hook
    → finalize id status attempts code error s ≡ (
      ok tt,
      commit (
          write
            (λ t. record t {
              webhooks = Table.update id (set_outcome status attempts code error) t.webhooks;
            })
            s),
    )
unfolding finalize
finalize_lem id status attempts code error s hook found = rw (found, finalize) refl

settle-Final :
    (id : String) (hook : Webhook) (r : Result ℕ) (s : Locals)
    → Table.get id s.world.stored.webhooks ≡ some hook
    → (IsError r → s.last_code ≡ none)
    → Final hook r s.attempts (settled id r s).0 (settled id r s).1
unfolding commit write
settle-Final id hook (ok code) s found uncoded =
    rw
      (in_session_lem _ s.world _ _ (
        finalize_lem id delivered s.attempts (some code) none (open_session s.world.database) hook
          found))
      (
        refl,
        Table.get-update_self (set_outcome delivered s.attempts (some code) none) (λ h. refl) id
            s.world.stored.webhooks hook found,
      )
settle-Final id hook (err (http_error t)) s found uncoded =
    rw
      (
        uncoded tt,
        in_session_lem _ s.world _ _ (
            finalize_lem id failed s.attempts none (some t) (open_session s.world.database) hook
              found),
      )
      (
        refl,
        Table.get-update_self (set_outcome failed s.attempts none (some t)) (λ h. refl) id
            s.world.stored.webhooks hook found,
      )
settle-Final id hook (err e) s found uncoded = (refl, found)

posted-settle :
    (id : String) (r : Result ℕ) (s : Locals) → (settle id r s).1.posted ≡ s.world.posted
unfolding in_session finalize
posted-settle id (ok code) s = ground arith
posted-settle id (err (http_error t)) s = ground arith
posted-settle id (err e) s = refl

settled-Final :
    (n : ℕ) (id : String) (hook : Webhook) (s s' : Locals) (r : Result ℕ)
    → Tries n s s' r
    → s.attempts ≡ 0
    → s.last_code ≡ none
    → Table.get id s.world.stored.webhooks ≡ some hook
    → (count : ℕ) × (count < n)
      × ((k : ℕ) → k < count → IsError (s.world.replies (length s.world.posted + k)))
      × (IsError (s.world.replies (length s.world.posted + count)) → suc count ≡ n)
      × (length (settle id r s').1.posted ≡ length s.world.posted + suc count)
      × Final hook
          (s.world.replies (length s.world.posted + count))
          (suc count)
          (settle id r s').0
          (Table.get id (settle id r s').1.stored.webhooks)
settled-Final n id hook s s' r t none_tried uncoded found =
    let counted : s'.attempts ≡ suc t.count = omega (arith, t.counted) in
    let final = settle-Final id hook r s' (rw t.kept found) (λ h. t.coded h ∙ uncoded) in
    (
      t.count,
      t.within,
      t.before,
      rw t.last t.ended,
      rw (posted-settle id r s') t.posts,
      rw (t.last, ← counted) final,
    )

-- The world with the row of the hook.
abbrev pub hooked : String → String → Fields → World → World
hooked task url payload w = record w {
  database = record w.database {
    stored = record w.stored {
      webhooks = w.stored.webhooks ++ new_hook task url payload (w.uuid w.drawn) ∷ [];
    };
    drawn = suc w.drawn;
  };
}

-- Before the first try.
abbrev pub first : String → String → Fields → World → Locals
first task url payload w = record {
  world = hooked task url payload w;
  attempts = 0;
  last_code = none;
}

add_hook-known :
    (task url : String) (payload : Fields) (s : Session) (t : Task)
    → Table.get task s.current.tasks ≡ some t
    → add_hook task url payload s ≡ (
      ok (next_id s),
      commit (
          draw (
            write
              (λ t. record t {
                webhooks = t.webhooks ++ new_hook task url payload (next_id s) ∷ [];
              })
              s)),
    )
unfolding add_hook
add_hook-known task url payload s t found = rw found refl

-- The foreign key refuses the row.
add_hook-unknown :
    (task url : String) (payload : Fields) (s : Session)
    → Table.get task s.current.tasks ≡ none
    → add_hook task url payload s ≡ (err integrity_error, draw s)
unfolding add_hook
add_hook-unknown task url payload s missing = rw missing refl

module _ (tenacity : Tenacity) (c : Settings) (task url : String) (payload : Fields) (w : World)
    (given : (url == "") ≡ false) where
  pub send_callback-known :
      (t : Task)
      → Table.get task w.stored.tasks ≡ some t
      → send_callback tenacity c task url payload w
        ≡ deliver tenacity c url payload (w.uuid w.drawn) (hooked task url payload w)
  unfolding send_callback commit write
  send_callback-known t found =
      let added =
        in_session_lem (add_hook task url payload) w _ _
          (add_hook-known task url payload (open_session w.database) t found) in
      rw given (ap (λ p. continue p.0 (deliver tenacity c url payload) p.1) added)

  -- The session drops what the foreign key refused.
  pub send_callback-unknown :
      Table.get task w.stored.tasks ≡ none
      → send_callback tenacity c task url payload w
        ≡ (err integrity_error, record w { database = record w.database { drawn = suc w.drawn } })
  unfolding send_callback
  send_callback-unknown missing =
      let refused =
        in_session_lem (add_hook task url payload) w _ _
          (add_hook-unknown task url payload (open_session w.database) missing) in
      rw given (ap (λ p. continue p.0 (deliver tenacity c url payload) p.1) refused)

module _ (tenacity : Tenacity) (c : Settings) where
  -- A callback to a nonempty URL, with `CALLBACK_MAX_RETRIES` at least 1 and a new id for its
  -- row. If there is no task of that id, the foreign key refuses the row, the error passes,
  -- nothing is posted and no table changes. Otherwise it is posted until a post returns, at most
  -- `CALLBACK_MAX_RETRIES` times; if the last post raises, all tries were used. If the last reply
  -- is a status the hook is delivered; if it is an HTTP error the hook is failed, with no
  -- response code; any other exception goes on to the caller and leaves the hook pending.
  pub send_callback-Final :
      (n : ℕ) (task url : String) (payload : Fields) (w : World)
      → c.callback_max_retries ≡ suc n
      → url ≢ ""
      → Table.get (w.uuid w.drawn) w.stored.webhooks ≡ none
      → let (r, w') = send_callback tenacity c task url payload w in
        let posts = length w.posted in
        ((Table.get task w.stored.tasks ≡ none)
          × (r ≡ err integrity_error)
          × (w'.posted ≡ w.posted)
          × (w'.stored ≡ w.stored))
        ⊎ (((t : Task) × (Table.get task w.stored.tasks ≡ some t))
            × ((count : ℕ) × (count < suc n)
                × ((k : ℕ) → k < count → IsError (w.replies (posts + k)))
                × (IsError (w.replies (posts + count)) → suc count ≡ suc n)
                × (length w'.posted ≡ posts + suc count)
                × Final
                    (new_hook task url payload (w.uuid w.drawn))
                    (w.replies (posts + count))
                    (suc count)
                    r
                    (Table.get (w.uuid w.drawn) w'.stored.webhooks)))
  unfolding send_callback
  send_callback-Final n task url payload w retries given fresh =
      elim (Option-cases (Table.get task w.stored.tasks)) [
        | inl missing ↦
            rw (send_callback-unknown tenacity c task url payload w (==_ne url "" given) missing)
              (inl (missing, refl, refl, refl))
        | inr (t, found) ↦
            rw
              (
                send_callback-known tenacity c task url payload w (==_ne url "" given) t found,
                retries,
              )
              (inr (
                (t, found),
                settled-Final (suc n) (w.uuid w.drawn) (new_hook task url payload (w.uuid w.drawn))
                    (first task url payload w) _ _
                    (retry-Tries url payload tenacity n (first task url payload w)) refl refl
                    (Table.get-append_new w.stored.webhooks
                      (new_hook task url payload (w.uuid w.drawn)) fresh),
              ))
      ]
