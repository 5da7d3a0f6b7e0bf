-- ===== src/Tests/Access.antt =====
-- Limits, keys, tasks, the wait for ComfyUI and a partner's usage.
use mathlib.Core.List.{Perm}
use ai_generation_api.Errors.{Error, raised, not_found}
use ai_generation_api.Value
use ai_generation_api.Prelude.{
  select, ◌++◌, inl, inr, ◌<>◌, ℕ, zero, suc, ◌+◌, ◌≤◌, ◌<◌, min, String, ◌≡◌, ◌≢◌, ◌↔◌, refl, true,
  none, some, List, [], ◌∷◌, All, length, ltb, ◌==◌, ==_self, ==_ne, string_eq, arith,
  if◌then◌else◌,
}
use ai_generation_api.Prelude.Int.{pos, negsuc, ◌+ℤ◌, ◌-ℤ◌}
use ai_generation_api.Exec.{Result, ok, err}
use ai_generation_api.Models.{BillingLedger, Task, EntryType, Tables, Task_keyed}
use ai_generation_api.Models.Table
use ai_generation_api.Session.{Session, open_session}
use ai_generation_api.Value.{Fields, field, end, str, int}
use ai_generation_api.Security.{
  verify_signature, sign_payload, Jwt, claims_of, issue_internal_token, require_internal_token,
  strip_prefix, verify_internal_token,
}
use ai_generation_api.Security.RoundTrip.{verify_signature-sign_payload, require_internal_token-ok}
use ai_generation_api.RateLimiter.{Redis}
use ai_generation_api.RateLimiter.Window.{accepted, accepted-Window}
use ai_generation_api.ApiKeyRepo.{get_task}
use ai_generation_api.ApiKeyRepo.Access.{IsOwn, get_task-ok}
use ai_generation_api.Comfyui.{FileInfo, NodeOutput, Answer, absent, entry, wait}
use ai_generation_api.Comfyui.Polling.{InRange, Waited, wait-Waited}
use ai_generation_api.BillingRepo.{balance}
use ai_generation_api.BillingRepo.Usage.{usage_summary, is_selected, list_ledger}
use ai_generation_api.BillingRepo.Listing.{Descending, IsWanted, list_ledger-Descending}
use ai_generation_api.BillingRepo.Statement.{income, usage_summary-balance}
use ai_generation_api.Tests.Samples.{partner, fresh_database, tables_of, entry as ledger_entry}
use ai_generation_api.Tests.Money.{opening, fresh-IsSound}

-- Counters with the time at which they expire.
abbrev pub Counters : Type 0
Counters = String → ℕ × ℕ

abbrev pub count : String → ℕ → Counters → ℕ
count key now s = if ltb now (s key).1 then (s key).0 else 0

abbrev pub incr_expire : String → ℕ → ℕ → Counters → ℕ × Counters
incr_expire key window now s =
    let n = suc (count key now s) in (n, λ j. if key == j then (n, now + window) else s j)

pub count_lasts :
    (key : String) (window now later : ℕ) (s : Counters)
    → now ≤ later
    → later < now + window
    → count key later (incr_expire key window now s).1 ≡ suc (count key now s)
count_lasts key window now later s h h' = rw (==_self key) (ground arith)

pub count_apart :
    (key other : String) (window now later : ℕ) (s : Counters)
    → key ≢ other
    → count other later (incr_expire key window now s).1 ≡ count other later s
count_apart key other window now later s h = rw (==_ne key other h) refl

abbrev pub redis : Redis
redis = record {
  State = Counters;
  count = count;
  incr_expire = incr_expire;
  incr = λ key window now s. refl;
  lasts = count_lasts;
  apart = count_apart;
}

abbrev pub digits : ℕ → String
digits n = "n"

-- Three requests in the window from 60 to 119, at a limit of 2.
accepted-Window_example :
    accepted redis digits "ip" "10.0.0.1" 2 60 (61 ∷ 61 ∷ 100 ∷ []) (λ j. (0, 0)) ≡ min 3 2
accepted-Window_example =
    accepted-Window redis digits "ip" "10.0.0.1" 2 60 (omega arith) (λ h. cc) 1 61 (61 ∷ 100 ∷ []) 0
      (λ j. (0, 0)) (omega arith, refl, (omega arith, refl, (omega arith, refl, tt)))
      (λ later h e. ground arith)

abbrev pub hash_of : String → String
hash_of raw = if raw == "secret" then "h1" else "other"

abbrev session : Session
session = open_session fresh_database

get_task-ok_example :
    ((t : Task)
      → ((get_task "t1" partner session).0 ≡ ok t)
        ↔ ((Table.get "t1" session.current.tasks ≡ some t) × IsOwn t.api_key_id partner))
    × ((e : Error)
        → (get_task "t1" partner session).0 ≡ err e
        → e ≡ raised not_found "task not found")
    × ((get_task "t1" partner session).1 ≡ session)
get_task-ok_example = get_task-ok "t1" partner session

abbrev lower : String → String
lower s = s

abbrev png_of : FileInfo → Result String
png_of f = ok "png"

abbrev outputs : List NodeOutput
outputs =
    record {
      images = record { filename = some "a.png"; subfolder = none; file_type = none } ∷ [];
      gifs = [];
    }
    ∷ []

-- The picture is there at the second poll.
abbrev answers : ℕ → Answer
answers zero = absent
answers (suc n) = entry outputs []

wait-Waited_example :
    let (reports, r) = wait lower png_of none 3000 1000 answers 4 in
    All InRange reports × Waited lower png_of none 3000 1000 answers 0 0 r
wait-Waited_example = wait-Waited lower png_of none 3000 1000 answers 3 (omega arith)

usage_summary-balance_example :
    balance "k1" fresh_database.stored
    ≡ opening "k1"
      +ℤ income "k1" fresh_database.stored.ledger
      -ℤ (usage_summary fresh_database.stored "k1" none none).spent_credits
usage_summary-balance_example =
    usage_summary-balance "k1" opening fresh_database.stored fresh-IsSound

abbrev mac : String → String → String
mac secret text = secret <> text

abbrev signature : String
signature = "keyn.body"

verify_signature-sign_payload_example :
    (verify_signature mac digits "key" "body" "n" signature ≡ true)
    ↔ (signature ≡ (sign_payload mac digits "key" "body" none 5).1)
unfolding sign_payload
verify_signature-sign_payload_example =
    verify_signature-sign_payload mac digits "key" "body" signature none 5

abbrev claims_at : ℕ → ℕ → Fields
claims_at ttl now = field "sub" (str "admin") (
    field "scope" (str "internal")
      (field "iat" (int (pos now)) (field "exp" (int (pos (now + ttl))) end)))

-- A token library with one token, which is read from 10 to 19.
abbrev pub jwt : Jwt
jwt = record {
  encode = λ claims secret. "token";
  decode =
      λ token secret now. if ltb now 20 then inr (claims_at 10 10) else inl "Signature has expired";
}

require_internal_token-ok_example :
    (require_internal_token jwt "key" "Bearer token" 15 ≡ ok (claims_at 10 10)) ↔ (
      (token : String) × (("Bearer token" ≡ "Bearer " <> token)
        × ((jwt.decode token "key" 15 ≡ inr (claims_at 10 10))
            × (Value.get (claims_at 10 10) "scope" ≡ some (str "internal")))))
require_internal_token-ok_example =
    require_internal_token-ok jwt "key" "Bearer token" 15 (claims_at 10 10)

-- An issued token is accepted before its expiry, and not after.
accepted-issued :
    require_internal_token jwt "key" ("Bearer " <> issue_internal_token jwt "key" "admin" 10 10) 15
    ≡ ok (claims_of jwt "key" "admin" 10 10)
unfolding issue_internal_token require_internal_token verify_internal_token strip_prefix string_eq
    Value.get
accepted-issued = refl

abbrev posted : Tables
posted =
    tables_of []
      (ledger_entry EntryType.hold (negsuc 29) ∷ ledger_entry EntryType.topup (pos 50) ∷ [])

list_ledger-Descending_example :
    let rows = list_ledger posted "k1" (some 1) none 1 in
    let wanted = select (is_selected "k1" (some 1) none) posted.ledger in
    ((r : BillingLedger)
      → (is_selected "k1" (some 1) none r ≡ true) ↔ IsWanted "k1" (some 1) none r)
    × (length rows ≡ min 1 (length wanted))
    × ((rest : List BillingLedger) × (Perm (rows ++ rest) wanted × Descending (rows ++ rest)))
list_ledger-Descending_example = list_ledger-Descending posted "k1" (some 1) none 1
