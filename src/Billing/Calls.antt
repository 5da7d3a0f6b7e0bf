-- ===== src/Billing/Calls.antt =====
-- Any sequence of calls of app/services/billing.py, each in a session of its own.
use ai_generation_api.Prelude.{String, Option, List, [], ◌∷◌, All}
use ai_generation_api.Prelude.Int.{ℤ, pos, ◌≤ℤ◌}
use ai_generation_api.Models.{ApiKey}
use ai_generation_api.Session.{Database, with_session}
use ai_generation_api.Billing
use ai_generation_api.Billing.Commits.{
  reserve-Commits, refund-Commits, commit_charge_audit-Commits, topup-Commits,
}
use ai_generation_api.Billing.Sound.{IsSound, Movement-IsSound}

pub data Call : Type 0 where
  reserve : ApiKey → String → ℤ → Call
  refund : String → Call
  commit_charge_audit : String → Call
  topup : String → ℤ → Option String → Call

-- One call; what it returns or raises goes to the caller, and its commits stay.
unfoldable pub call : Call → Database → Database
unfolding with_session
call (reserve k task price) d = (with_session (Billing.reserve k task price) d).1
call (refund task) d = (with_session (Billing.refund task) d).1
call (commit_charge_audit task) d = (with_session (Billing.commit_charge_audit task) d).1
call (topup key amount note) d = (with_session (Billing.topup key amount note) d).1

unfoldable pub run : List Call → Database → Database
unfolding call
run [] d = d
run (c ∷ cs) d = run cs (call c d)

-- `price_for` returns no price below 1; here it is enough that none is negative.
abbrev pub IsPriced : Call → Type 0
IsPriced (reserve k task price) = pos 0 ≤ℤ price
IsPriced _ = Unit

call-IsSound :
    (opening : String → ℤ) (c : Call) (d : Database)
    → IsPriced c
    → IsSound opening d.stored
    → IsSound opening (call c d).stored
unfolding call
call-IsSound opening (reserve k task price) d p sound =
    Movement-IsSound opening _ _ sound (reserve-Commits k task price d p).0
call-IsSound opening (refund task) d p sound =
    Movement-IsSound opening _ _ sound (refund-Commits task d).0
call-IsSound opening (commit_charge_audit task) d p sound =
    Movement-IsSound opening _ _ sound (commit_charge_audit-Commits task d).0
call-IsSound opening (topup key amount note) d p sound =
    Movement-IsSound opening _ _ sound (topup-Commits key amount note d).0

-- After any calls of the billing service in which no reserved price is negative, from sound
-- books, the books are sound: every balance is the opening balance and the sum of the key's
-- ledger rows and is not negative, every row's snapshot is that sum up to the row, no task has
-- two rows of one type, and no task's price is negative.
pub run-IsSound :
    (opening : String → ℤ) (cs : List Call) (d : Database)
    → All IsPriced cs
    → IsSound opening d.stored
    → IsSound opening (run cs d).stored
unfolding run
run-IsSound opening [] d p sound = sound
run-IsSound opening (c ∷ cs) d p sound =
    run-IsSound opening cs (call c d) p.1 (call-IsSound opening c d p.0 sound)
