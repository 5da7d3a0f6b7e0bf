-- ===== src/Tests/Money.antt =====
-- Billing on the sample database.
use ai_generation_api.Prelude.{
  true, false, String, ◌≡◌, refl, sym, arith, List, [], ◌∷◌, string_eq, option_eq, nat_eq,
}
use ai_generation_api.Prelude.Int.{ℤ, pos, negsuc, ◌-ℤ◌, ◌+ℤ◌, +ℤ_zero}
use ai_generation_api.Exec.{ok}
use ai_generation_api.Models.{EntryType, EntryType_eq, EntryType-discrete, Task_keyed}
use ai_generation_api.Models.Table
use ai_generation_api.Session.{Database, open_session, with_session}
use ai_generation_api.BillingRepo.{balance, has_entry}
use ai_generation_api.Billing
use ai_generation_api.Billing.{reserve, refund, give_back}
use ai_generation_api.Billing.Calls.{Call, call, run, run-IsSound}
use ai_generation_api.Billing.Charge.{
  give_back_late, reserve-Outcome, Outcome, refund-reserve, after_reserve,
}
use ai_generation_api.Billing.Refund.{after_refund, refund_idempotent}
use ai_generation_api.Billing.Sound.{IsSound}
use ai_generation_api.Tests.Samples.{
  partner, portrait, paid_portrait, tables_of, database_of, fresh_database, entry,
}

-- A hold, its refund, and the refund once more.
abbrev calls : List Call
calls = Call.reserve partner "t1" (pos 30) ∷ Call.refund "t1" ∷ Call.refund "t1" ∷ []

balance-run : balance "k1" (run calls fresh_database).stored ≡ pos 100
unfolding run call with_session balance Billing.reserve Billing.refund Table.get Table.update
    string_eq option_eq nat_eq EntryType-discrete ◌+ℤ◌ ◌-ℤ◌
balance-run = refl

abbrev pub opening : String → ℤ
opening key = balance key fresh_database.stored

pub fresh-IsSound : IsSound opening fresh_database.stored
unfolding balance Table.get
fresh-IsSound = record {
  accounted = λ key. sym (+ℤ_zero (balance key fresh_database.stored));
  snapshots = tt;
  unique = tt;
  solvent = λ key. ground arith;
  priced = λ id task price found paid. ground arith;
}

run-IsSound_example : IsSound opening (run calls fresh_database).stored
run-IsSound_example =
    run-IsSound opening calls fresh_database (omega arith, (tt, (tt, tt))) fresh-IsSound

-- After a hold of 30, with the balance at 100 from a top-up.
abbrev held_database : Database
held_database = database_of (tables_of (paid_portrait ∷ []) (entry EntryType.hold (negsuc 29) ∷ []))

abbrev refunded_database : Database
refunded_database =
    database_of (tables_of (paid_portrait ∷ []) (entry EntryType.refund (pos 30) ∷ []))

refund_idempotent_example :
    after_refund "t1" (database_of (after_refund "t1" held_database))
    ≡ after_refund "t1" held_database
refund_idempotent_example =
    refund_idempotent "t1" held_database (database_of (after_refund "t1" held_database)) refl

reserve-Outcome_example :
    Outcome partner "t1"
      (pos 30)
      fresh_database
      portrait
      true
      false
      (reserve partner "t1" (pos 30) (open_session fresh_database)).0
      (reserve partner "t1" (pos 30) (open_session fresh_database)).1.stored
unfolding Table.get string_eq has_entry
reserve-Outcome_example = reserve-Outcome partner "t1" (pos 30) fresh_database portrait refl

refund-reserve_example :
    balance "k1" (after_refund "t1" (after_reserve partner "t1" (pos 30) fresh_database))
    ≡ balance "k1" fresh_database.stored
unfolding Table.get string_eq has_entry
refund-reserve_example =
    refund-reserve partner "t1" (pos 30) fresh_database portrait refl refl refl refl refl "k1"

give_back_late_example :
    let (r, s) = give_back "t1" paid_portrait (pos 30) (open_session refunded_database) in
    (r ≡ ok tt) × (s.stored ≡ refunded_database.stored) × (s.current ≡ refunded_database.stored)
unfolding has_entry string_eq option_eq EntryType-discrete
give_back_late_example = give_back_late "t1" paid_portrait (pos 30) refunded_database refl
