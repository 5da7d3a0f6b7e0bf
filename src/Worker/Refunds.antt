-- ===== src/Worker/Refunds.antt =====
-- A dead letter gives a charge back.
use ai_generation_api.Prelude.{String, ◌≡◌, refl, ap, ◌∙◌, true, false, some, arith, string_eq}
use ai_generation_api.Prelude.Int.{ℤ, ◌+ℤ◌}
use ai_generation_api.Exec.{Result, ok, err, modify}
use ai_generation_api.Models.{ApiKey_keyed, Task, Task_keyed, EntryType, EntryType_eq, Tables}
use ai_generation_api.Models.Table
use ai_generation_api.Session.{Database, open_session, commit, write}
use ai_generation_api.TaskRepo
use ai_generation_api.BillingRepo.{balance, has_entry, key_known}
use ai_generation_api.Billing
use ai_generation_api.Billing.Movement.{balance-move_balance_self}
use ai_generation_api.Billing.Commits.{refund-Commits}
use ai_generation_api.Billing.Refund.{after_refund, refund_pays}
use ai_generation_api.World.{World}
use ai_generation_api.World.Hoare.{Ends, Triple, Block, bind, block_bind, of_block}
use ai_generation_api.Callback.Frame.{frame}
use ai_generation_api.Engine.{Engine}
use ai_generation_api.DeadLetter.{
  swallow, add_event, callback_of, fail_fields, dead_event, failure_payload, meta_of,
  record_failure, dead_letter,
}
use ai_generation_api.Worker.Blocks.{notify_keeps}

module _ (id key : String) (price old : ℤ) where
  -- A charge of `price` that was not given back, where the balance is `old`.
  record Charged (t : Tables) : Type 0 where
    row : Task
    found : Table.get id t.tasks ≡ some row
    priced : row.price_credits ≡ some price
    owner : row.api_key_id ≡ some key
    new : has_entry id EntryType.refund t ≡ false
    known : key_known (some key) t ≡ true
    funds : balance key t ≡ old

  record Returned (t : Tables) : Type 0 where
    given : has_entry id EntryType.refund t ≡ true
    funds : balance key t ≡ old +ℤ price

  Charged-framed : (t t' : Tables) → frame t' ≡ frame t → Charged t → Charged t'
  unfolding balance has_entry
  Charged-framed t t' e c =
      let tasks : t'.tasks ≡ t.tasks = ap (λ f. f.0) e in
      let ledger : t'.ledger ≡ t.ledger = ap (λ f. f.1) e in
      let keys : t'.api_keys ≡ t.api_keys = ap (λ f. f.2) e in
      record {
        row = c.row;
        found = rw tasks c.found;
        priced = c.priced;
        owner = c.owner;
        new = rw ledger c.new;
        known = rw keys c.known;
        funds = rw keys c.funds;
      }

  Returned-framed : (t t' : Tables) → frame t' ≡ frame t → Returned t → Returned t'
  unfolding balance has_entry
  Returned-framed t t' e c =
      let ledger : t'.ledger ≡ t.ledger = ap (λ f. f.1) e in
      let keys : t'.api_keys ≡ t.api_keys = ap (λ f. f.2) e in
      record { given = rw ledger c.given; funds = rw keys c.funds }

  module _ (error : String) where
    failing : Block Charged (TaskRepo.update id (fail_fields error)) (λ _. Charged) (λ _. Returned)
    unfolding commit write balance has_entry
    failing = record {
      ends = λ d c.
          rw (TaskRepo.update_found id (fail_fields error) (open_session d) c.row c.found) (
            record {
              row = fail_fields error c.row;
              found =
                  Table.get-update_self (fail_fields error) (λ t. refl) id d.stored.tasks c.row
                    c.found;
              priced = c.priced;
              owner = c.owner;
              new = c.new;
              known = c.known;
              funds = c.funds;
            },
            refl,
          );
    }

    recording :
        Block Charged (modify (add_event (dead_event id error))) (λ _. Charged) (λ _. Returned)
    unfolding commit write
    recording = record { ends = λ d c. (Charged-framed d.stored _ refl c, refl) }

  refund-Returned : (d : Database) → Charged d.stored → Returned (after_refund id d)
  unfolding balance has_entry
  refund-Returned d c =
      let e = refund_pays id d c.row price key c.found c.priced c.owner c.new c.known in
      record {
        given = rw e (ground arith);
        funds =
            ap (balance key) e
            ∙ balance-move_balance_self key (λ b. b +ℤ price) d.stored c.known
            ∙ ap (λ b. b +ℤ price) c.funds;
      }

  refunding : Block Charged (swallow (Billing.refund id)) (λ _. Returned) (λ _. Returned)
  refunding = record { ends = λ d c. (refund-Returned d c, (refund-Commits id d).1) }

  got : Block Returned (TaskRepo.get id) (λ _. Returned) (λ _. Returned)
  unfolding TaskRepo.get
  got = record { ends = λ d c. (c, refl) }

  module _ (g : Engine) (billing : g.billing_enabled ≡ true) (error : String) where
    record_failure_returns :
        Block Charged (record_failure g id error) (λ _. Returned) (λ _. Returned)
    unfolding record_failure
    record_failure_returns = rw billing (
        block_bind _ _ (failing error)
          (λ _. block_bind _ _ (recording error) (λ _. block_bind _ _ refunding (λ _. got))))

    dead_letter_returns : Triple Charged (dead_letter g id error) (λ _. Returned) (λ _. Returned)
    unfolding dead_letter
    dead_letter_returns =
        bind _ _ (of_block (record_failure g id error) record_failure_returns) (λ t.
          notify_keeps g Returned-framed id (failure_payload id error (meta_of t)) (callback_of t))

  Returned-Ends :
      (r : Result (Unit {0})) (t : Tables) → Ends (λ _. Returned) (λ _. Returned) r t → Returned t
  Returned-Ends (ok _) t c = c
  Returned-Ends (err e) t c = c

module _ (g : Engine) (id error : String) (w : World) where
  -- With billing enabled, a dead letter gives back the price of a task that was charged, was not
  -- refunded and has a known key: the key's balance grows by the price, and the refund is in the
  -- ledger, whether the callback raises or not.
  pub dead_letter-refund :
      (x : Task) (key : String) (price : ℤ)
      → g.billing_enabled ≡ true
      → Table.get id w.stored.tasks ≡ some x
      → x.price_credits ≡ some price
      → x.api_key_id ≡ some key
      → has_entry id EntryType.refund w.stored ≡ false
      → key_known (some key) w.stored ≡ true
      → let after = (dead_letter g id error w).1.stored in
        (has_entry id EntryType.refund after ≡ true)
        × (balance key after ≡ balance key w.stored +ℤ price)
  dead_letter-refund x key price billing found priced owner new known =
      let charged : Charged id key price (balance key w.stored) w.stored = record {
        row = x;
        found = found;
        priced = priced;
        owner = owner;
        new = new;
        known = known;
        funds = refl;
      } in
      let c = Returned-Ends id key price (balance key w.stored) (dead_letter g id error w).0 _ (
        (dead_letter_returns id key price (balance key w.stored) g billing error).ends w charged) in
      (c.given, c.funds)
