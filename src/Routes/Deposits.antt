-- ===== src/Routes/Deposits.antt =====
-- What the route of a top-up does to the books.
use ai_generation_api.Prelude.{
  ℕ, String, ◌≡◌, refl, true, Option, none, some, Bool-cases, inl, inr, arith, ◌==◌, string_eq,
  if◌then◌else◌,
}
use ai_generation_api.Prelude.Int.{ℤ, pos, ◌+ℤ◌, ◌<ℤ◌, leb_ℤ}
use ai_generation_api.Exec.{Result, ok, err, Result-cases}
use ai_generation_api.Models.{ApiKey_keyed, EntryType}
use ai_generation_api.Session.{Database, Session, open_session}
use ai_generation_api.Value.{Fields}
use ai_generation_api.BillingRepo.{balance, key_known, admits, move_balance}
use ai_generation_api.Billing.Movement.{key_known-move_balance, balance-move_balance}
use ai_generation_api.Billing
use ai_generation_api.Security.{require_internal_token}
use ai_generation_api.Routes.{Request}
use ai_generation_api.Routes.Accounts.{Desk, TopupRequest, TopupResponse, post_topup}

module _ (key : String) (amount : ℤ) (d : Database) where
  -- What a call leaves: nothing new, or the amount on the key's balance and on no other.
  abbrev pub Deposited : Result ℤ × Session → Type 0
  Deposited (err e, s) = s.stored ≡ d.stored
  Deposited (ok b, s) =
      (pos 0 <ℤ amount)
      × (key_known (some key) d.stored ≡ true)
      × (b ≡ balance key s.stored)
      × ((j : String)
          → balance j s.stored
            ≡ (if key == j then balance j d.stored +ℤ amount else balance j d.stored))

  topup-Deposited :
      (remark : Option String) → Deposited (Billing.topup key amount remark (open_session d))
  unfolding Billing.topup balance
  topup-Deposited remark = elim (Bool-cases (leb_ℤ amount (pos 0))) [
    | inl bad ↦ rw bad refl
    | inr good ↦ elim (Bool-cases (key_known (some key) d.stored)) [
      | inr unknown ↦ rw (good, unknown) refl
      | inl known ↦
          let grown = move_balance key (λ b. b +ℤ amount) d.stored in
          let free : admits (some key) none EntryType.topup grown ≡ true =
            ground (arith, key_known-move_balance key (λ b. b +ℤ amount) d.stored (some key)) in
          rw (good, known, free)
            (
              ground arith,
              known,
              refl,
              λ j. balance-move_balance key (λ b. b +ℤ amount) d.stored j known,
            )
    ]
  ]

module _ (v : Desk) (request : Request) (key : String) (body : TopupRequest) (now : ℕ)
    (d : Database) where
  abbrev pub paid : Result TopupResponse → Result ℤ
  paid (ok reply) = ok reply.balance_credits
  paid (err e) = err e

  abbrev pub IsAuthorized : Result TopupResponse → Type 0
  IsAuthorized (ok reply) =
      (claims : Fields) × (require_internal_token v.jwt v.internal_secret request.authorization now
        ≡ ok claims)
  IsAuthorized (err e) = Unit

  abbrev moved : Result ℤ × Session
  moved = Billing.topup key body.amount_credits body.note (open_session d)

  kept : Deposited key body.amount_credits d (moved.0, moved.1)
  kept = topup-Deposited key body.amount_credits d body.note

  -- If the route replies, the request had a valid internal token, the amount is positive, the key
  -- exists, the reply's balance is the committed one, and of the committed balances only the
  -- key's changed, by the amount; if it raises, what is committed is as before.
  pub post_topup-Deposited :
      let (r, s) = post_topup v request key body now (open_session d) in
      IsAuthorized r × Deposited key body.amount_credits d (paid r, s)
  unfolding post_topup
  post_topup-Deposited =
      elim (Result-cases
        (require_internal_token v.jwt v.internal_secret request.authorization now)) [
          | inr (e, refused) ↦ rw refused (tt, refl)
          | inl (claims, granted) ↦ elim (Bool-cases (leb_ℤ body.amount_credits (pos 0))) [
            | inl bad ↦ rw (granted, bad) (tt, refl)
            | inr good ↦ elim (Result-cases moved.0) [
              | inl (b, e) ↦ rw (granted, good, e) ((claims, granted), rw e at kept)
              | inr (x, e) ↦ rw (granted, good, e) (tt, rw e at kept)
            ]
          ]
        ]
