-- ===== src/BillingRepo/Statement.antt =====
-- A partner's usage against the ledger: the summary accounts for the balance.
use ai_generation_api.Prelude.{
  String, ◌≡◌, refl, Bool, true, false, none, List, [], ◌∷◌, select, Bool-cases, inl, inr, ◌==◌,
  string_eq,
}
use ai_generation_api.Prelude.Int.{ℤ, pos, ◌+ℤ◌, ◌-ℤ◌, int_laws}
use ai_generation_api.Models.{EntryType, EntryType_eq, EntryType-discrete, BillingLedger, Tables}
use ai_generation_api.BillingRepo.{balance}
use ai_generation_api.BillingRepo.Usage.{
  is_selected, sum_amounts, usage_summary, group_of, totals_or_zero,
}
use ai_generation_api.Billing.Sound.{IsSound, sum_for}

-- Neither a charge nor a refund: top-ups and audit rows.
abbrev pub is_income : EntryType → Bool
is_income EntryType.hold = false
is_income EntryType.refund = false
is_income _ = true

abbrev pub of_key : String → List BillingLedger → List BillingLedger
of_key key rs = select (is_selected key none none) rs

abbrev pub income : String → List BillingLedger → ℤ
income key rs = sum_amounts (select (λ r. is_income r.entry_type) (of_key key rs))

abbrev of_type : String → EntryType → List BillingLedger → ℤ
of_type key e rs = sum_amounts (select (λ r. r.entry_type == e) (of_key key rs))

sum_group : (rs : List BillingLedger) → (totals_or_zero (group_of rs)).sum ≡ sum_amounts rs
unfolding sum_amounts
sum_group [] = refl
sum_group (r ∷ rs) = refl

module _ (x s o h f : ℤ) (e : s ≡ o +ℤ (h +ℤ f)) where
  to_income : x +ℤ s ≡ x +ℤ o +ℤ (h +ℤ f)
  to_income = rw e (omega int_laws)

  to_hold : x +ℤ s ≡ o +ℤ (x +ℤ h +ℤ f)
  to_hold = rw e (omega int_laws)

  to_refund : x +ℤ s ≡ o +ℤ (h +ℤ (x +ℤ f))
  to_refund = rw e (omega int_laws)

  spent_of : (b : ℤ) → b ≡ x +ℤ s → b ≡ x +ℤ o -ℤ (pos 0 -ℤ h -ℤ f)
  spent_of b e' = rw (e', e) (omega int_laws)

module _ (key : String) where
  abbrev Parts : List BillingLedger → Type 0
  Parts rs =
      sum_for key rs
      ≡ income key rs +ℤ (of_type key EntryType.hold rs +ℤ of_type key EntryType.refund rs)

  Parts-step :
      (e : EntryType) (r : BillingLedger) (rs : List BillingLedger)
      → r.entry_type ≡ e
      → (r.api_key_id == key) ≡ true
      → Parts rs
      → Parts (r ∷ rs)
  unfolding sum_amounts EntryType-discrete
  Parts-step EntryType.hold r rs typed mine ih =
      simp (mine, typed)
        (to_hold r.amount_credits (sum_for key rs) (income key rs) (of_type key EntryType.hold rs)
          (of_type key EntryType.refund rs) ih)
  Parts-step EntryType.refund r rs typed mine ih =
      simp (mine, typed)
        (to_refund r.amount_credits (sum_for key rs) (income key rs) (of_type key EntryType.hold rs)
          (of_type key EntryType.refund rs) ih)
  Parts-step EntryType.topup r rs typed mine ih =
      simp (mine, typed)
        (to_income r.amount_credits (sum_for key rs) (income key rs) (of_type key EntryType.hold rs)
          (of_type key EntryType.refund rs) ih)
  Parts-step EntryType.adjust r rs typed mine ih =
      simp (mine, typed)
        (to_income r.amount_credits (sum_for key rs) (income key rs) (of_type key EntryType.hold rs)
          (of_type key EntryType.refund rs) ih)

  parts : (rs : List BillingLedger) → Parts rs
  unfolding sum_amounts
  parts [] = omega int_laws
  parts (r ∷ rs) = elim (Bool-cases (r.api_key_id == key)) [
    | inl mine ↦ Parts-step r.entry_type r rs refl mine (parts rs)
    | inr other ↦ rw other (parts rs)
  ]

  -- Where the books are sound, a key's balance is the opening balance, and the sum of its ledger
  -- rows that are neither holds nor refunds, less the credits that its summary without dates
  -- calls spent.
  pub usage_summary-balance :
      (opening : String → ℤ) (t : Tables)
      → IsSound opening t
      → balance key t
        ≡ opening key +ℤ income key t.ledger -ℤ (usage_summary t key none none).spent_credits
  unfolding usage_summary
  usage_summary-balance opening t sound =
      let p = parts t.ledger in
      let h = sum_group (select (λ r. r.entry_type == EntryType.hold) (of_key key t.ledger)) in
      let f = sum_group (select (λ r. r.entry_type == EntryType.refund) (of_key key t.ledger)) in
      rw (h, f)
        (spent_of (opening key) (sum_for key t.ledger) (income key t.ledger)
          (of_type key EntryType.hold t.ledger) (of_type key EntryType.refund t.ledger) p
          (balance key t) (sound.accounted key))
