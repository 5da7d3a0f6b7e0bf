-- ===== src/Scripts/Keys.antt =====
-- What a key that the script creates is good for.
use text.Mathlib.TextLemmas.{append-eq-nil_iff, cons≢nil}
use ai_generation_api.Prelude.{
  String, ◌<>◌, ◌≡◌, ◌≢◌, refl, Bool, true, false, Option, none, some, find, any, is_some,
  find-any-none, find-append_skip, Option-cases, Bool-cases, inl, inr, arith, ◌==◌, ◌||◌, string_eq,
  ==_self, ==_ne, sym, suc,
}
use ai_generation_api.Prelude.Int.{pos}
use ai_generation_api.Errors.{integrity_error}
use ai_generation_api.Exec.{Result, ok, err, continue}
use ai_generation_api.Models.{
  ApiKey, ApiKey_keyed, KeyStatus_eq, KeyStatus-discrete, active, Tables,
}
use ai_generation_api.Models.Table
use ai_generation_api.Models.Table.{find-append_new, get-append_none, get-append_old}
use ai_generation_api.Session.{Database, Session, open_session}
use ai_generation_api.BillingRepo.{balance}
use ai_generation_api.ApiKeyRepo.{
  has_hash, is_past, checked, or_refused, get_active_by_raw, get_api_key,
}
use ai_generation_api.Scripts.{create_api_key, key_clashes, new_key, with_new_key}

prefixed : (token : String) → "sk_" <> token ≢ ""
prefixed token h = cons≢nil ((append-eq-nil_iff {p = "sk_"} {q = token}).0 h).0

or_false : (a b : Bool) → (a || b) ≡ false → (a ≡ false) × (b ≡ false)
or_false true b h = cc
or_false false b h = (refl, h)

balance-with_new_key :
    (k : ApiKey) (t : Tables)
    → Table.get k.id t.api_keys ≡ none
    → k.balance_credits ≡ pos 0
    → (j : String) → balance j (with_new_key k t) ≡ balance j t
unfolding balance
balance-with_new_key k t new zero j = elim (Option-cases (Table.get j t.api_keys)) [
  | inl missing ↦ rw (get-append_none j t.api_keys k missing, missing) (ground arith)
  | inr (x, found) ↦ rw (get-append_old j t.api_keys k x found, found) refl
]

module _ (hash_api_key : String → String) where
  abbrev answered : Result (Option ApiKey) × Session → Result ApiKey
  answered (r, s) = (continue r (or_refused hash_api_key) s).0

  -- The checks of a row read only the clock.
  checked_now :
      (k : ApiKey) (d d' : Database)
      → d.now ≡ d'.now
      → answered (checked k (open_session d)) ≡ answered (checked k (open_session d'))
  checked_now k d d' same = elim (Bool-cases (k.status == active)) [
    | inl usable ↦ elim (Bool-cases (is_past k.expires_at d'.now)) [
      | inl late ↦ rw (usable, same, late) refl
      | inr early ↦ rw (usable, same, early) refl
    ]
    | inr shut ↦ rw shut refl
  ]

  module _ (header name token : String) (callback : Option String) (d : Database) where
    abbrev row : ApiKey
    row = new_key name (hash_api_key ("sk_" <> token)) callback (d.uuid d.drawn)

    abbrev asked : String → Database → Result ApiKey × Session
    asked raw d' = get_api_key hash_api_key header (some raw) (open_session d')

    -- What is returned and committed.
    abbrev pub Issued : Result (ApiKey × String) × Database → Type 0
    Issued (err e, d') =
        (e ≡ integrity_error) × (key_clashes row d.stored.api_keys ≡ true) × (d'.stored ≡ d.stored)
    Issued (ok (k, raw), d') =
        (k ≡ row)
        × (asked raw d' ≡ (ok k, open_session d'))
        × ((other : String)
            → hash_api_key other ≢ hash_api_key raw
            → (asked other d').0 ≡ (asked other d).0)
        × ((j : String) → balance j d'.stored ≡ balance j d.stored)

    abbrev after : Database
    after = record d { stored = with_new_key row d.stored; drawn = suc d.drawn }

    asked_row :
        find (has_hash (hash_api_key ("sk_" <> token))) after.stored.api_keys ≡ some row
        → asked ("sk_" <> token) after ≡ (ok row, open_session after)
    unfolding get_api_key get_active_by_raw KeyStatus-discrete
    asked_row found = rw (==_ne ("sk_" <> token) "" (prefixed token), found) refl

    asked_other :
        (other : String)
        → find (has_hash (hash_api_key other)) after.stored.api_keys
          ≡ find (has_hash (hash_api_key other)) d.stored.api_keys
        → (asked other after).0 ≡ (asked other d).0
    unfolding get_api_key get_active_by_raw
    asked_other other same = elim (Bool-cases (other == "")) [
      | inl empty ↦ rw empty refl
      | inr given ↦ elim (Option-cases (find (has_hash (hash_api_key other)) d.stored.api_keys)) [
        | inl missing ↦ rw (given, same, missing) refl
        | inr (x, found) ↦ rw (given, same, found) (checked_now x after d refl)
      ]
    ]

    -- Either the new row's id or hash is taken, the call raises an `IntegrityError` and nothing
    -- is committed; or the new row is returned and committed, a request with the printed raw key
    -- is granted with that row, a raw key with another hash gets the answer that it got before,
    -- and no balance has changed.
    pub create_api_key-Issued : Issued (create_api_key hash_api_key name callback token d)
    unfolding create_api_key
    create_api_key-Issued = elim (Bool-cases (key_clashes row d.stored.api_keys)) [
      | inl clash ↦ rw clash (refl, clash, refl)
      | inr free ↦
          let parts =
            or_false (is_some (Table.get row.id d.stored.api_keys))
              (any (has_hash (hash_api_key ("sk_" <> token))) d.stored.api_keys) free in
          rw free (
            refl,
            asked_row (
                find-append_new (has_hash (hash_api_key ("sk_" <> token))) d.stored.api_keys row
                  (find-any-none _ d.stored.api_keys parts.1)
                  (==_self (hash_api_key ("sk_" <> token)))),
            (λ other apart.
                asked_other other
                  (find-append_skip _ d.stored.api_keys row (==_ne _ _ (λ e. apart (sym e))))),
            balance-with_new_key row d.stored (ground arith) refl,
          )
    ]
