-- ===== src/BillingRepo/Listing.antt =====
-- The rows that `list_ledger` gives a partner.
use mathlib.Core.List.{Perm}
use mathlib.Core.List.Perm
use ai_generation_api.Prelude.{
  refl, ap, ◌∙◌, ◌↔◌, none, some, ◌++◌, min, string_eq, ℕ, zero, suc, ◌≤◌, String, ◌≡◌, true,
  Option, List, [], ◌∷◌, All, select, take, length, leb, Bool-cases, inl, inr, arith,
}
use ai_generation_api.Models.{BillingLedger, Tables}
use ai_generation_api.BillingRepo.Usage.{is_selected, insert_desc, order_desc, list_ledger}

-- The newest row first.
abbrev pub Descending : List BillingLedger → Type 0
Descending [] = Unit
Descending (x ∷ xs) = All (λ y. y.created_at ≤ x.created_at) xs × Descending xs

module _ (Q : BillingLedger → Type 0) where
  All-insert_desc :
      (r : BillingLedger) (xs : List BillingLedger) → Q r → All Q xs → All Q (insert_desc r xs)
  unfolding insert_desc
  All-insert_desc r [] q a = (q, tt)
  All-insert_desc r (x ∷ xs) q a = elim (Bool-cases (leb x.created_at r.created_at)) [
    | inl e ↦ rw e (q, a)
    | inr e ↦ rw e (a.0, All-insert_desc r xs q a.1)
  ]

  All-order_desc : (xs : List BillingLedger) → All Q xs → All Q (order_desc xs)
  unfolding order_desc
  All-order_desc [] a = tt
  All-order_desc (x ∷ xs) a = All-insert_desc x (order_desc xs) a.0 (All-order_desc xs a.1)

  All-take : (n : ℕ) (xs : List BillingLedger) → All Q xs → All Q (take n xs)
  All-take zero xs a = tt
  All-take (suc n) [] a = tt
  All-take (suc n) (x ∷ xs) a = (a.0, All-take n xs a.1)

All-map :
    {P Q : BillingLedger → Type 0} (xs : List BillingLedger)
    → ((r : BillingLedger) → P r → Q r)
    → All P xs
    → All Q xs
All-map [] f a = tt
All-map (x ∷ xs) f a = (f x a.0, All-map xs f a.1)

Descending-insert_desc :
    (r : BillingLedger) (xs : List BillingLedger) → Descending xs → Descending (insert_desc r xs)
unfolding insert_desc
Descending-insert_desc r [] d = (tt, tt)
Descending-insert_desc r (x ∷ xs) d = elim (Bool-cases (leb x.created_at r.created_at)) [
  | inl e ↦
      let newer : x.created_at ≤ r.created_at = ground arith in
      rw e ((newer, All-map xs (λ y h. omega (arith, h, newer)) d.0), d)
  | inr e ↦ rw e (
    All-insert_desc (λ y. y.created_at ≤ x.created_at) r xs (ground arith) d.0,
    Descending-insert_desc r xs d.1,
  )
]

Descending-order_desc : (xs : List BillingLedger) → Descending (order_desc xs)
unfolding order_desc
Descending-order_desc [] = tt
Descending-order_desc (x ∷ xs) = Descending-insert_desc x (order_desc xs) (Descending-order_desc xs)

insert_desc-perm : (r : BillingLedger) (xs : List BillingLedger) → Perm (insert_desc r xs) (r ∷ xs)
unfolding insert_desc
insert_desc-perm r [] = Perm.refl (r ∷ [])
insert_desc-perm r (x ∷ xs) = elim (Bool-cases (leb x.created_at r.created_at)) [
  | inl e ↦ rw e (Perm.refl (r ∷ x ∷ xs))
  | inr e ↦ rw e (Perm.trans (Perm.cons x (insert_desc-perm r xs)) (Perm.swap r x xs))
]

order_desc-perm : (xs : List BillingLedger) → Perm (order_desc xs) xs
unfolding order_desc
order_desc-perm [] = Perm.refl []
order_desc-perm (x ∷ xs) =
    Perm.trans (insert_desc-perm x (order_desc xs)) (Perm.cons x (order_desc-perm xs))

-- What a limit leaves out.
drop : ℕ → List BillingLedger → List BillingLedger
drop zero xs = xs
drop (suc n) [] = []
drop (suc n) (x ∷ xs) = drop n xs

take-drop : (n : ℕ) (xs : List BillingLedger) → take n xs ++ drop n xs ≡ xs
unfolding drop
take-drop zero xs = refl
take-drop (suc n) [] = refl
take-drop (suc n) (x ∷ xs) = ap (λ ys. x ∷ ys) (take-drop n xs)

length-take : (n : ℕ) (xs : List BillingLedger) → length (take n xs) ≡ min n (length xs)
length-take zero xs = omega arith
length-take (suc n) [] = omega arith
length-take (suc n) (x ∷ xs) = omega (arith, length-take n xs)

length-insert_desc :
    (r : BillingLedger) (xs : List BillingLedger) → length (insert_desc r xs) ≡ suc (length xs)
unfolding insert_desc
length-insert_desc r [] = refl
length-insert_desc r (x ∷ xs) = elim (Bool-cases (leb x.created_at r.created_at)) [
  | inl e ↦ rw e refl
  | inr e ↦ rw e (ap suc (length-insert_desc r xs))
]

length-order_desc : (xs : List BillingLedger) → length (order_desc xs) ≡ length xs
unfolding order_desc
length-order_desc [] = refl
length-order_desc (x ∷ xs) = length-insert_desc x (order_desc xs) ∙ ap suc (length-order_desc xs)

-- The rows that a caller asks for.
abbrev pub IsAfter : Option ℕ → ℕ → Type 0
IsAfter none time = Unit
IsAfter (some frm) time = frm ≤ time

abbrev pub IsBefore : Option ℕ → ℕ → Type 0
IsBefore none time = Unit
IsBefore (some to) time = time ≤ to

abbrev pub IsWanted : String → Option ℕ → Option ℕ → BillingLedger → Type 0
IsWanted key frm to r = (r.api_key_id ≡ key) × (IsAfter frm r.created_at × IsBefore to r.created_at)

is_selected-true_iff :
    (key : String) (frm to : Option ℕ) (r : BillingLedger)
    → (is_selected key frm to r ≡ true) ↔ IsWanted key frm to r
is_selected-true_iff key none none r = (λ h. (ground arith, (tt, tt)), λ h. ground arith)
is_selected-true_iff key none (some to) r =
    (λ h. (ground arith, (tt, ground arith)), λ h. ground arith)
is_selected-true_iff key (some frm) none r =
    (λ h. (ground arith, (ground arith, tt)), λ h. ground arith)
is_selected-true_iff key (some frm) (some to) r =
    (λ h. (ground arith, (ground arith, ground arith)), λ h. ground arith)

-- The test on a row holds exactly for the rows of the key within the dates given. Of the ledger's
-- rows that pass it, the listing has as many as there are, or the limit, and followed by some
-- rest it is all of them, each as often as in the ledger, from the newest to the oldest: the
-- listing has the newest, and no row that was left out is newer.
pub list_ledger-Descending :
    (t : Tables) (key : String) (frm to : Option ℕ) (limit : ℕ)
    → let rows = list_ledger t key frm to limit in
      let wanted = select (is_selected key frm to) t.ledger in
      ((r : BillingLedger) → (is_selected key frm to r ≡ true) ↔ IsWanted key frm to r)
      × (length rows ≡ min limit (length wanted))
      × ((rest : List BillingLedger) × (Perm (rows ++ rest) wanted × Descending (rows ++ rest)))
unfolding list_ledger
list_ledger-Descending t key frm to limit =
    let wanted = select (is_selected key frm to) t.ledger in
    let whole = take-drop limit (order_desc wanted) in
    (
      is_selected-true_iff key frm to,
      length-take limit (order_desc wanted) ∙ ap (λ n. min limit n) (length-order_desc wanted),
      (
        drop limit (order_desc wanted),
        (rw whole (order_desc-perm wanted), rw whole (Descending-order_desc wanted)),
      ),
    )
