-- ===== src/Models/Table.antt =====
-- A table with a primary key: reading a row by its key, and updating it.
use mathlib.Core.Option
use ai_generation_api.Prelude.{
  is_some, String, ◌≡◌, refl, Bool, true, find, All, Bool-cases, inl, inr, Option, none, some, List,
  [], ◌∷◌, ◌++◌, arith, ◌==◌, string_eq, if◌then◌else◌,
}

pub record Keyed (A : Type 0) : Type 0 where
  pub key : A → String

module _ {A : Type 0} ⦃k : Keyed A⦄ where
  -- `db.get(Model, id)`
  unfoldable pub get : String → List A → Option A
  get i [] = none
  get i (r ∷ t) = if k.key r == i then some r else get i t

  -- `UPDATE … WHERE id = i`, or writes to the attributes of the row `i`.
  unfoldable pub update : String → (A → A) → List A → List A
  update i f [] = []
  update i f (r ∷ t) = if k.key r == i then f r ∷ t else r ∷ update i f t

  pub key-get : (i : String) (t : List A) (r : A) → get i t ≡ some r → k.key r ≡ i
  unfolding get
  key-get i [] r h = cc
  key-get i (x ∷ t) r h = ground (arith, key-get i t r)

  -- A row with a new key is found at the end of the table.
  pub get-append_new :
      (t : List A) (r : A) → get (k.key r) t ≡ none → get (k.key r) (t ++ r ∷ []) ≡ some r
  unfolding get
  get-append_new [] r h = ground arith
  get-append_new (x ∷ t) r h = ground (arith, get-append_new t r)

  pub is_some-get_append : (t : List A) (r : A) → is_some (get (k.key r) (t ++ r ∷ [])) ≡ true
  unfolding get
  is_some-get_append [] r = ground arith
  is_some-get_append (x ∷ t) r = ground (arith, is_some-get_append t r)

  -- Rows that are there already are found as before.
  pub get-append_old :
      (i : String) (t : List A) (r x : A) → get i t ≡ some x → get i (t ++ r ∷ []) ≡ some x
  unfolding get
  get-append_old i [] r x h = cc
  get-append_old i (y ∷ t) r x h = ground (arith, get-append_old i t r x)

  -- A key that no row has is the new row's or is still missing.
  pub get-append_none :
      (i : String) (t : List A) (r : A)
      → get i t ≡ none
      → get i (t ++ r ∷ []) ≡ (if k.key r == i then some r else none)
  unfolding get
  get-append_none i [] r h = refl
  get-append_none i (y ∷ t) r h = ground (arith, get-append_none i t r)

  module _ (f : A → A) (keeps : (r : A) → k.key (f r) ≡ k.key r) where
    pub get-update :
        (i j : String) (t : List A)
        → get j (update i f t) ≡ (if i == j then Option.map f (get j t) else get j t)
    unfolding get update
    get-update i j [] = ground arith
    get-update i j (r ∷ t) = ground (arith, get-update i j t, keeps r)

    pub get-update_self :
        (i : String) (t : List A) (x : A) → get i t ≡ some x → get i (update i f t) ≡ some (f x)
    get-update_self i t x h = ground (arith, get-update i i t)

  pub All-update :
      {Q : A → Type 0} (i : String) (f : A → A)
      → ((r : A) → Q r → Q (f r))
      → (t : List A) → All Q t
      → All Q (update i f t)
  unfolding update
  All-update i f h [] a = a
  All-update i f h (r ∷ t) a = elim (Bool-cases (k.key r == i)) [
    | inl e ↦ rw e (h r a.0, a.1)
    | inr e ↦ rw e (a.0, All-update i f h t a.1)
  ]

  module _ (p : A → Bool) where
    pub find-append_new :
        (t : List A) (x : A) → find p t ≡ none → p x ≡ true → find p (t ++ x ∷ []) ≡ some x
    find-append_new [] x none_there h = rw h refl
    find-append_new (y ∷ t) x none_there h = ground (arith, find-append_new t x)

    -- The key of the row found, after a change to some row that keeps its key and the predicate.
    pub find-update :
        (i : String) (f : A → A)
        → ((y : A) → p (f y) ≡ p y)
        → ((y : A) → k.key (f y) ≡ k.key y)
        → (t : List A) → Option.map k.key (find p (update i f t)) ≡ Option.map k.key (find p t)
    unfolding update
    find-update i f keeps same [] = refl
    find-update i f keeps same (y ∷ t) =
        ground (arith, find-update i f keeps same t, keeps y, same y)
