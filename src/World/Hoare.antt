-- ===== src/World/Hoare.antt =====
-- Triples for the worker's blocks: what the tables satisfy after a call that returns or raises. A
-- block in a session starts, and is to end, with no open transaction.
use ai_generation_api.Prelude.{◌≡◌, ap}
use ai_generation_api.Errors.{Error}
use ai_generation_api.Exec.{Result, ok, err, Exec, continue, ◌>>=◌}
use ai_generation_api.Models.{Tables}
use ai_generation_api.Session.{Database, Session, open_session}
use ai_generation_api.World.{World, in_session}

-- What holds of a result and the tables.
abbrev pub Ends :
    {A : Type 0} → (A → Tables → Type 0) → (Error → Tables → Type 0) → Result A → Tables → Type 0
Ends Q E (ok a) t = Q a t
Ends Q E (err e) t = E e t

pub record Triple {A : Type 0} (P : Tables → Type 0) (m : Exec World A) (Q : A → Tables → Type 0)
    (E : Error → Tables → Type 0) : Type 0 where
  pub ends : (w : World) → P w.stored → Ends Q E (m w).0 (m w).1.stored

abbrev pub IsClean : Session → Type 0
IsClean s = s.current ≡ s.stored

pub record Block {A : Type 0} (P : Tables → Type 0) (m : Exec Session A) (Q : A → Tables → Type 0)
    (E : Error → Tables → Type 0) : Type 0 where
  pub ends :
      (d : Database)
      → P d.stored
      → Ends Q E (m (open_session d)).0 (m (open_session d)).1.stored
        × IsClean (m (open_session d)).1

module _ {A B : Type 0} {P : Tables → Type 0} {Q : A → Tables → Type 0} {R : B → Tables → Type 0}
    {E : Error → Tables → Type 0} where
  pub bind :
      (m : Exec World A) (f : A → Exec World B)
      → Triple P m Q E
      → ((a : A) → Triple (Q a) (f a) R E)
      → Triple P (m >>= f) R E
  bind m f hm hf = record { ends = λ w p. go (m w).0 (m w).1 (hm.ends w p) }
    where
      go :
          (r : Result A) (v : World)
          → Ends Q E r v.stored
          → Ends R E (continue r f v).0 (continue r f v).1.stored
      go (ok a) v h = (hf a).ends v h
      go (err e) v h = h

  pub block_bind :
      (m : Exec Session A) (f : A → Exec Session B)
      → Block P m Q E
      → ((a : A) → Block (Q a) (f a) R E)
      → Block P (m >>= f) R E
  block_bind m f hm hf = record {
    ends = λ d p. go (m (open_session d)).0 (m (open_session d)).1 (hm.ends d p);
  }
    where
      go :
          (r : Result A) (s : Session)
          → Ends Q E r s.stored × IsClean s
          → Ends R E (continue r f s).0 (continue r f s).1.stored × IsClean (continue r f s).1
      go (ok a) s (h, clean) =
          let e : s ≡ open_session s.database =
            ap (λ t. record { database = s.database; current = t }) clean in
          rw e ((hf a).ends s.database h)
      go (err e) s h = h

module _ {A : Type 0} {P : Tables → Type 0} {Q : A → Tables → Type 0}
    {E : Error → Tables → Type 0} where
  pub of_block : (m : Exec Session A) → Block P m Q E → Triple P (in_session m) Q E
  unfolding in_session
  of_block m h = record { ends = λ w p. (h.ends w.database p).0 }

  pub of_result : (r : Result A) → ((t : Tables) → P t → Ends Q E r t) → Triple P (λ w. (r, w)) Q E
  of_result r h = record { ends = λ w p. h w.stored p }

  pub weaken :
      (E' : Error → Tables → Type 0) (m : Exec World A)
      → ((e : Error) (t : Tables) → E e t → E' e t)
      → Triple P m Q E
      → Triple P m Q E'
  weaken E' m to h = record { ends = λ w p. go (m w).0 (m w).1.stored (h.ends w p) }
    where
      go : (r : Result A) (t : Tables) → Ends Q E r t → Ends Q E' r t
      go (ok a) t q = q
      go (err e) t q = to e t q
