-- ===== src/Comfyui/Polling.antt =====
-- When the wait for ComfyUI ends, and what it reports meanwhile.
use ai_generation_api.Prelude.{
  ℕ, zero, suc, ◌+◌, ◌*◌, ◌≤◌, ◌<◌, String, ◌≡◌, refl, ◌⊎◌, inl, inr, Option, none, some, List, All,
  ltb, Bool-cases, arith,
}
use native.Mathlib.Nat.{add-zero}
use ai_generation_api.Prelude.Int.{ℤ, pos, ◌≤ℤ◌}
use ai_generation_api.Exec.{Result, ok, err}
use ai_generation_api.Engine.{GenerationResult}
use ai_generation_api.Comfyui.{
  FileInfo, Answer, unreachable, absent, broken, entry, extract_output, finish, fetched, on_answer,
  timed_out, poll, wait,
}

abbrev pub InRange : ℤ → Type 0
InRange p = (pos 10 ≤ℤ p) × (p ≤ℤ pos 100)

-- An answer that lets the loop go on.
abbrev pub IsPending : Answer → Type 0
IsPending unreachable = Unit
IsPending absent = Unit
IsPending _ = ⊥

module _ (lower : String → String) (download : FileInfo → Result String)
    (model : Option String) where
  -- What an answer that ends the loop makes of it.
  abbrev pub Decides : Answer → Result GenerationResult → Type 0
  Decides unreachable r = ⊥
  Decides absent r = ⊥
  Decides (broken e) r = r ≡ err e
  Decides (entry outputs errors) r =
      r ≡ (finish lower download model (extract_output lower outputs) errors).1

  module _ (timeout interval : ℕ) (answers : ℕ → Answer) where
    abbrev run : ℕ → ℕ → ℕ → List ℤ × Result GenerationResult
    run = poll lower download model timeout interval answers

    -- From the poll `n` on, `k` answers let the loop go on; then an answer decides, or the time is up.
    abbrev pub Waited : ℕ → ℕ → Result GenerationResult → Type 0
    Waited n waited r =
        (k : ℕ) × ((i : ℕ) → i < k → IsPending (answers (n + i)))
        × ((waited + k * interval < timeout × Decides (answers (n + k)) r)
            ⊎ (timeout ≤ waited + k * interval × r ≡ err timed_out))

    Waited-next :
        (n waited : ℕ) (r : Result GenerationResult)
        → IsPending (answers n)
        → Waited (suc n) (waited + interval) r
        → Waited n waited r
    Waited-next n waited r pending (k, before, ends) = (suc k, before', rw (place, time) ends)
      where
        before' : (i : ℕ) → i < suc k → IsPending (answers (n + i))
        before' zero h = rw add-zero pending
        before' (suc i) h =
            let e : n + suc i ≡ suc n + i = omega arith in rw e (before i (omega arith))

        place : n + suc k ≡ suc n + k
        place = omega arith

        time : waited + suc k * interval ≡ waited + interval + k * interval
        time = omega arith

    decided :
        (n waited fuel : ℕ) (a : Answer)
        → waited < timeout
        → answers n ≡ a
        → (IsPending a
            → Waited (suc n) (waited + interval) (run (suc fuel) (suc n) (waited + interval)).1)
        → Waited n waited
            (on_answer lower download model a
              (waited + interval)
              (run (suc fuel) (suc n) (waited + interval))).1
    decided n waited fuel unreachable early e rest = Waited-next n waited _ (rw e tt) (rest tt)
    decided n waited fuel absent early e rest = Waited-next n waited _ (rw e tt) (rest tt)
    decided n waited fuel (broken x) early e rest =
        (0, (λ i h. absurd (omega arith)), inl (omega arith, rw (add-zero, e) refl))
    decided n waited fuel (entry outputs errors) early e rest =
        (0, (λ i h. absurd (omega arith)), inl (omega arith, rw (add-zero, e) refl))

    poll_lem :
        (fuel n waited : ℕ)
        → timeout ≤ waited + fuel * interval
        → Waited n waited (run (suc fuel) n waited).1
    unfolding poll
    poll_lem zero n waited enough = elim (Bool-cases (ltb waited timeout)) [
      | inl early ↦ absurd (ground arith)
      | inr late ↦ rw late (0, (λ i h. absurd (omega arith)), inr (ground arith, refl))
    ]
    poll_lem (suc fuel) n waited enough = elim (Bool-cases (ltb waited timeout)) [
      | inl early ↦
          let left : timeout ≤ waited + interval + fuel * interval = omega (arith, enough) in
          rw early (
            decided n waited fuel (answers n) (ground arith) refl
              (λ h. poll_lem fuel (suc n) (waited + interval) left))
      | inr late ↦ rw late (0, (λ i h. absurd (omega arith)), inr (ground arith, refl))
    ]

    on_answer-InRange :
        (a : Answer) (waited : ℕ) (rest : List ℤ × Result GenerationResult)
        → All InRange rest.0
        → All InRange (on_answer lower download model a waited rest).0
    on_answer-InRange unreachable waited rest h = h
    on_answer-InRange absent waited rest h = ((ground arith, ground arith), h)
    on_answer-InRange (broken e) waited rest h = tt
    on_answer-InRange (entry outputs errors) waited rest h = finished (extract_output lower outputs)
      where
        fetched_in :
            (info : FileInfo) (ext ctype : String) (x : Result String)
            → All InRange (fetched lower download model ext ctype x).0
        fetched_in info ext ctype (ok body) = ((omega arith, omega arith), tt)
        fetched_in info ext ctype (err e) = tt

        finished :
            (o : Option (FileInfo × String × String))
            → All InRange (finish lower download model o errors).0
        finished none = tt
        finished (some (info, ext, ctype)) = fetched_in info ext ctype (download info)

    poll-InRange : (fuel n waited : ℕ) → All InRange (run fuel n waited).0
    unfolding poll
    poll-InRange zero n waited = tt
    poll-InRange (suc fuel) n waited = elim (Bool-cases (ltb waited timeout)) [
      | inl early ↦ rw early (
          on_answer-InRange (answers n) (waited + interval) _
            (poll-InRange fuel (suc n) (waited + interval)))
      | inr late ↦ rw late tt
    ]

    -- With fuel for intervals up to the timeout, the wait reports progress from 10 to 100 only,
    -- and ends in one of two ways: polls that bring no answer or no entry, and before the timeout
    -- one whose answer decides the result; or such polls until the timeout is reached, and the
    -- error of a timeout.
    pub wait-Waited :
        (fuel : ℕ)
        → timeout ≤ fuel * interval
        → let (reports, r) = wait lower download model timeout interval answers (suc fuel) in
          All InRange reports × Waited 0 0 r
    unfolding wait
    wait-Waited fuel enough = (
      ((omega arith, omega arith), poll-InRange (suc fuel) 0 0),
      poll_lem fuel 0 0 (omega (arith, enough)),
    )
