-- ===== src/Engine/Contract.antt =====
-- What the worker may rely on of a provider (app/providers/base.py): progress that only rises, up to
-- 100, and reaches it before a result is returned.
use ai_generation_api.Prelude.{ℕ, ◌≡◌, refl, Option, none, some, List, [], ◌∷◌, arith}
use ai_generation_api.Prelude.Int.{ℤ, pos, ◌≤ℤ◌}
use ai_generation_api.Exec.{Result, ok, err}
use ai_generation_api.Errors.{Error}
use ai_generation_api.Engine.{Provider, GenerationRequest, GenerationResult}

abbrev pub Rising : ℤ → List ℤ → Type 0
Rising low [] = Unit
Rising low (p ∷ ps) = (low ≤ℤ p) × (p ≤ℤ pos 100) × Rising p ps

abbrev pub last_report : List ℤ → Option ℤ
last_report [] = none
last_report (p ∷ []) = some p
last_report (p ∷ q ∷ ps) = last_report (q ∷ ps)

abbrev pub Completes : List ℤ → Result GenerationResult → Type 0
Completes reports (ok r) = last_report reports ≡ some (pos 100)
Completes reports (err e) = Unit

-- Of the reports and the result of a run, where `low` was reported before.
pub record Steady (low : ℤ) (run : List ℤ × Result GenerationResult) : Type 0 where
  pub rising : Rising low run.0
  pub completes : Completes run.0 run.1

pub record IsSteady (p : Provider) : Type 0 where
  pub steady :
      (req : GenerationRequest) (run : ℕ) → Steady (pos 0) (p.reports req run, p.generate req run)

pub Rising-weaken : (low low' : ℤ) (ps : List ℤ) → low ≤ℤ low' → Rising low' ps → Rising low ps
Rising-weaken low low' [] h r = tt
Rising-weaken low low' (p ∷ ps) h (above, below, r) = (omega (arith, h, above), below, r)

pub last_report-cons :
    (p q : ℤ) (ps : List ℤ) → last_report ps ≡ some q → last_report (p ∷ ps) ≡ some q
last_report-cons p q [] h = cc
last_report-cons p q (r ∷ ps) h = h

Completes-cons :
    (p : ℤ) (ps : List ℤ) (r : Result GenerationResult) → Completes ps r → Completes (p ∷ ps) r
Completes-cons p ps (ok r) h = last_report-cons p (pos 100) ps h
Completes-cons p ps (err e) h = tt

pub Steady-report :
    (low p : ℤ) (run : List ℤ × Result GenerationResult)
    → low ≤ℤ p
    → p ≤ℤ pos 100
    → Steady p run
    → Steady low (p ∷ run.0, run.1)
Steady-report low p run above below s = record {
  rising = (above, below, s.rising);
  completes = Completes-cons p run.0 run.1 s.completes;
}

pub Steady-err : (low : ℤ) (e : Error) → Steady low ([], err e)
Steady-err low e = record { rising = tt; completes = tt }

-- A run that reports 100 at its end.
pub Steady-full :
    (low : ℤ) (r : Result GenerationResult) → low ≤ℤ pos 100 → Steady low (pos 100 ∷ [], r)
Steady-full low (ok r) h = record { rising = (h, omega arith, tt); completes = refl }
Steady-full low (err e) h = record { rising = (h, omega arith, tt); completes = tt }

pub Steady-weaken :
    (low low' : ℤ) (run : List ℤ × Result GenerationResult)
    → low ≤ℤ low'
    → Steady low' run
    → Steady low run
Steady-weaken low low' run h s = record {
  rising = Rising-weaken low low' run.0 h s.rising;
  completes = s.completes;
}
