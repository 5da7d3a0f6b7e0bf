-- ===== src/Scripts/VideoModes/Passed.antt =====
-- What has been checked when the command succeeds.
use mathlib.Core.Path.{subst}
use ai_generation_api.Prelude.{
  ℕ, suc, ◌*◌, ◌+◌, ◌≤◌, String, ◌≡◌, ◌↔◌, refl, sym, ap, ◌∙◌, true, false, List, [], ◌∷◌, All,
  Bool-cases, inl, inr, arith, if◌then◌else◌,
}
use ai_generation_api.Exec.{Result, ok, err, Exec, pure, continue, ◌>>=◌}
use ai_generation_api.Storage.{Disk}
use ai_generation_api.Scripts.VideoModes.{Reader, mode_names, validate_files}
use ai_generation_api.Scripts.VideoModes.Loops.{Quiet, Chain, Chain-iff, each-Chain}
use ai_generation_api.Scripts.VideoModes.Files.{IsModeFile, validate_files_lem}
use ai_generation_api.Scripts.VideoModes.Polls.{Previewed, Completed}
use ai_generation_api.Scripts.VideoModes.Tasks.{preview_one_iff, smoke_one_iff}
use ai_generation_api.Scripts.VideoModes.Client.{
  Api, Arguments, preview_one, run_preview_checks, smoke_one, run_smoke_checks, given, text,
  Machine, on_disk, on_api, exit_if, smoke_part, preview_part, api_part, main,
}

module _ (api : Api) where
  one-not_zero : (m m' : Machine api) → ¬ (pure {S = Machine api} {A = ℕ} 1 m ≡ (ok 0, m'))
  one-not_zero m m' h = let bad : ◌≡◌ {A = ℕ} 1 0 = cc in omega (arith, bad)

  pure_iff :
      (disk disk' : Disk) (s s' : api.State)
      → (pure {S = Machine api} {A = ℕ} 0 (disk, s) ≡ (ok 0, (disk', s')))
        ↔ ((disk ≡ disk') × (s ≡ s'))
  pure_iff disk disk' s s' =
      (λ h. (ap (λ p. p.1.0) h, ap (λ p. p.1.1) h), λ (same, same'). λ i. (ok 0, (same i, same' i)))

  -- Errors end the command with 1.
  exit_iff :
      (p : Result (List String) × Machine api) (next : Exec (Machine api) ℕ) (m' : Machine api)
      → (continue p.0 (λ errors. exit_if api errors next) p.1 ≡ (ok 0, m'))
        ↔ ((mid : Machine api) × ((p ≡ (ok [], mid)) × (next mid ≡ (ok 0, m'))))
  exit_iff (err e, t) next m' = (λ h. cc, λ (mid, (h, rest)). cc)
  exit_iff (ok [], t) next m' = (
    λ h. (t, (refl, h)),
    λ (mid, (h, rest)). let same : mid ≡ t = cc in subst (λ x. next x ≡ (ok 0, m')) same rest,
  )
  exit_iff (ok (e ∷ es), t) next m' = (λ h. absurd (one-not_zero t m' h), λ (mid, (h, rest)). cc)

  -- A check against the API leaves the disk alone.
  api_then_iff :
      (m : Exec api.State (List String)) (next : Exec (Machine api) ℕ) (disk disk' : Disk)
      (s s' : api.State)
      → ((on_api api m >>= λ errors. exit_if api errors next) (disk, s) ≡ (ok 0, (disk', s')))
        ↔ ((mid : api.State) × ((m s ≡ (ok [], mid)) × (next (disk, mid) ≡ (ok 0, (disk', s')))))
  api_then_iff m next disk disk' s s' =
      let exit = exit_iff (on_api api m (disk, s)) next (disk', s') in
      (
        λ h.
            let ((d, t), (quiet, rest)) = exit.0 h in
            let same : disk ≡ d = ap (λ p. p.1.0) quiet in
            (
              t,
              (
                ap (λ p. (p.0, p.1.1)) quiet,
                subst (λ x. next (x, t) ≡ (ok 0, (disk', s'))) (sym same) rest,
              ),
            ),
        λ (mid, (quiet, rest)). exit.1 ((disk, mid), (ap (λ p. (p.0, (disk, p.1))) quiet, rest)),
      )

  -- A check of the disk leaves the API alone.
  disk_then_iff :
      (m : Exec Disk (List String)) (next : Exec (Machine api) ℕ) (disk : Disk) (s : api.State)
      (m' : Machine api)
      → ((on_disk api m >>= λ errors. exit_if api errors next) (disk, s) ≡ (ok 0, m'))
        ↔ ((mid : Disk) × ((m disk ≡ (ok [], mid)) × (next (mid, s) ≡ (ok 0, m'))))
  disk_then_iff m next disk s m' =
      let exit = exit_iff (on_disk api m (disk, s)) next m' in
      (
        λ h.
            let ((d, t), (quiet, rest)) = exit.0 h in
            let same : s ≡ t = ap (λ p. p.1.1) quiet in
            (
              d,
              (ap (λ p. (p.0, p.1.0)) quiet, subst (λ x. next (d, x) ≡ (ok 0, m')) (sym same) rest),
            ),
        λ (mid, (quiet, rest)). exit.1 ((mid, s), (ap (λ p. (p.0, (p.1, s))) quiet, rest)),
      )

module _ (r : Reader) (api : Api) (a : Arguments) where
  -- With `--smoke`, a task of each mode was completed.
  abbrev pub Smoked : api.State → api.State → Type 0
  Smoked s s' =
      if a.smoke
      then Chain
          (Completed r api (text a.api_base_url) (text a.api_key) (text a.image_url)
            a.smoke_timeout_seconds)
          (mode_names r) s s'
      else (s ≡ s')

  -- With a base URL there are a key and an image, and each mode has a preview with a prompt.
  abbrev pub Tried : api.State → api.State → Type 0
  Tried s s' =
      if given a.api_base_url
      then (given a.api_key ≡ true)
        × ((given a.image_url ≡ true)
            × ((mid : api.State) × (Chain
                    (Previewed r api (text a.api_base_url) (text a.api_key) (text a.image_url))
                    (mode_names r) s mid
                  × Smoked mid s')))
      else (s ≡ s')

  abbrev pub Passed : Machine api → Machine api → Type 0
  Passed (disk, s) (disk', s') =
      All (IsModeFile r a.modes_dir disk) (mode_names r) × ((disk ≡ disk') × Tried s s')

module _ (r : Reader) (api : Api) (fuel : ℕ)
    (moves : (url key : String) (s : api.State) → api.time s ≤ api.time (api.get url key s).1)
    (sleeps : (ms : ℕ) (s : api.State) → api.time s + ms ≤ api.time (api.sleep ms s))
    (a : Arguments) (enough : a.smoke_timeout_seconds ≤ fuel * 3) where
  smokes_iff :
      (s s' : api.State)
      → (run_smoke_checks r api
            (text a.api_base_url)
            (text a.api_key)
            (text a.image_url)
            a.smoke_timeout_seconds
            (suc fuel)
            s
          ≡ (ok [], s'))
        ↔ Chain
            (Completed r api
              (text a.api_base_url)
              (text a.api_key)
              (text a.image_url)
              a.smoke_timeout_seconds)
            (mode_names r)
            s
            s'
  unfolding run_smoke_checks
  smokes_iff s s' =
      let one =
        smoke_one r api (text a.api_base_url) (text a.api_key) (text a.image_url)
          a.smoke_timeout_seconds (suc fuel) in
      let loop = each-Chain one (mode_names r) s s' in
      let chain =
        Chain-iff (Quiet one) _
          (smoke_one_iff r api moves sleeps (text a.api_base_url) (text a.api_key)
            (text a.image_url) a.smoke_timeout_seconds fuel enough)
          (mode_names r) s s' in
      (λ h. chain.0 (loop.0 h), λ h. loop.1 (chain.1 h))

  previews_iff :
      (s s' : api.State)
      → (run_preview_checks r api (text a.api_base_url) (text a.api_key) (text a.image_url) s
          ≡ (ok [], s'))
        ↔ Chain
            (Previewed r api (text a.api_base_url) (text a.api_key) (text a.image_url))
            (mode_names r)
            s
            s'
  unfolding run_preview_checks
  previews_iff s s' =
      let one = preview_one r api (text a.api_base_url) (text a.api_key) (text a.image_url) in
      let loop = each-Chain one (mode_names r) s s' in
      let chain =
        Chain-iff (Quiet one) _
          (preview_one_iff r api moves sleeps (text a.api_base_url) (text a.api_key)
            (text a.image_url))
          (mode_names r) s s' in
      (λ h. chain.0 (loop.0 h), λ h. loop.1 (chain.1 h))

  smoke_part_iff :
      (disk disk' : Disk) (s s' : api.State)
      → ((if a.smoke then smoke_part r api (suc fuel) a else pure 0) (disk, s)
          ≡ (ok 0, (disk', s')))
        ↔ ((disk ≡ disk') × Smoked r api a s s')
  smoke_part_iff disk disk' s s' = elim (Bool-cases a.smoke) [
    | inl on ↦
        let checks =
          run_smoke_checks r api (text a.api_base_url) (text a.api_key) (text a.image_url)
            a.smoke_timeout_seconds (suc fuel) in
        let step = api_then_iff api checks (pure 0) disk disk' s s' in
        rw on (
          λ h.
              let (mid, (quiet, ends)) = step.0 h in
              let (same_disk, same) = (pure_iff api disk disk' mid s').0 ends in
              (same_disk, (smokes_iff s s').0 (subst (λ x. checks s ≡ (ok [], x)) same quiet)),
          λ (same, chain).
              step.1
                (s', ((smokes_iff s s').1 chain, (pure_iff api disk disk' s' s').1 (same, refl))),
        )
    | inr off ↦ rw off (pure_iff api disk disk' s s')
  ]

  preview_part_iff :
      (disk disk' : Disk) (s s' : api.State)
      → (preview_part r api (suc fuel) a (disk, s) ≡ (ok 0, (disk', s'))) ↔ (
          (disk ≡ disk')
          × ((mid : api.State) × (Chain
                  (Previewed r api (text a.api_base_url) (text a.api_key) (text a.image_url))
                  (mode_names r)
                  s
                  mid
                × Smoked r api a mid s')))
  preview_part_iff disk disk' s s' =
      let step =
        api_then_iff api
          (run_preview_checks r api (text a.api_base_url) (text a.api_key) (text a.image_url))
          (if a.smoke then smoke_part r api (suc fuel) a else pure 0) disk disk' s s' in
      (
        λ h.
            let (mid, (quiet, ends)) = step.0 h in
            let (same, smoked) = (smoke_part_iff disk disk' mid s').0 ends in
            (same, (mid, ((previews_iff s mid).0 quiet, smoked))),
        λ (same, (mid, (chain, smoked))). step.1 (
          mid,
          ((previews_iff s mid).1 chain, (smoke_part_iff disk disk' mid s').1 (same, smoked)),
        ),
      )

  api_part_iff :
      (disk disk' : Disk) (s s' : api.State)
      → (api_part r api (suc fuel) a (disk, s) ≡ (ok 0, (disk', s')))
        ↔ ((disk ≡ disk') × Tried r api a s s')
  api_part_iff disk disk' s s' = elim (Bool-cases (given a.api_base_url)) [
    | inr no_url ↦ rw no_url (pure_iff api disk disk' s s')
    | inl url ↦ elim (Bool-cases (given a.api_key)) [
      | inr no_key ↦
          rw (url, no_key)
            (
              λ h. absurd (one-not_zero api (disk, s) (disk', s') h),
              λ (same, tried). let bad : false ≡ true = tried.0 in cc,
            )
      | inl key ↦ elim (Bool-cases (given a.image_url)) [
        | inr no_image ↦
            rw (url, key, no_image)
              (
                λ h. absurd (one-not_zero api (disk, s) (disk', s') h),
                λ (same, tried). let bad : false ≡ true = tried.1.0 in cc,
              )
        | inl image ↦
            let previews = preview_part_iff disk disk' s s' in
            rw (url, key, image)
              (
                λ h. let (same, rest) = previews.0 h in (same, (refl, (refl, rest))),
                λ (same, tried). previews.1 (same, tried.1.1),
              )
      ]
    ]
  ]

  -- For an API whose clock does not run back during a request and goes on by the time of a sleep,
  -- and with fuel for a poll every three seconds until the timeout: the command exits with 0
  -- exactly if each of the 40 modes has a file with the fields of a video mode and the three
  -- anchors; with a base URL, there are a key and an image and each mode has a preview with a
  -- prompt; and with `--smoke`, each mode's task was created and a poll before the deadline found
  -- it completed.
  pub main-Passed :
      (m m' : Machine api) → (main r api (suc fuel) a m ≡ (ok 0, m')) ↔ Passed r api a m m'
  unfolding main
  main-Passed (disk, s) (disk', s') =
      let step =
        disk_then_iff api (validate_files r a.modes_dir) (api_part r api (suc fuel) a) disk s
          (disk', s') in
      (
        λ h.
            let (mid, (quiet, rest)) = step.0 h in
            let (files, same) = (validate_files_lem r a.modes_dir disk mid).0 quiet in
            let (same', tried) = (api_part_iff mid disk' s s').0 rest in
            (files, (same ∙ same', tried)),
        λ (files, (same, tried)). step.1 (
          disk,
          (
            (validate_files_lem r a.modes_dir disk disk).1 (files, refl),
            (api_part_iff disk disk' s s').1 (same, tried),
          ),
        ),
      )
