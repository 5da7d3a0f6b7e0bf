-- ===== src/Server.antt =====
-- app/main.py and app/api/routes/health.py: the process of the API, its start and its end, what its
-- metrics are labelled with, and the probes.
use ai_generation_api.Prelude.{
  ℕ, ◌+◌, String, Option, none, some, List, [], ◌∷◌, length, is_some, ◌==◌, string_eq,
  if◌then◌else◌,
}
use ai_generation_api.Prelude.Int.{pos}
use ai_generation_api.Exec.{Result, ok, err, Exec, modify, pure, ◌>>=◌, ◌>>◌}
use ai_generation_api.Value.{Fields, field, end, int, Value}
use ai_generation_api.Models.{SystemEvent}
use ai_generation_api.Session.{Database, with_session}
use ai_generation_api.Modes
use ai_generation_api.Modes.{ModeRegistry, ModeConfig, list_modes}
use ai_generation_api.Pricing
use ai_generation_api.Pricing.{PricingRegistry, PricingFile}
use ai_generation_api.Security.{strip_prefix}
use ai_generation_api.Routes.Catalog.{record_event}

pub record Process : Type 0 where
  pub modes : ModeRegistry
  pub pricing : PricingRegistry
  pub database : Database

abbrev pub life_event : String → Fields → SystemEvent
life_event event detail = record {
  level = "info";
  source = "api";
  event = event;
  message = none;
  detail = detail;
}

abbrev on_modes : {A : Type 0} → Exec ModeRegistry A → Exec Process A
on_modes m p = let (x, modes) = m p.modes in (x, record p { modes = modes })

abbrev on_pricing : {A : Type 0} → Exec PricingRegistry A → Exec Process A
on_pricing m p = let (x, pricing) = m p.pricing in (x, record p { pricing = pricing })

-- The event with the number of modes.
abbrev started : ℕ → Process → Process
started count p = record p {
  database = record_event (life_event "startup" (field "modes" (int (pos count)) end)) p.database;
}

-- `lifespan`, up to its `yield`, with what the files of modes and prices hold.
unfoldable pub startup :
    Option (Result Value) → Option (List (Option ModeConfig)) → PricingFile → Exec Process ℕ
unfolding with_session
startup models_file mode_files price_file = do
  count ← on_modes (Modes.reload models_file mode_files)
  on_pricing (Pricing.reload price_file)
  modify (started count)
  pure count

-- `lifespan`, after its `yield`.
unfoldable pub shutdown : Process → Process
unfolding with_session
shutdown p = record p { database = record_event (life_event "shutdown" end) p.database }

abbrev rough_path : String → String
rough_path url_path = if is_some (strip_prefix "/files/" url_path) then "/files/*" else "other"

-- The label `path` in `_metrics_mw`, for the path of the route, if one took the request.
unfoldable pub metric_path : Option String → String → String
unfolding strip_prefix
metric_path none url_path = rough_path url_path
metric_path (some path) url_path = if path == "" then rough_path url_path else path

-- `ready`: the number of modes.
unfoldable pub ready : ModeRegistry → ℕ
unfolding list_modes
ready registry = length (list_modes registry none)

abbrev pub queue_names : List String
queue_names = "generation" ∷ "generation_video" ∷ []

-- `sum(_broker.llen(q) for q in _QUEUES)`; the first error of Redis ends it.
unfoldable pub queue_total : (String → Result ℕ) → List String → Result ℕ
queue_total llen [] = ok 0
queue_total llen (q ∷ qs) = elim (llen q) [
  | err e ↦ err e
  | ok n ↦ elim (queue_total llen qs) [ err e ↦ err e | ok total ↦ ok (n + total) ]
]

-- The gauge `queue_size` after a scrape: it stays where Redis fails.
unfoldable pub probe : (String → Result ℕ) → ℕ → ℕ
unfolding queue_total
probe llen gauge = elim (queue_total llen queue_names) [ ok total ↦ total | err _ ↦ gauge ]
