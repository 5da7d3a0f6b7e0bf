-- ===== src/Tests/Providers.antt =====
-- The providers: a workflow that is filled in, and the reports of both.
use ai_generation_api.Prelude.{
  ℕ, zero, suc, ◌<>◌, ◌≡◌, refl, String, none, some, List, [], ◌∷◌, ◌++◌, codes, true, arith,
  string_eq, nat_eq, inr, ◌+◌,
}
use ai_generation_api.Prelude.Int.{pos}
use ai_generation_api.Exec.{ok}
use ai_generation_api.Value
use ai_generation_api.Value.{Value, Fields, field, end, str, int}
use ai_generation_api.Engine.{GenerationRequest}
use ai_generation_api.Engine.Contract.{IsSteady}
use ai_generation_api.Json.Reader.{read_string}
use ai_generation_api.Comfyui.{absent, entry}
use ai_generation_api.Comfyui.Workflow.{Wide, neither, is_key, placeholder, sub, repl}
use ai_generation_api.Comfyui.Substitute.{
  Segment, literal, hole, template, meaning, read_string-substituted,
}
use ai_generation_api.Comfyui.Generate.{Client, Setup, generate, comfyui_provider}
use ai_generation_api.Comfyui.Steady.{comfyui_provider-IsSteady}
use ai_generation_api.Mock.{Pil, mock_provider, generate_mock, then_run}
use ai_generation_api.Mock.Progress.{mock_provider-IsSteady}

abbrev ascii : ℕ → Wide
ascii c = neither

abbrev repr : Value → String
repr v = "?"

abbrev sample_context : Fields
sample_context = field "prompt" (str "a \"b\"") end

-- The text `x{{prompt}}` of a template, in front of `", 1`.
abbrev segments : List Segment
segments = literal b'x' ∷ hole (codes "prompt") ∷ []

read_string-substituted_example :
    read_string (sub ascii (repl repr sample_context) 0 (template segments ++ 34 ∷ codes ", 1"))
    ≡ some (
      meaning ascii repr sample_context segments,
      sub ascii (repl repr sample_context) 0 (codes ", 1"),
    )
unfolding is_key nat_eq
read_string-substituted_example =
    read_string-substituted ascii repr sample_context segments (codes ", 1") (
      (
        omega arith,
        omega arith,
        λ h. omega (arith, h),
        λ h. omega (arith, h),
        λ h. omega (arith, h),
      ),
      (((refl, (refl, (refl, (refl, (refl, (refl, tt)))))), omega arith), tt),
    )

meaning_text : meaning ascii repr sample_context segments ≡ codes "xa \"b\""
unfolding nat_eq
meaning_text = refl

-- A server that has the picture at the second poll.
abbrev client : Client
client = record {
  upload = λ name body. ok none;
  submit = λ workflow. ok (some "p1");
  history = λ id n. elim n [
    | zero ↦ absent
    | suc _ ↦
        entry
          (record {
            images = record { filename = some "a.png"; subfolder = none; file_type = none } ∷ [];
            gifs = [];
          }
            ∷ [])
          []
  ];
  view = λ name folder kind. ok (name <> kind);
  stats = ok 200;
}

abbrev setup : Setup
setup = record {
  timeout = 3000;
  interval = 1000;
  client = client;
  load_bytes = λ url. some "png";
  uuid_hex = λ n. "00";
  digits = λ n. "0";
  lower = λ s. s;
  wide = ascii;
  repr = repr;
  files = record {
    path = λ name. name <> ".json";
    read_text = λ name. some (ok (template segments));
    loads = λ text. inr (str "workflow");
  };
}

abbrev portrait : GenerationRequest
portrait = record {
  task_id = "t1";
  task_type = "photo";
  mode_id = "portrait";
  prompt = "a portrait";
  negative_prompt = "";
  image_url = some "http://img/1.png";
  model = end;
  workflow = some "flux";
  params = end;
  preserve_face = true;
  reference_strength = none;
  reference_urls = "http://img/2.png" ∷ [];
  driving_url = none;
  mask_url = none;
}

comfyui_portrait : generate setup 4 portrait 0 ≡ (
  pos 10 ∷ pos 11 ∷ pos 100 ∷ [],
  ok (record { content = "a.pngoutput"; ext = "png"; content_type = "image/png"; model = none }),
)
unfolding generate string_eq nat_eq placeholder is_key Value.get
comfyui_portrait = refl

comfyui_provider-IsSteady_example : IsSteady (comfyui_provider setup 4 (λ run. run))
comfyui_provider-IsSteady_example = comfyui_provider-IsSteady setup 4 (λ run. run)

-- Pictures as numbers.
abbrev pil : Pil
pil = record {
  Image = ℕ;
  open_rgb = λ body. some 1;
  new_rgb = λ w h color. ok 2;
  size = λ img. (80, 60);
  thumbnail = λ w h img. ok img;
  resize = λ w h img. ok img;
  crop = λ w h img. img;
  rectangle = λ x y x' y' color img. img + 1;
  line = λ x y x' y' color img. img;
  multiline_text = λ x y text color img. img + 1;
  save_png = λ img. ok "png";
  save_gif = λ imgs ms. ok "gif";
}

abbrev wrap : ℕ → String → List String
wrap width text = text ∷ []

abbrev digest : String → ℕ → ℕ
digest text n = n

abbrev clip : GenerationRequest
clip = record portrait { task_type = "video"; params = field "num_frames" (int (pos 3)) end }

mock_clip : generate_mock pil digest wrap (λ url. some "png") (λ side i n. side) clip ≡ (
  pos 33 ∷ pos 66 ∷ pos 100 ∷ [],
  ok (record { content = "gif"; ext = "gif"; content_type = "image/gif"; model = some "mock" }),
)
unfolding generate_mock then_run string_eq Value.get
mock_clip = refl

mock_portrait :
    (generate_mock pil digest wrap (λ url. none) (λ side i n. side) portrait).0
    ≡ pos 20 ∷ pos 50 ∷ pos 80 ∷ pos 100 ∷ []
unfolding generate_mock then_run string_eq Value.get
mock_portrait = refl

mock_provider-IsSteady_example :
    IsSteady (mock_provider pil digest wrap (λ url. some "png") (λ side i n. side))
mock_provider-IsSteady_example =
    mock_provider-IsSteady pil digest wrap (λ url. some "png") (λ side i n. side)
