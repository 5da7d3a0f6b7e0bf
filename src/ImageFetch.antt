-- ===== src/ImageFetch.antt =====
-- app/services/image_fetch.py: the bytes of an image by its URL. `urlparse(url).path` and `httpx.get`,
-- with the check of its status, are parameters; whatever they raise is caught.
pub mod Reads
use ai_generation_api.Prelude.{String, ◌<>◌, Option, none, some, ◌==◌, string_eq, if◌then◌else◌}
use ai_generation_api.Exec.{Result, ok, err}
use ai_generation_api.Security.{strip_prefix}
use ai_generation_api.Storage.{Disk, join_path}

abbrev pub or_later : Option String → Option String → Option String
or_later none rest = rest
or_later (some tail) rest = some tail

-- `path.split(mark, 1)[1]`, where the mark is in the path.
unfoldable pub after_mark : String → String → Option String
after_mark mark String.[] = strip_prefix mark ""
after_mark mark (String.◌∷◌ c s) =
    let rest = after_mark mark s in or_later (strip_prefix mark (String.◌∷◌ c s)) rest

module _ (url_path : String → Result String) (http_get : String → Result String)
    (folder : String) where
  abbrev pub http_body : Result String → Option String
  http_body (ok body) = some body
  http_body (err e) = none

  abbrev pub from_disk : Option String → String → Option String
  from_disk none url = http_body (http_get url)
  from_disk (some body) url = some body

  abbrev pub by_key : Disk → Option String → String → Option String
  by_key d none url = http_body (http_get url)
  by_key d (some key) url = from_disk (d (join_path folder key)) url

  abbrev pub by_path : Disk → Result String → String → Option String
  by_path d (err e) url = none
  by_path d (ok path) url = by_key d (after_mark "/files/" path) url

  -- `load_bytes`
  unfoldable pub load_bytes : Disk → Option String → Option String
  unfolding after_mark
  load_bytes d none = none
  load_bytes d (some url) = if url == "" then none else by_path d (url_path url) url
