-- ===== src/Routes/Uploads.antt =====
-- app/api/routes/uploads.py: an image from a partner goes into the storage.
use ai_generation_api.Prelude.{
  ℕ, suc, ◌*◌, String, ◌<>◌, Option, none, some, ltb, ◌==◌, string_eq, if◌then◌else◌,
}
use ai_generation_api.Errors.{raised, validation}
use ai_generation_api.Exec.{Result, ok, err, Exec, pure, raise, ◌>>=◌, ◌>>◌, raise_if}
use ai_generation_api.Settings.{Settings}
use ai_generation_api.Models.{ApiKey}
use ai_generation_api.Session.{Session}
use ai_generation_api.Storage.{Shelf, S3Client, save}

-- The file of the form: its type, if it says one, and its content.
pub record UploadFile : Type 0 where
  pub content_type : Option String
  pub content : String

pub record UploadResponse : Type 0 where
  pub image_url : String
  pub size : ℕ
  pub content_type : String

abbrev pub size_of : String → ℕ
size_of String.[] = 0
size_of (String.◌∷◌ c s) = suc (size_of s)

-- `_ALLOWED.get(content_type)`
unfoldable pub allowed_extension : String → Option String
allowed_extension ctype =
    if ctype == "image/jpeg"
    then some "jpg"
    else if ctype == "image/png"
    then some "png"
    else if ctype == "image/webp"
    then some "webp"
    else none

abbrev pub max_bytes : ℕ
max_bytes = 25 * 1024 * 1024

-- `file.content_type or ""`, and as the messages print it.
abbrev pub type_of : UploadFile → String
type_of file = elim file.content_type [ none ↦ "" | some t ↦ t ]

abbrev type_shown : UploadFile → String
type_shown file = elim file.content_type [ none ↦ "None" | some t ↦ t ]

abbrev pub upload_key : String → String → String
upload_key hex ext = "uploads/" <> (hex <> ("." <> ext))

module _ (client : S3Client) (c : Settings) where
  abbrev pub store : UploadFile → String → Option String → Exec Shelf UploadResponse
  store file hex none = raise (raised validation ("unsupported content type: " <> type_shown file))
  store file hex (some ext) = do
    raise_if (ltb max_bytes (size_of file.content)) (raised validation "file too large (max 25MB)")
    raise_if (file.content == "") (raised validation "empty file")
    url ← save client c (upload_key hex ext) file.content (type_of file)
    pure (record { image_url = url; size = size_of file.content; content_type = type_of file })

  -- What `upload_image` does for a caller with a key; `hex` is what `uuid4` draws.
  unfoldable pub upload_image : UploadFile → String → Exec Shelf UploadResponse
  unfolding allowed_extension
  upload_image file hex = store file hex (allowed_extension (type_of file))

  abbrev for_caller : Result ApiKey → UploadFile → String → Exec Shelf UploadResponse
  for_caller (err e) file hex = raise e
  for_caller (ok key) file hex = upload_image file hex

  -- The route, with the guard of the API key before it.
  unfoldable pub post_upload :
      Exec Session ApiKey → UploadFile → String → Exec (Session × Shelf) UploadResponse
  unfolding upload_image
  post_upload guard file hex (s, shelf) =
      let (key, s') = guard s in
      let (r, shelf') = for_caller key file hex shelf in (r, (s', shelf'))
