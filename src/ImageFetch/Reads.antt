-- ===== src/ImageFetch/Reads.antt =====
-- Which file a URL is read from.
use ai_generation_api.Prelude.{
  ◌≤◌, String, ◌<>◌, ◌≡◌, ◌≢◌, refl, true, Option, some, ◌==◌, string_eq, ==_ne, ==_self,
  Bool-cases, Option-cases, inl, inr, arith, ltb,
}
use text.Mathlib.TextLemmas.{append-eq-nil_iff, cons≢nil}
use ai_generation_api.Settings.{Settings}
use ai_generation_api.Exec.{Result, ok, err}
use ai_generation_api.Security.{strip_prefix}
use ai_generation_api.Security.RoundTrip.{strip_prefix-append}
use ai_generation_api.Storage.{
  Disk, Shelf, S3Client, local_storage, get_storage, local_url, join_path, is_absolute, save,
  write_file,
}
use ai_generation_api.ImageFetch.{after_mark, load_bytes}
use ai_generation_api.Routes.Uploads.{
  UploadFile, UploadResponse, upload_image, upload_key, allowed_extension, type_of, size_of,
  max_bytes,
}

after_mark-prefix :
    (mark text tail : String)
    → strip_prefix mark text ≡ some tail
    → after_mark mark text ≡ some tail
unfolding after_mark
after_mark-prefix mark String.[] tail h = h
after_mark-prefix mark (String.◌∷◌ c s) tail h = rw h

module _ (url_path : String → Result String) (http_get : String → Result String)
    (folder url key : String) (given : url ≢ "")
    (parsed : url_path url ≡ ok ("/files/" <> key)) where
  load_bytes-key :
      (d : Disk) (body : String)
      → d (join_path folder key) ≡ some body
      → load_bytes url_path http_get folder d (some url) ≡ some body
  unfolding load_bytes
  load_bytes-key d body h =
      let found : after_mark "/files/" ("/files/" <> key) ≡ some key =
        after_mark-prefix "/files/" ("/files/" <> key) key (strip_prefix-append "/files/" key) in
      rw (==_ne url "" given, parsed, found, h) refl

  -- A nonempty URL whose path is `/files/` and then a text that starts with a slash: where the
  -- host has a file at that absolute path, the loader returns its content, whatever the folder of
  -- the storage is.
  pub load_bytes-absolute :
      (d : Disk) (body : String)
      → is_absolute key ≡ true
      → d key ≡ some body
      → load_bytes url_path http_get folder d (some url) ≡ some body
  unfolding join_path
  load_bytes-absolute d body absolute h = load_bytes-key d body (rw absolute h)

-- A text with a nonempty part is not empty.
append-ne-nil : (s p t : String) → p ≢ "" → s <> (p <> t) ≢ ""
append-ne-nil s p t h e =
    let later : p <> t ≡ "" = ((append-eq-nil_iff {p = s} {q = p <> t}).0 e).1 in
    h (((append-eq-nil_iff {p = p} {q = t}).0 later).0)

module _ (client : S3Client) (c : Settings) (url_path http_get : String → Result String)
    (file : UploadFile) (hex : String) where
  abbrev pub read_back : Shelf → String → Option String
  read_back shelf url = load_bytes url_path http_get c.storage_local_dir shelf.disk (some url)

  -- What an upload leaves: nothing new, or a URL that the content is read back from.
  abbrev pub IsUploaded : Shelf → Result UploadResponse × Shelf → Type 0
  IsUploaded shelf (err e, shelf') = shelf' ≡ shelf
  IsUploaded shelf (ok reply, shelf') =
      (read_back shelf' reply.image_url ≡ some file.content)
      × (reply.size ≡ size_of file.content)
      × (reply.size ≤ max_bytes)

  saved-IsUploaded :
      (ext : String) (shelf : Shelf)
      → url_path (local_url c (upload_key hex ext)) ≡ ok ("/files/" <> upload_key hex ext)
      → let path = join_path c.storage_local_dir (upload_key hex ext) in
        read_back
          (record shelf { disk = write_file path file.content shelf.disk })
          (local_url c (upload_key hex ext))
        ≡ some file.content
  unfolding write_file
  saved-IsUploaded ext shelf parsed =
      load_bytes-key url_path http_get c.storage_local_dir (local_url c (upload_key hex ext))
        (upload_key hex ext) (append-ne-nil _ _ _ (λ e. cons≢nil e)) parsed _ file.content
        (rw (==_self (join_path c.storage_local_dir (upload_key hex ext))))

  -- With the local storage, and where the path of the URL that is replied, as `urlparse` gives
  -- it, is `/files/` and the key of the upload. If the upload raises, the disk is as before;
  -- otherwise loading the replied URL gives the content, and the replied size is the content's
  -- and at most 25 MB.
  pub upload_image-IsUploaded :
      (shelf : Shelf)
      → get_storage c ≡ local_storage
      → ((ext : String)
          → allowed_extension (type_of file) ≡ some ext
          → url_path (local_url c (upload_key hex ext)) ≡ ok ("/files/" <> upload_key hex ext))
      → IsUploaded shelf (upload_image client c file hex shelf)
  unfolding upload_image save
  upload_image-IsUploaded shelf local parsed =
      elim (Option-cases (allowed_extension (type_of file))) [
        | inl refused ↦ rw refused refl
        | inr (ext, allowed) ↦ elim (Bool-cases (ltb max_bytes (size_of file.content))) [
          | inl large ↦ rw (allowed, large) refl
          | inr fits ↦ elim (Bool-cases (file.content == "")) [
            | inl empty ↦ rw (allowed, fits, empty) refl
            | inr full ↦
                let path = join_path c.storage_local_dir (upload_key hex ext) in
                elim (Option-cases (shelf.refuses path)) [
                  | inl free ↦
                      rw (allowed, fits, full, local, free)
                        (saved-IsUploaded ext shelf (parsed ext allowed), refl, ground arith)
                  | inr (e, refused) ↦ rw (allowed, fits, full, local, refused) refl
                ]
          ]
        ]
      ]
