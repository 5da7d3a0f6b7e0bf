-- ===== src/Storage.antt =====
-- app/storage/: where results and uploads are kept. A disk is a map from paths to contents: paths are
-- texts, so that two that name one file are two, and folders and access rights are left out. What
-- boto3's client does is a parameter. The bytes of a file are a text.
use Prim.Native.Char.{code}
use ai_generation_api.Prelude.{
  String, ◌<>◌, Bool, false, ◌&&◌, ◌||◌, Option, none, some, List, [], ◌∷◌, ◌++◌, ◌==◌, nat_eq,
  string_eq, if◌then◌else◌,
}
use ai_generation_api.Settings.{Settings}
use ai_generation_api.Errors.{Error}
use ai_generation_api.Exec.{Result, ok, err, Exec}

abbrev pub Disk : Type 0
Disk = String → Option String

unfoldable pub write_file : String → String → Disk → Disk
write_file path body d = λ other. if path == other then some body else d other

abbrev pub is_absolute : String → Bool
is_absolute String.[] = false
is_absolute (String.◌∷◌ c s) = code c == b'/'

-- `Path(folder) / key`, for a folder that is neither `.` nor `/`.
unfoldable pub join_path : String → String → String
join_path folder key =
    if is_absolute key then key else if key == "" then folder else folder <> ("/" <> key)

-- `text.rstrip("/")`
unfoldable pub strip_slashes : String → String
strip_slashes String.[] = ""
strip_slashes (String.◌∷◌ c s) =
    let rest = strip_slashes s in if code c == b'/' && rest == "" then "" else String.◌∷◌ c rest

pub record StoredObject : Type 0 where
  pub bucket : String
  pub key : String
  pub body : String
  pub content_type : String

-- The disk, the paths at which it refuses a write with an `OSError`, and what was put into buckets.
pub record Shelf : Type 0 where
  pub disk : Disk
  pub refuses : String → Option Error
  pub objects : List StoredObject

-- What boto3's client answers.
pub record S3Client : Type 0 where
  pub put_object : StoredObject → Result (Unit {0})
  pub generate_presigned_url : String → String → Result String

pub data Storage : Type 0 where
  local_storage s3_storage : Storage

-- `get_storage`
unfoldable pub get_storage : Settings → Storage
get_storage c =
    if c.storage_provider == "s3" || c.storage_provider == "r2" || c.storage_provider == "minio"
    then s3_storage
    else local_storage

abbrev pub local_url : Settings → String → String
local_url c key = strip_slashes c.public_base_url <> ("/files/" <> key)

abbrev pub store_file : String → String → String → Option Error → Exec Shelf String
store_file path body url none s = (ok url, record s { disk = write_file path body s.disk })
store_file path body url (some e) s = (err e, s)

-- `LocalStorage.save`; a write that is refused leaves the disk as it was.
unfoldable pub save_local : Settings → String → String → Exec Shelf String
unfolding write_file
save_local c key body s =
    let path = join_path c.storage_local_dir key in
    store_file path body (local_url c key) (s.refuses path) s

module _ (client : S3Client) where
  abbrev s3_url : Settings → String → Result String
  s3_url c key =
      if c.s3_public_url == ""
      then client.generate_presigned_url c.s3_bucket key
      else ok (strip_slashes c.s3_public_url <> ("/" <> key))

  abbrev put : Settings → StoredObject → Result (Unit {0}) → Exec Shelf String
  put c object (err e) s = (err e, s)
  put c object (ok _) s = (s3_url c object.key, record s { objects = s.objects ++ object ∷ [] })

  -- `S3Storage.save`
  unfoldable pub save_s3 : Settings → String → String → String → Exec Shelf String
  unfolding strip_slashes
  save_s3 c key body ctype =
      let object : StoredObject = record {
        bucket = c.s3_bucket;
        key = key;
        body = body;
        content_type = ctype;
      } in
      put c object (client.put_object object)

  abbrev pub save_in : Storage → Settings → String → String → String → Exec Shelf String
  save_in local_storage c key body ctype = save_local c key body
  save_in s3_storage c key body ctype = save_s3 c key body ctype

  -- `get_storage().save(…)`
  unfoldable pub save : Settings → String → String → String → Exec Shelf String
  unfolding save_local save_s3
  save c key body ctype = save_in (get_storage c) c key body ctype
