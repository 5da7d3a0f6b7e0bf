-- ===== src/Tests/Routes.antt =====
-- The routes: a request with its limits, a top-up, an upload and what is read back.
use text.Mathlib.TextLemmas.{cons≢nil}
use ai_generation_api.Prelude.{
  ◌≡◌, refl, String, none, some, [], arith, string_eq, nat_eq, option_eq, if◌then◌else◌, ◌==◌,
}
use ai_generation_api.Prelude.Int.{pos, ◌+ℤ◌}
use ai_generation_api.Errors.{other}
use ai_generation_api.Exec.{Result, ok, err}
use ai_generation_api.Value
use ai_generation_api.Value.{Fields, field, end, str, int}
use ai_generation_api.Models.{ApiKey, ApiKey_keyed, Task_keyed, KeyStatus_eq, KeyStatus-discrete}
use ai_generation_api.Models.Table
use ai_generation_api.Session.{open_session}
use ai_generation_api.Modes
use ai_generation_api.Pricing.{price_for, as_int}
use ai_generation_api.BillingRepo.{balance, has_entry}
use ai_generation_api.TaskRepo
use ai_generation_api.Billing
use ai_generation_api.TaskService.{create_task}
use ai_generation_api.ApiKeyRepo.{get_api_key}
use ai_generation_api.RateLimiter.{enforce, hit}
use ai_generation_api.RateLimiter.Counters.{admit, view, enforce-admit}
use ai_generation_api.Routes.{Request, client_ip, enforce_rate_limit}
use ai_generation_api.Routes.Generation.{Service, post_generate}
use ai_generation_api.Routes.Admission.{IsAdmitted, Within, post_generate-Within}
use ai_generation_api.Routes.Accounts.{Desk, TopupRequest, post_topup}
use ai_generation_api.Routes.Deposits.{Deposited, IsAuthorized, paid, post_topup-Deposited}
use ai_generation_api.Routes.Uploads.{UploadFile, upload_image, allowed_extension}
use ai_generation_api.Security.{require_internal_token}
use ai_generation_api.Storage.{Disk, Shelf, S3Client, get_storage, strip_slashes}
use ai_generation_api.ImageFetch.{load_bytes}
use ai_generation_api.ImageFetch.Reads.{load_bytes-absolute, IsUploaded, upload_image-IsUploaded}
use ai_generation_api.Tests.Samples.{settings, request as body, fresh_database}
use ai_generation_api.Tests.Service.{modes, repr, prices, start}
use ai_generation_api.Tests.Access.{redis, digits, hash_of, jwt}

abbrev from_proxy : Request
from_proxy = record {
  api_key = some "secret";
  forwarded_for = some " 10.0.0.1 , 10.0.0.2";
  authorization = "Bearer token";
  host = some "172.17.0.1";
}

client_ip_lem : client_ip from_proxy ≡ "10.0.0.1"
unfolding client_ip string_eq nat_eq
client_ip_lem = refl

-- At second 61, where the key has sent 4 requests in this minute.
abbrev busy : redis.State
busy j = (4, 100)

enforce-admit_example :
    let (r, s') = enforce redis digits settings (some "k1") none (some "10.0.0.1") 61 busy in
    let (r', counters) =
      admit settings
        (some "k1")
        none
        (some "10.0.0.1")
        (view redis digits settings (some "k1") none (some "10.0.0.1") 61 (omega arith) busy) in
    (r ≡ r')
    × (view redis digits settings (some "k1") none (some "10.0.0.1") 61 (omega arith) s' ≡ counters)
enforce-admit_example =
    enforce-admit redis digits settings (some "k1") none (some "10.0.0.1") 61 (omega arith) busy

abbrev service : Service
service = record {
  settings = settings;
  redis = redis;
  digits = digits;
  modes = modes;
  pricing = prices (pos 30);
  repr = repr;
  hash_api_key = hash_of;
  api_key_header = "X-API-Key";
}

accepted : (post_generate service from_proxy body 61 (busy, start)).0 ≡ ok "id"
unfolding post_generate get_api_key enforce_rate_limit enforce hit string_eq nat_eq client_ip
    Modes.get price_for as_int Value.get Table.get has_entry TaskRepo.get_by_request_id create_task
    option_eq KeyStatus-discrete Billing.reserve Table.update
accepted = refl

post_generate-Within_example :
    (raw : String) × (k : ApiKey) × (from_proxy.api_key ≡ some raw)
    × IsAdmitted hash_of raw start.session k
    × Within settings (some k.id) none (some (client_ip from_proxy)) (
        view redis digits settings
          (some k.id)
          none
          (some (client_ip from_proxy))
          61
          (omega arith)
          (post_generate service from_proxy body 61 (busy, start)).1.0)
post_generate-Within_example =
    post_generate-Within service from_proxy body 61 busy (omega arith) "id" start accepted

abbrev desk : Desk
desk = record {
  hash_api_key = hash_of;
  api_key_header = "X-API-Key";
  jwt = jwt;
  internal_secret = "key";
  fromisoformat = λ text. none;
  isoformat = λ t. "date";
  quoted = λ text. text;
}

abbrev fifty : TopupRequest
fifty = record { amount_credits = pos 50; note = some "June" }

post_topup-Deposited_example :
    let (r, s) = post_topup desk from_proxy "k1" fifty 15 (open_session fresh_database) in
    IsAuthorized desk from_proxy "k1" fifty 15 fresh_database r
    × Deposited "k1"
        (pos 50)
        fresh_database
        (paid desk from_proxy "k1" fifty 15 fresh_database r, s)
post_topup-Deposited_example = post_topup-Deposited desk from_proxy "k1" fifty 15 fresh_database

topped_up :
    (post_topup desk from_proxy "k1" fifty 15 (open_session fresh_database)).0
    ≡ ok (record { api_key_id = "k1"; balance_credits = pos 150 })
unfolding post_topup require_internal_token string_eq nat_eq Table.get Value.get balance
    Billing.topup Table.update ◌+ℤ◌
topped_up = refl

abbrev no_bucket : S3Client
no_bucket = record {
  put_object = λ object. err (other "no bucket");
  generate_presigned_url = λ bucket key. err (other "no bucket");
}

abbrev empty_shelf : Shelf
empty_shelf = record { disk = λ path. none; refuses = λ path. none; objects = [] }

abbrev photo : UploadFile
photo = record { content_type = some "image/png"; content = "png" }

abbrev url_path : String → Result String
url_path url =
    if url == "http://api/files/uploads/00.png" then ok "/files/uploads/00.png" else ok "/"

upload_image-IsUploaded_example :
    IsUploaded no_bucket settings url_path
      (λ url. err (other "offline"))
      photo
      "00"
      empty_shelf
      (upload_image no_bucket settings photo "00" empty_shelf)
unfolding get_storage string_eq nat_eq allowed_extension strip_slashes
upload_image-IsUploaded_example =
    upload_image-IsUploaded no_bucket settings url_path (λ url. err (other "offline")) photo "00"
      empty_shelf refl (λ ext h. let e : ext ≡ "png" = cc in rw e refl)

abbrev host_disk : Disk
host_disk path = if path == "/etc/passwd" then some "root:x:0:0" else none

-- A request names a file of the worker's host.
load_bytes-absolute_example :
    load_bytes
      (λ url. ok "/files//etc/passwd")
      (λ url. err (other "offline"))
      "storage"
      host_disk
      (some "http://api/files//etc/passwd")
    ≡ some "root:x:0:0"
unfolding string_eq nat_eq
load_bytes-absolute_example =
    load_bytes-absolute (λ url. ok "/files//etc/passwd") (λ url. err (other "offline")) "storage"
      "http://api/files//etc/passwd" "/etc/passwd" (λ h. cons≢nil h) refl host_disk "root:x:0:0"
      refl refl
