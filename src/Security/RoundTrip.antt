-- ===== src/Security/RoundTrip.antt =====
-- What is signed is accepted, and which tokens the guard of the admin routes accepts.
use Prim.Native.String.append
use ai_generation_api.Prelude.{
  ◌∙◌, sym, ◌⊎◌, none, false, Option-cases, ℕ, String, ◌<>◌, ◌≡◌, ◌↔◌, refl, ap, inl, inr, true,
  Option, some, ◌==◌, ==_self, string_eq, Bool-cases, arith,
}
use ai_generation_api.Exec.{ok}
use ai_generation_api.Value
use ai_generation_api.Value.{Value, Fields, null, bool, int, float, str, list, dict}
use ai_generation_api.Security.{
  sign_payload, verify_signature, Jwt, strip_prefix, is_internal, verify_internal_token, scoped,
  or_invalid, require_internal_token,
}

-- For a body and the time stamp that `sign_payload` gives for it, exactly the signature that it
-- gives is verified.
pub verify_signature-sign_payload :
    (hmac : String → String → String) (digits : ℕ → String) (secret body signature : String)
    (timestamp : Option ℕ) (now : ℕ)
    → let (ts, mac) = sign_payload hmac digits secret body timestamp now in
      (verify_signature hmac digits secret body ts signature ≡ true) ↔ (signature ≡ mac)
unfolding sign_payload verify_signature
verify_signature-sign_payload hmac digits secret body signature timestamp now = (
  λ h. elim (Bool-cases (hmac secret (ts <> ("." <> body)) == signature)) [
    | inl e ↦ ground arith
    | inr e ↦ absurd (ground arith)
  ],
  λ h. rw h (==_self (hmac secret (ts <> ("." <> body)))),
)
  where
    ts : String
    ts = (sign_payload hmac digits secret body timestamp now).0

pub strip_prefix-append : (p text : String) → strip_prefix p (p <> text) ≡ some text
unfolding strip_prefix
strip_prefix-append String.[] text = ap some (λ i. append.nil text i)
strip_prefix-append (String.◌∷◌ c p) text =
    let e : (String.◌∷◌ c p) <> text ≡ String.◌∷◌ c (p <> text) = λ i. append.cons c p text i in
    rw (e, ==_self (String.◌∷◌ c String.[])) (strip_prefix-append p text)

append-strip_prefix : (p text rest : String) → strip_prefix p text ≡ some rest → text ≡ p <> rest
unfolding strip_prefix
append-strip_prefix String.[] text rest h =
    let same : text ≡ rest = cc in same ∙ sym (λ i. append.nil rest i)
append-strip_prefix (String.◌∷◌ c p) String.[] rest h = cc
append-strip_prefix (String.◌∷◌ c p) (String.◌∷◌ d text) rest h =
    elim (Bool-cases ((String.◌∷◌ c String.[]) == (String.◌∷◌ d String.[]))) [
      | inl e ↦
          let one : String.◌∷◌ c String.[] ≡ String.◌∷◌ d String.[] = ground arith in
          let first : c ≡ d = cc in
          let tail : text ≡ p <> rest = append-strip_prefix p text rest (rw e at h) in
          let whole : (String.◌∷◌ c p) <> rest ≡ String.◌∷◌ c (p <> rest) =
            λ i. append.cons c p rest i in
          rw (whole, first, tail) refl
      | inr e ↦ let bad = rw e at h in cc
    ]

module _ (jwt : Jwt) (secret : String) where
  is_internal_iff : (o : Option Value) → (is_internal o ≡ true) ↔ (o ≡ some (str "internal"))
  is_internal_iff none = (λ h. cc, λ h. cc)
  is_internal_iff (some (str s)) = (λ h. ground arith, λ h. ground arith)
  is_internal_iff (some null) = (λ h. cc, λ h. cc)
  is_internal_iff (some (bool b)) = (λ h. cc, λ h. cc)
  is_internal_iff (some (int z)) = (λ h. cc, λ h. cc)
  is_internal_iff (some (float x)) = (λ h. cc, λ h. cc)
  is_internal_iff (some (list vs)) = (λ h. cc, λ h. cc)
  is_internal_iff (some (dict d)) = (λ h. cc, λ h. cc)

  -- What the guard makes of a decoded token.
  scoped_iff :
      (r : String ⊎ Fields) (claims : Fields)
      → (or_invalid jwt secret (scoped jwt secret r) ≡ ok claims)
        ↔ ((r ≡ inr claims) × (Value.get claims "scope" ≡ some (str "internal")))
  scoped_iff (inl e) claims = (λ h. cc, λ h. cc)
  scoped_iff (inr found) claims = elim (Bool-cases (is_internal (Value.get found "scope"))) [
    | inl internal ↦
        let scope = (is_internal_iff (Value.get found "scope")).0 internal in
        rw internal (
          λ h. let same : found ≡ claims = cc in (ap inr same, rw (← same) scope),
          λ h. let same : found ≡ claims = cc in ap ok same,
        )
    | inr outside ↦ rw outside (
      λ h. cc,
      λ h.
          let same : found ≡ claims = cc in
          let bad = (is_internal_iff (Value.get found "scope")).1 (rw same h.1) in
          let clash : true ≡ false = sym bad ∙ outside in cc,
    )
  ]

  -- Whatever PyJWT does, the guard accepts a header with some claims exactly if the header is
  -- `Bearer ` and a token that PyJWT decodes to these claims with the secret at that time, and
  -- their scope is the text `internal`.
  pub require_internal_token-ok :
      (header : String) (now : ℕ) (claims : Fields)
      → (require_internal_token jwt secret header now ≡ ok claims) ↔ (
          (token : String) × ((header ≡ "Bearer " <> token)
            × ((jwt.decode token secret now ≡ inr claims)
                × (Value.get claims "scope" ≡ some (str "internal")))))
  unfolding require_internal_token verify_internal_token
  require_internal_token-ok header now claims =
      elim (Option-cases (strip_prefix "Bearer " header)) [
        | inl missing ↦ rw missing (
          λ h. cc,
          λ (token, (e, rest)).
              let found = strip_prefix-append "Bearer " token in
              let bad : none ≡ some token = sym missing ∙ rw e found in cc,
        )
        | inr (token, found) ↦
            let scope = scoped_iff (jwt.decode token secret now) claims in
            let header_is = append-strip_prefix "Bearer " header token found in
            rw found (
              λ h. (token, (header_is, scope.0 h)),
              λ (token', (e, rest)).
                  let found' = strip_prefix-append "Bearer " token' in
                  let both : some token ≡ some token' = sym found ∙ rw e found' in
                  let same : token ≡ token' = cc in scope.1 (rw same rest),
            )
      ]
