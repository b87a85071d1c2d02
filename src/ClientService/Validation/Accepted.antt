-- ===== src/ClientService/Validation/Accepted.antt =====
-- What the validators of clients accept.
use goauth_server.Prelude.{
  All, ◌≡◌, refl, ap, ◌↔◌, ◌⊎◌, inl, inr, String, Bool, true, false, not, ◌&&◌, Option, some, none,
  List, [], ◌∷◌, str_eq, str_append, eq_iff, if◌then◌else◌,
}
use goauth_server.Environment.{Environment, Url}
use goauth_server.Exec.{Error, validation_error}
use goauth_server.ClientService.Validation.{
  CreateClientDto, allowed_grant_type, is_loopback, or_else, first_error, validate_parsed,
  validate_redirect_uri, validate_grant_type, require_some, validate_fields, validate_create_dto,
}

-- The list is not empty.
pub data Some : List String → Type 0 where
  some_text : {s : String} {ss : List String} → Some (s ∷ ss)

some-none : {r : Error} → some r ≡ none → ⊥
some-none h = cc

-- Two tests in a row.
or_else_iff :
    {P Q : Type 0} (a b : Option Error)
    → (a ≡ none) ↔ P
    → (b ≡ none) ↔ Q
    → (or_else a b ≡ none) ↔ (P × Q)
or_else_iff none b p q = (λ h. (p.0 refl, q.0 h), λ h. q.1 h.1)
or_else_iff (some r) b p q = (λ h. absurd (some-none h), λ h. absurd (some-none (p.1 h.0)))

require_some_iff : (ss : List String) (r : Error) → (require_some ss r ≡ none) ↔ Some ss
require_some_iff [] r = (λ h. absurd (some-none h), λ h. elim h [ ])
require_some_iff (s ∷ ss) r = (λ h. some_text, λ h. refl)

-- A test that fails with an error where it is true.
refuse_iff : (r : Error) (b : Bool) → ((if b then some r else none) ≡ none) ↔ (b ≡ false)
refuse_iff r true = (λ h. absurd (some-none h), λ h. cc)
refuse_iff r false = (λ h. refl, λ h. refl)

accept_iff : (r : Error) (b : Bool) → ((if b then none else some r) ≡ none) ↔ (b ≡ true)
accept_iff r true = (λ h. refl, λ h. refl)
accept_iff r false = (λ h. absurd (some-none h), λ h. cc)

-- A list passes a loop that returns the first error where each of its members passes.
first_error_iff :
    {P : String → Type 0} (f : String → Option Error)
    → ((s : String) → (f s ≡ none) ↔ P s)
    → (ss : List String) → (first_error f ss ≡ none) ↔ All P ss
unfolding first_error
first_error_iff f h [] = (λ x. tt, λ x. refl)
first_error_iff f h (s ∷ ss) = or_else_iff (f s) _ (h s) (first_error_iff f h ss)

not_http : (scheme : String) → str_eq scheme "https" ≡ true → str_eq scheme "http" ≡ false
not_http scheme h = ap (λ s. str_eq s "http") ((eq_iff scheme "https").0 h)

loopback_allowed :
    (production : Bool) (r : Error) → (if production && true && false then some r else none) ≡ none
loopback_allowed true r = refl
loopback_allowed false r = refl

https_allowed :
    (production loopback : Bool) (r : Error)
    → (if production && false && not loopback then some r else none) ≡ none
https_allowed true loopback r = refl
https_allowed false loopback r = refl

module _ (e : Environment) (env : String) where
  -- The URI is not blank, is parsed with a host, and is https, or http where that is allowed: not in
  -- production, or on the machine itself.
  pub record Acceptable (raw : String) : Type 0 where
    pub given : str_eq (e.trim_space raw) "" ≡ false
    pub url : Url
    pub parsed : e.parse_request_uri raw ≡ some url
    pub named : str_eq url.host "" ≡ false
    pub secure :
        (str_eq url.scheme "https" ≡ true)
        ⊎ ((str_eq url.scheme "http" ≡ true)
            × ((str_eq env "production" ≡ false) ⊎ (is_loopback url.hostname ≡ true)))

  validate_parsed-accepts :
      (raw : String) (u : Url)
      → validate_parsed e env "redirect_uris" raw (some u) ≡ none
      → str_eq u.host "" ≡ false
        × ((str_eq u.scheme "https" ≡ true)
            ⊎ ((str_eq u.scheme "http" ≡ true)
                × ((str_eq env "production" ≡ false) ⊎ (is_loopback u.hostname ≡ true))))
  validate_parsed-accepts raw u h =
      go (str_eq u.host "") (str_eq u.scheme "http") (str_eq u.scheme "https")
        (str_eq env "production") (is_loopback u.hostname) h
    where
      go :
          (empty http https production loopback : Bool)
          → (if empty
              then some (
                  validation_error "redirect_uris"
                    (str_append "invalid redirect URI: " (e.quote raw)))
              else if not http && not https
              then some (
                  validation_error "redirect_uris"
                    (str_append "redirect URI must use http or https scheme: " (e.quote raw)))
              else if production && http && not loopback
              then some (
                  validation_error "redirect_uris"
                    (str_append "redirect URI must use HTTPS in production: " (e.quote raw)))
              else none)
            ≡ none
          → (empty ≡ false)
            × ((https ≡ true) ⊎ ((http ≡ true) × ((production ≡ false) ⊎ (loopback ≡ true))))
      go true http https production loopback h = absurd (some-none h)
      go false http true production loopback h = (refl, inl refl)
      go false false false production loopback h = absurd (some-none h)
      go false true false false loopback h = (refl, inr (refl, inl refl))
      go false true false true true h = (refl, inr (refl, inr refl))
      go false true false true false h = absurd (some-none h)

  pub validate_redirect_uri_iff :
      (raw : String) → (validate_redirect_uri e env "redirect_uris" raw ≡ none) ↔ Acceptable raw
  unfolding validate_redirect_uri
  validate_redirect_uri_iff raw =
      (accepts (str_eq (e.trim_space raw) "") refl (e.parse_request_uri raw) refl, accepted)
    where
      accepts :
          (blank : Bool)
          → str_eq (e.trim_space raw) "" ≡ blank
          → (o : Option Url) → e.parse_request_uri raw ≡ o
          → (if blank
              then some (validation_error "redirect_uris" "redirect URI must not be empty")
              else validate_parsed e env "redirect_uris" raw o)
            ≡ none
          → Acceptable raw
      accepts true b o it h = absurd (some-none h)
      accepts false b none it h = absurd (some-none h)
      accepts false b (some u) it h = record {
        given = b;
        url = u;
        parsed = it;
        named = (validate_parsed-accepts raw u h).0;
        secure = (validate_parsed-accepts raw u h).1;
      }

      accepted : Acceptable raw → validate_redirect_uri e env "redirect_uris" raw ≡ none
      accepted a = elim a.secure [
        | inl https ↦
            rw (a.given, a.parsed, a.named, https, not_http a.url.scheme https)
              (https_allowed _ _ _)
        | inr (http, inl elsewhere) ↦ rw (a.given, a.parsed, a.named, http, elsewhere) refl
        | inr (http, inr loopback) ↦
            rw (a.given, a.parsed, a.named, http, loopback) (loopback_allowed _ _)
      ]

  validate_grant_type_iff :
      (g : String) → (validate_grant_type e env g ≡ none) ↔ (allowed_grant_type g ≡ true)
  validate_grant_type_iff g = accept_iff _ (allowed_grant_type g)

  -- A name that is not blank, at least one redirect URI and each of them acceptable, at least one
  -- grant type and each of them supported.
  pub record ValidFields (name : String) (uris grants : List String) : Type 0 where
    pub named : str_eq (e.trim_space name) "" ≡ false
    pub some_uri : Some uris
    pub acceptable : All Acceptable uris
    pub some_grant : Some grants
    pub supported : All (λ g. allowed_grant_type g ≡ true) grants

  validate_fields_iff :
      (name : String) (uris grants : List String)
      → (validate_fields e env name uris grants ≡ none) ↔ ValidFields name uris grants
  unfolding validate_fields
  validate_fields_iff name uris grants = (
    λ h. fields (all.0 h),
    λ v. all.1 (v.named, (v.some_uri, (v.acceptable, (v.some_grant, v.supported)))),
  )
    where
      fields :
          (str_eq (e.trim_space name) "" ≡ false)
            × (Some uris
                × (All Acceptable uris
                    × (Some grants × All (λ g. allowed_grant_type g ≡ true) grants)))
          → ValidFields name uris grants
      fields (a, (b, (c, (d, x)))) = record {
        named = a;
        some_uri = b;
        acceptable = c;
        some_grant = d;
        supported = x;
      }

      all : (validate_fields e env name uris grants ≡ none) ↔ (
          (str_eq (e.trim_space name) "" ≡ false)
          × (Some uris
              × (All Acceptable uris
                  × (Some grants × All (λ g. allowed_grant_type g ≡ true) grants))))
      all = or_else_iff _ _ (refuse_iff _ _) (
          or_else_iff _ _ (require_some_iff uris _) (
            or_else_iff _ _ (first_error_iff _ validate_redirect_uri_iff uris) (
              or_else_iff _ _ (require_some_iff grants _)
                (first_error_iff _ validate_grant_type_iff grants))))

  -- A client is accepted for creation exactly where its name is not blank, it has a redirect URI and
  -- a grant type, each grant type is supported, and each redirect URI is not blank, parses with a
  -- host, and is https, or is http outside production or on the machine itself.
  pub validate_create_dto_iff :
      (dto : CreateClientDto)
      → (validate_create_dto e env dto ≡ none)
        ↔ ValidFields dto.name dto.redirect_uris dto.grant_types
  unfolding validate_create_dto
  validate_create_dto_iff dto = validate_fields_iff dto.name dto.redirect_uris dto.grant_types
