-- ===== src/Exec.antt =====
-- Methods of the services: they read and change the database, put questions to the environment, and
-- return an error. What was written before an error stays written.
pub mod Hoare
pub mod Keeps
pub mod Facts
pub mod Served
use mathlib.Core.Bool.{cond}
use goauth_server.Prelude.{ℕ, ◌+◌, String, Bool, true, false, Option, none, some, if◌then◌else◌}
use goauth_server.Model.{Db}
use goauth_server.Environment.{Environment}

-- The errors of the repository, the sentinel errors of the services, and `fmt.Errorf("...: %w")`.
pub data Error : Type 0 where
  no_rows unique_violation server_error : Error
  failure : String → Error
  client_not_found client_inactive provider_disabled invalid_redirect_uri : Error
  invalid_client_secret code_not_found code_expired code_used code_revoked : Error
  code_client_mismatch code_redirect_mismatch token_not_found : Error
  invalid_grant token_expired : Error
  -- with the LockedUntil of the result beside it
  account_locked : ℕ → Error
  invalid_credentials : Error
  force_password_change_satisfied user_not_found : Error
  -- user.ErrUserNotFound, client.ErrClientNotFound and client.ErrDuplicateClientName
  no_such_user no_such_client duplicate_client_name : Error
  -- the sentinel errors of the provider service and of the session service
  provider_not_found provider_client_mismatch duplicate_provider_name : Error
  no_such_code no_such_token : Error
  -- client.ValidationError and provider.ValidationError: the field and the message
  validation_error : String → String → Error
  wrap : String → Error → Error

-- errors.Is(err, pgx.ErrNoRows)
abbrev pub is_no_rows : Error → Bool
is_no_rows no_rows = true
is_no_rows (wrap m e) = is_no_rows e
is_no_rows _ = false

pub data Result (A : Type 0) : Type 0 where
  ok : A → Result A
  err : Error → Result A

-- `tick` counts the questions that were put to the environment.
pub record World : Type 0 where
  pub tick : ℕ
  pub db : Db

abbrev pub M : Type 0 → Type 0
M A = World → Result A × World

module _ {A B : Type 0} where
  abbrev pub continue : Result A × World → (A → M B) → Result B × World
  continue (ok a, w) f = f a w
  continue (err e, w) f = (err e, w)

  infixl 5 ◌>>=◌ ◌>>◌
  unfoldable pub ◌>>=◌ : M A → (A → M B) → M B
  ◌>>=◌ m f w = continue (m w) f

  abbrev pub ◌>>◌ : M A → M B → M B
  m >> n = m >>= λ _. n

module _ {A : Type 0} where
  unfoldable pub pure : A → M A
  pure a w = (ok a, w)

  unfoldable pub raise : Error → M A
  raise e w = (err e, w)

  -- `x, err := ...; if err != nil { return ... }` with the error that is returned
  abbrev pub on_error : (Error → Error) → Result A × World → Result A × World
  on_error f (ok a, w) = (ok a, w)
  on_error f (err e, w) = (err (f e), w)

  unfoldable pub map_error : (Error → Error) → M A → M A
  map_error f m w = on_error f (m w)

  -- `_ = ...`
  abbrev pub forget : Result A × World → Result (Unit {0}) × World
  forget (r, w) = (ok tt, w)

  unfoldable pub ignore : M A → M (Unit {0})
  ignore m w = forget (m w)

  -- `x, err := ...` with the error looked at
  unfoldable pub attempt : M A → M (Result A)
  attempt m w = let (r, w') = m w in (ok r, w')

  -- a value that the environment may deny
  unfoldable pub lift_option : Error → Option A → M A
  lift_option e none w = (err e, w)
  lift_option e (some a) w = (ok a, w)

unfoldable pub lift_result : {A : Type 0} → Result A → M A
lift_result r w = (r, w)

-- `:one`: no row is an error
abbrev pub one_row : {A : Type 0} → Option A → Result A
one_row none = err no_rows
one_row (some a) = ok a

-- `if !b { return err }`
unfoldable pub guard : Bool → Error → M (Unit {0})
guard true e w = (ok tt, w)
guard false e w = (err e, w)

unfoldable pub when : Bool → M (Unit {0}) → M (Unit {0})
when true m w = m w
when false m w = (ok tt, w)

-- `if errors.Is(err, pgx.ErrNoRows) { return s }; return fmt.Errorf("...: %w", err)`
abbrev pub not_found_as : Error → String → Error → Error
not_found_as s message e = if is_no_rows e then s else wrap message e

module _ (e : Environment) where
  -- the n-th answer of the environment to a question
  unfoldable pub ask : {A : Type 0} → (ℕ → A) → M A
  ask f w = (ok (f w.tick), record w { tick = w.tick + 1 })

  -- One statement: it fails, and changes nothing, or it runs at the server's `now()` and with a UUID
  -- at hand.
  unfoldable pub statement : {A : Type 0} → (ℕ → ℕ → Db → Result A × Db) → M A
  statement run w =
      cond (e.fails w.tick) (err server_error, record w { tick = w.tick + 1 })
        (let (r, d) = run (e.time w.tick) (e.uuid w.tick) w.db in
          (r, record w { tick = w.tick + 1; db = d }))
