-- ===== src/Model.antt =====
-- internal/repository/models.go: the rows of the tables, and the database that holds them.
-- A UUID is the number of its 128 bits, so that `uuid.Nil` is 0; a time is a number of nanoseconds.
use goauth_server.Prelude.{ℕ, String, Bool, Option, List}

abbrev pub Uuid : Type 0
Uuid = ℕ

abbrev pub Time : Type 0
Time = ℕ

pub record AccessToken : Type 0 where
  pub id : Uuid
  pub token_hash : String
  pub client_id : Option Uuid
  pub user_id : Uuid
  pub scope : Option String
  pub expires_at : Time
  pub is_revoked : Option Bool
  pub created_at : Time

pub record AuthorizationCode : Type 0 where
  pub id : Uuid
  pub code : String
  pub client_id : Uuid
  pub user_id : Uuid
  pub provider_id : Uuid
  pub redirect_uri : String
  pub scope : Option String
  pub state : Option String
  pub code_challenge : Option String
  pub code_challenge_method : Option String
  pub expires_at : Time
  pub used_at : Option Time
  pub is_revoked : Option Bool
  pub created_at : Time

pub record Client : Type 0 where
  pub id : Uuid
  pub name : String
  pub description : Option String
  pub client_secret_hash : String
  pub redirect_uris : List String
  pub grant_types : List String
  pub is_active : Option Bool
  pub created_by : Uuid
  pub created_at : Time
  pub updated_at : Time
  pub is_confidential : Bool
  pub allow_refresh_tokens : Bool

pub record RefreshToken : Type 0 where
  pub id : Uuid
  pub token_family_id : Uuid
  pub token_hash : String
  pub client_id : Uuid
  pub user_id : Uuid
  pub access_token_id : Uuid
  pub previous_token_id : Option Uuid
  pub scope : String
  pub expires_at : Time
  pub is_revoked : Bool
  pub revoked_at : Option Time
  pub revoke_reason : Option String
  pub used_at : Option Time
  pub created_at : Time

-- `models.OAuthProviderData` is left out: every query of the program writes the empty value there.
pub record User : Type 0 where
  pub id : Uuid
  pub email : String
  pub email_verified : Bool
  pub first_name : Option String
  pub last_name : Option String
  pub is_active : Bool
  pub locale : String
  pub provider : Option String
  pub provider_id : Option String
  pub last_login_at : Time
  pub created_at : Time
  pub updated_at : Time
  pub is_admin : Option Bool
  pub password_hash : Option String
  pub force_password_change : Bool
  pub failed_login_attempts : ℕ
  pub last_failed_login_at : Option Time
  pub locked_until : Option Time

-- The metadata is the map before it is serialised; the keys and values that occur are texts.
pub record AuditLog : Type 0 where
  pub id : Uuid
  pub event_type : String
  pub user_id : Uuid
  pub client_id : Uuid
  pub actor_id : Uuid
  pub ip_address : Option String
  pub metadata : List (String × String)
  pub created_at : Time

pub record OauthProvider : Type 0 where
  pub id : Uuid
  pub client_id : Uuid
  pub name : String
  pub display_name : String
  pub provider_client_id : String
  pub provider_client_secret : String
  pub auth_url : String
  pub token_url : String
  pub user_info_url : String
  pub scopes : List String
  pub is_enabled : Option Bool
  pub created_at : Time
  pub updated_at : Time

-- The tables that the queries below read and write.
pub record Db : Type 0 where
  pub clients : List Client
  pub users : List User
  pub providers : List OauthProvider
  pub codes : List AuthorizationCode
  pub access_tokens : List AccessToken
  pub refresh_tokens : List RefreshToken
  pub audit_log : List AuditLog

abbrev pub nil_uuid : Uuid
nil_uuid = 0
