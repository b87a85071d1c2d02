-- ===== src/Auth/Calls.antt =====
-- The operations of the auth service as calls, and a server that handles one call after another. A
-- call that fails leaves behind what it has written.
pub mod OneLive
pub mod Dead
pub mod SingleUse
pub mod Stable
pub mod CodeOnce
pub mod StaysRevoked
use goauth_server.Prelude.{String, List, [], ◌∷◌}
use goauth_server.Model.{Uuid}
use goauth_server.Environment.{Environment}
use goauth_server.Exec.{World, M, ignore}
use goauth_server.Exec.Keeps.{Keeps}
use goauth_server.Password.{Unicode}
use goauth_server.Auth.Service.{Service, store_direct_login_token}
use goauth_server.Auth.Authorization.{exchange_code_for_token}
use goauth_server.Auth.Rotation.{rotate_refresh_token}
use goauth_server.Auth.Revoke.{
  revoke_any_token, revoke_raw_token, revoke_all_user_access_tokens, revoke_user_refresh_tokens,
}
use goauth_server.Auth.Login.{verify_credentials}
use goauth_server.Auth.ChangePassword.{change_password}

pub data Call : Type 0 where
  exchange : (code : String) (client_id : Uuid) (client_secret redirect_uri : String) → Call
  rotate : (raw_token client_id client_secret : String) → Call
  revoke_any : (raw_token hint : String) → Call
  revoke_raw : (raw_token : String) → Call
  revoke_user_access : (user : Uuid) → Call
  revoke_user_refresh : (user : Uuid) (reason : String) → Call
  store_login : (token : String) (user : Uuid) → Call
  login : (email password source_ip : String) → Call
  change : (user : Uuid) (new_password : String) → Call

module _ (e : Environment) (s : Service) (u : Unicode) where
  pub handle : Call → M (Unit {0})
  handle (exchange code client_id client_secret redirect_uri) =
      ignore (exchange_code_for_token e s code client_id client_secret redirect_uri)
  handle (rotate raw_token client_id client_secret) =
      ignore (rotate_refresh_token e s raw_token client_id client_secret)
  handle (revoke_any raw_token hint) = ignore (revoke_any_token e s raw_token hint)
  handle (revoke_raw raw_token) = ignore (revoke_raw_token e raw_token)
  handle (revoke_user_access user) = ignore (revoke_all_user_access_tokens e user)
  handle (revoke_user_refresh user reason) = ignore (revoke_user_refresh_tokens e user reason)
  handle (store_login token user) = ignore (store_direct_login_token e s token user)
  handle (login email password source_ip) = ignore (verify_credentials e s email password source_ip)
  handle (change user new_password) = ignore (change_password e s u user new_password)

  pub serve : List Call → World → World
  serve [] w = w
  serve (c ∷ cs) w = serve cs (handle c w).1

  -- What every call keeps, the server keeps.
  pub serve_induction :
      {P : World → Type 0}
      → ((c : Call) → Keeps P (handle c))
      → (calls : List Call) (w : World) → P w
      → P (serve calls w)
  unfolding serve
  serve_induction step [] w p = p
  serve_induction step (c ∷ cs) w p = serve_induction step cs (handle c w).1 ((step c).at w p)
