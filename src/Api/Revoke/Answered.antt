-- ===== src/Api/Revoke/Answered.antt =====
-- The answers of the revocation endpoint.
use goauth_server.Prelude.{◌≡◌}
use goauth_server.Environment.{Environment}
use goauth_server.Exec.{ok, World, M}
use goauth_server.Auth.Service.{Service}

-- The method returns a result, and never an error.
record Returns {A : Type 0} (m : M A) (w : World) : Type 0 where
  value : A
  world : World
  returned : m w ≡ (ok value, world)
