-- ===== src/Api.antt =====
-- internal/transport/http/api/v1/handler: what the handlers read of a request, which methods of the
-- services they call and which status they answer. A body is what gin's binding makes of it, with
-- `none` where the binding fails.
pub mod Auth
pub mod Pagination
pub mod Clients
pub mod Sessions
pub mod Users
pub mod Providers
pub mod Login
pub mod Revoke
