-- ===== src/Repository.antt =====
-- internal/repository: the queries that the services make. Each is one statement over the tables, as
-- its SQL text says; a UNIQUE column or a primary key of db/schema/schema.sql refuses an insert.
-- Foreign keys are not modelled: a statement may fail at any time, for that reason too.
pub mod RefreshTokens
pub mod AccessTokens
pub mod Codes
pub mod Pages
pub mod Clients
pub mod Users
pub mod Providers
pub mod Audit
pub mod Frames
pub mod Blind
pub mod Logged
pub mod Updated
