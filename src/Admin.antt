-- ===== src/Admin.antt =====
-- The admin server: src/admin/rateLimit.ts, src/admin/userStore.ts, src/admin/handlers.ts,
-- src/admin/sql.ts, and the schemas of src/shared/schema.ts that it reads its requests and its file with.
pub mod RateLimit
pub mod Schema
pub mod File
pub mod Store
pub mod Names
pub mod Requests
pub mod Api
pub mod Session
pub mod Secrets
pub mod Sql
pub mod Reading
mod Examples
mod Sessions
mod Queries
