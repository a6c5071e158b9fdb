-- ===== src/Api.antt =====
-- web/admin/src/api/client.ts: the types of the admin API, the wrapper of `fetch`, the endpoints.
mod Types
mod Fetch
mod Query
mod Endpoints
pub use Types.*
unfoldable pub use Fetch.*
unfoldable pub use Query.*
pub use Endpoints.*
