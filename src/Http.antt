-- ===== src/Http.antt =====
-- Around the controllers: apps/api/src/modules/core/http, the check of the origin in
-- apps/api/src/modules/core/security/origin-check.middleware.ts, and the middlewares of
-- apps/api/src/main.ts. A header or a cookie that is absent is `none`.
pub mod Exceptions
pub mod Middlewares
pub mod Requests
mod Tests
pub use Exceptions.*
pub use Middlewares.*
