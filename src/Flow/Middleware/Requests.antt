-- ===== src/Flow/Middleware/Requests.antt =====
-- What a granted wallet request comes to in the PostgreSQL middleware.
use cost.Flow.Accounts.{Accounts}
