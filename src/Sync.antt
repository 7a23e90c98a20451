-- ===== src/Sync.antt =====
-- backend/internal/sync and the ledger of runs under it: the service that admits runs, the engine
-- that carries one out, and the names of its parts.
pub mod Ledger
pub mod Service
pub mod Engine
pub mod Handlers
