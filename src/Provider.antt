-- ===== src/Provider.antt =====
-- cli/internal/provider: the daemon that serves requests on a provider's machine.
pub mod Requests
pub mod Status
