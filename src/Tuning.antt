-- ===== src/Tuning.antt =====
-- cli/internal/platform/windows: the reversible tuning of a provider's Windows host.
pub mod Journal
pub mod Optimize
