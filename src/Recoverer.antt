-- ===== src/Recoverer.antt =====
-- The recoverer (lib/recoverer).
pub mod Scan
pub mod World
pub mod Process
pub mod Check
pub mod Repair
pub mod Queue
