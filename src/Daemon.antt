-- ===== src/Daemon.antt =====
-- internal/daemon: the background seeder, its pulls and its status API.
pub mod Queue
pub mod Seeders
pub mod Status
