-- ===== src/Tests.antt =====
-- Runs on small data, and an instance of each result.
mod Samples
mod RefTests
mod ManifestTests
mod IndexTests
mod StoreTests
mod HfTests
mod DhtTests
mod PullTests
mod DaemonTests
mod EngineTests
mod CliTests
mod SwarmTests
mod RunTests
