-- ===== src/Server.antt =====
-- cmd/fwknopd: the SPA server.
pub mod Replay
pub mod Access
pub mod Processing
pub mod ActionConfig
pub mod Request
pub mod Actions
pub mod Daemon
pub mod Startup
pub mod Loading
pub mod Precedence
pub mod Dump
pub mod Main
pub mod Report
pub mod Process
pub mod Log
pub mod Fixtures
pub mod Tests
pub mod LoadingTests
pub mod ProcessTests
