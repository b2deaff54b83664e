-- ===== src/Mate.antt =====
-- scrapemate.go: the struct `ScrapeMate` and its methods, one child for each group of methods.
pub mod Env
pub mod Exec
pub mod Triple
pub mod Fetch
pub mod DoJob
pub mod Worker
pub mod InitJob
pub mod Monitor
pub mod Start
pub mod Options
