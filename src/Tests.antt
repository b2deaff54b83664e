-- ===== src/Tests.antt =====
-- Runs of the modelled code on small inputs, and the theorems at concrete inputs.
mod Sample
mod Scraper
mod Starting
mod Running
mod Logins
mod Browsers
mod Slots
mod App
mod Output
mod Storage
mod Proxies
mod Fetcher
mod Applications
