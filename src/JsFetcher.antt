-- ===== src/JsFetcher.antt =====
-- adapters/fetchers/jshttp/jshttp.go: Fetch over session slots and over page slots, and the hooks
-- that page.go of adapters/browsers/playwright registers; its New, with newBrowser, and its Close.
pub mod Hooks
pub mod Fetch
pub mod Slots
pub mod Browser
pub mod Create
pub mod PageFetch
