-- ===== src/Tests.antt =====
-- The theorems at concrete inputs, and runs of the definitions.
mod Fixtures
mod Limiter
mod Urls
mod Caches
mod Records
mod Hooks
mod Places
mod Lists
mod Outcomes
mod Tries
mod Scrapes
mod Proxies
mod Ticks
mod Dicts
mod Codecs
mod Managers
mod Inputs
mod Keys
mod Histories
