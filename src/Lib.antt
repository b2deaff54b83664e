-- ===== src/Lib.antt =====
-- A model of scrapemate, a library for web scrapers, and the theorems about it.
--
-- A scraper (scrapemate.go) takes jobs from a job provider. Each of its workers fetches a job's page
-- through an HTTP fetcher, with retries, or finds the response in a cache; hands it to an HTML parser
-- and to the job's own Process; pushes the jobs that this gives back to the provider, and delivers
-- the result. A ticker ends a scraper that is idle. The memory provider
-- (adapters/providers/memory) has a channel per priority. The JavaScript fetcher
-- (adapters/fetchers/jshttp) runs the browser actions of a job (job.go) on a page of a browser, which
-- it takes from a pool of page slots or from a session slot; proxies are given out in turn, and a
-- local proxy adds their credentials. scrapemateapp makes a scraper from a configuration.
--
--   Prelude        lists, options, tests and 64-bit integers that the modules share
--   Errors         errors.go, and the errors built in place
--   Response       response.go
--   Mate           scrapemate.go: Env has the interfaces of job.go and services.go, Exec the shared
--                  state and the monad, Triple its rules; Fetch is doFetch, DoJob is DoJob, Worker is
--                  startWorker, finishJob, pushJobs and pushToFailedJobs, InitJob is processInitJob,
--                  Monitor is the ticker of Start, waitForSignal and Err, Options is New; Start is
--                  Start with all its goroutines, as a step relation over what they share, in which
--                  DoJob is a relation, the provider gives any job, and readers of the results may leave
--   Job            the base job of job.go: its checks, keys and browser actions; Base is the base job as a
--                  job of Mate, and a type that embeds it
--   Memory         adapters/providers/memory/memory.go, as a step relation
--   Caches         adapters/cache: compress.go, FileCache is filecache, LevelDb is leveldbcache
--   Proxy          proxy.go, and New, Proxies and RoundTrip of adapters/proxy/proxy.go
--   AuthProxy      adapters/fetchers/jshttp/local_proxy.go: Http is handleHTTP, Connect handleConnect,
--                  Shutdown Close, Clients the HTTP clients and the address
--   ProxyPool      NewProxyPool of adapters/fetchers/jshttp/pool.go
--   JsFetcher      adapters/fetchers/jshttp/jshttp.go: Create is New, Fetch is Fetch on a session slot,
--                  PageFetch is fetchWithPageSlot, Slots is getSlot, putSlot and Close, Browser is
--                  newBrowser, Hooks is runBrowserActions with the hooks of
--                  adapters/browsers/playwright/page.go
--   PlaywrightPage the other methods of adapters/browsers/playwright/page.go
--   NetHttp        Fetch of adapters/fetchers/nethttp/nethttp.go and of
--                  adapters/fetchers/stealth/stealth.go; Browsers is stealth/browsers.go
--   Application    scrapemateapp/scrapemateapp.go and jsfetcher_playwright.go: getMate, and in Run Start as
--                  the goroutines of its errgroup over those of Mate.Start, whose readers are the writers
--   PageSlots      adapters/fetchers/jshttp/page_slot_pool.go
--   SessionSlot    adapters/fetchers/jshttp/session_slot.go
--   Rotator        Next of adapters/proxy/proxy.go and of adapters/fetchers/jshttp/pool.go
--   Config         scrapemateapp/config.go
--   Writers        adapters/writers/csvwriter/csvwriter.go
--   JsonWriter     adapters/writers/jsonwriter/jsonwriter.go
--   Html           adapters/parsers/goqueryparser/goquery.go, over the calls of goquery
--   Examples       the jobs of the programs under examples: Quotes of quotes-to-scrape-app, Login of
--                  quotes-to-scrape-app-login, which runs as an init job of Mate, Books and Products of
--                  books-to-scrape-simple, Hooks of quotes-to-scrape-hooks
--   Tests          the theorems at concrete inputs
--
-- Methods of a scraper are computations over a state: the world (everything outside), the cause of
-- the context's end, the counters, and a trace of what was done. A collaborator (fetcher, check,
-- Process, parser, cache, provider) is a function of the world that replies or panics. Such a method
-- ends by returning, by a panic, or, in the model only, by running out of fuel.
--
-- Fuel: the loop of doFetch has six rounds, one and then one for each of the five retries that
-- getMaxRetries allows at most; it never runs out of them. The loop of processInitJob is given its
-- rounds as an argument: a job may lead to jobs for ever, so they are enough under a measure that each
-- call of Process makes smaller. The counters of a scraper are natural numbers that do not reach
-- their 64-bit bound; `current` of a proxy rotator wraps at 32 bits, and the sums of config.go at 64.
--
-- Not modelled: logging, but for the GetID that DoJob calls for it; the browser, the validator, net/url, goquery, JSON and the other packages that
-- the code calls, which are parameters; the closing of the fetcher and the cache at the end of the
-- application's Start; the buffers of the fetchers and the copying of a tunnel; contexts with a deadline
-- as the scraper's own; closeWithTimeout of the JavaScript fetcher, whose goroutine closes a value; the
-- main functions of the examples and the proxy-test command, which read flags and set up a scraper; the
-- mocks, which are generated.
mod Prelude
mod Tests
pub mod Errors
pub mod Response
pub mod Mate
pub mod PageSlots
pub mod PlaywrightPage
pub mod Proxy
pub mod AuthProxy
pub mod Caches
pub mod Config
pub mod Application
pub mod Job
pub mod JsFetcher
pub mod Memory
pub mod NetHttp
pub mod ProxyPool
pub mod Rotator
pub mod SessionSlot
pub mod JsonWriter
pub mod Html
pub mod Examples
pub mod Writers
