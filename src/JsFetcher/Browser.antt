-- ===== src/JsFetcher/Browser.antt =====
-- newBrowser of adapters/fetchers/jshttp/jshttp.go. Chromium is foreign: its browsers have the type `B`, its contexts
-- the type `C`.
pub mod Turns
use scrapemate.Prelude.{
  ℕ, zero, suc, String, str_eq, Bool, Option, none, some, List, [], ◌∷◌, ◌++◌, if◌then◌else◌,
}
use scrapemate.Errors.{Error, Result, ok, err}
use scrapemate.Mate.Env.{Reply, replies, throws}
use scrapemate.AuthProxy.{AuthProxy}
use scrapemate.AuthProxy.Clients.{address}
use scrapemate.Rotator.{Pool, pool_next}

pub record LaunchOptions : Type 0 where
  pub headless : Bool
  pub args : List String

-- `proxy` is the server of the proxy.
pub record ContextOptions : Type 0 where
  pub user_agent : String
  pub width : ℕ
  pub height : ℕ
  pub proxy : Option String

pub record Chromium (W B C : Type 0) : Type 0 where
  pub launch : LaunchOptions → W → Result B × W
  pub new_context : B → ContextOptions → W → Result C × W

abbrev pub common_args : List String
common_args =
    "--start-maximized" ∷ "--no-default-browser-check" ∷ "--disable-dev-shm-usage" ∷ "--no-sandbox"
    ∷ "--disable-setuid-sandbox" ∷ "--no-zygote" ∷ "--disable-gpu" ∷ "--mute-audio"
    ∷ "--disable-extensions" ∷ "--single-process" ∷ "--disable-breakpad"
    ∷ "--disable-features=TranslateUI,BlinkGenPropertyTrees" ∷ "--disable-ipc-flooding-protection"
    ∷ "--enable-features=NetworkService,NetworkServiceInProcess"
    ∷ "--enable-features=NetworkService" ∷ "--disable-default-apps" ∷ "--disable-notifications"
    ∷ "--disable-webgl" ∷ "--disable-blink-features=AutomationControlled"
    ∷ "--ignore-certificate-errors" ∷ "--ignore-certificate-errors-spki-list"
    ∷ "--disable-web-security" ∷ []

unfoldable pub launch_options : (headless disable_images : Bool) → LaunchOptions
launch_options headless disable_images = record {
  headless = headless;
  args =
      if disable_images
      then common_args ++ ("--blink-settings=imagesEnabled=false" ∷ [])
      else common_args;
}

abbrev pub default_ua : String
default_ua =
    "Mozilla/5.0 (Windows NT 10.0; Win64; x64) AppleWebKit/537.36 (KHTML, like Gecko) Chrome/91.0.4472.124 Safari/537.36"

unfoldable pub context_options : String → Option String → ContextOptions
context_options ua server = record {
  user_agent = if str_eq ua "" then default_ua else ua;
  width = 1920;
  height = 1080;
  proxy = server;
}

-- The server of the next proxy of the pool; Next panics on an empty pool.
unfoldable pub next_server :
    Option (Pool AuthProxy) → Reply (Option String) × Option (Pool AuthProxy)
next_server none = (replies none, none)
next_server (some pool) =
    let (p, pool') = pool_next pool in
    (elim p [ none ↦ throws | some a ↦ replies (some (address a)) ], some pool')

-- What a call of newBrowser does: its result, the contexts that it asks for, the pool and the world afterwards.
pub record Outcome (W B C : Type 0) : Type 0 where
  pub result : Reply (Result (B × C))
  pub asked : List ContextOptions
  pub pool : Option (Pool AuthProxy)
  pub world : W

module _ {W B C : Type 0} (chromium : Chromium W B C) where
  -- NewContext; a browser whose context fails is not closed.
  unfoldable pub with_context :
      String → B → Reply (Option String) → Option (Pool AuthProxy) → W → Outcome W B C
  with_context ua br throws pool w = record { result = throws; asked = []; pool = pool; world = w }
  with_context ua br (replies server) pool w =
      let (c, w') = chromium.new_context br (context_options ua server) w in
      record {
        result = replies (elim c [ err e ↦ err e | ok ctx ↦ ok (br, ctx) ]);
        asked = context_options ua server ∷ [];
        pool = pool;
        world = w';
      }

  unfoldable pub after_launch : String → Result B → Option (Pool AuthProxy) → W → Outcome W B C
  after_launch ua (err e) pool w = record {
    result = replies (err e);
    asked = [];
    pool = pool;
    world = w;
  }
  after_launch ua (ok br) pool w =
      let (server, pool') = next_server pool in with_context ua br server pool' w

  unfoldable pub new_browser :
      (headless disable_images : Bool) → Option (Pool AuthProxy) → String → W → Outcome W B C
  new_browser headless disable_images pool ua w =
      let (br, w') = chromium.launch (launch_options headless disable_images) w in
      after_launch ua br pool w'

  -- The contexts that `n` calls ask for, one after the other, and the pool after them.
  unfoldable pub asked_by :
      ℕ
      → (headless disable_images : Bool) → Option (Pool AuthProxy)
      → String
      → W
      → List ContextOptions × Option (Pool AuthProxy)
  asked_by zero headless disable_images pool ua w = ([], pool)
  asked_by (suc n) headless disable_images pool ua w =
      let o = new_browser headless disable_images pool ua w in
      let (rest, last) = asked_by n headless disable_images o.pool ua o.world in
      (o.asked ++ rest, last)
