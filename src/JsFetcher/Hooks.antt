-- ===== src/JsFetcher/Hooks.antt =====
-- OnRequest, OnResponse and ClearNetworkHooks of adapters/browsers/playwright/page.go, and
-- runBrowserActions. Playwright's page has lists of listeners, which are known by numbers, each
-- registration by one of its own; its RemoveListener is a parameter. The mutex makes each method one step.
pub mod Cleared
use scrapemate.Prelude.{
  ℕ, suc, Bool, true, false, List, [], ◌∷◌, ◌++◌, if◌then◌else◌, ◌==◌, ◌≡◌, refl, arith, append-nil,
}

-- The listeners of a Playwright page, oldest first.
pub record Listeners : Type 0 where
  pub request : List ℕ
  pub response : List ℕ
  pub fresh : ℕ

-- The wrapper `Page`: the handlers that it has registered.
pub record Hooked : Type 0 where
  pub page : Listeners
  pub request_handlers : List ℕ
  pub response_handlers : List ℕ

abbrev pub new_page : Listeners → Hooked
new_page p = record { page = p; request_handlers = []; response_handlers = [] }

unfoldable pub on_request : Hooked → Hooked
on_request h = record h {
  request_handlers = h.request_handlers ++ (h.page.fresh ∷ []);
  page = record {
    request = h.page.request ++ (h.page.fresh ∷ []);
    response = h.page.response;
    fresh = suc h.page.fresh;
  };
}

unfoldable pub on_response : Hooked → Hooked
on_response h = record h {
  response_handlers = h.response_handlers ++ (h.page.fresh ∷ []);
  page = record {
    request = h.page.request;
    response = h.page.response ++ (h.page.fresh ∷ []);
    fresh = suc h.page.fresh;
  };
}

-- `remove_listener` is Playwright's RemoveListener on one kind of listeners.
module _ (remove_listener : ℕ → List ℕ → List ℕ) where
  unfoldable pub remove_all : List ℕ → List ℕ → List ℕ
  remove_all [] js = js
  remove_all (i ∷ is) js = remove_all is (remove_listener i js)

  unfoldable pub clear_network_hooks : Hooked → Hooked
  clear_network_hooks h = record {
    request_handlers = [];
    response_handlers = [];
    page = record h.page {
      request = remove_all h.request_handlers h.page.request;
      response = remove_all h.response_handlers h.page.response;
    };
  }

-- What the browser actions of a job do with the hooks: through the wrapper, or on Playwright's page
-- itself (Unwrap).
pub data HookCall : Type 0 where
  through_request through_response direct_request direct_response : HookCall

unfoldable pub register : HookCall → Hooked → Hooked
unfolding on_request on_response
register through_request h = on_request h
register through_response h = on_response h
register direct_request h = record h {
  page = record h.page {
    request = h.page.request ++ (h.page.fresh ∷ []);
    fresh = suc h.page.fresh;
  };
}
register direct_response h = record h {
  page = record h.page {
    response = h.page.response ++ (h.page.fresh ∷ []);
    fresh = suc h.page.fresh;
  };
}

unfoldable pub register_all : List HookCall → Hooked → Hooked
register_all [] h = h
register_all (c ∷ cs) h = register_all cs (register c h)

-- runBrowserActions, as far as the listeners go.
unfoldable pub run_browser_actions : (ℕ → List ℕ → List ℕ) → List HookCall → Listeners → Listeners
run_browser_actions remove_listener cs p =
    (clear_network_hooks remove_listener (register_all cs (new_page p))).page

-- The listeners that are registered directly, with the number that the first one gets.
abbrev pub direct_requests : List HookCall → ℕ → List ℕ
direct_requests [] n = []
direct_requests (direct_request ∷ cs) n = n ∷ direct_requests cs (suc n)
direct_requests (_ ∷ cs) n = direct_requests cs (suc n)

abbrev pub direct_responses : List HookCall → ℕ → List ℕ
direct_responses [] n = []
direct_responses (direct_response ∷ cs) n = n ∷ direct_responses cs (suc n)
direct_responses (_ ∷ cs) n = direct_responses cs (suc n)
