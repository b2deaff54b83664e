-- ===== src/Proxy/Urls.antt =====
-- What a proxy's text stands for.
use scrapemate.Prelude.{◌<>◌, true, none, ◌≡◌, refl, if◌then◌else◌, Bool-cases, inl, inr}
use scrapemate.Errors.{ok}
use scrapemate.Proxy.{
  Url, Net, Proxy, contains, supported, has_credentials, with_user, full_url, of_url, new_proxy,
}

-- net/url on the URL of a proxy: it has a scheme and a host and nothing else, the scheme is in lower
-- case, and the text of it with the proxy's user is read back.
pub record IsPlain (net : Net) (p : Proxy) (pu : Url) : Type 0 where
  pub marked : contains p.url "://" ≡ true
  pub parsed : net.parse p.url ≡ ok pu
  pub no_user : pu.user ≡ none
  pub assembled : net.to_lower pu.scheme <> ("://" <> pu.host) ≡ p.url
  pub marked_full : contains (net.text (with_user p pu)) "://" ≡ true
  pub read_back : net.parse (net.text (with_user p pu)) ≡ ok (with_user p pu)
  pub known : supported (net.to_lower pu.scheme) ≡ true

module _ (net : Net) where
  -- NewProxy reads a proxy back from its FullURL, if it has a user name and a password; of a proxy
  -- that lacks one of them, FullURL drops the other.
  pub new_proxy-full_url :
      (p : Proxy) (pu : Url)
      → IsPlain net p pu
      → new_proxy net (full_url net p)
        ≡ ok (if has_credentials p then p else record p { username = ""; password = "" })
  unfolding new_proxy full_url of_url
  new_proxy-full_url p pu h = elim (Bool-cases (has_credentials p)) [
    | inl c ↦ rw (c, h.parsed, h.marked_full, h.read_back, h.known, h.assembled) refl
    | inr c ↦ rw (c, h.marked, h.parsed, h.known, h.no_user, h.assembled) refl
  ]
