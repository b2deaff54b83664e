-- ===== src/Proxy/Transports.antt =====
-- Whose credentials RoundTrip uses.
use scrapemate.Prelude.{◌≡◌, none, find, find-insert, eq_refl, arith, true}
use scrapemate.Errors.{ok}
use scrapemate.Proxy.{Url, Net, Proxy, with_user, has_credentials, Transports, transport}

module _ (net : Net) where
  -- Of two proxies with one URL, which net/url can read and for which the cache has no transport yet: after a first
  -- round trip of one that has a user name and a password, the next round trip of the other is made with the
  -- first one's user and password, whatever its own are.
  pub transport_shared :
      (p q : Proxy) (cache : Transports) (pu : Url)
      → q.url ≡ p.url
      → find p.url cache ≡ none
      → net.parse p.url ≡ ok pu
      → has_credentials p ≡ true
      → (transport net q (transport net p cache).1).0 ≡ ok (with_user p pu)
  unfolding transport
  transport_shared p q cache pu same new parsed c =
      ground (arith, find-insert p.url p.url (with_user p pu) cache, eq_refl p.url)
