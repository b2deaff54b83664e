-- ===== src/NetHttp/Browsers.antt =====
-- adapters/fetchers/stealth/browsers.go, and New of stealth.go. The names of the browsers are constants of
-- azuretls, which is foreign.
use scrapemate.Prelude.{
  String, str_eq, Bool, true, false, not, ◌&&◌, ◌||◌, List, [], ◌∷◌, if◌then◌else◌, ◌≡◌, refl,
  Bool-cases, inl, inr,
}

pub record Names : Type 0 where
  pub chrome : String
  pub firefox : String
  pub opera : String
  pub safari : String
  pub edge : String

pub record Settings : Type 0 where
  pub browser : String
  pub headers : List (String × String)

abbrev pub edge_headers : List (String × String)
edge_headers =
    (
      "Accept",
      "text/html,application/xhtml+xml,application/xml;q=0.9,image/webp,image/apng,*/*;q=0.8,application/signed-exchange;v=b3;q=0.7",
    )
    ∷ ("Accept-Encoding", "gzip, deflate, br")
    ∷ ("Accept-Language", "en-US,en;q=0.9")
    ∷ ("Cache-Control", "max-age=0")
    ∷ (
      "Sec-Ch-Ua", "\"Microsoft Edge\";v=\"119\", \"Chromium\";v=\"119\", \"Not?A_Brand\";v=\"24\"",
    )
    ∷ ("Sec-Ch-Ua-Mobile", "?0")
    ∷ ("Sec-Ch-Ua-Platform", "\"Windows\"")
    ∷ ("Sec-Fetch-Dest", "document")
    ∷ ("Sec-Fetch-Mode", "navigate")
    ∷ ("Sec-Fetch-Site", "none")
    ∷ ("Sec-Fetch-User", "?1")
    ∷ ("Upgrade-Insecure-Requests", "1")
    ∷ (
      "User-Agent",
      "Mozilla/5.0 (Windows NT 10.0; Win64; x64) AppleWebKit/537.36 (KHTML, like Gecko) Chrome/119.0.0.0 Safari/537.36 Edg/119.0.0.0",
    )
    ∷ []

abbrev pub chrome_headers : List (String × String)
chrome_headers =
    (
      "Accept",
      "text/html,application/xhtml+xml,application/xml;q=0.9,image/avif,image/webp,image/apng,*/*;q=0.8,application/signed-exchange;v=b3;q=0.7",
    )
    ∷ ("Accept-Encoding", "gzip, deflate, br")
    ∷ ("Accept-Language", "en-US,en;q=0.9")
    ∷ ("Cache-Control", "max-age=0")
    ∷ ("Sec-Ch-Ua", "\"Google Chrome\";v=\"120\", \"Chromium\";v=\"120\", \"Not?A_Brand\";v=\"24\"")
    ∷ ("Sec-Ch-Ua-Mobile", "?0")
    ∷ ("Sec-Ch-Ua-Platform", "\"Windows\"")
    ∷ ("Sec-Fetch-Dest", "document")
    ∷ ("Sec-Fetch-Mode", "navigate")
    ∷ ("Sec-Fetch-Site", "none")
    ∷ ("Sec-Fetch-User", "?1")
    ∷ ("Upgrade-Insecure-Requests", "1")
    ∷ (
      "User-Agent",
      "Mozilla/5.0 (Windows NT 10.0; Win64; x64) AppleWebKit/537.36 (KHTML, like Gecko) Chrome/120.0.0.0 Safari/537.36",
    )
    ∷ []

abbrev pub firefox_headers : List (String × String)
firefox_headers =
    (
      "Accept",
      "text/html,application/xhtml+xml,application/xml;q=0.9,image/avif,image/webp,*/*;q=0.8",
    )
    ∷ ("Accept-Encoding", "gzip, deflate, br")
    ∷ ("Accept-Language", "en-US,en;q=0.5")
    ∷ ("Cache-Control", "max-age=0")
    ∷ ("DNT", "1")
    ∷ ("Sec-Fetch-Dest", "document")
    ∷ ("Sec-Fetch-Mode", "navigate")
    ∷ ("Sec-Fetch-Site", "none")
    ∷ ("Sec-Fetch-User", "?1")
    ∷ ("Upgrade-Insecure-Requests", "1")
    ∷ (
      "User-Agent",
      "Mozilla/5.0 (Windows NT 10.0; Win64; x64; rv:121.0) Gecko/20100101 Firefox/121.0",
    )
    ∷ []

abbrev pub opera_headers : List (String × String)
opera_headers =
    (
      "Accept",
      "text/html,application/xhtml+xml,application/xml;q=0.9,image/avif,image/webp,image/apng,*/*;q=0.8,application/signed-exchange;v=b3;q=0.7",
    )
    ∷ ("Accept-Encoding", "gzip, deflate, br")
    ∷ ("Accept-Language", "en-US,en;q=0.9")
    ∷ ("Cache-Control", "max-age=0")
    ∷ ("Sec-Ch-Ua", "\"Opera\";v=\"103\", \"Chromium\";v=\"117\", \"Not;A=Brand\";v=\"8\"")
    ∷ ("Sec-Ch-Ua-Mobile", "?0")
    ∷ ("Sec-Ch-Ua-Platform", "\"Windows\"")
    ∷ ("Sec-Fetch-Dest", "document")
    ∷ ("Sec-Fetch-Mode", "navigate")
    ∷ ("Sec-Fetch-Site", "none")
    ∷ ("Sec-Fetch-User", "?1")
    ∷ ("Upgrade-Insecure-Requests", "1")
    ∷ (
      "User-Agent",
      "Mozilla/5.0 (Windows NT 10.0; Win64; x64) AppleWebKit/537.36 (KHTML, like Gecko) Chrome/117.0.0.0 Safari/537.36 OPR/103.0.0.0",
    )
    ∷ []

abbrev pub safari_headers : List (String × String)
safari_headers =
    ("Accept", "text/html,application/xhtml+xml,application/xml;q=0.9,*/*;q=0.8")
    ∷ ("Accept-Encoding", "gzip, deflate, br")
    ∷ ("Accept-Language", "en-US,en;q=0.9")
    ∷ ("Cache-Control", "max-age=0")
    ∷ ("Sec-Fetch-Dest", "document")
    ∷ ("Sec-Fetch-Mode", "navigate")
    ∷ ("Sec-Fetch-Site", "none")
    ∷ ("Upgrade-Insecure-Requests", "1")
    ∷ (
      "User-Agent",
      "Mozilla/5.0 (Macintosh; Intel Mac OS X 10_15_7) AppleWebKit/605.1.15 (KHTML, like Gecko) Version/17.2 Safari/605.1.15",
    )
    ∷ []

-- The switch of newSettings.
unfoldable pub headers_of : Names → String → List (String × String)
headers_of names browser =
    if str_eq browser names.chrome
    then chrome_headers
    else if str_eq browser names.firefox
    then firefox_headers
    else if str_eq browser names.opera
    then opera_headers
    else if str_eq browser names.safari
    then safari_headers
    else if str_eq browser names.edge
    then edge_headers
    else []

abbrev pub new_settings : Names → String → Settings
new_settings names browser = record { browser = browser; headers = headers_of names browser }

-- New, but for the rotator.
unfoldable pub new : Names → String → Settings
new names browser =
    if str_eq browser "" then record { browser = ""; headers = [] } else new_settings names browser

abbrev pub is_known : Names → String → Bool
is_known names browser =
    str_eq browser names.chrome
    || (str_eq browser names.firefox
        || (str_eq browser names.opera
            || (str_eq browser names.safari || str_eq browser names.edge)))

abbrev pub has : String → List (String × String) → Bool
has k [] = false
has k ((j, v) ∷ kvs) = str_eq j k || has k kvs

abbrev pub all_distinct : List (String × String) → Bool
all_distinct [] = true
all_distinct ((j, v) ∷ kvs) = not (has j kvs) && all_distinct kvs

-- For every browser that azuretls names, newSettings gives headers of which none occurs twice, with a user agent and
-- with the encodings that are accepted; for any other it gives none.
new_settings-headers :
    (names : Names) (browser : String)
    → let hs = (new_settings names browser).headers in
      (has "User-Agent" hs ≡ is_known names browser)
      × (has "Accept-Encoding" hs ≡ is_known names browser)
      × (all_distinct hs ≡ true)
unfolding headers_of
new_settings-headers names browser = elim (Bool-cases (str_eq browser names.chrome)) [
  | inl a ↦ rw (headers_of, a) (refl, refl, refl)
  | inr a ↦ elim (Bool-cases (str_eq browser names.firefox)) [
    | inl b ↦ rw (headers_of, a, b) (refl, refl, refl)
    | inr b ↦ elim (Bool-cases (str_eq browser names.opera)) [
      | inl c ↦ rw (headers_of, a, b, c) (refl, refl, refl)
      | inr c ↦ elim (Bool-cases (str_eq browser names.safari)) [
        | inl d ↦ rw (headers_of, a, b, c, d) (refl, refl, refl)
        | inr d ↦ elim (Bool-cases (str_eq browser names.edge)) [
          | inl e ↦ rw (headers_of, a, b, c, d, e) (refl, refl, refl)
          | inr e ↦ rw (headers_of, a, b, c, d, e) (refl, refl, refl)
        ]
      ]
    ]
  ]
]
