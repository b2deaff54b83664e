-- ===== src/Examples/Quotes.antt =====
-- examples/quotes-to-scrape-app/quotes and, where they are the same, the quotes of examples/quotes-to-scrape-app-login.
-- `as_document` is the type assertion on the response's document; `new_id` is uuid.New.
use scrapemate.Prelude.{
  ℕ, pos, String, ◌<>◌, str_eq, Option, none, some, List, [], ◌∷◌, map, if◌then◌else◌,
}
use scrapemate.Errors.{Error, foreign}
use scrapemate.Response.{Response}
use scrapemate.Mate.Env.{Processed, Reply, replies}
use scrapemate.Job.{Job}
use scrapemate.Html.{Goquery, attr_or_empty}
use scrapemate.Examples.{default_user_agent, get_job}

record Quote : Type 0 where
  pub author : String
  pub text : String
  pub tags : List String

-- strings.Join
unfoldable join : String → List String → String
join sep [] = ""
join sep (s ∷ []) = s
join sep (s ∷ t ∷ ss) = s <> (sep <> join sep (t ∷ ss))

abbrev csv_headers : List String
csv_headers = "author" ∷ "text" ∷ "tags" ∷ []

unfoldable csv_row : Quote → List String
csv_row q = q.author ∷ q.text ∷ join "," q.tags ∷ []

module _ {D S : Type 0} (goquery : Goquery D S) where
  unfoldable parse_quote : S → Quote
  parse_quote s = record {
    author = goquery.text (goquery.find_in s ".author");
    text = goquery.text (goquery.find_in s ".text");
    tags = map goquery.text (goquery.items (goquery.find_in s ".tag"));
  }

  unfoldable parse_quotes : D → List Quote
  parse_quotes doc = map parse_quote (goquery.items (goquery.find doc ".quote"))

  unfoldable parse_next_page : D → Option String
  parse_next_page doc =
      let next_page = attr_or_empty goquery (goquery.find doc ".next > a") "href" in
      if str_eq next_page "" then none else some ("http://quotes.toscrape.com" <> next_page)

module _ {V : Type 0} where
  abbrev new_quote_collect_job : (id : String) (max_retries : ℕ) (url : String) → Job V
  new_quote_collect_job id max_retries url = record get_job {
    id = id;
    url = url;
    headers = ("User-Agent", default_user_agent) ∷ [];
    timeout = pos 10000000000;
    max_retries = pos max_retries;
  }

  abbrev quotes_failure : Error → Processed (Job V) V
  quotes_failure e = record { result = none; next = []; err = some e }

module _ {D S V W : Type 0} (goquery : Goquery D S) (as_document : V → Option D)
    (of_quotes : List Quote → V) (new_id : W → String × W) where
  abbrev quotes_document : Response V → Option D
  quotes_document resp = elim resp.document [ none ↦ none | some v ↦ as_document v ]

  -- `check` is CheckLogin in the program with a login, and nothing in the other one; `max_retries` is 1 or 3.
  unfoldable quotes_next_jobs : (max_retries : ℕ) → Option String → W → List (Job V) × W
  quotes_next_jobs max_retries none w = ([], w)
  quotes_next_jobs max_retries (some url) w =
      let (id, w') = new_id w in (new_quote_collect_job id max_retries url ∷ [], w')

  unfoldable quotes_of_document :
      (D → Option Error) → (max_retries : ℕ) → D → W → Reply (Processed (Job V) V) × W
  quotes_of_document check max_retries doc w =
      let (next, w') = quotes_next_jobs max_retries (parse_next_page goquery doc) w in
      elim (check doc) [
        | some e ↦ (replies (quotes_failure e), w)
        | none ↦ (
          replies (record {
            result = some (of_quotes (parse_quotes goquery doc));
            next = next;
            err = none;
          }),
          w',
        )
      ]

  unfoldable process_quotes :
      (D → Option Error)
      → (max_retries : ℕ) → Job V
      → Response V
      → W
      → Reply (Processed (Job V) V) × W
  process_quotes check max_retries j resp w = elim (quotes_document resp) [
    | none ↦ (replies (quotes_failure (foreign "invalid document type")), w)
    | some doc ↦ quotes_of_document check max_retries doc w
  ]
