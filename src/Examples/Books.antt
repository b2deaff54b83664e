-- ===== src/Examples/Books.antt =====
-- BookCollectJob of examples/books-to-scrape-simple/bookstoscrape. `as_document` is the type assertion on the response's
-- document; `new_id` is uuid.New.
use scrapemate.Prelude.{
  pos, String, ◌<>◌, str_eq, starts_with, true, Option, none, some, List, [], ◌∷◌, ◌++◌, map,
  if◌then◌else◌,
}
use scrapemate.Errors.{foreign}
use scrapemate.Response.{Response}
use scrapemate.Mate.Env.{Processed, Reply, replies}
use scrapemate.Job.{Job}
use scrapemate.Html.{Goquery, attr_or_empty}
use scrapemate.Examples.{default_user_agent, get_job}

pub data BookJob (V : Type 0) : Type 0 where
  collect : Job V → BookJob V
  detail : Job V → BookJob V

abbrev job_of : {V : Type 0} → BookJob V → Job V
job_of (collect j) = j
job_of (detail j) = j

-- The prefix that some of the site's links lack.
unfoldable in_catalogue : String → String
in_catalogue link = if starts_with link "catalogue" then link else "catalogue/" <> link

module _ {V : Type 0} where
  unfoldable book_detail_job : (id link : String) → BookJob V
  book_detail_job id link = detail (record get_job {
    id = id;
    url = "https://books.toscrape.com/" <> in_catalogue link;
    headers = ("User-Agent", default_user_agent) ∷ [];
    timeout = pos 10000000000;
    max_retries = pos 3;
    priority = pos 1;
    take_screenshot = true;
  })

  unfoldable book_collect_job : (id link : String) → BookJob V
  book_collect_job id link = collect (record get_job {
    id = id;
    url = "http://books.toscrape.com/" <> in_catalogue link;
    headers = ("User-Agent", default_user_agent) ∷ [];
    timeout = pos 10000000000;
    max_retries = pos 3;
  })

module _ {D S V W : Type 0} (goquery : Goquery D S) (as_document : V → Option D)
    (new_id : W → String × W) where
  unfoldable product_links : D → List String
  product_links doc =
      map (λ s. attr_or_empty goquery s "href")
        (goquery.items (goquery.find doc "article.product_pod >div.image_container>a"))

  -- The loop over the links.
  unfoldable detail_jobs : List String → W → List (BookJob V) × W
  detail_jobs [] w = ([], w)
  detail_jobs (link ∷ links) w =
      let (id, w') = new_id w in
      let (rest, w'') = detail_jobs links w' in (book_detail_job id link ∷ rest, w'')

  unfoldable next_collect : String → W → List (BookJob V) × W
  next_collect next_link w =
      let (id, w') = new_id w in
      if str_eq next_link "" then ([], w) else (book_collect_job id next_link ∷ [], w')

  unfoldable books_of_document : D → W → Reply (Processed (BookJob V) V) × W
  books_of_document doc w =
      let (details, w') = detail_jobs (product_links doc) w in
      let (last, w'') =
        next_collect (attr_or_empty goquery (goquery.find doc "li.next>a") "href") w' in
      (replies (record { result = none; next = details ++ last; err = none }), w'')

  -- Process of BookCollectJob.
  unfoldable process_books : Response V → W → Reply (Processed (BookJob V) V) × W
  process_books resp w = elim resp.document [
    | none ↦ (
      replies (record { result = none; next = []; err = some (foreign "invalid document type") }),
      w,
    )
    | some v ↦ elim (as_document v) [
      | none ↦ (
        replies (record { result = none; next = []; err = some (foreign "invalid document type") }),
        w,
      )
      | some doc ↦ books_of_document doc w
    ]
  ]
