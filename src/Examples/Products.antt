-- ===== src/Examples/Products.antt =====
-- Products of examples/books-to-scrape-simple/bookstoscrape. `F` is float64; `scan` is fmt.Sscanf, with the verb's type
-- as its result, of which the source ignores the error: what is not there leaves 0.
use scrapemate.Prelude.{
  ℕ, ℤ, pos, ltb_ℤ, String, str_eq, Bool, false, Option, none, some, List, [], ◌∷◌, if◌then◌else◌,
}
use scrapemate.Errors.{foreign}
use scrapemate.Response.{Response}
use scrapemate.Mate.Env.{Processed}
use scrapemate.Html.{Goquery}
use scrapemate.Examples.Books.{BookJob}

-- fmt.Sscanf with one %d or one %f, fmt.Sprintf with %.2f and with %d, and the first character of a string.
record Fmt (F : Type 0) : Type 0 where
  pub zero_float : F
  pub scan_int : (text format : String) → ℤ
  pub scan_float : (text format : String) → F
  pub two_places : F → String
  pub decimal : ℤ → String
  pub first_rune : String → Option String

record Product (F : Type 0) : Type 0 where
  pub name : String
  pub upc : String
  pub product_type : String
  pub currency : String
  pub price_excl_tax : F
  pub price_incl_tax : F
  pub tax : F
  pub in_stock : Bool
  pub availability : ℤ
  pub numbers_of_reviews : ℤ
  pub url : String
  pub screenshot : List ℕ

abbrev product_csv_headers : List String
product_csv_headers =
    "name" ∷ "upc" ∷ "product_type" ∷ "currency" ∷ "price_excl_tax" ∷ "price_incl_tax" ∷ "tax"
    ∷ "in_stock" ∷ "availability" ∷ "numbers_of_reviews" ∷ "url" ∷ []

module _ {F : Type 0} (fmt : Fmt F) where
  unfoldable product_csv_row : Product F → List String
  product_csv_row o =
      o.name
      ∷ o.upc
      ∷ o.product_type
      ∷ o.currency
      ∷ fmt.two_places o.price_excl_tax
      ∷ fmt.two_places o.price_incl_tax
      ∷ fmt.two_places o.tax
      ∷ (if o.in_stock then "true" else "false")
      ∷ fmt.decimal o.availability
      ∷ fmt.decimal o.numbers_of_reviews
      ∷ o.url
      ∷ []

  unfoldable parse_currency : String → String
  parse_currency currency = elim (fmt.first_rune currency) [ none ↦ "" | some c ↦ c ]

  unfoldable parse_number_of_reviews : String → ℤ
  parse_number_of_reviews number_of_reviews = fmt.scan_int number_of_reviews "%d"

  unfoldable parse_price : String → F
  parse_price price = fmt.scan_float price "£%f"

  unfoldable parse_availability : String → ℤ
  parse_availability availability = fmt.scan_int availability "In stock (%d available)"

  -- The switch, on the text of the row's th and td.
  unfoldable set_row : (th td : String) → Product F → Product F
  set_row th td product =
      if str_eq th "UPC"
      then record product { upc = td }
      else if str_eq th "Product Type"
      then record product { product_type = td }
      else if str_eq th "Price (excl. tax)"
      then record product { price_excl_tax = parse_price td }
      else if str_eq th "Price (incl. tax)"
      then record product { price_incl_tax = parse_price td }
      else if str_eq th "Tax"
      then record product { tax = parse_price td }
      else if str_eq th "Availability"
      then record product {
        availability = parse_availability td;
        in_stock = ltb_ℤ (pos 0) (parse_availability td);
      }
      else if str_eq th "Number of reviews"
      then record product { numbers_of_reviews = parse_number_of_reviews td }
      else product

  module _ {D S : Type 0} (goquery : Goquery D S) where
    -- Each over the rows.
    unfoldable set_rows : List S → Product F → Product F
    set_rows [] product = product
    set_rows (s ∷ ss) product = set_rows ss (
        set_row (goquery.text (goquery.find_in s "th")) (goquery.text (goquery.find_in s "td"))
          product)

    unfoldable parse_product : D → Product F
    parse_product doc =
        set_rows (goquery.items (goquery.find doc "table.table-striped>tbody>tr")) (record {
          name = goquery.text (goquery.find doc "div.product_main>h1");
          upc = "";
          product_type = "";
          currency =
              parse_currency (goquery.text (goquery.find doc "div.product_main>p.price_color"));
          price_excl_tax = fmt.zero_float;
          price_incl_tax = fmt.zero_float;
          tax = fmt.zero_float;
          in_stock = false;
          availability = pos 0;
          numbers_of_reviews = pos 0;
          url = "";
          screenshot = [];
        })

    -- Process of BookDetailJob.
    unfoldable process_detail :
        {V : Type 0} → (V → Option D) → (Product F → V) → Response V → Processed (BookJob V) V
    process_detail as_document of_product resp =
        elim (elim resp.document as (λ _. Option D) [ none ↦ none | some v ↦ as_document v ]) [
          | none ↦ record { result = none; next = []; err = some (foreign "invalid document type") }
          | some doc ↦ record {
            result = some (
                of_product
                  (record (parse_product doc) { url = resp.url; screenshot = resp.screenshot }));
            next = [];
            err = none;
          }
        ]
