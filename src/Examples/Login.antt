-- ===== src/Examples/Login.antt =====
-- The login of examples/quotes-to-scrape-app-login, which runs as the init job. `encode` is the encoding of url.Values.
use scrapemate.Prelude.{
  ℕ, ◌<◌, pos, String, ◌<>◌, str_eq, Option, none, some, List, [], ◌∷◌, if◌then◌else◌, ◌≡◌, refl,
  subst, arith,
}
use scrapemate.Errors.{Error, foreign}
use scrapemate.Response.{Response}
use scrapemate.Mate.Env.{IJob, ScrapeMate, Processed, replies}
use scrapemate.Mate.Triple.{Triple}
use scrapemate.Mate.InitJob.{process_init_job}
use scrapemate.Mate.InitJob.Termination.{Shrinks, total, process_init_job-ends}
use scrapemate.Mate.Worker.Accounts.{Account}
use scrapemate.Job.{Job, Text}
use scrapemate.Job.Base.{embedding}
use scrapemate.Html.{Goquery}
use scrapemate.Examples.{get_job}

-- LoginCRSFToken and LoginJob.
pub data LoginFlow (V : Type 0) : Type 0 where
  csrf_token : Job V → LoginFlow V
  login : Job V → LoginFlow V

abbrev pub job_of : {V : Type 0} → LoginFlow V → Job V
job_of (csrf_token j) = j
job_of (login j) = j

abbrev pub login_url : String
login_url = "https://quotes.toscrape.com/login"

unfoldable pub new_login_crsf_token : {V : Type 0} → LoginFlow V
new_login_crsf_token = csrf_token (record get_job { url = login_url; max_retries = pos 1 })

module _ {D S : Type 0} (goquery : Goquery D S) where
  unfoldable pub check_login : D → Option Error
  check_login doc =
      let el = goquery.find doc "div.header-box p>a" in
      elim (goquery.items el) [
        | [] ↦ some (foreign "no login element found")
        | s ∷ ss ↦
            if str_eq (goquery.text el) "Logout"
            then none
            else some (foreign ("invalid text " <> goquery.text el))
      ]

module _ {V : Type 0} where
  abbrev pub ended : Option Error → Processed (LoginFlow V) V
  ended e = record { result = none; next = []; err = e }

  -- A token job leads to a login job, and that to none.
  abbrev pub weight : LoginFlow V → ℕ
  weight (csrf_token j) = 2
  weight (login j) = 1

  weight_positive : (j : LoginFlow V) → 0 < weight j
  weight_positive (csrf_token j) = omega arith
  weight_positive (login j) = omega arith

  unfoldable pub new_login_job :
      (List (String × String) → List ℕ) → (username password token : String) → LoginFlow V
  new_login_job encode username password token = login (record get_job {
    url = login_url;
    method = "POST";
    headers = ("Content-Type", "application/x-www-form-urlencoded") ∷ [];
    body = encode (("csrf_token", token) ∷ ("username", username) ∷ ("password", password) ∷ []);
    max_retries = pos 1;
  })

module _ {D S V : Type 0} (goquery : Goquery D S) (as_document : V → Option D)
    (encode : List (String × String) → List ℕ) where
  unfoldable pub next_job : Option String → Processed (LoginFlow V) V
  next_job none = ended (some (foreign "could not find csrf token"))
  next_job (some token) = record {
    result = none;
    next = new_login_job encode "admin" "admin" token ∷ [];
    err = none;
  }

  unfoldable pub login_of_document : LoginFlow V → D → Processed (LoginFlow V) V
  login_of_document (csrf_token j) doc =
      next_job (goquery.attr (goquery.find doc "input[name='csrf_token']") "value")
  login_of_document (login j) doc = ended (check_login goquery doc)

  -- The type assertion, and then the rest of both Process methods.
  unfoldable pub login_asserted : LoginFlow V → Option D → Processed (LoginFlow V) V
  login_asserted j none = ended (some (foreign "invalid document type"))
  login_asserted j (some doc) = login_of_document j doc

  unfoldable pub process_login : LoginFlow V → Response V → Processed (LoginFlow V) V
  process_login j resp =
      login_asserted j (elim resp.document [ none ↦ none | some v ↦ as_document v ])

  next_job-total : (token : Option String) → total weight (next_job token).next < 2
  unfolding next_job new_login_job
  next_job-total none = omega arith
  next_job-total (some token) = omega arith

  login_asserted-total :
      (j : LoginFlow V) (doc : Option D) → total weight (login_asserted j doc).next < weight j
  unfolding login_asserted login_of_document
  login_asserted-total (csrf_token j) none = omega arith
  login_asserted-total (login j) none = omega arith
  login_asserted-total (csrf_token j) (some doc) = next_job-total _
  login_asserted-total (login j) (some doc) = omega arith

  module _ {W : Type 0} (text : Text) where
    unfoldable pub login_ijob : IJob W (LoginFlow V) V
    login_ijob = embedding text job_of (λ j resp w. (replies (process_login j resp), w))

    login_ijob-Shrinks : Shrinks login_ijob weight
    unfolding login_ijob embedding process_login
    login_ijob-Shrinks = record {
      named = λ j. ((job_of j).id, refl);
      positive = weight_positive;
      smaller = λ j resp w w' p e.
          let same : process_login j resp ≡ p = ground arith in
          subst (λ q. total weight q.next < weight j) same (login_asserted-total j _);
    }

    -- With the token job as the init job, whatever the site answers: processInitJob ends after two rounds at most, does
    -- not panic, delivers nothing and moves no counter.
    pub login_flow-ends :
        (mate : ScrapeMate W (LoginFlow V) V) (c f d : ℕ)
        → mate.init_job ≡ some new_login_crsf_token
        → Triple (Account c f d) (process_init_job login_ijob mate 2) (λ _. Account c f d) (λ _. ⊥)
    unfolding new_login_crsf_token
    login_flow-ends mate c f d init =
        process_init_job-ends login_ijob mate weight login_ijob-Shrinks c f d 2
          (λ j e. ground arith)
