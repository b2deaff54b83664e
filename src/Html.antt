-- ===== src/Html.antt =====
-- adapters/parsers/goqueryparser/goquery.go. goquery is foreign: documents have the type `D`, selections the type `S`.
use scrapemate.Prelude.{ℕ, String, Option, none, some, List}
use scrapemate.Errors.{Error, Result, ok, err}
use scrapemate.Mate.Env.{HtmlParser, replies}

-- What the parser and the example jobs call of goquery; Attr is that of the first element of a selection, `items` are
-- those that Each goes over.
pub record Goquery (D S : Type 0) : Type 0 where
  pub new_document : List ℕ → Result D
  pub find : D → String → S
  pub find_in : S → String → S
  pub text : S → String
  pub attr : S → String → Option String
  pub items : S → List S

module _ {D S V : Type 0} (goquery : Goquery D S) (any : D → V) where
  unfoldable pub parse : List ℕ → Option V × Option Error
  parse body = elim (goquery.new_document body) [
    | err e ↦ (none, some e)
    | ok doc ↦ (some (any doc), none)
  ]

  abbrev pub new : {W : Type 0} → HtmlParser W V
  new = record { parse = λ body w. (replies (parse body), w) }

-- AttrOr of goquery with "".
abbrev pub attr_or_empty : {D S : Type 0} → Goquery D S → S → String → String
attr_or_empty goquery s name = elim (goquery.attr s name) [ none ↦ "" | some v ↦ v ]
