-- ===== src/PlaywrightPage/Headers.antt =====
-- The headers that the page adapter makes of those of Playwright.
use scrapemate.Prelude.{
  String, none, some, List, [], ◌∷◌, ◌++◌, append_assoc, append-nil, find, find-insert, str_eq,
  if◌then◌else◌, ◌≡◌, refl, sym, subst, arith, Bool-cases, Option-cases, inl, inr,
}
use text.Mathlib.TextEquality.{eq_iff}
use scrapemate.NetHttp.{add}
use scrapemate.PlaywrightPage.{add_headers}

-- The values of a header.
abbrev pub values : String → List (String × List String) → List String
values c h = elim (find c h) [ none ↦ [] | some vs ↦ vs ]

-- The values of Playwright's headers with the canonical name `c`.
abbrev pub sent_values : (String → String) → String → List (String × String) → List String
sent_values canonical c [] = []
sent_values canonical c ((k, v) ∷ kvs) =
    let rest = sent_values canonical c kvs in if str_eq (canonical k) c then v ∷ rest else rest

values-add :
    (c k v : String) (h : List (String × List String))
    → values c (add k v h) ≡ (if str_eq k c then values c h ++ (v ∷ []) else values c h)
unfolding add
values-add c k v h = elim (Bool-cases (str_eq k c)) [
  | inl same ↦
      let is : k ≡ c = ground (arith, eq_iff k c) in
      elim (Option-cases (find k h)) [
        | inl none_yet ↦
            let at : find c h ≡ none = subst (λ x. find x h ≡ none) is none_yet in
            rw (add, values, none_yet, find-insert k c (v ∷ []) h, same, at) refl
        | inr (vs, some_yet) ↦
            let at : find c h ≡ some vs = subst (λ x. find x h ≡ some vs) is some_yet in
            rw (add, values, some_yet, find-insert k c (vs ++ (v ∷ [])) h, same, at) refl
      ]
  | inr other ↦ elim (Option-cases (find k h)) [
    | inl none_yet ↦ rw (add, values, none_yet, find-insert k c (v ∷ []) h, other) refl
    | inr (vs, some_yet) ↦
        rw (add, values, some_yet, find-insert k c (vs ++ (v ∷ [])) h, other) refl
  ]
]

pub values-add_headers :
    (canonical : String → String) (c : String) (kvs : List (String × String))
    (h : List (String × List String))
    → values c (add_headers canonical kvs h) ≡ values c h ++ sent_values canonical c kvs
unfolding add_headers
values-add_headers canonical c [] h = sym (append-nil (values c h))
values-add_headers canonical c ((k, v) ∷ kvs) h =
    let rec = values-add_headers canonical c kvs (add (canonical k) v h) in
    elim (Bool-cases (str_eq (canonical k) c)) [
      | inl same ↦
          rw (rec, values-add c (canonical k) v h, same)
            (append_assoc (values c h) (v ∷ []) (sent_values canonical c kvs))
      | inr other ↦ rw (rec, values-add c (canonical k) v h, other) refl
    ]
