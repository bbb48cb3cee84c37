-- ===== src/Service/Study/Columns.antt =====
-- The columns of a convergence report (`study_report` of server/fenixspoon/core/service.py): a dict,
-- in which a metric that is tabulated twice stands once.
use fenix_spoon.Prelude.{
  ◌≡◌, sym, inl, inr, String, List, [], ◌∷◌, ◌++◌, Option, contains, append_assoc, append-nil,
  arith, Bool-cases, if◌then◌else◌, All, string_eq,
}
use fenix_spoon.Dict.{Dict, insert, keys, keys-insert, All-insert}

-- the dict of columns, by metric
unfoldable pub tabulated_columns :
    {F : Type 0}
    → (String → List (Option F))
    → List String
    → Dict String (List (Option F))
    → Dict String (List (Option F))
tabulated_columns column [] d = d
tabulated_columns column (name ∷ names) d =
    tabulated_columns column names (insert name (column name) d)

-- The names of a list that are not among some seen before, each at its first place.
unfoldable pub first_places : List String → List String → List String
first_places seen [] = []
first_places seen (name ∷ names) =
    if contains name seen
    then first_places seen names
    else name ∷ first_places (seen ++ name ∷ []) names

pub keys-tabulated_columns :
    {F : Type 0} (column : String → List (Option F)) (names : List String)
    (d : Dict String (List (Option F)))
    → keys (tabulated_columns column names d) ≡ keys d ++ first_places (keys d) names
unfolding tabulated_columns first_places
keys-tabulated_columns column [] d = sym (append-nil (keys d))
keys-tabulated_columns column (name ∷ names) d =
    let rest = keys-tabulated_columns column names (insert name (column name) d) in
    let new = keys-insert name (column name) d in
    elim (Bool-cases (contains name (keys d))) [
      | inl seen ↦ ground (arith, rest, new, seen)
      | inr unseen ↦ ground (
        arith,
        rest,
        new,
        unseen,
        append_assoc (keys d) (name ∷ []) (first_places (keys d ++ name ∷ []) names),
      )
    ]

pub All-tabulated_columns :
    {F : Type 0} (P : List (Option F) → Type 0) (column : String → List (Option F))
    (names : List String) (d : Dict String (List (Option F)))
    → ((name : String) → P (column name))
    → All (λ c. P c.1) d
    → All (λ c. P c.1) (tabulated_columns column names d)
unfolding tabulated_columns
All-tabulated_columns P column [] d good h = h
All-tabulated_columns P column (name ∷ names) d good h =
    All-tabulated_columns P column names (insert name (column name) d) good
      (All-insert P name (column name) d (good name) h)
