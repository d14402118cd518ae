-- ===== src/Websocket/Role.antt =====
-- websocket_transport.cpp, `parse_role_from_uri`.
use karshipta.Common.{
  ℕ, zero, suc, ◌+◌, ◌<◌, ◌≡◌, refl, inl, inr, Bool, false, ◌||◌, List, [], ◌∷◌, Option, none, some,
  arith, ◌==◌, if◌then◌else◌, length, Text, text, text_eq, Option-cases,
}

pub data ClientRole : Type 0 where
  operator viewer : ClientRole

-- `substr(0, find(c))`
unfoldable pub before : ℕ → Text → Text
before c [] = []
before c (x ∷ xs) = let rest = before c xs in if x == c then [] else x ∷ rest

-- `substr(find(c) + 1)`, where the byte is found.
unfoldable pub behind : ℕ → Text → Option Text
behind c [] = none
behind c (x ∷ xs) = let rest = behind c xs in if x == c then some xs else rest

-- The loop over the parameters, on what is left of the query.
unfoldable pub scan_pairs : ℕ → Text → ClientRole
unfolding before behind
scan_pairs zero query = operator
scan_pairs (suc fuel) query =
    if text_eq (before b'&' query) (text "role=viewer")
    then viewer
    else elim (behind b'&' query) [ none ↦ operator | some rest ↦ scan_pairs fuel rest ]

unfoldable pub parse_role_from_uri : Text → ClientRole
unfolding scan_pairs behind
parse_role_from_uri uri = elim (behind b'?' uri) [
  | none ↦ operator
  | some query ↦ scan_pairs (length query + 1) query
]

-- A query as its parameters.
abbrev cons_first : ℕ → List Text → List Text
cons_first c [] = (c ∷ []) ∷ []
cons_first c (pair ∷ pairs) = (c ∷ pair) ∷ pairs

abbrev pub parameters : Text → List Text
parameters [] = [] ∷ []
parameters (c ∷ cs) = let rest = parameters cs in if c == b'&' then [] ∷ rest else cons_first c rest

abbrev pub has_viewer : List Text → Bool
has_viewer [] = false
has_viewer (pair ∷ pairs) = text_eq pair (text "role=viewer") || has_viewer pairs

-- The parameters one by one.
parameters-step :
    (query : Text)
    → parameters query
      ≡ before b'&' query ∷ (elim (behind b'&' query) [ none ↦ [] | some rest ↦ parameters rest ])
unfolding before behind
parameters-step [] = refl
parameters-step (c ∷ cs) = let rest = parameters-step cs in ground arith

behind-shorter :
    (c : ℕ) (query rest : Text) → behind c query ≡ some rest → length rest < length query
unfolding behind
behind-shorter c [] rest e = cc
behind-shorter c (x ∷ xs) rest e = let shorter = behind-shorter c xs rest in ground arith

scan_pairs-parameters :
    (fuel : ℕ) (query : Text)
    → length query < fuel
    → scan_pairs fuel query ≡ (if has_viewer (parameters query) then viewer else operator)
unfolding scan_pairs
scan_pairs-parameters zero query b = ground (arith, b)
scan_pairs-parameters (suc fuel) query b =
    let shape = parameters-step query in
    elim (Option-cases (behind b'&' query)) [
      | inl last ↦ ground arith
      | inr (rest, e) ↦
          let shorter = behind-shorter b'&' query rest e in
          let next = scan_pairs-parameters fuel rest (omega arith) in ground arith
    ]

-- A client is a viewer exactly if its URI has a query, and `role=viewer` is one of the parameters that
-- `&` separates in it; any other client is an operator.
pub parse_role_from_uri-parameters :
    (uri : Text)
    → parse_role_from_uri uri ≡ (elim (behind b'?' uri) [
      | none ↦ operator
      | some query ↦ if has_viewer (parameters query) then viewer else operator
    ])
unfolding parse_role_from_uri
parse_role_from_uri-parameters uri = elim (Option-cases (behind b'?' uri)) [
  | inl missing ↦ ground arith
  | inr (query, e) ↦
      let scanned = scan_pairs-parameters (length query + 1) query (omega arith) in ground arith
]
