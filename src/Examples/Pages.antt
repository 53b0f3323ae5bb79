-- ===== src/Examples/Pages.antt =====
-- Three providers on two pages.
use covenant.Prelude.{ℕ, ◌+◌, ◌≡◌, refl, Option, none, some, List, [], ◌∷◌, flatten, ok, arith}
use covenant.Prelude.Exec.{Exec}
use covenant.Libraries.{Bytes}
use covenant.Controller.Pages.{FinalityProvidersResponse, query_pages, query_finality_providers}
use covenant.Controller.Pages.Whole.{
  Pages, last, turn, query_finality_providers_whole, Pages-query_finality_providers,
}

-- The number of requests is the state.
two_pages : Option Bytes → Exec ℕ (FinalityProvidersResponse ℕ)
two_pages none n =
    (ok (record { finality_providers = 1 ∷ 2 ∷ []; pagination = some (some (7 ∷ [])) }), n + 1)
two_pages (some key) n = (ok (record { finality_providers = 3 ∷ []; pagination = none }), n + 1)

all_of_them : query_finality_providers two_pages 5 0 ≡ (ok (1 ∷ 2 ∷ 3 ∷ []), 2)
unfolding query_finality_providers query_pages two_pages
all_of_them = refl

read : Pages two_pages none 0 ((1 ∷ 2 ∷ []) ∷ (3 ∷ []) ∷ []) 2
unfolding two_pages
read =
    turn (record { finality_providers = 1 ∷ 2 ∷ []; pagination = some (some (7 ∷ [])) }) (7 ∷ [])
      refl refl (last (record { finality_providers = 3 ∷ []; pagination = none }) refl refl)

query_finality_providers_whole_example :
    (pages : List (List ℕ)) × Pages two_pages none 0 pages 2 × (1 ∷ 2 ∷ 3 ∷ [] ≡ flatten pages)
query_finality_providers_whole_example =
    query_finality_providers_whole two_pages 5 0 2 (1 ∷ 2 ∷ 3 ∷ []) all_of_them

Pages-query_finality_providers_example :
    query_finality_providers two_pages 2 0 ≡ (ok (flatten ((1 ∷ 2 ∷ []) ∷ (3 ∷ []) ∷ [])), 2)
Pages-query_finality_providers_example =
    Pages-query_finality_providers two_pages 2 0 2 ((1 ∷ 2 ∷ []) ∷ (3 ∷ []) ∷ []) read (omega arith)
