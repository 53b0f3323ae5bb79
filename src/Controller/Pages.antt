-- ===== src/Controller/Pages.antt =====
-- The loop over the pages of `QueryFinalityProviders` of clientcontroller/babylon.go. `fuel` bounds
-- its rounds.
pub mod Whole
use covenant.Prelude.{ℕ, zero, suc, Option, none, some, List, [], ◌++◌, wrapf, Outcome, running}
use covenant.Prelude.Exec.{Exec, pure, lift, wrap, ◌>>=◌}
use covenant.Libraries.{Bytes}

-- The answer to a request: the providers, and the pagination with its next key; either may be nil.
pub record FinalityProvidersResponse (Provider : Type 0) : Type 0 where
  pub finality_providers : List Provider
  pub pagination : Option (Option Bytes)

-- The key of the next page, if the loop goes on.
abbrev pub next_key : Option (Option Bytes) → Option Bytes
next_key none = none
next_key (some key) = key

-- `break`, or the next round.
abbrev pub turn_page :
    {S Provider : Type 0}
    → Option Bytes
    → List Provider
    → (Option Bytes → Exec S (List Provider))
    → Exec S (List Provider)
turn_page none fps again = pure fps
turn_page (some key) fps again = again (some key)

-- The `FinalityProviders` query, of a request with the key of a page.
module _ {S Provider : Type 0}
    (finality_providers : Option Bytes → Exec S (FinalityProvidersResponse Provider)) where
  unfoldable pub query_pages : ℕ → List Provider → Option Bytes → Exec S (List Provider)
  query_pages zero fps key = lift running
  query_pages (suc fuel) fps key = do
    res ← wrap (wrapf "failed to query finality providers: %v") (finality_providers key)
    turn_page (next_key res.pagination) (fps ++ res.finality_providers)
        (query_pages fuel (fps ++ res.finality_providers))

  unfoldable pub query_finality_providers : ℕ → Exec S (List Provider)
  query_finality_providers fuel = query_pages fuel [] none
