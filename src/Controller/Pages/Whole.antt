-- ===== src/Controller/Pages/Whole.antt =====
-- What `QueryFinalityProviders` returns, said page by page.
use mathlib.Core.List.{append_assoc, append-nil}
use covenant.Prelude.{
  ℕ, zero, suc, ◌≤◌, ◌≡◌, refl, ap, sym, subst, ◌∙◌, Option, none, some, List, [], ◌∷◌, ◌++◌,
  flatten, length, arith, ok,
}
use covenant.Prelude.Results.{ok-injective}
use covenant.Prelude.Exec.{Exec, wrap, bind-eq-ok, wrap-eq-ok}
use covenant.Libraries.{Bytes}
use covenant.Controller.Pages.{
  FinalityProvidersResponse, next_key, turn_page, query_pages, query_finality_providers,
}

module _ {S Provider : Type 0}
    (finality_providers : Option Bytes → Exec S (FinalityProvidersResponse Provider)) where
  -- The answers to a request for the page `key` and to the requests for the pages behind it, each
  -- with the key that the one before names, until one names none.
  pub data Pages : Option Bytes → S → List (List Provider) → S → Type 0 where
    last :
        {key : Option Bytes} {s t : S} (res : FinalityProvidersResponse Provider)
        → finality_providers key s ≡ (ok res, t)
        → next_key res.pagination ≡ none
        → Pages key s (res.finality_providers ∷ []) t
    turn :
        {key : Option Bytes} {s t u : S} {pages : List (List Provider)}
        (res : FinalityProvidersResponse Provider) (next : Bytes)
        → finality_providers key s ≡ (ok res, t)
        → next_key res.pagination ≡ some next
        → Pages (some next) t pages u
        → Pages key s (res.finality_providers ∷ pages) u

module _ {S Provider : Type 0}
    (finality_providers : Option Bytes → Exec S (FinalityProvidersResponse Provider)) where
  -- All pages, and that the loop returned what they hold behind what it had.
  record Read (key : Option Bytes) (before after : S) (earlier all : List Provider) : Type 0 where
    pages : List (List Provider)
    read : Pages finality_providers key before pages after
    whole : all ≡ earlier ++ flatten pages

  turned :
      (again : Option Bytes → Exec S (List Provider)) (key : Option Bytes) (s u v : S)
      (earlier all : List Provider) (res : FinalityProvidersResponse Provider)
      → finality_providers key s ≡ (ok res, u)
      → ((next : Bytes)
          → again (some next) u ≡ (ok all, v)
          → Read (some next) u v (earlier ++ res.finality_providers) all)
      → (next : Option Bytes) → next_key res.pagination ≡ next
      → turn_page next (earlier ++ res.finality_providers) again u ≡ (ok all, v)
      → Read key s v earlier all
  unfolding flatten
  turned again key s u v earlier all res e rest none n h = record {
    pages = res.finality_providers ∷ [];
    read =
        subst (Pages finality_providers key s (res.finality_providers ∷ [])) (ap (λ x. x.1) h)
          (last res e n);
    whole =
        sym (ok-injective (ap (λ x. x.0) h))
        ∙ ap (λ l. earlier ++ l) (sym (append-nil res.finality_providers));
  }
  turned again key s u v earlier all res e rest (some next) n h =
      let r = rest next h in
      record {
        pages = res.finality_providers ∷ r.pages;
        read = turn res next e n r.read;
        whole = r.whole ∙ append_assoc earlier res.finality_providers (flatten r.pages);
      }

  query_pages-Read :
      (fuel : ℕ) (earlier all : List Provider) (key : Option Bytes) (s t : S)
      → query_pages finality_providers fuel earlier key s ≡ (ok all, t)
      → Read key s t earlier all
  unfolding query_pages
  query_pages-Read zero earlier all key s t h = cc
  query_pages-Read (suc fuel) earlier all key s t h =
      let (res, u, e, k) = bind-eq-ok (wrap _ (finality_providers key)) _ s h in
      turned (query_pages finality_providers fuel (earlier ++ res.finality_providers)) key s u t
        earlier all res (wrap-eq-ok _ (finality_providers key) s e)
        (λ next k'.
          query_pages-Read fuel (earlier ++ res.finality_providers) all (some next) u t k')
        (next_key res.pagination) refl k

  Pages-query_pages :
      (fuel : ℕ) (earlier : List Provider) (key : Option Bytes) (s t : S)
      (pages : List (List Provider))
      → Pages finality_providers key s pages t
      → length pages ≤ fuel
      → query_pages finality_providers fuel earlier key s ≡ (ok (earlier ++ flatten pages), t)
  unfolding query_pages flatten
  Pages-query_pages zero earlier key s t pages (last res e n) h = absurd (omega arith)
  Pages-query_pages zero earlier key s t pages (turn res next e n k) h = absurd (omega arith)
  Pages-query_pages (suc fuel) earlier key s t pages (last res e n) h =
      rw (e, n) (ap (λ l. (ok (earlier ++ l), t)) (sym (append-nil res.finality_providers)))
  Pages-query_pages (suc fuel) earlier key s t pages (turn {t = u} {pages = rest} res next e n k)
        h =
      rw (e, n)
        (Pages-query_pages fuel (earlier ++ res.finality_providers) (some next) u t rest k
            (omega arith)
          ∙ ap (λ l. (ok l, t)) (append_assoc earlier res.finality_providers (flatten rest)))

  -- The providers that `QueryFinalityProviders` returns are those of all pages, in order: of the
  -- answer to a request without a key and of the answers to the requests behind it, each with the
  -- key that the answer before it names, up to one that names none.
  pub query_finality_providers_whole :
      (fuel : ℕ) (s t : S) (all : List Provider)
      → query_finality_providers finality_providers fuel s ≡ (ok all, t)
      → (pages : List (List Provider)) × Pages finality_providers none s pages t
        × (all ≡ flatten pages)
  unfolding query_finality_providers
  query_finality_providers_whole fuel s t all h =
      let r = query_pages-Read fuel [] all none s t h in (r.pages, r.read, r.whole)

  -- If the chain answers with `n` pages, the loop returns them all within `n` rounds.
  pub Pages-query_finality_providers :
      (fuel : ℕ) (s t : S) (pages : List (List Provider))
      → Pages finality_providers none s pages t
      → length pages ≤ fuel
      → query_finality_providers finality_providers fuel s ≡ (ok (flatten pages), t)
  unfolding query_finality_providers
  Pages-query_finality_providers fuel s t pages k h = Pages-query_pages fuel [] none s t pages k h
