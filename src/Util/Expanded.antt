-- ===== src/Util/Expanded.antt =====
-- What `CleanAndExpandPath` and `MakeDirectory` do.
use Prim.Native.Char.{Char}
use Prim.Native.String
use Prim.Native.String.{String}
use text.Mathlib.Text.{◌==◌, starts_with}
use text.Mathlib.TextEquality.{eq_iff, starts_with_iff}
use text.Mathlib.TextLemmas.{cons≢nil, cons-append, nil-append}
use text.Mathlib.TextPositions.{starts_with-append}
use covenant.Prelude.{
  ◌≡◌, ◌≢◌, sym, refl, ap, subst, ◌∙◌, ◌↔◌, inl, inr, true, false, Bool-cases, Error, Outcome, ok,
  err, Panic, panic, running,
}
use covenant.Prelude.Exec.{Exec, continue, pure, ◌>>=◌, bind-eq-ok}
use covenant.Util.{
  Os, replace_tilde, explain, made, make_directory, home_dir_of, clean_and_expand_path,
}

not_empty : (c : Char) (rest : String) → (String.◌∷◌ c rest == "") ≡ false
not_empty c rest = elim (Bool-cases (String.◌∷◌ c rest == "")) [
  | inl e ↦ absurd (cons≢nil ((eq_iff (String.◌∷◌ c rest) "").0 e))
  | inr e ↦ e
]

tilde_append : (rest : String) → String.◌++◌ "~" rest ≡ String.◌∷◌ "~" rest
tilde_append rest = cons-append "~" "" rest ∙ ap (String.◌∷◌ "~") (nil-append rest)

starts_with_tilde : (rest : String) → starts_with (String.◌∷◌ "~" rest) "~" ≡ true
starts_with_tilde rest =
    subst (λ p. starts_with p "~" ≡ true) (tilde_append rest) (starts_with-append "~" rest)

module _ {S : Type 0} (os : Os S) where
  -- What is made of a path in which ~ has been replaced.
  abbrev pub cleaned : String → Exec S String
  cleaned path = do expanded ← os.expand_env path; pure (os.clean expanded)

  -- The cases of a path: it is empty and stays so; it begins with ~, which is replaced by the home
  -- directory of the user, or by the variable HOME after an error, or there is neither result nor
  -- error; or it does not begin with ~.
  pub data IsExpanded (path : String) (s : S) : Outcome String × S → Type 0 where
    empty : path ≡ "" → IsExpanded path s (ok "", s)
    at_home :
        (rest home_dir : String) (t : S)
        → path ≡ String.◌∷◌ "~" rest
        → os.current_user_home s ≡ (ok home_dir, t)
        → IsExpanded path s (cleaned (String.◌++◌ home_dir rest) t)
    at_variable :
        (rest : String) (e : Error) (t : S)
        → path ≡ String.◌∷◌ "~" rest
        → os.current_user_home s ≡ (err e, t)
        → IsExpanded path s
            ((os.home_variable >>= λ home_dir. cleaned (String.◌++◌ home_dir rest)) t)
    panicked :
        (rest : String) (p : Panic) (t : S)
        → path ≡ String.◌∷◌ "~" rest
        → os.current_user_home s ≡ (panic p, t)
        → IsExpanded path s (panic p, t)
    unfinished :
        (rest : String) (t : S)
        → path ≡ String.◌∷◌ "~" rest
        → os.current_user_home s ≡ (running, t)
        → IsExpanded path s (running, t)
    elsewhere :
        path ≢ ""
        → ((rest : String) → path ≢ String.◌∷◌ "~" rest)
        → IsExpanded path s (cleaned path s)

module _ {S : Type 0} (os : Os S) where
  replaced :
      (rest : String) (r : Outcome String) (t : S)
      → (continue r (λ home_dir. pure (replace_tilde home_dir (String.◌∷◌ "~" rest))) >>= λ path.
            cleaned os path)
          t
        ≡ continue r (λ home_dir. cleaned os (String.◌++◌ home_dir rest)) t
  unfolding replace_tilde
  replaced rest (ok home_dir) t = refl
  replaced rest (err e) t = refl
  replaced rest (panic p) t = refl
  replaced rest running t = refl

  home-IsExpanded :
      (rest : String) (r : Outcome String) (s t : S)
      → os.current_user_home s ≡ (r, t)
      → IsExpanded os
          (String.◌∷◌ "~" rest)
          s
          ((home_dir_of os >>= λ home_dir. cleaned os (String.◌++◌ home_dir rest)) s)
  home-IsExpanded rest (ok home_dir) s t e = rw e (at_home rest home_dir t refl e)
  home-IsExpanded rest (err x) s t e = rw e (at_variable rest x t refl e)
  home-IsExpanded rest (panic p) s t e = rw e (panicked rest p t refl e)
  home-IsExpanded rest running s t e = rw e (unfinished rest t refl e)

  tilde-IsExpanded :
      (rest : String) (s : S)
      → IsExpanded os (String.◌∷◌ "~" rest) s (clean_and_expand_path os (String.◌∷◌ "~" rest) s)
  unfolding clean_and_expand_path
  tilde-IsExpanded rest s =
      let (r, t) = home_dir_of os s in
      subst (IsExpanded os (String.◌∷◌ "~" rest) s)
        (sym (rw (not_empty "~" rest, starts_with_tilde rest) (replaced rest r t)))
        (let (x, u) = os.current_user_home s in home-IsExpanded rest x s u refl)

  -- `CleanAndExpandPath` gives the empty path for the empty path. In a path that begins with ~ it
  -- puts, in place of this ~, the home directory of the user, or the variable HOME if the user is not
  -- found; it takes any other path as it is. Then variables are expanded and the result is cleaned.
  -- If the query for the user panics or never returns, so does the call.
  pub clean_and_expand_path-IsExpanded :
      (path : String) (s : S) → IsExpanded os path s (clean_and_expand_path os path s)
  unfolding clean_and_expand_path
  clean_and_expand_path-IsExpanded String.[] s = empty refl
  clean_and_expand_path-IsExpanded (String.◌∷◌ c rest) s =
      elim (Bool-cases (starts_with (String.◌∷◌ c rest) "~")) [
        | inl e ↦
            let (u, k) = (starts_with_iff (String.◌∷◌ c rest) "~").0 e in
            subst (λ path. IsExpanded os path s (clean_and_expand_path os path s))
              (sym (tilde_append u) ∙ k) (tilde-IsExpanded u s)
        | inr e ↦
            subst (IsExpanded os (String.◌∷◌ c rest) s) (sym (rw (not_empty c rest, e) refl))
              (elsewhere (λ k. cons≢nil k) (λ u k. cc (starts_with_tilde u)))
      ]

  not-made : (dir : String) (e : Error) (s t : S) → ¬ (made os dir (err e) s ≡ (ok tt, t))
  not-made dir e s t h = let (e', u, k, k') = bind-eq-ok (explain os e (os.path_of e)) _ s h in cc

  made-eq-ok :
      (dir : String) (r : Outcome (Unit {0})) (s t : S)
      → made os dir r s ≡ (ok tt, t)
      → (r ≡ ok tt) × (s ≡ t)
  made-eq-ok dir (ok u) s t h = (refl, ap (λ x. x.1) h)
  made-eq-ok dir (err e) s t h = absurd (not-made dir e s t h)
  made-eq-ok dir (panic p) s t h = cc
  made-eq-ok dir running s t h = cc

  -- `MakeDirectory` returns no error exactly when `os.MkdirAll` does, and then does nothing more.
  pub make_directory_iff :
      (dir : String) (s t : S)
      → (make_directory os dir s ≡ (ok tt, t)) ↔ (os.mkdir_all dir s ≡ (ok tt, t))
  unfolding make_directory
  make_directory_iff dir s t = (
    λ h.
        let (r, u) = os.mkdir_all dir s in
        let (e, same) = made-eq-ok dir r u t h in ap (λ x. (x, u)) e ∙ ap (λ x. (ok tt, x)) same,
    λ h. rw h refl,
  )
