-- ===== src/Util.antt =====
-- util/path.go, and what the program asks of package os and path/filepath.
pub mod Expanded
use Prim.Native.Char.{code}
use Prim.Native.String
use Prim.Native.String.{String}
use text.Mathlib.Text.{◌==◌, starts_with}
use covenant.Prelude
use covenant.Prelude.{
  Bool, true, false, not, ◌&&◌, Option, none, some, Error, errorf_texts, wrapf_text, Outcome, ok,
  err, panic, running, if◌then◌else◌,
}
use covenant.Prelude.Exec.{Exec, pure, lift, ◌>>=◌}

-- The operating system. The functions of path/filepath depend on it as well. `stat` answers with
-- its error only; `path_of` is the path of an error that is an `*os.PathError`; `open_file` is with
-- O_CREATE, O_WRONLY and O_APPEND.
pub record Os (S : Type 0) : Type 0 where
  pub stat : String → Exec S (Unit {0})
  pub is_not_exist : Error → Bool
  pub is_exist : Error → Bool
  pub path_of : Error → Option String
  pub mkdir_all : String → Exec S (Unit {0})
  pub readlink : String → Exec S String
  pub open_file : String → Exec S (Unit {0})
  pub current_user_home : Exec S String
  pub home_variable : Exec S String
  pub expand_env : String → Exec S String
  pub abs : String → Exec S String
  pub clean : String → String
  pub join : String → String → String
  pub dir : String → String

-- `strings.Replace(path, "~", home_dir, 1)`
unfoldable pub replace_tilde : String → String → String
replace_tilde home_dir String.[] = ""
replace_tilde home_dir (String.◌∷◌ c rest) =
    let later = replace_tilde home_dir rest in
    if Prelude.◌==◌ (code c) 126 then String.◌++◌ home_dir rest else String.◌∷◌ c later

module _ {S : Type 0} (os : Os S) where
  abbrev pub exists_by : Outcome (Unit {0}) → Outcome Bool
  exists_by (ok u) = ok true
  exists_by (err e) = ok (not (os.is_not_exist e))
  exists_by (panic p) = panic p
  exists_by running = running

  -- An error other than that there is no such file counts as a file.
  unfoldable pub file_exists : String → Exec S Bool
  file_exists name s = let (r, t) = os.stat name s in (exists_by r, t)

  abbrev pub with_link : Error → String → Outcome String → Outcome Error
  with_link e path (ok link) = ok (errorf_texts "is symlink %s -> %s mounted?" path link)
  with_link e path (err lerr) = ok e
  with_link e path (panic p) = panic p
  with_link e path running = running

  abbrev pub read_link : Error → String → Exec S Error
  read_link e path s = let (r, t) = os.readlink path s in (with_link e path r, t)

  -- The nicer error message.
  abbrev pub explain : Error → Option String → Exec S Error
  explain e none = pure e
  explain e (some path) = if os.is_exist e then read_link e path else pure e

  abbrev pub made : String → Outcome (Unit {0}) → Exec S (Unit {0})
  made dir (ok u) = pure tt
  made dir (err e) = do
    e' ← explain e (os.path_of e)
    lift (err (wrapf_text "failed to create dir %s: %w" dir e'))
  made dir (panic p) = lift (panic p)
  made dir running = lift running

  unfoldable pub make_directory : String → Exec S (Unit {0})
  make_directory dir s = let (r, t) = os.mkdir_all dir s in made dir r t

  abbrev pub home_or_variable : Outcome String → Exec S String
  home_or_variable (ok home_dir) = pure home_dir
  home_or_variable (err e) = os.home_variable
  home_or_variable (panic p) = lift (panic p)
  home_or_variable running = lift running

  -- The user's home directory, or the variable HOME if there is no user.
  abbrev pub home_dir_of : Exec S String
  home_dir_of s = let (r, t) = os.current_user_home s in home_or_variable r t

  abbrev pub expand_home : String → Bool → Exec S String
  expand_home path false = pure path
  expand_home path true = do home_dir ← home_dir_of; pure (replace_tilde home_dir path)

  unfoldable pub clean_and_expand_path : String → Exec S String
  clean_and_expand_path path = if path == "" then pure "" else (do
    path' ← expand_home path (starts_with path "~")
    expanded ← os.expand_env path'
    pure (os.clean expanded))
