-- ===== src/Modules/Resolve.antt =====
-- `ember_resolve_module_path`, `ember_is_core_module` and `ember_module_exists` of
-- src/runtime/module_system.c. `malloc`, `getenv` and `stat` are parameters, and so is the path of the
-- system library, which depends on the platform. A path that is read before it is written is unset.
use ember_core.Common.{
  ℕ, ◌+◌, ◌-◌, Bool, false, not, ◌&&◌, ◌||◌, Option, none, some, List, [], ◌∷◌, ◌++◌, ◌==◌, ltb,
  leb, is_some, codes, length, take, if◌then◌else◌, same_text, after_prefix,
}

abbrev pub max_path_len : ℕ
max_path_len = 512

abbrev pub core_modules : List (List ℕ)
core_modules =
    codes "math"
    ∷ codes "string"
    ∷ codes "crypto"
    ∷ codes "json"
    ∷ codes "io"
    ∷ codes "http"
    ∷ codes "path"
    ∷ codes "fs"
    ∷ codes "os"
    ∷ codes "util"
    ∷ []

abbrev pub is_one_of : List (List ℕ) → List ℕ → Bool
is_one_of [] name = false
is_one_of (m ∷ ms) name = same_text m name || is_one_of ms name

abbrev pub ember_is_core_module : List ℕ → Bool
ember_is_core_module name = is_one_of core_modules name

-- what the system answers: whether a path is there, and whether it is a directory
pub record System : Type 0 where
  pub malloc : Bool
  pub home : Option (List ℕ)
  pub library : List ℕ
  pub exists : List ℕ → Bool
  pub is_directory : List ℕ → Bool

unfoldable pub ember_module_exists : System → List ℕ → Bool
ember_module_exists sys path = elim (after_prefix (codes "core:") path) [
  | some name ↦ ember_is_core_module name
  | none ↦ sys.exists path
]

-- `strstr` finds the text
abbrev pub has_text : List ℕ → List ℕ → Bool
has_text text [] = is_some (after_prefix text [])
has_text text (c ∷ cs) = is_some (after_prefix text (c ∷ cs)) || has_text text cs

-- a text cut to the buffer, by `snprintf` or `strncpy`
abbrev pub fitted : List ℕ → List ℕ
fitted text = take (max_path_len - 1) text

-- up to the last slash and with it, by `strrchr`
unfoldable pub directory_of : List ℕ → Option (List ℕ)
directory_of [] = none
directory_of (c ∷ cs) = elim (directory_of cs) [
  | some dir ↦ some (c ∷ dir)
  | none ↦ if c == 47 then some (c ∷ []) else none
]

-- a name that starts with ./ or ../ , without that
unfoldable pub relative_part : List ℕ → Option (List ℕ)
relative_part (c ∷ d ∷ []) = if c == 46 && d == 47 then some [] else none
relative_part (c ∷ d ∷ e ∷ cs) =
    if not (c == 46)
    then none
    else if d == 47
    then some (e ∷ cs)
    else if d == 46 && e == 47
    then some cs
    else none
relative_part _ = none

-- next to the current file, where it names a directory
unfoldable pub beside : Option (List ℕ) → List ℕ → Option (List ℕ)
beside none relative = some (fitted relative)
beside (some dir) relative =
    if leb max_path_len (length dir)
    then none
    else if ltb (length dir + length relative) (max_path_len - 1)
    then some (dir ++ relative)
    else some dir

unfoldable pub resolve_relative : Option (List ℕ) → List ℕ → Option (List ℕ)
resolve_relative none relative = some (fitted relative)
resolve_relative (some current_file) relative = beside (directory_of current_file) relative

unfoldable pub home_candidate : Option (List ℕ) → List ℕ → List (List ℕ)
home_candidate none name = []
home_candidate (some home) name =
    fitted (home ++ codes "/.local/lib/ember/" ++ name ++ codes ".ember") ∷ []

abbrev pub in_current : List ℕ → List ℕ
in_current name = fitted (codes "./" ++ name ++ codes ".ember")

unfoldable pub candidates : System → List ℕ → List (List ℕ)
candidates sys name =
    fitted (codes "./node_modules/" ++ name)
    ∷ fitted (codes "./node_modules/" ++ name ++ codes "/index.ember")
    ∷ fitted (codes "./lib/" ++ name ++ codes ".ember")
    ∷ (home_candidate sys.home name
        ++ (fitted (sys.library ++ codes "/" ++ name ++ codes ".ember") ∷ in_current name ∷ []))

-- the loop over the candidates
unfoldable pub first_existing : System → List (List ℕ) → Option (List ℕ)
first_existing sys [] = none
first_existing sys (p ∷ ps) =
    let rest = first_existing sys ps in if ember_module_exists sys p then some p else rest

-- the extension, or the index of a directory
unfoldable pub with_extension : System → List ℕ → List ℕ
with_extension sys path =
    if has_text (codes ".ember") path || has_text (codes "core:") path
    then path
    else if sys.exists path && sys.is_directory path
    then (if ltb (length path) (max_path_len - 12) then path ++ codes "/index.ember" else path)
    else if ltb (length path) (max_path_len - 7)
    then path ++ codes ".ember"
    else path

-- a path, an answer of NULL, or a path that is read before it is written
pub data Resolution : Type 0 where
  path : List ℕ → Resolution
  null : Resolution
  unset : Resolution

unfoldable pub extended : System → Option (List ℕ) → Resolution
extended sys none = unset
extended sys (some p) = path (with_extension sys p)

unfoldable pub resolve_installed : System → List ℕ → Option (List ℕ) → Resolution
resolve_installed sys name (some found) = path found
resolve_installed sys name none = extended sys (some (in_current name))

-- on the kinds of name, with the part after ./ or ../
unfoldable pub resolve_name : System → Option (List ℕ) → List ℕ → Option (List ℕ) → Resolution
resolve_name sys current_file name (some relative) =
    extended sys (resolve_relative current_file relative)
resolve_name sys current_file [] none =
    resolve_installed sys [] (first_existing sys (candidates sys []))
resolve_name sys current_file (c ∷ cs) none =
    if c == 47
    then extended sys (some (fitted (c ∷ cs)))
    else resolve_installed sys (c ∷ cs) (first_existing sys (candidates sys (c ∷ cs)))

unfoldable pub ember_resolve_module_path : System → List ℕ → Option (List ℕ) → Resolution
ember_resolve_module_path sys name current_file =
    if not sys.malloc
    then null
    else if ember_is_core_module name
    then path (fitted (codes "core:" ++ name))
    else resolve_name sys current_file name (relative_part name)
