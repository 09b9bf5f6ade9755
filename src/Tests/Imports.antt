-- ===== src/Tests/Imports.antt =====
-- Two modules, one loaded after the other.
use ember_core.Common.{
  ℕ, ◌+◌, ◌≡◌, refl, true, false, Option, none, some, List, [], ◌++◌, codes, if◌then◌else◌,
  same_text, after_prefix,
}
use ember_core.Modules.Loading.{IsFresh, load_module-registry, load_module_again}
use ember_core.Modules.Resolve.{
  System, Resolution, relative_part, directory_of, beside, candidates, home_candidate,
  first_existing, resolve_relative, resolve_installed, resolve_name, extended, with_extension,
  ember_module_exists, ember_resolve_module_path,
}
use ember_core.Modules.{
  Context, Modules, Host, find_context, ember_get_module_context, ember_detect_circular_dependency,
  cached_exports, ember_create_module_context, ember_push_module_context, ember_mark_module_loading,
  ember_mark_module_loaded, load_read, ember_load_module,
}

abbrev host : Host
host = record { malloc = true; exists = λ p. true; read = λ p. true; new_map = λ n. 100 + n }

abbrev no_core : List ℕ → Option ℕ
no_core name = none

abbrev nothing : Context
nothing = record {
  module_path = [];
  exports = 0;
  is_loaded = false;
  is_loading = false;
  next = none;
}

abbrev start : Modules
start = record { contexts = λ a. nothing; made = 0; registry = none; stack = none }

abbrev first : List ℕ
first = codes "./a.ember"

abbrev second : List ℕ
second = codes "./b.ember"

abbrev after_first : Modules
after_first = (ember_load_module host no_core first start).1

second-IsFresh : IsFresh host second after_first
unfolding ember_detect_circular_dependency ember_get_module_context cached_exports find_context
    ember_load_module load_read ember_create_module_context ember_push_module_context
    ember_mark_module_loading ember_mark_module_loaded same_text after_prefix
second-IsFresh = record { apart = refl; missing = refl; on_disk = refl; readable = refl }

load_module-registry_example :
    ember_get_module_context first (ember_load_module host no_core second after_first).1
    ≡ (if same_text second first then some after_first.made else none)
load_module-registry_example =
    load_module-registry host no_core second after_first second-IsFresh first

not_loading :
    ember_detect_circular_dependency second (ember_load_module host no_core second after_first).1
    ≡ false
unfolding ember_detect_circular_dependency ember_get_module_context cached_exports find_context
    ember_load_module load_read ember_create_module_context ember_push_module_context
    ember_mark_module_loading ember_mark_module_loaded same_text after_prefix
not_loading = refl

load_module_again_example :
    ember_load_module host no_core second (ember_load_module host no_core second after_first).1
    ≡ ember_load_module host no_core second after_first
load_module_again_example =
    load_module_again host no_core second after_first second-IsFresh not_loading

abbrev system : System
system = record {
  malloc = true;
  home = none;
  library = codes "/usr/lib/ember";
  exists = λ p. false;
  is_directory = λ p. false;
}

beside_main :
    ember_resolve_module_path system
      (codes "./" ++ codes "util")
      (some (codes "/app/src/main.ember"))
    ≡ Resolution.path (codes "/app/src/util.ember")
unfolding ember_resolve_module_path relative_part directory_of beside resolve_name resolve_relative
    extended with_extension same_text after_prefix
beside_main = refl

found_in_lib :
    ember_resolve_module_path
      (record system { exists = same_text (codes "./lib/json2.ember") })
      (codes "json2")
      none
    ≡ Resolution.path (codes "./lib/json2.ember")
unfolding ember_resolve_module_path relative_part resolve_name resolve_installed candidates
    home_candidate first_existing ember_module_exists same_text after_prefix
found_in_lib = refl
