-- ===== src/Modules.antt =====
-- The contexts of modules of src/runtime/module_system.c. A context is a place of a store, since the
-- registry and the stack of the modules being loaded are linked by the same field `next`. A walk along a
-- list takes the number of contexts made as fuel. `malloc`, the files and the addresses of new hash
-- maps are parameters; the printed warnings are left out.
pub mod Loading
pub mod Resolve
pub mod Relative
use ember_core.Common.{
  ℕ, zero, suc, ◌+◌, Bool, true, false, not, ◌&&◌, ◌||◌, Option, none, some, List, [], ◌∷◌, ◌==◌,
  is_some, codes, if◌then◌else◌, same_text, after_prefix,
}

pub record Context : Type 0 where
  pub module_path : List ℕ
  pub exports : ℕ
  pub is_loaded : Bool
  pub is_loading : Bool
  pub next : Option ℕ

pub record Modules : Type 0 where
  pub contexts : ℕ → Context
  pub made : ℕ
  pub registry : Option ℕ
  pub stack : Option ℕ

-- the context at a place, with another one there
abbrev pub write_context : ℕ → Context → Modules → Modules
write_context a context s = record s { contexts = λ b. if b == a then context else s.contexts b }

-- along `next`
unfoldable pub find_context : (ℕ → Context) → List ℕ → ℕ → Option ℕ → Option ℕ
find_context contexts path zero p = none
find_context contexts path (suc fuel) none = none
find_context contexts path (suc fuel) (some a) =
    let later = find_context contexts path fuel (contexts a).next in
    if same_text (contexts a).module_path path then some a else later

unfoldable pub ember_get_module_context : List ℕ → Modules → Option ℕ
ember_get_module_context path s = find_context s.contexts path s.made s.registry

unfoldable pub ember_detect_circular_dependency : List ℕ → Modules → Bool
ember_detect_circular_dependency path s = is_some (find_context s.contexts path s.made s.stack)

-- with memory, and the address of the new hash map of exports
unfoldable pub ember_create_module_context : List ℕ → ℕ → Modules → Modules
ember_create_module_context path exports s =
    let s' =
      write_context s.made
        (record {
          module_path = path;
          exports = exports;
          is_loaded = false;
          is_loading = false;
          next = s.registry;
        })
        s in
    record s' { made = suc s.made; registry = some s.made }

abbrev pub with_next : Option ℕ → Context → Context
with_next next context = record context { next = next }

unfoldable pub ember_push_module_context : ℕ → Modules → Modules
ember_push_module_context a s =
    let s' = write_context a (with_next s.stack (s.contexts a)) s in record s' { stack = some a }

-- the top of the stack taken off
abbrev pub popped : Option ℕ → Modules → Modules
popped none s = s
popped (some a) s =
    let s' = write_context a (with_next none (s.contexts a)) s in
    record s' { stack = (s.contexts a).next }

-- the pointer returned is `s.stack`
abbrev pub ember_pop_module_context : Modules → Modules
ember_pop_module_context s = popped s.stack s

abbrev pub as_loading : Context → Context
as_loading context = record context { is_loading = true }

abbrev pub as_loaded : Context → Context
as_loaded context = record context { is_loading = false; is_loaded = true }

-- what the system answers
pub record Host : Type 0 where
  pub malloc : Bool
  pub exists : List ℕ → Bool
  pub read : List ℕ → Bool
  pub new_map : ℕ → ℕ

-- `is_loading` set; a context is made where there is none
abbrev pub marked_loading : Host → List ℕ → Option ℕ → Modules → Modules
marked_loading host path (some a) s = write_context a (as_loading (s.contexts a)) s
marked_loading host path none s =
    let s' = ember_create_module_context path (host.new_map s.made) s in
    if host.malloc then write_context s.made (as_loading (s'.contexts s.made)) s' else s

unfoldable pub ember_mark_module_loading : Host → List ℕ → Modules → Modules
ember_mark_module_loading host path s = marked_loading host path (ember_get_module_context path s) s

abbrev pub marked_loaded : Option ℕ → Modules → Modules
marked_loaded none s = s
marked_loaded (some a) s = write_context a (as_loaded (s.contexts a)) s

unfoldable pub ember_mark_module_loaded : List ℕ → Modules → Modules
ember_mark_module_loaded path s = marked_loaded (ember_get_module_context path s) s

-- The file is there, is opened and read, and the context is allocated.
abbrev pub is_readable : Host → List ℕ → Bool
is_readable host path = host.exists path && host.read path && host.malloc

-- the exports, or nil where the file is not read
unfoldable pub load_read : Bool → Host → List ℕ → Modules → Option ℕ × Modules
load_read false host path s = (none, s)
load_read true host path s =
    let exports = host.new_map s.made in
    (
      some exports,
      ember_pop_module_context (
          ember_mark_module_loaded path (
            ember_mark_module_loading host path
              (ember_push_module_context s.made (ember_create_module_context path exports s)))),
    )

-- `read` answers whether the file is opened and read into memory
abbrev pub load_file_module : Host → List ℕ → Modules → Option ℕ × Modules
load_file_module host path s = load_read (is_readable host path) host path s

-- where there is a context that is loaded, its exports
unfoldable pub cached_exports : Option ℕ → Modules → Option ℕ
cached_exports none s = none
cached_exports (some a) s = if (s.contexts a).is_loaded then some (s.contexts a).exports else none

-- on the resolved path, with what the initializer of a core module makes
unfoldable pub ember_load_module :
    Host → (List ℕ → Option ℕ) → List ℕ → Modules → Option ℕ × Modules
ember_load_module host init_core path s =
    if ember_detect_circular_dependency path s
    then (none, s)
    else (elim (cached_exports (ember_get_module_context path s) s) [
      | some exports ↦ (some exports, s)
      | none ↦ elim (after_prefix (codes "core:") path) [
        | some name ↦ (init_core name, s)
        | none ↦ load_file_module host path s
      ]
    ])
