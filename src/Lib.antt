-- ===== src/Lib.antt =====
-- The runtime core of the Ember scripting platform, as functions with theorems.
--
-- The program: `src/frontend/lexer` turns a source text into tokens, which `src/frontend/parser`
-- compiles to bytecode for a stack machine; `src/runtime/value` holds the values of the machine,
-- with its hash maps, sets and maps; `src/api.c` is the interface for embedding, with a pool of
-- virtual machines; `src/runtime` holds the library of built-in functions, the package manager, the
-- virtual file system and the module system.
--
-- The parts and their files:
-- * HashMap models `ember_hash_map` of `src/runtime/value/value.c`: the record HashMap is the
--   struct, with the array of entries as a list; `find_entry`, `hash_map_set`, `hash_map_get`,
--   `hash_map_has_key` and `allocate_hash_map` have the names of the C functions. HashMap.Keys is
--   the interface to keys: a hash, an equality and nil. Its laws are what the theorems ask of keys.
-- * Sets and Maps model `ember_set` and `ember_map`, which are clients of HashMap.
-- * Values models `hash_value` and `values_equal` and fills the interface of HashMap.Keys with
--   them; Values.Keys is about the values that serve as keys.
-- * Arrays models `ember_array` of the same file: its values up to the length are a list.
-- * Iterators models the iterators of the same file, and the arrays that it makes of a table; what
--   an iterator points to is an argument of each call.
-- * Lexer models `src/frontend/lexer/lexer.c`: a pointer into the source is the text from there on,
--   and `scan_token` takes the scanner and returns the token with the scanner after it, or nothing
--   where the code reads past the NUL. Lexer.Words has the keywords, Lexer.Text the loops of
--   `string`, Lexer.Scan the rest.
-- * Collections models the handlers of `src/core/vm_collections.c` over a record of the stack and
--   the heap; they call Sets and Maps at the addresses on the stack, with the keys of Values.
-- * Pool models the pool of virtual machines of `src/api.c`: its static variables are the record
--   Pool, and a call takes it and returns it.
-- * Vfs models `src/runtime/vfs/vfs.c`: the mount points of a machine are the record Mounts, Vfs
--   itself has `ember_vfs_mount` and `ember_vfs_unmount`, Vfs.Paths has `ember_vfs_resolve` and
--   `ember_vfs_check_access`, Vfs.Startup has `ember_vfs_init`; Vfs.Table is the table from virtual
--   paths that the array stands for.
-- * Packages models the versions, the constraints, the names and the directories of
--   `src/runtime/package/package.c`: Packages.Versions has `parse_semver` and
--   `ember_package_version_compare`, Packages.Satisfies has `ember_package_version_satisfies`,
--   Packages.Names has `ember_package_validate_name` and
--   `ember_package_create_directory_recursive`.
-- * Json models `src/runtime/json_simple.c`: Json itself has the buffers and
--   `ember_json_validate_working`, Json.Read has the parser and `ember_json_stringify_working`.
-- * Modules models `src/runtime/module_system.c`: the contexts of modules are a store, and the
--   registry and the stack are lists in it; Modules.Resolve has `ember_resolve_module_path`.
-- * Parser models the compiler of expressions, `src/frontend/parser/expressions.c` with the
--   expressions of `oop.c`: Parser.Rules has the table of rules, Parser.Handlers, Parser.Variables,
--   Parser.Collections and Parser.Objects the functions that it names, Parser.Expressions has
--   `parse_precedence`. Parser.Grammar is an independent grammar of the expressions with their code
--   in postfix order.
-- * Strings models `src/runtime/string_stdlib.c`.
-- * Common holds the shared names, Boolean tests and list lemmas; Tests holds concrete runs.
--
-- Bounds and fuel: `hash_map_set` calls itself while it rehashes, and the model bounds the depth of
-- those calls by 2, which is enough. The loop of `find_entry` has the capacity as its number of
-- rounds. `hash_value` and `values_equal` follow arrays and tables, which may be cyclic, so they
-- take the depth as fuel. `skip_whitespace` of the lexer takes the length of the source as fuel,
-- which is enough. `append_string` doubles its capacity at most once for each byte that it has to
-- hold and once more, and where a `size_t` wraps around to 0 the loop has no end.
-- `parse_precedence` and the loops of the parser run on fuel, and Parser.Compiled says that enough
-- of it exists. A walk along the registry or the stack of modules takes the number of contexts made
-- as fuel: a list of different contexts is no longer. The loops of the virtual file system, of the
-- versions and of the directories follow the text that they read.
--
-- Parameters: the token stream of the parser, its errors and its chunk are in files that are not
-- among the sources, so they are the record Parser.Front, with what they are relied on for in
-- Parser.Laws.IsFront. `malloc` is a function from a request to whether it is granted; `double` is
-- the record Double, with the facts of IEEE 754 in IsIeee; `strtod`, the clock, the address of a
-- new object and the result of `ember_new_vm` are inputs. `stat`, `realpath` and `realloc` are the
-- record Host, the environment is the record Environment; `mkdir` with `stat` is the record
-- FileSystem, with what POSIX says of them in IsPosix; `strtod` and the `%g` of `snprintf` are
-- functions. `%d` of `sscanf` reads a number of any size. The answers about module files are the
-- records Modules.Host and Modules.Resolve.System. Errors that a handler sets are kept as their
-- message.
--
-- Not modelled: the exports of a module, the garbage collector's list of objects, printing, the
-- statements, imports, exports and classes of the parser, the bytecode interpreter, which is not
-- among the sources, the other built-in functions, the loading and the fetching of packages, which
-- run git and curl and read files, the modules under `experimental`, and the tools.
pub mod Arrays
pub mod Collections
pub mod Common
pub mod HashMap
pub mod Iterators
pub mod Json
pub mod Lexer
pub mod Maps
pub mod Modules
pub mod Packages
pub mod Parser
pub mod Pool
pub mod Sets
pub mod Strings
pub mod Tests
pub mod Values
pub mod Vfs
