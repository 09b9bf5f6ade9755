-- ===== src/Modules/Relative.antt =====
-- The paths that `ember_resolve_module_path` of src/runtime/module_system.c makes of relative names.
use ember_core.Common.{if◌then◌else◌, ℕ, ◌+◌, ◌-◌, List, ◌++◌, ltb, leb, length}
use ember_core.Modules.Resolve.{System, Resolution, with_extension, max_path_len}

-- The path that the code looks for: the name after the directory, the directory alone where both do not
-- fit into the buffer, and none that is set where the directory does not.
abbrev pub path_in : System → List ℕ → List ℕ → Resolution
path_in sys dir name =
    if leb max_path_len (length dir)
    then Resolution.unset
    else Resolution.path (
        with_extension sys
          (if ltb (length dir + length name) (max_path_len - 1) then dir ++ name else dir))
