-- ===== src/Packages.antt =====
-- The package manager of src/runtime/package/package.c: names, directories and versions. The system
-- calls are parameters; the printed messages are left out.
pub mod Versions
pub mod Satisfies
pub mod Reading
pub mod Wildcards
pub mod Names
pub mod Directories
pub mod Order
pub mod Constraints
