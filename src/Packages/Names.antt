-- ===== src/Packages/Names.antt =====
-- `ember_package_validate_name` and `ember_package_create_directory_recursive` of
-- src/runtime/package/package.c. The file system is a parameter: its state, `mkdir` and the test of
-- `stat` for a directory.
use ember_core.Common.{
  ℕ, Bool, true, false, not, ◌&&◌, ◌||◌, List, [], ◌∷◌, ◌++◌, ltb, leb, ◌==◌, length, if◌then◌else◌,
  contains,
}

-- `strstr` finds ".."
abbrev pub has_two_dots : List ℕ → Bool
has_two_dots [] = false
has_two_dots (c ∷ []) = false
has_two_dots (c ∷ d ∷ cs) = (c == 46 && d == 46) || has_two_dots (d ∷ cs)

-- the characters < > | & ; $ and `
abbrev pub has_shell_character : List ℕ → Bool
has_shell_character text =
    contains 60 text
    || contains 62 text
    || contains 124 text
    || contains 38 text
    || contains 59 text
    || contains 36 text
    || contains 96 text

-- whether the result is 0
abbrev pub ember_package_validate_name : List ℕ → Bool
ember_package_validate_name name =
    not (length name == 0)
    && not (has_two_dots name || contains 47 name || contains 92 name || has_shell_character name)
    && not (ltb 64 (length name))

-- `mkdir` answers whether it made_or_there the directory; `is_directory` is `stat` with S_ISDIR
pub record FileSystem (W : Type 0) : Type 0 where
  pub mkdir : List ℕ → W → Bool × W
  pub is_directory : List ℕ → W → Bool

module _ {W : Type 0} (fs : FileSystem W) where
  -- a directory that was there already is as good as one made_or_there
  abbrev pub made_or_there : List ℕ → Bool × W → Bool × W
  made_or_there path (true, w) = (true, w)
  made_or_there path (false, w) = (fs.is_directory path w, w)

  -- onward where the directory is there
  abbrev pub onward : Bool × W → (W → Bool × W) → Bool × W
  onward (true, w) next = next w
  onward (false, w) next = (false, w)

  -- The loop, with the path before `dir`, whether the component is not empty, and what is left to read.
  unfoldable pub make_each : List ℕ → Bool → List ℕ → W → Bool × W
  make_each before true [] w = made_or_there before (fs.mkdir before w)
  make_each before false [] w = (true, w)
  make_each before component (c ∷ cs) w =
      let next = make_each (before ++ (c ∷ [])) false cs in
      let longer = make_each (before ++ (c ∷ [])) true cs w in
      if c == 47 then onward (made_or_there before (fs.mkdir before w)) next else longer

  -- from after a leading slash
  unfoldable pub make_path : List ℕ → W → Bool × W
  make_path [] w = (true, w)
  make_path (c ∷ cs) w =
      let absolute = make_each (c ∷ []) false cs w in
      let relative = make_each [] false (c ∷ cs) w in if c == 47 then absolute else relative

  -- whether the result is 0, with the file system after it
  unfoldable pub ember_package_create_directory_recursive : List ℕ → W → Bool × W
  ember_package_create_directory_recursive path w =
      if length path == 0 || has_two_dots path || has_shell_character path || leb 512 (length path)
      then (false, w)
      else make_path path w
