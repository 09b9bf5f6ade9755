-- ===== src/Packages/Directories.antt =====
-- The directories that `ember_package_create_directory_recursive` of src/runtime/package/package.c makes.
use ember_core.Common.{
  ℕ, ◌≡◌, refl, sym, ap, ◌∙◌, inl, inr, Bool, true, false, not, ◌||◌, List, [], ◌∷◌, ◌++◌,
  append_assoc, append-nil, arith, leb, ◌==◌, Bool-cases, length,
}
use ember_core.Packages.Names.{
  FileSystem, has_two_dots, has_shell_character, made_or_there, onward, make_each, make_path,
  ember_package_create_directory_recursive,
}

-- What POSIX says of `mkdir`: it makes the directory where it answers so, and keeps the others.
pub record IsPosix {W : Type 0} (fs : FileSystem W) : Type 0 where
  pub makes :
      (path : List ℕ) (w : W)
      → (fs.mkdir path w).0 ≡ true
      → fs.is_directory path (fs.mkdir path w).1 ≡ true
  pub keeps :
      (path q : List ℕ) (w : W)
      → fs.is_directory q w ≡ true
      → fs.is_directory q (fs.mkdir path w).1 ≡ true

head_or : List ℕ → ℕ
head_or [] = 0
head_or (c ∷ cs) = c

tail_or : List ℕ → List ℕ
tail_or [] = []
tail_or (c ∷ cs) = cs

absurd_nil : {P : Type 0} (a b : List ℕ) → [] ≡ a ++ (47 ∷ b) → P
absurd_nil [] b e = cc e
absurd_nil (x ∷ a) b e = cc e

-- The path ends inside a component.
abbrev pub ends_named : Bool → List ℕ → Bool
ends_named component [] = component
ends_named component (c ∷ cs) = ends_named (not (c == 47)) cs

module _ {W : Type 0} (fs : FileSystem W) (posix : IsPosix fs) where
  made_or_there-keeps :
      (path q : List ℕ) (w : W)
      → fs.is_directory q w ≡ true
      → fs.is_directory q (made_or_there fs path (fs.mkdir path w)).1 ≡ true
  made_or_there-keeps path q w h = same (fs.mkdir path w) (posix.keeps path q w h)
    where
      same :
          (r : Bool × W)
          → fs.is_directory q r.1 ≡ true
          → fs.is_directory q (made_or_there fs path r).1 ≡ true
      same (true, w) h = h
      same (false, w) h = h

  made_or_there_lem :
      (path : List ℕ) (w : W)
      → (made_or_there fs path (fs.mkdir path w)).0 ≡ true
      → fs.is_directory path (made_or_there fs path (fs.mkdir path w)).1 ≡ true
  made_or_there_lem path w = there (fs.mkdir path w) (posix.makes path w)
    where
      there :
          (r : Bool × W)
          → (r.0 ≡ true → fs.is_directory path r.1 ≡ true)
          → (made_or_there fs path r).0 ≡ true
          → fs.is_directory path (made_or_there fs path r).1 ≡ true
      there (true, w) h g = h refl
      there (false, w) h g = g

  onward-keeps :
      (q : List ℕ) (r : Bool × W) (next : W → Bool × W)
      → fs.is_directory q r.1 ≡ true
      → ((w : W) → fs.is_directory q w ≡ true → fs.is_directory q (next w).1 ≡ true)
      → fs.is_directory q (onward fs r next).1 ≡ true
  onward-keeps q (true, w) next h keep = keep w h
  onward-keeps q (false, w) next h keep = h

  make_each-keeps :
      (before q : List ℕ) (component : Bool) (rest : List ℕ) (w : W)
      → fs.is_directory q w ≡ true
      → fs.is_directory q (make_each fs before component rest w).1 ≡ true
  unfolding make_each
  make_each-keeps before q true [] w h = made_or_there-keeps before q w h
  make_each-keeps before q false [] w h = h
  make_each-keeps before q component (c ∷ cs) w h = elim (Bool-cases (c == 47)) [
    | inl e ↦ rw e (
        onward-keeps q (made_or_there fs before (fs.mkdir before w)) _
          (made_or_there-keeps before q w h) (make_each-keeps (before ++ (c ∷ [])) q false cs))
    | inr e ↦ rw e (make_each-keeps (before ++ (c ∷ [])) q true cs w h)
  ]

  onward-true :
      (r : Bool × W) (next : W → Bool × W)
      → (onward fs r next).0 ≡ true
      → (r.0 ≡ true) × (onward fs r next ≡ next r.1)
  onward-true (true, w) next h = (refl, refl)
  onward-true (false, w) next h = cc

  -- Every directory of the rest of a path, below what stands before it.
  pub record Made (before : List ℕ) (component : Bool) (rest : List ℕ) (w : W) : Type 0 where
    pub parents : (a b : List ℕ) → rest ≡ a ++ (47 ∷ b) → fs.is_directory (before ++ a) w ≡ true
    pub whole : ends_named component rest ≡ true → fs.is_directory (before ++ rest) w ≡ true

  -- One more character before the rest.
  shift :
      (before : List ℕ) (c : ℕ) (cs : List ℕ) (w : W)
      → (c ≡ 47 → fs.is_directory before w ≡ true)
      → (component : Bool) → (next : Bool) → next ≡ not (c == 47)
      → Made (before ++ (c ∷ [])) next cs w
      → Made before component (c ∷ cs) w
  unfolding head_or tail_or
  shift before c cs w at_slash component next e below = record {
    parents = above;
    whole = λ h.
        ap (λ q. fs.is_directory q w) (sym (append_assoc before (c ∷ []) cs))
        ∙ below.whole (ap (λ b. ends_named b cs) e ∙ h);
  }
    where
      above : (a b : List ℕ) → c ∷ cs ≡ a ++ (47 ∷ b) → fs.is_directory (before ++ a) w ≡ true
      above [] b h =
          let first : c ≡ 47 = ap (λ t. head_or t) h in
          ap (λ q. fs.is_directory q w) (append-nil before) ∙ at_slash first
      above (x ∷ a) b h =
          let first : c ≡ x = ap (λ t. head_or t) h in
          let rest : cs ≡ a ++ (47 ∷ b) = ap tail_or h in
          ap (λ y. fs.is_directory (before ++ (y ∷ a)) w) (sym first)
          ∙ ap (λ q. fs.is_directory q w) (sym (append_assoc before (c ∷ []) a))
          ∙ below.parents a b rest

  -- The step at a slash.
  after_slash :
      (before : List ℕ) (component : Bool) (c : ℕ) (cs : List ℕ)
      → c == 47 ≡ true
      → (w : W)
      → (onward fs
          (made_or_there fs before (fs.mkdir before w))
          (make_each fs (before ++ (c ∷ [])) false cs)).0
        ≡ true
      → ((w : W)
          → (make_each fs (before ++ (c ∷ [])) false cs w).0 ≡ true
          → Made (before ++ (c ∷ [])) false cs (make_each fs (before ++ (c ∷ [])) false cs w).1)
      → Made before component
          (c ∷ cs)
          (onward fs
            (made_or_there fs before (fs.mkdir before w))
            (make_each fs (before ++ (c ∷ [])) false cs)).1
  after_slash before component c cs e w h onto =
      let next = make_each fs (before ++ (c ∷ [])) false cs in
      let here = made_or_there fs before (fs.mkdir before w) in
      let (first, same) = onward-true here next h in
      rw same (
        shift before c cs (next here.1).1
          (λ f.
            make_each-keeps (before ++ (c ∷ [])) before false cs here.1
              (made_or_there_lem before w first))
          component false (rw e) (onto here.1 (rw same at h)))

  make_each-Made :
      (before : List ℕ) (component : Bool) (rest : List ℕ) (w : W)
      → (make_each fs before component rest w).0 ≡ true
      → Made before component rest (make_each fs before component rest w).1
  unfolding make_each
  make_each-Made before true [] w h = record {
    parents = λ a b e. absurd_nil a b e;
    whole = λ g.
        ap (λ q. fs.is_directory q (make_each fs before true [] w).1) (append-nil before)
        ∙ made_or_there_lem before w h;
  }
  make_each-Made before false [] w h = record {
    parents = λ a b e. absurd_nil a b e;
    whole = λ g. cc;
  }
  make_each-Made before component (c ∷ cs) w h = elim (Bool-cases (c == 47)) [
    | inl e ↦ rw e (
        after_slash before component c cs e w (rw e at h)
          (λ w' g. make_each-Made (before ++ (c ∷ [])) false cs w' g))
    | inr e ↦ rw e (
        shift before c cs _ (λ f. ground (arith, e)) component true (rw e)
          (make_each-Made (before ++ (c ∷ [])) true cs w (rw e at h)))
  ]

  make_path-Made :
      (path : List ℕ) (w : W)
      → (make_path fs path w).0 ≡ true
      → ((a b : List ℕ) (c : ℕ)
          → path ≡ c ∷ a ++ (47 ∷ b)
          → fs.is_directory (c ∷ a) (make_path fs path w).1 ≡ true)
        × (ends_named false path ≡ true → fs.is_directory path (make_path fs path w).1 ≡ true)
  unfolding make_path head_or tail_or
  make_path-Made [] w h = (λ a b c e. cc e, λ g. cc)
  make_path-Made (c ∷ cs) w h = elim (Bool-cases (c == 47)) [
    | inl e ↦ rw e (
        let all = make_each-Made (c ∷ []) false cs w (rw e at h) in
        (
          λ a b x f.
              ap (λ y. fs.is_directory (y ∷ a) (make_each fs (c ∷ []) false cs w).1)
                (sym (ap head_or f))
              ∙ all.parents a b (ap tail_or f),
          all.whole,
        ))
    | inr e ↦ rw e (
        let all = make_each-Made [] false (c ∷ cs) w (rw e at h) in
        (λ a b x f. all.parents (x ∷ a) b f, λ g. all.whole (rw e g)))
  ]

  -- Where `mkdir` makes a directory when it answers so and removes none, after a success of
  -- `ember_package_create_directory_recursive` each part of the path before a slash that is not its
  -- first character is a directory, and so is the path where it does not end in a slash.
  pub create_directory-made :
      (path : List ℕ) (w : W)
      → (ember_package_create_directory_recursive fs path w).0 ≡ true
      → ((a b : List ℕ) (c : ℕ)
          → path ≡ c ∷ a ++ (47 ∷ b)
          → fs.is_directory (c ∷ a) (ember_package_create_directory_recursive fs path w).1 ≡ true)
        × (ends_named false path ≡ true
            → fs.is_directory path (ember_package_create_directory_recursive fs path w).1 ≡ true)
  unfolding ember_package_create_directory_recursive
  create_directory-made path w h =
      elim (Bool-cases (
        length path == 0
        || has_two_dots path
        || has_shell_character path
        || leb 512 (length path))) [
          | inl e ↦ cc (rw e at h)
          | inr e ↦ rw e (make_path-Made path w (rw e at h))
        ]
