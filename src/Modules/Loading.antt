-- ===== src/Modules/Loading.antt =====
-- What a load leaves in the registry of modules of src/runtime/module_system.c.
use mathlib.Core.Path.{subst}
use ember_core.Common.{
  ℕ, zero, suc, ◌≡◌, refl, sym, ap, ◌∙◌, true, false, Option, none, some, List, ◌==◌, ==_refl,
  codes, if◌then◌else◌, same_text, same_text_refl, after_prefix,
}
use ember_core.Modules.{
  Context, Modules, write_context, find_context, ember_get_module_context,
  ember_detect_circular_dependency, ember_create_module_context, ember_push_module_context,
  ember_pop_module_context, with_next, as_loading, as_loaded, popped, is_readable, load_read,
  marked_loading, marked_loaded, Host, ember_mark_module_loading, ember_mark_module_loaded,
  load_file_module, cached_exports, ember_load_module,
}

-- A state with one context more, at the head of the registry.
pub record Stage (s s' : Modules) (c : Context) (stack : Option ℕ) : Type 0 where
  pub made : s'.made ≡ suc s.made
  pub registry : s'.registry ≡ some s.made
  pub on_stack : s'.stack ≡ stack
  pub here : s'.contexts s.made ≡ c
  pub others : (b : ℕ) → b == s.made ≡ false → s'.contexts b ≡ s.contexts b

abbrev pub fresh : List ℕ → ℕ → Option ℕ → Context
fresh path exports next = record {
  module_path = path;
  exports = exports;
  is_loaded = false;
  is_loading = false;
  next = next;
}

abbrev pub finished : List ℕ → ℕ → Option ℕ → Context
finished path exports next = record (fresh path exports next) { is_loaded = true }

create-Stage :
    (path : List ℕ) (exports : ℕ) (s : Modules)
    → Stage s (ember_create_module_context path exports s) (fresh path exports s.registry) s.stack
unfolding ember_create_module_context
create-Stage path exports s = record {
  made = refl;
  registry = refl;
  on_stack = refl;
  here = rw (==_refl s.made);
  others = λ b h. rw h;
}

module _ {s t : Modules} {c : Context} {st : Option ℕ} (stage : Stage s t c st) where
  write_context-Stage : (d : Context) → Stage s (write_context s.made d t) d st
  write_context-Stage d = record {
    made = stage.made;
    registry = stage.registry;
    on_stack = stage.on_stack;
    here = rw (==_refl s.made);
    others = λ b h. rw h (stage.others b h);
  }

  push-Stage : Stage s (ember_push_module_context s.made t) (with_next st c) (some s.made)
  unfolding ember_push_module_context
  push-Stage =
      let w = write_context-Stage (with_next t.stack (t.contexts s.made)) in
      record {
        made = w.made;
        registry = w.registry;
        on_stack = refl;
        here = w.here ∙ ap (with_next t.stack) stage.here ∙ ap (λ p. with_next p c) stage.on_stack;
        others = w.others;
      }

  get-Stage : (path : List ℕ) → c.module_path ≡ path → ember_get_module_context path t ≡ some s.made
  unfolding ember_get_module_context find_context
  get-Stage path e =
      let found : same_text (t.contexts s.made).module_path path ≡ true =
        ap (λ d. same_text d.module_path path) stage.here
        ∙ ap (λ p. same_text p path) e
        ∙ same_text_refl path in
      rw (stage.made, stage.registry, find_context, found)

  mark_loading-Stage :
      (host : Host) (path : List ℕ)
      → c.module_path ≡ path
      → Stage s (ember_mark_module_loading host path t) (as_loading c) st
  unfolding ember_mark_module_loading
  mark_loading-Stage host path e =
      subst (λ p. Stage s (marked_loading host path p t) (as_loading c) st) (sym (get-Stage path e))
        (subst
          (λ d. Stage s (write_context s.made (as_loading (t.contexts s.made)) t) (as_loading d) st)
          stage.here (write_context-Stage (as_loading (t.contexts s.made))))

  mark_loaded-Stage :
      (path : List ℕ)
      → c.module_path ≡ path
      → Stage s (ember_mark_module_loaded path t) (as_loaded c) st
  unfolding ember_mark_module_loaded
  mark_loaded-Stage path e =
      subst (λ p. Stage s (marked_loaded p t) (as_loaded c) st) (sym (get-Stage path e))
        (subst
          (λ d. Stage s (write_context s.made (as_loaded (t.contexts s.made)) t) (as_loaded d) st)
          stage.here (write_context-Stage (as_loaded (t.contexts s.made))))

pop-Stage :
    {s t : Modules} {c : Context}
    → Stage s t c (some s.made)
    → Stage s (ember_pop_module_context t) (with_next none c) c.next
pop-Stage {s} {t} {c} stage =
    let w = write_context-Stage stage (with_next none (t.contexts s.made)) in
    subst (λ p. Stage s (popped p t) (with_next none c) c.next) (sym stage.on_stack)
      (record {
        made = w.made;
        registry = w.registry;
        on_stack = ap (λ d. d.next) stage.here;
        here = w.here ∙ ap (with_next none) stage.here;
        others = w.others;
      })

-- The context of the file is the whole of the registry.
load_file-Stage :
    (host : Host) (path : List ℕ) (s : Modules)
    → is_readable host path ≡ true
    → ((load_file_module host path s).0 ≡ some (host.new_map s.made))
      × Stage s (load_file_module host path s).1 (finished path (host.new_map s.made) none) s.stack
unfolding load_read
load_file-Stage host path s granted =
    subst
      (λ b.
        ((load_read b host path s).0 ≡ some (host.new_map s.made))
        × Stage s (load_read b host path s).1 (finished path (host.new_map s.made) none) s.stack)
      (sym granted)
      (
        refl,
        pop-Stage (
            mark_loaded-Stage
              (mark_loading-Stage (push-Stage (create-Stage path (host.new_map s.made) s)) host path
                refl)
              path refl),
      )

find_nowhere :
    (contexts : ℕ → Context) (q : List ℕ) (fuel : ℕ) → find_context contexts q fuel none ≡ none
unfolding find_context
find_nowhere contexts q zero = refl
find_nowhere contexts q (suc fuel) = refl

module _ {s t : Modules} {path : List ℕ} {exports : ℕ}
    (stage : Stage s t (finished path exports none) s.stack) where
  only_registry :
      (q : List ℕ) → ember_get_module_context q t ≡ (if same_text path q then some s.made else none)
  unfolding ember_get_module_context find_context
  only_registry q =
      rw (stage.made, stage.registry, find_context, stage.here, find_nowhere t.contexts q s.made)

  cached_again : cached_exports (ember_get_module_context path t) t ≡ some exports
  unfolding cached_exports
  cached_again =
      ap (λ p. cached_exports p t) (only_registry path)
      ∙ rw (same_text_refl path, cached_exports, stage.here)

load_cached :
    (host : Host) (init_core : List ℕ → Option ℕ) (path : List ℕ) (t : Modules) {exports : ℕ}
    → ember_detect_circular_dependency path t ≡ false
    → cached_exports (ember_get_module_context path t) t ≡ some exports
    → ember_load_module host init_core path t ≡ (some exports, t)
unfolding ember_load_module
load_cached host init_core path t apart cached = rw (apart, cached)

-- A file is loaded: the path is not being loaded, not loaded yet and not that of a core module.
pub record IsFresh (host : Host) (path : List ℕ) (s : Modules) : Type 0 where
  pub apart : ember_detect_circular_dependency path s ≡ false
  pub missing : cached_exports (ember_get_module_context path s) s ≡ none
  pub on_disk : after_prefix (codes "core:") path ≡ none
  pub readable : is_readable host path ≡ true

module _ (host : Host) (init_core : List ℕ → Option ℕ) (path : List ℕ) (s : Modules)
    (fresh_path : IsFresh host path s) where
  load_module_file : ember_load_module host init_core path s ≡ load_file_module host path s
  unfolding ember_load_module
  load_module_file = rw (fresh_path.apart, fresh_path.missing, fresh_path.on_disk)

  -- When `ember_load_module` loads a file, a module is in the registry afterwards only where it has
  -- the path loaded: every module that was loaded before is lost from it.
  pub load_module-registry :
      (q : List ℕ)
      → ember_get_module_context q (ember_load_module host init_core path s).1
        ≡ (if same_text path q then some s.made else none)
  load_module-registry q =
      ap (λ r. ember_get_module_context q r.1) load_module_file
      ∙ only_registry (load_file-Stage host path s fresh_path.readable).1 q

  -- When `ember_load_module` has loaded a file and the path is then not being loaded, a second call
  -- on the path yields the same exports and changes nothing.
  pub load_module_again :
      ember_detect_circular_dependency path (ember_load_module host init_core path s).1 ≡ false
      → ember_load_module host init_core path (ember_load_module host init_core path s).1
        ≡ ember_load_module host init_core path s
  load_module_again apart =
      let r = ember_load_module host init_core path s in
      let (answer, stage) = load_file-Stage host path s fresh_path.readable in
      let cached =
        ap (λ x. cached_exports (ember_get_module_context path x.1) x.1) load_module_file
        ∙ cached_again stage in
      load_cached host init_core path r.1 apart cached
      ∙ ap (λ o. (o, r.1)) (sym (ap (λ x. x.0) load_module_file ∙ answer))
