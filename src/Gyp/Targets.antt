-- ===== src/Gyp/Targets.antt =====
-- The target dicts of src/tools/pylib_dbg/input.py and the rewriting of their dependency lists:
-- `BuildTargetsDict` to `RemoveLinkDependenciesFromNoneTargets`. The functions of gyp.common that
-- take names apart and Python's `int` of a string are parameters. The code shares the target dicts
-- with the dicts of the build files; what it reads of those again (names, toolsets, the
-- suppress_wildcard key) is nothing that these functions write.
pub mod Lists
pub mod Wildcards
use dcfpe.Common.{
  Bool, true, false, not, ◌&&◌, ◌||◌, Option, none, some, List, [], ◌∷◌, ◌++◌, if◌then◌else◌, Text,
  codes, text_eq, text_Eq, contains, Dict, lookup, has_key, insert,
}
use dcfpe.Common.Results.{ok, raise, ◌>>=◌}
use dcfpe.Gyp.Value.{
  ℤ, Value, str, int, bool, list, dict, Items, no_items, put, to_dict, texts, of_texts, truth,
  texts_at, text_at, truth_at, dict_at, Targets,
}
use dcfpe.Gyp.Errors.{
  Gyp, key_error, value_error, type_error, duplicate_target, not_in_dependencies,
  wildcard_in_same_file,
}

pub record TargetNames : Type 0 where
  pub qualified_target : (file target toolset : Text) → Text
  pub build_file : Text → Text
  pub resolve_target : (file dependency toolset : Text) → Text × Text × Text
  pub parse_qualified_target : Text → Text × Text × Text
  pub int_of : Text → Option ℤ

-- `d[k]`, a string
unfoldable pub required : Text → Dict Text Value → Gyp Text
unfolding text_at
required k d = elim (text_at k d) [ some t ↦ ok t | none ↦ raise (key_error k) ]

abbrev pub dicts : Items → List (Dict Text Value)
dicts no_items = []
dicts (put (dict fs) vs) = to_dict fs ∷ dicts vs
dicts (put _ vs) = dicts vs

-- `d.get(k, [])`, read as a list of dicts
unfoldable pub dicts_at : Text → Dict Text Value → List (Dict Text Value)
dicts_at k d = elim (lookup k d) [ some (list vs) ↦ dicts vs | _ ↦ [] ]

-- What is done to every target dict.
unfoldable pub each_target :
    (Text → Dict Text Value → Gyp (Dict Text Value)) → Targets → Gyp Targets
each_target f [] = ok []
each_target f ((t, d) ∷ ts) = f t d >>= λ d'. each_target f ts >>= λ ts'. ok ((t, d') ∷ ts')

unfoldable pub dependency_sections : List Text
dependency_sections = codes "dependencies" ∷ codes "export_dependent_settings" ∷ []

-- The loop over `dependency_sections`.
unfoldable pub each_section :
    (Text → Dict Text Value → Gyp (Dict Text Value))
    → List Text
    → Dict Text Value
    → Gyp (Dict Text Value)
each_section f [] d = ok d
each_section f (k ∷ ks) d = f k d >>= λ d'. each_section f ks d'

abbrev pub star : Text
star = b'*' ∷ []

module _ (names : TargetNames) where
  unfoldable pub add_target : Text → Dict Text Value → Targets → Gyp Targets
  add_target file target targets = required (codes "target_name") target >>= λ name.
      required (codes "toolset") target >>= λ toolset.
      let target_name = names.qualified_target file name toolset in
      if has_key target_name targets
      then raise (duplicate_target target_name)
      else ok (insert target_name target targets)

  unfoldable pub add_targets : Text → List (Dict Text Value) → Targets → Gyp Targets
  add_targets file [] targets = ok targets
  add_targets file (d ∷ ds) targets = add_target file d targets >>= add_targets file ds

  unfoldable pub add_files : List Text → Dict Text (Dict Text Value) → Targets → Gyp Targets
  add_files [] build_files targets = ok targets
  add_files (f ∷ fs) build_files targets = elim (lookup f build_files) [
    | none ↦ raise (key_error f)
    | some contents ↦
        add_targets f (dicts_at (codes "targets") contents) targets >>= add_files fs build_files
  ]

  unfoldable pub build_targets_dict : List Text → Dict Text (Dict Text Value) → Gyp Targets
  build_targets_dict target_build_files build_files = add_files target_build_files build_files []

  unfoldable pub all_dependency_sections : List Text
  all_dependency_sections =
      codes "dependencies"
      ∷ codes "dependencies!"
      ∷ codes "dependencies/"
      ∷ codes "export_dependent_settings"
      ∷ codes "export_dependent_settings!"
      ∷ codes "export_dependent_settings/"
      ∷ []

  unfoldable pub qualify : (multiple_toolsets : Bool) → (file toolset dependency : Text) → Text
  qualify multiple_toolsets file toolset dependency =
      let r = names.resolve_target file dependency toolset in
      names.qualified_target r.0 r.1 (if multiple_toolsets then r.2 else toolset)

  -- `dependency_key != 'dependencies' and dependency not in target_dict['dependencies']`
  unfoldable pub check_listed : (key target dependency : Text) → Dict Text Value → Gyp (Unit {0})
  check_listed key target dependency d =
      if text_eq key (codes "dependencies")
      then ok tt
      else if not (has_key (codes "dependencies") d)
      then raise (key_error (codes "dependencies"))
      else if contains dependency (texts_at (codes "dependencies") d)
      then ok tt
      else raise (not_in_dependencies dependency key target)

  unfoldable pub qualify_each :
      Bool → (target toolset key : Text) → Dict Text Value → List Text → Gyp (List Text)
  qualify_each multiple target toolset key d [] = ok []
  qualify_each multiple target toolset key d (t ∷ ts) =
      let q = qualify multiple (names.build_file target) toolset t in
      check_listed key target q d >>= λ _.
      qualify_each multiple target toolset key d ts >>= λ qs. ok (q ∷ qs)

  unfoldable pub qualify_section :
      Bool → (target toolset key : Text) → Dict Text Value → Gyp (Dict Text Value)
  qualify_section multiple target toolset key d =
      if has_key key d
      then (qualify_each multiple target toolset key d (texts_at key d) >>= λ qs.
          ok (insert key (list (of_texts qs)) d))
      else ok d

  unfoldable pub qualify_dependencies : Bool → Targets → Gyp Targets
  qualify_dependencies multiple_toolsets targets =
      each_target
        (λ target d. required (codes "toolset") d >>= λ toolset.
          each_section (qualify_section multiple_toolsets target toolset) all_dependency_sections d)
        targets

  -- `int(d.get('suppress_wildcard', False))`, as a truth
  unfoldable pub is_suppressed : Dict Text Value → Gyp Bool
  is_suppressed d = elim (lookup (codes "suppress_wildcard") d) [
    | none ↦ ok false
    | some (str s) ↦ elim (names.int_of s) [
      | none ↦ raise (value_error s)
      | some n ↦ ok (truth (int n))
    ]
    | some (list vs) ↦ raise (type_error (codes "suppress_wildcard"))
    | some (dict fs) ↦ raise (type_error (codes "suppress_wildcard"))
    | some v ↦ ok (truth v)
  ]

  -- The targets of a build file that `file:target#toolset` names.
  unfoldable pub matching_targets :
      (file target toolset : Text) → List (Dict Text Value) → Gyp (List Text)
  matching_targets file target toolset [] = ok []
  matching_targets file target toolset (d ∷ ds) =
      let rest = matching_targets file target toolset ds in
      is_suppressed d >>= λ suppressed.
      if suppressed
      then rest
      else (required (codes "target_name") d >>= λ name.
          if not (text_eq target star) && not (text_eq target name)
          then rest
          else (required (codes "toolset") d >>= λ its_toolset.
              if not (text_eq toolset star) && not (text_eq toolset its_toolset)
              then rest
              else (rest >>= λ qs. ok (names.qualified_target file name its_toolset ∷ qs))))

  -- `data[file]['targets']`
  unfoldable pub targets_of : Text → Dict Text (Dict Text Value) → Gyp (List (Dict Text Value))
  targets_of file build_files = elim (lookup file build_files) [
    | none ↦ raise (key_error file)
    | some contents ↦
        if has_key (codes "targets") contents
        then ok (dicts_at (codes "targets") contents)
        else raise (key_error (codes "targets"))
  ]

  -- The loop over a dependency list: its index passes over the names that replace a wildcard.
  unfoldable pub expand_each :
      Dict Text (Dict Text Value) → (target key : Text) → List Text → Gyp (List Text)
  expand_each build_files target key [] = ok []
  expand_each build_files target key (t ∷ ts) =
      let rest = expand_each build_files target key ts in
      let parts = names.parse_qualified_target t in
      if not (text_eq parts.1 star) && not (text_eq parts.2 star)
      then (rest >>= λ qs. ok (t ∷ qs))
      else if text_eq parts.0 (names.build_file target)
      then raise (wildcard_in_same_file key target)
      else (targets_of parts.0 build_files >>= λ ds.
          matching_targets parts.0 parts.1 parts.2 ds >>= λ expanded.
          rest >>= λ qs. ok (expanded ++ qs))

  unfoldable pub expand_wildcard_dependencies : Targets → Dict Text (Dict Text Value) → Gyp Targets
  expand_wildcard_dependencies targets build_files =
      each_target
        (λ target d. required (codes "toolset") d >>= λ toolset.
          each_section
            (λ key d'.
              if has_key key d'
              then (expand_each build_files target key (texts_at key d') >>= λ qs.
                  ok (insert key (list (of_texts qs)) d'))
              else ok d')
            dependency_sections d)
        targets

-- `Unify`, from the names seen before
unfoldable pub unify_from : (seen : List Text) → List Text → List Text
unify_from seen [] = []
unify_from seen (t ∷ ts) =
    if contains t seen then unify_from seen ts else t ∷ unify_from (t ∷ seen) ts

unfoldable pub unify : List Text → List Text
unify l = unify_from [] l

-- `Filter(l, item)`: items that are equal to `item` go, the others stay.
unfoldable pub filter_out : Text → List Text → List Text
filter_out item [] = []
filter_out item (t ∷ ts) =
    let rest = filter_out item ts in if text_eq t item then rest else t ∷ rest

-- A new value of a dependency list that is there and not empty.
unfoldable pub update_section : (List Text → List Text) → Text → Dict Text Value → Dict Text Value
update_section f key d = elim (texts_at key d) [
  | [] ↦ d
  | t ∷ ts ↦ insert key (list (of_texts (f (t ∷ ts)))) d
]

unfoldable pub update_sections :
    (List Text → List Text) → List Text → Dict Text Value → Dict Text Value
update_sections f [] d = d
update_sections f (k ∷ ks) d = update_sections f ks (update_section f k d)

unfoldable pub remove_duplicate_dependencies : Targets → Targets
remove_duplicate_dependencies [] = []
remove_duplicate_dependencies ((t, d) ∷ ts) =
    (t, update_sections unify dependency_sections d) ∷ remove_duplicate_dependencies ts

-- `targets[t].get('variables', {}).get(flag, 0)`
unfoldable pub has_flag : Text → Dict Text Value → Bool
has_flag flag d = truth_at flag false (dict_at (codes "variables") d)

unfoldable pub remove_self_dependencies : Targets → Targets
remove_self_dependencies [] = []
remove_self_dependencies ((t, d) ∷ ts) =
    let pruned = update_sections (filter_out t) dependency_sections d in
    (t, if has_flag (codes "prune_self_dependency") d then pruned else d)
    ∷ remove_self_dependencies ts

-- The loop over the dependencies of a target of type 'none'; a name that is no target is a KeyError.
unfoldable pub unlinked_of : Targets → (todo left : List Text) → Gyp (List Text)
unlinked_of targets [] left = ok left
unlinked_of targets (t ∷ ts) left = elim (lookup t targets) [
  | none ↦ raise (key_error t)
  | some d ↦
      unlinked_of targets ts
        (if has_flag (codes "link_dependency") d then filter_out t left else left)
]

unfoldable pub remove_link_section : Targets → Text → Dict Text Value → Gyp (Dict Text Value)
remove_link_section targets key d = elim (texts_at key d) [
  | [] ↦ ok d
  | t ∷ ts ↦
      unlinked_of targets (t ∷ ts) (t ∷ ts) >>= λ left. ok (insert key (list (of_texts left)) d)
]

unfoldable pub is_none_target : Dict Text Value → Bool
is_none_target d = elim (text_at (codes "type") d) [
  | some s ↦ text_eq s (codes "none")
  | none ↦ false
]

unfoldable pub remove_link_dependencies_from_none_targets : Targets → Gyp Targets
remove_link_dependencies_from_none_targets targets =
    each_target
      (λ t d.
        if is_none_target d
        then each_section (remove_link_section targets) dependency_sections d
        else ok d)
      targets
