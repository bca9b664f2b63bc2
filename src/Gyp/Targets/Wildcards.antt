-- ===== src/Gyp/Targets/Wildcards.antt =====
-- The dependency lists of src/tools/pylib_dbg/input.py after `ExpandWildcardDependencies`.
use dcfpe.Common.{
  contains, nat_eq, ◌≡◌, refl, ap, subst, Bool, true, false, not, ◌&&◌, ◌||◌, List, [], ◌∷◌, ◌++◌,
  All, All-append, if◌then◌else◌, Text, codes, text_eq, text_Eq, Dict, arith,
}
use dcfpe.Common.Results.{ok, raise, ◌>>=◌}
use dcfpe.Gyp.Value.{Value}
use dcfpe.Gyp.Errors.{Gyp, Error, wildcard_in_same_file}
use dcfpe.Gyp.Targets.{
  TargetNames, required, is_suppressed, matching_targets, targets_of, expand_each, star,
}

module _ (names : TargetNames) where
  -- A dependency that names all targets of a file, or all toolsets.
  abbrev pub is_wildcard : Text → Bool
  is_wildcard t =
      text_eq ((names.parse_qualified_target t).1) star
      || text_eq ((names.parse_qualified_target t).2) star

  -- What `ParseQualifiedTarget` can tell apart: the name and toolset hold no colon, and the toolset
  -- is there and holds no "#".
  abbrev pub IsReadable : (name toolset : Text) → Type 0
  IsReadable name toolset =
      (contains b':' name ≡ false)
      × (contains b':' toolset ≡ false)
      × (contains b'#' toolset ≡ false)
      × ¬ (toolset ≡ [])

  -- A target is no wildcard by the names that it has, and they can be told apart.
  abbrev pub IsNamed : Dict Text Value → Type 0
  IsNamed d =
      (name toolset : Text)
      → required (codes "target_name") d ≡ ok name
      → required (codes "toolset") d ≡ ok toolset
      → (text_eq name star ≡ false) × (text_eq toolset star ≡ false) × IsReadable name toolset

  -- All that a call returns is free of wildcards, if it returns.
  abbrev IsPlainResult : Gyp (List Text) → Type 0
  IsPlainResult r = (qs : List Text) → r ≡ ok qs → All (λ q. is_wildcard q ≡ false) qs

  abbrev returned : Gyp (List Text) → List Text
  returned (ok qs) = qs
  returned (raise e) = []

  ok-IsPlainResult : (qs : List Text) → All (λ q. is_wildcard q ≡ false) qs → IsPlainResult (ok qs)
  ok-IsPlainResult qs a rs h = subst (λ l. All (λ q. is_wildcard q ≡ false) l) (ap returned h) a

  raise-IsPlainResult : (e : Error) → IsPlainResult (raise e)
  raise-IsPlainResult e rs h = absurd (ground arith)

  if-IsPlainResult :
      (b : Bool) (x y : Gyp (List Text))
      → (b ≡ true → IsPlainResult x)
      → (b ≡ false → IsPlainResult y)
      → IsPlainResult (if b then x else y)
  if-IsPlainResult true x y p q = p refl
  if-IsPlainResult false x y p q = q refl

  >>=-IsPlainResult :
      {A : Type 0} (m : Gyp A) (f : A → Gyp (List Text))
      → ((a : A) → m ≡ ok a → IsPlainResult (f a))
      → IsPlainResult (m >>= f)
  >>=-IsPlainResult (raise e) f p = raise-IsPlainResult e
  >>=-IsPlainResult (ok a) f p = p a refl

  -- Names that can be told apart are read back from a qualified name.
  abbrev pub IsParsed : Type 0
  IsParsed =
      (file name toolset : Text)
      → IsReadable name toolset
      → names.parse_qualified_target (names.qualified_target file name toolset)
        ≡ (file, name, toolset)

  parsed_plain :
      IsParsed
      → (file name toolset : Text)
      → (text_eq name star ≡ false) × (text_eq toolset star ≡ false) × IsReadable name toolset
      → is_wildcard (names.qualified_target file name toolset) ≡ false
  parsed_plain parses file name toolset p =
      rw (parses file name toolset p.2) (ground (arith, p.0, p.1))

  matching_targets-IsPlainResult :
      IsParsed
      → (file target toolset : Text) (ds : List (Dict Text Value)) → All IsNamed ds
      → IsPlainResult (matching_targets names file target toolset ds)
  unfolding matching_targets
  matching_targets-IsPlainResult parses file target toolset [] n = ok-IsPlainResult [] tt
  matching_targets-IsPlainResult parses file target toolset (d ∷ ds) n =
      let others = matching_targets names file target toolset ds in
      let rest = matching_targets-IsPlainResult parses file target toolset ds n.1 in
      let another_toolset =
        λ (its : Text). not (text_eq toolset star) && not (text_eq toolset its) in
      let named =
        λ (name its : Text). others >>= λ qs. ok (names.qualified_target file name its ∷ qs) in
      let with_name = λ (name : Text). required (codes "toolset") d >>= λ its.
      if another_toolset its then others else named name its in
      let another_name = λ (name : Text). not (text_eq target star) && not (text_eq target name) in
      let of_target = required (codes "target_name") d >>= λ name.
      if another_name name then others else with_name name in
      >>=-IsPlainResult (is_suppressed names d) (λ s. if s then others else of_target)
        (λ s _.
          if-IsPlainResult s others of_target (λ _. rest)
            (λ _.
              >>=-IsPlainResult (required (codes "target_name") d)
                (λ name. if another_name name then others else with_name name)
                (λ name e.
                  if-IsPlainResult (another_name name) others (with_name name) (λ _. rest)
                    (λ _.
                      >>=-IsPlainResult (required (codes "toolset") d)
                        (λ its. if another_toolset its then others else named name its)
                        (λ its e'.
                          if-IsPlainResult (another_toolset its) others (named name its) (λ _. rest)
                            (λ _.
                              >>=-IsPlainResult others
                                (λ qs. ok (names.qualified_target file name its ∷ qs))
                                (λ qs e''.
                                  ok-IsPlainResult (names.qualified_target file name its ∷ qs) (
                                    parsed_plain parses file name its (n.0 name its e e'),
                                    rest qs e'',
                                  ))))))))

  expand_each-IsPlainResult :
      IsParsed
      → (build_files : Dict Text (Dict Text Value))
      → ((file : Text) (ds : List (Dict Text Value))
          → targets_of names file build_files ≡ ok ds
          → All IsNamed ds)
      → (target key : Text) (dependencies : List Text)
      → IsPlainResult (expand_each names build_files target key dependencies)
  unfolding expand_each
  expand_each-IsPlainResult parses build_files named target key [] = ok-IsPlainResult [] tt
  expand_each-IsPlainResult parses build_files named target key (t ∷ ts) =
      let rest = expand_each-IsPlainResult parses build_files named target key ts in
      let parts = names.parse_qualified_target t in
      if-IsPlainResult (not (text_eq parts.1 star) && not (text_eq parts.2 star)) _ _
        (λ plain.
          >>=-IsPlainResult (expand_each names build_files target key ts) _
            (λ qs e. ok-IsPlainResult (t ∷ qs) (ground arith, rest qs e)))
        (λ wild.
          if-IsPlainResult (text_eq parts.0 (names.build_file target)) _ _
            (λ _. raise-IsPlainResult (wildcard_in_same_file key target))
            (λ _. >>=-IsPlainResult (targets_of names parts.0 build_files) _ (λ ds e.
              >>=-IsPlainResult (matching_targets names parts.0 parts.1 parts.2 ds) _
                (λ expanded e'.
                  >>=-IsPlainResult (expand_each names build_files target key ts) _ (λ qs e''.
                    ok-IsPlainResult (expanded ++ qs) (
                      All-append (λ q. is_wildcard q ≡ false) expanded qs
                        (matching_targets-IsPlainResult parses parts.0 parts.1 parts.2 ds
                          (named parts.0 ds e) expanded e')
                        (rest qs e'')))))))

  -- If a name and a toolset without colons, the toolset not empty and without "#", can be read back
  -- from qualified names, and all targets of the build files have such a name and toolset, other than
  -- "*", then a dependency list whose expansion raises nothing comes out of it without
  -- wildcards.
  pub expand_each_plain :
      IsParsed
      → (build_files : Dict Text (Dict Text Value))
      → ((file : Text) (ds : List (Dict Text Value))
          → targets_of names file build_files ≡ ok ds
          → All IsNamed ds)
      → (target key : Text) (dependencies qs : List Text)
      → expand_each names build_files target key dependencies ≡ ok qs
      → All (λ q. is_wildcard q ≡ false) qs
  expand_each_plain parses build_files named target key dependencies qs h =
      expand_each-IsPlainResult parses build_files named target key dependencies qs h
