-- ===== src/Samples/Wildcards.antt =====
-- `ExpandWildcardDependencies` of src/tools/pylib_dbg/input.py at concrete targets.
use dcfpe.Common.{
  ℕ, Option, some, Bool, ◌==◌, ==_iff, if◌then◌else◌, nat_eq, contains, contains-append, ◌≡◌, refl,
  ap, ◌∙◌, subst, text_eq_iff, none, List, [], ◌∷◌, ◌++◌, All, Text, codes, text_eq, text_Eq, Dict,
  lookup, has_key, false, Bool-cases, inl, inr, arith,
}
use dcfpe.Common.Results.{ok, raise}
use dcfpe.Gyp.Errors.{Gyp, key_error}
use dcfpe.Gyp.Value.{Value, str, list, put, no_items, dict, field, no_fields, text_at}
use dcfpe.Gyp.Targets.{
  TargetNames, targets_of, expand_each, dicts_at, required, is_suppressed, matching_targets,
}
use dcfpe.Gyp.Targets.Wildcards.{is_wildcard, IsNamed, IsParsed, expand_each_plain}

-- `s.rsplit(c, 1)`, for the character c
unfoldable rsplit : ℕ → Text → Option (Text × Text)
rsplit c [] = none
rsplit c (d ∷ s) = elim (rsplit c s) [
  | some parts ↦ some (d ∷ parts.0, parts.1)
  | none ↦ if d == c then some ([], s) else none
]

-- A file, a colon, a name, and, where there is one, a "#" and a toolset.
unfoldable qualified : Text → Text → Text → Text
qualified f t [] = f ++ b':' ∷ t
qualified f t (c ∷ s) = f ++ b':' ∷ (t ++ b'#' ∷ (c ∷ s))

unfoldable with_toolset : Text → Text → Text × Text × Text
with_toolset f t = elim (rsplit b'#' t) [ some parts ↦ (f, parts.0, parts.1) | none ↦ (f, t, []) ]

unfoldable parsed : Text → Text × Text × Text
parsed q = elim (rsplit b':' q) [
  | some parts ↦ with_toolset parts.0 parts.1
  | none ↦ with_toolset [] q
]

abbrev pair : Text → Text → Option (Text × Text)
pair a b = some (a, b)

rsplit-none : (c : ℕ) (s : Text) → contains c s ≡ false → rsplit c s ≡ none
unfolding rsplit contains
rsplit-none c [] h = refl
rsplit-none c (d ∷ s) h = rw (rsplit-none c s (ground arith)) (if_not (d == c) (ground arith))
  where
    if_not : (b : Bool) → b ≡ false → (if b then pair [] s else none) ≡ none
    if_not b h = rw h refl

rsplit-append : (c : ℕ) (a b : Text) → contains c b ≡ false → rsplit c (a ++ c ∷ b) ≡ pair a b
unfolding rsplit
rsplit-append c [] b h = rw (rsplit-none c b h) (rw ((==_iff c c).1 refl) refl)
rsplit-append c (d ∷ a) b h = rw (rsplit-append c a b h) refl

abbrev as_in_common : TargetNames
as_in_common = record {
  qualified_target = qualified;
  build_file = λ t. [];
  resolve_target = λ f d t. (f, d, t);
  parse_qualified_target = parsed;
  int_of = λ t. none;
}

parsed_by : (q f t : Text) → rsplit b':' q ≡ pair f t → parsed q ≡ with_toolset f t
unfolding parsed
parsed_by q f t h = rw (h, parsed) refl

abbrev three : Text → Text → Text → Text × Text × Text
three f t s = (f, t, s)

with_toolset_by : (f q t s : Text) → rsplit b'#' q ≡ pair t s → with_toolset f q ≡ three f t s
unfolding with_toolset
with_toolset_by f q t s h = rw (h, with_toolset) refl

as_in_common-IsParsed : IsParsed as_in_common
unfolding qualified contains
as_in_common-IsParsed f t [] h = absurd (h.3 refl)
as_in_common-IsParsed f t (c ∷ s) h =
    let outer =
      rsplit-append b':' f (t ++ b'#' ∷ (c ∷ s))
        (contains-append b':' t (b'#' ∷ (c ∷ s)) ∙ ground (arith, h.0, h.1)) in
    let inner = rsplit-append b'#' t (c ∷ s) h.2 in
    parsed_by (f ++ b':' ∷ (t ++ b'#' ∷ (c ∷ s))) f (t ++ b'#' ∷ (c ∷ s)) outer
    ∙ with_toolset_by f (t ++ b'#' ∷ (c ∷ s)) t (c ∷ s) inner

abbrev other_target : Dict Text Value
other_target = (codes "target_name", str (codes "x")) ∷ (codes "toolset", str (codes "h")) ∷ []

abbrev files : Dict Text (Dict Text Value)
files =
    (
      codes "f",
      (
        codes "targets",
        list (
            put
              (dict (
                field (codes "target_name") (str (codes "x"))
                  (field (codes "toolset") (str (codes "h")) no_fields)))
              no_items),
      )
          ∷ [],
    )
    ∷ []

abbrev text_or_empty : Gyp Text → Text
text_or_empty (ok t) = t
text_or_empty (raise e) = []

other_target-IsNamed : IsNamed as_in_common other_target
unfolding required text_at lookup text_eq contains
other_target-IsNamed name toolset e e' = (
  subst (λ t. text_eq t (b'*' ∷ []) ≡ false) (ap text_or_empty e) refl,
  subst (λ t. text_eq t (b'*' ∷ []) ≡ false) (ap text_or_empty e') refl,
  (
    subst (λ t. contains b':' t ≡ false) (ap text_or_empty e) refl,
    subst (λ t. contains b':' t ≡ false) (ap text_or_empty e') refl,
    subst (λ t. contains b'#' t ≡ false) (ap text_or_empty e') refl,
    subst (λ t. ¬ (t ≡ [])) (ap text_or_empty e') (λ h. cc),
  ),
)

abbrev dicts_or_empty : Gyp (List (Dict Text Value)) → List (Dict Text Value)
dicts_or_empty (ok ds) = ds
dicts_or_empty (raise e) = []

files-IsNamed :
    (file : Text) (ds : List (Dict Text Value))
    → targets_of as_in_common file files ≡ ok ds
    → All (IsNamed as_in_common) ds
unfolding targets_of lookup has_key dicts_at text_eq
files-IsNamed file ds h = elim (Bool-cases (text_eq file (codes "f"))) [
  | inl same ↦
      let h' : targets_of as_in_common (codes "f") files ≡ ok ds =
        subst (λ f. targets_of as_in_common f files ≡ ok ds) ((text_eq_iff file (codes "f")).0 same)
          h in
      subst (λ l. All (IsNamed as_in_common) l) (ap dicts_or_empty h') (other_target-IsNamed, tt)
  | inr other ↦
      let h' : raise (key_error file) ≡ ok ds = (rw (other, targets_of, lookup) at h) in
      absurd (ground arith)
]

abbrev expanded : List Text
expanded = qualified (codes "f") (codes "x") (codes "h") ∷ []

run_wildcard :
    expand_each as_in_common files
      (codes "t")
      (codes "dependencies")
      (qualified (codes "f") (b'*' ∷ []) (codes "h") ∷ [])
    ≡ ok expanded
unfolding expand_each qualified parsed with_toolset rsplit matching_targets targets_of lookup
    has_key dicts_at text_eq is_suppressed required text_at
run_wildcard = refl

expand_each_plain_example : All (λ q. is_wildcard as_in_common q ≡ false) expanded
expand_each_plain_example =
    expand_each_plain as_in_common as_in_common-IsParsed files files-IsNamed (codes "t")
      (codes "dependencies") (qualified (codes "f") (b'*' ∷ []) (codes "h") ∷ []) expanded
      run_wildcard
