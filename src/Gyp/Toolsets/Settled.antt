-- ===== src/Gyp/Toolsets/Settled.antt =====
-- The targets that `ProcessToolsetsInDict` of src/tools/pylib_dbg/input.py makes have one toolset each,
-- and are not expanded again.
use dcfpe.Common.{
  ◌&&◌, not, if◌then◌else◌, ◌≡◌, refl, sym, ◌∙◌, ap, subst, inl, inr, Bool, true, List, [], ◌∷◌,
  ◌++◌, map, All, All-append, Text, text_Eq, text_eq, Dict, lookup, lookup-insert,
  lookup-insert_self, has_key-insert, has_key-remove, insert, insert_same, remove, Bool-cases,
  Option-cases, arith,
}
use dcfpe.Common.Results.{raise, ok, ◌>>=◌, >>=-ok, ok_unique}
use dcfpe.Gyp.Value.{
  Value, bool, int, str, dict, list, Items, no_items, put, list_items, to_dict, to_dict-of_dict,
}
use dcfpe.Gyp.Errors.{type_error}
use dcfpe.Gyp.Toolsets.{
  is_in, iterate, expand_other, expand_value, targets_key, conditions_key, toolset_key,
  toolsets_key, toolsets_of, copies, is_settled, expand_target, dict_values, expand_each,
  expand_list, expand_targets,
}

-- A target with its toolset, and without a list of toolsets.
abbrev pub IsSettled : Dict Text Value → Type 0
IsSettled target = is_settled target ≡ true

insert-IsSettled :
    (build : Value) (target : Dict Text Value)
    → IsSettled (insert toolset_key build (remove toolsets_key target))
unfolding text_eq
insert-IsSettled build target = ground (
  arith,
  has_key-insert toolset_key toolset_key build (remove toolsets_key target),
  has_key-insert toolset_key toolsets_key build (remove toolsets_key target),
  has_key-remove toolsets_key toolsets_key target,
)

copies-IsSettled :
    (target : Dict Text Value) (toolsets : List Value)
    → All IsSettled (copies (remove toolsets_key target) toolsets)
unfolding copies
copies-IsSettled target [] = tt
copies-IsSettled target (first ∷ rest) =
    All-append IsSettled (map (λ build. insert toolset_key build (remove toolsets_key target)) rest)
      _ (each rest) (insert-IsSettled first target, tt)
  where
    each :
        (builds : List Value)
        → All IsSettled
            (map (λ build. insert toolset_key build (remove toolsets_key target)) builds)
    each [] = tt
    each (build ∷ builds) = (insert-IsSettled build target, each builds)

module _ (m : Bool) where
  expand_target-IsSettled :
      (target : Dict Text Value) (ts : List (Dict Text Value))
      → expand_target m target ≡ ok ts
      → All IsSettled ts
  unfolding expand_target
  expand_target-IsSettled target ts e = elim (Bool-cases (is_settled target)) [
    | inl settled ↦
        subst (All IsSettled) (ok_unique (ok _) refl (rw (settled, expand_target) at e))
          (settled, tt)
    | inr unsettled ↦
        let (toolsets, _, made) =
          >>=-ok (toolsets_of m target)
            (λ toolsets. ok (copies (remove toolsets_key target) toolsets))
            (rw (unsettled, expand_target) at e) in
        subst (All IsSettled) (ok_unique (ok _) refl made) (copies-IsSettled target toolsets)
  ]

  abbrev AreSettled : List Value → Type 0
  AreSettled = All (λ v. expand_value m v ≡ ok (v ∷ []))

  dict_values-AreSettled :
      (ts : List (Dict Text Value)) → All IsSettled ts → AreSettled (dict_values ts)
  unfolding expand_value expand_target
  dict_values-AreSettled [] h = tt
  dict_values-AreSettled (t ∷ ts) (settled, h) =
      (rw (to_dict-of_dict t, settled) refl, dict_values-AreSettled ts h)

  expand_other_same : (v : Value) (out : List Value) → expand_other v ≡ ok out → v ∷ [] ≡ out
  unfolding expand_other
  expand_other_same v out e =
      let (toolset, _, later) =
        >>=-ok (is_in toolset_key v)
          (λ toolset. is_in toolsets_key v >>= λ toolsets.
            if toolset && not toolsets then ok (v ∷ []) else raise (type_error targets_key))
          e in
      let (toolsets, _, last) =
        >>=-ok (is_in toolsets_key v)
          (λ toolsets.
            if toolset && not toolsets then ok (v ∷ []) else raise (type_error targets_key))
          later in
      elim (Bool-cases (toolset && not toolsets)) [
        | inl settled ↦ ok_unique (ok _) refl (rw settled at last)
        | inr unsettled ↦
            let last' : raise (type_error targets_key) ≡ ok out = (rw unsettled at last) in
            absurd (ground arith)
      ]

  other-AreSettled :
      (v : Value) (out : List Value)
      → expand_value m v ≡ expand_other v
      → expand_value m v ≡ ok out
      → AreSettled out
  other-AreSettled v out is_other e =
      let same = expand_other_same v out (sym is_other ∙ e) in
      subst AreSettled same (e ∙ ap ok (sym same), tt)

  expand_value-AreSettled :
      (v : Value) (out : List Value) → expand_value m v ≡ ok out → AreSettled out
  unfolding expand_value
  expand_value-AreSettled (dict fs) out e =
      let (ts, first, last) = >>=-ok (expand_target m (to_dict fs)) (λ ts. ok (dict_values ts)) e in
      subst AreSettled (ok_unique (ok _) refl last)
        (dict_values-AreSettled ts (expand_target-IsSettled (to_dict fs) ts first))
  expand_value-AreSettled (bool b) out e = other-AreSettled (bool b) out refl e
  expand_value-AreSettled (int n) out e = other-AreSettled (int n) out refl e
  expand_value-AreSettled (str s) out e = other-AreSettled (str s) out refl e
  expand_value-AreSettled (list vs) out e = other-AreSettled (list vs) out refl e

  expand_each-AreSettled :
      (vs : Items) (out : List Value) → expand_each m vs ≡ ok out → AreSettled out
  unfolding expand_each
  expand_each-AreSettled no_items out e = subst AreSettled (ok_unique (ok _) refl e) tt
  expand_each-AreSettled (put v vs) out e =
      let (ts, first, later) =
        >>=-ok (expand_value m v) (λ ts. expand_each m vs >>= λ rest. ok (ts ++ rest)) e in
      let (rest, more, made) = >>=-ok (expand_each m vs) (λ rest. ok (ts ++ rest)) later in
      subst AreSettled (ok_unique (ok _) refl made) (
        All-append _ ts rest (expand_value-AreSettled v ts first)
          (expand_each-AreSettled vs rest more))

  expand_each-again : (vs : List Value) → AreSettled vs → expand_each m (list_items vs) ≡ ok vs
  unfolding expand_each
  expand_each-again [] h = refl
  expand_each-again (v ∷ vs) (settled, h) = rw (settled, expand_each-again vs h) refl

  expand_list-AreSettled :
      (v : Value) (out : List Value) → expand_list m v ≡ ok out → AreSettled out
  unfolding expand_list
  expand_list-AreSettled v out e =
      let (vs, _, rest) = >>=-ok (iterate v) (expand_each m) e in expand_each-AreSettled vs out rest

  -- After the expansion the targets stay, whatever else changes in the dict.
  pub record Expanded (d out : Dict Text Value) : Type 0 where
    pub again :
        (other : Dict Text Value)
        → lookup targets_key other ≡ lookup targets_key out
        → expand_targets m other ≡ ok other
    pub conditions : lookup conditions_key out ≡ lookup conditions_key d

  pub expand_targets-Expanded :
      (d out : Dict Text Value) → expand_targets m d ≡ ok out → Expanded d out
  unfolding expand_targets expand_list iterate text_eq
  expand_targets-Expanded d out e = elim (Option-cases (lookup targets_key d)) [
    | inl absent ↦
        let same = ok_unique (ok _) refl (rw (absent, expand_targets) at e) in
        record {
          again = λ other h.
              rw (h ∙ (ap (lookup targets_key) (sym same) ∙ absent), expand_targets) refl;
          conditions = ap (lookup conditions_key) (sym same);
        }
    | inr (v, there) ↦
        let (ts, made, last) =
          >>=-ok (expand_list m v) (λ ts. ok (insert targets_key (list (list_items ts)) d))
            (rw (there, expand_targets) at e) in
        let same = ok_unique (ok _) refl last in
        let settled = expand_list-AreSettled v ts made in
        record {
          again = λ other h.
              let now =
                h
                ∙ (ap (lookup targets_key) (sym same)
                    ∙ lookup-insert_self targets_key (list (list_items ts)) d) in
              rw (now, expand_targets, expand_each-again ts settled)
                (ap ok (insert_same targets_key _ other now));
          conditions =
              ap (lookup conditions_key) (sym same)
              ∙ lookup-insert targets_key conditions_key (list (list_items ts)) d;
        }
  ]
