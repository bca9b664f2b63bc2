-- ===== src/Gyp/Toolsets/Idempotent.antt =====
-- Toolsets are expanded only once: `ProcessToolsetsInDict` of src/tools/pylib_dbg/input.py changes
-- nothing in what it has made.
use dcfpe.Common.{
  ◌||◌, contains, ◌≡◌, refl, sym, ◌∙◌, ap, subst, inl, inr, Bool, Option, none, some, Text, text_Eq,
  text_eq, ◌=?◌, Dict, lookup, lookup-insert, lookup-insert_self, insert, insert_same, Bool-cases,
  Option-cases, arith,
}
use dcfpe.Common.Results.{raise, ok, ◌>>=◌, >>=-ok, ok_unique}
use dcfpe.Gyp.Value.{
  texts, Value, bool, int, str, dict, list, Fields, no_fields, field, Items, no_items, put, to_dict,
  of_dict, to_dict-of_dict,
}
use dcfpe.Gyp.Errors.{Gyp, Error}
use dcfpe.Gyp.Toolsets.{
  occurs_in, targets_key, conditions_key, expand_targets, set_conditions, process_toolsets_in_dict,
  conditions_of, process_conditions, process_each_condition, process_condition, process_dicts,
}
use dcfpe.Gyp.Toolsets.Settled.{expand_targets-Expanded}

some_value : {v w : Value} → some v ≡ some w → v ≡ w
some_value e = cc

raised_ok : {A : Type 0} {e : Error} {a : A} → raise e ≡ ok a → ⊥
raised_ok h = cc

-- A result that is taken over as it is.
kept : {A : Type 0} (f : A → Gyp A) (v : A) {w : A} → f v ≡ ok v → f v ≡ ok w → f w ≡ ok w
kept f v h e = subst (λ u. f u ≡ ok u) (ok_unique (f v) h e) h

module _ (m : Bool) where
  conditions_of-lookup :
      (fs : Fields)
      → conditions_of m fs ≡ (elim (lookup conditions_key (to_dict fs)) [
        | none ↦ ok none
        | some v ↦ process_conditions m v >>= λ w. ok (some w)
      ])
  unfolding conditions_of lookup
  conditions_of-lookup no_fields = refl
  conditions_of-lookup (field k v fs) = elim (Bool-cases (conditions_key =? k)) [
    | inl here ↦ rw (here, lookup, conditions_of) refl
    | inr other ↦ rw (other, lookup, conditions_of) (conditions_of-lookup fs)
  ]

  conditions_of-none :
      (fs : Fields) → conditions_of m fs ≡ ok none → lookup conditions_key (to_dict fs) ≡ none
  conditions_of-none fs e = elim (Option-cases (lookup conditions_key (to_dict fs))) [
    | inl absent ↦ absent
    | inr (v, there) ↦
        let some_there : (process_conditions m v >>= λ w. ok (some w)) ≡ ok none =
          sym (conditions_of-lookup fs ∙ rw there refl) ∙ e in
        let (w, _, last) = >>=-ok (process_conditions m v) (λ w. ok (some w)) some_there in
        absurd (ground arith)
  ]

  -- A dict whose targets and conditions are done.
  dict_again :
      (fs : Fields) (d : Dict Text Value) (conditions : Option Value)
      → expand_targets m (to_dict fs) ≡ ok d
      → conditions_of m fs ≡ ok conditions
      → ((v : Value) → conditions ≡ some v → process_conditions m v ≡ ok v)
      → process_toolsets_in_dict m (dict (of_dict (set_conditions conditions d)))
        ≡ ok (dict (of_dict (set_conditions conditions d)))
  unfolding process_toolsets_in_dict text_eq
  dict_again fs d none e c h =
      let x = expand_targets-Expanded m (to_dict fs) d e in
      let no_conditions : lookup conditions_key d ≡ none = x.conditions ∙ conditions_of-none fs c in
      rw
        (
          to_dict-of_dict d,
          x.again d refl,
          conditions_of-lookup (of_dict d),
          to_dict-of_dict d,
          no_conditions,
        )
        refl
  dict_again fs d (some v) e c h =
      let x = expand_targets-Expanded m (to_dict fs) d e in
      let after = insert conditions_key v d in
      rw
        (
          to_dict-of_dict after,
          x.again after (lookup-insert conditions_key targets_key v d),
          conditions_of-lookup (of_dict after),
          to_dict-of_dict after,
          lookup-insert_self conditions_key v d,
          h v refl,
        )
        (ap (λ l. ok (dict (of_dict l)))
          (insert_same conditions_key v after (lookup-insert_self conditions_key v d)))

  mutual
    unfolding process_toolsets_in_dict

    process_toolsets_in_dict-again :
        (v w : Value) → process_toolsets_in_dict m v ≡ ok w → process_toolsets_in_dict m w ≡ ok w
    process_toolsets_in_dict-again (dict fs) w e =
        let (d, expanded, later) =
          >>=-ok (expand_targets m (to_dict fs))
            (λ d. conditions_of m fs >>= λ c. ok (dict (of_dict (set_conditions c d)))) e in
        let (c, conditions, last) =
          >>=-ok (conditions_of m fs) (λ c. ok (dict (of_dict (set_conditions c d)))) later in
        let same = ok_unique (ok _) refl last in
        let done =
          dict_again fs d c expanded conditions
            (λ v h. conditions_of-again fs v (conditions ∙ ap ok h)) in
        subst (λ u. process_toolsets_in_dict m u ≡ ok u) same done
    process_toolsets_in_dict-again (bool b) w e = absurd (ground arith)
    process_toolsets_in_dict-again (int n) w e = absurd (ground arith)
    process_toolsets_in_dict-again (str s) w e =
        elim (Bool-cases (occurs_in targets_key s || occurs_in conditions_key s)) [
          | inl named ↦ absurd (raised_ok (rw named at e))
          | inr unnamed ↦ kept (process_toolsets_in_dict m) (str s) (rw unnamed refl) e
        ]
    process_toolsets_in_dict-again (list vs) w e =
        elim (Bool-cases (contains targets_key (texts vs) || contains conditions_key (texts vs))) [
          | inl named ↦ absurd (raised_ok (rw named at e))
          | inr unnamed ↦ kept (process_toolsets_in_dict m) (list vs) (rw unnamed refl) e
        ]

    conditions_of-again :
        (fs : Fields) (v : Value) → conditions_of m fs ≡ ok (some v) → process_conditions m v ≡ ok v
    conditions_of-again no_fields v e = absurd (ground arith)
    conditions_of-again (field k u fs) v e = elim (Bool-cases (conditions_key =? k)) [
      | inl here ↦
          let (w, first, last) =
            >>=-ok (process_conditions m u) (λ w. ok (some w)) (rw (here, conditions_of) at e) in
          let same : w ≡ v = some_value (ok_unique (ok _) refl last) in
          process_conditions-again u v (first ∙ ap ok same)
      | inr other ↦ conditions_of-again fs v (rw (other, conditions_of) at e)
    ]

    process_conditions-again :
        (v w : Value) → process_conditions m v ≡ ok w → process_conditions m w ≡ ok w
    process_conditions-again (list vs) w e =
        let (ws, first, last) = >>=-ok (process_each_condition m vs) (λ ws. ok (list ws)) e in
        subst (λ u. process_conditions m u ≡ ok u) (ok_unique (ok _) refl last)
          (rw (process_each_condition-again vs ws first) refl)
    process_conditions-again (dict fs) w e = kept (process_conditions m) (dict fs) refl e
    process_conditions-again (str s) w e = kept (process_conditions m) (str s) refl e
    process_conditions-again (int n) w e = absurd (ground arith)
    process_conditions-again (bool b) w e = absurd (ground arith)

    process_each_condition-again :
        (vs ws : Items) → process_each_condition m vs ≡ ok ws → process_each_condition m ws ≡ ok ws
    process_each_condition-again no_items ws e = kept (process_each_condition m) no_items refl e
    process_each_condition-again (put v vs) ws e =
        let (w, first, later) =
          >>=-ok (process_condition m v) (λ w. process_each_condition m vs >>= λ us. ok (put w us))
            e in
        let (us, more, last) = >>=-ok (process_each_condition m vs) (λ us. ok (put w us)) later in
        subst (λ u. process_each_condition m u ≡ ok u) (ok_unique (ok _) refl last)
          (rw (process_condition-again v w first, process_each_condition-again vs us more) refl)

    process_condition-again :
        (v w : Value) → process_condition m v ≡ ok w → process_condition m w ≡ ok w
    process_condition-again (list (put expression dicts)) w e =
        let (ds, first, last) =
          >>=-ok (process_dicts m dicts) (λ ds. ok (list (put expression ds))) e in
        subst (λ u. process_condition m u ≡ ok u) (ok_unique (ok _) refl last)
          (rw (process_dicts-again dicts ds first) refl)
    process_condition-again (list no_items) w e = kept (process_condition m) (list no_items) refl e
    process_condition-again (dict fs) w e = kept (process_condition m) (dict fs) refl e
    process_condition-again (str s) w e = kept (process_condition m) (str s) refl e
    process_condition-again (int n) w e = kept (process_condition m) (int n) refl e
    process_condition-again (bool b) w e = kept (process_condition m) (bool b) refl e

    process_dicts-again : (vs ws : Items) → process_dicts m vs ≡ ok ws → process_dicts m ws ≡ ok ws
    process_dicts-again no_items ws e = kept (process_dicts m) no_items refl e
    process_dicts-again (put v vs) ws e =
        let (w, first, later) =
          >>=-ok (process_toolsets_in_dict m v) (λ w. process_dicts m vs >>= λ us. ok (put w us))
            e in
        let (us, more, last) = >>=-ok (process_dicts m vs) (λ us. ok (put w us)) later in
        subst (λ u. process_dicts m u ≡ ok u) (ok_unique (ok _) refl last)
          (rw (process_toolsets_in_dict-again v w first, process_dicts-again vs us more) refl)

-- If `ProcessToolsetsInDict` raises nothing, a second call changes nothing in its result, targets and
-- conditions at any depth included.
pub process_toolsets_in_dict-idempotent :
    (multiple_toolsets : Bool) (before after : Value)
    → process_toolsets_in_dict multiple_toolsets before ≡ ok after
    → process_toolsets_in_dict multiple_toolsets after ≡ ok after
process_toolsets_in_dict-idempotent multiple_toolsets before after e =
    process_toolsets_in_dict-again multiple_toolsets before after e
