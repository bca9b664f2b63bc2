-- ===== src/Gyp/Merge/Frame.antt =====
-- What `MergeDicts` of src/tools/pylib_dbg/input.py leaves as it is.
use dcfpe.Common.{
  ◌≡◌, refl, ◌∙◌, subst, inl, inr, Bool, true, false, ◌||◌, none, some, List, [], ◌∷◌,
  if◌then◌else◌, Text, text_eq, text_Eq, get_last?, Nodup, Dict, lookup, has_key, insert, keys,
  lookup-insert, Nodup-insert, Bool-cases, Option-cases, arith,
}
use dcfpe.Common.Results.{ok, raise, ◌>>=◌, >>=-ok, >>-ok, ok_unique}
use dcfpe.Gyp.Value.{
  Value, str, int, bool, list, dict, Items, no_items, Fields, no_fields, field, list_items, to_dict,
  of_dict, to_dict-of_dict,
}
use dcfpe.Gyp.Errors.{Gyp, incompatible_type}
use dcfpe.Gyp.Names.Sections.{is_path_section}
use dcfpe.Gyp.Paths.{PathTools}
use dcfpe.Gyp.Merge.{
  Policy, replace, prepend, unless_present, append_to, policy_of, list_base, lists_incompatible,
  check_policies, fits_plain, fits_dict, fits_list, items_or_empty, fix_text, fix_int, merge_onto,
  merge_list_by, merge_list_with, merge_value, merge_fields, merge_dicts,
}

-- The key that an entry of the merged dict writes to: a list's key goes without its operator.
unfoldable pub written_key : Text → Value → Text
written_key k (list vs) = elim (get_last? k) [ none ↦ k | some ext ↦ list_base (policy_of ext) k ]
written_key k _ = k

-- Some entry of the merged dict writes to the key.
unfoldable pub writes : Text → Dict Text Value → Bool
writes j [] = false
writes j ((k, v) ∷ fro) = text_eq j (written_key k v) || writes j fro

-- A change of one dict to another that touches only the keys of a test.
record Only (touched : Text → Bool) (to out : Dict Text Value) : Type 0 where
  nodup : Nodup (keys to) → Nodup (keys out)
  frame : (j : Text) → touched j ≡ false → lookup j out ≡ lookup j to

abbrev At : Text → Dict Text Value → Dict Text Value → Type 0
At k = Only (λ j. text_eq j k)

At-insert : (k : Text) (v : Value) (to : Dict Text Value) → At k to (insert k v to)
At-insert k v to = record {
  nodup = Nodup-insert k v to;
  frame = λ j other. lookup-insert k j v to ∙ rw other refl;
}

Only-id : (touched : Text → Bool) (to : Dict Text Value) → Only touched to to
Only-id touched to = record { nodup = λ n. n; frame = λ j h. refl }

At-trans : (k : Text) {a b c : Dict Text Value} → At k a b → At k b c → At k a c
At-trans k f s = record {
  nodup = λ n. s.nodup (f.nodup n);
  frame = λ j h. s.frame j h ∙ f.frame j h;
}

-- A computation that ends with an insertion.
At-then :
    {A : Type 0} (k : Text) (first : Gyp A) (value : A → Value) (to out : Dict Text Value)
    → (first >>= λ a. ok (insert k (value a) to)) ≡ ok out
    → At k to out
At-then k first value to out e =
    let (a, _, last) = >>=-ok first (λ a. ok (insert k (value a) to)) e in
    subst (At k to) (ok_unique (ok _) refl last) (At-insert k (value a) to)

module _ (tools : PathTools) (path_sections : List Text) (to_file fro_file : Text) where
  At-plain :
      (k : Text) (to out : Dict Text Value) (fix : Bool → Gyp Value)
      → (is_path_section path_sections k >>= λ is_paths. fix is_paths >>= λ v. ok (insert k v to))
        ≡ ok out
      → At k to out
  At-plain k to out fix e =
      let (is_paths, _, rest) =
        >>=-ok (is_path_section path_sections k)
          (λ is_paths. fix is_paths >>= λ v. ok (insert k v to)) e in
      At-then k (fix is_paths) (λ v. v) to out rest

  merge_onto-At :
      (merge_into : Bool → Bool → List Value → Gyp (List Value)) (append : Bool) (base : Text)
      (old : List Value) (to out : Dict Text Value)
      → merge_onto tools path_sections to_file fro_file merge_into append base old to ≡ ok out
      → At base to out
  unfolding merge_onto
  merge_onto-At merge_into append base old to out e =
      let (is_paths, _, rest) =
        >>=-ok (is_path_section path_sections base)
          (λ is_paths.
            merge_into is_paths append old >>= λ new. ok (insert base (list (list_items new)) to))
          e in
      At-then base (merge_into is_paths append old) (λ new. list (list_items new)) to out rest

  fitting :
      (merge_into : Bool → Bool → List Value → Gyp (List Value)) (append : Bool) (base : Text)
      (to out : Dict Text Value)
      → (if fits_list (lookup base to)
          then merge_onto tools path_sections to_file fro_file merge_into append base
              (items_or_empty (lookup base to))
              to
          else raise (incompatible_type base))
        ≡ ok out
      → At base to out
  fitting merge_into append base to out e = elim (Bool-cases (fits_list (lookup base to))) [
    | inl fits ↦ merge_onto-At merge_into append base _ to out (rw fits at e)
    | inr unfit ↦ absurd (ground arith)
  ]

  merge_list_by-At :
      (merge_into : Bool → Bool → List Value → Gyp (List Value)) (policy : Policy) (base : Text)
      (to out : Dict Text Value)
      → merge_list_by tools path_sections to_file fro_file merge_into policy base to ≡ ok out
      → At base to out
  unfolding merge_list_by
  merge_list_by-At merge_into replace base to out e =
      At-trans base (At-insert base (list no_items) to)
        (merge_onto-At merge_into true base [] _ out e)
  merge_list_by-At merge_into unless_present base to out e = elim (Bool-cases (has_key base to)) [
    | inl there ↦ subst (At base to) (ok_unique (ok _) refl (rw there at e)) (Only-id _ to)
    | inr absent ↦ merge_onto-At merge_into true base [] to out (rw absent at e)
  ]
  merge_list_by-At merge_into prepend base to out e = fitting merge_into false base to out e
  merge_list_by-At merge_into append_to base to out e = fitting merge_into true base to out e

  merge_list_with-At :
      (merge_into : Bool → Bool → List Value → Gyp (List Value)) (fro : Dict Text Value) (k : Text)
      (vs : Items) (to out : Dict Text Value)
      → merge_list_with tools path_sections to_file fro_file merge_into fro k to ≡ ok out
      → At (written_key k (list vs)) to out
  unfolding merge_list_with written_key
  merge_list_with-At merge_into fro k vs to out e = elim (Option-cases (get_last? k)) [
    | inl none_left ↦ absurd (ground arith)
    | inr (ext, last) ↦
        let base = list_base (policy_of ext) k in
        rw (last, written_key)
          (merge_list_by-At merge_into (policy_of ext) base to out (
            >>-ok (check_policies k (lists_incompatible (policy_of ext) base) fro) _
              (rw (last, merge_list_with) at e)))
  ]

  merge_value-At :
      (fro to : Dict Text Value) (k : Text) (v : Value) (out : Dict Text Value)
      → merge_value tools path_sections to_file fro_file fro to k v ≡ ok out
      → At (written_key k v) to out
  unfolding merge_value written_key
  merge_value-At fro to k (str s) out e = elim (Bool-cases (fits_plain (lookup k to))) [
    | inl fits ↦
        At-plain k to out (λ is_paths. fix_text tools path_sections to_file fro_file is_paths s)
          (rw (fits, merge_value) at e)
    | inr unfit ↦ absurd (ground arith)
  ]
  merge_value-At fro to k (int n) out e = elim (Bool-cases (fits_plain (lookup k to))) [
    | inl fits ↦
        At-plain k to out (λ is_paths. fix_int tools path_sections to_file fro_file is_paths n)
          (rw (fits, merge_value) at e)
    | inr unfit ↦ absurd (ground arith)
  ]
  merge_value-At fro to k (bool b) out e = absurd (ground arith)
  merge_value-At fro to k (dict fs) out e = elim (Bool-cases (fits_dict (lookup k to))) [
    | inl fits ↦ At-then k _ (λ d. dict (of_dict d)) to out (rw (fits, merge_value) at e)
    | inr unfit ↦ absurd (ground arith)
  ]
  merge_value-At fro to k (list vs) out e = elim (Bool-cases (fits_list (lookup k to))) [
    | inl fits ↦ merge_list_with-At _ fro k vs to out (rw (fits, merge_value) at e)
    | inr unfit ↦ absurd (ground arith)
  ]

  merge_fields-Only :
      (fro to : Dict Text Value) (fs : Fields) (out : Dict Text Value)
      → merge_fields tools path_sections to_file fro_file fro to fs ≡ ok out
      → Only (λ j. writes j (to_dict fs)) to out
  unfolding merge_fields writes
  merge_fields-Only fro to no_fields out e =
      subst (Only _ to) (ok_unique (ok _) refl e) (Only-id _ to)
  merge_fields-Only fro to (field k v fs) out e =
      let (mid, first, rest) =
        >>=-ok (merge_value tools path_sections to_file fro_file fro to k v)
          (λ to'. merge_fields tools path_sections to_file fro_file fro to' fs) e in
      let a = merge_value-At fro to k v mid first in
      let b = merge_fields-Only fro mid fs out rest in
      record {
        nodup = λ n. b.nodup (a.nodup n);
        frame = λ j h. b.frame j (ground arith) ∙ a.frame j (ground arith);
      }

  -- If `MergeDicts` raises nothing, the keys of the dict that it changes stay distinct, and every key
  -- keeps its value, or stays missing, unless an entry of the other dict writes to it: one under the
  -- key itself or, for a list, under the key with an operator.
  pub merge_dicts-frame :
      (to fro out : Dict Text Value)
      → merge_dicts tools path_sections to_file fro_file to fro ≡ ok out
      → (Nodup (keys to) → Nodup (keys out))
        × ((j : Text) → writes j fro ≡ false → lookup j out ≡ lookup j to)
  unfolding merge_dicts
  merge_dicts-frame to fro out e =
      let o = merge_fields-Only fro to (of_dict fro) out e in
      (o.nodup, λ j h. o.frame j (rw (to_dict-of_dict fro) h))
