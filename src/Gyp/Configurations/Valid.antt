-- ===== src/Gyp/Configurations/Valid.antt =====
-- What `SetUpConfigurations` of src/tools/pylib_dbg/input.py leaves of a target.
use dcfpe.Common.{
  ◌≡◌, refl, subst, ap, ◌∙◌, inl, inr, true, false, some, List, [], ◌∷◌, Text, text_eq, text_eq_iff,
  text_Eq, contains, All, Dict, lookup, insert, keys, lookup-insert_self, Bool-cases, arith,
}
use dcfpe.Common.Results.{ok, ◌>>=◌, >>=-ok}
use dcfpe.Gyp.Value.{Value, dict, of_dict, dict_at}
use dcfpe.Gyp.Errors.{Gyp}
use dcfpe.Gyp.Paths.{PathTools}
use dcfpe.Gyp.Configurations.{
  invalid_configuration_keys, key_base, configurations_key, is_abstract, fields_of, retained,
  check_keys, check_configurations, drop_abstract, with_defaults, merged_configurations, put_back,
  set_up_configurations,
}

-- A configuration is concrete, and none of its keys is invalid.
abbrev pub IsValidConfiguration : Text × Value → Type 0
IsValidConfiguration c =
    (is_abstract (fields_of c.1) ≡ false)
    × All (λ k. contains k invalid_configuration_keys ≡ false) (keys (fields_of c.1))

keys-retained :
    (nck : List Text) (d : Dict Text Value)
    → All (λ k. contains (key_base k) nck ≡ true) (keys (retained nck d))
unfolding retained
keys-retained nck [] = tt
keys-retained nck ((k, v) ∷ d) = elim (Bool-cases (contains (key_base k) nck)) [
  | inl h ↦ rw h (h, keys-retained nck d)
  | inr h ↦ rw h (keys-retained nck d)
]

lookup-retained :
    (nck : List Text) (k : Text) (d : Dict Text Value)
    → contains (key_base k) nck ≡ true
    → lookup k (retained nck d) ≡ lookup k d
unfolding retained lookup
lookup-retained nck k [] h = refl
lookup-retained nck k ((j, v) ∷ d) h = elim (Bool-cases (text_eq k j)) [
  | inl same ↦ ground (arith, ap (λ t. contains (key_base t) nck) ((text_eq_iff k j).0 same))
  | inr other ↦ ground (arith, lookup-retained nck k d h)
]

check_keys-ok :
    (target configuration : Text) (ks : List Text)
    → check_keys target configuration ks ≡ ok tt
    → All (λ k. contains k invalid_configuration_keys ≡ false) ks
unfolding check_keys
check_keys-ok target configuration [] h = tt
check_keys-ok target configuration (k ∷ ks) h =
    elim (Bool-cases (contains k invalid_configuration_keys)) [
      | inl bad ↦ absurd (ground arith)
      | inr good ↦ (good, check_keys-ok target configuration ks (ground arith))
    ]

check_configurations-ok :
    (target : Text) (configs : Dict Text Value)
    → check_configurations target (drop_abstract configs) ≡ ok tt
    → All IsValidConfiguration (drop_abstract configs)
unfolding check_configurations drop_abstract
check_configurations-ok target [] h = tt
check_configurations-ok target ((name, config) ∷ configs) h =
    elim (Bool-cases (is_abstract (fields_of config))) [
      | inl abstract ↦ rw abstract (check_configurations-ok target configs (rw abstract at h))
      | inr concrete ↦
          let h' : (check_keys target name (keys (fields_of config)) >>= λ _.
          check_configurations target (drop_abstract configs))
              ≡ ok tt =
            (rw concrete at h) in
          let first =
            >>=-ok (check_keys target name (keys (fields_of config)))
              (λ _. check_configurations target (drop_abstract configs)) h' in
          rw concrete (
            (concrete, check_keys-ok target name (keys (fields_of config)) first.1),
            check_configurations-ok target configs first.2,
          )
    ]

-- What `SetUpConfigurations` leaves, if it raises nothing: keys that are kept out of configurations,
-- with or without a suffix, and under "configurations", if that is one of them, configurations that
-- are concrete and hold no invalid key.
pub set_up_configurations-IsValidConfiguration :
    (tools : PathTools) (path_sections : List Text) (build_file : Text → Text) (nck : List Text)
    (target : Text) (d d' : Dict Text Value)
    → contains (key_base configurations_key) nck ≡ true
    → set_up_configurations tools path_sections build_file nck target d ≡ ok d'
    → All (λ k. contains (key_base k) nck ≡ true) (keys d')
      × (left : Dict Text Value) × (lookup configurations_key d' ≡ some (dict (of_dict left)))
      × All IsValidConfiguration left
unfolding set_up_configurations
set_up_configurations-IsValidConfiguration tools path_sections build_file nck target d d' listed h =
    let defaults = >>=-ok (with_defaults d) after_defaults h in
    let e = defaults.0 in
    let merged =
      >>=-ok
        (merged_configurations tools path_sections build_file nck (build_file target) e
          (dict_at configurations_key e) (dict_at configurations_key e))
        (after_merge e) defaults.2 in
    let left = drop_abstract (put_back merged.0 (dict_at configurations_key e)) in
    let whole = insert configurations_key (dict (of_dict left)) e in
    let checked =
      >>=-ok (check_configurations target left) (λ _. ok (retained nck whole)) merged.2 in
    let same : retained nck whole ≡ d' = cc in
    subst
      (λ r.
        All (λ k. contains (key_base k) nck ≡ true) (keys r)
        × (left' : Dict Text Value) × (lookup configurations_key r ≡ some (dict (of_dict left')))
        × All IsValidConfiguration left')
      same
      (
        keys-retained nck whole,
        left,
        lookup-retained nck configurations_key whole listed
            ∙ lookup-insert_self configurations_key (dict (of_dict left)) e,
        check_configurations-ok target (put_back merged.0 (dict_at configurations_key e)) checked.1,
      )
  where
    after_merge : Dict Text Value → Dict Text Value → Gyp (Dict Text Value)
    after_merge e merged =
        let left = drop_abstract (put_back merged (dict_at configurations_key e)) in
        check_configurations target left >>= λ _.
        ok (retained nck (insert configurations_key (dict (of_dict left)) e))

    after_defaults : Dict Text Value → Gyp (Dict Text Value)
    after_defaults e =
        merged_configurations tools path_sections build_file nck (build_file target) e
          (dict_at configurations_key e) (dict_at configurations_key e)
        >>= after_merge e
