-- ===== src/Gyp/Variables/Precedence.antt =====
-- Which value a variable gets from `LoadVariablesFromVariablesDict` of src/tools/pylib_dbg/input.py.
use dcfpe.Common.{
  ◌≡◌, ℕ, refl, sym, ◌∙◌, ap, inl, inr, Bool, true, false, Option, none, some, [], ◌∷◌, ◌++◌, ◌==◌,
  ==_iff, if◌then◌else◌, Text, codes, text_Eq, text_eq_iff, ◌=?◌, =?_refl, =?_eq, =?_ne, get_last?,
  get_last?-snoc, drop_last, drop_last-snoc, contains, Nodup, Dict, lookup, lookup-insert, has_key,
  insert, keys, contains-keys, has_key-lookup, lookup_no_key, Bool-cases, Option-cases, arith,
}
use dcfpe.Gyp.Value.{Value, dict_at}
use dcfpe.Gyp.Variables.{
  is_variable, default_name, default_value, load_entry, load_each,
  load_variables_from_variables_dict,
}

abbrev pub usable : Option Value → Option Value
usable none = none
usable (some v) = if is_variable v then some v else none

-- What stands under a key, if it can be a variable.
abbrev pub entry_at : Text → Dict Text Value → Option Value
entry_at k d = usable (lookup k d)

abbrev pub percent : Text → Text
percent n = n ++ b'%' ∷ []

-- The first of two.
abbrev pub or_else : Option Value → Option Value → Option Value
or_else (some v) o = some v
or_else none o = o

-- An entry sets the variable of its own name, if that does not end with "%".
abbrev pub unless_default : (name : Option Text) → Option Value → Option Value
unless_default none own = own
unless_default (some name) own = none

abbrev pub default_of : Bool → Dict Text Value → Text → Option Value → Option Value
default_of in_variables the_dict n none = none
default_of in_variables the_dict n (some v) = some (default_value in_variables the_dict n v)

-- The value of the variable `n`: its own entry's, else the one that is set, else the default's.
unfoldable pub chosen :
    Bool → Dict Text Value → (n : Text) → (own set default : Option Value) → Option Value
chosen in_variables the_dict n own set default =
    or_else (unless_default (default_name n) own)
      (or_else set (default_of in_variables the_dict n default))

drop_last-get_last? : (k : Text) (c : ℕ) → get_last? k ≡ some c → drop_last k ++ c ∷ [] ≡ k
unfolding get_last? drop_last
drop_last-get_last? [] c h = absurd (ground arith)
drop_last-get_last? (d ∷ []) c h = let e : d ≡ c = cc in rw e refl
drop_last-get_last? (d ∷ e ∷ k) c h = ap (λ l. d ∷ l) (drop_last-get_last? (e ∷ k) c h)

default_name-percent : (n : Text) → default_name (percent n) ≡ some n
unfolding default_name
default_name-percent n = rw (get_last?-snoc n b'%', drop_last-snoc n b'%', default_name) refl

default_name-some : (k n : Text) → default_name k ≡ some n → k ≡ percent n
unfolding default_name
default_name-some k n h = elim (Option-cases (get_last? k)) [
  | inl empty ↦ let h' : none ≡ some n = (rw (default_name, empty) at h) in absurd (ground arith)
  | inr (c, last) ↦ elim (Bool-cases (c == b'%')) [
    | inl same ↦
        let h' : some (drop_last k) ≡ some n = (rw (default_name, last, same) at h) in
        let e : drop_last k ≡ n = cc in
        sym (drop_last-get_last? k c last) ∙ rw ((==_iff c b'%').0 same, e) refl
    | inr other ↦
        let h' : none ≡ some n = (rw (default_name, last, other) at h) in absurd (ground arith)
  ]
]

module _ (q : Text) (k : Text) (v : Value) (rest : Dict Text Value) where
  entry_at_other : (q =? k) ≡ false → entry_at q ((k, v) ∷ rest) ≡ entry_at q rest
  unfolding lookup
  entry_at_other h = rw (lookup, h) refl

  entry_at_self : (q =? k) ≡ true → is_variable v ≡ true → entry_at q ((k, v) ∷ rest) ≡ some v
  unfolding lookup
  entry_at_self same h = rw (lookup, same, h) refl

  entry_at_missing : (q =? k) ≡ true → contains k (keys rest) ≡ false → entry_at q rest ≡ none
  entry_at_missing same fresh =
      rw (=?_eq q k same, lookup_no_key k rest (sym (contains-keys k rest) ∙ fresh)) refl

  -- An entry that cannot be a variable might as well not be there.
  entry_at_skip :
      contains k (keys rest) ≡ false
      → is_variable v ≡ false
      → entry_at q ((k, v) ∷ rest) ≡ entry_at q rest
  unfolding lookup
  entry_at_skip fresh h = elim (Bool-cases (q =? k)) [
    | inl same ↦ rw (entry_at_missing same fresh) (rw (lookup, same, h) refl)
    | inr other ↦ entry_at_other other
  ]

or_else_nothing :
    (name : Option Text) (set : Option Value)
    → set ≡ or_else (unless_default name none) (or_else set none)
or_else_nothing none none = refl
or_else_nothing none (some v) = refl
or_else_nothing (some m) none = refl
or_else_nothing (some m) (some v) = refl

-- A name is not the name of its default.
percent_plain : (n k : Text) → default_name k ≡ none → (percent n =? k) ≡ false
percent_plain n k plain = =?_ne (percent n) k (λ e.
    let h : some n ≡ none = sym (default_name-percent n) ∙ ap default_name e ∙ plain in
    absurd (ground arith))

percent_ne : (n m k : Text) → default_name k ≡ some m → (n =? m) ≡ false → (percent n =? k) ≡ false
percent_ne n m k named other = =?_ne (percent n) k (λ e.
    let h : some n ≡ some m = sym (default_name-percent n) ∙ ap default_name e ∙ named in
    let same : n ≡ m = cc in absurd (ground (arith, text_eq_iff n m)))

percent_named : (n m k : Text) → default_name k ≡ some m → (n =? m) ≡ true → (percent n =? k) ≡ true
percent_named n m k named same =
    rw (default_name-some k m named, =?_eq n m same) (=?_refl (percent m))

module _ (in_variables : Bool) (the_dict : Dict Text Value) where
  abbrev of_rest : Text → Dict Text Value → Dict Text Value → Option Value
  of_rest n ds vars =
      chosen in_variables the_dict n (entry_at n ds) (lookup n vars) (entry_at (percent n) ds)

  module _ (n k : Text) (v : Value) (rest vars : Dict Text Value)
      (fresh : contains k (keys rest) ≡ false) where
    -- An entry that touches neither.
    step_apart :
        (new : Dict Text Value)
        → lookup n new ≡ lookup n vars
        → entry_at n ((k, v) ∷ rest) ≡ entry_at n rest
        → entry_at (percent n) ((k, v) ∷ rest) ≡ entry_at (percent n) rest
        → of_rest n rest new ≡ of_rest n ((k, v) ∷ rest) vars
    step_apart new same own default = rw (same, own, default) refl

    step_plain :
        is_variable v ≡ true
        → default_name k ≡ none
        → of_rest n rest (insert k v vars) ≡ of_rest n ((k, v) ∷ rest) vars
    unfolding chosen
    step_plain var plain = elim (Bool-cases (n =? k)) [
      | inl same ↦
          let bare : default_name n ≡ none = ap default_name (=?_eq n k same) ∙ plain in
          rw
            (
              bare,
              entry_at_missing n k v rest same fresh,
              entry_at_self n k v rest same var,
              lookup-insert k n v vars,
              same,
            )
            refl
      | inr other ↦
          step_apart (insert k v vars) (rw (lookup-insert k n v vars, other) refl)
            (entry_at_other n k v rest other)
            (entry_at_other (percent n) k v rest (percent_plain n k plain))
    ]

    -- A default's own name ends with "%".
    own_default :
        (m : Text)
        → default_name k ≡ some m
        → unless_default (default_name n) (entry_at n ((k, v) ∷ rest))
          ≡ unless_default (default_name n) (entry_at n rest)
    own_default m named = elim (Bool-cases (n =? k)) [
      | inl same ↦ rw (ap default_name (=?_eq n k same) ∙ named) refl
      | inr other ↦ rw (entry_at_other n k v rest other) refl
    ]

    step_set :
        (m : Text)
        → is_variable v ≡ true
        → default_name k ≡ some m
        → has_key m vars ≡ true
        → of_rest n rest vars ≡ of_rest n ((k, v) ∷ rest) vars
    unfolding chosen
    step_set m var named set = elim (Bool-cases (n =? m)) [
      | inl same ↦
          let (w, found) = has_key-lookup m vars set in
          rw (own_default m named, =?_eq n m same, found) refl
      | inr other ↦
          rw
            (
              own_default m named,
              entry_at_other (percent n) k v rest (percent_ne n m k named other),
            )
            refl
    ]

    step_default :
        (m : Text)
        → is_variable v ≡ true
        → default_name k ≡ some m
        → has_key m vars ≡ false
        → of_rest n rest (insert m (default_value in_variables the_dict m v) vars)
          ≡ of_rest n ((k, v) ∷ rest) vars
    unfolding chosen
    step_default m var named unset = elim (Bool-cases (n =? m)) [
      | inl same ↦
          rw
            (
              own_default m named,
              lookup-insert m n (default_value in_variables the_dict m v) vars,
              same,
              entry_at_self (percent n) k v rest (percent_named n m k named same) var,
              =?_eq n m same,
              lookup_no_key m vars unset,
            )
            refl
      | inr other ↦
          rw
            (
              own_default m named,
              lookup-insert m n (default_value in_variables the_dict m v) vars,
              other,
              entry_at_other (percent n) k v rest (percent_ne n m k named other),
            )
            refl
    ]

    step :
        of_rest n rest (load_entry in_variables the_dict k v vars) ≡ of_rest n ((k, v) ∷ rest) vars
    unfolding load_entry
    step = elim (Bool-cases (is_variable v)) [
      | inr skipped ↦ rw skipped (
          step_apart vars refl (entry_at_skip n k v rest fresh skipped)
            (entry_at_skip (percent n) k v rest fresh skipped))
      | inl var ↦ elim (Option-cases (default_name k)) [
        | inl plain ↦ rw (var, plain) (step_plain var plain)
        | inr (m, named) ↦ elim (Bool-cases (has_key m vars)) [
          | inl set ↦ rw (var, named, set) (step_set m var named set)
          | inr unset ↦ rw (var, named, unset) (step_default m var named unset)
        ]
      ]
    ]

  load_each-chosen :
      (n : Text) (ds vars : Dict Text Value)
      → Nodup (keys ds)
      → lookup n (load_each in_variables the_dict ds vars) ≡ of_rest n ds vars
  unfolding load_each lookup chosen
  load_each-chosen n [] vars distinct = or_else_nothing (default_name n) (lookup n vars)
  load_each-chosen n ((k, v) ∷ rest) vars distinct =
      load_each-chosen n rest (load_entry in_variables the_dict k v vars) distinct.1
      ∙ step n k v rest vars distinct.0

-- What a variable is after the "variables" dict is read, each of whose keys occurs once: the value
-- of the entry with the variable's name, when that does not end with "%" and its value is a
-- number, a string or a list; else what the variable was before; else the default that the entry
-- with the name and a "%" sets; else it is unset. The order of the entries does not matter.
pub load_variables_from_variables_dict-chosen :
    (variables the_dict : Dict Text Value) (in_variables : Bool) (n : Text)
    → Nodup (keys (dict_at (codes "variables") the_dict))
    → lookup n (load_variables_from_variables_dict variables the_dict in_variables)
      ≡ chosen in_variables the_dict n
          (entry_at n (dict_at (codes "variables") the_dict))
          (lookup n variables)
          (entry_at (percent n) (dict_at (codes "variables") the_dict))
unfolding load_variables_from_variables_dict
load_variables_from_variables_dict-chosen variables the_dict in_variables n distinct =
    load_each-chosen in_variables the_dict n (dict_at (codes "variables") the_dict) variables
      distinct
