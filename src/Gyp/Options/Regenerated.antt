-- ===== src/Gyp/Options/Regenerated.antt =====
-- What `RegenerateAppendFlag` of src/tools/pylib_dbg/__init__.py gives.
use dcfpe.Common.{
  ◌≡◌, refl, ap, inl, inr, true, not, ◌&&◌, ◌||◌, some, List, [], ◌∷◌, ◌++◌, Text, text_eq,
  text_eq_iff, text_Eq, nat_eq, contains, contains-snoc, Nodup, Nodup-snoc, Bool-cases, arith,
}
use dcfpe.Gyp.Options.{
  format_opt, remove_first, environment_flags, value_flags, regenerate_append_flag,
}

contains-remove_first :
    (x v : Text) (l : List Text)
    → Nodup l
    → contains x (remove_first v l) ≡ (contains x l && not (text_eq x v))
unfolding remove_first contains
contains-remove_first x v [] n = refl
contains-remove_first x v (w ∷ ws) n = elim (Bool-cases (text_eq x w)) [
  | inl same ↦ ground (
    arith,
    contains-remove_first x v ws n.1,
    text_eq_iff v w,
    text_eq_iff x v,
    text_eq_iff x w,
    ap (λ y. contains y ws) ((text_eq_iff x w).0 same),
    n.0,
    text_eq_iff v x,
  )
  | inr other ↦
      ground
        (arith, contains-remove_first x v ws n.1, text_eq_iff v w, text_eq_iff x v, text_eq_iff x w)
]

Nodup-remove_first : (v : Text) (l : List Text) → Nodup l → Nodup (remove_first v l)
unfolding remove_first contains
Nodup-remove_first v [] n = tt
Nodup-remove_first v (w ∷ ws) n = elim (Bool-cases (text_eq v w)) [
  | inl same ↦ rw same n.1
  | inr other ↦
      rw other (ground (arith, contains-remove_first w v ws n.1, n.0), Nodup-remove_first v ws n.1)
]

-- The flags of the environment's values.
abbrev flags : Text → (Text → Text) → List Text → List Text
flags flag predicate = value_flags flag predicate

environment_flags-Nodup :
    (flag : Text) (predicate : Text → Text) (vs acc : List Text)
    → Nodup acc
    → Nodup (environment_flags flag predicate vs acc)
      × ((x : Text)
          → contains x (environment_flags flag predicate vs acc)
            ≡ (contains x acc || contains x (value_flags flag predicate vs)))
unfolding environment_flags value_flags contains
environment_flags-Nodup flag predicate [] acc n = (n, λ x. ground arith)
environment_flags-Nodup flag predicate (v ∷ vs) acc n =
    let value = format_opt flag (predicate v) in
    elim (Bool-cases (contains value acc)) [
      | inl there ↦
          let n' =
            Nodup-snoc (remove_first value acc) value (Nodup-remove_first value acc n)
              (ground (arith, contains-remove_first value value acc n, text_eq_iff value value)) in
          let rest =
            environment_flags-Nodup flag predicate vs (remove_first value acc ++ value ∷ []) n' in
          rw there (
            rest.0,
            λ x. ground (
              arith,
              rest.1 x,
              contains-snoc x value (remove_first value acc),
              contains-remove_first x value acc n,
              text_eq_iff x value,
              there,
            ),
          )
      | inr new ↦
          let rest =
            environment_flags-Nodup flag predicate vs (acc ++ value ∷ [])
              (Nodup-snoc acc value n new) in
          rw new (rest.0, λ x. ground (arith, rest.1 x, contains-snoc x value acc))
    ]

-- Flags are regenerated as those of the environment, each once, followed by those of the command
-- line as they stand there.
pub regenerate_append_flag-environment :
    (flag : Text) (values : List Text) (predicate : Text → Text) (vs : List Text)
    → (first : List Text) × (regenerate_append_flag flag values predicate (some vs) true
        ≡ first ++ value_flags flag predicate values)
      × Nodup first
      × ((x : Text) → contains x first ≡ contains x (value_flags flag predicate vs))
unfolding regenerate_append_flag contains
regenerate_append_flag-environment flag values predicate vs =
    let e = environment_flags-Nodup flag predicate vs [] tt in
    (environment_flags flag predicate vs [], refl, e.0, e.1)
