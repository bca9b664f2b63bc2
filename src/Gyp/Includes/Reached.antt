-- ===== src/Gyp/Includes/Reached.antt =====
-- `GetIncludedBuildFiles` of src/tools/pylib_dbg/input.py collects the files that are included,
-- directly or indirectly.
use dcfpe.Common.{
  ℕ, zero, suc, ◌+◌, ◌<◌, ◌≡◌, refl, sym, ◌∙◌, ap, subst, inl, inr, ◌⊎◌, ◌↔◌, true, false, Option,
  none, some, List, [], ◌∷◌, ◌++◌, length, length-append, Text, text_Eq, text_eq_iff, ◌=?◌, =?_refl,
  =?_eq, contains, contains-snoc, Nodup, Nodup-snoc, lookup, lookup-has_key, has_key,
  has_key_missing, keys, contains-keys, length-keys, length_le_of_Nodup, Bool-cases, Option-cases,
  arith,
}
use dcfpe.Common.Results.{ok, raise}
use dcfpe.Gyp.Errors.{Gyp, key_error}
use dcfpe.Gyp.Includes.{Included, include_each, included_from, get_included_build_files}

-- What the entry of a file says that it includes.
abbrev pub files_of : Option (List Text) → List Text
files_of none = []
files_of (some files) = files

-- A file, or one that is included in turn.
pub data IsIncluded (aux_data : Included) (root : Text) : Text → Type 0 where
  itself : IsIncluded aux_data root root
  onward :
      {file other : Text}
      → IsIncluded aux_data root file
      → contains other (files_of (lookup file aux_data)) ≡ true
      → IsIncluded aux_data root other

module _ (aux_data : Included) (root : Text) where
  abbrev Room : ℕ → List Text → Type 0
  Room f acc = length aux_data < f + length acc

  abbrev Known : List Text → Type 0
  Known acc = (x : Text) → contains x acc ≡ true → has_key x aux_data ≡ true

  -- What visits of the files `ds` add to the list.
  record Post (ds acc out : List Text) : Type 0 where
    nodup : Nodup out
    known : Known out
    keeps : (x : Text) → contains x acc ≡ true → contains x out ≡ true
    sound :
        (x : Text) → contains x out ≡ true → (contains x acc ≡ true) ⊎ IsIncluded aux_data root x
    covers : (d : Text) → contains d ds ≡ true → contains d out ≡ true
    finished :
        (x d : Text)
        → contains x out ≡ true
        → contains x acc ≡ false
        → contains d (files_of (lookup x aux_data)) ≡ true
        → contains d out ≡ true

  -- A list as above, or the error for an included file without an entry.
  abbrev Outcome : List Text → List Text → Gyp (List Text) → Type 0
  Outcome ds acc result =
      ((out : List Text) × (result ≡ ok out) × Post ds acc out)
      ⊎ ((file : Text) × (result ≡ raise (key_error file))
          × (has_key file aux_data ≡ false)
          × IsIncluded aux_data root file)

  abbrev Visits : (Text → List Text → Gyp (List Text)) → ℕ → Type 0
  Visits visit f =
      (path : Text) (acc : List Text)
      → IsIncluded aux_data root path
      → Nodup acc
      → Known acc
      → Room f acc
      → Outcome (path ∷ []) acc (visit path acc)

  Post-nil : (acc : List Text) → Nodup acc → Known acc → Post [] acc acc
  unfolding contains
  Post-nil acc n k = record {
    nodup = n;
    known = k;
    keeps = λ x m. m;
    sound = λ x m. inl m;
    covers = λ d m. absurd (ground arith);
    finished = λ x d m n. absurd (ground arith);
  }

  Post-seen :
      (path : Text) (acc : List Text)
      → Nodup acc
      → Known acc
      → contains path acc ≡ true
      → Post (path ∷ []) acc acc
  unfolding contains
  Post-seen path acc n k seen = record {
    nodup = n;
    known = k;
    keeps = λ x m. m;
    sound = λ x m. inl m;
    covers = λ d m. ground (arith, text_eq_iff d path);
    finished = λ x d m n. absurd (ground arith);
  }

  Known-snoc :
      (path : Text) (acc : List Text)
      → Known acc
      → has_key path aux_data ≡ true
      → Known (acc ++ path ∷ [])
  Known-snoc path acc k there x m = elim (Bool-cases (x =? path)) [
    | inl same ↦ subst (λ y. has_key y aux_data ≡ true) (sym (=?_eq x path same)) there
    | inr other ↦ k x (ground (arith, contains-snoc x path acc))
  ]

  Post-cons :
      (d : Text) (ds acc mid out : List Text)
      → Post (d ∷ []) acc mid
      → Post ds mid out
      → Post (d ∷ ds) acc out
  unfolding contains
  Post-cons d ds acc mid out q p = record {
    nodup = p.nodup;
    known = p.known;
    keeps = λ x m. p.keeps x (q.keeps x m);
    sound = λ x m. elim (p.sound x m) [ inr r ↦ inr r | inl in_mid ↦ q.sound x in_mid ];
    covers = λ u m. elim (Bool-cases (u =? d)) [
      | inl same ↦ p.keeps u (q.covers u (ground arith))
      | inr other ↦ p.covers u (ground arith)
    ];
    finished = λ x u m n need. elim (Bool-cases (contains x mid)) [
      | inr late ↦ p.finished x u m late need
      | inl in_mid ↦ p.keeps u (q.finished x u in_mid n need)
    ];
  }

  include_each-Outcome :
      (visit : Text → List Text → Gyp (List Text)) (f : ℕ)
      → Visits visit f
      → (ds acc : List Text) → ((d : Text) → contains d ds ≡ true → IsIncluded aux_data root d)
      → Nodup acc
      → Known acc
      → Room f acc
      → Outcome ds acc (include_each visit ds acc)
  unfolding include_each contains
  include_each-Outcome visit f v [] acc r n k room = inl (acc, refl, Post-nil acc n k)
  include_each-Outcome visit f v (d ∷ ds) acc r n k room =
      elim (v d acc (r d (ground (arith, =?_refl d))) n k room) [
        | inr (file, e, missing, reached) ↦ inr (file, rw e refl, missing, reached)
        | inl (mid, e, q) ↦
            let longer = length_le_of_Nodup acc mid n q.keeps in
            elim (include_each-Outcome visit f v ds mid (λ u m. r u (ground arith)) q.nodup q.known
              (omega arith)) [
                | inr (file, e', missing, reached) ↦ inr (file, rw e e', missing, reached)
                | inl (out, e', p) ↦ inl (out, rw e e', Post-cons d ds acc mid out q p)
              ]
      ]

  Post-visit :
      (path : Text) (files acc out : List Text)
      → lookup path aux_data ≡ some files
      → IsIncluded aux_data root path
      → Post files (acc ++ path ∷ []) out
      → Post (path ∷ []) acc out
  unfolding contains
  Post-visit path files acc out found r p = record {
    nodup = p.nodup;
    known = p.known;
    keeps = λ x m. p.keeps x (ground (arith, contains-snoc x path acc));
    sound = λ x m. elim (p.sound x m) [
      | inr s ↦ inr s
      | inl early ↦ elim (Bool-cases (x =? path)) [
        | inl same ↦ inr (subst (IsIncluded aux_data root) (sym (=?_eq x path same)) r)
        | inr other ↦ inl (ground (arith, contains-snoc x path acc))
      ]
    ];
    covers = λ d m. p.keeps d (ground (arith, contains-snoc d path acc));
    finished = λ x d m n need. elim (Bool-cases (x =? path)) [
      | inl same ↦ p.covers d (
          sym (
            ap (λ o. contains d (files_of o))
              (ap (λ y. lookup y aux_data) (=?_eq x path same) ∙ found))
          ∙ need)
      | inr other ↦ p.finished x d m (ground (arith, contains-snoc x path acc)) need
    ];
  }

  included_from-Outcome : (f : ℕ) → Visits (included_from aux_data f) f
  unfolding included_from contains
  included_from-Outcome zero path acc r n k room = absurd (
      omega (
        arith,
        length-keys aux_data,
        length_le_of_Nodup acc (keys aux_data) n (λ x m. contains-keys x aux_data ∙ k x m),
      ))
  included_from-Outcome (suc f) path acc r n k room = elim (Bool-cases (contains path acc)) [
    | inl seen ↦ inl (acc, rw seen refl, Post-seen path acc n k seen)
    | inr new ↦ elim (Option-cases (lookup path aux_data)) [
      | inl missing ↦ inr (path, rw (new, missing) refl, has_key_missing path aux_data missing, r)
      | inr (files, found) ↦
          elim (include_each-Outcome (included_from aux_data f) f (included_from-Outcome f) files
            (acc ++ path ∷ []) (λ d m. onward r (ap (λ o. contains d (files_of o)) found ∙ m))
            (Nodup-snoc acc path n new)
            (Known-snoc path acc k (lookup-has_key path files aux_data found))
            (omega (arith, length-append acc (path ∷ [])))) [
              | inr (file, e, missing, reached) ↦ inr (file, rw (new, found) e, missing, reached)
              | inl (out, e, p) ↦
                  inl (out, rw (new, found) e, Post-visit path files acc out found r p)
            ]
    ]
  ]

  included_all :
      {file : Text} (out : List Text)
      → Post (root ∷ []) [] out
      → IsIncluded aux_data root file
      → contains file out ≡ true
  unfolding contains
  included_all out p itself = p.covers root (ground (arith, =?_refl root))
  included_all out p (onward {file} {other} r h) =
      p.finished file other (included_all out p r) refl h

-- `GetIncludedBuildFiles` ends. It gives each of the files that are included, directly or indirectly,
-- the build file itself among them, once, and no other; or it fails because one of them has no entry.
pub get_included_build_files_outcomes :
    (aux_data : Included) (root : Text)
    → ((out : List Text) × (get_included_build_files aux_data root ≡ ok out)
        × Nodup out
        × ((file : Text) → (contains file out ≡ true) ↔ IsIncluded aux_data root file))
      ⊎ ((file : Text) × (get_included_build_files aux_data root ≡ raise (key_error file))
          × (has_key file aux_data ≡ false)
          × IsIncluded aux_data root file)
unfolding get_included_build_files contains
get_included_build_files_outcomes aux_data root =
    elim (included_from-Outcome aux_data root (length aux_data + 1) root [] itself tt
      (λ x m. absurd (ground arith)) (omega arith)) [
        | inr failure ↦ inr failure
        | inl (out, e, p) ↦ inl (
          out,
          e,
          p.nodup,
          λ file. (
            λ m. elim (p.sound file m) [ inl early ↦ absurd (ground arith) | inr r ↦ r ],
            λ r. included_all aux_data root out p r,
          ),
        )
      ]
