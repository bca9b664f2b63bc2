-- ===== src/Gyp/Targets/Lists.antt =====
-- The dependency lists of src/tools/pylib_dbg/input.py after `Unify` and after the pruning of
-- targets of type 'none'.
use dcfpe.Common.{
  ◌≡◌, refl, ap, inl, inr, Bool, true, false, not, ◌&&◌, ◌||◌, none, some, List, [], ◌∷◌,
  if◌then◌else◌, Text, codes, text_eq, text_eq_iff, text_Eq, contains, Nodup, All, lookup, has_key,
  has_key-lookup, Bool-cases, arith,
}
use dcfpe.Common.Results.{ok}
use dcfpe.Gyp.Value.{Targets}
use dcfpe.Gyp.Targets.{unify_from, unify, filter_out, has_flag, unlinked_of}

-- The items that are not in a list, in their order.
unfoldable pub without : List Text → List Text → List Text
without seen [] = []
without seen (t ∷ ts) = let rest = without seen ts in if contains t seen then rest else t ∷ rest

contains-unify_from :
    (x : Text) (seen l : List Text)
    → contains x (unify_from seen l) ≡ (contains x l && not (contains x seen))
unfolding unify_from contains
contains-unify_from x seen [] = refl
contains-unify_from x seen (t ∷ ts) =
    ground
      (arith, contains-unify_from x seen ts, contains-unify_from x (t ∷ seen) ts, text_eq_iff x t)

Nodup-unify_from : (seen l : List Text) → Nodup (unify_from seen l)
unfolding unify_from contains
Nodup-unify_from seen [] = tt
Nodup-unify_from seen (t ∷ ts) = elim (Bool-cases (contains t seen)) [
  | inl h ↦ rw h (Nodup-unify_from seen ts)
  | inr h ↦ rw h (
    ground (arith, contains-unify_from t (t ∷ seen) ts, text_eq_iff t t),
    Nodup-unify_from (t ∷ seen) ts,
  )
]

unify_from-ext :
    (s t l : List Text)
    → ((x : Text) → contains x s ≡ contains x t)
    → unify_from s l ≡ unify_from t l
unfolding unify_from contains
unify_from-ext s t [] h = refl
unify_from-ext s t (y ∷ l) h = elim (Bool-cases (contains y t)) [
  | inl there ↦ rw (h y, there) (unify_from-ext s t l h)
  | inr new ↦
      rw (h y, new)
        (ap (λ m. y ∷ m) (unify_from-ext (y ∷ s) (y ∷ t) l (λ x. ap (λ b. text_eq x y || b) (h x))))
]

unify_from-without :
    (x : Text) (seen l : List Text) → unify_from (x ∷ seen) l ≡ without (x ∷ []) (unify_from seen l)
unfolding unify_from contains without
unify_from-without x seen [] = refl
unify_from-without x seen (t ∷ ts) = elim (Bool-cases (text_eq t x)) [
  | inl same ↦
      let e = (text_eq_iff t x).0 same in
      ground (
        arith,
        unify_from-without x seen ts,
        unify_from-without x (t ∷ seen) ts,
        unify_from-ext (x ∷ t ∷ seen) (x ∷ seen) ts (λ y. ground (arith, ap (λ z. text_eq y z) e)),
      )
  | inr other ↦ ground (
    arith,
    unify_from-without x seen ts,
    unify_from-without x (t ∷ seen) ts,
    unify_from-ext (t ∷ x ∷ seen) (x ∷ t ∷ seen) ts (λ y. ground arith),
  )
]

-- `Unify` leaves no duplicates and keeps the elements of a list; its result starts with the first
-- element, and goes on as for the rest of the list, less that element.
pub unify-Unique :
    (l : List Text)
    → Nodup (unify l)
      × ((x : Text) → contains x (unify l) ≡ contains x l)
      × ((x : Text) → unify (x ∷ l) ≡ x ∷ without (x ∷ []) (unify l))
unfolding unify unify_from contains
unify-Unique l = (
  Nodup-unify_from [] l,
  (λ x. ground (arith, contains-unify_from x [] l)),
  (λ x. ap (λ m. x ∷ m) (unify_from-without x [] l)),
)

contains-filter_out :
    (x item : Text) (l : List Text)
    → contains x (filter_out item l) ≡ (contains x l && not (text_eq x item))
unfolding filter_out contains
contains-filter_out x item [] = refl
contains-filter_out x item (t ∷ ts) =
    ground (
      arith,
      contains-filter_out x item ts,
      text_eq_iff x t,
      text_eq_iff x item,
      text_eq_iff t item,
    )

-- A target that is not to be linked to targets of type 'none'.
unfoldable pub is_link_dependency : Targets → Text → Bool
is_link_dependency targets t = elim (lookup t targets) [
  | none ↦ false
  | some d ↦ has_flag (codes "link_dependency") d
]

-- For names that are all targets, the loop over the dependencies of a target of type 'none' ends
-- without an error, and takes from a list exactly the names it went over that have the
-- link_dependency variable set.
pub unlinked_of-total :
    (targets : Targets) (todo left : List Text)
    → All (λ t. has_key t targets ≡ true) todo
    → (r : List Text) × (unlinked_of targets todo left ≡ ok r)
      × ((x : Text)
          → contains x r
            ≡ (contains x left && not (contains x todo && is_link_dependency targets x)))
unfolding unlinked_of contains is_link_dependency
unlinked_of-total targets [] left known = (left, refl, λ x. ground arith)
unlinked_of-total targets (t ∷ ts) left known =
    let d = has_key-lookup t targets known.0 in
    let flag = has_flag (codes "link_dependency") d.0 in
    let rest = unlinked_of-total targets ts (if flag then filter_out t left else left) known.1 in
    let here : is_link_dependency targets t ≡ flag = rw (d.1, is_link_dependency) refl in
    (
      rest.0,
      rw (d.1, unlinked_of) rest.1,
      λ x. elim (Bool-cases (text_eq x t)) [
        | inl same ↦ ground (
          arith,
          rest.2 x,
          contains-filter_out x t left,
          here,
          ap (is_link_dependency targets) ((text_eq_iff x t).0 same),
        )
        | inr other ↦ ground (arith, rest.2 x, contains-filter_out x t left)
      ],
    )
