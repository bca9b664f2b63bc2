-- ===== src/Gyp/Graph/Order.antt =====
-- The order that `FlattenToList` promises, and the invariant of its loop.
use dcfpe.Common.{
  ◌≡◌, refl, sym, ◌∙◌, subst, true, false, ◌||◌, Option, none, some, List, [], ◌∷◌, ◌++◌, map, Text,
  text_Eq, text_eq_iff, =?_refl, contains, Nodup, Dict, lookup, has_key, append-nil, append_assoc,
  arith,
}
use dcfpe.Gyp.Value.{Value, Targets, texts_at}
use dcfpe.Gyp.Graph.{Graph, dependencies_of, all_in, dependencies_key}
use dcfpe.Gyp.Graph.Linking.{wired}
use dcfpe.Gyp.Graph.Wiring.{names_of, depends_on, IsGraphOf, wired_or}

-- All dependencies of `a` are in `flat`.
abbrev pub Settled : Targets → List Text → Text → Type 0
Settled ts flat a = (d : Text) → depends_on ts a d ≡ true → contains d flat ≡ true

-- Each target stands behind all of its dependencies; `seen` stands before the list.
abbrev pub OrderedAfter : Targets → List Text → List Text → Type 0
OrderedAfter ts seen [] = Unit
OrderedAfter ts seen (a ∷ flat) = Settled ts seen a × OrderedAfter ts (seen ++ a ∷ []) flat

pub OrderedAfter-snoc :
    (ts : Targets) (seen flat : List Text) (a : Text)
    → OrderedAfter ts seen flat
    → Settled ts (seen ++ flat) a
    → OrderedAfter ts seen (flat ++ a ∷ [])
OrderedAfter-snoc ts seen [] a o s =
    (λ d h. subst (λ l. contains d l ≡ true) (append-nil seen) (s d h), tt)
OrderedAfter-snoc ts seen (b ∷ flat) a o s = (
  o.0,
  OrderedAfter-snoc ts (seen ++ b ∷ []) flat a o.1
      (λ d h. subst (λ l. contains d l ≡ true) (sym (append_assoc seen (b ∷ []) flat)) (s d h)),
)

all_in-some :
    (flat ds : List Text)
    → all_in flat (map some ds) ≡ true
    → (d : Text) → contains d ds ≡ true
    → contains d flat ≡ true
unfolding all_in contains
all_in-some flat [] h d m = absurd (ground arith)
all_in-some flat (x ∷ ds) h d m =
    ground (arith, text_eq_iff d x, all_in-some flat ds (ground arith) d)

all_in_of_some :
    (flat ds : List Text)
    → ((d : Text) → contains d ds ≡ true → contains d flat ≡ true)
    → all_in flat (map some ds) ≡ true
unfolding all_in contains
all_in_of_some flat [] h = refl
all_in_of_some flat (x ∷ ds) h =
    ground
      (arith, h x (ground (arith, =?_refl x)), all_in_of_some flat ds (λ d m. h d (ground arith)))

wired-map : (ds : List Text) (n : Text) → contains n ds ≡ true → wired ds ≡ map some ds
unfolding contains
wired-map [] n h = absurd (ground arith)
wired-map (d ∷ ds) n h = refl

wired_or-map :
    (o : Option (Dict Text Value)) (n : Text)
    → contains n (names_of o) ≡ true
    → wired_or o [] ≡ map some (names_of o)
wired_or-map none n h = refl
wired_or-map (some spec) n h = wired-map (texts_at dependencies_key spec) n h

module _ (ts : Targets) (g : Graph) (gr : IsGraphOf ts g) where
  -- The test `is_in_degree_zero` of a target that has dependencies.
  pub ready-Settled :
      (flat : List Text) (a n : Text)
      → depends_on ts a n ≡ true
      → all_in flat (dependencies_of g a) ≡ true
      → Settled ts flat a
  ready-Settled flat a n dep r =
      all_in-some flat (names_of (lookup a ts))
        (subst (λ w. all_in flat w ≡ true) (gr.dependencies a ∙ wired_or-map (lookup a ts) n dep) r)

  pub Settled-ready :
      (flat : List Text) (a n : Text)
      → depends_on ts a n ≡ true
      → Settled ts flat a
      → all_in flat (dependencies_of g a) ≡ true
  Settled-ready flat a n dep s =
      subst (λ w. all_in flat w ≡ true) (sym (gr.dependencies a ∙ wired_or-map (lookup a ts) n dep))
        (all_in_of_some flat (names_of (lookup a ts)) s)

  pub record Inv (flat zeros : List Text) : Type 0 where
    pub nodup : Nodup flat
    pub zeros_nodup : Nodup zeros
    pub known : (a : Text) → contains a flat ≡ true → has_key a ts ≡ true
    pub closed : (a : Text) → contains a flat ≡ true → Settled ts flat a
    pub ordered : OrderedAfter ts [] flat
    pub zeros_known : (a : Text) → contains a zeros ≡ true → has_key a ts ≡ true
    pub zeros_fresh : (a : Text) → contains a zeros ≡ true → contains a flat ≡ false
    pub zeros_ready : (a : Text) → contains a zeros ≡ true → Settled ts flat a
    pub complete :
        (a : Text)
        → has_key a ts ≡ true
        → Settled ts flat a
        → (contains a flat || contains a zeros) ≡ true
