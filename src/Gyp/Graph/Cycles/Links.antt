-- ===== src/Gyp/Graph/Cycles/Links.antt =====
-- What linking two .gyp files, as `VerifyNoGYPFileCircularDependencies` of
-- src/tools/pylib_dbg/input.py does it, changes in a graph.
use dcfpe.Common.{
  ◌≡◌, refl, sym, ◌∙◌, ap, inl, inr, ◌⊎◌, Bool, true, false, ◌||◌, Option, none, some, List, [],
  ◌∷◌, ◌++◌, Text, text_Eq, ◌=?◌, contains, contains-snoc, Dict, has_key, keys, Bool-cases, arith,
}
use dcfpe.Common.Results.{ok, raise}
use dcfpe.Gyp.Errors.{Gyp, dependency_not_found}
use dcfpe.Gyp.Graph.{Node, Graph, modify, link, dependencies_of, dependents_of}
use dcfpe.Gyp.Graph.Linking.{dependencies_of-link, dependents_of-link}
use dcfpe.Gyp.Graph.Cycles.{ref_among}

-- The root is among the refs.
unfoldable pub has_root : List (Option Text) → Bool
has_root [] = false
has_root (none ∷ refs) = true
has_root (some d ∷ refs) = has_root refs

pub ref_among-snoc :
    (n d : Text) (refs : List (Option Text))
    → ref_among n (refs ++ some d ∷ []) ≡ (ref_among n refs || (n =? d))
unfolding ref_among
ref_among-snoc n d [] = ground arith
ref_among-snoc n d (none ∷ refs) = ref_among-snoc n d refs
ref_among-snoc n d (some e ∷ refs) = ground (arith, ref_among-snoc n d refs)

has_root-snoc :
    (d : Text) (refs : List (Option Text)) → has_root (refs ++ some d ∷ []) ≡ has_root refs
unfolding has_root
has_root-snoc d [] = refl
has_root-snoc d (none ∷ refs) = refl
has_root-snoc d (some e ∷ refs) = has_root-snoc d refs

-- Links in both directions agree, and none goes to the root.
pub record IsLinkedUp (g : Graph) : Type 0 where
  pub no_root : (m : Text) → has_root (dependencies_of g m) ≡ false
  pub both_ways : (m n : Text) → contains m (dependents_of g n) ≡ ref_among n (dependencies_of g m)
  pub rootless : g.root_dependents ≡ []

pub link-IsLinkedUp :
    (t d : Text) (g : Graph)
    → has_key t g.nodes ≡ true
    → has_key d g.nodes ≡ true
    → IsLinkedUp g
    → IsLinkedUp (link t d g)
link-IsLinkedUp t d g kt kd l = record {
  no_root = λ m.
      ap has_root (dependencies_of-link t d g kt kd m)
      ∙ ground (arith, l.no_root m, has_root-snoc d (dependencies_of g m));
  both_ways = λ m n. ground (
    arith,
    l.both_ways m n,
    dependents_of-link t d g kt kd n,
    dependencies_of-link t d g kt kd m,
    contains-snoc m t (dependents_of g n),
    ref_among-snoc n d (dependencies_of g m),
  );
  rootless = unfold link in l.rootless;
}

-- What the links of some dependencies change: the file gets those of them that are other files.
pub record FileLinked (wanted : Text → Text → Bool) (g g' : Graph) : Type 0 where
  pub same_keys : (j : Text) → has_key j g'.nodes ≡ has_key j g.nodes
  pub dependencies :
      (m n : Text)
      → ref_among n (dependencies_of g' m) ≡ (ref_among n (dependencies_of g m) || wanted m n)
  pub linked_up : IsLinkedUp g → IsLinkedUp g'
  pub listed : keys g'.nodes ≡ keys g.nodes
  pub known : (m n : Text) → wanted m n ≡ true → has_key n g.nodes ≡ true

pub keys-modify : (t : Text) (f : Node → Node) (d : Dict Text Node) → keys (modify t f d) ≡ keys d
unfolding modify
keys-modify t f [] = refl
keys-modify t f ((u, n) ∷ d) = elim (Bool-cases (t =? u)) [
  | inl same ↦ rw same refl
  | inr other ↦ rw other (ap (λ l. u ∷ l) (keys-modify t f d))
]

pub keys-link : (t d : Text) (g : Graph) → keys (link t d g).nodes ≡ keys g.nodes
unfolding link
keys-link t d g = keys-modify d _ _ ∙ keys-modify t _ g.nodes

pub FileLinked-id : (g : Graph) → FileLinked (λ m n. false) g g
FileLinked-id g = record {
  same_keys = λ j. refl;
  dependencies = λ m n. ground arith;
  linked_up = λ l. l;
  listed = refl;
  known = λ m n h. absurd (ground arith);
}

-- Linking gives a graph, or fails at a wanted file that has no node.
abbrev pub LinkOutcome : (Text → Text → Bool) → Graph → Gyp Graph → Type 0
LinkOutcome wanted g result =
    ((g' : Graph) × (result ≡ ok g'))
    ⊎ ((d file : Text) × (result ≡ raise (dependency_not_found d file))
        × (wanted file d ≡ true)
        × (has_key d g.nodes ≡ false))

pub LinkOutcome-map :
    {wanted wanted' : Text → Text → Bool} (g g' : Graph) {result : Gyp Graph}
    → ((file d : Text) → wanted file d ≡ true → wanted' file d ≡ true)
    → ((d : Text) → has_key d g.nodes ≡ has_key d g'.nodes)
    → LinkOutcome wanted g result
    → LinkOutcome wanted' g' result
LinkOutcome-map g g' w same (inl done) = inl done
LinkOutcome-map g g' w same (inr (d, file, e, h, unknown)) =
    inr (d, file, e, w file d h, sym (same d) ∙ unknown)
