-- ===== src/Gyp/Graph/Cycles/Files.antt =====
-- The graph of the .gyp files that `VerifyNoGYPFileCircularDependencies` of
-- src/tools/pylib_dbg/input.py links, before its files without dependencies get the root.
use dcfpe.Common.{
  ◌≡◌, refl, ◌∙◌, subst, inl, inr, Bool, true, false, not, ◌&&◌, ◌||◌, List, [], ◌∷◌, map, Text,
  text_Eq, text_eq_iff, ◌=?◌, =?_refl, contains, Dict, has_key, keys, Bool-cases, arith,
}
use dcfpe.Common.Results.{ok, raise, ok_unique, >>=-ok}
use dcfpe.Gyp.Value.{Value, Targets, texts_at}
use dcfpe.Gyp.Errors.{dependency_not_found}
use dcfpe.Gyp.Graph.{Graph, link, dependencies_of, dependencies_key}
use dcfpe.Gyp.Graph.Linking.{dependencies_of-link, has_key-link}
use dcfpe.Gyp.Graph.Cycles.{ref_among, link_file, link_files}
use dcfpe.Gyp.Graph.Cycles.Links.{
  ref_among-snoc, link-IsLinkedUp, FileLinked, keys-link, FileLinked-id, LinkOutcome,
  LinkOutcome-map,
}

module _ (build_file_of : Text → Text) where
  -- The file names a dependency in another file.
  abbrev pub wants : Text → List Text → Text → Text → Bool
  wants file ds m n = (m =? file) && (contains n (map build_file_of ds) && not (n =? file))

  link_file-FileLinked :
      (file : Text) (ds : List Text) (g g' : Graph)
      → has_key file g.nodes ≡ true
      → link_file build_file_of file ds g ≡ ok g'
      → FileLinked (wants file ds) g g'
  unfolding link_file contains
  link_file-FileLinked file [] g g' k e =
      let same : g ≡ g' = ok_unique (ok _) refl e in
      subst (FileLinked (wants file []) g) same (record {
        same_keys = λ j. refl;
        dependencies = λ m n. ground arith;
        linked_up = λ l. l;
        listed = refl;
        known = λ m n h. absurd (ground arith);
      })
  link_file-FileLinked file (d ∷ ds) g g' k e =
      let other = build_file_of d in
      elim (Bool-cases (other =? file)) [
        | inl same ↦
            let r = link_file-FileLinked file ds g g' k (rw (same, link_file) at e) in
            record {
              same_keys = r.same_keys;
              dependencies = λ m n. ground (
                arith,
                r.dependencies m n,
                text_eq_iff other file,
                text_eq_iff n other,
                text_eq_iff n file,
              );
              linked_up = r.linked_up;
              listed = r.listed;
              known = λ m n h.
                  r.known m n (ground (arith, text_eq_iff other file, text_eq_iff n other));
            }
        | inr differ ↦ elim (Bool-cases (has_key other g.nodes)) [
          | inr unknown ↦
              let e' : raise (dependency_not_found other file) ≡ ok g' =
                (rw (differ, unknown, link_file) at e) in
              absurd (ground arith)
          | inl known ↦ elim (Bool-cases (ref_among other (dependencies_of g file))) [
            | inl already ↦
                let r =
                  link_file-FileLinked file ds g g' k
                    (rw (differ, known, already, link_file) at e) in
                record {
                  same_keys = r.same_keys;
                  dependencies = λ m n.
                      ground (arith, r.dependencies m n, text_eq_iff m file, text_eq_iff n other);
                  linked_up = r.linked_up;
                  listed = r.listed;
                  known = λ m n h. ground (arith, r.known m n, text_eq_iff n other, known);
                }
            | inr new ↦
                let r =
                  link_file-FileLinked file ds (link file other g) g'
                    (has_key-link file other g k known file ∙ k)
                    (rw (differ, known, new, link_file) at e) in
                record {
                  same_keys = λ j. r.same_keys j ∙ has_key-link file other g k known j;
                  dependencies = λ m n. ground (
                    arith,
                    r.dependencies m n,
                    dependencies_of-link file other g k known m,
                    ref_among-snoc n other (dependencies_of g m),
                    text_eq_iff n other,
                    text_eq_iff n file,
                    text_eq_iff other file,
                  );
                  linked_up = λ l. r.linked_up (link-IsLinkedUp file other g k known l);
                  listed = r.listed ∙ keys-link file other g;
                  known = λ m n h. ground (
                    arith,
                    r.known m n,
                    text_eq_iff n other,
                    known,
                    has_key-link file other g k known n,
                  );
                }
          ]
        ]
      ]

  link_file-LinkOutcome :
      (file : Text) (ds : List Text) (g : Graph)
      → has_key file g.nodes ≡ true
      → LinkOutcome (wants file ds) g (link_file build_file_of file ds g)
  unfolding link_file contains
  link_file-LinkOutcome file [] g k = inl (g, refl)
  link_file-LinkOutcome file (d ∷ ds) g k =
      let other = build_file_of d in
      elim (Bool-cases (other =? file)) [
        | inl same ↦ rw same (
            LinkOutcome-map g g (λ f e w. ground arith) (λ e. refl)
              (link_file-LinkOutcome file ds g k))
        | inr differ ↦ elim (Bool-cases (has_key other g.nodes)) [
          | inr unknown ↦ inr (
            other,
            file,
            rw (differ, unknown) refl,
            ground (arith, =?_refl file, =?_refl other),
            unknown,
          )
          | inl known ↦ elim (Bool-cases (ref_among other (dependencies_of g file))) [
            | inl already ↦
                rw (differ, known, already)
                  (LinkOutcome-map g g (λ f e w. ground arith) (λ e. refl)
                    (link_file-LinkOutcome file ds g k))
            | inr new ↦
                rw (differ, known, new)
                  (LinkOutcome-map (link file other g) g (λ f e w. ground arith)
                    (λ e. has_key-link file other g k known e)
                    (link_file-LinkOutcome file ds (link file other g)
                      (has_key-link file other g k known file ∙ k)))
          ]
        ]
      ]

  -- Some target of the file `m` depends on one of the other file `n`.
  unfoldable pub file_depends : Targets → Text → Text → Bool
  file_depends [] m n = false
  file_depends ((t, spec) ∷ targets) m n =
      wants (build_file_of t) (texts_at dependencies_key spec) m n || file_depends targets m n

  abbrev pub HasFiles : Targets → Graph → Type 0
  HasFiles targets g =
      (t : Text) → contains t (keys targets) ≡ true → has_key (build_file_of t) g.nodes ≡ true

  HasFiles-tail :
      (t : Text) (spec : Dict Text Value) (targets : Targets) (g g' : Graph)
      → ((j : Text) → has_key j g'.nodes ≡ has_key j g.nodes)
      → HasFiles ((t, spec) ∷ targets) g
      → HasFiles targets g'
  unfolding contains
  HasFiles-tail t spec targets g g' same h u m = same (build_file_of u) ∙ h u (ground arith)

  HasFiles-head :
      (t : Text) (spec : Dict Text Value) (targets : Targets) (g : Graph)
      → HasFiles ((t, spec) ∷ targets) g
      → has_key (build_file_of t) g.nodes ≡ true
  unfolding contains
  HasFiles-head t spec targets g h = h t (ground (arith, =?_refl t))

  pub link_files-FileLinked :
      (targets : Targets) (g g' : Graph)
      → HasFiles targets g
      → link_files build_file_of targets g ≡ ok g'
      → FileLinked (file_depends targets) g g'
  unfolding link_files file_depends
  link_files-FileLinked [] g g' h e =
      let same : g ≡ g' = ok_unique (ok _) refl e in
      subst (FileLinked (λ m n. false) g) same (FileLinked-id g)
  link_files-FileLinked ((t, spec) ∷ targets) g g' h e =
      let (mid, first, rest) =
        >>=-ok (link_file build_file_of (build_file_of t) (texts_at dependencies_key spec) g)
          (link_files build_file_of targets) e in
      let a =
        link_file-FileLinked (build_file_of t) (texts_at dependencies_key spec) g mid
          (HasFiles-head t spec targets g h) first in
      let b =
        link_files-FileLinked targets mid g' (HasFiles-tail t spec targets g mid a.same_keys h)
          rest in
      record {
        same_keys = λ j. b.same_keys j ∙ a.same_keys j;
        dependencies = λ m n. ground (arith, b.dependencies m n, a.dependencies m n);
        linked_up = λ l. b.linked_up (a.linked_up l);
        listed = b.listed ∙ a.listed;
        known = λ m n w. ground (arith, b.known m n, a.known m n, a.same_keys n);
      }

  pub link_files-LinkOutcome :
      (targets : Targets) (g : Graph)
      → HasFiles targets g
      → LinkOutcome (file_depends targets) g (link_files build_file_of targets g)
  unfolding link_files file_depends
  link_files-LinkOutcome [] g h = inl (g, refl)
  link_files-LinkOutcome ((t, spec) ∷ targets) g h =
      let file = build_file_of t in
      let ds = texts_at dependencies_key spec in
      let there = HasFiles-head t spec targets g h in
      elim (link_file-LinkOutcome file ds g there) [
        | inr (d, f, e, w, unknown) ↦ inr (d, f, rw e refl, ground arith, unknown)
        | inl (mid, e) ↦
            let a = link_file-FileLinked file ds g mid there e in
            rw e (
              LinkOutcome-map mid g (λ f d w. ground arith) a.same_keys
                (link_files-LinkOutcome targets mid
                  (HasFiles-tail t spec targets g mid a.same_keys h)))
      ]
