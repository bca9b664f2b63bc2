-- ===== src/Gyp/Checked/Literal.antt =====
-- `CheckNode` of src/tools/pylib_dbg/input.py takes exactly the literals whose keys are distinct.
use dcfpe.Common.{
  ℕ, suc, ◌≡◌, refl, sym, ◌∙◌, ap, inl, inr, Bool, true, false, not, ◌&&◌, ◌||◌, List, [], ◌∷◌,
  ◌++◌, append-nil, append_assoc, Eq, ◌=?◌, Dict, has_key, has_key-insert, insert, Bool-cases,
  arith,
}
use dcfpe.Common.Results.{ok, raise, ◌>>=◌, >>=-ok}
use dcfpe.Gyp.Checked.{
  constant_key, other_key, Ast, constant_node, list_node, dict_node, other_node, AstItems, no_nodes,
  node, AstEntries, no_entries, entry, Tree, constant, items, entries, Trees, no_trees, tree,
  of_entries, Part, key_part, index_part, repeated_key, check_node, check_items, check_entries,
}

module _ {C : Type 0} ⦃c : Eq C⦄ where
  -- The value that a tree of literals stands for; other nodes and keys have no value of their own.
  unfoldable mutual
    pub literal : Ast C → Tree C
    literal (constant_node k) = constant k
    literal (list_node nodes) = items (literal_items nodes)
    literal (dict_node es) = entries (of_entries (literal_entries es))
    literal other_node = items no_trees

    pub literal_items : AstItems C → Trees C
    literal_items no_nodes = no_trees
    literal_items (node child nodes) = tree (literal child) (literal_items nodes)

    pub literal_entries : AstEntries C → Dict C (Tree C)
    literal_entries no_entries = []
    literal_entries (entry other_key value es) = literal_entries es
    literal_entries (entry (constant_key key) value es) = (key, literal value) ∷ literal_entries es

  unfoldable pub names_key : C → AstEntries C → Bool
  names_key k no_entries = false
  names_key k (entry other_key value es) = names_key k es
  names_key k (entry (constant_key key) value es) = (k =? key) || names_key k es

  -- Literals all through, and in no dict a key twice.
  unfoldable mutual
    pub is_literal : Ast C → Bool
    is_literal (constant_node k) = true
    is_literal (list_node nodes) = are_literal nodes
    is_literal (dict_node es) = is_literal_dict es
    is_literal other_node = false

    pub are_literal : AstItems C → Bool
    are_literal no_nodes = true
    are_literal (node child nodes) = is_literal child && are_literal nodes

    pub is_literal_dict : AstEntries C → Bool
    is_literal_dict no_entries = true
    is_literal_dict (entry other_key value es) = false
    is_literal_dict (entry (constant_key key) value es) =
        not (names_key key es) && (is_literal value && is_literal_dict es)

  abbrev Disjoint : Dict C (Tree C) → AstEntries C → Type 0
  Disjoint d es = (k : C) → has_key k d ≡ true → names_key k es ≡ false

  insert_new :
      (k : C) (v : Tree C) (d : Dict C (Tree C))
      → has_key k d ≡ false
      → insert k v d ≡ d ++ (k, v) ∷ []
  unfolding insert has_key
  insert_new k v [] h = refl
  insert_new k v ((j, w) ∷ d) h = ground (arith, insert_new k v d)

  has_key-snoc :
      (k j : C) (v : Tree C) (d : Dict C (Tree C))
      → has_key k (d ++ (j, v) ∷ []) ≡ (has_key k d || (k =? j))
  unfolding has_key
  has_key-snoc k j v [] = ground arith
  has_key-snoc k j v ((i, w) ∷ d) = ground (arith, has_key-snoc k j v d)

  Disjoint-nil : (es : AstEntries C) → Disjoint [] es
  unfolding has_key
  Disjoint-nil es k m = absurd (ground arith)

  Disjoint-fresh :
      (key : C) (value : Ast C) (es : AstEntries C) (d : Dict C (Tree C))
      → Disjoint d (entry (constant_key key) value es)
      → has_key key d ≡ false
  unfolding names_key
  Disjoint-fresh key value es d disjoint = elim (Bool-cases (has_key key d)) [
    | inr fresh ↦ fresh
    | inl there ↦ absurd (ground (arith, disjoint key there, c.equals_iff key key))
  ]

  Disjoint-snoc :
      (key : C) (value : Ast C) (es : AstEntries C) (d : Dict C (Tree C))
      → names_key key es ≡ false
      → Disjoint d (entry (constant_key key) value es)
      → Disjoint (d ++ (key, literal value) ∷ []) es
  unfolding names_key
  Disjoint-snoc key value es d once disjoint k m = elim (Bool-cases ((k =? key))) [
    | inl same ↦ rw ((c.equals_iff k key).0 same) once
    | inr other ↦ ground (arith, disjoint k, has_key-snoc k key (literal value) d)
  ]

  Disjoint-insert :
      (key : C) (v : Tree C) (value : Ast C) (es : AstEntries C) (d : Dict C (Tree C))
      → has_key key d ≡ false
      → Disjoint (insert key v d) es
      → Disjoint d (entry (constant_key key) value es)
  unfolding names_key
  Disjoint-insert key v value es d fresh disjoint k m =
      ground (arith, disjoint k, has_key-insert key k v d, c.equals_iff k key)

  mutual
    unfolding check_node literal is_literal

    check_node-literal :
        (n : Ast C) (keypath : List (Part C))
        → is_literal n ≡ true
        → check_node n keypath ≡ ok (literal n)
    check_node-literal (constant_node k) keypath h = refl
    check_node-literal (list_node nodes) keypath h = rw (check_items-literal nodes 0 keypath h) refl
    check_node-literal (dict_node es) keypath h =
        rw (check_entries-literal es [] keypath h (Disjoint-nil es)) refl
    check_node-literal other_node keypath h = absurd (ground arith)

    check_items-literal :
        (nodes : AstItems C) (index : ℕ) (keypath : List (Part C))
        → are_literal nodes ≡ true
        → check_items nodes index keypath ≡ ok (literal_items nodes)
    check_items-literal no_nodes index keypath h = refl
    check_items-literal (node child nodes) index keypath h =
        rw
          (
            check_node-literal child _ (ground arith),
            check_items-literal nodes (suc index) keypath (ground arith),
          )
          refl

    check_entries-literal :
        (es : AstEntries C) (d : Dict C (Tree C)) (keypath : List (Part C))
        → is_literal_dict es ≡ true
        → Disjoint d es
        → check_entries es d keypath ≡ ok (d ++ literal_entries es)
    check_entries-literal no_entries d keypath h disjoint = ap ok (sym (append-nil d))
    check_entries-literal (entry other_key value es) d keypath h disjoint = absurd (ground arith)
    check_entries-literal (entry (constant_key key) value es) d keypath h disjoint =
        let fresh = Disjoint-fresh key value es d disjoint in
        rw
          (
            fresh,
            check_node-literal value (keypath ++ key_part key ∷ []) (ground arith),
            insert_new key (literal value) d fresh,
          )
          (check_entries-literal es (d ++ (key, literal value) ∷ []) keypath (ground arith)
              (Disjoint-snoc key value es d (ground arith) disjoint)
            ∙ ap ok (append_assoc d ((key, literal value) ∷ []) (literal_entries es)))

  mutual
    unfolding check_node is_literal names_key

    is_literal-check_node :
        (n : Ast C) (keypath : List (Part C)) (v : Tree C)
        → check_node n keypath ≡ ok v
        → is_literal n ≡ true
    is_literal-check_node (constant_node k) keypath v e = refl
    is_literal-check_node (list_node nodes) keypath v e =
        let (vs, made, _) = >>=-ok (check_items nodes 0 keypath) (λ vs. ok (items vs)) e in
        are_literal-check_items nodes 0 keypath vs made
    is_literal-check_node (dict_node es) keypath v e =
        let (d, made, _) =
          >>=-ok (check_entries es [] keypath) (λ d. ok (entries (of_entries d))) e in
        (is_literal_dict-check_entries es [] keypath d made).0
    is_literal-check_node other_node keypath v e = absurd (ground arith)

    are_literal-check_items :
        (nodes : AstItems C) (index : ℕ) (keypath : List (Part C)) (vs : Trees C)
        → check_items nodes index keypath ≡ ok vs
        → are_literal nodes ≡ true
    are_literal-check_items no_nodes index keypath vs e = refl
    are_literal-check_items (node child nodes) index keypath vs e =
        let (v, first, rest) =
          >>=-ok (check_node child (keypath ++ index_part index ∷ []))
            (λ v. check_items nodes (suc index) keypath >>= λ ws. ok (tree v ws)) e in
        let (ws, more, _) =
          >>=-ok (check_items nodes (suc index) keypath) (λ ws. ok (tree v ws)) rest in
        let here = is_literal-check_node child (keypath ++ index_part index ∷ []) v first in
        let later = are_literal-check_items nodes (suc index) keypath ws more in
        rw (here, later) refl

    is_literal_dict-check_entries :
        (es : AstEntries C) (d : Dict C (Tree C)) (keypath : List (Part C)) (out : Dict C (Tree C))
        → check_entries es d keypath ≡ ok out
        → (is_literal_dict es ≡ true) × Disjoint d es
    is_literal_dict-check_entries no_entries d keypath out e = (refl, λ k m. refl)
    is_literal_dict-check_entries (entry other_key value es) d keypath out e = absurd (ground arith)
    is_literal_dict-check_entries (entry (constant_key key) value es) d keypath out e =
        elim (Bool-cases (has_key key d)) [
          | inl repeated ↦
              let e' : raise (repeated_key key keypath) ≡ ok out =
                (rw (repeated, check_node) at e) in
              absurd (ground arith)
          | inr fresh ↦
              let e' : (check_node value (keypath ++ key_part key ∷ []) >>= λ v.
              check_entries es (insert key v d) keypath)
                  ≡ ok out =
                (rw (fresh, check_node) at e) in
              let (v, first, rest) =
                >>=-ok (check_node value (keypath ++ key_part key ∷ []))
                  (λ v. check_entries es (insert key v d) keypath) e' in
              let here = is_literal-check_node value (keypath ++ key_part key ∷ []) v first in
              let (later, disjoint) =
                is_literal_dict-check_entries es (insert key v d) keypath out rest in
              let once =
                disjoint key (ground (arith, has_key-insert key key v d, c.equals_iff key key)) in
              (rw (once, here, later) refl, Disjoint-insert key v value es d fresh disjoint)
        ]

  -- `CheckNode` returns exactly for the trees that are made of constants, lists and dicts with constant keys and in which no dict has a key
  -- twice, and then it gives the value that the tree stands for. The constants may be
  -- keys as well as values.
  pub check_node_iff :
      (n : Ast C) (keypath : List (Part C))
      → (is_literal n ≡ true → check_node n keypath ≡ ok (literal n))
        × ((v : Tree C) → check_node n keypath ≡ ok v → is_literal n ≡ true)
  check_node_iff n keypath = (check_node-literal n keypath, is_literal-check_node n keypath)
