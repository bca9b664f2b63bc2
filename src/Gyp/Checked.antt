-- ===== src/Gyp/Checked.antt =====
-- `CheckNode` of src/tools/pylib_dbg/input.py, which turns the syntax tree of a build file into its
-- value. The tree is what Python's parser gives: constants, lists, dicts as the list of their keys
-- and values, and any other node; a key is a constant or not. The constants, strings and numbers, are
-- a parameter with their equality, so that those that Python takes as equal are one constant.
pub mod Literal
use dcfpe.Common.{
  ℕ, suc, Bool, true, false, List, [], ◌∷◌, ◌++◌, if◌then◌else◌, Eq, Dict, has_key, insert,
}
use dcfpe.Common.Results.{Result, ok, raise, ◌>>=◌}

pub data Key (C : Type 0) : Type 0 where
  constant_key : C → Key C
  other_key : Key C

mutual
  pub data Ast (C : Type 0) : Type 0 where
    constant_node : C → Ast C
    list_node : AstItems C → Ast C
    dict_node : AstEntries C → Ast C
    other_node : Ast C

  pub data AstItems (C : Type 0) : Type 0 where
    no_nodes : AstItems C
    node : Ast C → AstItems C → AstItems C

  pub data AstEntries (C : Type 0) : Type 0 where
    no_entries : AstEntries C
    entry : Key C → Ast C → AstEntries C → AstEntries C

-- A value: a constant, a list, or a dict, whose entries are in the order of the tree.
mutual
  pub data Tree (C : Type 0) : Type 0 where
    constant : C → Tree C
    items : Trees C → Tree C
    entries : Branches C → Tree C

  pub data Trees (C : Type 0) : Type 0 where
    no_trees : Trees C
    tree : Tree C → Trees C → Trees C

  pub data Branches (C : Type 0) : Type 0 where
    no_branches : Branches C
    branch : C → Tree C → Branches C → Branches C

abbrev pub of_entries : {C : Type 0} → Dict C (Tree C) → Branches C
of_entries [] = no_branches
of_entries ((k, v) ∷ d) = branch k v (of_entries d)

-- A part of the key path: the key in a dict, or the index in a list.
pub data Part (C : Type 0) : Type 0 where
  key_part : C → Part C
  index_part : ℕ → Part C

-- What the exceptions are raised for. A repeated key that is no string cannot be put into the
-- message, so that the exception is one of another type there.
pub data CheckError (C : Type 0) : Type 0 where
  repeated_key : C → (key_path : List (Part C)) → CheckError C
  unknown_node : (key_path : List (Part C)) → CheckError C
  assertion_error : CheckError C

module _ {C : Type 0} ⦃c : Eq C⦄ where
  unfoldable mutual
    pub check_node : Ast C → (keypath : List (Part C)) → Result (CheckError C) (Tree C)
    check_node (constant_node k) keypath = ok (constant k)
    check_node (list_node nodes) keypath = check_items nodes 0 keypath >>= λ vs. ok (items vs)
    check_node (dict_node es) keypath =
        check_entries es [] keypath >>= λ d. ok (entries (of_entries d))
    check_node other_node keypath = raise (unknown_node keypath)

    -- the loop over the children of a list, from `index` on
    pub check_items :
        AstItems C → (index : ℕ) → (keypath : List (Part C)) → Result (CheckError C) (Trees C)
    check_items no_nodes index keypath = ok no_trees
    check_items (node child nodes) index keypath =
        check_node child (keypath ++ index_part index ∷ []) >>= λ v.
        check_items nodes (suc index) keypath >>= λ vs. ok (tree v vs)

    -- the loop over the children of a dict; `d` is the dict that it has made so far
    pub check_entries :
        AstEntries C
        → Dict C (Tree C)
        → (keypath : List (Part C)) → Result (CheckError C) (Dict C (Tree C))
    check_entries no_entries d keypath = ok d
    check_entries (entry other_key value es) d keypath = raise assertion_error
    check_entries (entry (constant_key key) value es) d keypath =
        let onward =
          (check_node value (keypath ++ key_part key ∷ []) >>= λ v.
          check_entries es (insert key v d) keypath) in
        if has_key key d then raise (repeated_key key keypath) else onward
