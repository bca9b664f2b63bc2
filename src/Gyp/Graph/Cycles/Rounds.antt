-- ===== src/Gyp/Graph/Cycles/Rounds.antt =====
-- `FindCycles` of src/tools/pylib_dbg/input.py lists the cycles that close a path from the root.
use dcfpe.Common.{
  ℕ, zero, suc, ◌+◌, ◌<◌, ◌≡◌, refl, sym, ◌∙◌, subst, inl, inr, ◌⊎◌, ◌↔◌, true, false, List, [],
  ◌∷◌, ◌++◌, if◌then◌else◌, length, Text, text_Eq, texts_Eq, texts_eq_iff, ◌=?◌, =?_refl, =?_eq,
  contains, contains-append, Nodup, distinct, contains-distinct, has_key, keys, contains-keys,
  length-keys, length_le_of_Nodup, Bool-cases, arith,
}
use dcfpe.Common.Results.{ok}
use dcfpe.Gyp.Errors.{Gyp}
use dcfpe.Gyp.Graph.{Graph}
use dcfpe.Gyp.Graph.Cycles.{followers, up_to, cycles_each, cycles_from, find_cycles}

-- A path from the root along dependents, the last node first, on which no node is twice.
pub data IsPath (g : Graph) : List Text → Type 0 where
  at_root : IsPath g []
  longer :
      {path : List Text} {node : Text}
      → IsPath g path
      → contains node (followers g path) ≡ true
      → contains node path ≡ false
      → IsPath g (node ∷ path)

-- A dependent at the end of a path that stands on the path already, and the nodes back to it.
abbrev pub IsCycle : Graph → List Text → Type 0
IsCycle g cycle =
    (path : List Text) × IsPath g path
    × ((node : Text) × (contains node (followers g path) ≡ true)
        × (contains node path ≡ true)
        × (cycle ≡ node ∷ up_to node path))

module _ (g : Graph) where
  data Extends : List Text → List Text → Type 0 where
    here : {path : List Text} → Extends path path
    deeper :
        {path other : List Text} (node : Text)
        → contains node (followers g path) ≡ true
        → contains node path ≡ false
        → Extends (node ∷ path) other
        → Extends path other

  Extends-longer :
      {path other : List Text} {node : Text}
      → Extends path other
      → contains node (followers g other) ≡ true
      → contains node other ≡ false
      → Extends path (node ∷ other)
  Extends-longer {node = node} here h fresh = deeper node h fresh here
  Extends-longer (deeper n k new x) h fresh = deeper n k new (Extends-longer x h fresh)

  IsPath-Extends : {path : List Text} → IsPath g path → Extends [] path
  IsPath-Extends at_root = here
  IsPath-Extends (longer p h fresh) = Extends-longer (IsPath-Extends p) h fresh

  Extends-IsPath : {path other : List Text} → IsPath g path → Extends path other → IsPath g other
  Extends-IsPath p here = p
  Extends-IsPath p (deeper node h fresh x) = Extends-IsPath (longer p h fresh) x

  -- The cycles that close a path which goes on from `path`.
  abbrev Found : List Text → List Text → Type 0
  Found path cycle =
      (other : List Text) × Extends path other
      × ((node : Text) × (contains node (followers g other) ≡ true)
          × (contains node other ≡ true)
          × (cycle ≡ node ∷ up_to node other))

  -- Those among them that the loop finds at one dependent.
  abbrev At : List Text → List Text → Text → Type 0
  At path cycle node =
      ((contains node path ≡ true) × (cycle ≡ node ∷ up_to node path))
      ⊎ ((contains node path ≡ false) × Found (node ∷ path) cycle)

  abbrev FoundAt : List Text → List Text → List Text → Type 0
  FoundAt nodes path cycle = (node : Text) × (contains node nodes ≡ true) × At path cycle node

  Found-FoundAt :
      (path cycle : List Text) → Found path cycle ↔ FoundAt (followers g path) path cycle
  Found-FoundAt path cycle = (there, back)
    where
      there : Found path cycle → FoundAt (followers g path) path cycle
      there (_, here, (node, h, old, same)) = (node, h, inl (old, same))
      there (other, deeper node h fresh x, closing) = (node, h, inr (fresh, (other, x, closing)))

      back : FoundAt (followers g path) path cycle → Found path cycle
      back (node, h, inl (old, same)) = (path, here, (node, h, old, same))
      back (node, h, inr (fresh, (other, x, closing))) = (other, deeper node h fresh x, closing)

  FoundAt-cons :
      (node : Text) (nodes path cycle : List Text)
      → FoundAt (node ∷ nodes) path cycle ↔ (At path cycle node ⊎ FoundAt nodes path cycle)
  unfolding contains
  FoundAt-cons node nodes path cycle = (there, back)
    where
      there : FoundAt (node ∷ nodes) path cycle → At path cycle node ⊎ FoundAt nodes path cycle
      there (x, m, a) = elim (Bool-cases (x =? node)) [
        | inl same ↦ inl (subst (At path cycle) (=?_eq x node same) a)
        | inr other ↦ inr (x, ground arith, a)
      ]

      back : At path cycle node ⊎ FoundAt nodes path cycle → FoundAt (node ∷ nodes) path cycle
      back (inl a) = (node, ground (arith, =?_refl node), a)
      back (inr (x, m, a)) = (x, ground arith, a)

  module _
      (closed : (path : List Text) (node : Text)
        → contains node (followers g path) ≡ true
        → has_key node g.nodes ≡ true) where
    abbrev Known : List Text → Type 0
    Known path = (x : Text) → contains x path ≡ true → has_key x g.nodes ≡ true

    abbrev Room : ℕ → List Text → Type 0
    Room f path = length g.nodes < f + length path

    abbrev Answers : Gyp (List (List Text)) → (List Text → Type 0) → Type 0
    Answers result P =
        (out : List (List Text)) × (result ≡ ok out)
        × ((cycle : List Text) → (contains cycle out ≡ true) ↔ P cycle)

    abbrev Visits : (List Text → Gyp (List (List Text))) → ℕ → Type 0
    Visits visit f =
        (path : List Text)
        → Nodup path
        → Known path
        → Room f path
        → Answers (visit path) (Found path)

    Known-cons :
        (node : Text) (path : List Text)
        → Known path
        → has_key node g.nodes ≡ true
        → Known (node ∷ path)
    unfolding contains
    Known-cons node path k h x m = elim (Bool-cases (x =? node)) [
      | inl same ↦ subst (λ y. has_key y g.nodes ≡ true) (sym (=?_eq x node same)) h
      | inr other ↦ k x (ground arith)
    ]

    -- The answer at one dependent.
    one_dependent-Answers :
        (visit : List Text → Gyp (List (List Text))) (f : ℕ)
        → Visits visit f
        → (path : List Text) → Nodup path
        → Known path
        → Room (suc f) path
        → (node : Text) → has_key node g.nodes ≡ true
        → Answers
            (if contains node path then ok ((node ∷ up_to node path) ∷ []) else visit (node ∷ path))
            (λ cycle. At path cycle node)
    unfolding contains
    one_dependent-Answers visit f v path n k room node known =
        elim (Bool-cases (contains node path)) [
          | inl old ↦ (
            (node ∷ up_to node path) ∷ [],
            rw old refl,
            λ cycle. (
              λ m. inl (old, =?_eq cycle (node ∷ up_to node path) (ground arith)),
              λ a. elim a [
                | inl (_, same) ↦
                    ground (arith, (texts_eq_iff cycle (node ∷ up_to node path)).1 same)
                | inr (fresh, _) ↦ absurd (ground arith)
              ],
            ),
          )
          | inr fresh ↦
              let (out, e, h) =
                v (node ∷ path) (fresh, n) (Known-cons node path k known) (omega arith) in
              (
                out,
                rw fresh e,
                λ cycle. (
                  λ m. inr (fresh, (h cycle).0 m),
                  λ a. elim a [ inl (old, _) ↦ absurd (ground arith) | inr (_, x) ↦ (h cycle).1 x ],
                ),
              )
        ]

    cycles_each-Answers :
        (visit : List Text → Gyp (List (List Text))) (f : ℕ)
        → Visits visit f
        → (path : List Text) → Nodup path
        → Known path
        → Room (suc f) path
        → (nodes : List Text)
        → ((node : Text) → contains node nodes ≡ true → has_key node g.nodes ≡ true)
        → Answers (cycles_each visit path nodes) (FoundAt nodes path)
    unfolding cycles_each contains
    cycles_each-Answers visit f v path n k room [] h =
        ([], refl, λ cycle. (λ m. absurd (ground arith), λ (node, m, _). absurd (ground arith)))
    cycles_each-Answers visit f v path n k room (node ∷ nodes) h =
        let (found, e, here_iff) =
          one_dependent-Answers visit f v path n k room node
            (h node (ground (arith, =?_refl node))) in
        let (rest, e', rest_iff) =
          cycles_each-Answers visit f v path n k room nodes (λ x m. h x (ground arith)) in
        (
          found ++ rest,
          rw (e, e') refl,
          λ cycle. (
            λ m. (FoundAt-cons node nodes path cycle).1 (elim (Bool-cases (contains cycle found)) [
              | inl first ↦ inl ((here_iff cycle).0 first)
              | inr later ↦
                  inr ((rest_iff cycle).0 (ground (arith, contains-append cycle found rest)))
            ]),
            λ a. elim ((FoundAt-cons node nodes path cycle).0 a) [
              | inl first ↦ contains-append cycle found rest ∙ rw ((here_iff cycle).1 first) refl
              | inr later ↦
                  ground (arith, contains-append cycle found rest, (rest_iff cycle).1 later)
            ],
          ),
        )

    cycles_from-Answers : (f : ℕ) → Visits (cycles_from g f) f
    unfolding cycles_from contains
    cycles_from-Answers zero path n k room = absurd (
        omega (
          arith,
          length-keys g.nodes,
          length_le_of_Nodup path (keys g.nodes) n (λ x m. contains-keys x g.nodes ∙ k x m),
        ))
    cycles_from-Answers (suc f) path n k room =
        let (out, e, out_iff) =
          cycles_each-Answers (cycles_from g f) f (cycles_from-Answers f) path n k room
            (followers g path) (closed path) in
        (
          distinct [] out,
          rw e refl,
          λ cycle. (
            λ m.
                (Found-FoundAt path cycle).1
                  ((out_iff cycle).0 (sym (contains-distinct cycle [] out) ∙ m)),
            λ x.
                contains-distinct cycle [] out ∙ (out_iff cycle).1 ((Found-FoundAt path cycle).0 x),
          ),
        )

-- If all dependents of the root and of nodes are nodes, `FindCycles` of the root ends, and gives
-- exactly the cycles that close a path which leads from the root along dependents.
pub find_cycles_iff :
    (g : Graph)
    → ((path : List Text) (node : Text)
        → contains node (followers g path) ≡ true
        → has_key node g.nodes ≡ true)
    → (out : List (List Text)) × (find_cycles g ≡ ok out)
      × ((cycle : List Text) → (contains cycle out ≡ true) ↔ IsCycle g cycle)
unfolding find_cycles contains
find_cycles_iff g closed =
    let (out, e, out_iff) =
      cycles_from-Answers g closed (length g.nodes + 1) [] tt (λ x m. absurd (ground arith))
        (omega arith) in
    (
      out,
      e,
      λ cycle. (
        λ m.
            let (path, x, closing) = (out_iff cycle).0 m in
            (path, Extends-IsPath g at_root x, closing),
        λ (path, p, closing). (out_iff cycle).1 (path, IsPath-Extends g p, closing),
      ),
    )
