-- ===== src/Gyp/Graph/Deep.antt =====
-- `DeepDependencies` collects exactly what a target reaches.
use dcfpe.Common.{
  ap, length-append, ℕ, zero, suc, ◌+◌, ◌<◌, ◌≡◌, refl, sym, ◌∙◌, subst, inl, inr, ◌⊎◌, true, false,
  Option, none, some, List, [], ◌∷◌, length, map, Text, text_Eq, text_eq_iff, ◌=?◌, =?_refl, =?_eq,
  contains, Nodup, Dict, lookup, has_key, keys, contains-keys, length-keys, Bool-cases,
  length_le_of_Nodup, arith,
}
use dcfpe.Common.Results.{ok}
use dcfpe.Gyp.Value.{Value, Targets, texts_at}
use dcfpe.Gyp.Errors.{Gyp}
use dcfpe.Gyp.Graph.{build_graph, Graph, dependencies_of, add, dependencies_key}
use dcfpe.Gyp.Graph.Linking.{wired}
use dcfpe.Gyp.Graph.Wiring.{
  build_graph-IsGraphOf, names_of, wired_or, depends_on, IsGraphOf, IsClosed,
}
use dcfpe.Gyp.Graph.Sets.{contains-add, Nodup-add, add_fresh}
use dcfpe.Gyp.Graph.Building.{Reaches, direct, further}
use dcfpe.Gyp.Graph.Traversal.{deep_each, deep_from, deep_dependencies}

-- The names among the refs.
abbrev pub names_in : List (Option Text) → List Text
names_in [] = []
names_in (none ∷ refs) = names_in refs
names_in (some d ∷ refs) = d ∷ names_in refs

names_in-map : (ds : List Text) → names_in (map some ds) ≡ ds
names_in-map [] = refl
names_in-map (d ∷ ds) = rw (names_in-map ds)

names_in-wired : (ds : List Text) → names_in (wired ds) ≡ ds
names_in-wired [] = refl
names_in-wired (d ∷ ds) = names_in-map (d ∷ ds)

names_in-wired_or : (o : Option (Dict Text Value)) → names_in (wired_or o []) ≡ names_of o
names_in-wired_or none = refl
names_in-wired_or (some spec) = names_in-wired (texts_at dependencies_key spec)

Reaches-prepend :
    {ts : Targets} {t d x : Text} → depends_on ts t d ≡ true → Reaches ts d x → Reaches ts t x
Reaches-prepend h (direct k) = further (direct h) k
Reaches-prepend h (further r k) = further (Reaches-prepend h r) k

module _ (ts : Targets) (g : Graph) (gr : IsGraphOf ts g) (closed : IsClosed ts) where
  abbrev Room : ℕ → List Text → Type 0
  Room f acc = length g.nodes < f + length acc

  abbrev Known : List Text → Type 0
  Known acc = (x : Text) → contains x acc ≡ true → has_key x ts ≡ true

  -- What a visit of `t` adds to the set, where it still has the names `ds` to look at.
  record Post (t : Text) (ds acc out : List Text) : Type 0 where
    nodup : Nodup out
    known : Known out
    keeps : (x : Text) → contains x acc ≡ true → contains x out ≡ true
    sound : (x : Text) → contains x out ≡ true → (contains x acc ≡ true) ⊎ Reaches ts t x
    covers : (d : Text) → contains d ds ≡ true → contains d out ≡ true
    finished :
        (x d : Text)
        → contains x out ≡ true
        → contains x acc ≡ false
        → depends_on ts x d ≡ true
        → contains d out ≡ true

  abbrev Visits : (Text → List Text → Gyp (List Text)) → ℕ → Type 0
  Visits visit f =
      (t : Text) (acc : List Text)
      → Nodup acc
      → Known acc
      → Room f acc
      → (out : List Text) × (visit t acc ≡ ok out) × Post t (names_of (lookup t ts)) acc out

  Known-add : (d : Text) (acc : List Text) → Known acc → has_key d ts ≡ true → Known (add d acc)
  Known-add d acc k kd x m = elim (Bool-cases (x =? d)) [
    | inl same ↦ subst (λ y. has_key y ts ≡ true) (sym (=?_eq x d same)) kd
    | inr other ↦ k x (ground (arith, contains-add x d acc))
  ]

  grown :
      (d : Text) (acc mid : List Text)
      → ((x : Text) → contains x (add d acc) ≡ true → contains x mid ≡ true)
      → (x : Text) → contains x acc ≡ true
      → contains x mid ≡ true
  grown d acc mid h x m = h x (ground (arith, contains-add x d acc))

  -- A visit of `d` between, and then the rest of the loop.
  Post-visit :
      (t d : Text) (ds acc mid out : List Text)
      → depends_on ts t d ≡ true
      → Post d (names_of (lookup d ts)) (add d acc) mid
      → Post t ds mid out
      → Post t (d ∷ ds) acc out
  unfolding contains
  Post-visit t d ds acc mid out dep q p =
      let d_mid : contains d mid ≡ true =
        q.keeps d (ground (arith, contains-add d d acc, =?_refl d)) in
      record {
        nodup = p.nodup;
        known = p.known;
        keeps = λ x m. p.keeps x (grown d acc mid q.keeps x m);
        sound = λ x m. elim (p.sound x m) [
          | inr r ↦ inr r
          | inl in_mid ↦ elim (q.sound x in_mid) [
            | inr r ↦ inr (Reaches-prepend dep r)
            | inl early ↦ elim (Bool-cases (x =? d)) [
              | inl same ↦ inr (subst (Reaches ts t) (sym (=?_eq x d same)) (direct dep))
              | inr other ↦ inl (ground (arith, contains-add x d acc))
            ]
          ]
        ];
        covers = λ u m. ground (arith, text_eq_iff u d, p.keeps d d_mid, p.covers u);
        finished = λ x u m n need. elim (Bool-cases (contains x mid)) [
          | inr late ↦ p.finished x u m late need
          | inl in_mid ↦ elim (Bool-cases (x =? d)) [
            | inl same ↦
                p.keeps u (q.covers u (subst (λ y. depends_on ts y u ≡ true) (=?_eq x d same) need))
            | inr other ↦
                p.keeps u (q.finished x u in_mid (ground (arith, contains-add x d acc)) need)
          ]
        ];
      }

  deep_each-Post :
      (visit : Text → List Text → Gyp (List Text)) (f : ℕ)
      → Visits visit f
      → (t : Text) (refs : List (Option Text)) (acc : List Text) → Nodup acc
      → Known acc
      → Room (suc f) acc
      → ((d : Text) → contains d (names_in refs) ≡ true → depends_on ts t d ≡ true)
      → (out : List Text) × (deep_each visit refs acc ≡ ok out) × Post t (names_in refs) acc out
  unfolding deep_each contains
  deep_each-Post visit f v t [] acc nd k room h = (
    acc,
    refl,
    record {
      nodup = nd;
      known = k;
      keeps = λ x m. m;
      sound = λ x m. inl m;
      covers = λ d m. absurd (ground arith);
      finished = λ x d m n. absurd (ground arith);
    },
  )
  deep_each-Post visit f v t (none ∷ refs) acc nd k room h =
      deep_each-Post visit f v t refs acc nd k room h
  deep_each-Post visit f v t (some d ∷ refs) acc nd k room h = elim (Bool-cases (contains d acc)) [
    | inl seen ↦
        let (out, e, p) =
          deep_each-Post visit f v t refs acc nd k room (λ u m. h u (ground arith)) in
        (
          out,
          rw seen e,
          record {
            nodup = p.nodup;
            known = p.known;
            keeps = p.keeps;
            sound = p.sound;
            covers = λ u m. ground (arith, text_eq_iff u d, p.keeps d seen, p.covers u);
            finished = p.finished;
          },
        )
    | inr unseen ↦
        let dep = h d (ground (arith, =?_refl d)) in
        let (mid, e₁, q) =
          v d (add d acc) (Nodup-add d acc nd) (Known-add d acc k (closed t d dep))
            (omega (arith, ap length (add_fresh d acc unseen), length-append acc (d ∷ []))) in
        let (out, e₂, p) =
          deep_each-Post visit f v t refs mid q.nodup q.known
            (omega (arith, length_le_of_Nodup acc mid nd (grown d acc mid q.keeps)))
            (λ u m. h u (ground arith)) in
        (out, rw (unseen, e₁) e₂, Post-visit t d (names_in refs) acc mid out dep q p)
  ]

  deep_from-Post : (f : ℕ) → Visits (deep_from g f) f
  unfolding deep_from
  deep_from-Post zero t acc nd k room = absurd (
      omega (
        arith,
        length-keys g.nodes,
        length_le_of_Nodup acc (keys g.nodes) nd
            (λ x m. contains-keys x g.nodes ∙ (gr.nodes x ∙ k x m)),
      ))
  deep_from-Post (suc f) t acc nd k room =
      let same = ap names_in (gr.dependencies t) ∙ names_in-wired_or (lookup t ts) in
      let (out, e, p) =
        deep_each-Post (deep_from g f) f (deep_from-Post f) t (dependencies_of g t) acc nd k room
          (λ d m. subst (λ l. contains d l ≡ true) same m) in
      (out, e, subst (λ l. Post t l acc out) same p)

  reached_all :
      (t : Text) (out : List Text) {d : Text}
      → Post t (names_of (lookup t ts)) [] out
      → Reaches ts t d
      → contains d out ≡ true
  reached_all t out p (direct h) = p.covers _ h
  reached_all t out p (further {b} {d} r h) =
      p.finished b d (reached_all t out p r) (unfold contains in refl) h

-- For targets with distinct names whose dependencies are all known, `DeepDependencies` of a node ends, and returns
-- without repetition exactly the names that it reaches along one or more dependencies.
pub deep_dependencies-Reaches :
    (ts : Targets) (g : Graph) (t : Text)
    → Nodup (keys ts)
    → build_graph ts ≡ ok g
    → IsClosed ts
    → (out : List Text) × (deep_dependencies g t ≡ ok out)
      × Nodup out
      × ((d : Text) → contains d out ≡ true → Reaches ts t d)
      × ((d : Text) → Reaches ts t d → contains d out ≡ true)
unfolding deep_dependencies
deep_dependencies-Reaches ts g t nd e closed =
    let gr = build_graph-IsGraphOf ts g nd e in
    let (out, e', p) =
      deep_from-Post ts g gr closed (length g.nodes + 1) t [] tt
        (λ x m. absurd (unfold contains in ground arith)) (omega arith) in
    (
      out,
      e',
      p.nodup,
      λ d m. elim (p.sound d m) [
        | inl none_before ↦ absurd (unfold contains in ground arith)
        | inr r ↦ r
      ],
      λ d r. reached_all ts g gr closed t out p r,
    )
