-- ===== src/Gyp/Validate/Unique.antt =====
-- The names of targets that `VerifyNoCollidingTargets` of src/tools/pylib_dbg/input.py finds to be
-- unique in their directories.
use dcfpe.Common.{
  Option, none, some, ◌++◌, ◌==◌, ==_iff, ◌=?◌, nat_eq, ◌∙◌, ap, ap₂, map, All, ◌≡◌, refl, sym,
  subst, ◌↔◌, ◌⊎◌, inl, inr, Bool, false, List, [], ◌∷◌, if◌then◌else◌, Text, text_eq_iff, text_Eq,
  contains, Nodup, Bool-cases, arith,
}
use dcfpe.Common.Results.{ok_unique, ok, raise, ◌>>=◌, >>=-ok}
use dcfpe.Gyp.Errors.{Gyp, value_error, colliding_targets}
use dcfpe.Gyp.Validate.{
  PathParts, collision_key, rsplit_colon, current_if_empty, verify_no_colliding_from,
  verify_no_colliding_targets,
}

-- None of the names is among the others.
abbrev Apart : List Text → List Text → Type 0
Apart [] ms = Unit
Apart (n ∷ ns) ms = (contains n ms ≡ false) × Apart ns ms

abbrev two : Text → Text → Option (Text × Text)
two a b = some (a, b)

two_injective : {p q : Text × Text} → some p ≡ some q → p ≡ q
two_injective e = cc

module _ (paths : PathParts) where
  -- The keys of the targets that are checked.
  unfoldable pub collision_keys : List Text → Gyp (List Text)
  collision_keys [] = ok []
  collision_keys (t ∷ ts) = collision_key paths t >>= λ k. collision_keys ts >>= λ ks. ok (k ∷ ks)

  Apart-cons :
      (n : Text) (ns used : List Text)
      → Apart ns (n ∷ used) ↔ ((contains n ns ≡ false) × Apart ns used)
  unfolding contains
  Apart-cons n [] used = ground arith
  Apart-cons n (m ∷ ns) used =
      ground (arith, Apart-cons n ns used, text_eq_iff n m, text_eq_iff m n)

  Apart-nil : (ns : List Text) → Apart ns []
  unfolding contains
  Apart-nil [] = tt
  Apart-nil (n ∷ ns) = (refl, Apart-nil ns)

  verify_from-accepts :
      (ts used ks : List Text)
      → collision_keys ts ≡ ok ks
      → Nodup ks
      → Apart ks used
      → verify_no_colliding_from paths used ts ≡ ok tt
  unfolding verify_no_colliding_from collision_keys
  verify_from-accepts [] used ks e n a = refl
  verify_from-accepts (t ∷ ts) used ks e n a =
      let key = >>=-ok (collision_key paths t) (λ k. collision_keys ts >>= λ ks'. ok (k ∷ ks')) e in
      let more = >>=-ok (collision_keys ts) (λ ks'. ok (key.0 ∷ ks')) key.2 in
      let same : (key.0 ∷ more.0) ≡ ks = cc in
      let n' : Nodup (key.0 ∷ more.0) = subst (λ l. Nodup l) (sym same) n in
      let a' : Apart (key.0 ∷ more.0) used = subst (λ l. Apart l used) (sym same) a in
      rw (key.1, a'.0)
        (verify_from-accepts ts (key.0 ∷ used) more.0 more.1 n'.1
          ((Apart-cons key.0 more.0 used).1 (n'.0, a'.1)))

  verify_from-Unique :
      (ts used : List Text)
      → verify_no_colliding_from paths used ts ≡ ok tt
      → (ks : List Text) × (collision_keys ts ≡ ok ks) × Nodup ks × Apart ks used
  unfolding verify_no_colliding_from collision_keys
  verify_from-Unique [] used h = ([], refl, tt, tt)
  verify_from-Unique (t ∷ ts) used h =
      let key =
        >>=-ok (collision_key paths t)
          (λ k.
            if contains k used
            then raise (colliding_targets t k)
            else verify_no_colliding_from paths (k ∷ used) ts)
          h in
      elim (Bool-cases (contains key.0 used)) [
        | inl there ↦ absurd (ground arith)
        | inr new ↦
            let rest = verify_from-Unique ts (key.0 ∷ used) (ground arith) in
            let apart = (Apart-cons key.0 rest.0 used).0 rest.3 in
            (key.0 ∷ rest.0, rw (key.1, rest.1) refl, (apart.0, rest.2), (new, apart.1))
      ]

  rsplit_colon-none : (s : Text) → contains b':' s ≡ false → rsplit_colon paths s ≡ none
  unfolding rsplit_colon contains
  rsplit_colon-none [] h = refl
  rsplit_colon-none (c ∷ s) h =
      rw (rsplit_colon-none s (ground arith)) (if_not (c == b':') (ground arith))
    where
      if_not : (b : Bool) → b ≡ false → (if b then two [] s else none) ≡ none
      if_not b h = rw h refl

  rsplit_colon-append :
      (p n : Text) → contains b':' n ≡ false → rsplit_colon paths (p ++ b':' ∷ n) ≡ two p n
  unfolding rsplit_colon
  rsplit_colon-append [] n h = rw (rsplit_colon-none n h) refl
  rsplit_colon-append (c ∷ p) n h = rw (rsplit_colon-append p n h) refl

  rsplit_colon-parts :
      (s : Text)
      → ((rsplit_colon paths s ≡ none) × (contains b':' s ≡ false))
        ⊎ ((p n : Text) × (rsplit_colon paths s ≡ two p n)
            × (s ≡ p ++ b':' ∷ n)
            × (contains b':' n ≡ false))
  unfolding rsplit_colon contains
  rsplit_colon-parts [] = inl (refl, refl)
  rsplit_colon-parts (c ∷ s) = elim (rsplit_colon-parts s) [
    | inr (p, n, e, whole, plain) ↦ inr (c ∷ p, n, rw e refl, ap (λ l. c ∷ l) whole, plain)
    | inl (e, plain) ↦ elim (Bool-cases (c == b':')) [
      | inl colon ↦
          inr ([], s, rw (e, colon) refl, ap (λ d. d ∷ s) ((==_iff c b':').0 colon), plain)
      | inr other ↦ inl (rw (e, other) refl, ground arith)
    ]
  ]

  -- "." for the current directory
  abbrev pub or_dot : Text → Text
  or_dot [] = b'.' ∷ []
  or_dot (c ∷ s) = c ∷ s

  same_directory : (s : Text) → current_if_empty s ≡ or_dot s
  same_directory [] = refl
  same_directory (c ∷ s) = refl

  -- The directory and the name of a target: what stands before the last colon is the path of a file
  -- in the directory, and what stands behind it is the name.
  abbrev pub StandsIn : Text → Text × Text → Type 0
  StandsIn target place =
      (path : Text) × (target ≡ path ++ b':' ∷ place.1)
      × (contains b':' place.1 ≡ false)
      × (place.0 ≡ or_dot (paths.split path).0)

  abbrev pub StandIn : List Text → List (Text × Text) → Type 0
  StandIn [] [] = Unit
  StandIn [] (p ∷ ps) = ⊥
  StandIn (t ∷ ts) [] = ⊥
  StandIn (t ∷ ts) (p ∷ ps) = StandsIn t p × StandIn ts ps

  abbrev pub Distinct : List (Text × Text) → Type 0
  Distinct [] = Unit
  Distinct (p ∷ ps) = All (λ q. ¬ (p ≡ q)) ps × Distinct ps

  abbrev key_of : Text × Text → Text
  key_of p = p.0 ++ b':' ∷ p.1

  collision_key-StandsIn :
      (t : Text) (p : Text × Text) → StandsIn t p → collision_key paths t ≡ ok (key_of p)
  unfolding collision_key
  collision_key-StandsIn t p (path, whole, plain, dir) =
      let split = ap (rsplit_colon paths) whole ∙ rsplit_colon-append path p.1 plain in
      rw (split, collision_key, dir, same_directory (paths.split path).0) refl

  collision_key-place :
      (t k : Text)
      → collision_key paths t ≡ ok k
      → (p : Text × Text) × StandsIn t p × (k ≡ key_of p)
  unfolding collision_key
  collision_key-place t k e = elim (rsplit_colon-parts t) [
    | inl (missing, _) ↦
        let e' : raise (value_error t) ≡ ok k = (rw (missing, collision_key) at e) in
        absurd (ground arith)
    | inr (path, n, split, whole, plain) ↦
        let dir = (paths.split path).0 in
        (
          (or_dot dir, n),
          (path, whole, plain, refl),
          ok_unique (collision_key paths t) e (rw (split, collision_key, same_directory dir) refl),
        )
  ]

  key_of_injective :
      (p q : Text × Text)
      → contains b':' p.1 ≡ false
      → contains b':' q.1 ≡ false
      → key_of p ≡ key_of q
      → p ≡ q
  key_of_injective p q hp hq e = two_injective (
      sym (rsplit_colon-append p.0 p.1 hp)
      ∙ (ap (rsplit_colon paths) e ∙ rsplit_colon-append q.0 q.1 hq))

  collision_keys-StandIn :
      (ts : List Text) (ps : List (Text × Text))
      → StandIn ts ps
      → collision_keys ts ≡ ok (map key_of ps)
  unfolding collision_keys
  collision_keys-StandIn [] [] h = refl
  collision_keys-StandIn [] (p ∷ ps) h = absurd h
  collision_keys-StandIn (t ∷ ts) [] h = absurd h
  collision_keys-StandIn (t ∷ ts) (p ∷ ps) (here, rest) =
      rw (collision_key-StandsIn t p here, collision_keys-StandIn ts ps rest) refl

  collision_keys-places :
      (ts ks : List Text)
      → collision_keys ts ≡ ok ks
      → (ps : List (Text × Text)) × StandIn ts ps × (ks ≡ map key_of ps)
  unfolding collision_keys
  collision_keys-places [] ks e = ([], tt, ok_unique (ok _) e refl)
  collision_keys-places (t ∷ ts) ks e =
      let (k, first, later) =
        >>=-ok (collision_key paths t) (λ k. collision_keys ts >>= λ ks'. ok (k ∷ ks')) e in
      let (ks', more, last) = >>=-ok (collision_keys ts) (λ ks'. ok (k ∷ ks')) later in
      let (p, here, is_key) = collision_key-place t k first in
      let (ps, rest, are_keys) = collision_keys-places ts ks' more in
      (p ∷ ps, (here, rest), ok_unique (ok _) last refl ∙ ap₂ (λ x xs. x ∷ xs) is_key are_keys)

  apart_iff :
      (t : Text) (p : Text × Text) (ts : List Text) (ps : List (Text × Text))
      → StandsIn t p
      → StandIn ts ps
      → (contains (key_of p) (map key_of ps) ≡ false) ↔ All (λ q. ¬ (p ≡ q)) ps
  unfolding contains
  apart_iff t p [] [] s h = ((λ e. tt), (λ a. refl))
  apart_iff t p [] (q ∷ ps) s h = absurd h
  apart_iff t p (u ∷ ts) [] s h = absurd h
  apart_iff t p (u ∷ ts) (q ∷ ps) s (here, rest) =
      let others = apart_iff t p ts ps s rest in
      let other = text_eq_iff (key_of p) (key_of q) in
      (
        (λ e.
            ((λ same. absurd (ground (arith, other.1 (ap key_of same)))), others.0 (ground arith))),
        (λ a. elim (Bool-cases (key_of p =? key_of q)) [
          | inl same ↦ absurd (a.0 (key_of_injective p q s.2 here.2 (other.0 same)))
          | inr differ ↦ ground (arith, others.1 a.1)
        ]),
      )

  keys_apart :
      (ts : List Text) (ps : List (Text × Text))
      → StandIn ts ps
      → Nodup (map key_of ps) ↔ Distinct ps
  keys_apart [] [] h = ((λ n. tt), (λ d. tt))
  keys_apart [] (p ∷ ps) h = absurd h
  keys_apart (t ∷ ts) [] h = absurd h
  keys_apart (t ∷ ts) (p ∷ ps) (here, rest) =
      let first = apart_iff t p ts ps here rest in
      let others = keys_apart ts ps rest in
      ((λ n. (first.0 n.0, others.0 n.1)), (λ d. (first.1 d.0, others.1 d.1)))

  -- The check for colliding targets passes if every target has a colon, so that its directory and
  -- name can be told apart, and no two targets have the same directory and name, and only then.
  pub verify_no_colliding_targets_iff :
      (targets : List Text)
      → (verify_no_colliding_targets paths targets ≡ ok tt)
        ↔ ((places : List (Text × Text)) × StandIn targets places × Distinct places)
  unfolding verify_no_colliding_targets
  verify_no_colliding_targets_iff targets = (
    (λ h.
        let (ks, keys, unique, _) = verify_from-Unique targets [] h in
        let (ps, stand, same) = collision_keys-places targets ks keys in
        (ps, stand, (keys_apart targets ps stand).0 (subst Nodup same unique))),
    (λ (ps, stand, distinct).
        verify_from-accepts targets [] (map key_of ps) (collision_keys-StandIn targets ps stand)
          ((keys_apart targets ps stand).1 distinct) (Apart-nil (map key_of ps))),
  )
