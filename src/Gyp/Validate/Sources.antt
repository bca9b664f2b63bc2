-- ===== src/Gyp/Validate/Sources.antt =====
-- The basenames that `ValidateSourcesInTarget` of src/tools/pylib_dbg/input.py finds to be unique.
use dcfpe.Common.{
  ℕ, ◌≡◌, refl, sym, ap, ◌∙◌, ◌↔◌, ◌⊎◌, ◌≤◌, ◌+◌, inl, inr, Bool, true, false, ◌&&◌, List, [], ◌∷◌,
  ◌++◌, length, length-append, if◌then◌else◌, Text, codes, text_eq_iff, text_Eq, contains, All,
  Nodup, Nodup-insert, Dict, lookup, lookup-insert, insert, keys, contains-keys, lookup_no_key,
  count, Nodup-count, Nodup-of_count, ◌=?◌, =?_eq, =?_refl, Bool-cases, arith,
}
use dcfpe.Common.Results.{ok}
use dcfpe.Gyp.Value.{Value, texts_at, text_at}
use dcfpe.Gyp.Validate.{
  PathParts, type_in, compiled_extensions, files_under, add_source, add_sources, has_several,
  validate_sources_in_target,
}

-- How many files stand under a name.
abbrev files_at : Text → Dict Text (List Text) → ℕ
files_at n d = length (files_under (lookup n d))

module _ (paths : PathParts) where
  -- Files in C, C++, Objective-C and assembler.
  abbrev pub is_compiled : Text → Bool
  is_compiled source = contains (paths.splitext source).1 (
      codes ".c"
      ∷ codes ".cc"
      ∷ codes ".cpp"
      ∷ codes ".cxx"
      ∷ codes ".m"
      ∷ codes ".mm"
      ∷ codes ".s"
      ∷ codes ".S"
      ∷ [])

  abbrev pub basename_of : Text → Text
  basename_of source = paths.basename (paths.splitext source).0

  -- No two compiled files have the same name without directory and extension.
  abbrev pub AreApart : List Text → Type 0
  AreApart [] = Unit
  AreApart (s ∷ ss) =
      (is_compiled s ≡ true
        → All (λ u. is_compiled u ≡ true → ¬ (basename_of s ≡ basename_of u)) ss)
      × AreApart ss

  unfoldable names : List Text → List Text
  names [] = []
  names (s ∷ ss) = let rest = names ss in if is_compiled s then basename_of s ∷ rest else rest

  files_at-add_source :
      (n s : Text) (d : Dict Text (List Text))
      → files_at n (add_source paths s d)
        ≡ (if is_compiled s && (n =? basename_of s) then files_at n d + 1 else files_at n d)
  unfolding add_source compiled_extensions
  files_at-add_source n s d = elim (Bool-cases (is_compiled s)) [
    | inr other ↦ rw (other, add_source) refl
    | inl compiled ↦
        let known : contains (paths.splitext s).1 compiled_extensions ≡ true = compiled in
        let base = basename_of s in
        let files = files_under (lookup base d) ++ s ∷ [] in
        let added : add_source paths s d ≡ insert base files d = (rw (known, add_source) refl) in
        let found =
          ap (files_at n) added ∙ ap (λ o. length (files_under o)) (lookup-insert base n files d) in
        elim (Bool-cases (n =? base)) [
          | inl same ↦
              found
              ∙ rw (same, compiled)
                  (rw (=?_eq n base same) (length-append (files_under (lookup base d)) (s ∷ [])))
          | inr differ ↦ found ∙ rw (differ, compiled) refl
        ]
  ]

  files_at-add_sources :
      (n : Text) (ss : List Text) (d : Dict Text (List Text))
      → files_at n (add_sources paths ss d) ≡ files_at n d + count n (names ss)
  unfolding add_sources names count
  files_at-add_sources n [] d = omega arith
  files_at-add_sources n (s ∷ ss) d = elim (Bool-cases (is_compiled s)) [
    | inr other ↦ rw other (
        files_at-add_sources n ss (add_source paths s d)
        ∙ ground (arith, files_at-add_source n s d, other))
    | inl compiled ↦ rw compiled (
        files_at-add_sources n ss (add_source paths s d)
        ∙ ground (arith, files_at-add_source n s d, compiled))
  ]

  Nodup-add_sources :
      (ss : List Text) (d : Dict Text (List Text))
      → Nodup (keys d)
      → Nodup (keys (add_sources paths ss d))
  unfolding add_sources add_source
  Nodup-add_sources [] d n = n
  Nodup-add_sources (s ∷ ss) d n =
      Nodup-add_sources ss (add_source paths s d)
        (elim (Bool-cases (contains (paths.splitext s).1 compiled_extensions)) [
          | inl compiled ↦ rw (compiled, add_source) (Nodup-insert (basename_of s) _ d n)
          | inr other ↦ rw (other, add_source) n
        ])

  few_files :
      (d : Dict Text (List Text)) → has_several paths d ≡ false → (n : Text) → files_at n d ≤ 1
  unfolding has_several lookup
  few_files [] h n = omega arith
  few_files ((m, files) ∷ d) h n = elim (Bool-cases (n =? m)) [
    | inl same ↦ rw (same, lookup) (ground arith)
    | inr other ↦ rw (other, lookup) (few_files d (ground arith) n)
  ]

  no_several :
      (d : Dict Text (List Text))
      → Nodup (keys d)
      → ((n : Text) → files_at n d ≤ 1)
      → has_several paths d ≡ false
  unfolding has_several lookup
  no_several [] nodup h = refl
  no_several ((m, files) ∷ d) nodup h =
      let first : files_at m ((m, files) ∷ d) ≤ 1 = h m in
      let here : length files ≤ 1 = (rw (lookup, =?_refl m) at first) in
      let rest = no_several d nodup.1 (λ n. elim (Bool-cases (n =? m)) [
        | inr other ↦
            let at_n : files_at n ((m, files) ∷ d) ≤ 1 = h n in (rw (lookup, other) at at_n)
        | inl same ↦
            rw (=?_eq n m same, lookup_no_key m d (sym (contains-keys m d) ∙ nodup.0)) (omega arith)
      ]) in
      ground arith

  fresh_iff :
      (n : Text) (ss : List Text)
      → (contains n (names ss) ≡ false) ↔ All (λ u. is_compiled u ≡ true → ¬ (n ≡ basename_of u)) ss
  unfolding names contains
  fresh_iff n [] = ((λ h. tt), (λ a. refl))
  fresh_iff n (s ∷ ss) = elim (Bool-cases (is_compiled s)) [
    | inr other ↦ rw other (
      (λ h. ((λ compiled. absurd (ground arith)), (fresh_iff n ss).0 h)),
      (λ a. (fresh_iff n ss).1 a.1),
    )
    | inl compiled ↦ rw compiled (
      (λ h. (
        (λ _ same. absurd (ground (arith, text_eq_iff n (basename_of s)))),
        (fresh_iff n ss).0 (ground arith),
      )),
      (λ a. elim (Bool-cases (n =? basename_of s)) [
        | inl same ↦ absurd (a.0 refl (=?_eq n (basename_of s) same))
        | inr differ ↦ ground (arith, (fresh_iff n ss).1 a.1)
      ]),
    )
  ]

  Nodup-names : (ss : List Text) → Nodup (names ss) ↔ AreApart ss
  unfolding names contains
  Nodup-names [] = ((λ n. tt), (λ a. tt))
  Nodup-names (s ∷ ss) = elim (Bool-cases (is_compiled s)) [
    | inr other ↦ rw other (
      (λ n. ((λ compiled. absurd (ground arith)), (Nodup-names ss).0 n)),
      (λ a. (Nodup-names ss).1 a.1),
    )
    | inl compiled ↦ rw compiled (
      (λ n. ((λ _. (fresh_iff (basename_of s) ss).0 n.0), (Nodup-names ss).0 n.1)),
      (λ a. ((fresh_iff (basename_of s) ss).1 (a.0 refl), (Nodup-names ss).1 a.1)),
    )
  ]

  no_several_iff :
      (ss : List Text) → (has_several paths (add_sources paths ss []) ≡ false) ↔ AreApart ss
  unfolding lookup
  no_several_iff ss =
      let d = add_sources paths ss [] in
      (
        (λ h. (Nodup-names ss).0 (
            Nodup-of_count (names ss)
              (λ n. omega (arith, few_files d h n, files_at-add_sources n ss [])))),
        (λ a. no_several d (Nodup-add_sources ss [] tt) (λ n. omega (
          arith,
          files_at-add_sources n ss [],
          Nodup-count n (names ss) ((Nodup-names ss).1 a),
        ))),
      )

  -- The sources of a target pass if the check is off, or the target is neither a static nor a shared
  -- library, or no two of its compiled files have the same basename, and only then.
  pub validate_sources_in_target_iff :
      (target : Text) (d : Dict Text Value) (check : Bool)
      → (validate_sources_in_target paths target d check ≡ ok tt) ↔ (
          (check ≡ false)
          ⊎ ((type_in
                  (codes "static_library" ∷ codes "shared_library" ∷ [])
                  (text_at (codes "type") d)
                ≡ false)
              ⊎ AreApart (texts_at (codes "sources") d)))
  unfolding validate_sources_in_target
  validate_sources_in_target_iff target d check =
      ground (arith, no_several_iff (texts_at (codes "sources") d))
