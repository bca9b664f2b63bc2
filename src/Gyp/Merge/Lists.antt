-- ===== src/Gyp/Merge/Lists.antt =====
-- What `MergeLists` of src/tools/pylib_dbg/input.py makes of two lists, where the merged one holds
-- strings that are no paths.
use dcfpe.Common.{
  ◌≡◌, sym, refl, ap, ◌∙◌, true, false, not, ◌&&◌, inl, inr, List, [], ◌∷◌, ◌++◌, map,
  if◌then◌else◌, length, Text, text_eq, text_eq_iff, text_Eq, subst, starts_with, contains, Nodup,
  Bool-cases, arith, length-append,
}
use dcfpe.Common.Results.{ok}
use dcfpe.Gyp.Value.{Value, str, list_items}
use dcfpe.Gyp.Merge.{
  Merging, merging, same_item, item_in, hashables, is_hashable, remove_all, append_item,
  prepend_item, place, fix_text, merged_item, merge_items, merge_lists,
}
use dcfpe.Gyp.Paths.{PathTools}
use dcfpe.Gyp.Merge.Staying.{
  is_singleton, count, fresh, append_snoc, append-nil, item_in-hashables, staying, staying-nil,
  staying-remove_all, remove_all-append, insert_at-append, append_nil, append_one, Nodup-middle,
}

-- The variables of `MergeLists` when some strings have been prepended.
abbrev after : List Text → List Value → List Value → Merging
after placed vs hs = record {
  to = map str placed ++ vs;
  hashed = hs;
  prepend_index = length placed;
}

prepend_item-after :
    (s : Text) (placed : List Text) (vs hs : List Value)
    → contains s placed ≡ false
    → prepend_item (str s) (is_singleton s) (after placed vs hs)
      ≡ after (placed ++ s ∷ []) (if is_singleton s then remove_all (str s) vs else vs) (str s ∷ hs)
unfolding prepend_item is_hashable
prepend_item-after s placed vs hs new = elim (Bool-cases (is_singleton s)) [
  | inl h ↦
      rw
        (
          h,
          remove_all-append s placed vs new,
          insert_at-append s placed (remove_all (str s) vs),
          length-append placed (s ∷ []),
        )
        refl
  | inr h ↦ rw (h, insert_at-append s placed vs, length-append placed (s ∷ [])) refl
]

module _ (tools : PathTools) (path_sections : List Text) (to_file fro_file : Text) where
  merge_items-append :
      (fro : List Text) (m : Merging)
      → (r : Merging) × (merge_items tools path_sections to_file fro_file false true m
            (list_items (map str fro))
          ≡ ok r)
        × (r.to ≡ m.to ++ map str (fresh m.hashed fro))
  unfolding merge_items merged_item fix_text place append_item is_hashable fresh is_singleton
  merge_items-append [] m = (m, refl, sym (append-nil m.to))
  merge_items-append (s ∷ ss) m =
      elim (Bool-cases (not (starts_with s (b'-' ∷ [])) && item_in (str s) m.hashed)) [
        | inl h ↦ rw h (merge_items-append ss m)
        | inr h ↦ rw h (
            let next =
              merge_items-append ss
                (record m { to = m.to ++ str s ∷ []; hashed = str s ∷ m.hashed }) in
            (
              next.0,
              next.1,
              next.2 ∙ append_snoc m.to (str s) (map str (fresh (str s ∷ m.hashed) ss)),
            ))
      ]

  -- How often a string is taken over: as often as the list has it where it is an option, and
  -- otherwise once, unless it is known.
  count-fresh_option :
      (s : Text) (seen : List Value) (fro : List Text)
      → is_singleton s ≡ false
      → count s (fresh seen fro) ≡ count s fro
  unfolding count fresh
  count-fresh_option s seen [] h = refl
  count-fresh_option s seen (t ∷ ts) h =
      elim (Bool-cases (is_singleton t && item_in (str t) seen)) [
        | inl known ↦ rw known (elim (Bool-cases (text_eq s t)) [
          | inl same ↦
              absurd (ground (arith, text_eq_iff s t, ap is_singleton ((text_eq_iff s t).0 same)))
          | inr other ↦ rw other (count-fresh_option s seen ts h)
        ])
        | inr new ↦ rw new ground (arith, count-fresh_option s (str t ∷ seen) ts h)
      ]

  count-fresh :
      (s : Text) (seen : List Value) (fro : List Text)
      → is_singleton s ≡ true
      → count s (fresh seen fro)
        ≡ (if item_in (str s) seen then 0 else if contains s fro then 1 else 0)
  unfolding count fresh contains item_in same_item
  count-fresh s seen [] h = ground arith
  count-fresh s seen (t ∷ ts) h = elim (Bool-cases (text_eq s t)) [
    | inl same ↦ ground (
      arith,
      text_eq_iff s t,
      ap is_singleton ((text_eq_iff s t).0 same),
      count-fresh s (str t ∷ seen) ts h,
      count-fresh s seen ts h,
      ap (λ u. item_in (str u) seen) ((text_eq_iff s t).0 same),
    )
    | inr other ↦ elim (Bool-cases (is_singleton t && item_in (str t) seen)) [
      | inl known ↦ rw (known, other) ground (arith, count-fresh s seen ts h)
      | inr new ↦ rw (new, other) ground (arith, count-fresh s (str t ∷ seen) ts h)
    ]
  ]

  -- Appending strings that are no paths to a list keeps the list and puts new strings behind it: an
  -- option, which starts with "-", as often as the appended list has it, and every other string of
  -- the appended list once, unless the list had it already.
  pub merge_lists-append :
      (to : List Value) (fro : List Text)
      → (new : List Text) × (merge_lists tools path_sections to_file fro_file false true to
            (map str fro)
          ≡ ok (to ++ map str new))
        × ((s : Text) → is_singleton s ≡ false → count s new ≡ count s fro)
        × ((s : Text)
            → is_singleton s ≡ true
            → count s new ≡ (if item_in (str s) to then 0 else if contains s fro then 1 else 0))
  unfolding merge_lists
  merge_lists-append to fro =
      let run = merge_items-append fro (merging to) in
      (
        fresh (hashables to) fro,
        (rw run.1 (ap ok run.2)),
        (λ s h. count-fresh_option s (hashables to) fro h),
        (λ s h.
            subst
              (λ b.
                count s (fresh (hashables to) fro)
                ≡ (if b then 0 else if contains s fro then 1 else 0))
              (item_in-hashables s to) (count-fresh s (hashables to) fro h)),
      )

  merge_items-prepend :
      (fro placed : List Text) (vs hs : List Value)
      → Nodup (placed ++ fro)
      → (r : Merging) × (merge_items tools path_sections to_file fro_file false false
            (after placed vs hs)
            (list_items (map str fro))
          ≡ ok r)
        × (r.to ≡ map str (placed ++ fro) ++ staying fro vs)
  unfolding merge_items merged_item fix_text place is_singleton
  merge_items-prepend [] placed vs hs n =
      (after placed vs hs, refl, rw (staying-nil vs, append_nil placed) refl)
  merge_items-prepend (s ∷ ss) placed vs hs n =
      let vs' = if is_singleton s then remove_all (str s) vs else vs in
      let next =
        merge_items-prepend ss (placed ++ s ∷ []) vs' (str s ∷ hs)
          (rw (append_one s placed ss) n) in
      (
        next.0,
        rw (prepend_item-after s placed vs hs (Nodup-middle placed s ss n)) next.1,
        rw (staying-remove_all s ss vs, sym (append_one s placed ss)) next.2,
      )

  -- Prepending strings that are no paths and all different puts them first, in their order, and
  -- behind them the items of the list, in their order, less those that are equal to one of the
  -- prepended strings that does not start with "-".
  pub merge_lists-prepend :
      (to : List Value) (fro : List Text)
      → Nodup fro
      → merge_lists tools path_sections to_file fro_file false false to (map str fro)
        ≡ ok (map str fro ++ staying fro to)
  unfolding merge_lists
  merge_lists-prepend to fro n =
      let run = merge_items-prepend fro [] to (hashables to) n in rw run.1 (ap ok run.2)
