-- ===== src/Samples/Merging.antt =====
-- `MergeDicts` of src/tools/pylib_dbg/input.py at concrete dicts.
use dcfpe.Common.{
  ◌≡◌, refl, false, [], ◌∷◌, ◌++◌, Text, codes, text_eq, text_Eq, contains, Nodup, Dict, lookup,
  insert, has_key, keys, get_last?, drop_last, starts_with,
}
use dcfpe.Common.Results.{ok}
use dcfpe.Gyp.Value.{Value, str, list, put, no_items}
use dcfpe.Gyp.Paths.{PathTools}
use dcfpe.Gyp.Names.Sections.{is_path_section, strip_operators, ends_in_operator, names_a_path}
use dcfpe.Gyp.Merge.{
  merge_dicts, merge_fields, merge_value, merge_list_with, merge_list_by, merge_onto, merge_items,
  policy_of, list_base, lists_incompatible, check_policies, place, append_item, prepend_item,
  insert_at, fix_text, remove_all,
}
use dcfpe.Gyp.Merge.Frame.{writes, merge_dicts-frame}

-- Paths with "/" only, joined as they are.
abbrev plain_paths : PathTools
plain_paths = record {
  dirname = λ p. p;
  join = λ p q. p ++ b'/' ∷ q;
  normpath = λ p. p;
  relative_path = λ p q. p;
}

abbrev a : Text
a = codes "a"

abbrev b : Text
b = codes "b"

abbrev base : Dict Text Value
base = (a, str b) ∷ []

abbrev patch : Dict Text Value
patch = (codes "b+", list (put (str a) no_items)) ∷ []

abbrev patched : Dict Text Value
patched = (a, str b) ∷ (b, list (put (str a) no_items)) ∷ []

run_patch : merge_dicts plain_paths [] a a base patch ≡ ok patched
unfolding merge_dicts merge_fields merge_value merge_list_with merge_list_by merge_onto merge_items
    policy_of list_base lists_incompatible check_policies place append_item prepend_item insert_at
    fix_text lookup insert has_key text_eq get_last? drop_last is_path_section strip_operators
    ends_in_operator names_a_path contains starts_with remove_all
run_patch = refl

merge_dicts-frame_example :
    (Nodup (keys base) → Nodup (keys patched))
    × ((j : Text) → writes j patch ≡ false → lookup j patched ≡ lookup j base)
merge_dicts-frame_example = merge_dicts-frame plain_paths [] a a base patch patched run_patch
