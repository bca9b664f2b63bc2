-- ===== src/Samples/Values.antt =====
-- src/tools/pylib_dbg: names, lists, filters, options and checks at concrete inputs.
use dcfpe.Common.{
  Option, insert, lookup, ◌≡◌, ◌↔◌, ◌⊎◌, refl, Bool, true, false, not, ◌&&◌, ◌||◌, none, some, List,
  [], ◌∷◌, ◌++◌, map, if◌then◌else◌, ◌==◌, Text, codes, text_eq, text_Eq, nat_eq, starts_with,
  contains, Nodup, All, has_key, Dict,
}
use dcfpe.Common.Results.{ok, ◌>>=◌}
use dcfpe.Gyp.Value.{
  ℤ, pos, Value, str, int, bool, list, dict, put, no_items, no_fields, field, Targets, texts_at,
  text_at,
}
use dcfpe.Gyp.Names.Decimal.{show_int, is_str_canonical_int, is_str_canonical_int_iff}
use dcfpe.Gyp.Names.Sections.{
  has_stem, ends_in_operator, strip_operators, names_a_path, is_path_section,
  strip_operators-diverges, is_path_section-total,
}
use dcfpe.Gyp.Paths.{PathTools}
use dcfpe.Gyp.Merge.{item_in, same_item, fix_text, place, insert_at, remove_all, merge_lists}
use dcfpe.Gyp.Merge.Lists.{merge_lists-append, merge_lists-prepend}
use dcfpe.Gyp.Merge.Staying.{is_singleton, count, staying}
use dcfpe.Gyp.Filters.{Regex, filter_list}
use dcfpe.Gyp.Filters.Actions.{filter_list-texts}
use dcfpe.Gyp.Filters.Marks.{rules, keep, is_excluded}
use dcfpe.Gyp.Targets.{unify, unlinked_of}
use dcfpe.Gyp.Targets.Lists.{without, is_link_dependency, unify-Unique, unlinked_of-total}
use dcfpe.Gyp.Validate.{PathParts, type_in, validate_sources_in_target, verify_no_colliding_targets}
use dcfpe.Gyp.Validate.Unique.{StandIn, Distinct, verify_no_colliding_targets_iff}
use dcfpe.Gyp.Validate.Sources.{AreApart, validate_sources_in_target_iff}
use dcfpe.Gyp.Options.{
  split_equals, token_value, name_values, name_value_list_to_dict, value_flags,
  regenerate_append_flag,
}
use dcfpe.Gyp.Options.Regenerated.{regenerate_append_flag-environment}
use dcfpe.Gyp.Options.Named.{item_of, IsUnnamed, IsTokenValue, name_value_list_to_dict-last}

is_str_canonical_int_iff_example :
    (is_str_canonical_int (codes "-10") ≡ true) ↔ ((n : ℤ) × (show_int n ≡ codes "-10"))
is_str_canonical_int_iff_example = is_str_canonical_int_iff (codes "-10")

no_stem : has_stem (codes "+?") ≡ false
unfolding has_stem
no_stem = refl

strip_operators-diverges_example : strip_operators 1000 (codes "+?") ≡ none
strip_operators-diverges_example = strip_operators-diverges 1000 (codes "+?") no_stem

abbrev sources_plus : Text
sources_plus = codes "sources+"

stem : has_stem sources_plus ≡ true
unfolding has_stem
stem = refl

is_path_section-total_example :
    (base operators : Text) × (sources_plus ≡ base ++ operators)
    × (has_stem operators ≡ false)
    × (ends_in_operator base ≡ false)
    × (is_path_section (codes "sources" ∷ []) sources_plus
        ≡ ok (contains base (codes "sources" ∷ []) || names_a_path base))
is_path_section-total_example = is_path_section-total (codes "sources" ∷ []) sources_plus stem

-- Paths with "/" only, joined as they are.
abbrev plain_tools : PathTools
plain_tools = record {
  dirname = λ p. p;
  join = λ p q. p ++ b'/' ∷ q;
  normpath = λ p. p;
  relative_path = λ p q. p;
}

abbrev x : Text
x = codes "x"

abbrev y : Text
y = codes "y"

merge_lists-append_example :
    (new : List Text) × (merge_lists plain_tools [] x y false true
        (str x ∷ [])
        (map str (x ∷ y ∷ y ∷ []))
      ≡ ok ((str x ∷ []) ++ map str new))
    × ((s : Text) → is_singleton s ≡ false → count s new ≡ count s (x ∷ y ∷ y ∷ []))
    × ((s : Text)
        → is_singleton s ≡ true
        → count s new ≡ (
            if item_in (str s) (str x ∷ [])
            then 0
            else if contains s (x ∷ y ∷ y ∷ [])
            then 1
            else 0))
merge_lists-append_example = merge_lists-append plain_tools [] x y (str x ∷ []) (x ∷ y ∷ y ∷ [])

xy-Nodup : Nodup (x ∷ y ∷ [])
unfolding contains text_eq
xy-Nodup = (refl, (refl, tt))

merge_lists-prepend_example :
    merge_lists plain_tools [] x y false false (str (codes "z") ∷ str y ∷ []) (map str (x ∷ y ∷ []))
    ≡ ok (map str (x ∷ y ∷ []) ++ staying (x ∷ y ∷ []) (str (codes "z") ∷ str y ∷ []))
merge_lists-prepend_example =
    merge_lists-prepend plain_tools [] x y (str (codes "z") ∷ str y ∷ []) (x ∷ y ∷ []) xy-Nodup

-- A repeated string of the prepended list ends up behind an item that was there before.
prepended_twice :
    merge_lists plain_tools [] x y false false (str (codes "z") ∷ []) (map str (x ∷ y ∷ x ∷ []))
    ≡ ok (str y ∷ str (codes "z") ∷ str x ∷ [])
unfolding merge_lists fix_text place insert_at starts_with remove_all same_item
prepended_twice = refl

unfoldable starts_alike : Text → Text → Bool
starts_alike [] s = true
starts_alike (c ∷ p) [] = false
starts_alike (c ∷ p) (d ∷ s) = c == d

-- Patterns that are searched as plain first characters.
abbrev first_characters : Regex
first_characters = record { compile = λ p. some (λ s. starts_alike p s) }

abbrev exclude_x : List Value
exclude_x = list (put (str (codes "exclude")) (put (str x) no_items)) ∷ []

filter_list-texts_example : filter_list first_characters (map str (x ∷ y ∷ [])) [] exclude_x ≡ (
    rules first_characters exclude_x >>= λ rs. ok (
      map str (keep (λ t. not (is_excluded [] rs t)) (x ∷ y ∷ [])),
      map str (keep (is_excluded [] rs) (x ∷ y ∷ [])),
    ))
filter_list-texts_example = filter_list-texts first_characters (x ∷ y ∷ []) [] exclude_x

unify-Unique_example :
    Nodup (unify (x ∷ y ∷ x ∷ []))
    × ((z : Text) → contains z (unify (x ∷ y ∷ x ∷ [])) ≡ contains z (x ∷ y ∷ x ∷ []))
    × ((z : Text) → unify (z ∷ x ∷ y ∷ x ∷ []) ≡ z ∷ without (z ∷ []) (unify (x ∷ y ∷ x ∷ [])))
unify-Unique_example = unify-Unique (x ∷ y ∷ x ∷ [])

abbrev x_and_y : Targets
x_and_y =
    (x, (codes "variables", dict (field (codes "link_dependency") (int (pos 1)) no_fields)) ∷ [])
    ∷ (y, [])
    ∷ []

known : All (λ t. has_key t x_and_y ≡ true) (x ∷ y ∷ [])
unfolding has_key text_eq
known = (refl, (refl, tt))

unlinked_of-total_example :
    (r : List Text) × (unlinked_of x_and_y (x ∷ y ∷ []) (x ∷ y ∷ []) ≡ ok r)
    × ((z : Text)
        → contains z r ≡ (
            contains z (x ∷ y ∷ [])
            && not (contains z (x ∷ y ∷ []) && is_link_dependency x_and_y z)))
unlinked_of-total_example = unlinked_of-total x_and_y (x ∷ y ∷ []) (x ∷ y ∷ []) known

-- Every file is "x.c"-like: its basename is its whole text.
abbrev plain_parts : PathParts
plain_parts = record { splitext = λ p. (p, codes ".c"); basename = λ p. p; split = λ p. (p, []) }

abbrev library : Dict Text Value
library =
    (codes "type", str (codes "static_library"))
    ∷ (codes "sources", list (put (str x) (put (str y) no_items)))
    ∷ []

validate_sources_in_target_iff_example :
    (validate_sources_in_target plain_parts x library true ≡ ok tt) ↔ (
      (true ≡ false)
      ⊎ ((type_in
              (codes "static_library" ∷ codes "shared_library" ∷ [])
              (text_at (codes "type") library)
            ≡ false)
          ⊎ AreApart plain_parts (texts_at (codes "sources") library)))
validate_sources_in_target_iff_example = validate_sources_in_target_iff plain_parts x library true

verify_no_colliding_targets_iff_example :
    (verify_no_colliding_targets plain_parts (codes "a.gyp:x" ∷ codes "b.gyp:x" ∷ []) ≡ ok tt) ↔ (
      (places : List (Text × Text)) × StandIn plain_parts
        (codes "a.gyp:x" ∷ codes "b.gyp:x" ∷ [])
        places
      × Distinct plain_parts places)
verify_no_colliding_targets_iff_example =
    verify_no_colliding_targets_iff plain_parts (codes "a.gyp:x" ∷ codes "b.gyp:x" ∷ [])

regenerate_append_flag-environment_example :
    (first : List Text) × (regenerate_append_flag
        (codes "-D")
        (x ∷ [])
        (λ v. v)
        (some (y ∷ x ∷ y ∷ []))
        true
      ≡ first ++ value_flags (codes "-D") (λ v. v) (x ∷ []))
    × Nodup first
    × ((z : Text)
        → contains z first ≡ contains z (value_flags (codes "-D") (λ v. v) (y ∷ x ∷ y ∷ [])))
regenerate_append_flag-environment_example =
    regenerate_append_flag-environment (codes "-D") (x ∷ []) (λ v. v) (y ∷ x ∷ y ∷ [])

abbrev only_one : Text → Option ℤ
only_one t = if text_eq t (codes "1") then some (pos 1) else none

name_value_list_to_dict-last_example :
    ((before after : List Text) (rest : Option Text)
      → IsUnnamed x after
      → (v : Value) × (lookup x
            (name_value_list_to_dict only_one (before ++ item_of x rest ∷ after))
          ≡ some v)
        × IsTokenValue only_one rest v)
    × ((items : List Text)
        → IsUnnamed x items
        → lookup x (name_value_list_to_dict only_one items) ≡ none)
unfolding contains
name_value_list_to_dict-last_example = name_value_list_to_dict-last only_one x refl

one_overrides :
    name_value_list_to_dict only_one (codes "a=b=c" ∷ codes "d" ∷ codes "a=1" ∷ [])
    ≡ (codes "a", int (pos 1)) ∷ (codes "d", bool true) ∷ []
unfolding name_value_list_to_dict name_values split_equals token_value insert text_eq
one_overrides = refl
