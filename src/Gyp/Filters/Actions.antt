-- ===== src/Gyp/Filters/Actions.antt =====
-- Which strings of a list the filters of `ProcessListFiltersInDict` in
-- src/tools/pylib_dbg/input.py exclude.
use dcfpe.Common.{
  ◌≡◌, refl, ap, ap₂, ◌∙◌, inl, inr, Bool, true, false, not, Option, none, some, List, [], ◌∷◌, map,
  if◌then◌else◌, Text, Bool-cases,
}
use dcfpe.Common.Results.{ok, raise, ◌>>=◌}
use dcfpe.Gyp.Value.{Value, str}
use dcfpe.Gyp.Errors.{Gyp}
use dcfpe.Gyp.Filters.{Regex, Action, undecided, excluded, same_action, partition, filter_list}
use dcfpe.Gyp.Filters.Marks.{
  Rule, rules, last_match, is_listed, verdict, is_excluded, keep, marked, unmarked-map,
  exclude_items-marked, decided, regex_steps-marked,
}

partition-marked :
    (f : Text → Action) (ts : List Text)
    → partition (marked f ts) ≡ (
      map str (keep (λ t. not (same_action (f t) excluded)) ts),
      map str (keep (λ t. same_action (f t) excluded) ts),
    )
unfolding partition marked keep
partition-marked f [] = refl
partition-marked f (t ∷ ts) = elim (Bool-cases (same_action (f t) excluded)) [
  | inl h ↦ rw (h, partition-marked f ts) refl
  | inr h ↦ rw (h, partition-marked f ts) refl
]

keep-ext : (p q : Text → Bool) → ((t : Text) → p t ≡ q t) → (ts : List Text) → keep p ts ≡ keep q ts
unfolding keep
keep-ext p q h [] = refl
keep-ext p q h (t ∷ ts) = rw (h t, keep-ext p q h ts) refl

decided-verdict :
    (listed : Bool) (o : Option Action)
    → same_action (decided (if listed then excluded else undecided) o) excluded ≡ verdict listed o
unfolding same_action
decided-verdict true none = refl
decided-verdict false none = refl
decided-verdict listed (some a) = refl

decided-is_excluded :
    (exclusions : List Value) (rs : List Rule) (t : Text)
    → same_action
        (decided (if is_listed exclusions t then excluded else undecided) (last_match rs t))
        excluded
      ≡ is_excluded exclusions rs t
unfolding is_excluded
decided-is_excluded exclusions rs t = decided-verdict (is_listed exclusions t) (last_match rs t)

-- Filtering a list of strings: the exclusions and regex filters fail as reading and compiling the
-- filters one after the other does; otherwise the list is parted, in its order, into the strings
-- that are not excluded and those that are, where the last filter whose pattern is found in a string
-- decides, and the exclusions if there is none.
pub filter_list-texts :
    (regex : Regex) (ts : List Text) (exclusions filters : List Value)
    → filter_list regex (map str ts) exclusions filters ≡ (
        rules regex filters >>= λ rs. ok (
          map str (keep (λ t. not (is_excluded exclusions rs t)) ts),
          map str (keep (is_excluded exclusions rs) ts),
        ))
unfolding filter_list
filter_list-texts regex ts exclusions filters =
    rw
      (
        unmarked-map ts,
        exclude_items-marked exclusions (λ t. undecided) ts,
        regex_steps-marked regex filters
            (λ t. if is_listed exclusions t then excluded else undecided) ts,
      )
      (parted (rules regex filters))
  where
    parted :
        (m : Gyp (List Rule))
        → (m
            >>= (λ rs. ok (
                marked
                  (λ t.
                    decided
                      (if is_listed exclusions t then excluded else undecided)
                      (last_match rs t))
                  ts))
            >>= λ x. ok (partition x))
          ≡ (m >>= λ rs. ok (
            map str (keep (λ t. not (is_excluded exclusions rs t)) ts),
            map str (keep (is_excluded exclusions rs) ts),
          ))
    parted (ok rs) = ap ok (
        partition-marked
          (λ t. decided (if is_listed exclusions t then excluded else undecided) (last_match rs t))
          ts
        ∙ ap₂ (λ xs ys. (map str xs, map str ys))
            (keep-ext
              (λ t. not (
                same_action
                  (decided (if is_listed exclusions t then excluded else undecided)
                    (last_match rs t))
                  excluded))
              (λ t. not (is_excluded exclusions rs t))
              (λ t. ap not (decided-is_excluded exclusions rs t)) ts)
            (keep-ext
              (λ t.
                same_action
                  (decided (if is_listed exclusions t then excluded else undecided)
                    (last_match rs t))
                  excluded)
              (is_excluded exclusions rs) (decided-is_excluded exclusions rs) ts))
    parted (raise e) = refl
