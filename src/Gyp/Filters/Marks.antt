-- ===== src/Gyp/Filters/Marks.antt =====
-- The marks that the filters of `ProcessListFiltersInDict` in src/tools/pylib_dbg/input.py leave on
-- the strings of a list.
use dcfpe.Common.{
  ◌≡◌, refl, ap, ap₂, ◌∙◌, inl, inr, Bool, true, false, ◌||◌, Option, none, some, List, [], ◌∷◌,
  map, if◌then◌else◌, Text, Bool-cases, Option-cases, arith,
}
use dcfpe.Common.Results.{ok, raise, ◌>>=◌}
use dcfpe.Gyp.Value.{Value, str}
use dcfpe.Gyp.Errors.{Gyp, value_error}
use dcfpe.Gyp.Filters.{
  Regex, value_eq, Action, undecided, excluded, included, same_action, Marked, unmarked,
  exclude_item, exclude_items, search_item, search_items, action_and_pattern, action_value,
  regex_step, regex_steps,
}

abbrev pub Rule : Type 0
Rule = Action × (Text → Bool)

-- A regex filter, read and compiled.
abbrev pub rule : Regex → Value → Gyp Rule
rule regex item = action_and_pattern item >>= λ r. elim (regex.compile r.1) [
  | none ↦ raise (value_error r.1)
  | some search ↦ action_value r.0 >>= λ action. ok (action, search)
]

unfoldable pub rules : Regex → List Value → Gyp (List Rule)
rules regex [] = ok []
rules regex (item ∷ items) = rule regex item >>= λ r. rules regex items >>= λ rs. ok (r ∷ rs)

-- The action of the last rule whose pattern is found in the string.
unfoldable pub last_match : List Rule → Text → Option Action
last_match [] t = none
last_match ((a, search) ∷ rs) t = elim (last_match rs t) [
  | some b ↦ some b
  | none ↦ if search t then some a else none
]

unfoldable pub is_listed : List Value → Text → Bool
is_listed [] t = false
is_listed (e ∷ es) t = value_eq e (str t) || is_listed es t

-- The last rule that matches decides; where none does, the exclusions do.
abbrev pub verdict : (listed : Bool) → Option Action → Bool
verdict listed none = listed
verdict listed (some a) = same_action a excluded

unfoldable pub is_excluded : List Value → List Rule → Text → Bool
is_excluded exclusions rs t = verdict (is_listed exclusions t) (last_match rs t)

unfoldable pub keep : (Text → Bool) → List Text → List Text
keep p [] = []
keep p (t ∷ ts) = let rest = keep p ts in if p t then t ∷ rest else rest

unfoldable pub marked : (Text → Action) → List Text → Marked
marked f [] = []
marked f (t ∷ ts) = (str t, f t) ∷ marked f ts

marked-ext :
    (f g : Text → Action) → ((t : Text) → f t ≡ g t) → (ts : List Text) → marked f ts ≡ marked g ts
unfolding marked
marked-ext f g h [] = refl
marked-ext f g h (t ∷ ts) = ap₂ (λ a m. (str t, a) ∷ m) (h t) (marked-ext f g h ts)

pub unmarked-map : (ts : List Text) → unmarked (map str ts) ≡ marked (λ t. undecided) ts
unfolding unmarked marked
unmarked-map [] = refl
unmarked-map (t ∷ ts) = ap (λ m. (str t, undecided) ∷ m) (unmarked-map ts)

exclude_item-marked :
    (e : Value) (f : Text → Action) (ts : List Text)
    → exclude_item e (marked f ts) ≡ marked (λ t. if value_eq e (str t) then excluded else f t) ts
unfolding exclude_item marked
exclude_item-marked e f [] = refl
exclude_item-marked e f (t ∷ ts) =
    ap (λ m. (str t, if value_eq e (str t) then excluded else f t) ∷ m) (exclude_item-marked e f ts)

pub exclude_items-marked :
    (es : List Value) (f : Text → Action) (ts : List Text)
    → exclude_items es (marked f ts) ≡ marked (λ t. if is_listed es t then excluded else f t) ts
unfolding exclude_items is_listed
exclude_items-marked [] f ts = refl
exclude_items-marked (e ∷ es) f ts = rw (exclude_item-marked e f ts) (
    exclude_items-marked es (λ t. if value_eq e (str t) then excluded else f t) ts
    ∙ marked-ext
        (λ t. if is_listed es t then excluded else if value_eq e (str t) then excluded else f t)
        (λ t. if value_eq e (str t) || is_listed es t then excluded else f t) (λ t. ground arith)
        ts)

same_action_eq : (a b : Action) → same_action a b ≡ true → a ≡ b
unfolding same_action
same_action_eq undecided undecided h = refl
same_action_eq excluded excluded h = refl
same_action_eq included included h = refl
same_action_eq undecided excluded h = absurd (ground arith)
same_action_eq undecided included h = absurd (ground arith)
same_action_eq excluded undecided h = absurd (ground arith)
same_action_eq excluded included h = absurd (ground arith)
same_action_eq included undecided h = absurd (ground arith)
same_action_eq included excluded h = absurd (ground arith)

search_item_str :
    (search : Text → Bool) (action : Action) (t : Text) (a : Action)
    → search_item search action (str t) a ≡ ok (if search t then action else a)
unfolding search_item
search_item_str search action t a = elim (Bool-cases (same_action a action)) [
  | inl h ↦ rw (h, same_action_eq a action h) (ground arith)
  | inr h ↦ rw h refl
]

search_items-marked :
    (search : Text → Bool) (action : Action) (f : Text → Action) (ts : List Text)
    → search_items search action (marked f ts)
      ≡ ok (marked (λ t. if search t then action else f t) ts)
unfolding search_items marked
search_items-marked search action f [] = refl
search_items-marked search action f (t ∷ ts) =
    rw (search_item_str search action t (f t), search_items-marked search action f ts) refl

abbrev pub decided : Action → Option Action → Action
decided a none = a
decided a (some b) = b

module _ (regex : Regex) (f : Text → Action) (ts : List Text) where
  -- What a rule makes of the marks.
  abbrev ruled : Rule → Marked
  ruled r = marked (λ t. if r.1 t then r.0 else f t) ts

  action_step :
      (search : Text → Bool) (a : Gyp Action)
      → (a >>= λ action. search_items search action (marked f ts))
        ≡ (a >>= (λ action. ok (action, search)) >>= λ r. ok (ruled r))
  action_step search (ok action) = search_items-marked search action f ts
  action_step search (raise e) = refl

  compiled_step :
      (action pattern : Text) (compiled : Option (Text → Bool))
      → elim compiled [
        | none ↦ raise (value_error pattern)
        | some search ↦ action_value action >>= λ a. search_items search a (marked f ts)
      ]
        ≡ (elim compiled [
          | none ↦ raise (value_error pattern)
          | some search ↦ action_value action >>= λ a. ok (a, search)
        ]
            >>= λ r. ok (ruled r))
  compiled_step action pattern none = refl
  compiled_step action pattern (some search) = action_step search (action_value action)

  item_step :
      (pair : Gyp (Text × Text))
      → (pair >>= λ r. elim (regex.compile r.1) [
        | none ↦ raise (value_error r.1)
        | some search ↦ action_value r.0 >>= λ a. search_items search a (marked f ts)
      ])
        ≡ (pair
            >>= (λ r. elim (regex.compile r.1) [
              | none ↦ raise (value_error r.1)
              | some search ↦ action_value r.0 >>= λ a. ok (a, search)
            ])
            >>= λ r. ok (ruled r))
  item_step (ok r) = compiled_step r.0 r.1 (regex.compile r.1)
  item_step (raise e) = refl

  regex_step-marked :
      (item : Value) → regex_step regex item (marked f ts) ≡ (rule regex item >>= λ r. ok (ruled r))
  unfolding regex_step
  regex_step-marked item = item_step (action_and_pattern item)

pub regex_steps-marked :
    (regex : Regex) (filters : List Value) (f : Text → Action) (ts : List Text)
    → regex_steps regex filters (marked f ts)
      ≡ (rules regex filters >>= λ rs. ok (marked (λ t. decided (f t) (last_match rs t)) ts))
unfolding regex_steps rules last_match
regex_steps-marked regex [] f ts = refl
regex_steps-marked regex (item ∷ items) f ts =
    rw (regex_step-marked regex f ts item)
      (after (rule regex item) (λ g. regex_steps-marked regex items g ts))
  where
    rest :
        (r : Rule) (more : Gyp (List Rule))
        → (more >>= λ rs.
            ok (marked (λ t. decided (if r.1 t then r.0 else f t) (last_match rs t)) ts))
          ≡ (more >>= (λ rs. ok (r ∷ rs)) >>= λ rs.
              ok (marked (λ t. decided (f t) (last_match rs t)) ts))
    rest r (ok rs) = ap ok (
        marked-ext (λ t. decided (if r.1 t then r.0 else f t) (last_match rs t))
          (λ t. decided (f t) (last_match (r ∷ rs) t))
          (λ t. elim (Option-cases (last_match rs t)) [
            | inl h ↦ rw h (ground arith)
            | inr h ↦ rw h.1 refl
          ])
          ts)
    rest r (raise e) = refl

    after :
        (m : Gyp Rule)
        → ((g : Text → Action)
            → regex_steps regex items (marked g ts)
              ≡ (rules regex items >>= λ rs. ok (marked (λ t. decided (g t) (last_match rs t)) ts)))
        → (m >>= (λ r. ok (ruled regex f ts r)) >>= λ x. regex_steps regex items x) ≡ (
            m >>= (λ r. rules regex items >>= λ rs. ok (r ∷ rs)) >>= λ rs.
            ok (marked (λ t. decided (f t) (last_match rs t)) ts))
    after (ok r) again = again (λ t. if r.1 t then r.0 else f t) ∙ rest r (rules regex items)
    after (raise e) again = refl
