-- ===== src/Gyp/Options/Named.antt =====
-- Which names and values `NameValueListToDict` of src/tools/pylib_dbg/__init__.py finds.
use dcfpe.Common.{
  ◌≡◌, refl, sym, ◌∙◌, ap, inl, inr, true, false, Option, none, some, List, [], ◌∷◌, ◌++◌, ◌==◌,
  Text, text_eq_iff, text_Eq, nat_eq, ◌=?◌, =?_eq, contains, Dict, lookup, lookup-insert,
  lookup-insert_self, insert, Bool-cases, arith,
}
use dcfpe.Gyp.Value.{ℤ, Value, str, int, bool}
use dcfpe.Gyp.Options.{split_equals, token_value, name_values, name_value_list_to_dict}

-- A NAME=VALUE item is taken apart at its first "=": the name has none, and the two parts make up
-- the item again; an item without "=" is a name only.
split_equals-Parts :
    (item : Text)
    → (((value : Text)
          → (split_equals item).1 ≡ some value
          → item ≡ (split_equals item).0 ++ b'=' ∷ value)
        × ((split_equals item).1 ≡ none → item ≡ (split_equals item).0))
      × (contains b'=' (split_equals item).0 ≡ false)
unfolding split_equals contains
split_equals-Parts [] = (((λ v h. absurd (ground arith)), λ h. refl), refl)
split_equals-Parts (c ∷ s) = elim (Bool-cases (c == b'=')) [
  | inl h ↦ rw h (((λ v e. ground arith), (λ e. absurd (ground arith))), refl)
  | inr h ↦
      let rest = split_equals-Parts s in
      rw h (
        ((λ v e. ap (λ l. c ∷ l) (rest.0.0 v e)), (λ e. ap (λ l. c ∷ l) (rest.0.1 e))),
        ground (arith, rest.1),
      )
]

-- NAME or NAME=VALUE
abbrev pub item_of : Text → Option Text → Text
item_of name none = name
item_of name (some value) = name ++ b'=' ∷ value

-- The value of a name: true by itself, an int where the text behind "=" is one, and else that text.
abbrev pub IsTokenValue : (Text → Option ℤ) → Option Text → Value → Type 0
IsTokenValue int_of none v = v ≡ bool true
IsTokenValue int_of (some t) v =
    ((n : ℤ) → int_of t ≡ some n → v ≡ int n) × (int_of t ≡ none → v ≡ str t)

token_value-IsTokenValue :
    (int_of : Text → Option ℤ) (rest : Option Text)
    → IsTokenValue int_of rest (token_value int_of rest)
unfolding token_value
token_value-IsTokenValue int_of none = refl
token_value-IsTokenValue int_of (some t) =
    ((λ n h. rw (h, token_value) refl), (λ h. rw (h, token_value) refl))

abbrev parts : Text → Option Text → Text × Option Text
parts name rest = (name, rest)

split_equals-item_of :
    (name : Text) (rest : Option Text)
    → contains b'=' name ≡ false
    → split_equals (item_of name rest) ≡ parts name rest
unfolding split_equals contains
split_equals-item_of [] none h = refl
split_equals-item_of [] (some value) h = refl
split_equals-item_of (c ∷ name) none h = elim (Bool-cases (c == b'=')) [
  | inl same ↦ absurd (ground arith)
  | inr other ↦ rw (other, split_equals-item_of name none (ground arith)) refl
]
split_equals-item_of (c ∷ name) (some value) h = elim (Bool-cases (c == b'=')) [
  | inl same ↦ absurd (ground arith)
  | inr other ↦ rw (other, split_equals-item_of name (some value) (ground arith)) refl
]

item_of-split_equals : (item : Text) → item ≡ item_of (split_equals item).0 (split_equals item).1
item_of-split_equals item = by_rest (split_equals item).1 refl
  where
    by_rest :
        (rest : Option Text)
        → (split_equals item).1 ≡ rest
        → item ≡ item_of (split_equals item).0 (split_equals item).1
    by_rest none e = rw e ((split_equals-Parts item).0.1 e)
    by_rest (some value) e = rw e ((split_equals-Parts item).0.0 value e)

-- No item of the list is for the name.
abbrev pub IsUnnamed : Text → List Text → Type 0
IsUnnamed name items = (rest : Option Text) → contains (item_of name rest) items ≡ false

module _ (int_of : Text → Option ℤ) where
  name_values_other :
      (name : Text) (items : List Text) (result : Dict Text Value)
      → IsUnnamed name items
      → lookup name (name_values int_of items result) ≡ lookup name result
  unfolding name_values contains
  name_values_other name [] result h = refl
  name_values_other name (item ∷ items) result h =
      let tokens = split_equals item in
      name_values_other name items (insert tokens.0 (token_value int_of tokens.1) result)
        (λ rest. ground (arith, h rest))
      ∙ (lookup-insert tokens.0 name (token_value int_of tokens.1) result
          ∙ elim (Bool-cases (name =? tokens.0)) [
            | inr other ↦ rw other refl
            | inl same ↦
                let whole : item ≡ item_of name tokens.1 =
                  item_of-split_equals item
                  ∙ ap (λ n. item_of n tokens.1) (sym (=?_eq name tokens.0 same)) in
                absurd (ground (arith, h tokens.1, text_eq_iff (item_of name tokens.1) item))
          ])

  name_values-append :
      (before after : List Text) (result : Dict Text Value)
      → name_values int_of (before ++ after) result
        ≡ name_values int_of after (name_values int_of before result)
  unfolding name_values
  name_values-append [] after result = refl
  name_values-append (item ∷ before) after result = name_values-append before after _

  -- For a name without "=": a list of NAME=VALUE and NAME items gives it the value of the last item
  -- that is for it, which is true for NAME alone, an int where VALUE is one, and else VALUE; and no
  -- value if no item is for it.
  pub name_value_list_to_dict-last :
      (name : Text)
      → contains b'=' name ≡ false
      → ((before after : List Text) (rest : Option Text)
          → IsUnnamed name after
          → (v : Value) × (lookup name
                (name_value_list_to_dict int_of (before ++ item_of name rest ∷ after))
              ≡ some v)
            × IsTokenValue int_of rest v)
        × ((items : List Text)
            → IsUnnamed name items
            → lookup name (name_value_list_to_dict int_of items) ≡ none)
  unfolding name_value_list_to_dict name_values lookup
  name_value_list_to_dict-last name plain = (
    (λ before after rest last.
        let result = name_values int_of before [] in
        let split = split_equals-item_of name rest plain in
        (
          token_value int_of rest,
          ap (lookup name) (name_values-append before (item_of name rest ∷ after) [])
              ∙ (name_values_other name after _ last
                  ∙ rw split (lookup-insert_self name (token_value int_of rest) result)),
          token_value-IsTokenValue int_of rest,
        )),
    (λ items unnamed. name_values_other name items [] unnamed),
  )
