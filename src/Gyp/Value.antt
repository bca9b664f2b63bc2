-- ===== src/Gyp/Value.antt =====
-- The values of a loaded build file: what Python's eval of a .gyp file gives, less None and floats.
-- Lists and dicts are types of the block, since a value holds them; `items_list` and `to_dict` give
-- them as lists, on which the operations of the other modules work.
use dcfpe.Common.{
  ℕ, zero, ◌≡◌, refl, ap, Bool, true, false, Option, none, some, List, [], ◌∷◌, Text, text_Eq, Dict,
  lookup,
}

-- An int of Python. `negsuc n` is -(n + 1).
pub data ℤ : Type 0 where
  pos : ℕ → ℤ
  negsuc : ℕ → ℤ

mutual
  pub data Value : Type 0 where
    bool : Bool → Value
    int : ℤ → Value
    str : Text → Value
    dict : Fields → Value
    list : Items → Value

  pub data Fields : Type 0 where
    no_fields : Fields
    field : Text → Value → Fields → Fields

  pub data Items : Type 0 where
    no_items : Items
    put : Value → Items → Items

abbrev pub items_list : Items → List Value
items_list no_items = []
items_list (put v vs) = v ∷ items_list vs

abbrev pub list_items : List Value → Items
list_items [] = no_items
list_items (v ∷ vs) = put v (list_items vs)

abbrev pub to_dict : Fields → Dict Text Value
to_dict no_fields = []
to_dict (field k v fs) = (k, v) ∷ to_dict fs

abbrev pub of_dict : Dict Text Value → Fields
of_dict [] = no_fields
of_dict ((k, v) ∷ d) = field k v (of_dict d)

pub items_list-list_items : (vs : List Value) → items_list (list_items vs) ≡ vs
items_list-list_items [] = refl
items_list-list_items (v ∷ vs) = ap (λ l. v ∷ l) (items_list-list_items vs)

pub to_dict-of_dict : (d : Dict Text Value) → to_dict (of_dict d) ≡ d
to_dict-of_dict [] = refl
to_dict-of_dict ((k, v) ∷ d) = ap (λ l. (k, v) ∷ l) (to_dict-of_dict d)

-- The strings of a list; where the code takes a list of names, other items are outside the model.
abbrev pub texts : Items → List Text
texts no_items = []
texts (put (str t) vs) = t ∷ texts vs
texts (put _ vs) = texts vs

abbrev pub of_texts : List Text → Items
of_texts [] = no_items
of_texts (t ∷ ts) = put (str t) (of_texts ts)

pub texts-of_texts : (ts : List Text) → texts (of_texts ts) ≡ ts
texts-of_texts [] = refl
texts-of_texts (t ∷ ts) = ap (λ l. t ∷ l) (texts-of_texts ts)

-- Python's truth of a value
abbrev pub truth : Value → Bool
truth (str []) = false
truth (str (c ∷ s)) = true
truth (int (pos zero)) = false
truth (int n) = true
truth (bool b) = b
truth (list no_items) = false
truth (list (put v vs)) = true
truth (dict no_fields) = false
truth (dict (field k v fs)) = true

-- `d.get(k, [])`, read as a list of names
unfoldable pub texts_at : Text → Dict Text Value → List Text
texts_at k d = elim (lookup k d) [ some (list vs) ↦ texts vs | _ ↦ [] ]

-- `d.get(k)`, where it is a string
unfoldable pub text_at : Text → Dict Text Value → Option Text
text_at k d = elim (lookup k d) [ some (str t) ↦ some t | _ ↦ none ]

-- the truth of `d.get(k, default)`
unfoldable pub truth_at : Text → Bool → Dict Text Value → Bool
truth_at k default d = elim (lookup k d) [ some v ↦ truth v | none ↦ default ]

-- `d.get(k, {})`
unfoldable pub dict_at : Text → Dict Text Value → Dict Text Value
dict_at k d = elim (lookup k d) [ some (dict fs) ↦ to_dict fs | _ ↦ [] ]

-- The target dicts, by their qualified names.
abbrev pub Targets : Type 0
Targets = Dict Text (Dict Text Value)
