-- ===== src/Samples/Variables.antt =====
-- `LoadVariablesFromVariablesDict` of src/tools/pylib_dbg/input.py at a concrete dict.
use dcfpe.Common.{
  ◌≡◌, refl, false, some, [], ◌∷◌, Text, codes, text_eq, text_Eq, contains, Dict, lookup, insert,
  has_key, get_last?, drop_last,
}
use dcfpe.Gyp.Value.{Value, str, dict, of_dict, dict_at}
use dcfpe.Gyp.Variables.{
  load_variables_from_variables_dict, load_each, load_entry, default_name, default_value,
}
use dcfpe.Gyp.Variables.Precedence.{chosen, load_variables_from_variables_dict-chosen}

abbrev arch : Text
arch = codes "arch"

abbrev os : Text
os = codes "os"

-- "os" is set whatever it was, "arch" only if it is unset.
abbrev definitions : Dict Text Value
definitions = (codes "arch%", str (codes "x86")) ∷ (os, str (codes "win")) ∷ []

abbrev target : Dict Text Value
target = (codes "variables", dict (of_dict definitions)) ∷ []

abbrev known : Dict Text Value
known = (os, str (codes "mac")) ∷ []

os_overridden :
    lookup os (load_variables_from_variables_dict known target false) ≡ some (str (codes "win"))
unfolding load_variables_from_variables_dict load_each load_entry default_name default_value dict_at
    lookup insert has_key get_last? drop_last text_eq
os_overridden = refl

load_variables_from_variables_dict-chosen_example :
    lookup arch (load_variables_from_variables_dict known target false) ≡ some (str (codes "x86"))
unfolding chosen default_name default_value dict_at lookup get_last? drop_last text_eq contains
load_variables_from_variables_dict-chosen_example =
    load_variables_from_variables_dict-chosen known target false arch (refl, (refl, tt))
