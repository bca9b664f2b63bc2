-- ===== src/Gyp/Names/Groups.antt =====
-- What `FindEnclosingBracketGroup` finds: the first group of brackets that closes.
use dcfpe.Common.{
  ℕ, suc, ◌+◌, ◌≡◌, ◌∙◌, ◌↔◌, sym, ap, ap₂, refl, inl, inr, true, false, Option, none, some, List,
  [], ◌∷◌, ◌++◌, ◌==◌, ==_iff, length, All, Text, Bool-cases, Option-cases, arith,
}
use dcfpe.Gyp.Names.Brackets.{is_open, opening, find_from, find_enclosing_bracket_group}

-- A character that is no bracket.
abbrev pub IsPlain : ℕ → Type 0
IsPlain c = (is_open c ≡ false) × (opening c ≡ none)

-- The text closes the open brackets of the stack, each by its own kind, and the last one with its
-- last character.
pub data Closes : List ℕ → Text → Type 0 where
  plain :
      {b c : ℕ} {below : List ℕ} {s : Text}
      → IsPlain c
      → Closes (b ∷ below) s
      → Closes (b ∷ below) (c ∷ s)
  open_one :
      {b c : ℕ} {below : List ℕ} {s : Text}
      → is_open c ≡ true
      → Closes (c ∷ b ∷ below) s
      → Closes (b ∷ below) (c ∷ s)
  close_one :
      {a b c : ℕ} {below : List ℕ} {s : Text}
      → is_open c ≡ false
      → opening c ≡ some b
      → Closes (a ∷ below) s
      → Closes (b ∷ a ∷ below) (c ∷ s)
  close_last : {b c : ℕ} → is_open c ≡ false → opening c ≡ some b → Closes (b ∷ []) (c ∷ [])

-- A text in three parts: no brackets, a group from its opening bracket to its closing one, and the
-- rest; `index` is the position of the first character.
pub record HasGroup (index : ℕ) (s : Text) (start : Option ℕ) (stop : ℕ) : Type 0 where
  pub before : Text
  pub bracket : ℕ
  pub inside : Text
  pub after : Text
  pub parts : s ≡ before ++ bracket ∷ inside ++ after
  pub no_brackets : All IsPlain before
  pub opens : is_open bracket ≡ true
  pub closes : Closes (bracket ∷ []) inside
  pub starts : start ≡ some (index + length before)
  pub stops : stop ≡ index + length before + suc (length inside)

record Closed (i index : ℕ) (stack : List ℕ) (s : Text) (start : Option ℕ) (stop : ℕ) : Type 0 where
  group : Text
  after : Text
  parts : s ≡ group ++ after
  closes : Closes stack group
  starts : start ≡ some i
  stops : stop ≡ index + length group

abbrev found : ℕ → ℕ → Option (Option ℕ × ℕ)
found start stop = some (some start, stop)

==_refl : (n : ℕ) → (n == n) ≡ true
==_refl n = ground arith

module _ (i : ℕ) where
  Closed-step :
      {index : ℕ} {stack stack' : List ℕ} {c : ℕ} {s : Text} {start : Option ℕ} {stop : ℕ}
      → ((group : Text) → Closes stack' group → Closes stack (c ∷ group))
      → Closed i (index + 1) stack' s start stop
      → Closed i index stack (c ∷ s) start stop
  Closed-step {c} f k = record {
    group = c ∷ k.group;
    after = k.after;
    parts = ap (λ l. c ∷ l) k.parts;
    closes = f k.group k.closes;
    starts = k.starts;
    stops = omega (arith, k.stops);
  }

  find_from-Closed :
      (index b : ℕ) (below : List ℕ) (s : Text) (start : Option ℕ) (stop : ℕ)
      → find_from (some i) index (b ∷ below) s ≡ some (start, stop)
      → Closed i index (b ∷ below) s start stop
  unfolding find_from
  find_from-Closed index b below [] start stop e = absurd (ground arith)
  find_from-Closed index b below (c ∷ s) start stop e = elim (Bool-cases (is_open c)) [
    | inl opens ↦
        Closed-step (λ t. open_one opens)
          (find_from-Closed (index + 1) c (b ∷ below) s start stop (rw (opens, find_from) at e))
    | inr no_open ↦ elim (Option-cases (opening c)) [
      | inl no_close ↦
          Closed-step (λ t. plain (no_open, no_close))
            (find_from-Closed (index + 1) b below s start stop
              (rw (no_open, no_close, find_from) at e))
      | inr (bracket, closing) ↦ elim (Bool-cases (b == bracket)) [
        | inr wrong ↦
            let e' : none ≡ some (start, stop) = (rw (no_open, closing, wrong, find_from) at e) in
            absurd (ground arith)
        | inl right ↦
            closed_by bracket closing no_open ((==_iff b bracket).0 right) below
              (λ a below' e'. find_from-Closed (index + 1) a below' s start stop e')
              (rw (no_open, closing, right, find_from) at e)
      ]
    ]
  ]
    where
      closed_by :
          (bracket : ℕ)
          → opening c ≡ some bracket
          → is_open c ≡ false
          → b ≡ bracket
          → (below : List ℕ)
          → ((a : ℕ) (below' : List ℕ)
              → find_from (some i) (index + 1) (a ∷ below') s ≡ some (start, stop)
              → Closed i (index + 1) (a ∷ below') s start stop)
          → (let rest = find_from (some i) (index + 1) below s in
              elim below [ [] ↦ found i (index + 1) | _ ∷ _ ↦ rest ])
            ≡ some (start, stop)
          → Closed i index (b ∷ below) (c ∷ s) start stop
      closed_by bracket closing no_open same [] further e = record {
        group = c ∷ [];
        after = s;
        parts = refl;
        closes = close_last no_open (rw same closing);
        starts = ground arith;
        stops = ground arith;
      }
      closed_by bracket closing no_open same (a ∷ below) further e =
          Closed-step (λ t. close_one no_open (rw same closing)) (further a below e)

  Closes-find_from :
      {stack : List ℕ} {group : Text} (index : ℕ) (after : Text)
      → Closes stack group
      → find_from (some i) index stack (group ++ after) ≡ found i (index + length group)
  unfolding find_from
  Closes-find_from index after (plain {b} {c} {below} {s} (no_open, no_close) k) =
      rw (no_open, no_close, find_from)
        (Closes-find_from (index + 1) after k ∙ ap (found i) (omega arith))
  Closes-find_from index after (open_one {b} {c} {below} {s} opens k) =
      rw (opens, find_from) (Closes-find_from (index + 1) after k ∙ ap (found i) (omega arith))
  Closes-find_from index after (close_one {a} {b} {c} {below} {s} no_open closing k) =
      rw (no_open, closing, find_from, ==_refl b)
        (Closes-find_from (index + 1) after k ∙ ap (found i) (omega arith))
  Closes-find_from index after (close_last {b} {c} no_open closing) =
      rw (no_open, closing, find_from, ==_refl b) refl

find_from-HasGroup :
    (index : ℕ) (s : Text) (start : Option ℕ) (stop : ℕ)
    → find_from none index [] s ≡ some (start, stop)
    → HasGroup index s start stop
unfolding find_from
find_from-HasGroup index [] start stop e = absurd (ground arith)
find_from-HasGroup index (c ∷ s) start stop e = elim (Bool-cases (is_open c)) [
  | inl opens ↦
      let k = find_from-Closed index (index + 1) c [] s start stop (rw (opens, find_from) at e) in
      record {
        before = [];
        bracket = c;
        inside = k.group;
        after = k.after;
        parts = ap (λ l. c ∷ l) k.parts;
        no_brackets = tt;
        opens = opens;
        closes = k.closes;
        starts = k.starts ∙ ap some (omega arith);
        stops = omega (arith, k.stops);
      }
  | inr no_open ↦ elim (Option-cases (opening c)) [
    | inr (bracket, closing) ↦
        let e' : none ≡ some (start, stop) = (rw (no_open, closing, find_from) at e) in
        absurd (ground arith)
    | inl no_close ↦
        let h =
          find_from-HasGroup (index + 1) s start stop (rw (no_open, no_close, find_from) at e) in
        record {
          before = c ∷ h.before;
          bracket = h.bracket;
          inside = h.inside;
          after = h.after;
          parts = ap (λ l. c ∷ l) h.parts;
          no_brackets = ((no_open, no_close), h.no_brackets);
          opens = h.opens;
          closes = h.closes;
          starts = h.starts ∙ ap some (omega arith);
          stops = omega (arith, h.stops);
        }
  ]
]

HasGroup-find_from :
    (index : ℕ) (before : Text) (bracket : ℕ) (inside after : Text)
    → All IsPlain before
    → is_open bracket ≡ true
    → Closes (bracket ∷ []) inside
    → find_from none index [] (before ++ bracket ∷ inside ++ after)
      ≡ found (index + length before) (index + length before + suc (length inside))
unfolding find_from
HasGroup-find_from index [] bracket inside after p opens k =
    rw (opens, find_from)
      (Closes-find_from index (index + 1) after k ∙ ap₂ found (omega arith) (omega arith))
HasGroup-find_from index (c ∷ before) bracket inside after ((no_open, no_close), p) opens k =
    rw (no_open, no_close, find_from)
      (HasGroup-find_from (index + 1) before bracket inside after p opens k
        ∙ ap₂ found (omega arith) (omega arith))

-- `FindEnclosingBracketGroup` gives a start and an end exactly when the text has no bracket before an
-- opening one, and that one's group closes at that end, every bracket inside by its own kind: the
-- slice from the start to the end is that group.
pub find_enclosing_bracket_group_iff :
    (s : Text) (start : Option ℕ) (stop : ℕ)
    → (find_enclosing_bracket_group s ≡ some (start, stop)) ↔ HasGroup 0 s start stop
unfolding find_enclosing_bracket_group
find_enclosing_bracket_group_iff s start stop = (
  find_from-HasGroup 0 s start stop,
  λ h.
      ap (find_from none 0 []) h.parts
      ∙ (HasGroup-find_from 0 h.before h.bracket h.inside h.after h.no_brackets h.opens h.closes
          ∙ ap some (ap₂ (λ a b. (a, b)) (sym h.starts) (sym h.stops))),
)
