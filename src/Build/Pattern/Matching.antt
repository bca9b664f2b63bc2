-- ===== src/Build/Pattern/Matching.antt =====
-- What `match_one` of src/build.py decides: the usual meaning of a pattern with stars.
use dcfpe.Common.{
  ℕ, zero, suc, ◌+◌, ◌≤◌, ◌≡◌, refl, sym, subst, ◌≢◌, ◌↔◌, inl, inr, Bool, true, Option, none, some,
  [], ◌∷◌, ◌==◌, length, Text, Bool-cases, arith,
}
use dcfpe.Build.Pattern.{star, Back, rest_after, retry, only_stars, scan, scan_fuel, match_one}
use dcfpe.Build.Pattern.Stars.{
  Matches, same, leave, take, IsPlain, same_inv, only_stars-sound, only_stars_complete, after_star,
  double_star, star_empty, past_literal, scan-some,
}

abbrev BackIsPlain : Back → Type 0
BackIsPlain none = Unit
BackIsPlain (some (bs, bp)) = IsPlain bs

-- `G` is the question that was asked at the start.
module _ (G : Type 0) where
  abbrev Saved : Text → Text → Back → Type 0
  Saved p s none = G → Matches p s
  Saved p s (some (bs, bp)) =
      (G → Matches (star ∷ bp) bs)
      × (Matches (star ∷ bp) bs → G)
      × (Matches bp bs → Matches p s)
      × (length s ≤ length bs)

  record Inv (s p : Text) (back : Back) : Type 0 where
    plain : IsPlain s
    back_plain : BackIsPlain back
    now : Matches p s → G
    later : G → Matches (star ∷ p) s
    saved : Saved p s back

  abbrev Right : Bool → Type 0
  Right b = (b ≡ true → G) × (G → b ≡ true)

  Right-only_stars : (p : Text) (back : Back) → Inv [] p back → Right (only_stars p)
  Right-only_stars p back i =
      (λ h. i.now (only_stars-sound p h), λ g. only_stars_complete p (star_empty (i.later g)))

  IsPlain-rest_after : (s : Text) → IsPlain s → IsPlain (rest_after s)
  unfolding rest_after
  IsPlain-rest_after [] h = tt
  IsPlain-rest_after (c ∷ s) h = h.1

  restart :
      (s p : Text)
      → IsPlain s
      → (G → Matches (star ∷ p) s)
      → (Matches (star ∷ p) s → G)
      → Inv s p (some (s, p))
  restart s p h to fro = record {
    plain = h;
    back_plain = h;
    now = λ d. fro (leave refl d);
    later = to;
    saved = (to, fro, λ d. d, omega arith);
  }

  retry-Right :
      (c : ℕ) (s p : Text) (back : Back) (next : Text → Text → Back → Option Bool) (b : Bool)
      → ((s' p' : Text) → Inv s' p' (some (s', p')) → next s' p' (some (s', p')) ≡ some b → Right b)
      → Inv (c ∷ s) p back
      → ¬ Matches p (c ∷ s)
      → retry back next ≡ some b
      → Right b
  unfolding retry
  retry-Right c s p none next b ih i stuck e = (λ h. cc, λ g. absurd (stuck (i.saved g)))
  retry-Right c s p (some ([], bp)) next b ih i stuck e = absurd (omega arith)
  retry-Right c s p (some (x ∷ bs, bp)) next b ih i stuck e =
      let (to, fro, down, _) = i.saved in
      ih bs bp
        (restart bs bp i.back_plain.1 (λ g. after_star (to g) refl (λ d. stuck (down d)))
          (λ d. fro (take refl d)))
        (unfold rest_after in e)

  Saved-literal :
      (b c : ℕ) (s p : Text) (back : Back) → b ≢ star → Saved (b ∷ p) (c ∷ s) back → Saved p s back
  Saved-literal b c s p none n h = λ g. (same_inv n (h g)).1
  Saved-literal b c s p (some (bs, bp)) n (to, fro, down, le) =
      (to, fro, λ d. (same_inv n (down d)).1, omega arith)

  literal :
      (b c : ℕ) (s p : Text) (back : Back)
      → b ≢ star
      → b ≡ c
      → Inv (c ∷ s) (b ∷ p) back
      → Inv s p back
  literal b c s p back n e i = record {
    plain = i.plain.1;
    back_plain = i.back_plain;
    now = λ d. i.now (same n e d);
    later = λ g. past_literal s refl n (i.later g);
    saved = Saved-literal b c s p back n i.saved;
  }

  scan-Right :
      (f : ℕ) (s p : Text) (back : Back) (b : Bool)
      → Inv s p back
      → scan f s p back ≡ some b
      → Right b
  unfolding scan
  scan-Right zero s p back b i e = cc
  scan-Right (suc f) [] p back b i e =
      let same_answer : only_stars p ≡ b = cc in subst Right same_answer (Right-only_stars p back i)
  scan-Right (suc f) (c ∷ s) [] back b i e =
      retry-Right c s [] back (scan f) b (λ s' p'. scan-Right f s' p' (some (s', p')) b) i
        (λ d. elim d [ ]) e
  scan-Right (suc f) (c ∷ s) (a ∷ p) back b i e = elim (Bool-cases (c == a)) [
    | inl h ↦
        let same_char : a ≡ c = ground arith in
        scan-Right f s p back b (literal a c s p back (λ k. i.plain.0 (ground arith)) same_char i)
          (rw h at e)
    | inr h ↦ elim (Bool-cases (a == star)) [
      | inl h' ↦
          let starred : a ≡ star = ground arith in
          scan-Right f (c ∷ s) p (some (c ∷ s, p)) b
            (restart (c ∷ s) p i.plain
              (λ g.
                subst (λ x. Matches (x ∷ p) (c ∷ s)) starred (double_star refl starred (i.later g)))
              (λ d. i.now (subst (λ x. Matches (x ∷ p) (c ∷ s)) (sym starred) d)))
            (rw (h, h') at e)
      | inr h' ↦
          retry-Right c s (a ∷ p) back (scan f) b (λ s' p'. scan-Right f s' p' (some (s', p')) b) i
            (λ d. absurd (ground (arith, (same_inv (λ k. ground arith) d).0))) (rw (h, h') at e)
    ]
  ]

-- Some result is reached, whatever the two texts are: the fuel is enough.
pub scan-total :
    (target pattern : Text)
    → (b : Bool) × (scan (scan_fuel target pattern) target pattern none ≡ some b)
scan-total target pattern =
    scan-some (scan_fuel target pattern) (length target) (length pattern + 1) target pattern none
      (omega arith) (omega arith) (grind arith) tt

-- For a target with no star of its own, `match_one` answers true exactly on the patterns that
-- match it.
pub match_one_iff :
    (target pattern : Text)
    → IsPlain target
    → (match_one target pattern ≡ true) ↔ Matches pattern target
unfolding match_one
match_one_iff target pattern h =
    let (b, e) = scan-total target pattern in
    let right =
      scan-Right (Matches pattern target) (scan_fuel target pattern) target pattern none b
        (record { plain = h; back_plain = tt; now = λ d. d; later = leave refl; saved = λ d. d })
        e in
    (λ t. right.0 (ground (arith, e)), λ d. rw e (right.1 d))
