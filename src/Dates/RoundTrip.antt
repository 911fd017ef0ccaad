-- ===== src/Dates/RoundTrip.antt =====
-- A date of three fragments, written in KTMB's order and read back.
use Prim.Native.Char.{Char, code}
use text.Mathlib.TextEquality.{Char-path}
use nitroso_tin.Base.{
  String, Bool, true, false, not, ◌&&◌, some, List, [], ◌∷◌, ◌≡◌, refl, sym, subst, ap, ◌∙◌, inl,
  inr, arith, All, ◌==◌, Bool-cases,
}
use nitroso_tin.Dates.{
  joined, before_first, fragments, dashed, reversed, zinc_to_helium_date, helium_to_zinc_date,
}

abbrev no_dash : String → Bool
no_dash String.[] = true
no_dash (String.◌∷◌ c s) = not (code c == b'-') && no_dash s

-- The fragments with the dashes put back between them.
abbrev unsplit : List String → String
unsplit [] = ""
unsplit (f ∷ []) = f
unsplit (f ∷ g ∷ fs) = joined f (String.◌∷◌ "-" (unsplit (g ∷ fs)))

fragments-no_dash : (s : String) → All (λ f. no_dash f ≡ true) (fragments s)
unfolding fragments before_first
fragments-no_dash String.[] = (refl, tt)
fragments-no_dash (String.◌∷◌ c s) =
    let rest = fragments-no_dash s in
    elim (Bool-cases (code c == b'-')) [
      | inl dash ↦
          let same : fragments (String.◌∷◌ c s) ≡ "" ∷ fragments s = rw (fragments, dash) in
          subst (All (λ f. no_dash f ≡ true)) (sym same) (refl, rest)
      | inr plain ↦
          let same : fragments (String.◌∷◌ c s) ≡ before_first c (fragments s) =
            rw (fragments, plain) in
          subst (All (λ f. no_dash f ≡ true)) (sym same) (first_no_dash plain (fragments s) rest)
    ]
  where
    first_no_dash :
        (code c == b'-') ≡ false
        → (fs : List String) → All (λ f. no_dash f ≡ true) fs
        → All (λ f. no_dash f ≡ true) (before_first c fs)
    first_no_dash plain [] all = (ground (arith, plain), tt)
    first_no_dash plain (f ∷ fs) all = (ground (arith, plain, all.0), all.1)

fragments_whole : (s : String) → no_dash s ≡ true → fragments s ≡ s ∷ []
unfolding fragments before_first
fragments_whole String.[] h = refl
fragments_whole (String.◌∷◌ c s) h =
    let plain : (code c == b'-') ≡ false = ground arith in
    let rest = fragments_whole s (ground arith) in rw (fragments, plain, rest)

fragments-joined :
    (a t : String) → no_dash a ≡ true → fragments (joined a (String.◌∷◌ "-" t)) ≡ a ∷ fragments t
unfolding fragments joined before_first
fragments-joined String.[] t h = refl
fragments-joined (String.◌∷◌ c s) t h =
    let plain : (code c == b'-') ≡ false = ground arith in
    let rest = fragments-joined s t (ground arith) in rw (fragments, plain, rest)

unsplit-before_first :
    (c : Char) (fs : List String) → unsplit (before_first c fs) ≡ String.◌∷◌ c (unsplit fs)
unfolding before_first joined
unsplit-before_first c [] = refl
unsplit-before_first c (f ∷ []) = refl
unsplit-before_first c (f ∷ g ∷ fs) = refl

fragments_some : (s : String) → (f : String) × (fs : List String) × (fragments s ≡ f ∷ fs)
unfolding fragments before_first
fragments_some String.[] = ("", [], refl)
fragments_some (String.◌∷◌ c s) =
    let (f, fs, is) = fragments_some s in
    elim (Bool-cases (code c == b'-')) [
      | inl dash ↦ ("", fragments s, rw (fragments, dash))
      | inr plain ↦ (String.◌∷◌ c f, fs, rw (fragments, plain, is))
    ]

unsplit-fragments : (s : String) → unsplit (fragments s) ≡ s
unfolding fragments
unsplit-fragments String.[] = refl
unsplit-fragments (String.◌∷◌ c s) =
    let rest = unsplit-fragments s in
    let (f, fs, is) = fragments_some s in
    elim (Bool-cases (code c == b'-')) [
      | inl dash ↦
          let same : fragments (String.◌∷◌ c s) ≡ "" ∷ fragments s = rw (fragments, dash) in
          let is_dash : c ≡ "-" = Char-path c "-" (ground (arith, dash)) in
          let split : unsplit ("" ∷ fragments s) ≡ String.◌∷◌ "-" (unsplit (fragments s)) =
            unfold joined in rw (is) refl in
          ap unsplit same
          ∙ split
          ∙ ap (String.◌∷◌ "-") rest
          ∙ ap (λ d. String.◌∷◌ d s) (sym is_dash)
      | inr plain ↦
          let same : fragments (String.◌∷◌ c s) ≡ before_first c (fragments s) =
            rw (fragments, plain) in
          ap unsplit same ∙ unsplit-before_first c (fragments s) ∙ ap (String.◌∷◌ c) rest
    ]

fragments-dashed :
    (a b c : String)
    → no_dash a ≡ true
    → no_dash b ≡ true
    → no_dash c ≡ true
    → fragments (dashed a b c) ≡ a ∷ b ∷ c ∷ []
unfolding dashed
fragments-dashed a b c ha hb hc =
    fragments-joined a (joined b (String.◌∷◌ "-" c)) ha
    ∙ ap (λ fs. a ∷ fs) (fragments-joined b c hb)
    ∙ ap (λ fs. a ∷ b ∷ fs) (fragments_whole c hc)

-- A date of zinc that splits at its dashes into three fragments, none, some or all of them empty,
-- converts to a date of KTMB, and that converts back to it.
pub helium_to_zinc_date-zinc_to_helium_date :
    (date a b c : String)
    → fragments date ≡ a ∷ b ∷ c ∷ []
    → (h : String) × (zinc_to_helium_date date ≡ some h) × (helium_to_zinc_date h ≡ some date)
unfolding zinc_to_helium_date helium_to_zinc_date reversed
helium_to_zinc_date-zinc_to_helium_date date a b c is =
    let plain = subst (All (λ f. no_dash f ≡ true)) is (fragments-no_dash date) in
    let back = fragments-dashed c b a plain.1.1.0 plain.1.0 plain.0 in
    let whole : dashed a b c ≡ date =
      unfold dashed in ap unsplit (sym is) ∙ unsplit-fragments date in
    (dashed c b a, rw (is) refl, rw (back) (ap some whole))
