-- ===== src/Base/Text.antt =====
-- Texts as the lists of their codes: `strings.ToLower`, `strings.TrimSpace` and `strings.Contains`,
-- on the ASCII range.
use Prim.Native.Nat.{ℕ, ◌+◌, ◌-◌}
use Prim.Native.Char.{code}
use Prim.Native.String.{String}
use mathlib.Core.Path.{◌≡◌, refl, ap}
use mathlib.Core.Logic.{inl, inr}
use mathlib.Core.Bool.{Bool, true, false, ◌&&◌, ◌||◌}
use mathlib.Core.List.{List, [], ◌∷◌, ◌++◌, map, reverse}
use native.Mathlib.Omega.{arith}
use nitroso_tin.Base.Tests.{leb, ◌==◌, if◌then◌else◌, Bool-cases}

abbrev pub codes : String → List ℕ
codes String.[] = []
codes (String.◌∷◌ c s) = code c ∷ codes s

unfoldable pub lower_code : ℕ → ℕ
lower_code c = if leb b'A' c && leb c b'Z' then c + 32 else c

unfoldable pub upper_code : ℕ → ℕ
upper_code c = if leb b'a' c && leb c b'z' then c - 32 else c

unfoldable pub to_lower : String → List ℕ
unfolding lower_code
to_lower s = map lower_code (codes s)

unfoldable pub to_upper : String → List ℕ
unfolding upper_code
to_upper s = map upper_code (codes s)

-- The blanks of ASCII: tab to carriage return, and space.
unfoldable pub is_space : ℕ → Bool
is_space c = c == 32 || leb 9 c && leb c 13

unfoldable pub trim_left : List ℕ → List ℕ
unfolding is_space
trim_left [] = []
trim_left (c ∷ cs) = if is_space c then trim_left cs else c ∷ cs

unfoldable pub trim_space : List ℕ → List ℕ
unfolding trim_left
trim_space cs = reverse (trim_left (reverse (trim_left cs)))

unfoldable pub has_prefix : List ℕ → List ℕ → Bool
has_prefix cs [] = true
has_prefix [] (p ∷ ps) = false
has_prefix (c ∷ cs) (p ∷ ps) = c == p && has_prefix cs ps

unfoldable pub contains : List ℕ → List ℕ → Bool
unfolding has_prefix
contains [] ps = has_prefix [] ps
contains (c ∷ cs) ps = has_prefix (c ∷ cs) ps || contains cs ps

-- `ps` stands somewhere in `cs`.
abbrev pub Occurs : List ℕ → List ℕ → Type 0
Occurs ps cs = (pre : List ℕ) × (post : List ℕ) × (cs ≡ pre ++ (ps ++ post))

has_prefix_sound : (cs ps : List ℕ) → has_prefix cs ps ≡ true → (post : List ℕ) × (cs ≡ ps ++ post)
unfolding has_prefix
has_prefix_sound cs [] h = (cs, refl)
has_prefix_sound [] (p ∷ ps) h = cc
has_prefix_sound (c ∷ cs) (p ∷ ps) h =
    let (post, e) = has_prefix_sound cs ps (ground arith) in (post, ground arith)

has_prefix-append : (ps post : List ℕ) → has_prefix (ps ++ post) ps ≡ true
unfolding has_prefix
has_prefix-append [] post = ground arith
has_prefix-append (p ∷ ps) post = ground (arith, has_prefix-append ps post)

pub contains-Occurs : (cs ps : List ℕ) → contains cs ps ≡ true → Occurs ps cs
unfolding contains
contains-Occurs [] ps h = let (post, e) = has_prefix_sound [] ps h in ([], post, e)
contains-Occurs (c ∷ cs) ps h = elim (Bool-cases (has_prefix (c ∷ cs) ps)) [
  | inl found ↦ let (post, e) = has_prefix_sound (c ∷ cs) ps found in ([], post, e)
  | inr missed ↦
      let (pre, post, e) = contains-Occurs cs ps (ground arith) in
      (c ∷ pre, post, ap (λ t. c ∷ t) e)
]

pub contains-append : (pre ps post : List ℕ) → contains (pre ++ (ps ++ post)) ps ≡ true
unfolding contains
contains-append [] [] [] = refl
contains-append [] [] (c ∷ post) = refl
contains-append [] (p ∷ ps) post = ground (arith, has_prefix-append (p ∷ ps) post)
contains-append (c ∷ pre) ps post = ground (arith, contains-append pre ps post)

unfoldable pub codes_eq : List ℕ → List ℕ → Bool
codes_eq [] [] = true
codes_eq (a ∷ as') (b ∷ bs) = a == b && codes_eq as' bs
codes_eq _ _ = false
