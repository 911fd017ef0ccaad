-- ===== src/Reserver/Repeats.antt =====
-- A message that repeats the one before it announces nothing.
use nitroso_tin.Base.{
  ℕ, String, true, false, Option, none, some, List, [], ◌∷◌, ◌≡◌, refl, sym, subst, ap, ◌∙◌, inl,
  inr, arith, ◌==◌, str_eq, eq_iff, member, Distinct, Bool-cases,
}
use nitroso_tin.Counts.{Demand}
use nitroso_tin.Dates.{joined}
use nitroso_tin.Reserver.{
  Times, Prev, lookup, or_zero, demand_of, changes, replace, diff, relevant_of, on_message,
}
use nitroso_tin.Reserver.Rises.{str_eq_refl}

abbrev pub keys : Times → List String
keys [] = []
keys ((k, c) ∷ rest) = k ∷ keys rest

lookup_missing : (k : String) (ts : Times) → member k (keys ts) ≡ false → lookup k ts ≡ none
unfolding lookup
lookup_missing k [] gone = refl
lookup_missing k ((k', c) ∷ rest) gone = elim (Bool-cases (str_eq k' k)) [
  | inl same ↦ absurd (ground (arith, gone, (eq_iff k k').1 (sym ((eq_iff k' k).0 same))))
  | inr other ↦ rw (lookup, other, lookup_missing k rest (ground (arith, gone)))
]

changes_none :
    (f : String → Option ℕ) (ts : Times)
    → Distinct (keys ts)
    → ((t : String) (c : ℕ) → lookup t ts ≡ some c → f t ≡ some c)
    → changes f ts ≡ []
unfolding changes or_zero lookup
changes_none f [] d seen = refl
changes_none f ((k, c) ∷ rest) d seen =
    let now : f k ≡ some c = seen k c (rw (lookup, str_eq_refl k)) in
    let flat : (or_zero (f k) == c) ≡ true = ground (arith, now) in
    let later = changes_none f rest d.1 (λ t v has. elim (Bool-cases (str_eq k t)) [
      | inl same ↦
          let gone = lookup_missing k rest d.0 in
          let moved : lookup t rest ≡ lookup k rest =
            ap (λ i. lookup i rest) (sym ((eq_iff k t).0 same)) in
          absurd (ground (arith, has, gone, moved))
      | inr other ↦ seen t v (rw (lookup, other, has))
    ]) in
    rw (changes, flat, later)

member-relevant_of :
    (relevant : List Demand) (d dt k : String) (ts : Times)
    → member k (keys ts) ≡ false
    → member k (keys (relevant_of relevant d dt ts)) ≡ false
unfolding relevant_of
member-relevant_of relevant d dt k [] gone = refl
member-relevant_of relevant d dt k ((t, c) ∷ rest) gone =
    let later = member-relevant_of relevant d dt k rest (ground (arith, gone)) in
    elim (Bool-cases (demand_of relevant d dt (joined t ":00") == 0)) [
      | inl dropped ↦
          let same : relevant_of relevant d dt ((t, c) ∷ rest) ≡ relevant_of relevant d dt rest =
            rw (relevant_of, dropped) in
          ap (λ ts. member k (keys ts)) same ∙ later
      | inr stays ↦
          let same : relevant_of relevant d dt ((t, c) ∷ rest)
              ≡ (t, c) ∷ relevant_of relevant d dt rest =
            rw (relevant_of, stays) in
          ap (λ ts. member k (keys ts)) same ∙ ground (arith, gone, later)
    ]

relevant_of-Distinct :
    (relevant : List Demand) (d dt : String) (ts : Times)
    → Distinct (keys ts)
    → Distinct (keys (relevant_of relevant d dt ts))
unfolding relevant_of
relevant_of-Distinct relevant d dt [] apart = tt
relevant_of-Distinct relevant d dt ((t, c) ∷ rest) apart =
    let later = relevant_of-Distinct relevant d dt rest apart.1 in
    elim (Bool-cases (demand_of relevant d dt (joined t ":00") == 0)) [
      | inl dropped ↦
          let same : relevant_of relevant d dt ((t, c) ∷ rest) ≡ relevant_of relevant d dt rest =
            rw (relevant_of, dropped) in
          subst (λ ts. Distinct (keys ts)) (sym same) later
      | inr stays ↦
          let same : relevant_of relevant d dt ((t, c) ∷ rest)
              ≡ (t, c) ∷ relevant_of relevant d dt rest =
            rw (relevant_of, stays) in
          subst (λ ts. Distinct (keys ts)) (sym same)
            (member-relevant_of relevant d dt t rest apart.0, later)
    ]

-- The poller publishes a message twice, with no new count between: the second announces nothing, so
-- the reserver acts on changes only.
pub on_message_again :
    (relevant : List Demand) (prev : Prev) (d dt : String) (received : Times)
    → Distinct (keys received)
    → (on_message relevant (on_message relevant prev d dt received).0 d dt received).1 ≡ []
unfolding on_message diff
on_message_again relevant prev d dt received apart =
    let times = relevant_of relevant d dt received in
    changes_none (replace prev d dt times d dt) times
      (relevant_of-Distinct relevant d dt received apart)
      (λ t c has.
        let now : replace prev d dt times d dt t ≡ lookup t times =
          rw (replace, str_eq_refl d, str_eq_refl dt) in
        now ∙ has)
