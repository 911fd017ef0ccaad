-- ===== src/Reserver/Rises.antt =====
-- A slot whose demand rises is announced anew.
use nitroso_tin.Base.{
  ℕ, ◌+◌, ◌<◌, ◌≤◌, String, true, false, ◌&&◌, Option, none, some, List, [], ◌∷◌, ◌≡◌, ◌≢◌, refl,
  sym, subst, ap, ◌∙◌, inl, inr, arith, leb, ◌==◌, str_eq, eq_iff, codes, length, Bool-cases,
}
use nitroso_tin.Counts.{Demand}
use nitroso_tin.Dates.{joined}
use nitroso_tin.Reserver.{
  pos, minus, DiffData, Times, Prev, lookup, or_zero, demand_of, trim_seconds, forget, rearm,
  changes, diff, relevant_of, on_message, on_count,
}

length-codes-joined :
    (s t : String) → length (codes (joined s t)) ≡ length (codes s) + length (codes t)
unfolding joined
length-codes-joined String.[] t = omega arith
length-codes-joined (String.◌∷◌ c s) t = omega (arith, length-codes-joined s t)

trim_seconds-joined : (s : String) → trim_seconds (joined s ":00") ≡ s
unfolding trim_seconds joined
trim_seconds-joined String.[] = refl
trim_seconds-joined (String.◌∷◌ c s) =
    let whole = String.◌∷◌ c (joined s ":00") in
    let size = length-codes-joined s ":00" in
    elim (Bool-cases (str_eq whole ":00")) [
      | inr longer ↦ rw (trim_seconds, longer, trim_seconds-joined s)
      | inl same ↦
          let short : length (codes whole) ≡ 3 =
            ap (λ t. length (codes t)) ((eq_iff whole ":00").0 same) in
          absurd (omega (arith, short, size))
    ]

module _ (d dt t : String) where
  -- What is forgotten or was not seen stays so.
  forget-none :
      (prev : Prev) (d' dt' t' : String) → prev d dt t ≡ none → forget prev d' dt' t' d dt t ≡ none
  unfolding forget
  forget-none prev d' dt' t' gone =
      elim (Bool-cases (str_eq d d' && (str_eq dt dt' && str_eq t t'))) [
        | inl same ↦ rw (forget, same)
        | inr other ↦ rw (forget, other, gone)
      ]

  rearm-none :
      (prev : Prev) (old ns : List Demand)
      → prev d dt t ≡ none
      → (rearm prev old ns).0 d dt t ≡ none
  unfolding rearm
  rearm-none prev old [] gone = gone
  rearm-none prev old (n ∷ ns) gone =
      let kept = rearm-none prev old ns gone in
      let shrunk = forget prev n.direction n.date (trim_seconds n.time) in
      let risen =
        rearm-none shrunk old ns (forget-none prev n.direction n.date (trim_seconds n.time) gone) in
      elim (Bool-cases (leb n.count (demand_of old n.direction n.date n.time))) [
        | inl flat ↦
            let same : rearm prev old (n ∷ ns) ≡ rearm prev old ns = rw (rearm, flat) in
            subst (λ q. q.0 d dt t ≡ none) (sym same) kept
        | inr rise ↦
            let rest = rearm shrunk old ns in
            let same : rearm prev old (n ∷ ns) ≡ (rest.0, n ∷ rest.1) = rw (rearm, rise) in
            subst (λ q. q.0 d dt t ≡ none) (sym same) risen
      ]

pub str_eq_refl : (s : String) → str_eq s s ≡ true
str_eq_refl s = (eq_iff s s).1 refl

forget_now : (prev : Prev) (d dt t : String) → forget prev d dt t d dt t ≡ none
unfolding forget
forget_now prev d dt t = rw (forget, str_eq_refl d, str_eq_refl dt, str_eq_refl t)

-- The demand of a slot rose: its last seat count is forgotten.
rearm_rises :
    (prev : Prev) (old next : List Demand) (d dt t : String)
    → demand_of old d dt t < demand_of next d dt t
    → (rearm prev old next).0 d dt (trim_seconds t) ≡ none
unfolding rearm demand_of
rearm_rises prev old [] d dt t rose = absurd (omega arith)
rearm_rises prev old (n ∷ ns) d dt t rose =
    let shrunk = forget prev n.direction n.date (trim_seconds n.time) in
    let rest = rearm shrunk old ns in
    let kept = rearm_rises prev old ns d dt t in
    let risen = rearm_rises shrunk old ns d dt t in
    let flat_is : leb n.count (demand_of old n.direction n.date n.time) ≡ true
        → rearm prev old (n ∷ ns) ≡ rearm prev old ns =
      λ flat. rw (rearm, flat) in
    let rise_is : leb n.count (demand_of old n.direction n.date n.time) ≡ false
        → rearm prev old (n ∷ ns) ≡ (rest.0, n ∷ rest.1) =
      λ rise. rw (rearm, rise) in
    elim (Bool-cases (str_eq n.direction d && (str_eq n.date dt && str_eq n.time t))) [
      | inr other ↦
          let later : demand_of old d dt t < demand_of ns d dt t = ground (arith, other) in
          elim (Bool-cases (leb n.count (demand_of old n.direction n.date n.time))) [
            | inl flat ↦
                subst (λ q. q.0 d dt (trim_seconds t) ≡ none) (sym (flat_is flat)) (kept later)
            | inr rise ↦
                subst (λ q. q.0 d dt (trim_seconds t) ≡ none) (sym (rise_is rise)) (risen later)
          ]
      | inl this ↦
          let d_is : n.direction ≡ d = (eq_iff n.direction d).0 (ground (arith, this)) in
          let dt_is : n.date ≡ dt = (eq_iff n.date dt).0 (ground (arith, this)) in
          let t_is : n.time ≡ t = (eq_iff n.time t).0 (ground (arith, this)) in
          let before : demand_of old n.direction n.date n.time ≡ demand_of old d dt t =
            rw (d_is, dt_is, t_is) refl in
          let rise : leb n.count (demand_of old n.direction n.date n.time) ≡ false =
            ground (arith, this, before) in
          let gone : shrunk d dt (trim_seconds t) ≡ none =
            rw (sym d_is, sym dt_is, sym t_is)
              (forget_now prev n.direction n.date (trim_seconds n.time)) in
          subst (λ q. q.0 d dt (trim_seconds t) ≡ none) (sym (rise_is rise))
            (rearm-none d dt (trim_seconds t) shrunk old ns gone)
    ]

-- The change of a slot from what was seen of it.
abbrev change_of : (String → Option ℕ) → String → ℕ → DiffData
change_of prev t v = record {
  count = v;
  prev = or_zero (prev t);
  delta = minus v (or_zero (prev t));
}

-- The first entry of a time that differs from what was seen is announced.
lookup-changes :
    (prev : String → Option ℕ) (times : Times) (t : String) (v : ℕ)
    → lookup t times ≡ some v
    → or_zero (prev t) ≢ v
    → lookup t (changes prev times) ≡ some (change_of prev t v)
unfolding lookup changes
lookup-changes prev [] t v has news = cc
lookup-changes prev ((k, c) ∷ rest) t v has news =
    let later = lookup-changes prev rest t v in
    elim (Bool-cases (str_eq k t)) [
      | inl this ↦
          let k_is : k ≡ t = (eq_iff k t).0 this in
          let c_is : c ≡ v = ground (arith, has, this) in
          let seen : or_zero (prev k) ≡ or_zero (prev t) = ap (λ i. or_zero (prev i)) k_is in
          let changed : (or_zero (prev k) == c) ≡ false = ground (arith, news, c_is, seen) in
          let same : changes prev ((k, c) ∷ rest) ≡ (k, change_of prev k c) ∷ changes prev rest =
            rw (changes, changed) in
          let head : lookup t ((k, change_of prev k c) ∷ changes prev rest)
              ≡ some (change_of prev k c) =
            rw (lookup, this) in
          ap (lookup t) same ∙ head ∙ rw (k_is, c_is) refl
      | inr other ↦
          let in_rest : lookup t rest ≡ some v = ground (arith, has, other) in
          elim (Bool-cases (or_zero (prev k) == c)) [
            | inl flat ↦
                let same : changes prev ((k, c) ∷ rest) ≡ changes prev rest = rw (changes, flat) in
                ap (lookup t) same ∙ later in_rest news
            | inr changed ↦
                let same : changes prev ((k, c) ∷ rest)
                    ≡ (k, change_of prev k c) ∷ changes prev rest =
                  rw (changes, changed) in
                let past : lookup t ((k, change_of prev k c) ∷ changes prev rest)
                    ≡ lookup t (changes prev rest) =
                  rw (lookup, other) in
                ap (lookup t) same ∙ past ∙ later in_rest news
          ]
    ]

lookup-relevant_of :
    (relevant : List Demand) (d dt : String) (times : Times) (t : String)
    → 1 ≤ demand_of relevant d dt (joined t ":00")
    → lookup t (relevant_of relevant d dt times) ≡ lookup t times
unfolding lookup relevant_of
lookup-relevant_of relevant d dt [] t wanted = refl
lookup-relevant_of relevant d dt ((k, c) ∷ rest) t wanted =
    let later = lookup-relevant_of relevant d dt rest t wanted in
    let kept = relevant_of relevant d dt rest in
    elim (Bool-cases (str_eq k t)) [
      | inl this ↦
          let k_is : k ≡ t = (eq_iff k t).0 this in
          let same_demand : demand_of relevant d dt (joined k ":00")
              ≡ demand_of relevant d dt (joined t ":00") =
            ap (λ i. demand_of relevant d dt (joined i ":00")) k_is in
          let stays : (demand_of relevant d dt (joined k ":00") == 0) ≡ false =
            ground (arith, wanted, same_demand) in
          let same : relevant_of relevant d dt ((k, c) ∷ rest) ≡ (k, c) ∷ kept =
            rw (relevant_of, stays) in
          ap (lookup t) same ∙ rw (lookup, this)
      | inr other ↦ elim (Bool-cases (demand_of relevant d dt (joined k ":00") == 0)) [
        | inl dropped ↦
            let same : relevant_of relevant d dt ((k, c) ∷ rest) ≡ kept =
              rw (relevant_of, dropped) in
            ap (lookup t) same ∙ later ∙ rw (lookup, other)
        | inr stays ↦
            let same : relevant_of relevant d dt ((k, c) ∷ rest) ≡ (k, c) ∷ kept =
              rw (relevant_of, stays) in
            let past : lookup t ((k, c) ∷ kept) ≡ lookup t kept = rw (lookup, other) in
            ap (lookup t) same ∙ past ∙ later ∙ rw (lookup, other)
      ]
    ]

-- The demand of a slot rose between two counts, and the next message of its direction and date states
-- seats for it: then the slot is announced with all these seats, as if none had been seen before,
-- however many were seen last.
pub rise-Announced :
    (prev : Prev) (last next : List Demand) (d dt t : String) (received : Times) (seats : ℕ)
    → demand_of last d dt (joined t ":00") < demand_of next d dt (joined t ":00")
    → lookup t received ≡ some seats
    → 1 ≤ seats
    → lookup t (on_message next (on_count prev last next).0 d dt received).1
      ≡ some (record { count = seats; prev = 0; delta = pos seats })
unfolding on_message on_count diff
rise-Announced prev last next d dt t received seats rose has some_seats =
    let armed = (rearm prev last next).0 in
    let gone : armed d dt t ≡ none =
      ap (armed d dt) (sym (trim_seconds-joined t))
      ∙ rearm_rises prev last next d dt (joined t ":00") rose in
    let zero_seen : or_zero (armed d dt t) ≡ 0 = unfold or_zero in ap or_zero gone in
    let filtered = lookup-relevant_of next d dt received t (omega arith) in
    let told =
      lookup-changes (armed d dt) (relevant_of next d dt received) t seats (filtered ∙ has)
        (λ e. absurd (omega (arith, e, zero_seen, some_seats))) in
    let all_new : minus seats 0 ≡ pos seats = unfold minus in ground arith in
    told ∙ rw (zero_seen, all_new) refl
