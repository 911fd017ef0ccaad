-- ===== src/Backfill/Raw/Sound.antt =====
-- Where the refund comes from that the raw answer is read to state.
use nitroso_tin.Base.{
  ℕ, ◌+◌, String, Bool, true, ◌||◌, Option, none, some, List, [], ◌∷◌, ◌++◌, ◌≡◌, ◌⊎◌, refl, sym,
  ap, ◌∙◌, inl, inr, arith, length, any, length-append, Bool-cases, str_eq, eq_iff, if◌then◌else◌,
}
use nitroso_tin.Backfill.Raw.{
  Json, scalar, number, text, array, object, Items, end, item, Fields, done, field, Refund,
  first_some, string_field, has_field, ticket_node_stats, stats_of_items, stats_of_fields,
  exact_refund_in_map, refund_in_ticket_node, refund_in_items, refund_in_fields,
  exact_refund_in_node, exact_refund_in_items, exact_refund_in_fields, alone, refund_from_root,
  refund_from_raw,
}

first_some-some :
    {A : Type 0} (o o' : Option A) {a : A} → first_some o o' ≡ some a → (o ≡ some a) ⊎ (o' ≡ some a)
first_some-some (some a) o' h = inl h
first_some-some none o' h = inr h

-- An object with `P` stands somewhere in the document.
module _ {Amount : Type 0} (P : Fields Amount → Type 0) where
  mutual
    pub Within : Json Amount → Type 0
    Within scalar = ⊥
    Within (number n) = ⊥
    Within (text s) = ⊥
    Within (array items) = WithinItems items
    Within (object fs) = P fs ⊎ WithinFields fs

    WithinItems : Items Amount → Type 0
    WithinItems end = ⊥
    WithinItems (item v rest) = Within v ⊎ WithinItems rest

    WithinFields : Fields Amount → Type 0
    WithinFields done = ⊥
    WithinFields (field k v rest) = Within v ⊎ WithinFields rest

-- The ticket numbers of the document's ticket nodes.
module _ {Amount : Type 0} where
  mutual
    pub ticket_numbers : Json Amount → List String
    ticket_numbers scalar = []
    ticket_numbers (number n) = []
    ticket_numbers (text s) = []
    ticket_numbers (array items) = numbers_of_items items
    ticket_numbers (object fs) =
        let inner = numbers_of_fields fs in
        if has_field "ticketNo" fs then string_field "ticketNo" fs ∷ inner else inner

    numbers_of_items : Items Amount → List String
    numbers_of_items end = []
    numbers_of_items (item v rest) = ticket_numbers v ++ numbers_of_items rest

    numbers_of_fields : Fields Amount → List String
    numbers_of_fields done = []
    numbers_of_fields (field k v rest) = ticket_numbers v ++ numbers_of_fields rest

-- The number of the texts, and whether the ticket's number is one of them.
abbrev seen_in : String → List String → ℕ × Bool
seen_in ticket_no ns = (length ns, any (λ n. str_eq n ticket_no) ns)

any-append : (p : String → Bool) (xs ys : List String) → any p (xs ++ ys) ≡ any p xs || any p ys
any-append p [] ys = refl
any-append p (x ∷ xs) ys = ground (arith, any-append p xs ys)

-- The two halves of a list, counted apart.
seen_in-append :
    (t : String) (xs ys : List String) (one more : ℕ × Bool)
    → one ≡ seen_in t xs
    → more ≡ seen_in t ys
    → (one.0 + more.0, one.1 || more.1) ≡ seen_in t (xs ++ ys)
seen_in-append t xs ys one more is is' =
    let size = length-append xs ys in
    let found = any-append (λ n. str_eq n t) xs ys in rw (is, is', size, found)

alone-seen_in :
    (t : String) (ns : List String) → alone (seen_in t ns) ≡ true → (ns ≡ []) ⊎ (ns ≡ t ∷ [])
unfolding alone
alone-seen_in t [] h = inl refl
alone-seen_in t (n ∷ []) h = elim (Bool-cases (str_eq n t)) [
  | inl same ↦ inr (ap (λ x. x ∷ []) ((eq_iff n t).0 same))
  | inr other ↦ absurd (ground arith)
]
alone-seen_in t (n ∷ m ∷ ns) h = absurd (ground arith)

module _ {Amount : Type 0} (t : String) where
  mutual
    unfolding ticket_node_stats ticket_numbers

    stats-ticket_numbers : (v : Json Amount) → ticket_node_stats v t ≡ seen_in t (ticket_numbers v)
    stats-ticket_numbers scalar = refl
    stats-ticket_numbers (number n) = refl
    stats-ticket_numbers (text s) = refl
    stats-ticket_numbers (array items) = stats-items items
    stats-ticket_numbers (object fs) =
        let inner = stats-fields fs in
        elim (Bool-cases (has_field "ticketNo" fs)) [
          | inl has ↦ rw (has, inner)
          | inr bare ↦ rw (bare, inner)
        ]

    stats-items :
        (items : Items Amount) → stats_of_items items t ≡ seen_in t (numbers_of_items items)
    stats-items end = refl
    stats-items (item v rest) =
        seen_in-append t (ticket_numbers v) (numbers_of_items rest) _ _ (stats-ticket_numbers v)
          (stats-items rest)

    stats-fields : (fs : Fields Amount) → stats_of_fields fs t ≡ seen_in t (numbers_of_fields fs)
    stats-fields done = refl
    stats-fields (field k v rest) =
        seen_in-append t (ticket_numbers v) (numbers_of_fields rest) _ _ (stats-ticket_numbers v)
          (stats-fields rest)

module _ {Amount : Type 0} (positive : Amount → Bool) (t : String) (r : Refund Amount) where
  -- An object that states the refund, and one with the ticket's number.
  abbrev pub States : Fields Amount → Type 0
  States fs = exact_refund_in_map positive fs ≡ some r

  abbrev pub StatesOwn : Fields Amount → Type 0
  StatesOwn fs = (string_field "ticketNo" fs ≡ t) × States fs

  mutual
    unfolding refund_in_ticket_node Within

    refund_in_ticket_node-Within :
        (v : Json Amount) → refund_in_ticket_node positive v t ≡ some r → Within StatesOwn v
    refund_in_ticket_node-Within scalar h = cc
    refund_in_ticket_node-Within (number n) h = cc
    refund_in_ticket_node-Within (text s) h = cc
    refund_in_ticket_node-Within (array items) h = refund_in_items-Within items h
    refund_in_ticket_node-Within (object fs) h =
        let inner = refund_in_fields-Within fs in
        elim (Bool-cases (str_eq (string_field "ticketNo" fs) t)) [
          | inr other ↦ inr (inner (ground (arith, other)))
          | inl same ↦
              elim (first_some-some (exact_refund_in_map positive fs)
                (refund_in_fields positive fs t) (ground (arith, same))) [
                  | inl here ↦ inl ((eq_iff _ t).0 same, here)
                  | inr deeper ↦ inr (inner deeper)
                ]
        ]

    refund_in_items-Within :
        (items : Items Amount)
        → refund_in_items positive items t ≡ some r
        → WithinItems StatesOwn items
    refund_in_items-Within end h = cc
    refund_in_items-Within (item v rest) h =
        let one = refund_in_ticket_node-Within v in
        let more = refund_in_items-Within rest in
        elim (first_some-some _ _ h) [ inl here ↦ inl (one here) | inr later ↦ inr (more later) ]

    refund_in_fields-Within :
        (fs : Fields Amount) → refund_in_fields positive fs t ≡ some r → WithinFields StatesOwn fs
    refund_in_fields-Within done h = cc
    refund_in_fields-Within (field k v rest) h =
        let one = refund_in_ticket_node-Within v in
        let more = refund_in_fields-Within rest in
        elim (first_some-some _ _ h) [ inl here ↦ inl (one here) | inr later ↦ inr (more later) ]

  mutual
    unfolding exact_refund_in_node Within

    exact_refund_in_node-Within :
        (v : Json Amount) → exact_refund_in_node positive v ≡ some r → Within States v
    exact_refund_in_node-Within scalar h = cc
    exact_refund_in_node-Within (number n) h = cc
    exact_refund_in_node-Within (text s) h = cc
    exact_refund_in_node-Within (array items) h = exact_refund_in_items-Within items h
    exact_refund_in_node-Within (object fs) h =
        let inner = exact_refund_in_fields-Within fs in
        elim (first_some-some _ _ h) [ inl here ↦ inl here | inr deeper ↦ inr (inner deeper) ]

    exact_refund_in_items-Within :
        (items : Items Amount)
        → exact_refund_in_items positive items ≡ some r
        → WithinItems States items
    exact_refund_in_items-Within end h = cc
    exact_refund_in_items-Within (item v rest) h =
        let one = exact_refund_in_node-Within v in
        let more = exact_refund_in_items-Within rest in
        elim (first_some-some _ _ h) [ inl here ↦ inl (one here) | inr later ↦ inr (more later) ]

    exact_refund_in_fields-Within :
        (fs : Fields Amount) → exact_refund_in_fields positive fs ≡ some r → WithinFields States fs
    exact_refund_in_fields-Within done h = cc
    exact_refund_in_fields-Within (field k v rest) h =
        let one = exact_refund_in_node-Within v in
        let more = exact_refund_in_fields-Within rest in
        elim (first_some-some _ _ h) [ inl here ↦ inl (one here) | inr later ↦ inr (more later) ]

  -- A refund read from a raw answer is stated by an object of it with the ticket's number; or it is
  -- stated by an object of it, and the answer numbers no ticket, or one, which is that ticket.
  pub refund_from_raw_sound :
      (root : Json Amount)
      → refund_from_raw positive (some root) t ≡ some r
      → Within StatesOwn root
        ⊎ (((ticket_numbers root ≡ []) ⊎ (ticket_numbers root ≡ t ∷ [])) × Within States root)
  unfolding refund_from_raw refund_from_root alone
  refund_from_raw_sound root h =
      let stats = stats-ticket_numbers t root in
      elim (Bool-cases (alone (ticket_node_stats root t))) [
        | inr crowded ↦ inl (
            refund_in_ticket_node-Within root (elim (first_some-some _ _ h) [
              | inl own ↦ own
              | inr total ↦ absurd (ground (arith, crowded))
            ]))
        | inl sole ↦ elim (first_some-some _ _ h) [
          | inl own ↦ inl (refund_in_ticket_node-Within root own)
          | inr total ↦ inr (
            alone-seen_in t (ticket_numbers root) (ap alone (sym stats) ∙ sole),
            exact_refund_in_node-Within root (ground (arith, sole, total)),
          )
        ]
      ]
