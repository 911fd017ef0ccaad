-- ===== src/Buyer/Conflict.antt =====
-- The messages that `matchesConflict` (lib/buyer/errors.go) recognises.
use nitroso_tin.Base.{
  String, true, List, ◌≡◌, ◌≢◌, ◌↔◌, arith, any, Any, any-Any, Any-any, Any-map, Occurs, contains,
  contains-Occurs, contains-append, to_lower, eq_iff, ap, ◌∙◌,
}
use nitroso_tin.Buyer.{matches_pattern, matches_conflict}

-- The pattern is not empty, and in small letters it stands somewhere in the message's.
abbrev pub Recognised : String → String → Type 0
Recognised message pattern = (pattern ≢ "") × Occurs (to_lower pattern) (to_lower message)

pub matches_pattern-Recognised :
    (message pattern : String) → matches_pattern message pattern ≡ true → Recognised message pattern
unfolding matches_pattern
matches_pattern-Recognised message pattern h = (
  ground (arith, eq_iff pattern ""),
  contains-Occurs (to_lower message) (to_lower pattern) (ground arith),
)

Recognised-matches :
    (message pattern : String) → Recognised message pattern → matches_pattern message pattern ≡ true
unfolding matches_pattern
Recognised-matches message pattern (filled, (pre, post, e)) =
    let found : contains (to_lower message) (to_lower pattern) ≡ true =
      ap (λ t. contains t (to_lower pattern)) e ∙ contains-append pre (to_lower pattern) post in
    ground (arith, found, eq_iff pattern "")

-- The code recognises a conflict (or a revertible failure) exactly if one of the messages contains
-- one of the patterns that are not empty, whatever the case of their letters.
pub matches_conflict-Recognised :
    (patterns messages : List String)
    → (matches_conflict patterns messages ≡ true)
      ↔ Any (λ m. Any (λ p. Recognised m p) patterns) messages
unfolding matches_conflict
matches_conflict-Recognised patterns messages = (
  λ h.
      Any-map messages
        (λ m on.
          Any-map patterns (λ p at. matches_pattern-Recognised m p at)
            (any-Any (matches_pattern m) patterns on))
        (any-Any (λ m. any (matches_pattern m) patterns) messages h),
  λ h.
      Any-any (λ m. any (matches_pattern m) patterns) messages
        (Any-map messages
          (λ m on.
            Any-any (matches_pattern m) patterns
              (Any-map patterns (λ p at. Recognised-matches m p at) on))
          h),
)
