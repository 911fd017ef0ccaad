-- ===== src/Counts/Tests.antt =====
-- A count of two entries, of which one departs after the window.
use nitroso_tin.Base.{ℕ, ◌*◌, ◌/◌, ◌+◌, String, some, List, [], ◌∷◌, str_eq, if◌then◌else◌}
use nitroso_tin.Counts.{Demand, Clock}

abbrev entry : String → Demand
entry date = record { direction = "JToW"; date = date; time = "10:00:00"; count = 1 }

-- A calendar whose months have 30 days, and where only the days since its start are told apart.
abbrev days_of : ℕ → ℕ
days_of t = t / 86_400_000_000_000

abbrev clock : Clock
clock = record {
  parse = λ date time.
      some (if str_eq date "01-02-2030" then 86_400_000_000_000 else 86_400_000_000_000_000);
  closing = 30;
  add_months = λ t n. t + n * 30 * 86_400_000_000_000;
  year = λ t. 0;
  month = λ t. 0;
  day = days_of;
  date = λ y m d h i s. (((y * 12 + m) * 30 + d) * 86_400 + h * 3_600 + i * 60 + s) * 1_000_000_000;
}

abbrev counts : List Demand
counts = entry "01-02-2030" ∷ entry "01-12-2030" ∷ []
