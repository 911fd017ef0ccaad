-- ===== src/Session/Tests.antt =====
-- Two calls of `Login`: the first takes the lock and outlives it, and the second then takes it.
use nitroso_tin.Base.{◌+◌, ◌≤◌, String, true, none, some, ◌≡◌, refl, arith}
use nitroso_tin.Session.{
  waiting, starting, Cipher, Answer, System, held, advance, Reached, begun, advanced, passed,
}
use nitroso_tin.Session.Exclusion.{has_lock, Reached-exclusive}

abbrev cipher : Cipher
cipher = record { encrypt = λ t. some t; decrypt = λ t. some t }

abbrev answer : Answer
answer = record { redis_answers = true; live = true; on_login = some "token" }

abbrev opening : System
opening = record {
  redis = record { cache = none; lock = none };
  now = 1_000;
  stage_of = λ o. starting;
  tried_at = λ o. 0;
}

-- The call looks into the cache, and asks for the lock.
abbrev ask : String → System → System
ask owner s = advance cipher answer owner (advance cipher answer owner s)

ask-Reached : (owner : String) (s : System) → Reached cipher s → Reached cipher (ask owner s)
ask-Reached owner s r =
    advanced (advance cipher answer owner s) answer owner (advanced s answer owner r)

abbrev outlived : System
outlived = record (ask "a" opening) { now = 1_100 }

abbrev both : System
both = ask "b" outlived

opened : Reached cipher opening
opened = begun none 1_000

both-Reached : Reached cipher both
unfolding advance
both-Reached =
    ask-Reached "b" outlived (passed (ask "a" opening) 100 (ask-Reached "a" opening opened))

-- Before the lock expires the second call waits.
second_waits : (ask "b" (ask "a" opening)).stage_of "b" ≡ waiting
unfolding advance held
second_waits = refl

first_has_lock : has_lock (both.stage_of "a") ≡ true
unfolding advance held
first_has_lock = refl

second_has_lock : has_lock (both.stage_of "b") ≡ true
unfolding advance held
second_has_lock = refl

Reached-exclusive_example : both.tried_at "a" + 90 ≤ both.now
unfolding held
Reached-exclusive_example =
    Reached-exclusive cipher both "b" "a" both-Reached refl second_has_lock first_has_lock
      (unfold advance in omega arith)
