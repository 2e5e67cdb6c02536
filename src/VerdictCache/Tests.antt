-- ===== src/VerdictCache/Tests.antt =====
-- The verdict cache at concrete hosts and times.
use httpc.Prelude.{◌≡◌, refl, true, Option, some, List, [], ◌∷◌}
use httpc.Prelude.Text.{Text, codes}
use httpc.Errors.{Err, sentinel, new, is_err, blocked_by_policy}
use httpc.VerdictCache.{empty, check}
use httpc.VerdictCache.Bounds.{IsBounded}
use httpc.VerdictCache.Interleaved.{Move, look, finish, enroll, unused, moves}
use httpc.VerdictCache.Interleaved.Served.{moves-IsBounded}
use httpc.VerdictCache.Verdicts.{transient_not_cached}

abbrev host : Text
host = codes "hook.example"

abbrev denied : Option Err
denied = some (sentinel blocked_by_policy)

-- Two calls for one host load before either validates; the one that began first enrolls last.
abbrev raced : List Move
raced =
    look host 5 true
    ∷ look host 9 true
    ∷ finish 0 denied
    ∷ finish 0 denied
    ∷ enroll 1
    ∷ enroll 0
    ∷ []

moves-IsBounded_example : IsBounded (moves unused raced).cache
moves-IsBounded_example = moves-IsBounded raced

transient_not_cached_example : (check empty host 5 (some (new "i/o timeout"))).cache ≡ empty
transient_not_cached_example =
    transient_not_cached empty host 5 (some (new "i/o timeout")) (unfold is_err in refl)
