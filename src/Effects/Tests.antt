-- ===== src/Effects/Tests.antt =====
-- The effect store at concrete calls; a text stands for its own fingerprint.
use garis.Base.{◌≡◌, ◌≢◌, ◌≤◌, refl, String, false, List, [], ◌∷◌, arith, none, eq_iff, ◌==◌}
use garis.Rows
use garis.Effects.{EffectRows, reserve, complete, settle}
use garis.Effects.Once.{Call, reserves, completes, sweeps, grant_count, grant_count-le-one}

abbrev hash : String → String
hash args = args

-- reserved, failed, asked for again, and swept
abbrev calls : List (Call String)
calls =
    reserves "e1" "app.launch" "t" "s" "discord" 10
    ∷ completes "e1" false none "[]" "brak" 12
    ∷ reserves "e1" "app.launch" "t" "s" "discord" 20
    ∷ sweeps 30 31
    ∷ []

grant_count-le-one_example : grant_count hash "e1" [] calls ≤ 1
grant_count-le-one_example = grant_count-le-one hash [] calls "e1"

granted_once : grant_count hash "e1" [] calls ≡ 1
unfolding grant_count reserve complete settle Rows.find Rows.update
granted_once = refl

ne : (s t : String) → (s == t) ≡ false → s ≢ t
ne s t h = ground (arith, eq_iff s t)

abbrev two_rows : EffectRows
two_rows =
    (reserve hash (reserve hash [] "e5" "app.launch" "t" "s" "discord" 10).1 "e6" "x" "t" "u" ""
      99).1
