-- ===== src/Contracts/Tests.antt =====
-- The shared vocabulary at concrete values.
use garis.Base.{String, ◌≢◌, arith, eq_iff}

abbrev same_text : String → String
same_text s = s

not_empty : ◌≢◌ {A = String} "app.launch" ""
not_empty h = ground (arith, eq_iff "app.launch" "")
