-- ===== src/Memory/Tests.antt =====
-- The memory at concrete contents, with a box that keeps the envelope beside its context.
use garis.Base.{
  ℕ, String, Bool, true, false, Option, none, some, List, [], ◌∷◌, ◌==◌, ◌≡◌, refl, eq_refl,
  if◌then◌else◌,
}
use garis.Rows
use garis.Vault.{Vault}
use garis.Memory.{
  MemoryService, MemoryRecord, Envelope, Details, fact, permanent, remember, get, found_record,
  is_secret, looks_like_secret,
}
use garis.Memory.Clean.{AreClean}
use garis.Memory.Run.{Call, call_remember, call_pin, run, run-AreClean}
use garis.Memory.Secrets.{remember_secret, remember_secret_hides}

abbrev same_text : String → String
same_text s = s

abbrev Box : Type 0
Box = Envelope × String

abbrev seal : ℕ → Envelope → String → Box
seal n e c = (e, c)

abbrev unseal : ℕ → Box → String → Option Envelope
unseal n (e, c) d = if c == d then some e else none

opens : (n : ℕ) (e : Envelope) (c : String) → unseal n (seal n e c) c ≡ some e
opens n e c = rw (eq_refl c) refl

abbrev dumps : Envelope → Envelope
dumps e = e

abbrev loads : Envelope → Option Envelope
loads e = some e

reads : (e : Envelope) → loads (dumps e) ≡ some e
reads e = refl

abbrev plain_text : Envelope → String
plain_text e = e.content

abbrev patterns : String → Bool
patterns s = s == "password: hunter2"

abbrev empty : MemoryService Box
empty = record { rows = []; has_bus = true; changes = []; nonces = 0 }

abbrev details : Details
details = record {
  kind = fact;
  subject = "";
  tags = [];
  scope = permanent;
  source = "user";
  confidence = 100;
  pinned = false;
  ttl_seconds = some 60;
}

password_refused :
    (remember seal unseal dumps loads plain_text same_text same_text patterns same_text
      "password: hunter2" "m1" false details 10 empty).0
    ≡ is_secret
unfolding remember looks_like_secret
password_refused = refl

abbrev calls : List Call
calls =
    call_remember "short answers" "m1" details 10
    ∷ call_remember "password: hunter2" "m2" details 11
    ∷ call_pin "m1" true 12
    ∷ []

run-AreClean_example :
    AreClean seal unseal dumps loads plain_text same_text same_text patterns same_text opens reads
      (run seal unseal dumps loads plain_text same_text same_text patterns same_text calls empty)
run-AreClean_example =
    run-AreClean seal unseal dumps loads plain_text same_text same_text patterns same_text opens
      reads calls empty tt

abbrev short : MemoryRecord
short = record {
  id = "m1";
  kind = fact;
  subject = "short answers";
  content = "short answers";
  tags = [];
  scope = permanent;
  source = "user";
  confidence = 100;
  pinned = false;
  created_at = 10;
  updated_at = 10;
  used_at = none;
  use_count = 0;
  expires_at = some 70;
}

abbrev vault_seal : ℕ → String → String → String
vault_seal n t c = t

abbrev vault_unseal : ℕ → String → String → Option String
vault_unseal n t c = some t

abbrev vault : Vault String
vault = record { rows = []; has_bus = false; announced = []; nonces = 0 }

remember_secret_hides_example :
    (remember_secret same_text vault_seal vault_unseal seal unseal dumps loads plain_text same_text
      same_text patterns same_text "github" "hunter2" "" "token" "m3" 20 empty
      (some vault)).0
    ≡ (remember_secret same_text vault_seal vault_unseal seal unseal dumps loads plain_text
        same_text same_text patterns same_text "github" "swordfish" "" "token" "m3" 20 empty
        (some vault)).0
remember_secret_hides_example =
    remember_secret_hides same_text vault_seal vault_unseal seal unseal dumps loads plain_text
      same_text same_text patterns same_text "github" "hunter2" "swordfish" "" "token" "m3" 20 empty
      (some vault)

short_found :
    get seal unseal dumps loads plain_text same_text same_text patterns same_text "m1"
      (remember seal unseal dumps loads plain_text same_text same_text patterns same_text
        "short answers" "m1" false details 10 empty).1
    ≡ found_record short
unfolding remember get Rows.find
short_found = refl
