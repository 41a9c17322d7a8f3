-- ===== src/Memory/Secrets.antt =====
-- A credential goes to the vault, a hint to the memory: `remember_secret` of core/src/garis/memory.py.
use Prim.Native.String.{◌++◌ as ◌<>◌}
use garis.Base.{
  ℕ, String, Bool, true, false, Option, none, some, [], ◌∷◌, ◌==◌, ◌≡◌, refl, if◌then◌else◌,
  is_some, arith,
}
use garis.Dict
use garis.Dict.{Dict, get-put}
use garis.Vault
use garis.Vault.{
  Vault, Reply, raised, set, set_clean, set_row, clean, written, info, info_row, info_clean,
}
use garis.Memory.{
  MemoryService, Envelope, Details, Outcome, is_record, is_secret, is_reference, vault_raised,
  credential_hint, permanent, remember,
}

abbrev pub hint_details : String → Details
hint_details name = record {
  kind = credential_hint;
  subject = name;
  tags = "sejf" ∷ [];
  scope = permanent;
  source = "vault";
  confidence = 100;
  pinned = false;
  ttl_seconds = none;
}

abbrev pub hint : String → String → String → String
hint name note kind =
    "Dostęp „" <> (name <> ("” jest w sejfie (" <> ((if note == "" then kind else note) <> ").")))

-- an exception of `remember` ends the call, else the reference is returned
abbrev pub referred : String → Outcome → Outcome
referred name (is_record r) = is_reference ("vault://" <> name)
referred name o = o

module _ {T C D : Type 0} (tidy : String → String) (vault_seal : ℕ → String → String → D)
    (vault_unseal : ℕ → D → String → Option String) (seal : ℕ → T → String → C)
    (unseal : ℕ → C → String → Option T) (dumps : Envelope → T) (loads : T → Option Envelope)
    (plain_text : T → String) (strip lower : String → String) (patterns : String → Bool)
    (infer_subject : String → String) where
  -- what follows the call of the vault
  abbrev pub then_hint :
      String → String → String → String → ℕ → MemoryService C → Reply → Outcome × MemoryService C
  then_hint name note kind id now m (raised f) = (vault_raised f, m)
  then_hint name note kind id now m _ =
      let r =
        remember seal unseal dumps loads plain_text strip lower patterns infer_subject
          (hint name note kind) id true (hint_details name) now m in
      (referred name r.0, r.1)

  abbrev pub secret_set :
      String
      → String
      → String
      → String
      → ℕ
      → MemoryService C
      → Reply × Vault D
      → (Outcome × MemoryService C) × Option (Vault D)
  secret_set name note kind id now m (r, v) = (then_hint name note kind id now m r, some v)

  -- `remember_secret`; none for a memory without a vault
  unfoldable pub remember_secret :
      String
      → String
      → String
      → String
      → String
      → ℕ
      → MemoryService C
      → Option (Vault D)
      → (Outcome × MemoryService C) × Option (Vault D)
  unfolding set
  remember_secret name value note kind id now m none = ((is_secret, m), none)
  remember_secret name value note kind id now m (some v) =
      secret_set name note kind id now m
        (set tidy vault_seal vault_unseal name value kind note now v)

  abbrev is_raised : Reply → Bool
  is_raised (raised f) = true
  is_raised _ = false

  -- whether `info` finds a row decides what follows, not what the row holds
  same_hint :
      (name note kind id : String) (now : ℕ) (m : MemoryService C) (k x : String) (v v' : Vault D)
      (o o' : Option (Vault.Secret D))
      → is_some o ≡ is_some o'
      → then_hint name note kind id now m (written k (info_row x o) v).0
        ≡ then_hint name note kind id now m (written k (info_row x o') v').0
  same_hint name note kind id now m k x v v' none none h = refl
  same_hint name note kind id now m k x v v' (some r) none h = absurd (cc)
  same_hint name note kind id now m k x v v' none (some r) h = absurd (cc)
  same_hint name note kind id now m k x v v' (some r) (some r') h = refl

  same_rows :
      (rows : Dict (Vault.Secret D)) (k j : String) (row row' : Vault.Secret D)
      → is_some (Dict.get (Dict.put rows k row) j) ≡ is_some (Dict.get (Dict.put rows k row') j)
  same_rows rows k j row row' = ground (arith, get-put rows k j row, get-put rows k j row')

  same_info :
      (name note kind id : String) (now : ℕ) (m : MemoryService C) (k value value' : String)
      (o : Option String) (v : Vault D)
      → let w = set_row tidy vault_seal vault_unseal k value kind note now v in
        let w' = set_row tidy vault_seal vault_unseal k value' kind note now v in
        then_hint name note kind id now m
          (written k (info_clean tidy vault_seal vault_unseal o w) w).0
        ≡ then_hint name note kind id now m
            (written k (info_clean tidy vault_seal vault_unseal o w') w').0
  same_info name note kind id now m k value value' none v = refl
  same_info name note kind id now m k value value' (some x) v =
      same_hint name note kind id now m k x _ _ _ _ (same_rows v.rows k x _ _)

  same_set :
      (k : Option String) (name note kind id value value' : String) (now : ℕ) (m : MemoryService C)
      (v : Vault D)
      → then_hint name note kind id now m
          (set_clean tidy vault_seal vault_unseal k value kind note now v).0
        ≡ then_hint name note kind id now m
            (set_clean tidy vault_seal vault_unseal k value' kind note now v).0
  unfolding info
  same_set none name note kind id value value' now m v = refl
  same_set (some k) name note kind id value value' now m v =
      same_info name note kind id now m k value value' (clean tidy k) v

  -- What the memory holds and announces after a secret was given to it, and what the caller gets back,
  -- do not depend on the value of the secret.
  pub remember_secret_hides :
      (name value value' note kind id : String) (now : ℕ) (m : MemoryService C)
      (v : Option (Vault D))
      → (remember_secret name value note kind id now m v).0
        ≡ (remember_secret name value' note kind id now m v).0
  unfolding remember_secret
  remember_secret_hides name value value' note kind id now m none = refl
  remember_secret_hides name value value' note kind id now m (some v) =
      same_set (clean tidy name) name note kind id value value' now m v
