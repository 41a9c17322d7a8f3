-- ===== src/Memory.antt =====
-- What is remembered of the user: core/src/garis/memory.py, over the tokens of crypto.py and the vault.
-- The table `memory` is a list of rows. The parameters: AES-GCM as in the vault; `dumps` and `loads`,
-- JSON of an envelope as a text of the type `T`, none for a text that is no dict; `plain_text`, that text; `strip` and `lower` of Python; `patterns`, whether
-- one of the regular expressions for secrets matches; `infer_subject`. A context `memory:<id>` is given as
-- the id. Previews and the search are not modelled. Kinds and scopes come as members of their enums.
pub mod Clean
pub mod Run
pub mod Secrets
pub mod Recall
mod Tests
use garis.Base.{
  ℕ, suc, ◌+◌, String, Bool, true, false, Option, none, some, List, [], ◌∷◌, ◌++◌, map, keep, ◌==◌,
  ◌&&◌, ◌||◌, not, is_some, ltb, if◌then◌else◌, nat_eq, length, ◌-◌,
}
use Prim.Native.String.{◌++◌ as ◌<>◌}
use garis.Rows
use garis.Vault.{Token, Vault, Reply, raised, encrypt, decrypt, is_ref}
use garis.Vault
use garis.Leases.{sorted, set_of}

pub data MemoryKind : Type 0 where
  preference person project device credential_hint app solution routine fact style : MemoryKind

pub data Scope : Type 0 where
  session of_project permanent : Scope

pub record MemoryRecord : Type 0 where
  pub id : String
  pub kind : MemoryKind
  pub subject : String
  pub content : String
  pub tags : List String
  pub scope : Scope
  pub source : String
  pub confidence : ℕ
  pub pinned : Bool
  pub created_at : ℕ
  pub updated_at : ℕ
  pub used_at : Option ℕ
  pub use_count : ℕ
  pub expires_at : Option ℕ

-- the payload that is encrypted
pub record Envelope : Type 0 where
  pub content : String
  pub subject : String
  pub tags : List String

pub record Row (C : Type 0) : Type 0 where
  pub id : String
  pub kind : MemoryKind
  pub content_enc : Token C
  pub scope : Scope
  pub source : String
  pub confidence : ℕ
  pub pinned : Bool
  pub created_at : ℕ
  pub updated_at : ℕ
  pub used_at : Option ℕ
  pub use_count : ℕ
  pub expires_at : Option ℕ

pub data Change : Type 0 where
  remembered updated forgotten : String → Change

pub record MemoryService (C : Type 0) : Type 0 where
  pub rows : List (Row C)
  pub has_bus : Bool
  pub changes : List Change
  pub nonces : ℕ

-- the arguments of `remember` after the content
pub record Details : Type 0 where
  pub kind : MemoryKind
  pub subject : String
  pub tags : List String
  pub scope : Scope
  pub source : String
  pub confidence : ℕ
  pub pinned : Bool
  pub ttl_seconds : Option ℕ

-- the arguments of `update`
pub record Changes : Type 0 where
  pub content : Option String
  pub subject : Option String
  pub tags : Option (List String)
  pub scope : Option Scope
  pub confidence : Option ℕ
  pub pinned : Option Bool

-- what a call returns or raises: a record, a `ValueError`, a `SecretNotAllowed`, a `KeyError`, a
-- `LockedError`, or what the vault raised
pub data Outcome : Type 0 where
  is_record : MemoryRecord → Outcome
  is_empty : Outcome
  is_secret : Outcome
  no_key : Outcome
  is_locked : Outcome
  is_reference : String → Outcome
  vault_raised : Vault.Fault → Outcome

-- `get`: no row, a row that does not open, or its record
pub data Found : Type 0 where
  no_row : Found
  locked_row : Found
  found_record : MemoryRecord → Found

abbrev pub id_of : {C : Type 0} → Row C → String
id_of r = r.id

abbrev pub or_else {ℓ} : {A : Type ℓ} → Option A → A → A
or_else none a = a
or_else (some b) a = b

-- `looks_like_secret`
unfoldable pub looks_like_secret : (String → Bool) → String → Bool
unfolding is_ref
looks_like_secret patterns text = if is_ref text then false else patterns text

abbrev pub notify : {C : Type 0} → Change → MemoryService C → MemoryService C
notify change m = if m.has_bus then record m { changes = m.changes ++ change ∷ [] } else m

-- `tuple(sorted({t.strip().lower() for t in tags if t.strip()}))`
abbrev tidy_tags : (String → String) → (String → String) → List String → List String
tidy_tags strip lower tags =
    sorted (set_of (map (λ t. lower (strip t)) (keep (λ t. not (strip t == "")) tags)))

abbrev expiry : Option ℕ → ℕ → Option ℕ
expiry none now = none
expiry (some ttl) now = if nat_eq ttl 0 then none else some (now + ttl)

abbrev pub pin_changes : Bool → Changes
pin_changes pinned = record {
  content = none;
  subject = none;
  tags = none;
  scope = if pinned then some permanent else none;
  confidence = none;
  pinned = some pinned;
}

-- a row that is read: what opens, and what it says
abbrev record_of : {C : Type 0} → Row C → Envelope → MemoryRecord
record_of r e = record {
  id = r.id;
  kind = r.kind;
  subject = e.subject;
  content = e.content;
  tags = e.tags;
  scope = r.scope;
  source = r.source;
  confidence = r.confidence;
  pinned = r.pinned;
  created_at = r.created_at;
  updated_at = r.updated_at;
  used_at = r.used_at;
  use_count = r.use_count;
  expires_at = r.expires_at;
}

-- a bare string predates the envelope
abbrev pub envelope_of : {T : Type 0} → (T → String) → T → Option Envelope → Envelope
envelope_of plain_text raw none = record { content = plain_text raw; subject = ""; tags = [] }
envelope_of plain_text raw (some e) = e

abbrev pub payload_of : MemoryRecord → Envelope
payload_of r = record { content = r.content; subject = r.subject; tags = r.tags }

abbrev pub opened_row :
    {T C : Type 0} → (T → Option Envelope) → (T → String) → Row C → Option T → Option MemoryRecord
opened_row loads plain_text r none = none
opened_row loads plain_text r (some raw) =
    some (record_of r (envelope_of plain_text raw (loads raw)))

abbrev is_session : Scope → Bool
is_session session = true
is_session _ = false

abbrev is_past : Option ℕ → ℕ → Bool
is_past none now = false
is_past (some t) now = ltb t now

-- `DELETE FROM memory WHERE …`, with how many rows it deletes
abbrev pub dropped : {C : Type 0} → (Row C → Bool) → MemoryService C → ℕ × MemoryService C
dropped gone m =
    let left = keep (λ r. not (gone r)) m.rows in
    (length m.rows - length left, record m { rows = left })

abbrev pub in_session : {C : Type 0} → Row C → Bool
in_session r = is_session r.scope

abbrev pub has_expired : {C : Type 0} → ℕ → Row C → Bool
has_expired now r = is_past r.expires_at now

-- `end_session`
unfoldable pub end_session : {C : Type 0} → MemoryService C → ℕ × MemoryService C
end_session m = dropped in_session m

-- `purge_expired`
unfoldable pub purge_expired : {C : Type 0} → ℕ → MemoryService C → ℕ × MemoryService C
purge_expired now m = dropped (has_expired now) m

module _ {T C : Type 0} (seal : ℕ → T → String → C) (unseal : ℕ → C → String → Option T)
    (dumps : Envelope → T) (loads : T → Option Envelope) (plain_text : T → String)
    (strip lower : String → String) (patterns : String → Bool)
    (infer_subject : String → String) where
  -- `_decode`, none for a `LockedError`
  unfoldable pub decode : Row C → Option MemoryRecord
  unfolding decrypt
  decode r = opened_row loads plain_text r (decrypt unseal r.content_enc r.id)

  -- `_encrypt`
  abbrev pub sealed : ℕ → MemoryRecord → Token C
  sealed nonce r = encrypt seal nonce (dumps (payload_of r)) r.id

  -- the row that `_insert` writes
  abbrev pub row_of : ℕ → MemoryRecord → Row C
  row_of nonce r = record {
    id = r.id;
    kind = r.kind;
    content_enc = sealed nonce r;
    scope = r.scope;
    source = r.source;
    confidence = r.confidence;
    pinned = r.pinned;
    created_at = r.created_at;
    updated_at = r.updated_at;
    used_at = none;
    use_count = 0;
    expires_at = r.expires_at;
  }

  abbrev pub new_record : String → String → Details → ℕ → MemoryRecord
  new_record id content d now = record {
    id = id;
    kind = d.kind;
    subject = if strip d.subject == "" then infer_subject content else strip d.subject;
    content = content;
    tags = tidy_tags strip lower d.tags;
    scope = d.scope;
    source = d.source;
    confidence = d.confidence;
    pinned = d.pinned;
    created_at = now;
    updated_at = now;
    used_at = none;
    use_count = 0;
    expires_at = expiry d.ttl_seconds now;
  }

  abbrev pub inserted : MemoryRecord → MemoryService C → Outcome × MemoryService C
  inserted r m = (
    is_record r,
    notify (remembered r.id)
        (record m { rows = Rows.insert id_of m.rows (row_of m.nonces r); nonces = m.nonces + 1 }),
  )

  -- `remember` of a stripped content; `id` is the new one, `bypass` says that nothing is looked for
  abbrev pub remember_text :
      String → String → Bool → Details → ℕ → MemoryService C → Outcome × MemoryService C
  remember_text content id bypass d now m =
      if content == ""
      then (is_empty, m)
      else if not bypass && looks_like_secret patterns content
      then (is_secret, m)
      else inserted (new_record id content d now) m

  unfoldable pub remember :
      String → String → Bool → Details → ℕ → MemoryService C → Outcome × MemoryService C
  unfolding encrypt looks_like_secret sorted set_of
  remember content id bypass d now m = remember_text (strip content) id bypass d now m

  abbrev pub found_row : Option (Row C) → Found
  found_row none = no_row
  found_row (some r) = elim (decode r) [ none ↦ locked_row | some x ↦ found_record x ]

  -- `get`
  unfoldable pub get : String → MemoryService C → Found
  unfolding decode
  get id m = found_row (Rows.find id_of m.rows id)

  abbrev pub with_content : Option String → MemoryRecord → MemoryRecord
  with_content none r = r
  with_content (some content) r = record r { content = strip content }

  abbrev pub changed : Changes → ℕ → MemoryRecord → MemoryRecord
  changed c now r = record (with_content c.content r) {
    subject = elim c.subject [ none ↦ r.subject | some s ↦ strip s ];
    tags = elim c.tags [ none ↦ r.tags | some ts ↦ tidy_tags strip lower ts ];
    scope = or_else c.scope r.scope;
    confidence = or_else c.confidence r.confidence;
    pinned = or_else c.pinned r.pinned;
    updated_at = now;
  }

  abbrev pub refuses : Option String → Bool
  refuses none = false
  refuses (some content) = looks_like_secret patterns (strip content)

  -- the statement of `update`
  abbrev pub rewritten : ℕ → MemoryRecord → Row C → Row C
  rewritten nonce r row = record row {
    content_enc = sealed nonce r;
    scope = r.scope;
    confidence = r.confidence;
    pinned = r.pinned;
    updated_at = r.updated_at;
  }

  abbrev pub stored : MemoryRecord → MemoryService C → Outcome × MemoryService C
  stored r m = (
    is_record r,
    notify (updated r.id) (record m {
      rows = Rows.update id_of m.rows r.id (rewritten m.nonces r);
      nonces = m.nonces + 1;
    }),
  )

  abbrev pub update_found : Changes → ℕ → Found → MemoryService C → Outcome × MemoryService C
  update_found c now no_row m = (no_key, m)
  update_found c now locked_row m = (is_locked, m)
  update_found c now (found_record r) m =
      if refuses c.content then (is_secret, m) else stored (changed c now r) m

  unfoldable pub update : String → Changes → ℕ → MemoryService C → Outcome × MemoryService C
  unfolding encrypt get looks_like_secret sorted set_of
  update id c now m = update_found c now (get id m) m

  -- `pin`
  unfoldable pub pin : String → Bool → ℕ → MemoryService C → Outcome × MemoryService C
  unfolding update
  pin id pinned now m = update id (pin_changes pinned) now m

  -- `forget`, whose `get` may raise a `LockedError`
  abbrev pub forget_found : String → Found → MemoryService C → Option Bool × MemoryService C
  forget_found id no_row m = (some false, m)
  forget_found id locked_row m = (none, m)
  forget_found id (found_record r) m =
      (some true, notify (forgotten id) (record m { rows = keep (λ x. not (x.id == id)) m.rows }))

  unfoldable pub forget : String → MemoryService C → Option Bool × MemoryService C
  unfolding get
  forget id m = forget_found id (get id m) m
