-- ===== src/Vault.antt =====
-- The credential vault: core/src/garis/vault.py, with `SecretBox` of core/src/garis/crypto.py.
-- The table `secrets` is a `Dict` from names to rows. AES-GCM is a parameter: `seal` and `unseal` take
-- the nonce, the text or ciphertext, and the context; a context `vault:<name>` is given as the name. A
-- token has its three parts as fields, without their base64. What Python's `strip`, `lower` and
-- `replace` make of a name is the parameter `tidy`. The random nonces are a count of those drawn.
pub mod Shelf
pub mod Refines
pub mod Run
pub mod Tree
pub mod TreeLaws
pub mod Filled
pub mod Rename
mod Tests
use Prim.Native.String
use garis.Base.{
  ℕ, suc, ◌+◌, String, Bool, true, false, Option, none, some, List, [], ◌∷◌, ◌++◌, ◌==◌, ◌&&◌, not,
  if◌then◌else◌, is_some, text_le,
}
use text.Mathlib.Text.{starts_with}
use garis.Dict
use garis.Dict.{Dict}

-- REF_PREFIX
abbrev ref_prefix : String
ref_prefix = "vault://"

unfoldable pub is_ref : String → Bool
is_ref value = starts_with value ref_prefix

-- the text after a prefix of eight bytes
unfoldable pub ref_name : String → String
ref_name value = Prim.Native.String.slice value 8 (Prim.Native.String.len value)

-- what `SecretBox.encrypt` writes: `g1.<nonce>.<ciphertext>`
pub record Token (C : Type 0) : Type 0 where
  pub version : String
  pub nonce : ℕ
  pub ciphertext : C

-- a row of `secrets`, its name apart
pub record Secret (C : Type 0) : Type 0 where
  pub value_enc : Token C
  pub kind : String
  pub note : String
  pub created_at : ℕ
  pub updated_at : ℕ
  pub used_at : Option ℕ
  pub use_count : ℕ

pub record SecretInfo : Type 0 where
  pub name : String
  pub kind : String
  pub note : String
  pub created_at : ℕ
  pub updated_at : ℕ
  pub used_at : Option ℕ
  pub use_count : ℕ

pub data Announcement : Type 0 where
  was_set was_deleted : String → Announcement

pub record Vault (C : Type 0) : Type 0 where
  pub rows : Dict (Secret C)
  pub has_bus : Bool
  pub announced : List Announcement
  pub nonces : ℕ

-- the exceptions: a `KeyError`, `_clean`'s `ValueError`, a `StoreError`, a `LockedError`
pub data Fault : Type 0 where
  no_key no_name no_secret locked : Fault

-- what a call returns, or the exception that it raises
pub data Reply : Type 0 where
  nothing : Reply
  is_info : SecretInfo → Reply
  value : String → Reply
  is_true : Bool → Reply
  raised : Fault → Reply

-- a text, or the exception in its place
pub data Got : Type 0 where
  found : String → Got
  stopped : Fault → Got

-- `_clean`
unfoldable pub clean : (String → String) → String → Option String
unfolding is_ref ref_name
clean tidy name =
    let cleaned = tidy name in
    if cleaned == "" then none else some (if is_ref cleaned then ref_name cleaned else cleaned)

abbrev pub opened : Option String → Got
opened none = stopped locked
opened (some text) = found text

abbrev pub as_reply : Got → Reply
as_reply (found text) = value text
as_reply (stopped f) = raised f

abbrev pub optional : Got → Reply
optional (found text) = value text
optional (stopped no_key) = nothing
optional (stopped f) = raised f

abbrev pub or_no_secret : Got → Got
or_no_secret (stopped no_key) = stopped no_secret
or_no_secret got = got

-- `SecretBox.encrypt`
unfoldable pub encrypt : {T C : Type 0} → (ℕ → T → String → C) → ℕ → T → String → Token C
encrypt seal nonce text context = record {
  version = "g1";
  nonce = nonce;
  ciphertext = seal nonce text context;
}

-- `SecretBox.decrypt_text`; none for a `LockedError`
unfoldable pub decrypt : {T C : Type 0} → (ℕ → C → String → Option T) → Token C → String → Option T
decrypt unseal token context =
    if token.version == "g1" then unseal token.nonce token.ciphertext context else none

module _ {C : Type 0} where
  -- `_row`
  unfoldable pub info_of : String → Secret C → SecretInfo
  info_of name row = record {
    name = name;
    kind = row.kind;
    note = row.note;
    created_at = row.created_at;
    updated_at = row.updated_at;
    used_at = row.used_at;
    use_count = row.use_count;
  }

  unfoldable pub announce : Announcement → Vault C → Vault C
  announce a v = if v.has_bus then record v { announced = v.announced ++ a ∷ [] } else v

  -- the statement of `set`: a row that is there keeps when it was created and how often it was used
  abbrev pub upserted : Option (Secret C) → Token C → String → String → ℕ → Secret C
  upserted none token kind note now = record {
    value_enc = token;
    kind = kind;
    note = note;
    created_at = now;
    updated_at = now;
    used_at = none;
    use_count = 0;
  }
  upserted (some row) token kind note now = record row {
    value_enc = token;
    kind = kind;
    note = note;
    updated_at = now;
  }

  abbrev pub touched : ℕ → Secret C → Secret C
  touched now row = record row { used_at = some now; use_count = row.use_count + 1 }

  abbrev kind_of : Option (Secret C) → String
  kind_of none = "token"
  kind_of (some row) = row.kind

  abbrev note_of : Option (Secret C) → String
  note_of none = ""
  note_of (some row) = row.note

  -- the row of `info`; none for no row
  abbrev pub row_at : Option String → Vault C → Option (Secret C)
  row_at none v = none
  row_at (some name) v = Dict.get v.rows name

  abbrev pub info_row : String → Option (Secret C) → Reply
  info_row name none = nothing
  info_row name (some row) = is_info (info_of name row)

  -- the end of `set`, from what `info` gave
  abbrev pub written : String → Reply → Vault C → Reply × Vault C
  written name nothing v = (raised no_secret, v)
  written name (raised f) v = (raised f, v)
  written name reply v = (reply, announce (was_set name) v)

module _ {C : Type 0} (tidy : String → String) (seal : ℕ → String → String → C)
    (unseal : ℕ → C → String → Option String) where
  abbrev pub info_clean : Option String → Vault C → Reply
  info_clean none v = raised no_name
  info_clean (some name) v = info_row name (Dict.get v.rows name)

  -- `info`
  unfoldable pub info : String → Vault C → Reply
  unfolding clean info_of
  info name v = info_clean (clean tidy name) v

  abbrev pub set_row : String → String → String → String → ℕ → Vault C → Vault C
  set_row name text kind note now v = record v {
    rows =
        Dict.put v.rows name
          (upserted (Dict.get v.rows name) (encrypt seal v.nonces text name) kind note now);
    nonces = v.nonces + 1;
  }

  -- `set`: `info` cleans the clean name once more
  abbrev pub set_clean : Option String → String → String → String → ℕ → Vault C → Reply × Vault C
  set_clean none text kind note now v = (raised no_name, v)
  set_clean (some name) text kind note now v =
      let w = set_row name text kind note now v in written name (info name w) w

  unfoldable pub set : String → String → String → String → ℕ → Vault C → Reply × Vault C
  unfolding encrypt clean announce info
  set name text kind note now v = set_clean (clean tidy name) text kind note now v

  -- `delete`
  abbrev pub delete_clean : Option String → Vault C → Reply × Vault C
  delete_clean none v = (raised no_name, v)
  delete_clean (some name) v =
      if is_some (Dict.get v.rows name)
      then (is_true true, announce (was_deleted name) (record v { rows = Dict.pop v.rows name }))
      else (is_true false, v)

  unfoldable pub delete : String → Vault C → Reply × Vault C
  unfolding clean announce
  delete name v = delete_clean (clean tidy name) v

  -- `get`
  abbrev pub get_row : String → ℕ → Option (Secret C) → Vault C → Got × Vault C
  get_row name now none v = (stopped no_key, v)
  get_row name now (some row) v = (
    opened (decrypt unseal row.value_enc name),
    record v { rows = Dict.put v.rows name (touched now row) },
  )

  abbrev pub get_clean : Option String → ℕ → Vault C → Got × Vault C
  get_clean none now v = (stopped no_name, v)
  get_clean (some name) now v = get_row name now (Dict.get v.rows name) v

  unfoldable pub get : String → ℕ → Vault C → Got × Vault C
  unfolding clean decrypt
  get name now v = get_clean (clean tidy name) now v

  -- what `rename` does after a call: an exception ends it
  abbrev pub then_delete : String → Reply × Vault C → Reply × Vault C
  then_delete old (raised f, v) = (raised f, v)
  then_delete old (_, v) = (nothing, (delete old v).1)

  abbrev pub rename_got : String → String → ℕ → Got × Vault C → Reply × Vault C
  rename_got old new now (stopped f, v) = (raised f, v)
  rename_got old new now (found text, v) =
      let current = row_at (clean tidy old) v in
      then_delete old (set new text (kind_of current) (note_of current) now v)

  -- `rename`: the clock is read by `get` and by `set`
  unfoldable pub rename : String → String → ℕ → ℕ → Vault C → Reply × Vault C
  unfolding get set delete
  rename old new used now v = rename_got old new now (get old used v)

  -- `has`
  abbrev pub has_clean : Option String → Vault C → Reply
  has_clean none v = raised no_name
  has_clean (some name) v = is_true (is_some (Dict.get v.rows name))

  unfoldable pub has : String → Vault C → Reply
  unfolding clean
  has name v = has_clean (clean tidy name) v

  -- `get_optional`
  unfoldable pub get_optional : String → ℕ → Vault C → Reply × Vault C
  unfolding get
  get_optional name now v = let r = get name now v in (optional r.0, r.1)

  -- `resolve`
  unfoldable pub resolve : String → ℕ → Vault C → Got × Vault C
  unfolding get is_ref ref_name
  resolve text now v =
      if is_ref text
      then (let r = get (ref_name text) now v in (or_no_secret r.0, r.1))
      else (found text, v)
