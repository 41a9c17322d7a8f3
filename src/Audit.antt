-- ===== src/Audit.antt =====
-- What the audit log keeps of the parameters of an action: core/src/garis/runtime/audit.py.
-- The regular expressions are parameters: `secret_name` for a name, `secret_value` for a stripped text.
-- `long` says whether a text has more than MAX_VALUE_CHARS characters, `cut` is its first ones and "…".
pub mod Hidden
mod Tests
use garis.Base.{String, Bool, true, false, ◌&&◌, not, if◌then◌else◌}
use garis.Actions.{Value, Values, Fields, text, other, items, fields, nil, cons, end, field}
use garis.Vault.{is_ref}

-- REDACTED
abbrev pub redacted : String
redacted = "«ukryte»"

-- `_is_vault_ref`
abbrev pub is_vault_ref : Value → Bool
is_vault_ref (text s) = is_ref s
is_vault_ref _ = false

module _ (secret_name secret_value long : String → Bool) (strip cut : String → String) where
  abbrev pub redact_text : String → String
  redact_text s =
      if is_ref s
      then s
      else if secret_value (strip s)
      then redacted
      else if long s
      then cut s
      else s

  abbrev pub is_hidden : String → Value → Bool
  is_hidden name v = secret_name name && not (is_vault_ref v)

  unfoldable mutual
    pub redact : Value → Value
    redact (text s) = text (redact_text s)
    redact (other s) = other s
    redact (items vs) = items (redact_items vs)
    redact (fields fs) = fields (redact_fields fs)

    pub redact_items : Values → Values
    redact_items nil = nil
    redact_items (cons v vs) = cons (redact v) (redact_items vs)

    pub redact_fields : Fields → Fields
    redact_fields end = end
    redact_fields (field name v fs) =
        let inner = redact v in
        let rest = redact_fields fs in
        field name (if is_hidden name v then text redacted else inner) rest
