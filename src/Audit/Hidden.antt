-- ===== src/Audit/Hidden.antt =====
-- What stands under a secret name is not in the log (core/src/garis/runtime/audit.py, `redact`).
use garis.Base.{String, Bool, ◌≡◌, ◌∙◌, refl, ap, arith, if◌then◌else◌, Bool-cases, inl, inr}
use garis.Actions.{Value, Values, Fields, text, other, items, fields, nil, cons, end, field}
use garis.Audit.{is_vault_ref, is_hidden, redact, redact_items, redact_fields, redacted}

module _ (secret_name secret_value long : String → Bool) (strip cut : String → String) where
  -- The tree with nothing under a secret name but references to the vault.
  unfoldable mutual
    pub erase : Value → Value
    erase (text s) = text s
    erase (other s) = other s
    erase (items vs) = items (erase_items vs)
    erase (fields fs) = fields (erase_fields fs)

    pub erase_items : Values → Values
    erase_items nil = nil
    erase_items (cons v vs) = cons (erase v) (erase_items vs)

    pub erase_fields : Fields → Fields
    erase_fields end = end
    erase_fields (field name v fs) =
        let inner = erase v in
        let rest = erase_fields fs in
        field name
          (if is_hidden secret_name secret_value long strip cut name v then other "" else inner)
          rest

  ref-erase : (v : Value) → is_vault_ref (erase v) ≡ is_vault_ref v
  unfolding erase
  ref-erase (text s) = refl
  ref-erase (other s) = refl
  ref-erase (items vs) = refl
  ref-erase (fields fs) = refl

  abbrev shown_field : String → Value → Value → Value
  shown_field name v inner =
      if is_hidden secret_name secret_value long strip cut name v then text redacted else inner

  field_same :
      (name : String) (v : Value)
      → redact secret_name secret_value long strip cut (erase v)
        ≡ redact secret_name secret_value long strip cut v
      → (let w =
            if is_hidden secret_name secret_value long strip cut name v
            then other ""
            else erase v in
          shown_field name w (redact secret_name secret_value long strip cut w))
        ≡ shown_field name v (redact secret_name secret_value long strip cut v)
  unfolding redact
  field_same name v e =
      elim (Bool-cases (is_hidden secret_name secret_value long strip cut name v)) [
        | inl b ↦ rw b (ground (arith, b))
        | inr b ↦ rw b (ground (arith, b, ref-erase v, e))
      ]

  mutual
    unfolding redact erase

    redact_same :
        (v : Value)
        → redact secret_name secret_value long strip cut (erase v)
          ≡ redact secret_name secret_value long strip cut v
    redact_same (text s) = refl
    redact_same (other s) = refl
    redact_same (items vs) = ap items (items_same vs)
    redact_same (fields fs) = ap fields (fields_same fs)

    items_same :
        (vs : Values)
        → redact_items secret_name secret_value long strip cut (erase_items vs)
          ≡ redact_items secret_name secret_value long strip cut vs
    items_same nil = refl
    items_same (cons v vs) =
        ap (λ x. cons x (redact_items secret_name secret_value long strip cut (erase_items vs)))
          (redact_same v)
        ∙ ap (cons (redact secret_name secret_value long strip cut v)) (items_same vs)

    fields_same :
        (fs : Fields)
        → redact_fields secret_name secret_value long strip cut (erase_fields fs)
          ≡ redact_fields secret_name secret_value long strip cut fs
    fields_same end = refl
    fields_same (field name v fs) =
        ap
          (λ x.
            field name x (redact_fields secret_name secret_value long strip cut (erase_fields fs)))
          (field_same name v (redact_same v))
        ∙ ap (field name (shown_field name v (redact secret_name secret_value long strip cut v)))
            (fields_same fs)

  -- What the log keeps of a tree of parameters is what it keeps of the tree in which every value under a
  -- secret name, at any depth, is erased, but for references to the vault: it does not depend on them.
  pub redact-erase :
      (v : Value)
      → redact secret_name secret_value long strip cut (erase v)
        ≡ redact secret_name secret_value long strip cut v
  redact-erase v = redact_same v
