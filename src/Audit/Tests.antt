-- ===== src/Audit/Tests.antt =====
-- Parameters of a login as the log keeps them.
use garis.Base.{String, Bool, false, ◌==◌, ◌≡◌, refl}
use garis.Actions.{Value, text, fields, field, end}
use garis.Vault.{is_ref}
use garis.Audit.{redact}
use garis.Audit.Hidden.{erase, redact-erase}

abbrev secret_name : String → Bool
secret_name s = s == "password"

abbrev never : String → Bool
never s = false

abbrev same_text : String → String
same_text s = s

abbrev login : Value
login = fields (
    field "user" (text "ala")
      (field "password" (text "hunter2") (field "token" (text "vault://t") end)))

login_redacted :
    redact secret_name never never same_text same_text login
    ≡ fields (
        field "user"
          (text "ala")
          (field "password" (text "«ukryte»") (field "token" (text "vault://t") end)))
unfolding redact is_ref
login_redacted = refl

redact-erase_example :
    redact secret_name never never same_text same_text
      (erase secret_name never never same_text same_text login)
    ≡ redact secret_name never never same_text same_text login
redact-erase_example = redact-erase secret_name never never same_text same_text login
