-- ===== src/Vault/Tests.antt =====
-- The vault at two secrets, with a box that keeps the text beside its context.
use garis.Base.{
  ℕ, ◌≡◌, refl, String, true, false, Option, none, some, List, [], ◌∷◌, ◌==◌, eq_refl,
  if◌then◌else◌, is_some,
}
use garis.Dict
use garis.Actions.{Value, text, other, fields, field, end, items, cons, nil}
use garis.Vault.{
  Vault, nothing, value, is_true, raised, no_secret, no_name, get, has, rename, set, clean, is_ref,
  resolve,
}
use garis.Vault.Shelf.{
  Shelf, Call, call_set, call_get, call_rename, call_has, call_resolve, Holds, vault_step,
}
use garis.Vault.Run.{vault_run, shelf_run, vault_run-shelf_run}
use garis.Vault.Tree.{resolve_tree, walked}
use garis.Vault.Filled.{filled}
use garis.Vault.TreeLaws.{resolve_tree-filled}
use garis.Vault.Rename.{has-rename}

abbrev same_text : String → String
same_text s = s

abbrev Box : Type 0
Box = String × String

abbrev seal : ℕ → String → String → Box
seal n t c = (t, c)

abbrev unseal : ℕ → Box → String → Option String
unseal n (t, c) d = if c == d then some t else none

opens : (n : ℕ) (t c : String) → unseal n (seal n t c) c ≡ some t
opens n t c = rw (eq_refl c) refl

abbrev empty : Vault Box
empty = record { rows = []; has_bus = true; announced = []; nonces = 0 }

abbrev bare : Shelf
bare k = none

empty-Holds : Holds unseal empty.rows bare
unfolding Dict.get
empty-Holds k = refl

abbrev calls : List Call
calls =
    call_set "openai" "sk-1" "token" "" 10
    ∷ call_get "vault://openai" 11
    ∷ call_rename "openai" "backup" 12 13
    ∷ call_has "openai"
    ∷ call_resolve "vault://backup" 14
    ∷ call_resolve "vault://openai" 15
    ∷ []

replies :
    (vault_run same_text seal unseal calls empty).0
    ≡ value "openai" ∷ value "sk-1" ∷ nothing ∷ is_true false ∷ value "sk-1" ∷ raised no_secret ∷ []
unfolding vault_run vault_step set get rename has resolve Dict.get Dict.put Dict.pop
replies = refl

vault_run-shelf_run_example :
    ((vault_run same_text seal unseal calls empty).0 ≡ (shelf_run same_text calls bare).0)
    × Holds unseal
        (vault_run same_text seal unseal calls empty).1.rows
        (shelf_run same_text calls bare).1
vault_run-shelf_run_example =
    vault_run-shelf_run same_text seal unseal opens calls empty bare empty-Holds

abbrev one : List Call
one = call_set "openai" "sk-1" "token" "" 10 ∷ []

abbrev stocked : Vault Box
stocked = (vault_run same_text seal unseal one empty).1

abbrev stock : Shelf
stock = (shelf_run same_text one bare).1

stocked-Holds : Holds unseal stocked.rows stock
stocked-Holds = (vault_run-shelf_run same_text seal unseal opens one empty bare empty-Holds).1

abbrev tree : Value
tree = fields (
    field "key" (text "vault://openai") (
      field "retries" (other "3")
        (field "hosts" (items (cons (text "a") (cons (text "vault://openai") nil))) end)))

tree_resolved :
    (resolve_tree same_text seal unseal 20 tree stocked).0
    ≡ walked
        (fields (
          field "key" (text "sk-1") (
            field "retries"
              (other "3")
              (field "hosts" (items (cons (text "a") (cons (text "sk-1") nil))) end))))
        ("openai" ∷ "openai" ∷ [])
unfolding resolve_tree vault_run is_ref resolve Dict.get vault_step set Dict.put
tree_resolved = refl

resolve_tree-filled_example :
    ((resolve_tree same_text seal unseal 20 tree stocked).0 ≡ filled same_text stock tree)
    × Holds unseal (resolve_tree same_text seal unseal 20 tree stocked).1.rows stock
resolve_tree-filled_example =
    resolve_tree-filled same_text seal unseal 20 opens stock tree stocked stocked-Holds

has-rename_example :
    let r = rename same_text seal unseal "openai" "vault://openai" 20 21 stocked in
    (r.0 ≡ nothing) × (has same_text seal unseal "openai" r.1 ≡ is_true false)
unfolding get vault_run clean Dict.get vault_step set Dict.put
has-rename_example =
    has-rename same_text seal unseal "openai" "vault://openai" "sk-1" "openai" 20 21 stocked refl
      refl refl refl

-- a name that its second cleaning rejects is written, but the call raises and announces nothing
nameless_raises :
    ((set same_text seal unseal "vault://" "sk-9" "token" "" 10 empty).0 ≡ raised no_name)
    × ((set same_text seal unseal "vault://" "sk-9" "token" "" 10 empty).1.announced ≡ [])
    × (is_some
          (Dict.get (set same_text seal unseal "vault://" "sk-9" "token" "" 10 empty).1.rows "")
        ≡ true)
unfolding set Dict.get Dict.put
nameless_raises = (refl, refl, refl)
