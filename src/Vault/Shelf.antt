-- ===== src/Vault/Shelf.antt =====
-- The vault as a dictionary from names to values (core/src/garis/vault.py).
use garis.Base.{ℕ, String, Option, none, some, ◌==◌, ◌≡◌, if◌then◌else◌, is_some}
use garis.Dict
use garis.Dict.{Dict}
use garis.Vault.{
  Vault, Secret, Reply, nothing, is_info, value, is_true, raised, no_key, no_name, no_secret, Got,
  found, stopped, clean, is_ref, ref_name, decrypt, set, delete, get, rename, has, get_optional,
  optional, resolve, or_no_secret, as_reply,
}

-- the abstract state: the value that a clean name has
abbrev pub Shelf : Type 0
Shelf = String → Option String

abbrev pub shelf_put : Shelf → String → String → Shelf
shelf_put a k x j = if k == j then some x else a j

abbrev pub shelf_pop : Shelf → String → Shelf
shelf_pop a k j = if k == j then none else a j

pub data Call : Type 0 where
  call_set : String → String → String → String → ℕ → Call
  call_delete : String → Call
  call_get : String → ℕ → Call
  call_get_optional : String → ℕ → Call
  call_rename : String → String → ℕ → ℕ → Call
  call_has : String → Call
  call_resolve : String → ℕ → Call

-- What a shelf answers to a call.
abbrev pub shelf_got : Option String → Got
shelf_got none = stopped no_key
shelf_got (some x) = found x

abbrev pub shelf_get : Option String → Shelf → Got
shelf_get none a = stopped no_name
shelf_get (some k) a = shelf_got (a k)

-- a name on the shelf, as the answer to one that was just put there: it may be cleaned to another
abbrev pub shelf_named : Option String → Shelf → Reply
shelf_named none a = raised no_name
shelf_named (some k) a = if is_some (a k) then value k else raised no_secret

abbrev pub shelf_set : (String → String) → Option String → String → Shelf → Reply × Shelf
shelf_set tidy none x a = (raised no_name, a)
shelf_set tidy (some k) x a = (shelf_named (clean tidy k) (shelf_put a k x), shelf_put a k x)

abbrev pub shelf_delete : Option String → Shelf → Reply × Shelf
shelf_delete none a = (raised no_name, a)
shelf_delete (some k) a = (is_true (is_some (a k)), shelf_pop a k)

abbrev pub shelf_has : Option String → Shelf → Reply
shelf_has none a = raised no_name
shelf_has (some k) a = is_true (is_some (a k))

-- an answer takes the old name away, an exception leaves it
abbrev pub shelf_moved : Option String → Reply × Shelf → Reply × Shelf
shelf_moved old (raised f, a) = (raised f, a)
shelf_moved old (_, a) = (nothing, (shelf_delete old a).1)

abbrev pub shelf_rename :
    (String → String) → Option String → Option String → Got → Shelf → Reply × Shelf
shelf_rename tidy old new (stopped f) a = (raised f, a)
shelf_rename tidy old new (found x) a = shelf_moved old (shelf_set tidy new x a)

module _ (tidy : String → String) where
  unfoldable pub shelf_resolve : String → Shelf → Got
  shelf_resolve text a =
      if is_ref text then or_no_secret (shelf_get (clean tidy (ref_name text)) a) else found text

  unfoldable pub shelf_step : Call → Shelf → Reply × Shelf
  shelf_step (call_set name x kind note now) a = shelf_set tidy (clean tidy name) x a
  shelf_step (call_delete name) a = shelf_delete (clean tidy name) a
  shelf_step (call_get name now) a = (as_reply (shelf_get (clean tidy name) a), a)
  shelf_step (call_get_optional name now) a = (optional (shelf_get (clean tidy name) a), a)
  shelf_step (call_rename old new used now) a =
      shelf_rename tidy (clean tidy old) (clean tidy new) (shelf_get (clean tidy old) a) a
  shelf_step (call_has name) a = (shelf_has (clean tidy name) a, a)
  shelf_step (call_resolve text now) a = (as_reply (shelf_resolve text a), a)

-- A reply without the metadata of a secret.
abbrev pub plain : Reply → Reply
plain (is_info i) = value i.name
plain r = r

module _ {C : Type 0} (tidy : String → String) (seal : ℕ → String → String → C)
    (unseal : ℕ → C → String → Option String) where
  unfoldable pub vault_step : Call → Vault C → Reply × Vault C
  vault_step (call_set name x kind note now) v = set tidy seal unseal name x kind note now v
  vault_step (call_delete name) v = delete tidy seal unseal name v
  vault_step (call_get name now) v = let r = get tidy seal unseal name now v in (as_reply r.0, r.1)
  vault_step (call_get_optional name now) v = get_optional tidy seal unseal name now v
  vault_step (call_rename old new used now) v = rename tidy seal unseal old new used now v
  vault_step (call_has name) v = (has tidy seal unseal name v, v)
  vault_step (call_resolve text now) v =
      let r = resolve tidy seal unseal text now v in (as_reply r.0, r.1)

abbrev pub shown : Option String → Option (Option String)
shown none = none
shown (some x) = some (some x)

module _ {C : Type 0} (unseal : ℕ → C → String → Option String) where
  abbrev pub stored : Option (Secret C) → String → Option (Option String)
  stored none k = none
  stored (some row) k = some (decrypt unseal row.value_enc k)

  -- Under each name there is a row just when the shelf has a value, and the row opens to it.
  abbrev pub Holds : Dict (Secret C) → Shelf → Type 0
  Holds rows a = (k : String) → stored (Dict.get rows k) k ≡ shown (a k)
