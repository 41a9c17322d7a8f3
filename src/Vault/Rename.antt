-- ===== src/Vault/Rename.antt =====
-- A secret renamed to its own name (core/src/garis/vault.py, `rename`).
use garis.Base.{
  ℕ, String, true, false, Option, none, some, ◌≡◌, ◌∙◌, ap, refl, arith, eq_iff, is_some,
  Bool-cases, inl, inr,
}
use garis.Dict
use garis.Dict.{get-put, get-pop}
use garis.Vault.{
  Vault, Secret, Got, found, set_row, has, has_clean, is_true, clean, get, set, delete,
  delete_clean, rename, rename_got, then_delete, was_deleted, info_row, written, info, nothing,
  upserted, encrypt, kind_of, note_of, row_at,
}
use garis.Vault.Refines.{rows-announce}

module _ {C : Type 0} (tidy : String → String) (seal : ℕ → String → String → C)
    (unseal : ℕ → C → String → Option String) where
  deleted_row :
      (v : Vault C) (k : String)
      → Dict.get (delete_clean tidy seal unseal (some k) v).1.rows k ≡ none
  deleted_row v k = elim (Bool-cases (is_some (Dict.get v.rows k))) [
    | inl e ↦ rw e (
        ap (λ rows. Dict.get rows k)
          (rows-announce (was_deleted k) (record v { rows = Dict.pop v.rows k }))
        ∙ ground (arith, get-pop v.rows k k, eq_iff k k))
    | inr e ↦ rw e (is_some_false (Dict.get v.rows k) e)
  ]
    where
      is_some_false : (o : Option (Secret C)) → is_some o ≡ false → o ≡ none
      is_some_false none e = refl
      is_some_false (some row) e = absurd (cc)

  then_deleted :
      (old k : String) (o : Option (Secret C)) (v : Vault C)
      → clean tidy old ≡ some k
      → is_some o ≡ true
      → let r = then_delete tidy seal unseal old (written k (info_row k o) v) in
        (r.0 ≡ nothing) × (Dict.get r.1.rows k ≡ none)
  unfolding delete
  then_deleted old k none v c e = absurd (cc)
  then_deleted old k (some row) v c e = (refl, rw c (deleted_row _ k))

  set_row_there :
      (k x kind note : String) (now : ℕ) (v : Vault C)
      → is_some (Dict.get (set_row tidy seal unseal k x kind note now v).rows k) ≡ true
  set_row_there k x kind note now v = ground (
    arith,
    get-put v.rows k k (upserted (Dict.get v.rows k) (encrypt seal v.nonces x k) kind note now),
    eq_iff k k,
  )

  renamed :
      (old new x k : String) (now : ℕ) (got : Got) (v : Vault C)
      → got ≡ found x
      → clean tidy old ≡ some k
      → clean tidy new ≡ some k
      → clean tidy k ≡ some k
      → let r = rename_got tidy seal unseal old new now (got, v) in
        (r.0 ≡ nothing) × (Dict.get r.1.rows k ≡ none)
  unfolding set info
  renamed old new x k now got v g c d same =
      let row = row_at (clean tidy old) v in
      rw (g, d, same)
        (then_deleted old k _ _ c (set_row_there k x (kind_of row) (note_of row) now v))

  -- To rename a secret that can be read to a name that cleans to the same name as the old one deletes
  -- it, while the call ends as if it had been renamed; for a clean name that cleans to itself.
  pub has-rename :
      (old new x k : String) (used now : ℕ) (v : Vault C)
      → (get tidy seal unseal old used v).0 ≡ found x
      → clean tidy old ≡ some k
      → clean tidy new ≡ some k
      → clean tidy k ≡ some k
      → ((rename tidy seal unseal old new used now v).0 ≡ nothing)
        × (has tidy seal unseal old (rename tidy seal unseal old new used now v).1 ≡ is_true false)
  unfolding has rename
  has-rename old new x k used now v g c d same =
      let r = get tidy seal unseal old used v in
      let (e, h) = renamed old new x k now r.0 r.1 g c d same in
      (
        e,
        ap (λ o. has_clean tidy seal unseal o (rename tidy seal unseal old new used now v).1) c
            ∙ ap (λ o. is_true (is_some o)) h,
      )
