-- ===== src/Vault/Run.antt =====
-- A run of calls of the vault is a run of a dictionary (core/src/garis/vault.py).
use garis.Base.{
  ℕ, String, Option, none, some, List, [], ◌∷◌, ◌≡◌, ◌∙◌, ap, refl, subst, arith, Bool-cases, inl,
  inr,
}
use garis.Vault.{
  Vault, Reply, nothing, is_info, value, is_true, raised, no_key, no_name, no_secret, locked, Got,
  found, stopped, clean, is_ref, ref_name, set, delete, get, rename, rename_got, then_delete, has,
  has_clean, get_optional, optional, resolve, or_no_secret, as_reply, row_at, kind_of, note_of,
}
use garis.Vault.Shelf.{
  Shelf, shelf_set, shelf_has, shelf_rename, shelf_moved, shelf_resolve, shelf_step, Call, call_set,
  call_delete, call_get, call_get_optional, call_rename, call_has, call_resolve, plain, vault_step,
  Holds,
}
use garis.Vault.Refines.{Agree, set-Agree, delete-Agree, get-Agree, has-Holds}

module _ {C : Type 0} (tidy : String → String) (seal : ℕ → String → String → C)
    (unseal : ℕ → C → String → Option String) where
  unfoldable pub vault_run : List Call → Vault C → List Reply × Vault C
  vault_run [] v = ([], v)
  vault_run (c ∷ cs) v =
      let r = vault_step tidy seal unseal c v in
      let rest = vault_run cs r.1 in (plain r.0 ∷ rest.0, rest.1)

unfoldable pub shelf_run : (String → String) → List Call → Shelf → List Reply × Shelf
shelf_run tidy [] a = ([], a)
shelf_run tidy (c ∷ cs) a =
    let r = shelf_step tidy c a in let rest = shelf_run tidy cs r.1 in (r.0 ∷ rest.0, rest.1)

module _ {C : Type 0} (tidy : String → String) (seal : ℕ → String → String → C)
    (unseal : ℕ → C → String → Option String)
    (opens : (n : ℕ) (t c : String) → unseal n (seal n t c) c ≡ some t) where
  plain-as_reply : (got : Got) → plain (as_reply got) ≡ as_reply got
  plain-as_reply (found x) = refl
  plain-as_reply (stopped f) = refl

  plain-optional : (got : Got) → plain (optional got) ≡ optional got
  plain-optional (found x) = refl
  plain-optional (stopped no_key) = refl
  plain-optional (stopped no_name) = refl
  plain-optional (stopped no_secret) = refl
  plain-optional (stopped locked) = refl

  -- what an answer of `set` shows tells whether the old secret goes
  deleted-Agree :
      (old : String) (r : Reply) (v : Vault C) (a : Shelf)
      → Holds unseal v.rows a
      → Agree unseal
          (then_delete tidy seal unseal old (r, v))
          (shelf_moved (clean tidy old) (plain r, a))
  unfolding delete
  deleted-Agree old (raised f) v a h = (refl, h)
  deleted-Agree old nothing v a h =
      (refl, (delete-Agree tidy seal unseal opens (clean tidy old) v a h).1)
  deleted-Agree old (is_true b) v a h =
      (refl, (delete-Agree tidy seal unseal opens (clean tidy old) v a h).1)
  deleted-Agree old (value s) v a h =
      (refl, (delete-Agree tidy seal unseal opens (clean tidy old) v a h).1)
  deleted-Agree old (is_info i) v a h =
      (refl, (delete-Agree tidy seal unseal opens (clean tidy old) v a h).1)

  rename-Agree :
      (old new : String) (now : ℕ) (got : Got) (v : Vault C) (a : Shelf)
      → Holds unseal v.rows a
      → Agree unseal
          (rename_got tidy seal unseal old new now (got, v))
          (shelf_rename tidy (clean tidy old) (clean tidy new) got a)
  unfolding set delete
  rename-Agree old new now (stopped f) v a h = (refl, h)
  rename-Agree old new now (found x) v a h =
      let row = row_at (clean tidy old) v in
      let r = set tidy seal unseal new x (kind_of row) (note_of row) now v in
      let b = shelf_set tidy (clean tidy new) x a in
      let (e, g) =
        set-Agree tidy seal unseal opens (clean tidy new) x (kind_of row) (note_of row) now v a h in
      subst
        (λ q.
          Agree unseal (then_delete tidy seal unseal old r) (shelf_moved (clean tidy old) (q, b.1)))
        e (deleted-Agree old r.0 r.1 b.1 g)

  pub resolve-Agree :
      (text : String) (now : ℕ) (v : Vault C) (a : Shelf)
      → Holds unseal v.rows a
      → ((resolve tidy seal unseal text now v).0 ≡ shelf_resolve tidy text a)
        × Holds unseal (resolve tidy seal unseal text now v).1.rows a
  unfolding resolve shelf_resolve
  resolve-Agree text now v a h = elim (Bool-cases (is_ref text)) [
    | inl b ↦
        let (e, g) = get-Agree tidy seal unseal opens (clean tidy (ref_name text)) now v a h in
        rw b (ap or_no_secret e, g)
    | inr b ↦ rw b (refl, h)
  ]

  step-Agree :
      (c : Call) (v : Vault C) (a : Shelf)
      → Holds unseal v.rows a
      → Agree unseal (vault_step tidy seal unseal c v) (shelf_step tidy c a)
  unfolding vault_step shelf_step set delete get get_optional has rename
  step-Agree (call_set name x kind note now) v a h =
      set-Agree tidy seal unseal opens (clean tidy name) x kind note now v a h
  step-Agree (call_delete name) v a h = delete-Agree tidy seal unseal opens (clean tidy name) v a h
  step-Agree (call_get name now) v a h =
      let (e, g) = get-Agree tidy seal unseal opens (clean tidy name) now v a h in
      (plain-as_reply _ ∙ ap as_reply e, g)
  step-Agree (call_get_optional name now) v a h =
      let (e, g) = get-Agree tidy seal unseal opens (clean tidy name) now v a h in
      (plain-optional _ ∙ ap optional e, g)
  step-Agree (call_rename old new used now) v a h =
      let (e, g) = get-Agree tidy seal unseal opens (clean tidy old) used v a h in
      subst
        (λ got.
          Agree unseal (rename tidy seal unseal old new used now v)
            (shelf_rename tidy (clean tidy old) (clean tidy new) got a))
        e (rename-Agree old new now _ _ a g)
  step-Agree (call_has name) v a h = (has_same (clean tidy name), h)
    where
      has_same : (o : Option String) → plain (has_clean tidy seal unseal o v) ≡ shelf_has o a
      has_same none = refl
      has_same (some k) = ap is_true (has-Holds tidy seal unseal opens v.rows a k h)
  step-Agree (call_resolve text now) v a h =
      let (e, g) = resolve-Agree text now v a h in (plain-as_reply _ ∙ ap as_reply e, g)

  -- Whatever is called, in whatever order and at whatever times, the vault answers as a dictionary from
  -- clean names to values does, and at the end it holds what the dictionary holds: if it did at the
  -- start, and the box opens with a context what it sealed with it. After it has put a value under a
  -- clean name, the dictionary too looks for the name that this cleans to: a name that is empty or not
  -- there raises, and then a rename leaves the old name. Encryption, nonces, use counts and
  -- announcements do not show.
  pub vault_run-shelf_run :
      (cs : List Call) (v : Vault C) (a : Shelf)
      → Holds unseal v.rows a
      → ((vault_run tidy seal unseal cs v).0 ≡ (shelf_run tidy cs a).0)
        × Holds unseal (vault_run tidy seal unseal cs v).1.rows (shelf_run tidy cs a).1
  unfolding vault_run shelf_run
  vault_run-shelf_run [] v a h = (refl, h)
  vault_run-shelf_run (c ∷ cs) v a h =
      let (e, g) = step-Agree c v a h in
      let (f, k) =
        vault_run-shelf_run cs (vault_step tidy seal unseal c v).1 (shelf_step tidy c a).1 g in
      (ground (arith, e, f), k)
