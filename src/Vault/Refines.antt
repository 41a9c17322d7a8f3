-- ===== src/Vault/Refines.antt =====
-- Each call of the vault does what a dictionary does (core/src/garis/vault.py).
use garis.Base.{
  ℕ, String, false, Option, none, some, ◌==◌, ◌≡◌, ◌∙◌, sym, ap, refl, subst, arith, eq_iff,
  is_some, Bool-cases, inl, inr, if◌then◌else◌,
}
use garis.Dict
use garis.Dict.{Dict, get-put, get-pop}
use garis.Vault.{
  Vault, Secret, Token, Announcement, Reply, is_true, upserted, touched, announce, encrypt, decrypt,
  was_set, was_deleted, set_clean, delete_clean, get_clean, get_row, opened, info_of, info_row,
  info, info_clean, written, set_row, clean, value, raised, no_secret,
}
use garis.Vault.Shelf.{
  Shelf, shelf_put, shelf_pop, shelf_got, shelf_get, shelf_set, shelf_delete, plain, stored, shown,
  Holds, shelf_named,
}

-- A reply and a state of the vault agree with those of the shelf.
abbrev pub Agree :
    {C : Type 0} → (ℕ → C → String → Option String) → Reply × Vault C → Reply × Shelf → Type 0
Agree unseal (r, v) (q, a) = (plain r ≡ q) × Holds unseal v.rows a

pub rows-announce : {C : Type 0} → (x : Announcement) (v : Vault C) → (announce x v).rows ≡ v.rows
unfolding announce
rows-announce x v = elim (Bool-cases v.has_bus) [ inl e ↦ rw e refl | inr e ↦ rw e refl ]

module _ {C : Type 0} (tidy : String → String) (seal : ℕ → String → String → C)
    (unseal : ℕ → C → String → Option String)
    (opens : (n : ℕ) (t c : String) → unseal n (seal n t c) c ≡ some t) where
  decrypt-encrypt : (n : ℕ) (t c : String) → decrypt unseal (encrypt seal n t c) c ≡ some t
  unfolding decrypt encrypt
  decrypt-encrypt n t c = opens n t c

  -- a row that is written over a name, sealed under it
  put-Holds :
      (rows : Dict (Secret C)) (a : Shelf) (k x : String) (row : Secret C)
      → Holds unseal rows a
      → decrypt unseal row.value_enc k ≡ some x
      → Holds unseal (Dict.put rows k row) (shelf_put a k x)
  put-Holds rows a k x row h e j = elim (Bool-cases (k == j)) [
    | inl b ↦
        let same : k ≡ j = ground (arith, b, eq_iff k j) in
        rw (get-put rows k j row, b)
          (subst (λ i. some (decrypt unseal row.value_enc i) ≡ some (some x)) same (ap some e))
    | inr b ↦ rw (get-put rows k j row, b) (h j)
  ]

  pop-Holds :
      (rows : Dict (Secret C)) (a : Shelf) (k : String)
      → Holds unseal rows a
      → Holds unseal (Dict.pop rows k) (shelf_pop a k)
  pop-Holds rows a k h j = elim (Bool-cases (k == j)) [
    | inl b ↦ rw (get-pop rows k j, b) refl
    | inr b ↦ rw (get-pop rows k j, b) (h j)
  ]

  pub has-Holds :
      (rows : Dict (Secret C)) (a : Shelf) (k : String)
      → Holds unseal rows a
      → is_some (Dict.get rows k) ≡ is_some (a k)
  has-Holds rows a k h = same_is_some (Dict.get rows k) (a k) (h k)
    where
      same_is_some :
          (o : Option (Secret C)) (s : Option String)
          → stored unseal o k ≡ shown s
          → is_some o ≡ is_some s
      same_is_some none none e = refl
      same_is_some none (some x) e = absurd (cc)
      same_is_some (some r) none e = absurd (cc)
      same_is_some (some r) (some x) e = refl

  value-upserted :
      (o : Option (Secret C)) (token : Token C) (kind note : String) (now : ℕ)
      → (upserted o token kind note now).value_enc ≡ token
  value-upserted none token kind note now = refl
  value-upserted (some row) token kind note now = refl

  written-Agree :
      (k : String) (o : Option String) (w : Vault C) (b : Shelf)
      → Holds unseal w.rows b
      → Agree unseal (written k (info_clean tidy seal unseal o w) w) (shelf_named o b, b)
  unfolding info_of
  written-Agree k none w b h = (refl, h)
  written-Agree k (some j) w b h = by_row (Dict.get w.rows j) (b j) (h j)
    where
      by_row :
          (r : Option (Secret C)) (s : Option String)
          → stored unseal r j ≡ shown s
          → Agree unseal
              (written k (info_row j r) w)
              (if is_some s then value j else raised no_secret, b)
      by_row none none e = (refl, h)
      by_row none (some x) e = absurd (cc)
      by_row (some r) none e = absurd (cc)
      by_row (some r) (some x) e =
          (refl, subst (λ rows. Holds unseal rows b) (sym (rows-announce (was_set k) w)) h)

  pub set-Agree :
      (o : Option String) (x kind note : String) (now : ℕ) (v : Vault C) (a : Shelf)
      → Holds unseal v.rows a
      → Agree unseal (set_clean tidy seal unseal o x kind note now v) (shelf_set tidy o x a)
  unfolding info
  set-Agree none x kind note now v a h = (refl, h)
  set-Agree (some k) x kind note now v a h =
      let token = encrypt seal v.nonces x k in
      let row = upserted (Dict.get v.rows k) token kind note now in
      let opened_row : decrypt unseal row.value_enc k ≡ some x =
        ap (λ t. decrypt unseal t k) (value-upserted (Dict.get v.rows k) token kind note now)
        ∙ decrypt-encrypt v.nonces x k in
      written-Agree k (clean tidy k) (set_row tidy seal unseal k x kind note now v)
        (shelf_put a k x) (put-Holds v.rows a k x row h opened_row)

  -- to take away a name that the shelf does not have
  pop_none : (a : Shelf) (k j : String) → a k ≡ none → shelf_pop a k j ≡ a j
  pop_none a k j e = elim (Bool-cases (k == j)) [
    | inl b ↦
        let same : k ≡ j = ground (arith, b, eq_iff k j) in
        rw b (sym (subst (λ i. a i ≡ none) same e))
    | inr b ↦ rw b refl
  ]

  put_same : (a : Shelf) (k x j : String) → a k ≡ some x → shelf_put a k x j ≡ a j
  put_same a k x j e = elim (Bool-cases (k == j)) [
    | inl b ↦
        let same : k ≡ j = ground (arith, b, eq_iff k j) in
        rw b (sym (subst (λ i. a i ≡ some x) same e))
    | inr b ↦ rw b refl
  ]

  pub delete-Agree :
      (o : Option String) (v : Vault C) (a : Shelf)
      → Holds unseal v.rows a
      → Agree unseal (delete_clean tidy seal unseal o v) (shelf_delete o a)
  delete-Agree none v a h = (refl, h)
  delete-Agree (some k) v a h =
      let same = has-Holds v.rows a k h in
      let w = record v { rows = Dict.pop v.rows k } in
      elim (Bool-cases (is_some (Dict.get v.rows k))) [
        | inl e ↦ rw e (
          ap is_true (sym e ∙ same),
          subst (λ rows. Holds unseal rows (shelf_pop a k)) (sym (rows-announce (was_deleted k) w))
              (pop-Holds v.rows a k h),
        )
        | inr e ↦ rw e (
          ap is_true (sym e ∙ same),
          λ j. h j ∙ ap shown (sym (pop_none a k j (is_some_false (a k) (sym same ∙ e)))),
        )
      ]
    where
      is_some_false : (s : Option String) → is_some s ≡ false → s ≡ none
      is_some_false none e = refl
      is_some_false (some x) e = absurd (cc)

  pub get-Agree :
      (o : Option String) (now : ℕ) (v : Vault C) (a : Shelf)
      → Holds unseal v.rows a
      → ((get_clean tidy seal unseal o now v).0 ≡ shelf_get o a)
        × Holds unseal (get_clean tidy seal unseal o now v).1.rows a
  get-Agree none now v a h = (refl, h)
  get-Agree (some k) now v a h = by_row (Dict.get v.rows k) (a k) (h k) refl
    where
      by_row :
          (o : Option (Secret C)) (s : Option String)
          → stored unseal o k ≡ shown s
          → a k ≡ s
          → ((get_row tidy seal unseal k now o v).0 ≡ shelf_got s)
            × Holds unseal (get_row tidy seal unseal k now o v).1.rows a
      by_row none none e f = (refl, h)
      by_row none (some x) e f = absurd (cc)
      by_row (some r) none e f = absurd (cc)
      by_row (some r) (some x) e f =
          let opened_row : decrypt unseal r.value_enc k ≡ some x = ground (arith, e) in
          (
            ap opened opened_row,
            λ j.
                put-Holds v.rows a k x (touched now r) h opened_row j
                ∙ ap shown (put_same a k x j f),
          )
