-- ===== src/Vault/TreeLaws.antt =====
-- `resolve_tree` and what a dictionary makes of the same tree (core/src/garis/vault.py).
use garis.Base.{ℕ, String, Option, some, ◌≡◌, ◌∙◌, ap, refl, Bool-cases, inl, inr}
use garis.Actions.{Value, Values, Fields, text, other, items, fields, nil, cons, end, field}
use garis.Vault.{Vault, is_ref, ref_name}
use garis.Vault.Shelf.{Shelf, Holds}
use garis.Vault.Run.{resolve-Agree}
use garis.Vault.Filled.{filled, shelf_tree-filled}
use garis.Vault.Tree.{
  Walked, walked, failed, text_walked, with, both, shelf_text, shelf_tree, shelf_items,
  shelf_fields, walk_text, then_walk, resolve_tree, resolve_items, resolve_fields,
}

module _ {C : Type 0} (tidy : String → String) (seal : ℕ → String → String → C)
    (unseal : ℕ → C → String → Option String) (now : ℕ)
    (opens : (n : ℕ) (t c : String) → unseal n (seal n t c) c ≡ some t) (a : Shelf) where
  -- what a walk gives, and that the vault still holds the shelf
  abbrev Same : {A : Type 0} → Walked A × Vault C → Walked A → Type 0
  Same (w, v) w' = (w ≡ w') × Holds unseal v.rows a

  walk_text-Same :
      (s : String) (v : Vault C)
      → Holds unseal v.rows a
      → Same (walk_text tidy seal unseal now s v) (shelf_text tidy s a)
  walk_text-Same s v h = elim (Bool-cases (is_ref s)) [
    | inl b ↦
        let (e, g) = resolve-Agree tidy seal unseal opens s now v a h in
        rw b (ap (text_walked (ref_name s)) e, g)
    | inr b ↦ rw b (refl, h)
  ]

  then_walk-Same :
      {A B D : Type 0} (f : A → B → D) (r : Walked A × Vault C)
      (next : Vault C → Walked B × Vault C) (x : Walked A) (y : Walked B)
      → Same r x
      → ((v : Vault C) → Holds unseal v.rows a → Same (next v) y)
      → Same (then_walk tidy seal unseal now f r next) (both f x y)
  then_walk-Same f (failed e, v) next x y (p, h) q = (ap (λ z. both f z y) p, h)
  then_walk-Same f (walked z used, v) next x y (p, h) q =
      let (e, g) = q v h in (ap (both f (walked z used)) e ∙ ap (λ z'. both f z' y) p, g)

  mutual
    unfolding resolve_tree shelf_tree

    tree-Same :
        (t : Value) (v : Vault C)
        → Holds unseal v.rows a
        → Same (resolve_tree tidy seal unseal now t v) (shelf_tree tidy t a)
    tree-Same (text s) v h = walk_text-Same s v h
    tree-Same (other s) v h = (refl, h)
    tree-Same (items vs) v h = let (e, g) = items-Same vs v h in (ap (with items) e, g)
    tree-Same (fields fs) v h = let (e, g) = fields-Same fs v h in (ap (with fields) e, g)

    items-Same :
        (vs : Values) (v : Vault C)
        → Holds unseal v.rows a
        → Same (resolve_items tidy seal unseal now vs v) (shelf_items tidy vs a)
    items-Same nil v h = (refl, h)
    items-Same (cons x vs) v h =
        then_walk-Same cons (resolve_tree tidy seal unseal now x v)
          (resolve_items tidy seal unseal now vs) _ _ (tree-Same x v h) (items-Same vs)

    fields-Same :
        (fs : Fields) (v : Vault C)
        → Holds unseal v.rows a
        → Same (resolve_fields tidy seal unseal now fs v) (shelf_fields tidy fs a)
    fields-Same end v h = (refl, h)
    fields-Same (field name x fs) v h =
        then_walk-Same (field name) (resolve_tree tidy seal unseal now x v)
          (resolve_fields tidy seal unseal now fs) _ _ (tree-Same x v h) (fields-Same fs)

  -- In a vault that holds what a dictionary holds, a tree of parameters becomes the same tree with the
  -- dictionary's value in the place of each text that is a reference, and the names of these references
  -- in the order of the tree; where a reference has no value, the first such one raises. The dictionary
  -- stays as it is.
  pub resolve_tree-filled :
      (t : Value) (v : Vault C)
      → Holds unseal v.rows a
      → ((resolve_tree tidy seal unseal now t v).0 ≡ filled tidy a t)
        × Holds unseal (resolve_tree tidy seal unseal now t v).1.rows a
  resolve_tree-filled t v h = let (e, g) = tree-Same t v h in (e ∙ shelf_tree-filled tidy a t, g)
