-- ===== src/Vault/Tree.antt =====
-- References in a tree of parameters: `resolve_tree` of core/src/garis/vault.py.
-- One reading of the clock stands for those of the whole call.
use garis.Base.{ℕ, String, Option, List, [], ◌∷◌, ◌++◌, if◌then◌else◌}
use garis.Actions.{Value, Values, Fields, text, other, items, fields, nil, cons, end, field}
use garis.Vault.{Vault, Fault, Got, found, stopped, is_ref, ref_name, resolve}
use garis.Vault.Shelf.{Shelf, shelf_resolve}

-- a tree with the names that were used, or the exception
pub data Walked (A : Type 0) : Type 0 where
  walked : A → List String → Walked A
  failed : Fault → Walked A

abbrev pub text_walked : String → Got → Walked Value
text_walked name (found x) = walked (text x) (name ∷ [])
text_walked name (stopped f) = failed f

abbrev pub with : {A B : Type 0} → (A → B) → Walked A → Walked B
with f (walked x used) = walked (f x) used
with f (failed e) = failed e

-- one part, and then what follows it
abbrev pub both : {A B D : Type 0} → (A → B → D) → Walked A → Walked B → Walked D
both f (failed e) w = failed e
both f (walked x used) (walked y more) = walked (f x y) (used ++ more)
both f (walked x used) (failed e) = failed e

-- What a shelf makes of a tree.
module _ (tidy : String → String) where
  abbrev pub shelf_text : String → Shelf → Walked Value
  shelf_text s a =
      if is_ref s then text_walked (ref_name s) (shelf_resolve tidy s a) else walked (text s) []

  unfoldable mutual
    pub shelf_tree : Value → Shelf → Walked Value
    shelf_tree (text s) a = shelf_text s a
    shelf_tree (other s) a = walked (other s) []
    shelf_tree (items vs) a = with items (shelf_items vs a)
    shelf_tree (fields fs) a = with fields (shelf_fields fs a)

    pub shelf_items : Values → Shelf → Walked Values
    shelf_items nil a = walked nil []
    shelf_items (cons x vs) a = both cons (shelf_tree x a) (shelf_items vs a)

    pub shelf_fields : Fields → Shelf → Walked Fields
    shelf_fields end a = walked end []
    shelf_fields (field name x fs) a = both (field name) (shelf_tree x a) (shelf_fields fs a)

module _ {C : Type 0} (tidy : String → String) (seal : ℕ → String → String → C)
    (unseal : ℕ → C → String → Option String) (now : ℕ) where
  abbrev pub walk_text : String → Vault C → Walked Value × Vault C
  walk_text s v =
      if is_ref s
      then (let r = resolve tidy seal unseal s now v in (text_walked (ref_name s) r.0, r.1))
      else (walked (text s) [], v)

  abbrev pub then_walk :
      {A B D : Type 0}
      → (A → B → D)
      → Walked A × Vault C
      → (Vault C → Walked B × Vault C)
      → Walked D × Vault C
  then_walk f (failed e, v) next = (failed e, v)
  then_walk f (walked x used, v) next = let r = next v in (both f (walked x used) r.0, r.1)

  unfoldable mutual
    pub resolve_tree : Value → Vault C → Walked Value × Vault C
    resolve_tree (text s) v = walk_text s v
    resolve_tree (other s) v = (walked (other s) [], v)
    resolve_tree (items vs) v = let r = resolve_items vs v in (with items r.0, r.1)
    resolve_tree (fields fs) v = let r = resolve_fields fs v in (with fields r.0, r.1)

    pub resolve_items : Values → Vault C → Walked Values × Vault C
    resolve_items nil v = (walked nil [], v)
    resolve_items (cons x vs) v = then_walk cons (resolve_tree x v) (resolve_items vs)

    pub resolve_fields : Fields → Vault C → Walked Fields × Vault C
    resolve_fields end v = (walked end [], v)
    resolve_fields (field name x fs) v =
        then_walk (field name) (resolve_tree x v) (resolve_fields fs)
