-- ===== src/Gtree/Avl/Map/Batch.antt =====
-- Sequences of calls of AVLTree: Sets, NewAVLTreeFrom, mixed calls of Set and Remove, and GetOrSet.
use gf.Prelude.{◌≡◌, refl, ◌∙◌, Bool, List, [], ◌∷◌, arith}
use gf.Prelude.Outcome.{Outcome, ok, ◌>>=◌, WhenOk, WhenOk-bind}
use gf.Gtree.Comparator.{Comparator, IsWeakOrder}
use gf.Gtree.Entries.{insert_entry, erase_entry}
use gf.Gtree.Entries.Order.{insert_entry-IsAscending, erase_entry-IsAscending}
use gf.Gtree.Entries.Laws.{length-insert_entry, length-erase_entry}
use gf.Gtree.Avl.{put, remove}
use gf.Gtree.Avl.Ordered.{Put, Removed, put-entries, remove-entries}
use gf.Gtree.Avl.Map.{AvlTree, new_avl_tree, new_avl_tree_from, set_key, sets, remove_key}
use gf.Gtree.Avl.Map.Laws.{items, IsOrdered, IsValid, set_key_lem}

module _ {ℓ κ} {K : Type ℓ} {V : Type κ} where
  -- the entries set one after the other, on the list
  abbrev pub inserts : Comparator K → List (K × V) → List (K × V) → List (K × V)
  inserts cmp [] es = es
  inserts cmp ((q, w) ∷ kvs) es = inserts cmp kvs (insert_entry cmp q w es)

  pub sets_lem :
      (t : AvlTree K V) (kvs : List (K × V))
      → IsValid t
      → (t' : AvlTree K V) × (sets t kvs ≡ ok t')
        × IsValid t'
        × (items t' ≡ inserts t.comparator kvs (items t))
  unfolding sets
  sets_lem t [] h = (t, refl, h, refl)
  sets_lem t ((q, w) ∷ kvs) h =
      let (t₁, e, s) = set_key_lem t q w h in
      let (t', e', valid, contents) = sets_lem t₁ kvs s.valid in
      (t', rw e e', valid, contents ∙ rw (s.same_order, s.contents) refl)

  new_avl_tree-IsValid :
      (cmp : Comparator K) (safe : Bool) → IsWeakOrder cmp → IsValid {V = V} (new_avl_tree cmp safe)
  unfolding new_avl_tree
  new_avl_tree-IsValid cmp safe o = record {
    balanced = tt;
    ordered = record { lawful = o; ascending = tt; counted = refl };
  }

  -- NewAVLTreeFrom returns, for any map, a valid tree of its entries set one after the other.
  pub new_avl_tree_from_lem :
      (cmp : Comparator K) (kvs : List (K × V)) (safe : Bool)
      → IsWeakOrder cmp
      → (t : AvlTree K V) × (new_avl_tree_from cmp kvs safe ≡ ok t)
        × IsValid t
        × (items t ≡ inserts cmp kvs [])
  unfolding new_avl_tree_from
  new_avl_tree_from_lem cmp kvs safe o =
      sets_lem (new_avl_tree cmp safe) kvs (new_avl_tree-IsValid cmp safe o)

-- a call that changes the tree
pub data Op {ℓ κ} (K : Type ℓ) (V : Type κ) : Type (ℓ ⊔ κ) where
  set_op : K → V → Op K V
  remove_op : K → Op K V

module _ {ℓ κ} {K : Type ℓ} {V : Type κ} where
  unfoldable pub run_ops : AvlTree K V → List (Op K V) → Outcome (AvlTree K V)
  run_ops t [] = ok t
  run_ops t (set_op q w ∷ ops) = set_key t q w >>= λ t'. run_ops t' ops
  run_ops t (remove_op q ∷ ops) = remove_key t q >>= λ (t', _). run_ops t' ops

  abbrev pub replay_ops : Comparator K → List (Op K V) → List (K × V) → List (K × V)
  replay_ops cmp [] es = es
  replay_ops cmp (set_op q w ∷ ops) es = replay_ops cmp ops (insert_entry cmp q w es)
  replay_ops cmp (remove_op q ∷ ops) es = replay_ops cmp ops (erase_entry cmp q es)

  abbrev Stepped : (List (K × V) → List (K × V)) → AvlTree K V → AvlTree K V → Type (ℓ ⊔ κ)
  Stepped f t t' = IsOrdered t' × (t'.comparator ≡ t.comparator) × (items t' ≡ f (items t))

  set_key-IsOrdered :
      (t : AvlTree K V) (q : K) (w : V)
      → IsOrdered t
      → WhenOk (λ t'. Stepped (insert_entry t.comparator q w) t t') (set_key t q w)
  unfolding set_key
  set_key-IsOrdered t q w h =
      let cmp = t.comparator in
      WhenOk-bind (λ out. Put cmp q w t.size (items t) out)
        (λ t'. Stepped (insert_entry cmp q w) t t') (put cmp q w t.size t.root) _
        (put-entries cmp h.lawful q w t.size t.root h.ascending)
        (λ (root, size, _) (same, counted). (
          record {
            lawful = h.lawful;
            ascending = rw same (insert_entry-IsAscending cmp h.lawful q w (items t) h.ascending);
            counted = rw same (omega (arith, h.counted, length-insert_entry cmp q w (items t)));
          },
          refl,
          same,
        ))

  remove_key-IsOrdered :
      (t : AvlTree K V) (q : K)
      → IsOrdered t
      → WhenOk (λ (t', _). Stepped (erase_entry t.comparator q) t t') (remove_key t q)
  unfolding remove_key
  remove_key-IsOrdered t q h =
      let cmp = t.comparator in
      WhenOk-bind (λ out. Removed cmp q t.size (items t) out)
        (λ (t', _). Stepped (erase_entry cmp q) t t') (remove cmp q t.size t.root) _
        (remove-entries cmp h.lawful q t.size t.root h.ascending)
        (λ (root, (size, _), _) (same, (counted, _)). (
          record {
            lawful = h.lawful;
            ascending = rw same (erase_entry-IsAscending cmp h.lawful q (items t) h.ascending);
            counted = rw same (omega (arith, h.counted, length-erase_entry cmp q (items t)));
          },
          refl,
          same,
        ))

  -- Whatever calls of Set and Remove a tree goes through, if none of them panics, its entries are
  -- in order and are those of the calls on a list; `size` counts them.
  pub run_ops_refines :
      (t : AvlTree K V) (ops : List (Op K V))
      → IsOrdered t
      → WhenOk
          (λ t'. IsOrdered t' × (items t' ≡ replay_ops t.comparator ops (items t)))
          (run_ops t ops)
  unfolding run_ops
  run_ops_refines t [] h = (h, refl)
  run_ops_refines t (set_op q w ∷ ops) h =
      WhenOk-bind (λ t'. Stepped (insert_entry t.comparator q w) t t') _ (set_key t q w) _
        (set_key-IsOrdered t q w h)
        (λ t' (h', same, contents). simp (same, contents) at (run_ops_refines t' ops h'))
  run_ops_refines t (remove_op q ∷ ops) h =
      WhenOk-bind (λ (t', _). Stepped (erase_entry t.comparator q) t t') _ (remove_key t q) _
        (remove_key-IsOrdered t q h)
        (λ (t', _) (h', same, contents). simp (same, contents) at (run_ops_refines t' ops h'))
