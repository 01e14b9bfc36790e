-- ===== src/Gtree/Avl/Map/Laws.antt =====
-- The methods of AVLTree that change it, on its list of entries.
use gf.Prelude.{◌≡◌, refl, length, List, arith}
use gf.Prelude.Outcome.{ok, Ensures-inv}
use gf.Gtree.Comparator.{IsWeakOrder}
use gf.Gtree.Entries.{value_of, lookup_entry, insert_entry, erase_entry, IsAscending}
use gf.Gtree.Entries.Order.{insert_entry-IsAscending, erase_entry-IsAscending}
use gf.Gtree.Entries.Laws.{length-insert_entry, length-erase_entry}
use gf.Gtree.Avl.{put, remove}
use gf.Gtree.Avl.Shape.{height, IsBalanced, PutResult, PutResult-IsBalanced}
use gf.Gtree.Avl.Balanced.{put-IsBalanced}
use gf.Gtree.Avl.Inorder.{entries}
use gf.Gtree.Avl.Ordered.{put-entries, remove-entries}
use gf.Gtree.Avl.Returns.{remove_returns}
use gf.Gtree.Avl.Map.{AvlTree, set_key, remove_key}

module _ {ℓ κ} {K : Type ℓ} {V : Type κ} where
  abbrev pub items : AvlTree K V → List (K × V)
  items t = entries t.root

  -- The keys ascend by a lawful comparator, and `size` counts them.
  pub record IsOrdered (t : AvlTree K V) : Type ℓ where
    pub lawful : IsWeakOrder t.comparator
    pub ascending : IsAscending t.comparator (items t)
    pub counted : t.size ≡ length (items t)

  -- Besides, the balance factors are right.
  pub record IsValid (t : AvlTree K V) : Type ℓ where
    pub balanced : IsBalanced t.root
    pub ordered : IsOrdered t
    pub open ordered use *

  -- `t'` is `t` with the entry (q, w) set
  pub record HasSet (t : AvlTree K V) (q : K) (w : V) (t' : AvlTree K V) : Type (ℓ ⊔ κ) where
    pub valid : IsValid t'
    pub same_order : t'.comparator ≡ t.comparator
    pub contents : items t' ≡ insert_entry t.comparator q w (items t)

  -- Set on a valid tree returns a valid tree, whose entries are those before with this one set.
  pub set_key_lem :
      (t : AvlTree K V) (q : K) (w : V)
      → IsValid t
      → (t' : AvlTree K V) × (set_key t q w ≡ ok t') × HasSet t q w t'
  unfolding set_key
  set_key_lem t q w h =
      let cmp = t.comparator in
      let ((root, size, fix), e, p) =
        Ensures-inv (λ (s, _, f). PutResult (height t.root) s f) (put cmp q w t.size t.root)
          (put-IsBalanced cmp q w t.size t.root h.balanced) in
      let (same, counted) = rw e at (put-entries cmp h.lawful q w t.size t.root h.ascending) in
      (
        record t { root = root; size = size },
        rw e refl,
        record {
          valid = record {
            balanced = PutResult-IsBalanced (height t.root) root fix p;
            ordered = record {
              lawful = h.lawful;
              ascending = rw same (insert_entry-IsAscending cmp h.lawful q w (items t) h.ascending);
              counted = rw same (omega (arith, h.counted, length-insert_entry cmp q w (items t)));
            };
          };
          same_order = refl;
          contents = same;
        },
      )

  -- `t'` is `t` without the key `q`
  pub record HasRemoved (t : AvlTree K V) (q : K) (t' : AvlTree K V) : Type (ℓ ⊔ κ) where
    pub ordered : IsOrdered t'
    pub same_order : t'.comparator ≡ t.comparator
    pub contents : items t' ≡ erase_entry t.comparator q (items t)

  -- Remove on a valid tree returns the value of the key, and leaves the other entries in order.
  pub remove_key_lem :
      (t : AvlTree K V) (q : K)
      → IsValid t
      → (t' : AvlTree K V) × (remove_key t q
          ≡ ok (t', value_of (lookup_entry t.comparator q (items t))))
        × HasRemoved t q t'
  unfolding remove_key
  remove_key_lem t q h =
      let cmp = t.comparator in
      let ((root, (size, value), fix), e, _) =
        Ensures-inv (λ _. Unit {0}) (remove cmp q t.size t.root)
          (remove_returns cmp q t.size t.root h.balanced) in
      let (same, (counted, read)) =
        rw e at (remove-entries cmp h.lawful q t.size t.root h.ascending) in
      (
        record t { root = root; size = size },
        rw (e, read) refl,
        record {
          ordered = record {
            lawful = h.lawful;
            ascending = rw same (erase_entry-IsAscending cmp h.lawful q (items t) h.ascending);
            counted = rw same (omega (arith, h.counted, length-erase_entry cmp q (items t)));
          };
          same_order = refl;
          contents = same;
        },
      )
