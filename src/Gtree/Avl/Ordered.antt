-- ===== src/Gtree/Avl/Ordered.antt =====
-- `put`, `remove` and `doSearch` on an AVL tree act as the operations on its list of entries.
use gf.Prelude.{ℕ, ◌+◌, ◌-◌, ◌≡◌, refl, ap, Bool, List, ◌∷◌, ◌++◌, Option, some, arith}
use gf.Prelude.Outcome.{WhenOk, WhenOk-bind, WhenOk-map}
use gf.Gtree.Comparator.{Comparator, sign, IsWeakOrder, order_case, is_lt, is_eq, is_gt}
use gf.Gtree.Entries.{found, value_of, lookup_entry, insert_entry, erase_entry, IsAscending}
use gf.Gtree.Entries.Walk.{
  insert_entry-left, insert_entry-right, insert_entry-here, erase_entry-left, erase_entry-right,
  erase_entry-here, lookup_entry-left, lookup_entry-right, lookup_entry-here,
}
use gf.Gtree.Entries.Order.{IsAscending-left, IsAscending-right, AllBelow-of_gt, AllBelow-of_eq}
use gf.Gtree.Avl.{
  left, right, Tree, leaf, node, put_fix, remove_fix, remove_here, put, remove, search_node,
}
use gf.Gtree.Avl.Inorder.{
  entries, put_fix-entries, remove_fix-entries, fix_if_lem, remove_here-entries,
}

module _ {ℓ κ} {K : Type ℓ} {V : Type κ} (cmp : Comparator K) where
  abbrev pub hits : K → List (K × V) → ℕ
  hits q es = found (lookup_entry cmp q es)

  -- What `put` and `remove` make of a tree with the entries `es`, and of the other results.
  abbrev pub Put : K → V → ℕ → List (K × V) → Tree K V × ℕ × Bool → Type (ℓ ⊔ κ)
  Put q w size es (t, size', _) =
      (entries t ≡ insert_entry cmp q w es) × (size' + hits q es ≡ size + 1)

  abbrev pub Removed : K → ℕ → List (K × V) → Tree K V × (ℕ × Option V) × Bool → Type (ℓ ⊔ κ)
  Removed q size es (t, (size', value), _) =
      (entries t ≡ erase_entry cmp q es)
      × ((size' ≡ size - hits q es) × (value ≡ value_of (lookup_entry cmp q es)))

module _ {ℓ κ} {K : Type ℓ} {V : Type κ} (cmp : Comparator K) (o : IsWeakOrder cmp) where
  -- In an ordered tree the search finds the entry with the key.
  pub search_node_lem :
      (q : K) (t : Tree K V)
      → IsAscending cmp (entries t)
      → search_node cmp q t ≡ lookup_entry cmp q (entries t)
  unfolding search_node lookup_entry
  search_node_lem q leaf h = refl
  search_node_lem q (node b l k v r) h =
      let hl = IsAscending-left cmp (entries l) ((k, v) ∷ entries r) h in
      let hr = (IsAscending-right cmp (entries l) ((k, v) ∷ entries r) h).1 in
      elim (order_case (sign (cmp q k))) [
        | is_lt e ↦
            rw (e, search_node, lookup_entry-left cmp q k v (entries l) (entries r) e)
              (search_node_lem q l hl)
        | is_eq e ↦
            let b = AllBelow-of_eq cmp o q k v (entries l) (entries r) h e in
            rw (e, search_node, lookup_entry-here cmp q k v (entries l) (entries r) b e) refl
        | is_gt e ↦
            let b = AllBelow-of_gt cmp o q k v (entries l) (entries r) h e in
            rw (e, search_node, lookup_entry-right cmp q k v (entries l) (entries r) b e)
              (search_node_lem q r hr)
      ]

  -- `put` inserts the entry, and counts it if its key is new.
  pub put-entries :
      (q : K) (w : V) (size : ℕ) (t : Tree K V)
      → IsAscending cmp (entries t)
      → WhenOk (λ out. Put cmp q w size (entries t) out) (put cmp q w size t)
  unfolding put insert_entry lookup_entry
  put-entries q w size leaf h = (refl, omega arith)
  put-entries q w size (node b l k v r) h =
      let hl = IsAscending-left cmp (entries l) ((k, v) ∷ entries r) h in
      let hr = (IsAscending-right cmp (entries l) ((k, v) ∷ entries r) h).1 in
      elim (order_case (sign (cmp q k))) [
        | is_lt e ↦
            rw
              (
                e,
                put,
                lookup_entry-left cmp q k v (entries l) (entries r) e,
                insert_entry-left cmp q k v w (entries l) (entries r) e,
              )
              (WhenOk-bind (Put cmp q w size (entries l)) _ (put cmp q w size l) _
                (put-entries q w size l hl)
                (λ (l', size', fix) (same, counted).
                  fix_if_lem (λ n. n + hits cmp q (entries l) ≡ size + 1) _ fix (put_fix left)
                    (node b l' k v r) size' (put_fix-entries left (node b l' k v r))
                    (ap (λ es. es ++ (k, v) ∷ entries r) same) counted))
        | is_eq e ↦
            let b = AllBelow-of_eq cmp o q k v (entries l) (entries r) h e in
            rw
              (
                e,
                put,
                lookup_entry-here cmp q k v (entries l) (entries r) b e,
                insert_entry-here cmp q k v w (entries l) (entries r) b e,
              )
              (refl, refl)
        | is_gt e ↦
            let b' = AllBelow-of_gt cmp o q k v (entries l) (entries r) h e in
            rw
              (
                e,
                put,
                lookup_entry-right cmp q k v (entries l) (entries r) b' e,
                insert_entry-right cmp q k v w (entries l) (entries r) b' e,
              )
              (WhenOk-bind (Put cmp q w size (entries r)) _ (put cmp q w size r) _
                (put-entries q w size r hr)
                (λ (r', size', fix) (same, counted).
                  fix_if_lem (λ n. n + hits cmp q (entries r) ≡ size + 1) _ fix (put_fix right)
                    (node b l k v r') size' (put_fix-entries right (node b l k v r'))
                    (ap (λ es. entries l ++ (k, v) ∷ es) same) counted))
      ]

  -- `remove` erases the entry, counts it off and returns its value.
  pub remove-entries :
      (q : K) (size : ℕ) (t : Tree K V)
      → IsAscending cmp (entries t)
      → WhenOk (λ out. Removed cmp q size (entries t) out) (remove cmp q size t)
  unfolding remove erase_entry lookup_entry
  remove-entries q size leaf h = (refl, (omega arith, refl))
  remove-entries q size (node b l k v r) h =
      let hl = IsAscending-left cmp (entries l) ((k, v) ∷ entries r) h in
      let hr = (IsAscending-right cmp (entries l) ((k, v) ∷ entries r) h).1 in
      elim (order_case (sign (cmp q k))) [
        | is_lt e ↦
            rw
              (
                e,
                remove,
                lookup_entry-left cmp q k v (entries l) (entries r) e,
                erase_entry-left cmp q k v (entries l) (entries r) e,
              )
              (WhenOk-bind (Removed cmp q size (entries l)) _ (remove cmp q size l) _
                (remove-entries q size l hl)
                (λ (l', out, fix) (same, kept).
                  fix_if_lem
                    (λ (n, value).
                      (n ≡ size - hits cmp q (entries l))
                      × (value ≡ value_of (lookup_entry cmp q (entries l))))
                    _ fix (remove_fix right) (node b l' k v r) out
                    (remove_fix-entries right (node b l' k v r))
                    (ap (λ es. es ++ (k, v) ∷ entries r) same) kept))
        | is_eq e ↦
            let b' = AllBelow-of_eq cmp o q k v (entries l) (entries r) h e in
            rw
              (
                e,
                remove,
                lookup_entry-here cmp q k v (entries l) (entries r) b' e,
                erase_entry-here cmp q k v (entries l) (entries r) b' e,
              )
              (WhenOk-map
                (λ (t, out', _). (entries t ≡ entries l ++ entries r) × (out' ≡ (size - 1, some v)))
                _ (remove_here (size - 1, some v) b l r)
                (remove_here-entries (size - 1, some v) b l r)
                (λ (t, out', _) (same, kept). (same, (ap (λ x. x.0) kept, ap (λ x. x.1) kept))))
        | is_gt e ↦
            let b' = AllBelow-of_gt cmp o q k v (entries l) (entries r) h e in
            rw
              (
                e,
                remove,
                lookup_entry-right cmp q k v (entries l) (entries r) b' e,
                erase_entry-right cmp q k v (entries l) (entries r) b' e,
              )
              (WhenOk-bind (Removed cmp q size (entries r)) _ (remove cmp q size r) _
                (remove-entries q size r hr)
                (λ (r', out, fix) (same, kept).
                  fix_if_lem
                    (λ (n, value).
                      (n ≡ size - hits cmp q (entries r))
                      × (value ≡ value_of (lookup_entry cmp q (entries r))))
                    _ fix (remove_fix left) (node b l k v r') out
                    (remove_fix-entries left (node b l k v r'))
                    (ap (λ es. entries l ++ (k, v) ∷ es) same) kept))
      ]
