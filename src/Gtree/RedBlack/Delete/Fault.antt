-- ===== src/Gtree/RedBlack/Delete/Fault.antt =====
-- Where `maximumNode` of container/gtree/gtree_redblacktree.go stops too early, Remove removes
-- nothing.
use gf.Prelude.{
  ℕ, suc, ◌+◌, ◌-◌, length, ◌≡◌, refl, ◌∙◌, ap, sym, List, [], ◌∷◌, length-append, Option, none,
  some, arith,
}
use gf.Prelude.Outcome.{ok}
use gf.Gtree.Comparator.{Comparator, sign, order_case, is_lt, is_eq, is_gt}
use gf.Gtree.Entries.{erase_entry, found}
use gf.Gtree.Entries.Laws.{length-erase_entry}
use gf.Gtree.RedBlack.{Color, Side, left, right, RbTree, leaf, node, Frame, join, plug, root_of}
use gf.Gtree.RedBlack.Inorder.{entries}
use gf.Gtree.RedBlack.Map.{RedBlackTree}
use gf.Gtree.RedBlack.Map.Laws.{items, IsValid}
use gf.Gtree.RedBlack.Delete.{Place, locate, chosen_node, maximum_node, cut_node, do_remove}
use gf.Gtree.RedBlack.Delete.Removal.{tree_at, locate-IsPlaceOf}
use gf.Gtree.RedBlack.Delete.Remove.{removed}

module _ {ℓ κ} {K : Type ℓ} {V : Type κ} where
  count_entries : RbTree K V → ℕ
  count_entries leaf = 0
  count_entries (node c l k v r) = count_entries l + suc (count_entries r)

  count_entries_lem : (t : RbTree K V) → length (entries t) ≡ count_entries t
  unfolding count_entries
  count_entries_lem leaf = refl
  count_entries_lem (node c l k v r) = omega (
    arith,
    length-append (entries l) ((k, v) ∷ entries r),
    count_entries_lem l,
    count_entries_lem r,
  )

  count_entries-root_of :
      (path : List (Frame K V)) (t u : RbTree K V)
      → count_entries t ≡ count_entries u
      → count_entries (root_of path t) ≡ count_entries (root_of path u)
  unfolding count_entries
  count_entries-root_of [] t u e = e
  count_entries-root_of (f ∷ path) t u e =
      count_entries-root_of path (plug f t) (plug f u) (joined f.side)
    where
      joined :
          (s : Side)
          → count_entries (join s f.color f.key f.value t f.sibling)
            ≡ count_entries (join s f.color f.key f.value u f.sibling)
      joined left = omega (arith, e)
      joined right = omega (arith, e)

  abbrev IsWholeOf : RbTree K V → List (Frame K V) → Option (Place K V) → Type (ℓ ⊔ κ)
  IsWholeOf t path none = Unit
  IsWholeOf t path (some p) = root_of p.path (tree_at p) ≡ root_of path t

  locate-IsWholeOf :
      (cmp : Comparator K) (q : K) (t : RbTree K V) (path : List (Frame K V))
      → IsWholeOf t path (locate cmp q t path)
  unfolding locate
  locate-IsWholeOf cmp q leaf path = tt
  locate-IsWholeOf cmp q (node c l k v r) path = elim (order_case (sign (cmp q k))) [
    | is_eq e ↦ rw (e, locate) refl
    | is_lt e ↦
        rw (e, locate)
          (locate-IsWholeOf cmp q l
            (record { side = left; color = c; key = k; value = v; sibling = r } ∷ path))
    | is_gt e ↦
        rw (e, locate)
          (locate-IsWholeOf cmp q r
            (record { side = right; color = c; key = k; value = v; sibling = l } ∷ path))
  ]

  -- The right child of the left subtree is not its greatest node, and has two children.
  abbrev pub StopsEarly : RbTree K V → RbTree K V → Type 0
  StopsEarly (node lc ll lk lv (node mc (node ac al ak av ar) mk mv (node bc bl bk bv br)))
        (node rc rl rk rv rr) =
      Unit
  StopsEarly l r = ⊥

  cut-StopsEarly :
      (c : Color) (l : RbTree K V) (k : K) (v : V) (r : RbTree K V) (path : List (Frame K V))
      → StopsEarly l r
      → (x : RbTree K V) × (cut_node (
            chosen_node
              (record { color = c; lower = l; key = k; value = v; upper = r; path = path }))
          ≡ ok (root_of path x))
        × (count_entries x ≡ count_entries (node c l k v r))
  unfolding cut_node chosen_node maximum_node count_entries
  cut-StopsEarly c (node lc ll lk lv (node mc (node ac al ak av ar) mk mv (node bc bl bk bv br))) k
        v (node rc rl rk rv rr) path h =
      (
        node c (node lc ll lk lv (node mc (node ac al ak av ar) mk mv (node bc bl bk bv br))) mk mv
            (node rc rl rk rv rr),
        refl,
        refl,
      )
  cut-StopsEarly c leaf k v r path h = elim h [ ]
  cut-StopsEarly c (node lc ll lk lv leaf) k v r path h = elim h [ ]
  cut-StopsEarly c (node lc ll lk lv (node mc leaf mk mv _)) k v r path h = elim h [ ]
  cut-StopsEarly c (node lc ll lk lv (node mc (node ac al ak av ar) mk mv leaf)) k v r path h =
      elim h [ ]
  cut-StopsEarly c (node lc ll lk lv (node mc (node ac al ak av ar) mk mv (node bc bl bk bv br))) k
        v leaf path h =
      elim h [ ]

  -- Where the node of the key has two children, and the right child of its left one has two children
  -- too, Remove on a valid red-black tree returns the value of the key and leaves as many entries as
  -- before with a size that is one less, so that the tree is not valid.
  pub do_remove_loses_count :
      (t : RedBlackTree K V) (q : K) (p : Place K V)
      → IsValid t
      → locate t.comparator q t.root [] ≡ some p
      → StopsEarly p.lower p.upper
      → (t' : RedBlackTree K V) × (do_remove t q ≡ ok (t', some p.value))
        × (length (items t') ≡ length (items t))
        × (t'.size + 1 ≡ t.size)
        × (¬ IsValid t')
  do_remove_loses_count t q p h e stops =
      let (x, f, n) = cut-StopsEarly p.color p.lower p.key p.value p.upper p.path stops in
      let root = root_of p.path x in
      let whole : root_of p.path (tree_at p) ≡ t.root =
        rw e at (locate-IsWholeOf t.comparator q t.root []) in
      let count : length (entries root) ≡ length (items t) =
        count_entries_lem root
        ∙ count_entries-root_of p.path x (tree_at p) n
        ∙ ap count_entries whole
        ∙ sym (count_entries_lem t.root) in
      let there = (rw e at (locate-IsPlaceOf t.comparator h.lawful q t.root [] h.ascending)).0 in
      let one : length (erase_entry t.comparator q (items t)) + 1 ≡ length (items t) =
        ap (λ o. length (erase_entry t.comparator q (items t)) + found o) (sym there)
        ∙ length-erase_entry t.comparator q (items t) in
      let less : t.size - 1 + 1 ≡ t.size = omega (arith, one, h.counted) in
      (
        record t { root = root; size = t.size - 1 },
        removed t q p root e f,
        count,
        less,
        λ bad. omega (arith, bad.counted, h.counted, count, less),
      )
