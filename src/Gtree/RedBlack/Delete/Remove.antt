-- ===== src/Gtree/RedBlack/Delete/Remove.antt =====
-- Remove of RedBlackTree on its list of entries: where it is right, and where it is not.
use gf.Prelude.{
  ◌+◌, ◌-◌, length, ◌≡◌, refl, ◌∙◌, ap, sym, List, [], ◌++◌, append_assoc, append-nil, Option, none,
  some, Option-cases, inl, inr, arith,
}
use gf.Prelude.Outcome.{ok}
use gf.Gtree.Entries.{lookup_entry, erase_entry, found}
use gf.Gtree.Entries.Order.{erase_entry-IsAscending}
use gf.Gtree.Entries.Laws.{length-erase_entry, erase_entry-absent}
use gf.Gtree.RedBlack.{Color, RbTree, leaf, node, Frame, root_of}
use gf.Gtree.RedBlack.Inorder.{entries}
use gf.Gtree.RedBlack.Coloured.{IsRedBlack}
use gf.Gtree.RedBlack.Map.{RedBlackTree, search}
use gf.Gtree.RedBlack.Map.Laws.{items, IsValid}
use gf.Gtree.RedBlack.Map.Reads.{search_lem}
use gf.Gtree.RedBlack.Delete.{Place, locate, chosen_node, maximum_node, cut_node, do_remove}
use gf.Gtree.RedBlack.Delete.Removal.{
  tree_at, remainder, IsPlaced, cut_node-Repairs, chosen_node-IsPlaced, locate-IsPlaced,
  locate-IsPlaceOf,
}

module _ {ℓ κ} {K : Type ℓ} {V : Type κ} where
  -- `maximumNode` finds the greatest node of the left subtree, where the code asks for it.
  abbrev pub EndsSoon : RbTree K V → RbTree K V → Type (ℓ ⊔ κ)
  EndsSoon (node lc ll lk lv (node mc ml mk mv mr)) (node rc rl rk rv rr) = mr ≡ leaf
  EndsSoon l r = Unit

  abbrev pub FindsMaximum : Option (Place K V) → Type (ℓ ⊔ κ)
  FindsMaximum none = Unit
  FindsMaximum (some p) = EndsSoon p.lower p.upper

  chosen-remainder :
      (c : Color) (l : RbTree K V) (k : K) (v : V) (r : RbTree K V) (path : List (Frame K V))
      → EndsSoon l r
      → let p : Place K V = record {
        color = c;
        lower = l;
        key = k;
        value = v;
        upper = r;
        path = path;
      } in
        let n = chosen_node p in
        (x : RbTree K V) × (entries x ≡ entries l ++ entries r)
        × (root_of n.path (remainder (tree_at n) n.lower n.upper) ≡ root_of path x)
  unfolding chosen_node maximum_node
  chosen-remainder c l k v leaf path h = (l, sym (append-nil (entries l)), refl)
  chosen-remainder c leaf k v (node rc rl rk rv rr) path h = (node rc rl rk rv rr, refl, refl)
  chosen-remainder c (node lc ll lk lv leaf) k v (node rc rl rk rv rr) path h =
      (node c ll lk lv (node rc rl rk rv rr), simp append_assoc, refl)
  chosen-remainder c (node lc ll lk lv (node mc ml mk mv mr)) k v (node rc rl rk rv rr) path h = (
    node c (node lc ll lk lv ml) mk mv (node rc rl rk rv rr),
    rw h (simp append_assoc),
    rw (h, remainder) refl,
  )

  pub removed :
      (t : RedBlackTree K V) (q : K) (p : Place K V) (root : RbTree K V)
      → locate t.comparator q t.root [] ≡ some p
      → cut_node (chosen_node p) ≡ ok root
      → do_remove t q ≡ ok (record t { root = root; size = t.size - 1 }, some p.value)
  unfolding do_remove
  removed t q p root e f = rw (e, do_remove, f) refl

  missed :
      (t : RedBlackTree K V) (q : K)
      → locate t.comparator q t.root [] ≡ none
      → do_remove t q ≡ ok (t, none)
  unfolding do_remove
  missed t q e = rw (e, do_remove) refl

  -- Remove on a valid red-black tree returns without a panic the value that the key reads, and the
  -- tree that it leaves has the colours of a red-black tree.
  pub do_remove-IsRedBlack :
      (t : RedBlackTree K V) (q : K)
      → IsValid t
      → (t' : RedBlackTree K V) × (do_remove t q ≡ ok (t', search t q)) × IsRedBlack t'.root
  do_remove-IsRedBlack t q h =
      let cmp = t.comparator in
      let read = search_lem t q h in
      let placed = locate-IsPlaced cmp q t.root [] h.coloured.0 tt h.coloured.1 in
      let holds = locate-IsPlaceOf cmp h.lawful q t.root [] h.ascending in
      elim (Option-cases (locate cmp q t.root [])) [
        | inl e ↦ (t, rw (read, rw e at holds) (missed t q e), h.coloured)
        | inr (p, e) ↦
            let good : IsPlaced p = rw e at placed in
            let (root, f, fine, _) =
              cut_node-Repairs (chosen_node p) (chosen_node-IsPlaced p good) in
            (
              record t { root = root; size = t.size - 1 },
              rw (read, (rw e at holds).0) (removed t q p root e f),
              fine,
            )
      ]

  -- `t'` is `t` without the key `q`
  pub record HasRemoved (t : RedBlackTree K V) (q : K) (t' : RedBlackTree K V) : Type (ℓ ⊔ κ) where
    pub valid : IsValid t'
    pub contents : items t' ≡ erase_entry t.comparator q (items t)

  erased :
      (t : RedBlackTree K V) (q : K) (root : RbTree K V) (v : K × V)
      → IsValid t
      → IsRedBlack root
      → lookup_entry t.comparator q (items t) ≡ some v
      → entries root ≡ erase_entry t.comparator q (items t)
      → HasRemoved t q (record t { root = root; size = t.size - 1 })
  erased t q root v h fine e same =
      let cmp = t.comparator in
      let counted : length (entries root) + 1 ≡ length (items t) = rw same (
        ap (λ o. length (erase_entry cmp q (items t)) + found o) (sym e)
        ∙ length-erase_entry cmp q (items t)) in
      record {
        valid = record {
          coloured = fine;
          lawful = h.lawful;
          ascending = rw same (erase_entry-IsAscending cmp h.lawful q (items t) h.ascending);
          counted = omega (arith, h.counted, counted);
        };
        contents = same;
      }

  -- Where the code finds the greatest node of the left subtree, or does not ask for it, Remove on a
  -- valid red-black tree leaves a valid tree without the key.
  pub do_remove-HasRemoved :
      (t : RedBlackTree K V) (q : K)
      → IsValid t
      → FindsMaximum (locate t.comparator q t.root [])
      → (t' : RedBlackTree K V) × (do_remove t q ≡ ok (t', search t q)) × HasRemoved t q t'
  do_remove-HasRemoved t q h finds =
      let cmp = t.comparator in
      let read = search_lem t q h in
      let placed = locate-IsPlaced cmp q t.root [] h.coloured.0 tt h.coloured.1 in
      let holds = locate-IsPlaceOf cmp h.lawful q t.root [] h.ascending in
      elim (Option-cases (locate cmp q t.root [])) [
        | inl e ↦
            let none_there = rw e at holds in
            (
              t,
              rw (read, none_there) (missed t q e),
              record { valid = h; contents = sym (erase_entry-absent cmp q (items t) none_there) },
            )
        | inr (p, e) ↦
            let good : IsPlaced p = rw e at placed in
            let there = rw e at holds in
            let (root, f, fine, same) =
              cut_node-Repairs (chosen_node p) (chosen_node-IsPlaced p good) in
            let (x, parts, over) =
              chosen-remainder p.color p.lower p.key p.value p.upper p.path (rw e at finds) in
            let (u, without, up) = there.1 x parts in
            (
              record t { root = root; size = t.size - 1 },
              rw (read, there.0) (removed t q p root e f),
              erased t q root (p.key, p.value) h fine there.0
                  (same ∙ ap entries over ∙ ap entries up ∙ without),
            )
      ]
