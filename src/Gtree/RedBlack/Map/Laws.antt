-- ===== src/Gtree/RedBlack/Map/Laws.antt =====
-- Set of RedBlackTree on its list of entries.
use gf.Prelude.{
  ℕ, suc, ◌+◌, ◌≡◌, refl, ◌∙◌, ap, length, List, [], Bool, true, false, if◌then◌else◌, arith,
}
use gf.Prelude.Outcome.{ok, Ensures-inv}
use gf.Gtree.Comparator.{IsWeakOrder}
use gf.Gtree.Entries.{IsAscending}
use gf.Gtree.Entries.Upsert.{upsert_entry, length-upsert_entry, IsAscending-upsert_entry}
use gf.Gtree.RedBlack.{RbTree, Arrival, arrive, descend}
use gf.Gtree.RedBlack.Inorder.{entries, whole, descend-entries}
use gf.Gtree.RedBlack.Coloured.{IsRedBlack}
use gf.Gtree.RedBlack.Insert.{
  IsReady, is_attached, count_new, arrive-IsRedBlack, arrive_lem, descend-IsReady,
  descend-is_attached,
}
use gf.Gtree.RedBlack.Map.{RedBlackTree, do_set}

raise_size : (n : ℕ) (new : Bool) → (if new then suc n else n) ≡ n + count_new new
raise_size n true = omega arith
raise_size n false = omega arith

module _ {ℓ κ} {K : Type ℓ} {V : Type κ} where
  abbrev pub items : RedBlackTree K V → List (K × V)
  items t = entries t.root

  -- The colours are those of a red-black tree, the keys ascend by a lawful comparator, and `size`
  -- counts them.
  pub record IsValid (t : RedBlackTree K V) : Type ℓ where
    pub coloured : IsRedBlack t.root
    pub lawful : IsWeakOrder t.comparator
    pub ascending : IsAscending t.comparator (items t)
    pub counted : t.size ≡ length (items t)

  -- `t'` is `t` with the entry (q, w) set
  pub record HasSet (t : RedBlackTree K V) (q : K) (w : V) (t' : RedBlackTree K V)
      : Type (ℓ ⊔ κ) where
    pub valid : IsValid t'
    pub same_order : t'.comparator ≡ t.comparator
    pub contents : items t' ≡ upsert_entry t.comparator q w (items t)

  -- what the repair of a ready arrival returns
  arrive_returns :
      (a : Arrival K V)
      → IsReady a
      → (root : RbTree K V) × (arrive a ≡ ok (root, is_attached a))
        × IsRedBlack root
        × (entries root ≡ entries (whole a))
  arrive_returns a h =
      let ((root, new), e, p) =
        Ensures-inv (λ (root, _). IsRedBlack root) (arrive a) (arrive-IsRedBlack a h) in
      let (same, flag) = rw e at (arrive_lem a) in (root, e ∙ ap (λ b. ok (root, b)) flag, p, same)

  -- Set on a valid tree returns a valid tree, whose entries are those before with this one set.
  pub do_set-HasSet :
      (t : RedBlackTree K V) (q : K) (w : V)
      → IsValid t
      → (t' : RedBlackTree K V) × (do_set t q w ≡ ok t') × HasSet t q w t'
  unfolding do_set
  do_set-HasSet t q w h =
      let cmp = t.comparator in
      let a = descend cmp q w t.root [] in
      let (u, same, over) = descend-entries cmp h.lawful q w t.root [] h.ascending in
      let (root, e, p, kept) =
        arrive_returns a (descend-IsReady cmp q w t.root [] h.coloured.0 tt h.coloured.1) in
      let contents : entries root ≡ upsert_entry cmp q w (items t) =
        kept ∙ ap entries over ∙ same in
      let size = if is_attached a then suc t.size else t.size in
      let new = descend-is_attached cmp h.lawful q w t.root [] h.ascending in
      (
        record t { root = root; size = size },
        rw e refl,
        record {
          valid = record {
            coloured = p;
            lawful = h.lawful;
            ascending =
                rw contents (IsAscending-upsert_entry cmp h.lawful q w (items t) h.ascending);
            counted =
                raise_size t.size (is_attached a)
                ∙ rw contents
                    (omega (arith, h.counted, new, length-upsert_entry cmp q w (items t)));
          };
          same_order = refl;
          contents = contents;
        },
      )
