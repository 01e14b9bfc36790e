-- ===== src/Gtree/Avl/Shape.antt =====
-- The shape of an AVL tree: its height, the invariant that its balance factors state, and how the
-- two fixes restore it.
use gf.Prelude.{ℕ, suc, max, ◌≡◌, ◌≢◌, ◌⊎◌, Bool, true, false, arith}
use gf.Prelude.Outcome.{Ensures}
use gf.Gtree.Avl.{Balance, minus, even, plus, left, right, Tree, leaf, node, put_fix, remove_fix}

-- what a factor says of the heights of the two children
abbrev pub Fits : Balance → ℕ → ℕ → Type 0
Fits minus hl hr = hl ≡ suc hr
Fits even hl hr = hl ≡ hr
Fits plus hl hr = hr ≡ suc hl

abbrev pub count_if : Bool → ℕ
count_if true = 1
count_if false = 0

module _ {ℓ κ} {K : Type ℓ} {V : Type κ} where
  abbrev pub height : Tree K V → ℕ
  height leaf = 0
  height (node b l k v r) = suc (max (height l) (height r))

  -- Every factor is right.
  abbrev pub IsBalanced : Tree K V → Type 0
  IsBalanced leaf = Unit
  IsBalanced (node b l k v r) = Fits b (height l) (height r) × IsBalanced l × IsBalanced r

  -- A tree that has grown from height `h` is new or leans to a side.
  abbrev pub HasGrown : ℕ → Tree K V → Type 0
  HasGrown h leaf = ⊥
  HasGrown h (node b l k v r) = (suc h ≡ suc (max (height l) (height r))) × ((h ≡ 0) ⊎ (b ≢ even))

  -- the result of a step that reports whether a tree of height `h` has grown
  abbrev pub PutResult : ℕ → Tree K V → Bool → Type 0
  PutResult h t true = IsBalanced t × (height t ≡ suc h) × HasGrown h t
  PutResult h t false = IsBalanced t × (height t ≡ h)

  -- the result of a step that reports whether a tree of height `h` has become lower
  abbrev pub RemoveResult : ℕ → Tree K V → Bool → Type 0
  RemoveResult h t true = IsBalanced t × (suc (height t) ≡ h)
  RemoveResult h t false = IsBalanced t × (height t ≡ h)

  pub PutResult-IsBalanced : (h : ℕ) (t : Tree K V) (fix : Bool) → PutResult h t fix → IsBalanced t
  PutResult-IsBalanced h t true p = p.0
  PutResult-IsBalanced h t false p = p.0

  pub RemoveResult-IsBalanced :
      (h : ℕ) (t : Tree K V) (fix : Bool) → RemoveResult h t fix → IsBalanced t
  RemoveResult-IsBalanced h t true p = p.0
  RemoveResult-IsBalanced h t false p = p.0

  -- `put_fix c` answers a side `c` that has grown, from height `h`.
  pub put_fix-left :
      (b : Balance) (l : Tree K V) (k : K) (v : V) (r : Tree K V) (h : ℕ)
      → Fits b h (height r)
      → IsBalanced l
      → IsBalanced r
      → HasGrown h l
      → Ensures
          (λ (t, fix). PutResult (suc (max h (height r))) t fix)
          (put_fix left (node b l k v r))
  unfolding put_fix
  put_fix-left even (node lb ll lk lv lr) k v r h f bl br g = ground arith
  put_fix-left plus (node lb ll lk lv lr) k v r h f bl br g = ground arith
  put_fix-left minus (node minus ll lk lv lr) k v r h f bl br g = ground arith
  put_fix-left minus (node even ll lk lv lr) k v r h f bl br g = ground arith
  put_fix-left minus (node plus ll lk lv leaf) k v r h f bl br g = ground arith
  put_fix-left minus (node plus ll lk lv (node minus a x y c)) k v r h f bl br g = ground arith
  put_fix-left minus (node plus ll lk lv (node even a x y c)) k v r h f bl br g = ground arith
  put_fix-left minus (node plus ll lk lv (node plus a x y c)) k v r h f bl br g = ground arith
  put_fix-left b leaf k v r h f bl br g = absurd g

  pub put_fix-right :
      (b : Balance) (l : Tree K V) (k : K) (v : V) (r : Tree K V) (h : ℕ)
      → Fits b (height l) h
      → IsBalanced l
      → IsBalanced r
      → HasGrown h r
      → Ensures
          (λ (t, fix). PutResult (suc (max (height l) h)) t fix)
          (put_fix right (node b l k v r))
  unfolding put_fix
  put_fix-right even l k v (node rb rl rk rv rr) h f bl br g = ground arith
  put_fix-right minus l k v (node rb rl rk rv rr) h f bl br g = ground arith
  put_fix-right plus l k v (node plus rl rk rv rr) h f bl br g = ground arith
  put_fix-right plus l k v (node even rl rk rv rr) h f bl br g = ground arith
  put_fix-right plus l k v (node minus leaf rk rv rr) h f bl br g = ground arith
  put_fix-right plus l k v (node minus (node minus a x y c) rk rv rr) h f bl br g = ground arith
  put_fix-right plus l k v (node minus (node even a x y c) rk rv rr) h f bl br g = ground arith
  put_fix-right plus l k v (node minus (node plus a x y c) rk rv rr) h f bl br g = ground arith
  put_fix-right b l k v leaf h f bl br g = absurd g

  -- `remove_fix left` answers a right side that has become lower, from height `h`.
  pub remove_fix-left :
      (b : Balance) (l : Tree K V) (k : K) (v : V) (r : Tree K V) (h : ℕ)
      → Fits b (height l) h
      → IsBalanced l
      → IsBalanced r
      → suc (height r) ≡ h
      → Ensures
          (λ (t, fix). RemoveResult (suc (max (height l) h)) t fix)
          (remove_fix left (node b l k v r))
  unfolding remove_fix
  remove_fix-left even l k v r h f bl br g = ground arith
  remove_fix-left plus l k v r h f bl br g = ground arith
  remove_fix-left minus (node minus ll lk lv lr) k v r h f bl br g = ground arith
  remove_fix-left minus (node even ll lk lv lr) k v r h f bl br g = ground arith
  remove_fix-left minus (node plus ll lk lv leaf) k v r h f bl br g = ground arith
  remove_fix-left minus (node plus ll lk lv (node minus a x y c)) k v r h f bl br g = ground arith
  remove_fix-left minus (node plus ll lk lv (node even a x y c)) k v r h f bl br g = ground arith
  remove_fix-left minus (node plus ll lk lv (node plus a x y c)) k v r h f bl br g = ground arith
  remove_fix-left minus leaf k v r h f bl br g = ground arith

  pub remove_fix-right :
      (b : Balance) (l : Tree K V) (k : K) (v : V) (r : Tree K V) (h : ℕ)
      → Fits b h (height r)
      → IsBalanced l
      → IsBalanced r
      → suc (height l) ≡ h
      → Ensures
          (λ (t, fix). RemoveResult (suc (max h (height r))) t fix)
          (remove_fix right (node b l k v r))
  unfolding remove_fix
  remove_fix-right even l k v r h f bl br g = ground arith
  remove_fix-right minus l k v r h f bl br g = ground arith
  remove_fix-right plus l k v (node plus rl rk rv rr) h f bl br g = ground arith
  remove_fix-right plus l k v (node even rl rk rv rr) h f bl br g = ground arith
  remove_fix-right plus l k v (node minus leaf rk rv rr) h f bl br g = ground arith
  remove_fix-right plus l k v (node minus (node minus a x y c) rk rv rr) h f bl br g = ground arith
  remove_fix-right plus l k v (node minus (node even a x y c) rk rv rr) h f bl br g = ground arith
  remove_fix-right plus l k v (node minus (node plus a x y c) rk rv rr) h f bl br g = ground arith
  remove_fix-right plus l k v leaf h f bl br g = ground arith

  -- `remove_fix left` does not panic whatever the right side has become: it reads the left one.
  pub remove_fix_returns-left :
      (b : Balance) (l : Tree K V) (k : K) (v : V) (r : Tree K V) (h : ℕ)
      → Fits b (height l) h
      → IsBalanced l
      → Ensures (λ _. Unit) (remove_fix left (node b l k v r))
  unfolding remove_fix
  remove_fix_returns-left minus leaf k v r h f bl = absurd (omega arith)
  remove_fix_returns-left minus (node plus ll lk lv leaf) k v r h f bl = absurd (omega arith)
  remove_fix_returns-left minus (node plus ll lk lv (node a w x y z)) k v r h f bl = tt
  remove_fix_returns-left minus (node _ ll lk lv lr) k v r h f bl = tt
  remove_fix_returns-left _ l k v r h f bl = tt

  pub remove_fix_returns-right :
      (b : Balance) (l : Tree K V) (k : K) (v : V) (r : Tree K V) (h : ℕ)
      → Fits b h (height r)
      → IsBalanced r
      → Ensures (λ _. Unit) (remove_fix right (node b l k v r))
  unfolding remove_fix
  remove_fix_returns-right plus l k v leaf h f br = absurd (omega arith)
  remove_fix_returns-right plus l k v (node minus leaf rk rv rr) h f br = absurd (omega arith)
  remove_fix_returns-right plus l k v (node minus (node a w x y z) rk rv rr) h f br = tt
  remove_fix_returns-right plus l k v (node _ rl rk rv rr) h f br = tt
  remove_fix_returns-right _ l k v r h f br = tt
