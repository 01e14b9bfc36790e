-- ===== src/Gtree/Avl/Inorder.antt =====
-- The entries of an AVL tree in ascending order, and what each operation makes of them.
use gf.Prelude.{
  ◌≡◌, refl, ◌∙◌, sym, Bool, true, false, List, [], ◌∷◌, ◌++◌, append_assoc, append-nil,
  if◌then◌else◌, arith,
}
use gf.Prelude.Outcome.{Outcome, ok, WhenOk, WhenOk-bind, WhenOk-map, ◌>>=◌}
use gf.Gtree.Avl.{
  Balance, minus, even, plus, Side, left, right, Tree, leaf, node, rotate, single_rotate,
  double_rotate, put_fix, remove_fix, fix_if, remove_min, remove_here, is_factor,
}

module _ {ℓ κ} {K : Type ℓ} {V : Type κ} where
  abbrev pub entries : Tree K V → List (K × V)
  entries leaf = []
  entries (node b l k v r) = entries l ++ (k, v) ∷ entries r

  -- `t` has the entries of `s`
  abbrev pub SameEntries : Tree K V → Tree K V → Type (ℓ ⊔ κ)
  SameEntries s t = entries t ≡ entries s

  regroup :
      (p q r : K × V) (ws xs ys zs : List (K × V))
      → (ws ++ p ∷ xs) ++ q ∷ (ys ++ r ∷ zs) ≡ (ws ++ p ∷ (xs ++ q ∷ ys)) ++ r ∷ zs
  regroup p q r ws xs ys zs = simp append_assoc

  rotate-entries : (c : Side) (s : Tree K V) → WhenOk (SameEntries s) (rotate c s)
  unfolding rotate
  rotate-entries left (node b (node lb ll lk lv lr) k v r) = simp append_assoc
  rotate-entries right (node b l k v (node rb rl rk rv rr)) = simp append_assoc
  rotate-entries left (node b leaf k v r) = tt
  rotate-entries right (node b l k v leaf) = tt
  rotate-entries c leaf = ground arith

  single_rotate-entries : (c : Side) (s : Tree K V) → WhenOk (SameEntries s) (single_rotate c s)
  unfolding single_rotate
  single_rotate-entries left (node b (node lb ll lk lv lr) k v r) = simp append_assoc
  single_rotate-entries right (node b l k v (node rb rl rk rv rr)) = simp append_assoc
  single_rotate-entries left (node b leaf k v r) = tt
  single_rotate-entries right (node b l k v leaf) = tt
  single_rotate-entries c leaf = ground arith

  double_rotate-entries : (c : Side) (s : Tree K V) → WhenOk (SameEntries s) (double_rotate c s)
  unfolding double_rotate
  double_rotate-entries left (node b (node lb ll lk lv (node a w x y z)) k v r) = simp append_assoc
  double_rotate-entries right (node b l k v (node rb (node a w x y z) rk rv rr)) = simp append_assoc
  double_rotate-entries left (node b (node lb ll lk lv leaf) k v r) = tt
  double_rotate-entries right (node b l k v (node rb leaf rk rv rr)) = tt
  double_rotate-entries left (node b leaf k v r) = tt
  double_rotate-entries right (node b l k v leaf) = tt
  double_rotate-entries c leaf = ground arith

  turned-entries :
      (c : Side) (single fix : Bool) (s : Tree K V)
      → WhenOk
          (λ (t, _). SameEntries s t)
          ((if single then single_rotate c s else double_rotate c s) >>= λ t. ok (t, fix))
  turned-entries c true fix s =
      WhenOk-bind _ _ (single_rotate c s) _ (single_rotate-entries c s) (λ t e. e)
  turned-entries c false fix s =
      WhenOk-bind _ _ (double_rotate c s) _ (double_rotate-entries c s) (λ t e. e)

  pub put_fix-entries : (c : Side) (s : Tree K V) → WhenOk (λ (t, _). SameEntries s t) (put_fix c s)
  unfolding put_fix
  put_fix-entries c leaf = tt
  put_fix-entries left (node minus leaf k v r) = tt
  put_fix-entries left (node minus (node lb ll lk lv lr) k v r) =
      turned-entries left (is_factor lb minus) false (node minus (node lb ll lk lv lr) k v r)
  put_fix-entries left (node _ l k v r) = refl
  put_fix-entries right (node plus l k v leaf) = tt
  put_fix-entries right (node plus l k v (node rb rl rk rv rr)) =
      turned-entries right (is_factor rb plus) false (node plus l k v (node rb rl rk rv rr))
  put_fix-entries right (node _ l k v r) = refl

  pub remove_fix-entries :
      (c : Side) (s : Tree K V) → WhenOk (λ (t, _). SameEntries s t) (remove_fix c s)
  unfolding remove_fix
  remove_fix-entries c leaf = tt
  remove_fix-entries left (node minus leaf k v r) = tt
  remove_fix-entries left (node minus (node even ll lk lv lr) k v r) = simp append_assoc
  remove_fix-entries left (node minus (node lb ll lk lv lr) k v r) =
      turned-entries left (is_factor lb minus) true (node minus (node lb ll lk lv lr) k v r)
  remove_fix-entries left (node _ l k v r) = refl
  remove_fix-entries right (node plus l k v leaf) = tt
  remove_fix-entries right (node plus l k v (node even rl rk rv rr)) = simp append_assoc
  remove_fix-entries right (node plus l k v (node rb rl rk rv rr)) =
      turned-entries right (is_factor rb plus) true (node plus l k v (node rb rl rk rv rr))
  remove_fix-entries right (node _ l k v r) = refl

module _ {ℓ κ μ} {K : Type ℓ} {V : Type κ} {R : Type μ} where
  -- `fix_if` with a fix that keeps the entries keeps them.
  pub fix_if-entries :
      (fix : Bool) (f : Tree K V → Outcome (Tree K V × Bool)) (t : Tree K V) (out : R)
      → WhenOk (λ (t', _). SameEntries t t') (f t)
      → WhenOk (λ (t', out', _). SameEntries t t' × (out' ≡ out)) (fix_if fix f t out)
  fix_if-entries true f t out h =
      WhenOk-bind (λ (t', _). SameEntries t t') _ (f t) _ h (λ _ e. (e, refl))
  fix_if-entries false f t out h = (refl, refl)

  -- so what the tree and the other result were to be, they are after the fix
  pub fix_if_lem {ν} :
      (Q : R → Type ν) (es : List (K × V)) (fix : Bool) (f : Tree K V → Outcome (Tree K V × Bool))
      (s : Tree K V) (out : R)
      → WhenOk (λ (t, _). SameEntries s t) (f s)
      → entries s ≡ es
      → Q out
      → WhenOk (λ (t, out', _). (entries t ≡ es) × Q out') (fix_if fix f s out)
  fix_if_lem Q es fix f s out keeps e q =
      WhenOk-map {A = Tree K V × R × Bool} (λ (t, out', _). SameEntries s t × (out' ≡ out))
        (λ (t, out', _). (entries t ≡ es) × Q out') (fix_if fix f s out)
        (fix_if-entries fix f s out keeps) (λ (t, out', _) (same, kept). (same ∙ e, rw kept q))

module _ {ℓ κ} {K : Type ℓ} {V : Type κ} where
  -- The entry that leaves is the first one.
  remove_min-entries :
      (s : Tree K V) → WhenOk (λ (t, least, _). entries s ≡ least ∷ entries t) (remove_min s)
  unfolding remove_min
  remove_min-entries leaf = tt
  remove_min-entries (node b leaf k v r) = refl
  remove_min-entries (node b (node lb ll lk lv lr) k v r) =
      WhenOk-bind (λ (t, least, _). entries (node lb ll lk lv lr) ≡ least ∷ entries t) _
        (remove_min (node lb ll lk lv lr)) _ (remove_min-entries (node lb ll lk lv lr))
        (λ (t, least, fix) e.
          WhenOk-map {A = Tree K V × (K × V) × Bool}
            (λ (t', out, _). SameEntries (node b t k v r) t' × (out ≡ least))
            (λ (t', out, _). entries (node lb ll lk lv lr) ++ (k, v) ∷ entries r ≡ out ∷ entries t')
            _
            (fix_if-entries fix (remove_fix right) (node b t k v r) least
              (remove_fix-entries right (node b t k v r)))
            (λ (t', out, _) (same, kept). rw (same, kept, e) refl))

  -- the last step of `remove_here`
  placed-entries {μ} :
      {R : Type μ} (fix : Bool) (s : Tree K V) (out : R)
      → WhenOk
          (λ (t, out', _). SameEntries s t × (out' ≡ out))
          (if fix then (remove_fix left s >>= λ (t, f). ok (t, out, f)) else ok (s, out, true))
  placed-entries true s out =
      WhenOk-bind (λ (t, _). SameEntries s t) _ (remove_fix left s) _ (remove_fix-entries left s)
        (λ _ e. (e, refl))
  placed-entries false s out = (refl, refl)

  -- The node found leaves, its neighbours stay.
  pub remove_here-entries {μ} :
      {R : Type μ} (out : R) (b : Balance) (l r : Tree K V)
      → WhenOk
          (λ (t, out', _). (entries t ≡ entries l ++ entries r) × (out' ≡ out))
          (remove_here out b l r)
  unfolding remove_here
  remove_here-entries out b l leaf = (sym (append-nil (entries l)), refl)
  remove_here-entries out b l (node rb rl rk rv rr) =
      WhenOk-bind (λ (t, least, _). entries (node rb rl rk rv rr) ≡ least ∷ entries t) _
        (remove_min (node rb rl rk rv rr)) _ (remove_min-entries (node rb rl rk rv rr))
        (λ (t, least, fix) e. rw e (placed-entries fix (node b l least.0 least.1 t) out))
