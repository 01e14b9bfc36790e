-- ===== src/Garray/SortedIntArray/Place.antt =====
-- Where the binary search of SortedIntArray ends.
use gf.Prelude.{
  ℕ, zero, suc, ◌+◌, ◌-◌, ◌/◌, ◌≤◌, ◌<◌, ◌≡◌, ◌≢◌, refl, ◌∙◌, ap, sym, subst, Ordering, false, ◌==◌,
  List, [], ◌∷◌, ◌++◌, append_assoc, append-nil, length, length-append, ◌⊎◌, inl, inr, arith,
}
use gf.Prelude.Int.{ℤ, pos, negsuc}
use gf.Prelude.Outcome.{Ensures}
use gf.Prelude.Slice.Laws.{split_at}
use gf.Gtree.Comparator.{Comparator, IsWeakOrder, is_lt, is_eq, is_gt, order_case, sign}
use gf.Garray.SortedIntArray.{bin_loop, bin_search}
use gf.Garray.SortedIntArray.Rounds.{look, bin_loop-look, look_lem, loop_done}
use gf.Garray.SortedIntArray.Ascending.{
  AllOf, AllOf-append, AllOf-map, NotAfter, IsAscending, IsAscending-split, lt_of_lt-NotAfter,
  gt_of_gt-NotAfter, NotAfter-of_lt, NotAfter-of_gt, NotAfter-eq_left, NotAfter-eq_right,
}

-- How the index and the comparison that the search returns stand to the place between `front` and
-- `rear`.
pub data Verdict (cmp : Comparator ℤ) (v : ℤ) (front rear : List ℤ) (i c : ℤ) : Type 0 where
  before :
      sign c ≡ Ordering.lt
      → i ≡ pos (length front)
      → AllOf (λ y. sign (cmp v y) ≢ Ordering.eq) (front ++ rear)
      → Verdict cmp v front rear i c
  after :
      (k : ℕ)
      → sign c ≡ Ordering.gt
      → i ≡ pos k
      → suc k ≡ length front
      → AllOf (λ y. sign (cmp v y) ≢ Ordering.eq) (front ++ rear)
      → Verdict cmp v front rear i c
  here :
      (x : ℤ) (rest : List ℤ)
      → sign c ≡ Ordering.eq
      → i ≡ pos (length front)
      → rear ≡ x ∷ rest
      → sign (cmp v x) ≡ Ordering.eq
      → Verdict cmp v front rear i c

pub record Place (cmp : Comparator ℤ) (a : List ℤ) (v i c : ℤ) : Type 0 where
  pub front : List ℤ
  pub rear : List ℤ
  pub parts : a ≡ front ++ rear
  pub front_below : AllOf (λ y. NotAfter cmp y v) front
  pub rear_above : AllOf (λ y. NotAfter cmp v y) rear
  pub verdict : Verdict cmp v front rear i c

-- what the last round left, if there was one
abbrev LastRound : List ℤ → ℕ → ℤ → Type 0
LastRound p mid c =
    ((sign c ≡ Ordering.lt) × (mid ≡ length p)) ⊎ ((sign c ≡ Ordering.gt) × (suc mid ≡ length p))

module _ (cmp : Comparator ℤ) (lawful : IsWeakOrder cmp) (v : ℤ) where
  abbrev IsBelow : ℤ → Type 0
  IsBelow y = sign (cmp v y) ≡ Ordering.gt

  abbrev IsAbove : ℤ → Type 0
  IsAbove y = sign (cmp v y) ≡ Ordering.lt

  Place-ends :
      (p s : List ℤ) (mid : ℕ) (c : ℤ)
      → AllOf IsBelow p
      → AllOf IsAbove s
      → LastRound p mid c
      → Place cmp (p ++ s) v (pos mid) c
  Place-ends p s mid c b a l =
      let absent =
        AllOf-append (λ y. sign (cmp v y) ≢ Ordering.eq) p s
          (AllOf-map IsBelow (λ y. sign (cmp v y) ≢ Ordering.eq) p (λ y e f. cc) b)
          (AllOf-map IsAbove (λ y. sign (cmp v y) ≢ Ordering.eq) s (λ y e f. cc) a) in
      record {
        front = p;
        rear = s;
        parts = refl;
        front_below = AllOf-map IsBelow (λ y. NotAfter cmp y v) p (NotAfter-of_gt cmp lawful v) b;
        rear_above = AllOf-map IsAbove (λ y. NotAfter cmp v y) s (NotAfter-of_lt cmp lawful v) a;
        verdict = elim l [
          | inl (e, m) ↦ before e (ap pos m) absent
          | inr (e, m) ↦ after mid e refl m absent
        ];
      }

  Place-found :
      (p w : List ℤ) (x : ℤ) (w' s : List ℤ)
      → IsAscending cmp (w ++ x ∷ w')
      → AllOf IsBelow p
      → AllOf IsAbove s
      → sign (cmp v x) ≡ Ordering.eq
      → Place cmp ((p ++ w) ++ x ∷ (w' ++ s)) v (pos (length (p ++ w))) (cmp v x)
  Place-found p w x w' s h b a e =
      let (_, _, l, r) = IsAscending-split cmp w x w' h in
      record {
        front = p ++ w;
        rear = x ∷ (w' ++ s);
        parts = refl;
        front_below =
            AllOf-append (λ y. NotAfter cmp y v) p w
              (AllOf-map IsBelow (λ y. NotAfter cmp y v) p (NotAfter-of_gt cmp lawful v) b)
              (AllOf-map (λ y. NotAfter cmp y x) (λ y. NotAfter cmp y v) w
                (λ y. NotAfter-eq_right cmp lawful v x y e) l);
        rear_above = (
          (λ k. cc),
          AllOf-append (λ y. NotAfter cmp v y) w' s
              (AllOf-map (λ y. NotAfter cmp x y) (λ y. NotAfter cmp v y) w'
                (λ y. NotAfter-eq_left cmp lawful v x y e) r)
              (AllOf-map IsAbove (λ y. NotAfter cmp v y) s (NotAfter-of_lt cmp lawful v) a),
        );
        verdict = here x (w' ++ s) e refl refl e;
      }

  abbrev LoopEnds : ℕ → List ℤ → List ℤ → List ℤ → ℕ → ℤ → Type 0
  LoopEnds fuel p w s mid c =
      Ensures (λ (i, c'). Place cmp (p ++ (w ++ s)) v i c')
        (bin_loop fuel cmp (p ++ (w ++ s)) v (length p) (length p + length w) mid c)

  LoopEnds-nil :
      (fuel : ℕ) (p s : List ℤ) (mid : ℕ) (c : ℤ)
      → AllOf IsBelow p
      → AllOf IsAbove s
      → LastRound p mid c
      → LoopEnds fuel p [] s mid c
  LoopEnds-nil fuel p s mid c b a l =
      let e : length p + 0 ≡ length p = omega arith in
      rw (e, loop_done cmp fuel (p ++ s) v (length p) mid c) (Place-ends p s mid c b a l)

  step_lt :
      (fuel : ℕ) (p w : List ℤ) (x : ℤ) (r : List ℤ)
      → LoopEnds fuel p w (x ∷ r) (length (p ++ w)) (cmp v x)
      → Ensures
          (λ (i, c). Place cmp ((p ++ w) ++ x ∷ r) v i c)
          (bin_loop fuel cmp
            ((p ++ w) ++ x ∷ r)
            v
            (length p)
            (length (p ++ w))
            (length (p ++ w))
            (cmp v x))
  step_lt fuel p w x r h = rw (← append_assoc p w (x ∷ r), ← length-append p w) at h

  step_gt :
      (fuel : ℕ) (q : List ℤ) (x : ℤ) (w s : List ℤ) (high : ℕ)
      → length q + suc (length w) ≡ high
      → LoopEnds fuel (q ++ x ∷ []) w s (length q) (cmp v x)
      → Ensures
          (λ (i, c). Place cmp (q ++ x ∷ (w ++ s)) v i c)
          (bin_loop fuel cmp (q ++ x ∷ (w ++ s)) v (length q + 1) high (length q) (cmp v x))
  step_gt fuel q x w s high e h =
      let n : length (q ++ x ∷ []) ≡ length q + 1 = length-append q (x ∷ []) in
      let m : length q + 1 + length w ≡ high = omega arith in
      rw (append_assoc q (x ∷ []) (w ++ s), n, m) at h

  -- what the search does with `fuel`
  abbrev EndsWith : ℕ → Type 0
  EndsWith fuel =
      (p w s : List ℤ) (mid : ℕ) (c : ℤ)
      → length w ≤ fuel
      → IsAscending cmp w
      → AllOf IsBelow p
      → AllOf IsAbove s
      → (length w ≡ 0 → LastRound p mid c)
      → LoopEnds fuel p w s mid c

  loop_step :
      (fuel : ℕ) (p w : List ℤ) (x : ℤ) (w' s : List ℤ) (mid : ℕ) (c : ℤ)
      → EndsWith fuel
      → length (w ++ x ∷ w') ≤ suc fuel
      → (length p + (length p + length (w ++ x ∷ w')) - 1) / 2 ≡ length (p ++ w)
      → IsAscending cmp (w ++ x ∷ w')
      → AllOf IsBelow p
      → AllOf IsAbove s
      → LoopEnds (suc fuel) p (w ++ x ∷ w') s mid c
  loop_step fuel p w x w' s mid c ih f half h b a =
      let (aw, aw', l, r) = IsAscending-split cmp w x w' h in
      let whole : p ++ ((w ++ x ∷ w') ++ s) ≡ (p ++ w) ++ x ∷ (w' ++ s) = simp append_assoc in
      let n = length-append w (x ∷ w') in
      let q = length-append p w in
      let inside : length p < length p + length (w ++ x ∷ w') = omega arith in
      let high : length (p ++ w) + suc (length w') ≡ length p + length (w ++ x ∷ w') =
        omega arith in
      let top = length p + length (w ++ x ∷ w') in
      let all = (p ++ w) ++ x ∷ (w' ++ s) in
      let round =
        bin_loop-look cmp fuel all v (length p) top mid c inside
        ∙ ap (look cmp fuel all v (length p) top) half
        ∙ look_lem cmp fuel (p ++ w) x (w' ++ s) v (length p) top in
      rw (whole, round)
        (elim (order_case (sign (cmp v x))) [
          | is_eq e ↦ rw e (Place-found p w x w' s h b a e)
          | is_lt e ↦ rw e (
              step_lt fuel p w x (w' ++ s) (
                ih p w (x ∷ (w' ++ s)) (length (p ++ w)) (cmp v x) (omega arith) aw b
                  (
                    e,
                    AllOf-append IsAbove w' s
                        (AllOf-map (λ y. NotAfter cmp x y) IsAbove w'
                          (λ y. lt_of_lt-NotAfter cmp lawful v x y e) r)
                        a,
                  )
                  (λ z. inl (e, omega arith))))
          | is_gt e ↦ rw e (
              step_gt fuel (p ++ w) x w' s (length p + length (w ++ x ∷ w')) high (
                ih ((p ++ w) ++ x ∷ []) w' s (length (p ++ w)) (cmp v x) (omega arith) aw'
                  (AllOf-append IsBelow (p ++ w) (x ∷ [])
                    (AllOf-append IsBelow p w b (
                      AllOf-map (λ y. NotAfter cmp y x) IsBelow w
                        (λ y. gt_of_gt-NotAfter cmp lawful v x y e) l))
                    (e, tt))
                  a (λ z. inr (e, omega (arith, length-append (p ++ w) (x ∷ []))))))
        ])

  pub bin_loop_lem : (fuel : ℕ) → EndsWith fuel
  bin_loop_lem zero p [] s mid c f h b a l = LoopEnds-nil 0 p s mid c b a (l refl)
  bin_loop_lem zero p (x ∷ w) s mid c f h b a l = absurd (omega arith)
  bin_loop_lem (suc fuel) p [] s mid c f h b a l = LoopEnds-nil (suc fuel) p s mid c b a (l refl)
  bin_loop_lem (suc fuel) p (y ∷ w) s mid c f h b a l =
      let k = (length p + (length p + length (y ∷ w)) - 1) / 2 - length p in
      let (w₁, x, w₂, e, n) = split_at k (y ∷ w) (omega arith) in
      let half : (length p + (length p + length (w₁ ++ x ∷ w₂)) - 1) / 2 ≡ length (p ++ w₁) =
        rw (← e) (omega (arith, length-append p w₁)) in
      let size : length (w₁ ++ x ∷ w₂) ≤ suc fuel = rw (← e) f in
      let ends : LoopEnds (suc fuel) p (w₁ ++ x ∷ w₂) s mid c =
        loop_step fuel p w₁ x w₂ s mid c (bin_loop_lem fuel) size half
          (subst (λ t. IsAscending cmp t) e h) b a in
      subst (λ t. LoopEnds (suc fuel) p t s mid c) (sym e) ends

  -- The search in an array with elements returns, and tells where the value belongs.
  pub bin_search_lem :
      (a : List ℤ)
      → length a ≢ 0
      → IsAscending cmp a
      → Ensures (λ (i, c). Place cmp a v i c) (bin_search cmp a v)
  unfolding bin_search
  bin_search_lem a n h =
      let filled : (length a == 0) ≡ false = ground arith in
      let loop =
        bin_loop_lem (length a) [] a [] 0 (negsuc 1) (omega arith) h tt tt (λ z. absurd (n z)) in
      let e : 0 + length a ≡ length a = omega arith in rw filled (rw (append-nil a, e) at loop)
