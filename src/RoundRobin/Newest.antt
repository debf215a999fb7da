-- ===== src/RoundRobin/Newest.antt =====
-- A queue that is filled by `put_roundrobin` holds the newest items.
use common_core.Base.{
  ℕ, zero, suc, ◌+◌, ◌-◌, ◌≤◌, ◌<◌, ◌≡◌, refl, sym, ap, ◌∙◌, inl, inr, Bool-cases, true, false,
  none, some, List, [], ◌∷◌, ◌++◌, length, drop, length-drop, length-append, leb, leb→le, arith,
}
use mathlib.Core.List.{append-nil, append_assoc}
use common_core.RoundRobin.{
  Queue, empty_queue, is_full, put_nowait, get_nowait, put_loop, put_roundrobin, put_each,
}

not_leb : (a b : ℕ) → leb a b ≡ false → b < a
not_leb a b h = ground (arith, h)

counts : (l n m k : ℕ) → m ≡ l - (l - n) → k ≡ l + 1 → l - n + (m + 1 - n) ≡ k - n
counts l n m k e f = omega (arith, e, f)

module _ {A : Type 0} where
  -- The last `n` items.
  abbrev pub newest : ℕ → List A → List A
  newest n items = drop (length items - n) items

  abbrev pub holding : ℕ → List A → Queue A
  holding n items = record { maxsize = n; items = items }

  full : (n : ℕ) (items : List A) → 0 < n → n ≤ length items → is_full (holding n items) ≡ true
  unfolding is_full
  full n items h f = ground (arith, h, f)

  roomy : (n : ℕ) (items : List A) → length items < n → is_full (holding n items) ≡ false
  unfolding is_full
  roomy n items f = ground (arith, f)

  roomy_unlimited : (items : List A) → is_full (holding 0 items) ≡ false
  unfolding is_full
  roomy_unlimited items = refl

  put_loop-full :
      (fuel : ℕ) (x : A) (q : Queue A)
      → is_full q ≡ true
      → put_loop (suc fuel) x q ≡ put_loop fuel x (get_nowait q)
  unfolding put_loop put_nowait
  put_loop-full fuel x q h = rw (put_loop, put_nowait, h) refl

  put_loop-roomy :
      (fuel : ℕ) (x : A) (q : Queue A)
      → is_full q ≡ false
      → put_loop (suc fuel) x q ≡ some (record q { items = q.items ++ x ∷ [] })
  unfolding put_loop put_nowait
  put_loop-roomy fuel x q h = rw (put_loop, put_nowait, h) refl

  -- Nothing is dropped while there is room.
  drop_none : (k : ℕ) (items : List A) → k ≡ 0 → drop k items ≡ items
  drop_none k items e = ap (λ j. drop j items) e

  drop_one : (k j : ℕ) (y : A) (items : List A) → k ≡ suc j → drop k (y ∷ items) ≡ drop j items
  drop_one k j y items e = ap (λ i. drop i (y ∷ items)) e

  put_loop_lem :
      (n fuel : ℕ) (items : List A) (x : A)
      → 0 < n
      → length items < fuel
      → put_loop fuel x (holding n items)
        ≡ some (holding n (drop (length items + 1 - n) (items ++ x ∷ [])))
  put_loop_lem n zero items x h f = absurd (omega (arith, f))
  put_loop_lem n (suc fuel) [] x h f =
      put_loop-roomy fuel x (holding n []) (roomy n [] h)
      ∙ ap (λ l. some (holding n l)) (sym (drop_none (0 + 1 - n) (x ∷ []) (omega (arith, h))))
  put_loop_lem n (suc fuel) (y ∷ items) x h f = elim (Bool-cases (leb n (suc (length items)))) [
    | inl t ↦
        put_loop-full fuel x (holding n (y ∷ items)) (full n (y ∷ items) h (leb→le n _ t))
        ∙ put_loop_lem n fuel items x h (omega (arith, f))
        ∙ ap (λ l. some (holding n l))
            (sym (
              drop_one (suc (length items) + 1 - n) (length items + 1 - n) y (items ++ x ∷ [])
                (omega (arith, leb→le n _ t))))
    | inr r ↦
        put_loop-roomy fuel x (holding n (y ∷ items)) (roomy n (y ∷ items) (not_leb n _ r))
        ∙ ap (λ l. some (holding n l))
            (sym (
              drop_none (suc (length items) + 1 - n) (y ∷ items ++ x ∷ [])
                (omega (arith, not_leb n (suc (length items)) r))))
  ]

  drop-append :
      (k : ℕ) (items : List A) (x : A)
      → k ≤ length items
      → drop k items ++ x ∷ [] ≡ drop k (items ++ x ∷ [])
  drop-append zero items x h = refl
  drop-append (suc k) [] x h = absurd (omega (arith, h))
  drop-append (suc k) (y ∷ items) x h = drop-append k items x (omega (arith, h))

  drop_nil : (k : ℕ) → drop {A = A} k [] ≡ []
  drop_nil zero = refl
  drop_nil (suc k) = refl

  drop-drop : (j k : ℕ) (items : List A) → drop j (drop k items) ≡ drop (k + j) items
  drop-drop j zero items = ap (λ i. drop i items) (omega arith)
  drop-drop j (suc k) [] = drop_nil j ∙ sym (drop_nil (suc k + j))
  drop-drop j (suc k) (y ∷ items) =
      drop-drop j k items ∙ sym (drop_one (suc k + j) (k + j) y items (omega arith))

  -- After another item, the newest are the newest of the newest with it.
  newest_again :
      (n : ℕ) (items : List A) (x : A)
      → 0 < n
      → drop (length (newest n items) + 1 - n) (newest n items ++ x ∷ [])
        ≡ newest n (items ++ x ∷ [])
  newest_again n items x h =
      ap (drop (length (newest n items) + 1 - n))
        (drop-append (length items - n) items x (omega arith))
      ∙ drop-drop (length (newest n items) + 1 - n) (length items - n) (items ++ x ∷ [])
      ∙ ap (λ i. drop i (items ++ x ∷ []))
          (counts (length items) n _ _ (length-drop (length items - n) items)
            (length-append items (x ∷ [])))

  put_each_lem :
      (n : ℕ) (before items : List A)
      → 0 < n
      → put_each items (holding n (newest n before)) ≡ some (holding n (newest n (before ++ items)))
  unfolding put_each put_roundrobin
  put_each_lem n before [] h = ap (λ l. some (holding n (newest n l))) (sym (append-nil before))
  put_each_lem n before (x ∷ items) h =
      let held = newest n before in
      let added =
        put_loop_lem n (suc (length held)) held x h (omega arith)
        ∙ ap (λ l. some (holding n l)) (newest_again n before x h) in
      ap (λ o. elim o [ none ↦ none | some p ↦ put_each items p ]) added
      ∙ put_each_lem n (before ++ x ∷ []) items h
      ∙ ap (λ l. some (holding n (newest n l))) (append_assoc before (x ∷ []) items)

  -- Whatever items are put into an empty queue with a size limit, the loop ends each time within
  -- its fuel, and the queue then holds the newest of them, as many as it may, in their order.
  pub put_each-newest :
      (n : ℕ) (items : List A)
      → 0 < n
      → put_each items (empty_queue n) ≡ some (holding n (newest n items))
  put_each-newest n items h =
      ap (λ l. put_each items (holding n l)) (sym (drop_none (0 - n) [] (omega arith)))
      ∙ put_each_lem n [] items h

  put_roundrobin-unlimited :
      (items : List A) (x : A)
      → put_roundrobin x (holding 0 items) ≡ some (holding 0 (items ++ x ∷ []))
  unfolding put_roundrobin
  put_roundrobin-unlimited items x =
      put_loop-roomy (length items) x (holding 0 items) (roomy_unlimited items)

  -- Putting an item in discards some of the oldest.
  pub put_roundrobin-drops :
      (n : ℕ) (items : List A) (x : A)
      → (k : ℕ) × (put_roundrobin x (holding n items) ≡ some (holding n (drop k (items ++ x ∷ []))))
  unfolding put_roundrobin
  put_roundrobin-drops zero items x = (0, put_roundrobin-unlimited items x)
  put_roundrobin-drops (suc n) items x = (
    length items + 1 - suc n,
    put_loop_lem (suc n) (suc (length items)) items x (omega arith) (omega arith),
  )
