-- ===== src/Sqlite/Graphs/Ordering.antt =====
-- `ORDER BY` in src/ttasks/_sqlite.py, for rows of which some stand in their order already.
use ttasks.Common.{
  ◌≡◌, refl, ap, subst, Bool, true, false, ◌&&◌, List, [], ◌∷◌, all, keep, arith, Bool-cases, inl,
  inr, ◌∙◌,
}
use ttasks.Sqlite.Tasks.{put_in_order, order_by}

module _ {R : Type 0} (precedes : R → R → Bool) where
  -- Each of these rows comes before all that follow.
  abbrev pub InOrder : List R → Type 0
  InOrder [] = Unit {0}
  InOrder (x ∷ rows) = (all (precedes x) rows ≡ true) × InOrder rows

  put_in_order-first :
      (x : R) (rows : List R)
      → all (precedes x) rows ≡ true
      → put_in_order precedes x rows ≡ x ∷ rows
  unfolding put_in_order
  put_in_order-first x [] h = refl
  put_in_order-first x (y ∷ rows) h = ground arith

  -- Rows in order are left as they are.
  pub order_by-InOrder : (rows : List R) → InOrder rows → order_by precedes rows ≡ rows
  unfolding order_by
  order_by-InOrder [] h = refl
  order_by-InOrder (x ∷ rows) h =
      ap (put_in_order precedes x) (order_by-InOrder rows h.1) ∙ put_in_order-first x rows h.0

  module _ (p : R → Bool) where
    keep-put_other :
        (x : R) (rows : List R) → p x ≡ false → keep p (put_in_order precedes x rows) ≡ keep p rows
    unfolding put_in_order
    keep-put_other x [] h = ground arith
    keep-put_other x (y ∷ rows) h = ground (arith, keep-put_other x rows)

    keep-put_first :
        (x : R) (rows : List R)
        → p x ≡ true
        → all (precedes x) (keep p rows) ≡ true
        → keep p (put_in_order precedes x rows) ≡ x ∷ keep p rows
    unfolding put_in_order
    keep-put_first x [] h first = ground arith
    keep-put_first x (y ∷ rows) h first = ground (arith, keep-put_first x rows)

    kept_first : (x : R) (rows : List R) → p x ≡ true → keep p (x ∷ rows) ≡ x ∷ keep p rows
    kept_first x rows h = rw h refl

    skip : (x : R) (rows : List R) → p x ≡ false → keep p (x ∷ rows) ≡ keep p rows
    skip x rows h = rw h refl

    split :
        (x : R) (rows : List R)
        → p x ≡ true
        → InOrder (keep p (x ∷ rows))
        → (all (precedes x) (keep p rows) ≡ true) × InOrder (keep p rows)
    split x rows h ordered = subst InOrder (kept_first x rows h) ordered

    -- Rows that pass a test and are in order among themselves keep their order.
    pub keep-order_by :
        (rows : List R) → InOrder (keep p rows) → keep p (order_by precedes rows) ≡ keep p rows
    unfolding order_by
    keep-order_by [] h = refl
    keep-order_by (x ∷ rows) h = elim (Bool-cases (p x)) [
      | inl kept ↦
          let ordered = split x rows kept h in
          let same_rows = keep-order_by rows ordered.1 in
          rw kept (
            keep-put_first x (order_by precedes rows) kept (rw same_rows ordered.0)
            ∙ ap (λ l. x ∷ l) same_rows)
      | inr dropped ↦ rw dropped (
          keep-put_other x (order_by precedes rows) dropped
          ∙ keep-order_by rows (subst InOrder (skip x rows dropped) h))
    ]

  all-put_in_order :
      (q : R → Bool) (x : R) (rows : List R)
      → all q (put_in_order precedes x rows) ≡ (q x && all q rows)
  unfolding put_in_order
  all-put_in_order q x [] = refl
  all-put_in_order q x (y ∷ rows) = ground (arith, all-put_in_order q x rows)

  pub all-order_by : (q : R → Bool) (rows : List R) → all q (order_by precedes rows) ≡ all q rows
  unfolding order_by
  all-order_by q [] = refl
  all-order_by q (x ∷ rows) =
      all-put_in_order q x (order_by precedes rows) ∙ ap (λ b. q x && b) (all-order_by q rows)
