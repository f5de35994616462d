-- ===== src/Db/Queue/Growth.antt =====
-- The keys that a queue holds, where it grows, and how it grows in many steps.
use mathlib.Core.Path.{subst}
use mathlib.Core.List.{append-nil, append_assoc}
use lorenzo_btcstaking_submi.Base.{
  ℕ, ◌≡◌, ◌≢◌, refl, sym, ◌∙◌, ap, inl, inr, true, List, [], ◌∷◌, ◌++◌, arith, some_of, Bool-cases,
  Each, Each-refl, Each-trans, Each-split,
}
use lorenzo_btcstaking_submi.Db.Types.{status_pending}
use lorenzo_btcstaking_submi.Db.Insertion.{Covers}
use lorenzo_btcstaking_submi.Db.Queue.{Columns, IsColumns, Aged, Grows, Ages}

module _ {Row Key : Type 0} {c : Columns Row Key} (law : IsColumns c)
    (Reason : Row → ℕ → Type 0) where
  Aged-key : (r after : Row) → Aged c Reason r after → c.key after ≡ c.key r
  Aged-key r after (inl e) = ap c.key e
  Aged-key r after (inr (n, was, e, why)) = ap c.key e ∙ law.keeps_key n r

  some_of-Aged :
      (t : Row) (rows kept added : List Row)
      → Each (Aged c Reason) rows kept
      → some_of (c.same t) rows ≡ true
      → some_of (c.same t) (kept ++ added) ≡ true
  some_of-Aged t [] kept added h e = cc
  some_of-Aged t (r ∷ rows) [] added h e = elim h [ ]
  some_of-Aged t (r ∷ rows) (k ∷ kept) added (aged, h) e =
      let kept_key = Aged-key r k aged in
      elim (Bool-cases (c.same t r)) [
        | inl here ↦ ground (arith, law.reads t r, law.reads t k)
        | inr later ↦
            ground
              (arith, law.reads t r, law.reads t k, some_of-Aged t rows kept added h (ground arith))
      ]

  pub Covers-Grows :
      (ts rows after : List Row)
      → Grows c Reason rows after
      → Covers c.same rows ts
      → Covers c.same after ts
  Covers-Grows [] rows after g h = tt
  Covers-Grows (t ∷ ts) rows after (kept, added, e, aged, pending) (a, h) = (
    rw e (some_of-Aged t rows kept added aged a),
    Covers-Grows ts rows after (kept, added, e, aged, pending) h,
  )

  module _ (final : (r : Row) (n : ℕ) → Reason r n → n ≢ status_pending) where
    Aged-trans : (x y z : Row) → Aged c Reason x y → Aged c Reason y z → Aged c Reason x z
    Aged-trans x y z (inl e) k = subst (λ t. Aged c Reason t z) e k
    Aged-trans x y z (inr (n, was, e, why)) (inl f) = inr (n, was, f ∙ e, why)
    Aged-trans x y z (inr (n, was, e, why)) (inr (n', was', f, why')) =
        absurd (final x n why (sym (ap c.status e ∙ law.sets_status n x) ∙ was'))

    pub Ages-refl : (rows : List Row) → Ages c Reason rows rows
    Ages-refl rows =
        (rows, [], sym (append-nil rows), Each-refl (Aged c Reason) rows (λ r. inl refl))

    pub Ages-Grows :
        (xs ys zs : List Row) → Ages c Reason xs ys → Grows c Reason ys zs → Ages c Reason xs zs
    Ages-Grows xs ys zs (kept, added, e, h) (kept', added', f, k, _) =
        let (front, back, g, hf, hb) =
          Each-split (Aged c Reason) kept added kept'
            (subst (λ l. Each (Aged c Reason) l kept') e k) in
        (
          front,
          back ++ added',
          f ∙ ap (λ l. l ++ added') g ∙ append_assoc front back added',
          Each-trans (Aged c Reason) xs kept front Aged-trans h hf,
        )

-- With more reasons.
module _ {Row Key : Type 0} (c : Columns Row Key) (Reason Wider : Row → ℕ → Type 0)
    (widen : (r : Row) (n : ℕ) → Reason r n → Wider r n) where
  Each-weaken :
      (rows kept : List Row) → Each (Aged c Reason) rows kept → Each (Aged c Wider) rows kept
  Each-weaken [] [] h = tt
  Each-weaken [] (k ∷ kept) h = elim h [ ]
  Each-weaken (r ∷ rows) [] h = elim h [ ]
  Each-weaken (r ∷ rows) (k ∷ kept) (inl e, h) = (inl e, Each-weaken rows kept h)
  Each-weaken (r ∷ rows) (k ∷ kept) (inr (n, was, e, why), h) =
      (inr (n, was, e, widen r n why), Each-weaken rows kept h)

  pub Ages-weaken : (rows after : List Row) → Ages c Reason rows after → Ages c Wider rows after
  Ages-weaken rows after (kept, added, e, h) = (kept, added, e, Each-weaken rows kept h)
