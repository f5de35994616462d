-- ===== src/Base/Members.antt =====
-- Members of filtered and of reordered lists, with the library's `Mem` and `Perm`.
use mathlib.Core.Path.{◌≡◌, refl, sym, ap, ◌∙◌, subst}
use mathlib.Core.Bool.{Bool, true, Bool-set}
use mathlib.Core.Logic.Or
use mathlib.Core.Logic.{inl, inr}
use mathlib.Core.List.{
  List, [], ◌∷◌, Mem, Perm, Mem-prop, mem-cons, not-mem-nil, mem-cons_self, mem-cons_of_mem,
}
use mathlib.Core.List.Perm
use Prim.Native.Nat.{ℕ, zero, suc, ◌<◌}
use native.Mathlib.Omega.{arith}
use lorenzo_btcstaking_submi.Base.Tests.{Bool-cases}
use lorenzo_btcstaking_submi.Base.Lists.{All, keep, length, take}

module _ {ℓ} {A : Type ℓ} where
  pub All-of_mem {κ} : (P : A → Type κ) (xs : List A) → ((x : A) → Mem x xs → P x) → All P xs
  All-of_mem P [] h = tt
  All-of_mem P (x ∷ xs) h = (h x mem-cons_self, All-of_mem P xs (λ y m. h y (mem-cons_of_mem _ m)))

  mem_of_mem-keep : {x : A} (p : A → Bool) (xs : List A) → Mem x (keep p xs) → Mem x xs
  mem_of_mem-keep p [] m = m
  mem_of_mem-keep p (y ∷ xs) m = elim (Bool-cases (p y)) [
    | inl passes ↦
        Or.elim Mem-prop (mem-cons.0 (rw passes at m)) (λ e. rw e mem-cons_self)
          (λ m'. mem-cons_of_mem _ (mem_of_mem-keep p xs m'))
    | inr fails ↦ mem-cons_of_mem _ (mem_of_mem-keep p xs (rw fails at m))
  ]

  test_of_mem-keep : {x : A} (p : A → Bool) (xs : List A) → Mem x (keep p xs) → p x ≡ true
  test_of_mem-keep p [] m = absurd (not-mem-nil m)
  test_of_mem-keep p (y ∷ xs) m = elim (Bool-cases (p y)) [
    | inl passes ↦
        Or.elim (Bool-set _ _) (mem-cons.0 (rw passes at m)) (λ e. ap p e ∙ passes)
          (test_of_mem-keep p xs)
    | inr fails ↦ test_of_mem-keep p xs (rw fails at m)
  ]

  -- A reordering of a filtered list holds members of the list that pass the test.
  pub Perm-keep :
      (p : A → Bool) (xs ys : List A) → Perm ys (keep p xs) → All (λ x. Mem x xs × (p x ≡ true)) ys
  Perm-keep p xs ys same =
      All-of_mem _ ys λ x m.
        let m' = (Perm.mem_iff same).0 m in (mem_of_mem-keep p xs m', test_of_mem-keep p xs m')

  pub take_of_length-lt : (n : ℕ) (xs : List A) → length (take n xs) < n → take n xs ≡ xs
  take_of_length-lt zero xs h = elim h [ ]
  take_of_length-lt (suc n) [] h = refl
  take_of_length-lt (suc n) (x ∷ xs) h = ap (◌∷◌ x) (take_of_length-lt n xs (omega arith))

-- What holds of all members holds of each, where members can be told apart.
pub All-Mem {ℓ κ} :
    {A : Type ℓ} → Discrete A → (P : A → Type κ) (x : A) (xs : List A) → All P xs → Mem x xs → P x
All-Mem discrete P x [] all m = absurd (not-mem-nil m)
All-Mem discrete P x (y ∷ xs) (first, all) m = elim (discrete x y) [
  | yes same ↦ subst P (sym same) first
  | no other ↦
      All-Mem discrete P x xs all
        (Or.elim Mem-prop (mem-cons.0 m) (λ e. absurd (other e)) (λ later. later))
]
