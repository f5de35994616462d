-- ===== src/Base/Lists.antt =====
-- Lists measured by native numbers, Boolean filters, and predicates on all members.
use Prim.Native.Nat.{ℕ, zero, suc, ◌+◌, ◌≤◌}
use mathlib.Core.Path.{◌≡◌, refl, ap}
use mathlib.Core.Bool.{Bool, true, false, ◌&&◌}
use mathlib.Core.List.{List, [], ◌∷◌, ◌++◌}
use native.Mathlib.Omega.{arith}
use lorenzo_btcstaking_submi.Base.Tests.{◌==◌, if◌then◌else◌}

module _ {ℓ} {A : Type ℓ} where
  abbrev pub length : List A → ℕ
  length [] = 0
  length (x ∷ xs) = suc (length xs)

  abbrev pub take : ℕ → List A → List A
  take zero xs = []
  take (suc n) [] = []
  take (suc n) (x ∷ xs) = x ∷ take n xs

  abbrev pub drop : ℕ → List A → List A
  drop zero xs = xs
  drop (suc n) [] = []
  drop (suc n) (x ∷ xs) = drop n xs

  -- The members that pass a test, in their order.
  abbrev pub keep : (A → Bool) → List A → List A
  keep p [] = []
  keep p (x ∷ xs) = if p x then x ∷ keep p xs else keep p xs

  -- Some member passes the test.
  abbrev pub some_of : (A → Bool) → List A → Bool
  some_of p [] = false
  some_of p (x ∷ xs) = if p x then true else some_of p xs

  pub length-append : (xs ys : List A) → length (xs ++ ys) ≡ length xs + length ys
  length-append [] ys = omega arith
  length-append (x ∷ xs) ys = omega (arith, length-append xs ys)

  pub length-take-le : (n : ℕ) (xs : List A) → length (take n xs) ≤ n
  length-take-le zero xs = omega arith
  length-take-le (suc n) [] = omega arith
  length-take-le (suc n) (x ∷ xs) = omega (arith, length-take-le n xs)

  pub some_of-append :
      (p : A → Bool) (xs ys : List A)
      → some_of p (xs ++ ys) ≡ (if some_of p xs then true else some_of p ys)
  some_of-append p [] ys = refl
  some_of-append p (x ∷ xs) ys = ground (arith, some_of-append p xs ys)

module _ {ℓ κ} {A : Type ℓ} where
  -- Every member has the property.
  abbrev pub All : (A → Type κ) → List A → Type κ
  All P [] = Unit
  All P (x ∷ xs) = P x × All P xs

  pub All-append : (P : A → Type κ) (xs ys : List A) → All P xs → All P ys → All P (xs ++ ys)
  All-append P [] ys hx hy = hy
  All-append P (x ∷ xs) ys hx hy = (hx.0, All-append P xs ys hx.1 hy)

  pub All-take : (P : A → Type κ) (n : ℕ) (xs : List A) → All P xs → All P (take n xs)
  All-take P zero xs h = tt
  All-take P (suc n) [] h = tt
  All-take P (suc n) (x ∷ xs) h = (h.0, All-take P n xs h.1)

  -- Some member has the property: the member's place is part of the evidence.
  pub data Has (P : A → Type κ) : List A → Type (ℓ ⊔ κ) where
    here : {x : A} {xs : List A} → P x → Has P (x ∷ xs)
    there : {x : A} {xs : List A} → Has P xs → Has P (x ∷ xs)

  pub Has-append_left : {P : A → Type κ} (xs ys : List A) → Has P xs → Has P (xs ++ ys)
  Has-append_left [] ys h = elim h [ ]
  Has-append_left (x ∷ xs) ys (here h) = here h
  Has-append_left (x ∷ xs) ys (there h) = there (Has-append_left xs ys h)

  pub Has-append_right : {P : A → Type κ} (xs ys : List A) → Has P ys → Has P (xs ++ ys)
  Has-append_right [] ys h = h
  Has-append_right (x ∷ xs) ys h = there (Has-append_right xs ys h)

-- Two lists of one length, related member by member.
abbrev pub Each {ℓ κ} : {A : Type ℓ} {B : Type κ} → (A → B → Type 0) → List A → List B → Type 0
Each R [] [] = Unit
Each R (x ∷ xs) (y ∷ ys) = R x y × Each R xs ys
Each R _ _ = ⊥

pub Each-refl {ℓ} :
    {A : Type ℓ} (R : A → A → Type 0) (xs : List A) → ((x : A) → R x x) → Each R xs xs
Each-refl R [] h = tt
Each-refl R (x ∷ xs) h = (h x, Each-refl R xs h)

pub Each-map {ℓ κ} :
    {A : Type ℓ} {B : Type κ} (R S : A → B → Type 0) (xs : List A) (ys : List B)
    → ((x : A) (y : B) → R x y → S x y)
    → Each R xs ys
    → Each S xs ys
Each-map R S [] [] f h = tt
Each-map R S [] (y ∷ ys) f h = elim h [ ]
Each-map R S (x ∷ xs) [] f h = elim h [ ]
Each-map R S (x ∷ xs) (y ∷ ys) f (a, h) = (f x y a, Each-map R S xs ys f h)

pub Each-trans {ℓ} :
    {A : Type ℓ} (R : A → A → Type 0) (xs ys zs : List A)
    → ((x y z : A) → R x y → R y z → R x z)
    → Each R xs ys
    → Each R ys zs
    → Each R xs zs
Each-trans R [] [] [] t h k = tt
Each-trans R [] [] (z ∷ zs) t h k = elim k [ ]
Each-trans R [] (y ∷ ys) zs t h k = elim h [ ]
Each-trans R (x ∷ xs) [] zs t h k = elim h [ ]
Each-trans R (x ∷ xs) (y ∷ ys) [] t h k = elim k [ ]
Each-trans R (x ∷ xs) (y ∷ ys) (z ∷ zs) t (a, h) (b, k) = (t x y z a b, Each-trans R xs ys zs t h k)

-- A list related to one in two parts is in two parts.
pub Each-split {ℓ} :
    {A : Type ℓ} (R : A → A → Type 0) (xs more zs : List A)
    → Each R (xs ++ more) zs
    → (ys rest : List A) × (zs ≡ ys ++ rest) × Each R xs ys × Each R more rest
Each-split R [] more zs h = ([], zs, refl, tt, h)
Each-split R (x ∷ xs) more [] h = elim h [ ]
Each-split R (x ∷ xs) more (z ∷ zs) (a, h) =
    let (ys, rest, e, front, back) = Each-split R xs more zs h in
    (z ∷ ys, rest, ap (◌∷◌ z) e, (a, front), back)

-- Byte strings.
abbrev pub Bytes : Type 0
Bytes = List ℕ

-- `bytes.Equal`
unfoldable pub bytes_eq : Bytes → Bytes → Bool
bytes_eq [] [] = true
bytes_eq (x ∷ xs) (y ∷ ys) = x == y && bytes_eq xs ys
bytes_eq _ _ = false
