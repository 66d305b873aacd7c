-- ===== src/Base/Lists.antt =====
-- Lists measured and indexed by native numbers, under the library's names.
use Prim.Native.Nat.{ℕ, zero, suc, ◌+◌, ◌-◌, ◌<◌, ◌≤◌}
use mathlib.Core.Path.{◌≡◌, refl, sym, ap, ◌∙◌}
use mathlib.Core.Logic.{◌≢◌}
use mathlib.Core.List.{List, [], ◌∷◌, ◌++◌}
use mathlib.Core.Option.{Option, none, some}
use native.Mathlib.Omega.{arith}

module _ {ℓ} {A : Type ℓ} where
  abbrev pub length : List A → ℕ
  length [] = 0
  length (x ∷ xs) = suc (length xs)

  abbrev pub get_elem? : List A → ℕ → Option A
  get_elem? [] i = none
  get_elem? (x ∷ xs) zero = some x
  get_elem? (x ∷ xs) (suc i) = get_elem? xs i

  -- A write out of bounds changes nothing.
  abbrev pub set : List A → ℕ → A → List A
  set [] i v = []
  set (x ∷ xs) zero v = v ∷ xs
  set (x ∷ xs) (suc i) v = x ∷ set xs i v

  pub length-append : (xs ys : List A) → length (xs ++ ys) ≡ length xs + length ys
  length-append [] ys = omega arith
  length-append (x ∷ xs) ys = omega (arith, length-append xs ys)

  pub length-set : (xs : List A) (i : ℕ) (v : A) → length (set xs i v) ≡ length xs
  length-set [] i v = refl
  length-set (x ∷ xs) zero v = refl
  length-set (x ∷ xs) (suc i) v = ap suc (length-set xs i v)

  pub get_elem?-set_self :
      (xs : List A) (i : ℕ) (v : A) → i < length xs → get_elem? (set xs i v) i ≡ some v
  get_elem?-set_self [] i v h = elim h [ ]
  get_elem?-set_self (x ∷ xs) zero v h = refl
  get_elem?-set_self (x ∷ xs) (suc i) v h = get_elem?-set_self xs i v (omega arith)

  pub get_elem?-lt : (xs : List A) (i : ℕ) (x : A) → get_elem? xs i ≡ some x → i < length xs
  get_elem?-lt [] i x e = cc
  get_elem?-lt (y ∷ ys) zero x e = omega arith
  get_elem?-lt (y ∷ ys) (suc i) x e = omega (arith, get_elem?-lt ys i x e)

  pub get_elem?-set_ne :
      (xs : List A) (i j : ℕ) (v : A) → i ≢ j → get_elem? (set xs i v) j ≡ get_elem? xs j
  get_elem?-set_ne [] i j v h = refl
  get_elem?-set_ne (x ∷ xs) zero zero v h = absurd (h refl)
  get_elem?-set_ne (x ∷ xs) zero (suc j) v h = refl
  get_elem?-set_ne (x ∷ xs) (suc i) zero v h = refl
  get_elem?-set_ne (x ∷ xs) (suc i) (suc j) v h = get_elem?-set_ne xs i j v (λ e. h (ap suc e))

  abbrev pub take : ℕ → List A → List A
  take zero xs = []
  take (suc n) [] = []
  take (suc n) (x ∷ xs) = x ∷ take n xs

  abbrev pub drop : ℕ → List A → List A
  drop zero xs = xs
  drop (suc n) [] = []
  drop (suc n) (x ∷ xs) = drop n xs

  pub take-append : (xs ys : List A) → take (length xs) (xs ++ ys) ≡ xs
  take-append [] ys = refl
  take-append (x ∷ xs) ys = ap (λ l. x ∷ l) (take-append xs ys)

  pub drop-append : (xs ys : List A) → drop (length xs) (xs ++ ys) ≡ ys
  drop-append [] ys = refl
  drop-append (x ∷ xs) ys = drop-append xs ys

  pub length-take-le : (n : ℕ) (xs : List A) → length (take n xs) ≤ n
  length-take-le zero xs = omega arith
  length-take-le (suc n) [] = omega arith
  length-take-le (suc n) (x ∷ xs) = omega (arith, length-take-le n xs)

  pub length-drop : (n : ℕ) (xs : List A) → length (drop n xs) ≡ length xs - n
  length-drop zero xs = omega arith
  length-drop (suc n) [] = omega arith
  length-drop (suc n) (x ∷ xs) = omega (arith, length-drop n xs)

  pub length-take : (n : ℕ) (xs : List A) → n ≤ length xs → length (take n xs) ≡ n
  length-take zero xs h = refl
  length-take (suc n) [] h = elim h [ ]
  length-take (suc n) (x ∷ xs) h = omega (arith, length-take n xs)

  pub length-take-le-length : (n : ℕ) (xs : List A) → length (take n xs) ≤ length xs
  length-take-le-length zero xs = omega arith
  length-take-le-length (suc n) [] = omega arith
  length-take-le-length (suc n) (x ∷ xs) = omega (arith, length-take-le-length n xs)

  pub take_at : (n : ℕ) (xs ys : List A) → length xs ≡ n → take n (xs ++ ys) ≡ xs
  take_at n xs ys e = ap (λ k. take k (xs ++ ys)) (sym e) ∙ take-append xs ys

  pub drop_at : (n : ℕ) (xs ys : List A) → length xs ≡ n → drop n (xs ++ ys) ≡ ys
  drop_at n xs ys e = ap (λ k. drop k (xs ++ ys)) (sym e) ∙ drop-append xs ys

  drop_nil : (n : ℕ) → drop n [] ≡ []
  drop_nil zero = refl
  drop_nil (suc n) = refl

  pub drop-drop : (m n k : ℕ) (xs : List A) → m + n ≡ k → drop k xs ≡ drop n (drop m xs)
  drop-drop zero n k xs e = ap (λ i. drop i xs) (omega arith)
  drop-drop (suc m) n k [] e = drop_nil k ∙ sym (drop_nil n)
  drop-drop (suc m) n zero (x ∷ xs) e = absurd (omega arith)
  drop-drop (suc m) n (suc k) (x ∷ xs) e = drop-drop m n k xs (omega arith)

-- `P` holds of every element.
abbrev pub Each {ℓ} : {A : Type ℓ} → (A → Type 0) → List A → Type 0
Each P [] = Unit {0}
Each P (x ∷ xs) = P x × Each P xs

pub map-Each {ℓ} :
    {A : Type ℓ} {P Q : A → Type 0} (xs : List A) → ((x : A) → P x → Q x) → Each P xs → Each Q xs
map-Each [] f h = tt
map-Each (x ∷ xs) f h = (f x h.0, map-Each xs f h.1)

pub zip-Each {ℓ} :
    {A : Type ℓ} {P Q R : A → Type 0} (xs : List A)
    → ((x : A) → P x → Q x → R x)
    → Each P xs
    → Each Q xs
    → Each R xs
zip-Each [] f h k = tt
zip-Each (x ∷ xs) f h k = (f x h.0 k.0, zip-Each xs f h.1 k.1)

-- No element stands twice in the list.
abbrev pub Distinct : List ℕ → Type 0
Distinct [] = Unit {0}
Distinct (p ∷ ps) = Each (λ q. q ≢ p) ps × Distinct ps
