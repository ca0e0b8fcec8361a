-- ===== src/Prelude/Parts.antt =====
-- The first elements of a list and the rest, by native numbers.
use mathlib.Core.Path.{◌≡◌, refl, ap, ◌∙◌}
use mathlib.Core.List.{List, [], ◌∷◌, ◌++◌}
use Prim.Native.Nat.{ℕ, zero, suc, ◌+◌, ◌≤◌, ◌<◌}
use native.Mathlib.Omega.{arith}
use smalltalk_a_vm.Prelude.Lists.{length, get_or}

-- The first `k` elements.
abbrev pub take {ℓ} : {A : Type ℓ} → ℕ → List A → List A
take zero xs = []
take (suc k) [] = []
take (suc k) (x ∷ xs) = x ∷ take k xs

-- All but the first `k` elements.
abbrev pub drop {ℓ} : {A : Type ℓ} → ℕ → List A → List A
drop zero xs = xs
drop (suc k) [] = []
drop (suc k) (x ∷ xs) = drop k xs

drop-suc : (xs : List ℕ) (k : ℕ) → k < length xs → drop k xs ≡ get_or xs k 0 ∷ drop (suc k) xs
drop-suc [] k h = absurd (omega arith)
drop-suc (x ∷ xs) zero h = refl
drop-suc (x ∷ xs) (suc k) h = drop-suc xs k (omega arith)

pub drop_next : (xs : List ℕ) (k : ℕ) → k < length xs → drop k xs ≡ get_or xs k 0 ∷ drop (k + 1) xs
drop_next xs k h =
    let e : suc k ≡ k + 1 = omega arith in drop-suc xs k h ∙ ap (λ j. get_or xs k 0 ∷ drop j xs) e

pub drop_all : (xs : List ℕ) → drop (length xs) xs ≡ []
drop_all [] = refl
drop_all (x ∷ xs) = drop_all xs

pub take-drop : (k : ℕ) (xs : List ℕ) → take k xs ++ drop k xs ≡ xs
take-drop zero xs = refl
take-drop (suc k) [] = refl
take-drop (suc k) (x ∷ xs) = ap (λ l. x ∷ l) (take-drop k xs)

pub take_all : (xs : List ℕ) → take (length xs) xs ≡ xs
take_all [] = refl
take_all (x ∷ xs) = ap (λ l. x ∷ l) (take_all xs)

pub take_next :
    (xs : List ℕ) (k : ℕ) → k < length xs → take (suc k) xs ≡ take k xs ++ get_or xs k 0 ∷ []
take_next [] k h = absurd (omega arith)
take_next (x ∷ xs) zero h = refl
take_next (x ∷ xs) (suc k) h = ap (λ l. x ∷ l) (take_next xs k (omega arith))

pub get_or-append_old :
    (xs : List ℕ) (x k : ℕ) → k < length xs → get_or (xs ++ x ∷ []) k 0 ≡ get_or xs k 0
get_or-append_old [] x k h = absurd (omega arith)
get_or-append_old (y ∷ xs) x zero h = refl
get_or-append_old (y ∷ xs) x (suc k) h = get_or-append_old xs x k (omega arith)

pub get_or-append_new : (xs : List ℕ) (x : ℕ) → get_or (xs ++ x ∷ []) (length xs) 0 ≡ x
get_or-append_new [] x = refl
get_or-append_new (y ∷ xs) x = get_or-append_new xs x

pub take-append : (xs ys : List ℕ) (k : ℕ) → k ≤ length xs → take k (xs ++ ys) ≡ take k xs
take-append xs ys zero h = refl
take-append [] ys (suc k) h = absurd (omega arith)
take-append (x ∷ xs) ys (suc k) h = ap (λ l. x ∷ l) (take-append xs ys k (omega arith))
