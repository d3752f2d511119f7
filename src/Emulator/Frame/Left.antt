-- ===== src/Emulator/Frame/Left.antt =====
-- What is left of a list, in its order.
use angry_balls.Base.{List, [], ◌∷◌, Bool, Bool-cases, inl, inr}
use angry_balls.Emulator.Coins.Split.{keep}

-- `xs` is what is left of `ys`, in its order.
pub data IsLeft {ℓ} {A : Type ℓ} : List A → List A → Type ℓ where
  nothing : IsLeft [] []
  kept : (a : A) {xs ys : List A} → IsLeft xs ys → IsLeft (a ∷ xs) (a ∷ ys)
  gone : (a : A) {xs ys : List A} → IsLeft xs ys → IsLeft xs (a ∷ ys)

pub IsLeft-refl {ℓ} : {A : Type ℓ} (xs : List A) → IsLeft xs xs
IsLeft-refl [] = nothing
IsLeft-refl (x ∷ xs) = kept x (IsLeft-refl xs)

pub IsLeft-trans {ℓ} : {A : Type ℓ} {xs ys zs : List A} → IsLeft xs ys → IsLeft ys zs → IsLeft xs zs
IsLeft-trans h nothing = h
IsLeft-trans (kept a h) (kept b k) = kept a (IsLeft-trans h k)
IsLeft-trans (gone a h) (kept b k) = gone b (IsLeft-trans h k)
IsLeft-trans h (gone b k) = gone b (IsLeft-trans h k)

pub IsLeft-keep {ℓ} : {A : Type ℓ} (test : A → Bool) (xs : List A) → IsLeft (keep test xs) xs
IsLeft-keep test [] = nothing
IsLeft-keep test (x ∷ xs) = elim (Bool-cases (test x)) [
  | inl t ↦ rw t (kept x (IsLeft-keep test xs))
  | inr t ↦ rw t (gone x (IsLeft-keep test xs))
]
