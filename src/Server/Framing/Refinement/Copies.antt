-- ===== src/Server/Framing/Refinement/Copies.antt =====
-- `std::copy` into the buffer.
use angry_balls.Base.{
  ℕ, zero, suc, ◌+◌, ◌≤◌, [], ◌∷◌, ◌++◌, length, length-append, length-take, length-drop, take,
  drop, ◌≡◌, refl, ap, arith,
}
use angry_balls.Bytes.{Bytes}
use angry_balls.Server.Framing.{copy_at}

pub length-copy_at :
    (buffer : Bytes) (offset : ℕ) (portion : Bytes)
    → offset + length portion ≤ length buffer
    → length (copy_at buffer offset portion) ≡ length buffer
length-copy_at buffer offset portion h = omega (
  arith,
  length-append (take offset buffer) (portion ++ drop (offset + length portion) buffer),
  length-append portion (drop (offset + length portion) buffer),
  length-take offset buffer,
  length-drop (offset + length portion) buffer,
)

take-split :
    (xs ys zs : Bytes) (n : ℕ) → n ≡ length xs + length ys → take n (xs ++ (ys ++ zs)) ≡ xs ++ ys
take-split [] [] zs zero h = refl
take-split [] [] zs (suc n) h = absurd (omega arith)
take-split [] (y ∷ ys) zs zero h = absurd (omega arith)
take-split [] (y ∷ ys) zs (suc n) h = ap (◌∷◌ y) (take-split [] ys zs n (omega arith))
take-split (x ∷ xs) ys zs zero h = absurd (omega arith)
take-split (x ∷ xs) ys zs (suc n) h = ap (◌∷◌ x) (take-split xs ys zs n (omega arith))

pub take-copy_at :
    (buffer : Bytes) (offset : ℕ) (portion : Bytes) (n : ℕ)
    → offset ≤ length buffer
    → n ≡ offset + length portion
    → take n (copy_at buffer offset portion) ≡ take offset buffer ++ portion
take-copy_at buffer offset portion n h e =
    take-split (take offset buffer) portion (drop (offset + length portion) buffer) n
      (omega (arith, length-take offset buffer))
