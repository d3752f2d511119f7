-- ===== src/Mio/Table.antt =====
-- The list of the connections of an `IOServer`, each under its iterator.
use angry_balls.Base.{
  ℕ, List, [], ◌∷◌, Bool, true, false, ◌||◌, Bool-cases, All, Option, none, some, inl, inr, ◌==◌,
  ◌≡◌, refl, arith, if◌then◌else◌,
}

abbrev pub Table : Type 0 → Type 0
Table C = List (ℕ × C)

module _ {C : Type 0} where
  -- What an iterator points at, if it was not erased.
  abbrev pub lookup : ℕ → Table C → Option C
  lookup i [] = none
  lookup i ((j, c) ∷ cs) = let rest = lookup i cs in if j == i then some c else rest

  abbrev pub store : ℕ → C → Table C → Table C
  store i c [] = []
  store i c ((j, b) ∷ cs) =
      let rest = store i c cs in if j == i then (j, c) ∷ cs else ((j, b) ∷ rest)

  abbrev pub erase : ℕ → Table C → Table C
  erase i [] = []
  erase i ((j, c) ∷ cs) = let rest = erase i cs in if j == i then cs else ((j, c) ∷ rest)

  abbrev pub is_listed : ℕ → Table C → Bool
  is_listed i [] = false
  is_listed i ((j, c) ∷ cs) = (j == i) || is_listed i cs

  pub lookup-is_listed :
      (i : ℕ) (cs : Table C) → is_listed i cs ≡ true → (c : C) × (lookup i cs ≡ some c)
  lookup-is_listed i ((j, c) ∷ cs) h = elim (Bool-cases (j == i)) [
    | inl e ↦ (c, rw e refl)
    | inr e ↦ let (b, at) = lookup-is_listed i cs (ground (arith, e, h)) in (b, rw (e) at)
  ]
  lookup-is_listed i [] h = cc

  pub store-is_listed :
      (i j : ℕ) (c : C) (cs : Table C) → is_listed i (store j c cs) ≡ is_listed i cs
  store-is_listed i j c [] = refl
  store-is_listed i j c ((k, b) ∷ cs) = elim (Bool-cases (k == j)) [
    | inl e ↦ rw (e) refl
    | inr e ↦ rw (e, store-is_listed i j c cs) refl
  ]

  pub erase-is_listed :
      (i j : ℕ) (cs : Table C) → (j == i) ≡ false → is_listed i (erase j cs) ≡ is_listed i cs
  erase-is_listed i j [] h = refl
  erase-is_listed i j ((k, b) ∷ cs) h = elim (Bool-cases (k == j)) [
    | inl e ↦ ground (arith, e, h)
    | inr e ↦ rw (e, erase-is_listed i j cs h) refl
  ]

  pub All-erase {κ} : (P : ℕ × C → Type κ) (i : ℕ) (cs : Table C) → All P cs → All P (erase i cs)
  All-erase P i [] h = h
  All-erase P i ((k, b) ∷ cs) (p, ps) = elim (Bool-cases (k == i)) [
    | inl e ↦ rw (e) ps
    | inr e ↦ rw (e) (p, All-erase P i cs ps)
  ]

  pub All-store {κ} :
      (P : ℕ × C → Type κ) (i : ℕ) (c : C) (cs : Table C)
      → ((j : ℕ) → P (j, c))
      → All P cs
      → All P (store i c cs)
  All-store P i c [] q h = h
  All-store P i c ((k, b) ∷ cs) q (p, ps) = elim (Bool-cases (k == i)) [
    | inl e ↦ rw (e) (q k, ps)
    | inr e ↦ rw (e) (p, All-store P i c cs q ps)
  ]

  pub All-erase_store {κ} :
      (P : ℕ × C → Type κ) (i : ℕ) (c : C) (cs : Table C)
      → All P cs
      → All P (erase i (store i c cs))
  All-erase_store P i c [] h = h
  All-erase_store P i c ((k, b) ∷ cs) (p, ps) = elim (Bool-cases (k == i)) [
    | inl e ↦ rw (e, e) ps
    | inr e ↦ rw (e, e) (p, All-erase_store P i c cs ps)
  ]
