-- ===== src/NostrFile/Download/Holding.antt =====
-- The pieces held in the receiver's state of download.rs, and what a write does to them.
use ptransfer_cli.Common.{
  is_some, ℕ, zero, suc, ◌+◌, ◌<◌, ◌≡◌, refl, subst, List, [], ◌∷◌, Option, none, some, false,
  length, replicate, set, get_or, some_injective, arith,
}
use ptransfer_cli.NostrFile.Download.{}

-- How many pieces are held.
unfoldable pub held : List (Option (List ℕ)) → ℕ
held [] = 0
held (none ∷ rest) = held rest
held (some piece ∷ rest) = suc (held rest)

pub held-set :
    (chunks : List (Option (List ℕ))) (i : ℕ) (piece : List ℕ)
    → i < length chunks
    → is_some (get_or chunks i none) ≡ false
    → held (set chunks i (some piece)) ≡ held chunks + 1
unfolding held
held-set [] i piece h e = absurd (omega arith)
held-set (none ∷ rest) zero piece h e = omega arith
held-set (some p ∷ rest) zero piece h e = cc
held-set (none ∷ rest) (suc i) piece h e = held-set rest i piece (omega arith) e
held-set (some p ∷ rest) (suc i) piece h e = omega (arith, held-set rest i piece (omega arith) e)

pub held-replicate : (n : ℕ) → held (replicate n none) ≡ 0
unfolding held
held-replicate zero = refl
held-replicate (suc n) = held-replicate n

pub get_or-replicate : (n i : ℕ) (p : List ℕ) → get_or (replicate n none) i none ≡ some p → ⊥
get_or-replicate zero i p h = cc
get_or-replicate (suc n) zero p h = cc
get_or-replicate (suc n) (suc i) p h = get_or-replicate n i p h

-- A property of each piece held, kept by a write of a piece that has it.
pub get_or-set :
    (P : ℕ → List ℕ → Type 0) (chunks : List (Option (List ℕ))) (i : ℕ) (piece : List ℕ)
    → P i piece
    → ((j : ℕ) (p : List ℕ) → get_or chunks j none ≡ some p → P j p)
    → (j : ℕ) (p : List ℕ) → get_or (set chunks i (some piece)) j none ≡ some p
    → P j p
get_or-set P [] i piece new old j p h = cc
get_or-set P (c ∷ cs) zero piece new old zero p h = subst (P 0) (some_injective h) new
get_or-set P (c ∷ cs) zero piece new old (suc j) p h = old (suc j) p h
get_or-set P (c ∷ cs) (suc i) piece new old zero p h = old 0 p h
get_or-set P (c ∷ cs) (suc i) piece new old (suc j) p h =
    get_or-set (λ k q. P (suc k) q) cs i piece new (λ k q e. old (suc k) q e) j p h
