-- ===== src/Base/Maps.antt =====
-- A Go map as an association list: `m[k]`, `m[k] = v` and `delete(m, k)`.
use mathlib.Core.Path.{◌≡◌, refl, ap, subst}
use mathlib.Core.List.{List, [], ◌∷◌}
use mathlib.Core.Logic.{inl, inr}
use mathlib.Core.Option.{Option, none, some}
use native.Mathlib.Omega.{arith}
use otus.Base.Tests.{if◌then◌else◌, Bool-cases}
use otus.Base.Lists.{length}
use Prim.Native.Nat.{◌+◌}
use otus.Base.Equality.{Eq, ◌=?◌}

abbrev pub Dict {ℓ κ} : Type ℓ → Type κ → Type (ℓ ⊔ κ)
Dict K V = List (K × V)

module _ {ℓ κ} {K : Type ℓ} {V : Type κ} ⦃e : Eq K⦄ where
  unfoldable pub lookup : K → Dict K V → Option V
  lookup k [] = none
  lookup k ((j, v) ∷ m) = if j =? k then some v else lookup k m

  unfoldable pub insert : K → V → Dict K V → Dict K V
  insert k v [] = (k, v) ∷ []
  insert k v ((j, w) ∷ m) = if j =? k then (k, v) ∷ m else (j, w) ∷ insert k v m

  unfoldable pub delete : K → Dict K V → Dict K V
  delete k [] = []
  delete k ((j, w) ∷ m) = if j =? k then delete k m else (j, w) ∷ delete k m

  -- The keys are all different: what every operation of a map keeps.
  abbrev pub Distinct : Dict K V → Type κ
  Distinct [] = Unit
  Distinct ((j, w) ∷ m) = (lookup j m ≡ none) × Distinct m

  pub lookup-insert :
      (k j : K) (v : V) (m : Dict K V)
      → lookup j (insert k v m) ≡ (if k =? j then some v else lookup j m)
  unfolding lookup insert
  lookup-insert k j v [] = refl
  lookup-insert k j v ((i, w) ∷ m) =
      ground (arith, e.beq_iff k j, e.beq_iff i k, e.beq_iff i j, lookup-insert k j v m)

  pub lookup-delete :
      (k j : K) (m : Dict K V) → lookup j (delete k m) ≡ (if k =? j then none else lookup j m)
  unfolding lookup delete
  lookup-delete k j [] = ground arith
  lookup-delete k j ((i, w) ∷ m) =
      ground (arith, e.beq_iff k j, e.beq_iff i k, e.beq_iff i j, lookup-delete k j m)

module _ {ℓ κ} {K : Type ℓ} {V : Type κ} ⦃e : Eq K⦄ where
  pub Distinct-insert : (k : K) (v : V) (m : Dict K V) → Distinct m → Distinct (insert k v m)
  unfolding insert lookup
  Distinct-insert k v [] d = (refl, tt)
  Distinct-insert k v ((j, w) ∷ m) d =
      ground (arith, e.beq_iff j k, e.beq_iff k j, lookup-insert k j v m, Distinct-insert k v m d.1)

  pub Distinct-delete : (k : K) (m : Dict K V) → Distinct m → Distinct (delete k m)
  unfolding delete lookup
  Distinct-delete k [] d = tt
  Distinct-delete k ((j, w) ∷ m) d = ground (arith, lookup-delete k j m, Distinct-delete k m d.1)

  pub length-insert_new :
      (k : K) (v : V) (m : Dict K V) → lookup k m ≡ none → length (insert k v m) ≡ length m + 1
  unfolding insert lookup
  length-insert_new k v [] h = omega arith
  length-insert_new k v ((j, w) ∷ m) h = ground (arith, length-insert_new k v m)

  pub length-insert_old :
      (k : K) (v w : V) (m : Dict K V) → lookup k m ≡ some w → length (insert k v m) ≡ length m
  unfolding insert lookup
  length-insert_old k v w [] h = absurd (cc)
  length-insert_old k v w ((j, u) ∷ m) h = ground (arith, length-insert_old k v w m)

  pub delete_absent : (k : K) (m : Dict K V) → lookup k m ≡ none → delete k m ≡ m
  unfolding delete lookup
  delete_absent k [] h = refl
  delete_absent k ((j, w) ∷ m) h = ground (arith, delete_absent k m)

  pub length-delete :
      (k : K) (w : V) (m : Dict K V)
      → Distinct m
      → lookup k m ≡ some w
      → length (delete k m) + 1 ≡ length m
  unfolding delete lookup
  length-delete k w [] d h = absurd (cc)
  length-delete k w ((j, u) ∷ m) d h = ground (
    arith,
    e.beq_iff j k,
    length-delete k w m d.1,
    ap (λ i. lookup i m) {x = j} {y = k},
    ap length (delete_absent j m d.0),
  )

-- A property of every value of a map.
module _ {ℓ κ ι} {K : Type ℓ} {V : Type κ} (P : V → Type ι) where
  abbrev pub Every : Dict K V → Type ι
  Every [] = Unit
  Every ((k, v) ∷ m) = P v × Every m

module _ {ℓ κ ι} {K : Type ℓ} {V : Type κ} ⦃e : Eq K⦄ (P : V → Type ι) where
  pub Every-insert : (k : K) (v : V) (m : Dict K V) → P v → Every P m → Every P (insert k v m)
  unfolding insert
  Every-insert k v [] h a = (h, tt)
  Every-insert k v ((j, w) ∷ m) h a = elim (Bool-cases (j =? k)) [
    | inl hit ↦ rw hit (h, a.1)
    | inr miss ↦ rw miss (a.0, Every-insert k v m h a.1)
  ]

  pub Every-delete : (k : K) (m : Dict K V) → Every P m → Every P (delete k m)
  unfolding delete
  Every-delete k [] a = tt
  Every-delete k ((j, w) ∷ m) a = elim (Bool-cases (j =? k)) [
    | inl hit ↦ rw hit (Every-delete k m a.1)
    | inr miss ↦ rw miss (a.0, Every-delete k m a.1)
  ]

  pub Every-lookup : (k : K) (v : V) (m : Dict K V) → Every P m → lookup k m ≡ some v → P v
  unfolding lookup
  Every-lookup k v [] a h = absurd (cc)
  Every-lookup k v ((j, w) ∷ m) a h = elim (Bool-cases (j =? k)) [
    | inl hit ↦ let same : w ≡ v = ground arith in subst P same a.0
    | inr miss ↦ Every-lookup k v m a.1 (ground arith)
  ]
