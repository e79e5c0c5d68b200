-- ===== src/Base/Map.antt =====
-- Go maps as association lists, in the order of insertion. The program's loops over a map add up,
-- filter or look for an entry.
use mathlib.Core.Bool.{Bool, true}
use mathlib.Core.Path.{◌≡◌, refl, subst}
use mathlib.Core.Logic.{inl, inr}
use mathlib.Core.List.{List, [], ◌∷◌}
use mathlib.Core.Option.{Option, none, some}
use native.Mathlib.Omega.{arith}
use nex_talk_file_relay.Base.Tests.{if◌then◌else◌, Bool-cases}
use nex_talk_file_relay.Base.Keys.{Key}

abbrev pub Map {ℓ κ} : Type ℓ → Type κ → Type (ℓ ⊔ κ)
Map K V = List (K × V)

module _ {ℓ κ} {K : Type ℓ} {V : Type κ} ⦃e : Key K⦄ where
  -- m[k]
  unfoldable pub lookup : K → Map K V → Option V
  lookup k [] = none
  lookup k ((at, held) ∷ rest) = if e.same at k then some held else lookup k rest

  -- m[k] = v
  unfoldable pub insert : K → V → Map K V → Map K V
  insert k new [] = (k, new) ∷ []
  insert k new ((at, held) ∷ rest) =
      if e.same at k then (at, new) ∷ rest else (at, held) ∷ insert k new rest

  -- delete(m, k)
  unfoldable pub delete : K → Map K V → Map K V
  delete k [] = []
  delete k ((at, held) ∷ rest) = if e.same at k then delete k rest else (at, held) ∷ delete k rest

  pub lookup-insert :
      (k probe : K) (new : V) (m : Map K V)
      → lookup probe (insert k new m) ≡ (if e.same k probe then some new else lookup probe m)
  unfolding lookup insert
  lookup-insert k probe new [] = refl
  lookup-insert k probe new ((at, held) ∷ rest) =
      let later = lookup-insert k probe new rest in
      ground (arith, later, e.same_iff at probe, e.same_iff at k, e.same_iff k probe)

  pub lookup-delete :
      (k probe : K) (m : Map K V)
      → lookup probe (delete k m) ≡ (if e.same k probe then none else lookup probe m)
  unfolding lookup delete
  lookup-delete k probe [] = ground arith
  lookup-delete k probe ((at, held) ∷ rest) =
      let later = lookup-delete k probe rest in
      ground (arith, later, e.same_iff at probe, e.same_iff at k, e.same_iff k probe)

some_of_if {ℓ} :
    {A : Type ℓ} (b : Bool) (w v : A) (o : Option A)
    → b ≡ true
    → (if b then some w else o) ≡ some v
    → w ≡ v
some_of_if b w v o t h = ground arith

-- A property of every value of a map.
abbrev pub AllValues {ℓ κ μ} : {K : Type ℓ} {V : Type κ} → (V → Type μ) → Map K V → Type μ
AllValues P [] = Unit
AllValues P ((k, v) ∷ m) = P v × AllValues P m

module _ {ℓ κ μ} {K : Type ℓ} {V : Type κ} ⦃e : Key K⦄ (P : V → Type μ) where
  pub AllValues-insert :
      (k : K) (v : V) (m : Map K V) → P v → AllValues P m → AllValues P (insert k v m)
  unfolding insert
  AllValues-insert k v [] p h = (p, tt)
  AllValues-insert k v ((j, w) ∷ m) p h = elim (Bool-cases (e.same j k)) [
    | inl same ↦ rw same (p, h.1)
    | inr other ↦ rw other (h.0, AllValues-insert k v m p h.1)
  ]

  pub AllValues-delete : (k : K) (m : Map K V) → AllValues P m → AllValues P (delete k m)
  unfolding delete
  AllValues-delete k [] h = tt
  AllValues-delete k ((j, w) ∷ m) h = elim (Bool-cases (e.same j k)) [
    | inl same ↦ rw same (AllValues-delete k m h.1)
    | inr other ↦ rw other (h.0, AllValues-delete k m h.1)
  ]

  pub AllValues-lookup : (k : K) (v : V) (m : Map K V) → AllValues P m → lookup k m ≡ some v → P v
  unfolding lookup
  AllValues-lookup k v [] h found = cc
  AllValues-lookup k v ((j, w) ∷ m) h found = elim (Bool-cases (e.same j k)) [
    | inl same ↦ subst P (some_of_if (e.same j k) w v (lookup k m) same found) h.0
    | inr other ↦ AllValues-lookup k v m h.1 (ground arith)
  ]
