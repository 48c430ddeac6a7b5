-- ===== src/Prelude/Maps.antt =====
-- A Go map with string keys, as an association list: one entry for a key that is present.

use Prim.Native.String.{String}
use mathlib.Core.Path.{◌≡◌, refl}
use mathlib.Core.Option.{Option, none, some}
use mathlib.Core.List.{List, [], ◌∷◌}
use native.Mathlib.Omega.{arith}
use text.Mathlib.Text.{◌==◌ as str_eq}
use text.Mathlib.TextEquality.{eq_iff}
use ollama_local_hives_clust.Prelude.Tests.{if◌then◌else◌}

abbrev pub Map {ℓ} : Type ℓ → Type ℓ
Map V = List (String × V)

module _ {ℓ} {V : Type ℓ} where
  -- m[key], with the second result of the comma-ok form
  unfoldable pub lookup : String → Map V → Option V
  lookup key [] = none
  lookup key (e ∷ rest) = if str_eq e.0 key then some e.1 else lookup key rest

  -- m[key] = value
  unfoldable pub insert : String → V → Map V → Map V
  insert key value [] = (key, value) ∷ []
  insert key value (e ∷ rest) =
      if str_eq e.0 key then (key, value) ∷ rest else e ∷ insert key value rest

  -- delete(m, key)
  unfoldable pub delete : String → Map V → Map V
  delete key [] = []
  delete key (e ∷ rest) =
      let others = delete key rest in if str_eq e.0 key then others else e ∷ others

  pub lookup-insert :
      (key other : String) (value : V) (m : Map V)
      → lookup other (insert key value m)
        ≡ (if str_eq key other then some value else lookup other m)
  unfolding lookup insert
  lookup-insert key other value [] = refl
  lookup-insert key other value (e ∷ rest) =
      let here = eq_iff e.0 key in
      let there = eq_iff e.0 other in
      ground (arith, here, there, eq_iff key other, lookup-insert key other value rest)

  pub lookup-delete :
      (key other : String) (m : Map V)
      → lookup other (delete key m) ≡ (if str_eq key other then none else lookup other m)
  unfolding lookup delete
  lookup-delete key other [] = ground arith
  lookup-delete key other (e ∷ rest) =
      let here = eq_iff e.0 key in
      let there = eq_iff e.0 other in
      ground (arith, here, there, eq_iff key other, lookup-delete key other rest)

pub ruleset map_laws = (lookup-insert, lookup-delete)
