-- ===== src/Json.antt =====
-- The JSON values of the host's payloads (`serde_json::Value`), which are a parameter: only the
-- accessors that the program calls.
use camouflage.Prelude.{ℕ, Bool, Option, none, some, List}
use camouflage.Prelude.Int.{ℤ}
use camouflage.Text.{Str}

pub record Json (V : Type 0) : Type 0 where
  pub get : V → Str → Option V
  pub as_str : V → Option Str
  pub as_bool : V → Option Bool
  pub as_i64 : V → Option ℤ
  pub as_array : V → Option (List V)
  pub as_u64 : V → Option ℕ
  -- The fields of an object, in the order of its map.
  pub as_object : V → Option (List (Str × V))
  pub is_null : V → Bool
  -- `to_string`
  pub print : V → Str
  -- An object with one field set, and any other value as it is: `as_object_mut` and `insert`.
  pub set : V → Str → V → V
  pub string : Str → V
  pub boolean : Bool → V
  -- The bits of `as_f64().map(|x| x.clamp(0.0, 1.0) as f32)`.
  pub as_unit_f32 : V → Option ℕ

module _ {V : Type 0} (j : Json V) where
  -- `p.get(k).and_then(as)`
  abbrev pub get_as {ℓ} : {A : Type ℓ} → (V → Option A) → V → Str → Option A
  get_as read p k = elim (j.get p k) [ none ↦ none | some v ↦ read v ]

  unfoldable pub get_str : V → Str → Option Str
  get_str p k = get_as j.as_str p k
