-- ===== src/Common/Rlib.antt =====
-- What the agents use of rlib::string, which is a submodule and not part of the repository.
use Prim.Native.Nat.{ℕ, ◌<◌, ◌≤◌, ◌^◌}
use mathlib.Core.Path.{◌≡◌}
use mathlib.Core.Logic.{◌≢◌, ◌⊎◌}
use mathlib.Core.Bool.{false}
use mathlib.Core.List.{List, [], ◌∷◌, ◌++◌}
use ali_middleware.Common.Lists.{length}
use ali_middleware.Common.Text.{Text, contains}
use ali_middleware.Common.Except.{Except, success}

-- Every part has a byte, and none has the divider.
abbrev pub IsParts : ℕ → List Text → Type 0
IsParts d [] = Unit
IsParts d (s ∷ ss) = (s ≢ []) × (contains d s ≡ false) × IsParts d ss

-- The parts with the divider between them.
abbrev pub join_spec : ℕ → List Text → Text
join_spec d [] = []
join_spec d (s ∷ []) = s
join_spec d (s ∷ t ∷ ss) = s ++ d ∷ join_spec d (t ∷ ss)

pub record Rlib : Type 0 where
  -- `string.split(char)`, `string.split(string)`, `divider.join(begin, end)`,
  -- `string.replace(from, to)` and `string.as<uint16_t>()`
  pub split : Text → ℕ → List Text
  pub split_at : Text → Text → List Text
  pub join : Text → List Text → Text
  pub replace : Text → Text → Text → Text
  pub as_uint16 : Text → Except ℕ
  -- A number where `_format` puts it for "{}".
  pub decimal : ℕ → Text
  -- Splitting takes parts without the divider apart again.
  pub split-parts :
      (d : ℕ) (s : Text) (ss : List Text)
      → IsParts d (s ∷ ss)
      → split (join_spec d (s ∷ ss)) d ≡ s ∷ ss
  -- An empty string has one part at most.
  pub split-nil : (d : ℕ) → length (split [] d) ≤ 1
  -- Joining puts the divider between the parts.
  pub join-parts :
      (d : ℕ) (s : Text) (ss : List Text) → join (d ∷ []) (s ∷ ss) ≡ join_spec d (s ∷ ss)
  -- A conversion that succeeds gives a value of the type.
  pub as_uint16-lt : (s : Text) (n : ℕ) → as_uint16 s ≡ success n → n < 2 ^ 16
  -- A printed number is not empty, has no byte but digits, and converts back.
  pub decimal-ne-nil : (n : ℕ) → decimal n ≢ []
  pub contains-decimal : (n c : ℕ) → (c < 48) ⊎ (57 < c) → contains c (decimal n) ≡ false
  pub as_uint16-decimal : (n : ℕ) → n < 2 ^ 16 → as_uint16 (decimal n) ≡ success n
