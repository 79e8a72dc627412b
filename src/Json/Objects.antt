-- ===== src/Json/Objects.antt =====
-- Python objects, as far as the JSON boundary of qingtian_core/models.py tells them apart.
use qingtian_ai.Prelude.{ℕ, String, Bool}
use qingtian_ai.Prelude.Int.{ℤ}

-- A finite double is m / 2^k.
pub data Float : Type 0 where
  finite : ℤ → ℕ → Float
  infinite : Bool → Float
  nan : Float

-- A dict in the order of insertion, its keys any objects. `other` is an object of any other type.
mutual
  pub data Value : Type 0 where
    null : Value
    bool : Bool → Value
    int : ℤ → Value
    float : Float → Value
    str : String → Value
    list : Items → Value
    tuple : Items → Value
    dict : Entries → Value
    other : Value

  pub data Items : Type 0 where
    nil : Items
    item : Value → Items → Items

  pub data Entries : Type 0 where
    end : Entries
    entry : Value → Value → Entries → Entries
