-- ===== src/Store/Interface.antt =====
-- `EntityStore` (include/entity_store.h): the operations that a store offers, over a state `S`.
use ucla_bathroom_ratings.Base.{Bytes, Bool, Option, List}
use ucla_bathroom_ratings.Base.Int.{ℤ}

-- An out-parameter that is left alone is `none`.
pub record EntityStore (S : Type 0) : Type 0 where
  pub create : S → Bytes → Bytes → S × ℤ
  pub read : S → Bytes → ℤ → S × Option Bytes
  pub update : S → Bytes → ℤ → Bytes → S × Bool
  pub delete : S → Bytes → ℤ → S × Bool
  pub list : S → Bytes → S × List ℤ
