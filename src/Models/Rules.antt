-- ===== src/Models/Rules.antt =====
-- wiregui/models/rule.py
use wiregui.Base.{ℕ, Option, Text}
use wiregui.Base.Int.{ℤ}

pub record Rule : Type 0 where
  pub id : Text
  pub action : Text
  pub destination : Text
  pub port_type : Option Text
  pub port_range : Option Text
  pub priority : ℤ
  pub user_id : Option Text
  pub inserted_at : ℕ
  pub updated_at : ℕ
