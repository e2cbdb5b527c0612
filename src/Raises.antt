-- ===== src/Raises.antt =====
-- What a Python function may do: return a value, or raise an exception.

-- `ValueError`, Fernet's `InvalidToken`, sqlite3's `IntegrityError` and `OperationalError`, and
-- any other exception
pub data Exception : Type 0 where
  value_error invalid_token integrity_error operational_error other_error : Exception

pub data Result (A : Type 0) : Type 0 where
  returned : A → Result A
  raised : Exception → Result A

infixl 5 ◌>>=◌
abbrev pub ◌>>=◌ : {A B : Type 0} → Result A → (A → Result B) → Result B
returned a >>= f = f a
raised e >>= f = raised e
