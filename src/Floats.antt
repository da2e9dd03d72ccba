-- ===== src/Floats.antt =====
-- Python's floats, as far as scores and sampling weights go. A score is never negative, and the bits
-- of an IEEE 754 double that is not negative, read as a number, are ordered as the doubles are: a
-- float is that number. Multiplication is a parameter.
use sawtooth_ddpoa.Prelude.{ℕ, ltb, if◌then◌else◌}

abbrev pub Float : Type 0
Float = ℕ

-- 0.0, 0.001, 0.75, 1.0 and 1.075.
abbrev pub float_zero : Float
float_zero = 0

abbrev pub offline_weight : Float
offline_weight = 0x3F50624DD2F1A9FC

abbrev pub penalty_factor : Float
penalty_factor = 0x3FE8000000000000

abbrev pub float_one : Float
float_one = 0x3FF0000000000000

abbrev pub reward_factor : Float
reward_factor = 0x3FF1333333333333

-- Python's `max` and `min` of two arguments return the first unless the second is beyond it.
unfoldable pub max_float : Float → Float → Float
max_float a b = if ltb a b then b else a

unfoldable pub min_float : Float → Float → Float
min_float a b = if ltb b a then b else a
