-- ===== src/Utils.antt =====
-- consensus/pkg/engine/utils.py. SHA-256 is a parameter: a function from texts to digests, and a
-- digest is the number that its 64 hex digits write, so that the order of numbers is the order of
-- the digests as texts.
use Prim.Native.String.{◌++◌ as append, slice}
use sawtooth_ddpoa.Prelude.{
  ℕ, zero, suc, ◌+◌, ◌/◌, ◌%◌, String, List, foldl, ltb, if◌then◌else◌, ◌≡◌, refl, remove, dec_key,
}

-- `str` of a number: its decimal digits. A number below 2 ^ n has at most n of them.
digits_from : ℕ → ℕ → String
digits_from zero n = slice "0123456789" n (n + 1)
digits_from (suc f) n =
    let front = digits_from f (n / 10) in
    if ltb n 10
    then slice "0123456789" n (n + 1)
    else append front (slice "0123456789" (n % 10) (n % 10 + 1))

unfoldable pub str : ℕ → String
unfolding digits_from
str n = digits_from n n

unfoldable pub concat_and_hash : (String → ℕ) → List String → ℕ
concat_and_hash sha256 args = sha256 (foldl append "" args)

-- Absent elements are passed over: the bare `except` hides the `ValueError`.
unfoldable pub try_remove : List String → String → List String
unfolding remove
try_remove l i = remove dec_key i l

str_run : str 1205 ≡ "1205"
unfolding str
str_run = refl
