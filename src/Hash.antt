-- ===== src/Hash.antt =====
-- src/modules/hash.cpp: the functions of Hash that are written here. OpenSSL's functions are
-- parameters: each gives its bytes, or none where it reports a failure. A length that is cast to
-- `int` is passed on as that `int`. The conversion of a number to text is the parameter `shown`.
pub mod Digits
use vcmp_lua.Bindings.Reader.{is_missing}
use vcmp_lua.Prelude.{
  eq_ℤ, ◌&&◌, ◌>>◌, pos, true, ◌==◌, ◌^◌, ◌||◌, [], err, false, length, none, some, ◌%◌, ◌/◌, ◌>>=◌,
  Bool, String, codes, get_or, if◌then◌else◌, ok, ℤ, ◌∷◌, List, Option, Result, ℕ,
}
use vcmp_lua.Args.{unknown_digest, arg_error, value_at, Binding, BindingError, LuaNumber}
use vcmp_lua.Stream.{to_signed32}
use vcmp_lua.Args.Numbers.{check_integer, check_string}

pub data HashError : Type 0 where
  refused : BindingError → HashError
  failed : String → HashError

abbrev or_refused : {A : Type 0} → Result BindingError A → Result HashError A
or_refused (ok a) = ok a
or_refused (err e) = err (refused e)

abbrev or_failed : {A : Type 0} → Option A → String → Result HashError A
or_failed none why = err (failed why)
or_failed (some a) why = ok a

abbrev int_of : ℕ → ℤ
int_of n = to_signed32 (n % 2 ^ 32)

-- `kDigests`, `kMaxOutput`, `kMaxRandom` and `kMaxIterations`.
abbrev digests : List (List ℕ)
digests =
    codes "md5"
    ∷ codes "sha1"
    ∷ codes "sha224"
    ∷ codes "sha256"
    ∷ codes "sha384"
    ∷ codes "sha512"
    ∷ codes "sha3-256"
    ∷ codes "sha3-512"
    ∷ []

abbrev pub max_output : ℕ
max_output = 1024

abbrev pub max_random : ℕ
max_random = 1048576

abbrev pub max_iterations : ℕ
max_iterations = 10000000

abbrev hex_digits : List ℕ
hex_digits = codes "0123456789abcdef"

unfoldable pub hex_digit : ℕ → ℕ
hex_digit n = get_or hex_digits n 0

-- `Hex`.
unfoldable pub hex : List ℕ → List ℕ
hex [] = []
hex (b ∷ bs) = hex_digit (b / 16) ∷ hex_digit (b % 16) ∷ hex bs

abbrev same_name : List ℕ → List ℕ → Bool
same_name [] [] = true
same_name (x ∷ xs) (y ∷ ys) = x == y && same_name xs ys
same_name _ _ = false

abbrev is_known : List ℕ → List (List ℕ) → Bool
is_known name [] = false
is_known name (d ∷ ds) = same_name name d || is_known name ds

-- OpenSSL: `Md` is a fetched digest. PBKDF2 has the password and the salt with their lengths.
pub record Openssl (Md : Type 0) : Type 0 where
  pub fetch : List ℕ → Option Md
  pub hmac : Md → List ℕ → ℤ → List ℕ → Option (List ℕ)
  pub pbkdf2 : List ℕ × ℤ → List ℕ × ℤ → ℤ → Md → ℤ → Option (List ℕ)
  pub random_bytes : ℤ → Option (List ℕ)
  pub same_memory : List ℕ → List ℕ → ℕ → Bool

module _ {Md : Type 0} (ssl : Openssl Md) (shown : LuaNumber → List ℕ) where
  abbrev digest_name : Binding → ℕ → Result BindingError (List ℕ)
  digest_name b index =
      if is_missing (value_at b index) then ok (codes "sha256") else check_string shown b index

  abbrev fetched : List ℕ → Option Md
  fetched name = if is_known name digests then ssl.fetch name else none

  abbrev md_or_error : Binding → ℕ → List ℕ → Option Md → Result BindingError Md
  md_or_error b index name (some md) = ok md
  md_or_error b index name none = arg_error b index (unknown_digest name)

  -- `CheckDigest`.
  unfoldable pub check_digest : Binding → ℕ → Result BindingError Md
  check_digest b index = do name ← digest_name b index; md_or_error b index name (fetched name)

  -- `Hmac`.
  unfoldable pub hmac_hex : Binding → Result HashError (List ℕ)
  hmac_hex b = do
    md ← or_refused (check_digest b 1)
    key ← or_refused (check_string shown b 2)
    data_text ← or_refused (check_string shown b 3)
    out ← or_failed (ssl.hmac md key (int_of (length key)) data_text) "Hash.hmac failed"
    ok (hex out)

  -- `Pbkdf2`.
  unfoldable pub pbkdf2_hex : Binding → Result HashError (List ℕ)
  pbkdf2_hex b = do
    password ← or_refused (check_string shown b 1)
    salt ← or_refused (check_string shown b 2)
    iterations ← or_refused (check_integer b 3 (pos 1) (pos max_iterations))
    size ← or_refused (check_integer b 4 (pos 1) (pos max_output))
    md ← or_refused (check_digest b 5)
    out ←
        or_failed
          (ssl.pbkdf2 (password, int_of (length password)) (salt, int_of (length salt)) iterations
            md size)
          "Hash.pbkdf2 failed"
    ok (hex out)

  abbrev random_of : ℤ → Result HashError (List ℕ)
  random_of count =
      if eq_ℤ count (pos 0)
      then ok []
      else or_failed (ssl.random_bytes count) "Hash.randomBytes: the random generator failed"

  -- `RandomBytes`.
  unfoldable pub random_text : Binding → Result HashError (List ℕ)
  random_text b = do
    count ← or_refused (check_integer b 1 (pos 0) (pos max_random))
    random_of count

  -- `Equals`.
  unfoldable pub equals : List ℕ → List ℕ → Bool
  equals a b = length a == length b && ssl.same_memory a b (length a)
