-- ===== src/Aes.antt =====
-- aes/encryptor.cpp and aes/encryptor.h: blocks padded to multiples of 16 bytes, encrypted and
-- decrypted by AES in CBC mode in buffers of 1024 bytes.
--
-- mbedTLS is not part of the repository: it is the record `Mbedtls`, and what is relied on is stated
-- in Aes.Laws. An access outside a buffer makes the outcome `undefined`; `malloc` does not fail;
-- what is printed is left out. `encrypt_block` returns 0 on every path, so only what it stores
-- through its pointers is kept.
pub mod Memory
pub mod Laws
pub mod Padding
pub mod RoundTrip
pub mod Truncated
mod Tests
use c_practice.Base.{
  ℕ, zero, suc, ◌+◌, ◌-◌, ◌%◌, Bool, true, false, Option, none, some, List, [], ◌∷◌, ◌++◌, ltb, leb,
  ◌==◌, if◌then◌else◌, length, take, drop, replicate, get_or,
}
use c_practice.Base.Int.{ℤ, pos, negsuc}
use c_practice.Base.Text.{Text}

pub data Outcome (A : Type 0) : Type 0 where
  done : A → Outcome A
  undefined : Outcome A

infixl 5 ◌>>=◌
abbrev pub ◌>>=◌ : {A B : Type 0} → Outcome A → (A → Outcome B) → Outcome B
done a >>= k = k a
undefined >>= k = undefined

-- `ret`, and what the call wrote.
pub record CbcResult : Type 0 where
  pub ret : ℤ
  pub iv : Text
  pub output : Text

-- `mbedtls_aes_setkey_enc` and `mbedtls_aes_setkey_dec`, chosen by the first argument, and
-- `mbedtls_aes_crypt_cbc`.
pub record Mbedtls (Context : Type 0) : Type 0 where
  pub setkey : Bool → Text → ℕ → ℤ × Context
  pub crypt_cbc : Context → Bool → ℕ → (iv input : Text) → CbcResult

pub record Encryptor (Context : Type 0) : Type 0 where
  pub context : Context
  pub encrypts : Bool
  pub original_iv : Text
  pub operating_iv : Text
  pub encryption_key : Text

abbrev pub iv_bytes : Text
iv_bytes =
    0xb2 ∷ 0x4b ∷ 0xf2 ∷ 0xf7 ∷ 0x7a ∷ 0xc5 ∷ 0xec ∷ 0x0c ∷ 0x5e ∷ 0x1f ∷ 0x4d ∷ 0xc1 ∷ 0xae ∷ 0x46
    ∷ 0x5e ∷ 0x75 ∷ []

-- A buffer of 1024 zero bytes.
unfoldable pub blank : Text
blank = replicate 1024 0

-- `memcpy(dst + off, src, length src)`
unfoldable pub write : Text → ℕ → Text → Outcome Text
write dst off src =
    if leb (off + length src) (length dst)
    then done (take off dst ++ (src ++ drop (off + length src) dst))
    else undefined

-- The first `size` bytes behind a pointer.
unfoldable pub read : ℕ → Text → Outcome Text
read size src = if leb size (length src) then done (take size src) else undefined

-- `strlen`: `undefined` if no byte of the buffer is 0.
unfoldable pub strlen : Text → Outcome ℕ
strlen [] = undefined
strlen (zero ∷ s) = done 0
strlen (suc c ∷ s) = do n ← strlen s; done (n + 1)

-- `Encryptor()`; the other members hold what was in the memory.
abbrev pub new_encryptor : {Context : Type 0} → Context → Bool → (iv key : Text) → Encryptor Context
new_encryptor context encrypts iv key = record {
  context = context;
  encrypts = encrypts;
  original_iv = iv_bytes;
  operating_iv = iv;
  encryption_key = key;
}

abbrev is_zero : ℤ → Bool
is_zero (pos n) = n == 0
is_zero (negsuc n) = false

-- What follows a successful decryption.
unfoldable pub remove_padding : Text → Outcome (Text × ℕ)
remove_padding output_data = do
  len ← strlen output_data
  if len == 0 then undefined else do
    let pad = get_or output_data (len - 1) 0
    if ltb len pad
        then undefined
        else do cleared ← write output_data (len - pad) (replicate pad 0); done (cleared, len - pad)

module _ {Context : Type 0} (lib : Mbedtls Context) where
  -- The buffer and the length that are handed out, if they are, and the encryptor afterwards.
  abbrev pub Block : Type 0
  Block = Option (Text × ℕ) × Encryptor Context

  unfoldable pub initialize : Bool → Text → Encryptor Context → Outcome (ℤ × Encryptor Context)
  initialize encrypt key e = do
    copied ← read 16 key
    let (ret, context) = lib.setkey encrypt copied 128
    let keyed = record e { encrypts = encrypt; encryption_key = copied; context = context }
    done (ret, (if is_zero ret then record keyed { operating_iv = e.original_iv } else keyed))

  -- The branch that encrypts.
  unfoldable pub encrypt_data : Text → ℕ → Encryptor Context → Outcome Block
  encrypt_data input size e = do
    copied ← read size input
    input_str ← write blank 0 copied
    let pad = 16 - size % 16
    padded ← write input_str size (replicate pad pad)
    let enc_len = size + pad
    plain ← read enc_len padded
    let r = lib.crypt_cbc e.context true enc_len e.operating_iv plain
    let after = record e { operating_iv = r.iv }
    if is_zero r.ret
        then (do
          output ← write blank 0 r.output
          output_data ← write blank 0 (take enc_len output)
          done (some (output_data, enc_len), after))
        else done (none, after)

  -- The branch that decrypts.
  unfoldable pub decrypt_data : Text → ℕ → Encryptor Context → Outcome Block
  decrypt_data input size e = do
    cipher ← read size input
    let r = lib.crypt_cbc e.context false size e.operating_iv cipher
    let after = record e { operating_iv = r.iv }
    if is_zero r.ret
        then (do
          output_data ← write blank 0 r.output
          b ← remove_padding output_data
          done (some b, after))
        else done (none, after)

  unfoldable pub encrypt_block : Bool → Text → ℕ → Encryptor Context → Outcome Block
  encrypt_block encrypt input size e =
      if encrypt then encrypt_data input size e else decrypt_data input size e

  abbrev handed_out : Option (Text × ℕ) → Text × ℕ
  handed_out none = ([], 0)
  handed_out (some b) = b

  -- The second half of `main` of aes/main.cpp; `none` if nothing was decrypted.
  unfoldable pub main_decrypts : Text → Text × ℕ → Encryptor Context → Outcome (Option (Text × ℕ))
  main_decrypts key (output_buf, out_data_len) e2 = do
    (ret, e) ← initialize false (key ++ 0 ∷ []) e2
    if is_zero ret
        then (do (output_buf2, _) ← encrypt_block false output_buf out_data_len e; done output_buf2)
        else done none

  -- `main` of aes/main.cpp, for any key and text.
  unfoldable pub main :
      (key text : Text) → (e1 e2 : Encryptor Context) → Outcome (Option (Text × ℕ))
  main key text e1 e2 = do
    (ret, e) ← initialize true (key ++ 0 ∷ []) e1
    if is_zero ret
        then (do
          (output_buf, _) ← encrypt_block true (text ++ 0 ∷ []) (length text) e
          main_decrypts key (handed_out output_buf) e2)
        else done none
