-- ===== src/Fuse/Crypt.antt =====
-- fuse/ssl-crypt.c. The cipher with its key and the encoding in base 64, which are OpenSSL's, are
-- parameters.
use akiso.Prelude.{
  ℕ, zero, suc, ◌≤◌, ◌≡◌, refl, ap, ap₂, sym, true, false, Option, none, some, [], ◌∷◌, arith, ◌==◌,
  ==_iff, if◌then◌else◌, Bytes, length, take, All, Bool-cases, inl, inr,
}
use akiso.Prelude.Run.{Run, ok, fault}

-- `of_base64` and `decrypt` give `none` where `BIO_read` fails, with the result -1.
pub record Openssl : Type 0 where
  pub encrypt : Bytes → Bytes
  pub decrypt : Bytes → Option Bytes
  pub to_base64 : Bytes → Bytes
  pub of_base64 : Bytes → Option Bytes

-- On the content of a C string.
unfoldable pub strn_replace : Bytes → ℕ → ℕ → ℕ → Bytes
strn_replace [] n original replacement = []
strn_replace (c ∷ str) zero original replacement = c ∷ str
strn_replace (c ∷ str) (suc n) original replacement =
    (if c == original then replacement else c) ∷ strn_replace str n original replacement

-- The content of `ciphertext`, whose length is returned.
unfoldable pub my_encrypt_base64 : Openssl → Bytes → Bytes
unfolding strn_replace
my_encrypt_base64 o plaintext =
    let ciphertext = o.to_base64 (o.encrypt plaintext) in
    strn_replace ciphertext (length ciphertext) b'/' b'^'

abbrev pub and_then : Option Bytes → (Bytes → Option Bytes) → Option Bytes
and_then none f = none
and_then (some b) f = f b

-- The terminator is written at `plaintext[plaintext_len]`.
abbrev pub terminated : ℕ → Option Bytes → Run Bytes
terminated size none = fault
terminated size (some plaintext) = ok (take size plaintext)

unfoldable pub my_decrypt_base64 : Openssl → Bytes → Run Bytes
unfolding strn_replace
my_decrypt_base64 o ciphertext =
    terminated 2048
      (and_then (o.of_base64 (strn_replace ciphertext (length ciphertext) b'^' b'/')) o.decrypt)

unfoldable pub my_encrypt_binary : Openssl → Bytes → Bytes
my_encrypt_binary o plaintext = o.encrypt plaintext

-- `none` is -1.
unfoldable pub my_decrypt_binary : Openssl → Bytes → Option Bytes
my_decrypt_binary o ciphertext = elim (o.decrypt ciphertext) [
  | none ↦ none
  | some plaintext ↦ some (take 8192 plaintext)
]

abbrev pub Lacks : ℕ → Bytes → Type 0
Lacks b = All (λ c. (c == b) ≡ false)

module _ (a b : ℕ) where
  -- A replacement is undone by the opposite one, in a text that does not have the new character.
  pub strn_replace-back :
      (str : Bytes) (n : ℕ) → Lacks b str → strn_replace (strn_replace str n a b) n b a ≡ str
  unfolding strn_replace
  strn_replace-back [] n h = refl
  strn_replace-back (c ∷ str) zero h = refl
  strn_replace-back (c ∷ str) (suc n) (other, h) = elim (Bool-cases (c == a)) [
    | inl same ↦
        let own : (b == b) ≡ true = ground arith in
        let e : a ≡ c = sym ((==_iff c a).0 same) in
        rw (same, own) (ap₂ (λ x y. x ∷ y) e (strn_replace-back str n h))
    | inr apart ↦ rw (apart, other) (ap (◌∷◌ c) (strn_replace-back str n h))
  ]

  pub strn_replace-Lacks :
      (str : Bytes) → (b == a) ≡ false → Lacks a (strn_replace str (length str) a b)
  unfolding strn_replace
  strn_replace-Lacks [] apart = tt
  strn_replace-Lacks (c ∷ str) apart = elim (Bool-cases (c == a)) [
    | inl same ↦ rw same (apart, strn_replace-Lacks str apart)
    | inr other ↦ rw other (other, strn_replace-Lacks str apart)
  ]

  pub length-strn_replace : (str : Bytes) (n : ℕ) → length (strn_replace str n a b) ≡ length str
  unfolding strn_replace
  length-strn_replace [] n = refl
  length-strn_replace (c ∷ str) zero = refl
  length-strn_replace (c ∷ str) (suc n) = ap suc (length-strn_replace str n)

take-all : (s : Bytes) (n : ℕ) → length s ≤ n → take n s ≡ s
take-all [] zero h = refl
take-all [] (suc n) h = refl
take-all (c ∷ s) zero h = absurd (omega arith)
take-all (c ∷ s) (suc n) h = ap (◌∷◌ c) (take-all s n (omega arith))

-- A name of at most 2048 bytes is decrypted to what was encrypted, for a cipher and an encoding that
-- are undone by their inverses, and whose text has no `^`.
pub my_decrypt-encrypt_base64 :
    (o : Openssl) (plaintext : Bytes)
    → o.decrypt (o.encrypt plaintext) ≡ some plaintext
    → o.of_base64 (o.to_base64 (o.encrypt plaintext)) ≡ some (o.encrypt plaintext)
    → Lacks b'^' (o.to_base64 (o.encrypt plaintext))
    → length plaintext ≤ 2048
    → my_decrypt_base64 o (my_encrypt_base64 o plaintext) ≡ ok plaintext
unfolding my_decrypt_base64 my_encrypt_base64
my_decrypt-encrypt_base64 o plaintext deciphered decoded no_caret short =
    let text = o.to_base64 (o.encrypt plaintext) in
    rw
      (
        length-strn_replace b'/' b'^' text (length text),
        strn_replace-back b'/' b'^' text (length text) no_caret,
        decoded,
        deciphered,
      )
      (ap ok (take-all plaintext 2048 short))
