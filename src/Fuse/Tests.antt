-- ===== src/Fuse/Tests.antt =====
-- The theorems on fuse/ with a cipher that puts three bytes in front, and an encoding that leaves the
-- character `^` out.
use akiso.Prelude.{
  ℕ, ◌+◌, ◌-◌, ◌≡◌, refl, ap, ap₂, false, some, [], ◌∷◌, ◌++◌, map, arith, if◌then◌else◌, Bytes,
  ltb, Bool-cases, inl, inr, ◌==◌, drop,
}
use akiso.Prelude.Int.{pos}
use akiso.Prelude.Text.{codes}
use akiso.Prelude.Run.{ok}
use akiso.Fuse.Crypt.{
  Openssl, Lacks, my_encrypt_base64, my_decrypt_base64, my_decrypt-encrypt_base64,
}
use akiso.Fuse.Path.{
  path_tokens, split_path, append_tokens, real_token, get_real_path, get_real_path-tokens,
}
use akiso.Fuse.Operations.{my_readdir}
use akiso.Fuse.Listing.{my_readdir-real_token}

abbrev skip : ℕ → ℕ
skip c = if ltb c b'^' then c else c + 1

abbrev unskip : ℕ → ℕ
unskip c = if ltb c b'^' then c else c - 1

abbrev openssl : Openssl
openssl = record {
  encrypt = λ p. b'k' ∷ b'e' ∷ b'y' ∷ p;
  decrypt = λ c. some (drop 3 c);
  to_base64 = λ b. map skip b;
  of_base64 = λ t. some (map unskip t);
}

unskip-skip : (b : Bytes) → map unskip (map skip b) ≡ b
unskip-skip [] = refl
unskip-skip (c ∷ b) = elim (Bool-cases (ltb c b'^')) [
  | inl low ↦ rw (low, low) (ap (◌∷◌ c) (unskip-skip b))
  | inr high ↦
      let above : ltb (c + 1) b'^' ≡ false = ground arith in
      rw (high, above) (ap₂ (λ x y. x ∷ y) (omega arith) (unskip-skip b))
]

skip-Lacks : (b : Bytes) → Lacks b'^' (map skip b)
skip-Lacks [] = tt
skip-Lacks (c ∷ b) = elim (Bool-cases (ltb c b'^')) [
  | inl low ↦ let other : (c == b'^') ≡ false = ground arith in rw low (other, skip-Lacks b)
  | inr high ↦ let other : (c + 1 == b'^') ≡ false = ground arith in rw high (other, skip-Lacks b)
]

my_decrypt-encrypt_base64_example :
    my_decrypt_base64 openssl (my_encrypt_base64 openssl (codes "a/b")) ≡ ok (codes "a/b")
my_decrypt-encrypt_base64_example =
    my_decrypt-encrypt_base64 openssl (codes "a/b") refl (ap some (unskip-skip (codes "keya/b")))
      (skip-Lacks (codes "keya/b")) (omega arith)

get_real_path-tokens_example :
    (below : Bytes) × (get_real_path openssl (codes "/root") (codes "/a/../b")
      ≡ ok (codes "/root" ++ below))
    × (path_tokens below ≡ map (real_token openssl) (path_tokens (codes "/a/../b")))
unfolding path_tokens split_path append_tokens my_encrypt_base64
get_real_path-tokens_example =
    get_real_path-tokens openssl (codes "/root") (codes "/a/../b") (λ token. omega arith) refl
      (omega arith) (omega arith)

my_readdir-real_token_example :
    my_readdir openssl
      (codes "/root")
      (λ _. some (map (real_token openssl) (codes "." ∷ codes "notes" ∷ [])))
      (codes "/")
      10
    ≡ ok (codes "." ∷ codes "notes" ∷ [], pos 0)
unfolding get_real_path
my_readdir-real_token_example =
    my_readdir-real_token openssl (λ p. refl) (λ b. ap some (unskip-skip b)) skip-Lacks
      (λ p. omega arith) (codes "/root")
      (λ _. some (map (real_token openssl) (codes "." ∷ codes "notes" ∷ []))) (codes "/")
      (codes "/root") (codes ".") (codes "notes" ∷ []) 10 refl refl (omega arith, (omega arith, tt))
      (omega arith)
