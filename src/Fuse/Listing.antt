-- ===== src/Fuse/Listing.antt =====
-- What `my_readdir` of fuse/realmain.c shows of a directory whose entries the other operations made.
use akiso.Prelude.{
  ℕ, ◌-◌, ◌≤◌, ◌<◌, ◌≡◌, refl, false, Option, some, List, [], ◌∷◌, map, arith, Bytes, length, leb,
  All, Bool-cases, inl, inr, ◌==◌,
}
use akiso.Prelude.Int.{pos}
use akiso.Prelude.Run.{ok}
use akiso.Fuse.Crypt.{
  Openssl, Lacks, strn_replace, length-strn_replace, my_encrypt_base64, my_decrypt-encrypt_base64,
}
use akiso.Fuse.Path.{get_real_path, is_dots, real_token}
use akiso.Fuse.Operations.{fill, shown_name, my_readdir}

is_dots-long : (s : Bytes) → 2 < length s → is_dots s ≡ false
is_dots-long [] h = absurd (omega arith)
is_dots-long (a ∷ []) h = absurd (omega arith)
is_dots-long (a ∷ b ∷ []) h = absurd (omega arith)
is_dots-long (a ∷ b ∷ c ∷ s) h = elim (Bool-cases (a == b'.')) [
  | inr other ↦ rw other refl
  | inl dot ↦ elim (Bool-cases (b == b'.')) [
    | inl dot' ↦ rw (dot, dot') refl
    | inr other ↦ rw (dot, other) refl
  ]
]

module _ (o : Openssl)
    (deciphered : (plaintext : Bytes) → o.decrypt (o.encrypt plaintext) ≡ some plaintext)
    (decoded : (b : Bytes) → o.of_base64 (o.to_base64 b) ≡ some b)
    (no_caret : (b : Bytes) → Lacks b'^' (o.to_base64 b))
    (long : (plaintext : Bytes) → 2 < length (o.to_base64 (o.encrypt plaintext)))
    (root_dir : Bytes) where
  not_dots : (name : Bytes) → is_dots (my_encrypt_base64 o name) ≡ false
  unfolding my_encrypt_base64
  not_dots name =
      let text = o.to_base64 (o.encrypt name) in
      let same = length-strn_replace b'/' b'^' text (length text) in
      let enough = long name in
      is_dots-long (strn_replace text (length text) b'/' b'^') (omega arith)

  shown_name-real_token :
      (name : Bytes) → length name ≤ 2048 → shown_name o root_dir (real_token o name) ≡ ok name
  unfolding shown_name
  shown_name-real_token name short = elim (Bool-cases (is_dots name)) [
    | inl dots ↦ rw (dots, dots) refl
    | inr other ↦
        rw (other, not_dots name)
          (my_decrypt-encrypt_base64 o name (deciphered name) (decoded (o.encrypt name))
            (no_caret (o.encrypt name)) short)
  ]

  fill-real_token :
      (names : List Bytes) (room : ℕ)
      → All (λ name. length name ≤ 2048) names
      → length names ≤ room
      → fill o root_dir room (map (real_token o) names) ≡ ok (names, pos 0)
  unfolding fill
  fill-real_token [] room short enough = refl
  fill-real_token (name ∷ names) room (short, others) enough =
      let more : leb room 0 ≡ false = ground arith in
      rw
        (
          shown_name-real_token name short,
          more,
          fill-real_token names (room - 1) others (omega arith),
        )
        refl

  -- For a cipher and an encoding that are undone by their inverses, and whose texts have no `^` and
  -- more than two characters: a directory that has at least one entry, whose entries are the real
  -- names of `names` (`.` and `..` as they are, the others encrypted), each of at most 2048 bytes, is
  -- listed as `names`, in the same order, when the filler takes them all.
  pub my_readdir-real_token :
      (entries : Bytes → Option (List Bytes)) (path real_path name : Bytes) (names : List Bytes)
      (room : ℕ)
      → get_real_path o root_dir path ≡ ok real_path
      → entries real_path ≡ some (map (real_token o) (name ∷ names))
      → All (λ n. length n ≤ 2048) (name ∷ names)
      → length (name ∷ names) ≤ room
      → my_readdir o root_dir entries path room ≡ ok (name ∷ names, pos 0)
  unfolding my_readdir
  my_readdir-real_token entries path real_path name names room at listed short enough =
      rw (at, listed) (fill-real_token (name ∷ names) room short enough)
