-- ===== src/Fuse/Path.antt =====
-- fuse/path_util.c: the path of a file in the directory that holds the encrypted files.
use akiso.Prelude.{
  ℕ, ◌+◌, ◌≤◌, ◌<◌, ◌≡◌, refl, ap, ◌∙◌, Bool, true, false, List, [], ◌∷◌, ◌++◌, map, arith, ◌==◌,
  leb, ltb, if◌then◌else◌, Bytes, length, All, strcmp_eq, Bool-cases, inl, inr, ◌||◌,
}
use akiso.Prelude.Run.{Run, ok, fault}
use akiso.Fuse.Crypt.{Openssl, Lacks, strn_replace-Lacks, length-strn_replace, my_encrypt_base64}

-- A character in front of the tokens behind it: `joins` whether the token in front goes on with it.
abbrev pub push_char : ℕ → Bytes × List Bytes → Bytes × List Bytes
push_char c (token, tokens) = (c ∷ token, tokens)

abbrev pub end_token : Bytes × List Bytes → Bytes × List Bytes
end_token ([], tokens) = ([], tokens)
end_token (c ∷ token, tokens) = ([], (c ∷ token) ∷ tokens)

-- The token at the start, which may be empty, and the tokens behind it.
unfoldable pub split_path : Bytes → Bytes × List Bytes
split_path [] = ([], [])
split_path (c ∷ path) =
    if c == b'/' then end_token (split_path path) else push_char c (split_path path)

-- What `strtok_r` gives, call after call, with the delimiter `/`.
unfoldable pub path_tokens : Bytes → List Bytes
unfolding split_path
path_tokens path = (end_token (split_path path)).1

abbrev pub is_dots : Bytes → Bool
is_dots token = strcmp_eq token (b'.' ∷ []) || strcmp_eq token (b'.' ∷ b'.' ∷ [])

abbrev pub real_token : Openssl → Bytes → Bytes
real_token o token = if is_dots token then token else my_encrypt_base64 o token

-- The `while` loop: what is appended to `out_buff`.
unfoldable pub append_tokens : Openssl → List Bytes → Bytes
append_tokens o [] = []
append_tokens o (token ∷ tokens) = (b'/' ∷ real_token o token) ++ append_tokens o tokens

abbrev pub path_max : ℕ
path_max = 4096

abbrev pub starts_root : Bytes → Bool
starts_root [] = false
starts_root (c ∷ path) = c == b'/'

-- The content of `out_buff`. The copy of the path and the result must fit their buffers of PATH_MAX
-- bytes, the result with two terminators.
unfoldable pub get_real_path : Openssl → Bytes → Bytes → Run Bytes
unfolding path_tokens append_tokens
get_real_path o root_dir path =
    let out = root_dir ++ append_tokens o (path_tokens path) in
    if starts_root path
    then (if ltb (length path) path_max
        then (if leb (length out + 2) path_max then ok out else fault)
        else fault)
    else ok []

-- A token does not have the delimiter and is not empty.
abbrev pub IsToken : Bytes → Type 0
IsToken token = Lacks b'/' token × (0 < length token)

split_path-append :
    (token rest : Bytes) (tokens : List Bytes)
    → Lacks b'/' token
    → split_path rest ≡ ([], tokens)
    → split_path (token ++ rest) ≡ (token, tokens)
unfolding split_path
split_path-append [] rest tokens h e = e
split_path-append (c ∷ token) rest tokens (other, h) e =
    rw other (ap (push_char c) (split_path-append token rest tokens h e))

end_token-token :
    (token : Bytes) (tokens : List Bytes)
    → 0 < length token
    → end_token (token, tokens) ≡ ([], token ∷ tokens)
end_token-token [] tokens h = absurd (omega arith)
end_token-token (c ∷ token) tokens h = refl

module _ (o : Openssl) where
  split_path-append_tokens :
      (tokens : List Bytes)
      → All (λ token. IsToken (real_token o token)) tokens
      → split_path (append_tokens o tokens) ≡ ([], map (real_token o) tokens)
  unfolding split_path append_tokens
  split_path-append_tokens [] h = refl
  split_path-append_tokens (token ∷ tokens) ((no_slash, some_char), h) =
      ap end_token (
        split_path-append (real_token o token) (append_tokens o tokens) (map (real_token o) tokens)
          no_slash (split_path-append_tokens tokens h))
      ∙ end_token-token (real_token o token) (map (real_token o) tokens) some_char

  real_token-IsToken :
      (token : Bytes)
      → 0 < length (o.to_base64 (o.encrypt token))
      → IsToken token
      → IsToken (real_token o token)
  unfolding my_encrypt_base64
  real_token-IsToken token some_text is_token = elim (Bool-cases (is_dots token)) [
    | inl dots ↦ rw dots is_token
    | inr name ↦
        let text = o.to_base64 (o.encrypt token) in
        let same = length-strn_replace b'/' b'^' text (length text) in
        rw name (strn_replace-Lacks b'/' b'^' text refl, omega arith)
  ]

end_token-IsToken :
    (p : Bytes × List Bytes)
    → Lacks b'/' p.0 × All IsToken p.1
    → Lacks b'/' (end_token p).0 × All IsToken (end_token p).1
end_token-IsToken ([], tokens) h = h
end_token-IsToken (c ∷ token, tokens) (no_slash, h) = (tt, ((no_slash, omega arith), h))

split_path-IsToken :
    (path : Bytes) → Lacks b'/' (split_path path).0 × All IsToken (split_path path).1
unfolding split_path
split_path-IsToken [] = (tt, tt)
split_path-IsToken (c ∷ path) = elim (Bool-cases (c == b'/')) [
  | inl slash ↦ rw slash (end_token-IsToken (split_path path) (split_path-IsToken path))
  | inr other ↦ let (no_slash, h) = split_path-IsToken path in rw other ((other, no_slash), h)
]

All-real :
    (o : Openssl) (tokens : List Bytes)
    → ((token : Bytes) → 0 < length (o.to_base64 (o.encrypt token)))
    → All IsToken tokens
    → All (λ token. IsToken (real_token o token)) tokens
All-real o [] some_text h = tt
All-real o (token ∷ tokens) some_text (is_token, h) =
    (real_token-IsToken o token (some_text token) is_token, All-real o tokens some_text h)

path_tokens-append_tokens :
    (o : Openssl) (path : Bytes)
    → ((token : Bytes) → 0 < length (o.to_base64 (o.encrypt token)))
    → path_tokens (append_tokens o (path_tokens path)) ≡ map (real_token o) (path_tokens path)
unfolding path_tokens
path_tokens-append_tokens o path some_text =
    let tokens = (end_token (split_path path)).1 in
    let (_, are_tokens) = end_token-IsToken (split_path path) (split_path-IsToken path) in
    ap (λ p. (end_token p).1)
      (split_path-append_tokens o tokens (All-real o tokens some_text are_tokens))

-- If the cipher never gives an empty text, the real path of an absolute path that fits is the root
-- directory and behind it a path with the same number of components, in the same order: `.` and
-- `..` as they are, and every other one encrypted.
pub get_real_path-tokens :
    (o : Openssl) (root_dir path : Bytes)
    → ((token : Bytes) → 0 < length (o.to_base64 (o.encrypt token)))
    → starts_root path ≡ true
    → length path < path_max
    → length (root_dir ++ append_tokens o (path_tokens path)) + 2 ≤ path_max
    → (below : Bytes) × (get_real_path o root_dir path ≡ ok (root_dir ++ below))
      × (path_tokens below ≡ map (real_token o) (path_tokens path))
unfolding get_real_path
get_real_path-tokens o root_dir path some_text absolute short fits =
    let tokens = path_tokens path in
    let small : ltb (length path) path_max ≡ true = ground arith in
    let room : leb (length (root_dir ++ append_tokens o tokens) + 2) path_max ≡ true =
      ground arith in
    (append_tokens o tokens, rw (absolute, small, room), path_tokens-append_tokens o path some_text)
