-- ===== src/Secrets/Seal.antt =====
-- crates/secrets/src/lib.rs: keys, `seal` and `open`, over lists of bytes.
use rust_basics.Prelude.{
  ℕ, ◌≤◌, ◌<◌, ◌≡◌, ◌↔◌, ◌≢◌, inl, inr, Bool, true, false, ◌||◌, ◌&&◌, Option, none, some, List, [],
  ◌∷◌, ◌++◌, String, Result, ok, err, ◌>>=◌, length, length-append, take, drop, length-take,
  take-append, drop-append, Option-cases, Result-cases, Bool-cases, sym, subst, ok-inj, false≢true,
  ==_iff, ◌∙◌, arith, ltb, leb, ◌==◌, if◌then◌else◌,
}
use mathlib.Core.List.{reverse}
use mathlib.Core.Option.{none-ne-some}
use native.Mathlib.Decide.{dec_lt}

abbrev pub nonce_len : ℕ
nonce_len = 12

abbrev pub key_len : ℕ
key_len = 32

pub data SecretsError : Type 0 where
  decrypt_failed : SecretsError
  malformed : String → SecretsError
  key_length : ℕ → SecretsError
  base64 io : String → SecretsError

pub record SealingKey : Type 0 where
  pub bytes : List ℕ

-- What the crate takes from `aes_gcm`, `base64` and the file system. The cipher gives back what it
-- encrypted, under the same key and nonce.
pub record Crypto : Type 1 where
  pub encrypt : List ℕ → List ℕ → List ℕ → Option (List ℕ)
  pub decrypt : List ℕ → List ℕ → List ℕ → Option (List ℕ)
  pub decode : List ℕ → Result String (List ℕ)
  pub read_to_string : String → Result String (List ℕ)
  pub decrypt-encrypt :
      (key nonce plain cipher : List ℕ)
      → encrypt key nonce plain ≡ some cipher
      → decrypt key nonce cipher ≡ some plain

-- `char::is_whitespace`
unfoldable pub is_whitespace : ℕ → Bool
is_whitespace c =
    (leb 9 c && leb c 13)
    || c == 32
    || c == 0x85
    || c == 0xa0
    || c == 0x1680
    || (leb 0x2000 c && leb c 0x200a)
    || c == 0x2028
    || c == 0x2029
    || c == 0x202f
    || c == 0x205f
    || c == 0x3000

unfoldable pub trim_start : List ℕ → List ℕ
unfolding is_whitespace
trim_start [] = []
trim_start (c ∷ s) = let rest = trim_start s in if is_whitespace c then rest else c ∷ s

-- `str::trim`
unfoldable pub trim : List ℕ → List ℕ
unfolding trim_start
trim s = reverse (trim_start (reverse (trim_start s)))

module _ (crypto : Crypto) where
  open crypto use {encrypt, decrypt, decode, read_to_string, decrypt-encrypt}

  unfoldable pub from_base64 : List ℕ → Result SecretsError SealingKey
  unfolding trim
  from_base64 s = elim (decode (trim s)) [
    | err e ↦ err (base64 e)
    | ok bytes ↦
        if length bytes == key_len
        then ok (record { bytes = bytes })
        else err (key_length (length bytes))
  ]

  unfoldable pub from_file : String → Result SecretsError SealingKey
  from_file path = elim (read_to_string path) [
    | err e ↦ err (io e)
    | ok contents ↦ from_base64 contents
  ]

  -- `seal` with the random nonce that it draws; `none` stands for its panic.
  unfoldable pub seal : SealingKey → List ℕ → List ℕ → Option (List ℕ)
  seal key nonce plaintext = elim (encrypt key.bytes nonce plaintext) [
    | none ↦ none
    | some ciphertext ↦ some (nonce ++ ciphertext)
  ]

  -- `<&Nonce>::try_from`
  to_nonce : List ℕ → Result SecretsError (List ℕ)
  to_nonce bytes = if length bytes == nonce_len then ok bytes else err (malformed "nonce length")

  -- `map_err(|_| SecretsError::Decrypt)`
  decrypted : Option (List ℕ) → Result SecretsError (List ℕ)
  decrypted none = err decrypt_failed
  decrypted (some plain) = ok plain

  unfoldable pub open_ : SealingKey → List ℕ → Result SecretsError (List ℕ)
  unfolding to_nonce decrypted
  open_ key sealed =
      if ltb (length sealed) nonce_len then err (malformed "shorter than nonce") else (do
        nonce ← to_nonce (take nonce_len sealed)
        decrypted (decrypt key.bytes nonce (drop nonce_len sealed)))

  -- A blob that holds a nonce is decrypted.
  open-decrypted :
      (key : SealingKey) (sealed : List ℕ)
      → nonce_len ≤ length sealed
      → open_ key sealed
        ≡ decrypted (decrypt key.bytes (take nonce_len sealed) (drop nonce_len sealed))
  unfolding open_
  open-decrypted key sealed h =
      let short : ltb (length sealed) nonce_len ≡ false = ground arith in
      let exact : (length (take nonce_len sealed) == nonce_len) ≡ true =
        ground (arith, length-take nonce_len sealed) in
      rw (short, exact, open_)

  open-short :
      (key : SealingKey) (sealed : List ℕ)
      → length sealed < nonce_len
      → open_ key sealed ≡ err (malformed "shorter than nonce")
  unfolding open_
  open-short key sealed h =
      let short : ltb (length sealed) nonce_len ≡ true = ground arith in rw (short, open_)

  decrypted_sound : (o : Option (List ℕ)) (m : String) → decrypted o ≢ err (malformed m)
  unfolding decrypted
  decrypted_sound none m e = cc
  decrypted_sound (some plain) m e = cc

  -- What was sealed under a 12-byte nonce opens again under the same key, and the sealed blob is the
  -- nonce and then the ciphertext.
  pub open-seal :
      (key : SealingKey) (nonce plain sealed : List ℕ)
      → length nonce ≡ nonce_len
      → seal key nonce plain ≡ some sealed
      → (open_ key sealed ≡ ok plain) × (take nonce_len sealed ≡ nonce)
  unfolding seal decrypted
  open-seal key nonce plain sealed n e = elim (Option-cases (encrypt key.bytes nonce plain)) [
    | inl failed ↦ absurd (none-ne-some sealed (rw (failed, seal) at e))
    | inr (c, done) ↦
        let layout : nonce ++ c ≡ sealed = ground arith in
        let front = take-append nonce_len nonce c n in
        let back = drop-append nonce_len nonce c n in
        let long : nonce_len ≤ length (nonce ++ c) = omega (arith, length-append nonce c) in
        rw (← layout) (
          open-decrypted key (nonce ++ c) long
              ∙ rw (front, back, decrypt-encrypt key.bytes nonce plain c done),
          front,
        )
  ]

  -- `open` calls a blob malformed exactly when it is shorter than a nonce, and only with that text:
  -- the check of the nonce's length after the split never fails.
  open-malformed :
      (key : SealingKey) (sealed : List ℕ) (m : String)
      → (open_ key sealed ≡ err (malformed m))
        ↔ ((length sealed < nonce_len) × (m ≡ "shorter than nonce"))
  open-malformed key sealed m = elim (dec_lt (length sealed) nonce_len) [
    | yes short ↦ rw (open-short key sealed short) (λ e. (short, cc), λ h. rw (h.1))
    | no long ↦
        rw (open-decrypted key sealed (omega arith))
          (λ e. absurd (decrypted_sound _ m e), λ h. absurd (long h.0))
  ]

  -- A key from base64 has exactly 32 bytes, and decoded bytes of another number are refused with
  -- that number.
  from_base64-length :
      (s : List ℕ) (bytes : List ℕ)
      → decode (trim s) ≡ ok bytes
      → (length bytes ≡ key_len → from_base64 s ≡ ok (record { bytes = bytes }))
        × (length bytes ≢ key_len → from_base64 s ≡ err (key_length (length bytes)))
  unfolding from_base64
  from_base64-length s bytes e = (ground arith, ground arith)

  err≢ok :
      {key : SealingKey} (x : SecretsError)
      → ◌≡◌ {A = Result SecretsError SealingKey} (err x) (ok key)
      → ⊥
  err≢ok x e = cc

  decoded_key :
      (s : List ℕ) (key : SealingKey)
      → from_base64 s ≡ ok key
      → (length key.bytes ≡ key_len) × (decode (trim s) ≡ ok key.bytes)
  unfolding from_base64
  decoded_key s key e = elim (Result-cases (decode (trim s))) [
    | inr (x, failed) ↦ absurd (err≢ok (base64 x) (rw (failed, from_base64) at e))
    | inl (bytes, done) ↦ elim (Bool-cases (length bytes == key_len)) [
      | inr other ↦
          let long : length bytes ≢ key_len = λ q. false≢true (sym other ∙ (==_iff _ _).1 q) in
          absurd (
            err≢ok (key_length (length bytes)) (sym ((from_base64-length s bytes done).1 long) ∙ e))
      | inl exact ↦
          let long : length bytes ≡ key_len = (==_iff _ _).0 exact in
          let same = ok-inj (sym ((from_base64-length s bytes done).0 long) ∙ e) in
          subst (λ k. (length k.bytes ≡ key_len) × (decode (trim s) ≡ ok k.bytes)) same (long, done)
    ]
  ]

  -- Every key that is read from a file has exactly 32 bytes, and they are what the trimmed contents
  -- of the file decode to.
  pub from_file-length :
      (path : String) (key : SealingKey)
      → from_file path ≡ ok key
      → (length key.bytes ≡ key_len)
        × ((contents : List ℕ) × (read_to_string path ≡ ok contents)
            × (decode (trim contents) ≡ ok key.bytes))
  unfolding from_file
  from_file-length path key e = elim (Result-cases (read_to_string path)) [
    | inr (x, failed) ↦ absurd (err≢ok (io x) (rw (failed, from_file) at e))
    | inl (contents, read) ↦
        let (exact, decoded) = decoded_key contents key (rw (read, from_file) at e) in
        (exact, (contents, read, decoded))
  ]
