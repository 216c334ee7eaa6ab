-- ===== src/Secrets/Tests.antt =====
-- The theorems on secrets at concrete runs: the cipher is the identity, base64 reads bytes as they are.
use rust_basics.Prelude.{
  ℕ, ◌≡◌, ◌↔◌, refl, sym, str_ne, true, some, List, [], ◌∷◌, String, ok, err, length, take, ◌++◌,
  Result,
}
use rust_basics.Secrets.Compare.{constant_time_eq, constant_time_eq_iff}
use rust_basics.Secrets.Seal.{
  trim, from_file, from_base64, from_file-length, nonce_len, SealingKey, Crypto, seal, open_,
  open-seal,
}
use rust_basics.Secrets.Cache.{Shared, follow, insert_load, insert_store, get, insert_lost}

abbrev clear : Crypto
clear = record {
  encrypt = λ key nonce plain. some plain;
  decrypt = λ key nonce cipher. some cipher;
  decode = λ s. ok s;
  read_to_string = λ path. err path;
  decrypt-encrypt = λ key nonce plain cipher e. sym e;
}

abbrev key : SealingKey
key = record { bytes = [] }

abbrev nonce : List ℕ
nonce = 1 ∷ 2 ∷ 3 ∷ 4 ∷ 5 ∷ 6 ∷ 7 ∷ 8 ∷ 9 ∷ 10 ∷ 11 ∷ 12 ∷ []

abbrev sealed : List ℕ
sealed = 1 ∷ 2 ∷ 3 ∷ 4 ∷ 5 ∷ 6 ∷ 7 ∷ 8 ∷ 9 ∷ 10 ∷ 11 ∷ 12 ∷ 99 ∷ []

constant_time_eq_iff_example :
    (constant_time_eq (1 ∷ 2 ∷ []) (1 ∷ 3 ∷ []) ≡ true)
    ↔ (◌≡◌ {A = List ℕ} (1 ∷ 2 ∷ []) (1 ∷ 3 ∷ []))
constant_time_eq_iff_example = constant_time_eq_iff (1 ∷ 2 ∷ []) (1 ∷ 3 ∷ [])

open-seal_example : (open_ clear key sealed ≡ ok (99 ∷ [])) × (take nonce_len sealed ≡ nonce)
unfolding seal
open-seal_example = open-seal clear key nonce (99 ∷ []) sealed refl refl

abbrev cache : Shared ℕ
cache = record { inner = ("a", 1) ∷ []; next = λ i. [] }

insert_lost_example :
    let d =
      follow ℕ
        (insert_load 0 ∷ insert_load 1 ∷ insert_store 0 "b" 2 ∷ insert_store 1 "c" 3 ∷ [])
        cache in
    (get ℕ d.inner "b" ≡ get ℕ cache.inner "b") × (get ℕ d.inner "c" ≡ some 3)
insert_lost_example = insert_lost ℕ cache 0 1 "b" "c" 2 3 (str_ne "b" "c" refl)

-- A file system in which every file holds 32 bytes.
abbrev stored : Crypto
stored = record clear { read_to_string = λ path. ok (nonce ++ nonce ++ take 8 nonce) }

from_file-length_example :
    let bytes : List ℕ = nonce ++ nonce ++ take 8 nonce in
    (length bytes ≡ 32)
    × ((contents : List ℕ) × (◌≡◌ {A = Result String (List ℕ)} (ok bytes) (ok contents))
        × (◌≡◌ {A = Result String (List ℕ)} (ok (trim contents)) (ok bytes)))
unfolding from_file from_base64 trim
from_file-length_example =
    from_file-length stored "key" (record { bytes = nonce ++ nonce ++ take 8 nonce }) refl
