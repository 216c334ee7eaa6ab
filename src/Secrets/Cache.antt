-- ===== src/Secrets/Cache.antt =====
-- crates/secrets/src/cache.rs: `SecretCache`, a map that is swapped whole. The `ArcSwap` cell holds
-- one map: a load reads it, a store replaces it. `insert` is a load and then a store, and those of
-- several threads interleave.
use mathlib.Core.Logic.{ite, if_pos}
use native.Mathlib.Decide.{ℕ_discrete}
use rust_basics.Prelude.{
  ℕ, ◌≡◌, ◌≢◌, refl, sym, ◌∙◌, ◌↔◌, Bool, true, false, Option, none, some, List, [], ◌∷◌, String,
  str_eq, str_eq_self, not_str_eq, lookup, insert as map_insert, lookup-insert, length, arith,
  if◌then◌else◌,
}

-- The secrets themselves are opaque: `S` is `Arc<SecretString>`.
module _ (S : Type 0) where
  abbrev pub SecretMap : Type 0
  SecretMap = List (String × S)

  unfoldable pub new : SecretMap
  new = []

  unfoldable pub get : SecretMap → String → Option S
  get inner name = lookup name inner

  unfoldable pub len : SecretMap → ℕ
  len inner = length inner

  unfoldable pub is_empty : SecretMap → Bool
  is_empty [] = true
  is_empty (_ ∷ _) = false

  -- The cell, and the copy of the map that each thread works on.
  pub record Shared : Type 0 where
    pub inner : SecretMap
    pub next : ℕ → SecretMap

  -- `replace` is one store; `insert` is a load that copies the map, and a store of the copy with
  -- the secret added.
  pub data Access : Type 0 where
    replace : SecretMap → Access
    insert_load : ℕ → Access
    insert_store : ℕ → String → S → Access

  unfoldable pub act : Access → Shared → Shared
  act (replace secrets) c = record c { inner = secrets }
  act (insert_load i) c = record c { next = λ j. ite (ℕ_discrete i j) c.inner (c.next j) }
  act (insert_store i name secret) c = record c { inner = map_insert name secret (c.next i) }

  unfoldable pub follow : List Access → Shared → Shared
  follow [] c = c
  follow (a ∷ rest) c = follow rest (act a c)

  -- `insert` of thread `i` with nothing in between.
  abbrev pub insert : ℕ → String → S → List Access
  insert i name secret = insert_load i ∷ insert_store i name secret ∷ []

  -- The map is empty exactly when its size is 0, and a new cache has no secret.
  is_empty_iff :
      (inner : SecretMap) (name : String)
      → ((is_empty inner ≡ true) ↔ (len inner ≡ 0)) × (get new name ≡ none)
  unfolding is_empty len get new lookup
  is_empty_iff [] name = ((λ _. refl, λ _. refl), refl)
  is_empty_iff (x ∷ inner) name = ((λ e. cc, λ e. absurd (omega arith)), refl)

  -- An insertion that nothing interrupts, as it starts from any state of the cache, sets its own
  -- name and keeps every other secret; a replacement swaps the whole map.
  get-insert :
      (c : Shared) (i : ℕ) (name other : String) (secret : S) (secrets : SecretMap)
      → (get (follow (insert i name secret) c).inner other
          ≡ (if str_eq name other then some secret else get c.inner other))
        × (get (follow (replace secrets ∷ []) c).inner other ≡ get secrets other)
  unfolding follow act get
  get-insert c i name other secret secrets =
      (rw (if_pos (ℕ_discrete i i) refl, get) (lookup-insert name other secret c.inner), refl)

  -- Two insertions of different names that both load before either stores lose the first: its name
  -- has what it had before, and only the second is kept.
  pub insert_lost :
      (c : Shared) (i j : ℕ) (first second : String) (s t : S)
      → first ≢ second
      → let d =
          follow
            (insert_load i ∷ insert_load j ∷ insert_store i first s ∷ insert_store j second t ∷ [])
            c in
        (get d.inner first ≡ get c.inner first) × (get d.inner second ≡ some t)
  unfolding follow act get
  insert_lost c i j first second s t differ =
      let apart : str_eq second first ≡ false = not_str_eq second first (λ e. differ (sym e)) in
      (
        rw (if_pos (ℕ_discrete j j) refl, get) (lookup-insert second first t c.inner ∙ rw apart),
        rw (if_pos (ℕ_discrete j j) refl, get)
            (lookup-insert second second t c.inner ∙ rw (str_eq_self second)),
      )
