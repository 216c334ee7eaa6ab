-- ===== src/Valkey.antt =====
-- crates/valkey/src/lib.rs: the cache handle over a Valkey server. The server and its client library
-- are no code of the repository: `Server` is what the crate calls, and `IsServer` what the commands
-- are documented to do when they succeed. A command that fails promises nothing.
pub mod Config
pub mod Probe
pub mod Connect
pub mod Laws
pub mod Atomic
pub mod Sample
pub use rust_basics.Monad.{M, return, lift, ◌>>=◌, ◌>>◌, >>=-ok, >>=-cases}
use rust_basics.Prelude.{
  ℕ, ◌≡◌, refl, ◌/◌, Bool, true, false, not, ◌&&◌, ◌||◌, Option, none, some, List, [], ◌∷◌, String,
  str_eq, Result, ok, err, if◌then◌else◌, max,
}

-- What a server holds, seen from outside: a text under some keys, a set under others.
pub record View : Type 0 where
  pub text : String → Option String
  pub member : String → String → Bool

abbrev pub write : String → Option String → View → View
write k o v = record {
  text = λ j. if str_eq k j then o else v.text j;
  member = λ j m. if str_eq k j then false else v.member j m;
}

abbrev pub add_member : String → String → View → View
add_member k m v = record v {
  member = λ j n. if str_eq k j && str_eq m n then true else v.member j n;
}

abbrev pub remove_member : String → String → View → View
remove_member k m v = record v {
  member = λ j n. if str_eq k j && str_eq m n then false else v.member j n;
}

abbrev pub elem : String → List String → Bool
elem m [] = false
elem m (x ∷ xs) = str_eq x m || elem m xs

pub record Server : Type 1 where
  pub S : Type 0
  pub get : String → S → S × Result String (Option String)
  pub set : String → String → S → S × Result String (Unit {0})
  pub set_ex : String → String → ℕ → S → S × Result String (Unit {0})
  pub del : String → S → S × Result String ℕ
  pub sadd : String → String → S → S × Result String ℕ
  pub srem : String → String → S → S × Result String ℕ
  pub smembers : String → S → S × Result String (List String)
  pub ping : S → S × Result String (Unit {0})

-- The commands that a store without expiry uses, where they succeed.
pub record IsServer (r : Server) : Type 0 where
  pub view : Server.S r → View
  pub get-ok :
      (k : String) (s : Server.S r) (o : Option String)
      → (Server.get r k s).1 ≡ ok o
      → (o ≡ View.text (view s) k) × (view (Server.get r k s).0 ≡ view s)
  pub set-ok :
      (k v : String) (s : Server.S r)
      → (Server.set r k v s).1 ≡ ok tt
      → view (Server.set r k v s).0 ≡ write k (some v) (view s)
  pub del-ok :
      (k : String) (s : Server.S r) (n : ℕ)
      → (Server.del r k s).1 ≡ ok n
      → view (Server.del r k s).0 ≡ write k none (view s)
  pub sadd-ok :
      (k m : String) (s : Server.S r) (n : ℕ)
      → (Server.sadd r k m s).1 ≡ ok n
      → view (Server.sadd r k m s).0 ≡ add_member k m (view s)
  pub srem-ok :
      (k m : String) (s : Server.S r) (n : ℕ)
      → (Server.srem r k m s).1 ≡ ok n
      → view (Server.srem r k m s).0 ≡ remove_member k m (view s)
  pub smembers-ok :
      (k : String) (s : Server.S r) (l : List String)
      → (Server.smembers r k s).1 ≡ ok l
      → ((m : String) → elem m l ≡ View.member (view s) k m)
        × (view (Server.smembers r k s).0 ≡ view s)

-- How `serde_json` writes and reads values of a type.
pub record Json (T : Type 0) : Type 0 where
  pub to_string : T → Result String String
  pub from_str : String → Result String T
  pub from_str-to_string : (t : T) (s : String) → to_string t ≡ ok s → from_str s ≡ ok t

module _ (r : Server) where
  open r use {
    S, get as server_get, set as server_set, set_ex, del as server_del, sadd, srem, smembers,
  }

  unfoldable pub get : String → M S (Option String)
  get key = server_get key

  -- A time-to-live in milliseconds; below a second it is one second.
  unfoldable pub set : String → String → Option ℕ → M S (Unit {0})
  set key value none = server_set key value
  set key value (some ttl) = set_ex key value (max (ttl / 1000) 1)

  unfoldable pub del : String → M S (Unit {0})
  del key = do _ ← server_del key; return tt

  unfoldable pub set_add : String → String → M S (Unit {0})
  set_add key member = do _ ← sadd key member; return tt

  unfoldable pub set_remove : String → String → M S (Unit {0})
  set_remove key member = do _ ← srem key member; return tt

  unfoldable pub set_members : String → M S (List String)
  set_members key = smembers key

  module _ {T : Type 0} (json : Json T) where
    unfoldable pub set_json : String → T → Option ℕ → M S (Unit {0})
    set_json key value ttl = do payload ← lift (Json.to_string json value); set key payload ttl

    decode : Option String → M S (Option T)
    decode none = return none
    decode (some raw) = do value ← lift (Json.from_str json raw); return (some value)

    unfoldable pub get_json : String → M S (Option T)
    unfolding decode
    get_json key = do raw ← get key; decode raw
