-- ===== src/Valkey/Atomic.antt =====
-- What is known of the server's contents when a command fails: the connection may be lost before the
-- server has run the command or after, but commands are atomic.
use rust_basics.Prelude.{◌≡◌, ◌∙◌, refl, ap, ◌⊎◌, inl, inr, Option, none, some, String, ok}
use rust_basics.Valkey.{
  write, add_member, remove_member, Server, IsServer, Json, return, lift, >>=-cases, get, set, del,
  set_add, set_remove, set_members, set_json, get_json, decode,
}

module _ (r : Server) (law : IsServer r) where
  open r use {S}
  open law use {view}

  pub record IsAtomic : Type 0 where
    pub get-any : (k : String) (s : S) → view (Server.get r k s).0 ≡ view s
    pub set-any :
        (k v : String) (s : S)
        → (view (Server.set r k v s).0 ≡ view s)
          ⊎ (view (Server.set r k v s).0 ≡ write k (some v) (view s))
    pub del-any :
        (k : String) (s : S)
        → (view (Server.del r k s).0 ≡ view s) ⊎ (view (Server.del r k s).0 ≡ write k none (view s))
    pub sadd-any :
        (k m : String) (s : S)
        → (view (Server.sadd r k m s).0 ≡ view s)
          ⊎ (view (Server.sadd r k m s).0 ≡ add_member k m (view s))
    pub srem-any :
        (k m : String) (s : S)
        → (view (Server.srem r k m s).0 ≡ view s)
          ⊎ (view (Server.srem r k m s).0 ≡ remove_member k m (view s))
    pub smembers-any : (k : String) (s : S) → view (Server.smembers r k s).0 ≡ view s

  module _ (atomic : IsAtomic) where
    open atomic use {get-any, set-any, del-any, sadd-any, srem-any, smembers-any}

    pub del_either :
        (k : String) (s : S)
        → (view (del r k s).0 ≡ view s) ⊎ (view (del r k s).0 ≡ write k none (view s))
    unfolding del
    del_either k s = elim (>>=-cases (Server.del r k) (λ _. return tt) s) [
      | inl (_, _, q) ↦ rw q (del-any k s)
      | inr (_, _, q) ↦ rw q (del-any k s)
    ]

    pub set_add_either :
        (k m : String) (s : S)
        → (view (set_add r k m s).0 ≡ view s) ⊎ (view (set_add r k m s).0 ≡ add_member k m (view s))
    unfolding set_add
    set_add_either k m s = elim (>>=-cases (Server.sadd r k m) (λ _. return tt) s) [
      | inl (_, _, q) ↦ rw q (sadd-any k m s)
      | inr (_, _, q) ↦ rw q (sadd-any k m s)
    ]

    pub set_remove_either :
        (k m : String) (s : S)
        → (view (set_remove r k m s).0 ≡ view s)
          ⊎ (view (set_remove r k m s).0 ≡ remove_member k m (view s))
    unfolding set_remove
    set_remove_either k m s = elim (>>=-cases (Server.srem r k m) (λ _. return tt) s) [
      | inl (_, _, q) ↦ rw q (srem-any k m s)
      | inr (_, _, q) ↦ rw q (srem-any k m s)
    ]

    pub set_members_kept : (k : String) (s : S) → view (set_members r k s).0 ≡ view s
    unfolding set_members
    set_members_kept k s = smembers-any k s

    module _ {T : Type 0} (json : Json T) where
      -- The text that is stored decodes to the value.
      pub set_json_either :
          (k : String) (t : T) (s : S)
          → (view (set_json r json k t none s).0 ≡ view s)
            ⊎ ((raw : String) × (Json.from_str json raw ≡ ok t)
                × (view (set_json r json k t none s).0 ≡ write k (some raw) (view s)))
      unfolding set_json set
      set_json_either k t s =
          elim (>>=-cases (lift (Json.to_string json t)) (λ raw. set r k raw none) s) [
            | inr (_, _, q) ↦ inl (rw q)
            | inl (raw, e, q) ↦ elim (set-any k raw s) [
              | inl same ↦ inl (rw q same)
              | inr put ↦ inr (raw, Json.from_str-to_string json t raw e, rw q put)
            ]
          ]

      decode_kept : (o : Option String) (s : S) → (decode r json o s).0 ≡ s
      unfolding decode
      decode_kept none s = refl
      decode_kept (some raw) s =
          elim (>>=-cases (lift (Json.from_str json raw)) (λ t. return (some t)) s) [
            | inl (_, _, q) ↦ rw q
            | inr (_, _, q) ↦ rw q
          ]

      pub get_json_kept : (k : String) (s : S) → view (get_json r json k s).0 ≡ view s
      unfolding get_json get
      get_json_kept k s = elim (>>=-cases (get r k) (decode r json) s) [
        | inl (o, _, q) ↦ rw q (ap view (decode_kept o (get r k s).0) ∙ get-any k s)
        | inr (_, _, q) ↦ rw q (get-any k s)
      ]
