-- ===== src/Valkey/Laws.antt =====
-- What the methods of the cache do to the server's contents, when they succeed.
use rust_basics.Prelude.{◌≡◌, ◌∙◌, subst, ap, refl, Option, none, some, List, String, ok, arith}
use rust_basics.Monad.{return, lift, >>=-ok}
use rust_basics.Valkey.{
  View, write, add_member, remove_member, elem, Server, IsServer, Json, get, set, del, set_add,
  set_remove, set_members, set_json, get_json, decode,
}

module _ (r : Server) (law : IsServer r) where
  open r use {S}
  open law use {view, get-ok, set-ok, del-ok, sadd-ok, srem-ok, smembers-ok}

  get_lem :
      (k : String) (s : S) (o : Option String)
      → (get r k s).1 ≡ ok o
      → (o ≡ View.text (view s) k) × (view (get r k s).0 ≡ view s)
  unfolding get
  get_lem k s o h = get-ok k s o h

  pub del_lem :
      (k : String) (s : S) → (del r k s).1 ≡ ok tt → view (del r k s).0 ≡ write k none (view s)
  unfolding del
  del_lem k s h =
      let (n, e, _, q) = >>=-ok (Server.del r k) (λ _. return tt) s h in rw q (del-ok k s n e)

  pub set_add_lem :
      (k m : String) (s : S)
      → (set_add r k m s).1 ≡ ok tt
      → view (set_add r k m s).0 ≡ add_member k m (view s)
  unfolding set_add
  set_add_lem k m s h =
      let (n, e, _, q) = >>=-ok (Server.sadd r k m) (λ _. return tt) s h in rw q (sadd-ok k m s n e)

  pub set_remove_lem :
      (k m : String) (s : S)
      → (set_remove r k m s).1 ≡ ok tt
      → view (set_remove r k m s).0 ≡ remove_member k m (view s)
  unfolding set_remove
  set_remove_lem k m s h =
      let (n, e, _, q) = >>=-ok (Server.srem r k m) (λ _. return tt) s h in rw q (srem-ok k m s n e)

  pub set_members_lem :
      (k : String) (s : S) (l : List String)
      → (set_members r k s).1 ≡ ok l
      → ((m : String) → elem m l ≡ View.member (view s) k m) × (view (set_members r k s).0 ≡ view s)
  unfolding set_members
  set_members_lem k s l h = smembers-ok k s l h

  module _ {T : Type 0} (json : Json T) where
    -- A value that is read is what the text under the key decodes to.
    abbrev pub Decoded : Option String → Option T → Type 0
    Decoded none none = Unit {0}
    Decoded none (some t) = ⊥
    Decoded (some raw) none = ⊥
    Decoded (some raw) (some t) = Json.from_str json raw ≡ ok t

    pub set_json_lem :
        (k : String) (t : T) (s : S)
        → (set_json r json k t none s).1 ≡ ok tt
        → (raw : String) × (Json.from_str json raw ≡ ok t)
          × (view (set_json r json k t none s).0 ≡ write k (some raw) (view s))
    unfolding set_json set
    set_json_lem k t s h =
        let (raw, e, stored, q) =
          >>=-ok (lift (Json.to_string json t)) (λ payload. set r k payload none) s h in
        (raw, Json.from_str-to_string json t raw e, rw q (set-ok k raw s stored))

    decode_lem :
        (o : Option String) (s : S) (t : Option T)
        → (decode r json o s).1 ≡ ok t
        → Decoded o t × ((decode r json o s).0 ≡ s)
    unfolding decode
    decode_lem none s none h = (tt, refl)
    decode_lem none s (some t) h = cc
    decode_lem (some raw) s none h = ground arith
    decode_lem (some raw) s (some t) h = (ground arith, ground arith)

    pub get_json_lem :
        (k : String) (s : S) (t : Option T)
        → (get_json r json k s).1 ≡ ok t
        → Decoded (View.text (view s) k) t × (view (get_json r json k s).0 ≡ view s)
    unfolding get_json
    get_json_lem k s t h =
        let (o, e, decoded, q) = >>=-ok (get r k) (decode r json) s h in
        let got = get_lem k s o e in
        let read = decode_lem o (get r k s).0 t decoded in
        (subst (λ o. Decoded o t) got.0 read.0, rw q (ap view read.1 ∙ got.1))
