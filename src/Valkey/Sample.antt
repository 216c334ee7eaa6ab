-- ===== src/Valkey/Sample.antt =====
-- A server that keeps its texts and sets in memory and never fails, for the tests.
use rust_basics.Prelude.{
  ℕ, Result, ◌≡◌, refl, ap, sym, true, false, ◌&&◌, Option, none, some, List, [], ◌∷◌, String,
  str_eq, eq_iff, ok, err, ok-inj, if◌then◌else◌, arith, inl, inr, Bool-cases,
}
use rust_basics.Valkey.{View, elem, Server, IsServer}
use rust_basics.Valkey.Atomic.{IsAtomic}

pub record Memory : Type 0 where
  pub texts : String → Option String
  pub sets : String → List String

abbrev pub without : String → List String → List String
without m [] = []
without m (x ∷ xs) = let rest = without m xs in if str_eq m x then rest else x ∷ rest

abbrev pub put : String → Option String → Memory → Memory
put k o s = record {
  texts = λ j. if str_eq k j then o else s.texts j;
  sets = λ j. if str_eq k j then [] else s.sets j;
}

abbrev pub change : String → (List String → List String) → Memory → Memory
change k f s = record s { sets = λ j. if str_eq k j then f (s.sets j) else s.sets j }

abbrev pub memory : Server
memory = record {
  S = Memory;
  get = λ k s. (s, ok (s.texts k));
  set = λ k v s. (put k (some v) s, ok tt);
  set_ex = λ k v ttl s. (put k (some v) s, ok tt);
  del = λ k s. (put k none s, ok 1);
  sadd = λ k m s. (change k (λ l. m ∷ l) s, ok 1);
  srem = λ k m s. (change k (without m) s, ok 1);
  smembers = λ k s. (s, ok (s.sets k));
  ping = λ s. (s, ok tt);
}

abbrev pub contents : Memory → View
contents s = record { text = s.texts; member = λ k m. elem m (s.sets k) }

pub elem-put :
    (k j m : String) (l : List String)
    → elem m (if str_eq k j then [] else l) ≡ (if str_eq k j then false else elem m l)
elem-put k j m l = elim (Bool-cases (str_eq k j)) [ inl e ↦ ground arith | inr e ↦ ground arith ]

pub elem-without :
    (m n : String) (l : List String)
    → elem n (without m l) ≡ (if str_eq m n then false else elem n l)
elem-without m n [] = ground arith
elem-without m n (x ∷ xs) =
    let ih = elem-without m n xs in
    let a = eq_iff m x in let b = eq_iff m n in let c = eq_iff x n in grind arith

pub elem-add :
    (k j m n : String) (l : List String)
    → elem n (if str_eq k j then m ∷ l else l)
      ≡ (if str_eq k j && str_eq m n then true else elem n l)
elem-add k j m n l = elim (Bool-cases (str_eq k j)) [ inl e ↦ ground arith | inr e ↦ ground arith ]

pub elem-remove :
    (k j m n : String) (l : List String)
    → elem n (if str_eq k j then without m l else l)
      ≡ (if str_eq k j && str_eq m n then false else elem n l)
elem-remove k j m n l = elim (Bool-cases (str_eq k j)) [
  | inl e ↦ rw e (elem-without m n l)
  | inr e ↦ ground arith
]

abbrev pub memory-IsServer : IsServer memory
memory-IsServer = record {
  view = contents;
  get-ok = λ k s o h. (sym (ok-inj h), refl);
  set-ok = λ k v s h i. record {
    text = λ j. if str_eq k j then some v else s.texts j;
    member = λ j m. elem-put k j m (s.sets j) i;
  };
  del-ok = λ k s n h i. record {
    text = λ j. if str_eq k j then none else s.texts j;
    member = λ j m. elem-put k j m (s.sets j) i;
  };
  sadd-ok = λ k m s n h i. record { text = s.texts; member = λ j x. elem-add k j m x (s.sets j) i };
  srem-ok =
      λ k m s n h i. record { text = s.texts; member = λ j x. elem-remove k j m x (s.sets j) i };
  smembers-ok = λ k s l h. (λ m. ap (elem m) (sym (ok-inj h)), refl);
}

-- The same server, when it refuses to add to sets.
abbrev pub flaky : Server
flaky = record memory { sadd = λ k m s. (s, err "timeout") }

pub refused : {A : Type 0} {n : ℕ} → ◌≡◌ {A = Result String ℕ} (err "timeout") (ok n) → A
refused e = cc

abbrev pub flaky-IsServer : IsServer flaky
flaky-IsServer = record {
  view = contents;
  get-ok = memory-IsServer.get-ok;
  set-ok = memory-IsServer.set-ok;
  del-ok = memory-IsServer.del-ok;
  sadd-ok = λ k m s n h. refused h;
  srem-ok = memory-IsServer.srem-ok;
  smembers-ok = memory-IsServer.smembers-ok;
}

pub flaky-IsAtomic : IsAtomic flaky flaky-IsServer
flaky-IsAtomic = record {
  get-any = λ k s. refl;
  set-any = λ k v s. inr (memory-IsServer.set-ok k v s refl);
  del-any = λ k s. inr (memory-IsServer.del-ok k s 1 refl);
  sadd-any = λ k m s. inl refl;
  srem-any = λ k m s. inr (memory-IsServer.srem-ok k m s 1 refl);
  smembers-any = λ k s. refl;
}
