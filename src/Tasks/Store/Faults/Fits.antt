-- ===== src/Tasks/Store/Faults/Fits.antt =====
-- What a single write does to contents that fit a shelf.
use rust_basics.Prelude.{
  ◌≡◌, ◌∙◌, sym, subst, Bool, true, false, Option, String, str_eq, str_eq_self, if◌then◌else◌,
}
use rust_basics.Valkey.{View, write, add_member, remove_member, Server, IsServer, Json}
use rust_basics.Tasks.Domain.{Task}
use rust_basics.Tasks.Store.{index_key, task_key}
use rust_basics.Tasks.Store.Contents.{kept, kept-write, indexed-write}
use rust_basics.Tasks.Store.Faults.{Shelf, put, set_index, Text, Fits}

module _ (r : Server) (law : IsServer r) (json : Json Task) where
  Text-if :
      (b : Bool) (k k' : Option String) (o o' : Option Task)
      → Text r law json k o
      → Text r law json k' o'
      → Text r law json (if b then k else k') (if b then o else o')
  Text-if true k k' o o' h h' = h
  Text-if false k k' o o' h h' = h'

  pub Fits-write :
      (id : String) (k : Option String) (o : Option Task) (v : View) (s : Shelf)
      → Text r law json k o
      → Fits r law json v s
      → Fits r law json (write (task_key id) k v) (put id o s)
  Fits-write id k o v s h fits j = (
    subst (λ k. Text r law json k (if str_eq id j then o else s.tasks j))
        (sym (kept-write id j k v)) (Text-if (str_eq id j) k (kept v j) o (s.tasks j) h (fits j).0),
    indexed-write id j k v ∙ (fits j).1,
  )

  mark_lem :
      (b : Bool) (id j : String) (was is : Bool)
      → was ≡ is
      → (if str_eq id j then b else was) ≡ (if str_eq id j then b else is)
  mark_lem b id j was is e = rw e

  pub Fits-add_member :
      (id : String) (v : View) (s : Shelf)
      → Fits r law json v s
      → Fits r law json (add_member index_key id v) (set_index id true s)
  Fits-add_member id v s fits j =
      ((fits j).0, rw (str_eq_self index_key) (mark_lem true id j _ _ (fits j).1))

  pub Fits-remove_member :
      (id : String) (v : View) (s : Shelf)
      → Fits r law json v s
      → Fits r law json (remove_member index_key id v) (set_index id false s)
  Fits-remove_member id v s fits j = ((fits j).0, mark_lem false id j _ _ (fits j).1)
