-- ===== src/Httpx/Problem.antt =====
-- crates/httpx/src/problem.rs: RFC 9457 error bodies. A JSON object is an association list.
use rust_basics.Prelude.{
  ℕ, ◌≡◌, ◌≢◌, sym, not_str_eq, Option, none, some, List, [], String, str_eq, lookup, insert,
  lookup-insert, arith, if◌then◌else◌,
}

-- A JSON value; `other` is any value that is neither a text nor a natural number, by its notation.
pub data Value : Type 0 where
  text : String → Value
  number : ℕ → Value
  other : String → Value

abbrev pub problem_content_type : String
problem_content_type = "application/problem+json"

pub record Problem : Type 0 where
  pub status : ℕ
  pub type_uri : Option String
  pub title : Option String
  pub detail : Option String
  pub instance_ : Option String
  pub extensions : List (String × Value)

unfoldable pub new : ℕ → String → Problem
new status detail = record {
  status = status;
  type_uri = none;
  title = none;
  detail = some detail;
  instance_ = none;
  extensions = [];
}

unfoldable pub with_type : Problem → String → Problem
with_type p uri = record p { type_uri = some uri }

unfoldable pub with_title : Problem → String → Problem
with_title p title = record p { title = some title }

unfoldable pub with_instance : Problem → String → Problem
with_instance p uri = record p { instance_ = some uri }

unfoldable pub with_extension : Problem → String → Value → Problem
with_extension p key value = record p { extensions = insert key value p.extensions }

abbrev or_else : Option String → String → String
or_else none d = d
or_else (some s) d = s

-- A member that is left out when it is not set.
insert_some : String → Option String → List (String × Value) → List (String × Value)
insert_some key none m = m
insert_some key (some s) m = insert key (text s) m

-- A response, with its body as the JSON object that is rendered.
pub record Response : Type 0 where
  pub status : ℕ
  pub content_type : String
  pub body : List (String × Value)

-- `canonical_reason` is that of the `http` crate.
module _ (canonical_reason : ℕ → Option String) where
  unfoldable pub to_json : Problem → List (String × Value)
  unfolding insert_some
  to_json p =
      let typed = insert "type" (text (or_else p.type_uri "about:blank")) p.extensions in
      let titled =
        insert "title" (text (or_else p.title (or_else (canonical_reason p.status) "Error")))
          typed in
      let stated = insert "status" (number p.status) titled in
      insert_some "instance" p.instance_ (insert_some "detail" p.detail stated)

  unfoldable pub into_response : Problem → Response
  into_response p = record {
    status = p.status;
    content_type = problem_content_type;
    body = to_json p;
  }

  abbrev member : Option String → Option Value → Option Value
  member none e = e
  member (some s) e = some (text s)

  lookup-insert_some :
      (key k : String) (o : Option String) (m : List (String × Value))
      → lookup k (insert_some key o m)
        ≡ (if str_eq key k then member o (lookup k m) else lookup k m)
  unfolding insert_some
  lookup-insert_some key k none m = ground arith
  lookup-insert_some key k (some s) m = lookup-insert key k (text s) m

  -- A reader of the body finds the problem's own `type`, `title` and `status`, whatever the
  -- extensions hold, and its `detail` and `instance` where they are set; under any other key, and
  -- under an unset `detail` or `instance`, the extension's value.
  pub lookup-to_json :
      (p : Problem) (k : String)
      → k ≢ "type"
      → k ≢ "title"
      → k ≢ "status"
      → k ≢ "detail"
      → k ≢ "instance"
      → let json = to_json p in
        (lookup "type" json ≡ some (text (or_else p.type_uri "about:blank")))
        × (lookup "title" json
            ≡ some (text (or_else p.title (or_else (canonical_reason p.status) "Error"))))
        × (lookup "status" json ≡ some (number p.status))
        × (lookup "detail" json ≡ member p.detail (lookup "detail" p.extensions))
        × (lookup "instance" json ≡ member p.instance_ (lookup "instance" p.extensions))
        × (lookup k json ≡ lookup k p.extensions)
  unfolding to_json
  lookup-to_json p k a b c d e = (
    simp (lookup-insert_some, lookup-insert),
    simp (lookup-insert_some, lookup-insert),
    simp (lookup-insert_some, lookup-insert),
    simp (lookup-insert_some, lookup-insert),
    simp (lookup-insert_some, lookup-insert),
    simp (
      lookup-insert_some,
      lookup-insert,
      not_str_eq _ k (λ q. a (sym q)),
      not_str_eq _ k (λ q. b (sym q)),
      not_str_eq _ k (λ q. c (sym q)),
      not_str_eq _ k (λ q. d (sym q)),
      not_str_eq _ k (λ q. e (sym q)),
    ),
  )
