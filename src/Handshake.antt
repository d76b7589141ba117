-- ===== src/Handshake.antt =====
-- The fields of a handshake, and how both sides add their user's fields to it: the decorators in
-- include/radrpc/impl/client/client_session.hpp and include/radrpc/impl/server/server_session.hpp. The
-- type of the fields is Boost.Beast's, so it stands behind an interface.
pub mod Decorated
use Prim.Native.String.{String}
use radrpc.Prelude.{Bool, true, ◌≡◌, Option, none, some, List, [], ◌∷◌, ◌++◌, if◌then◌else◌}

-- `boost::beast::http::fields`: `find` gives the value of the first field with the name, `each` all fields in
-- their order; `is_known` is `name() != unknown`, `same` the equality of names.
pub record Fields (H : Type 0) : Type 0 where
  pub empty : H
  pub find : String → H → Option String
  pub insert : String → String → H → H
  pub set : String → String → H → H
  pub each : H → List (String × String)
  pub is_known : String → Bool
  pub same : String → String → Bool

abbrev pub first_of : Option String → String → Option String
first_of none v = some v
first_of (some u) v = some u

-- What Beast documents of them: `insert` adds a field behind those of its name, or at the end; `set`
-- leaves one field of the name.
pub record Lawful {H : Type 0} (fs : Fields H) : Type 0 where
  pub same_refl : (n : String) → fs.same n n ≡ true
  pub find-empty : (k : String) → fs.find k fs.empty ≡ none
  pub find-insert :
      (n k v : String) (h : H)
      → fs.find k (fs.insert n v h)
        ≡ (if fs.same n k then first_of (fs.find k h) v else fs.find k h)
  pub find-set :
      (n k v : String) (h : H)
      → fs.find k (fs.set n v h) ≡ (if fs.same n k then some v else fs.find k h)
  pub each-empty : fs.each fs.empty ≡ []
  pub each-insert :
      (n v : String) (h : H)
      → fs.find n h ≡ none
      → fs.each (fs.insert n v h) ≡ fs.each h ++ (n, v) ∷ []

module _ {H : Type 0} (fs : Fields H) where
  -- The body of the loop: a field that Beast knows is set, any other is inserted.
  unfoldable pub add_field : String → String → H → H
  add_field n v req = if fs.is_known n then fs.set n v req else fs.insert n v req

  unfoldable pub add_fields : List (String × String) → H → H
  unfolding add_field
  add_fields [] req = req
  add_fields ((n, v) ∷ rest) req = add_fields rest (add_field n v req)

  -- The decorator of the stream, for the handshake that the user has set.
  unfoldable pub decorate : H → H → H
  unfolding add_fields
  decorate set_req req = add_fields (fs.each set_req) req
