-- ===== src/Handshake/Decorated.antt =====
-- What a decorated handshake holds.
use Prim.Native.String.{String}
use radrpc.Handshake.{Fields, Lawful, first_of, add_field, add_fields, decorate}
use radrpc.Prelude.{◌≡◌, refl, ap, ◌∙◌, Option, some, List, [], ◌∷◌, arith, if◌then◌else◌}

module _ {H : Type 0} (fs : Fields H) (laws : Lawful fs) where
  -- The value under a name after one field has been added.
  abbrev pub added : String → String → String → Option String → Option String
  added k n v o = if fs.same n k then (if fs.is_known n then some v else first_of o v) else o

  pub find-add_field :
      (n k v : String) (req : H) → fs.find k (add_field fs n v req) ≡ added k n v (fs.find k req)
  unfolding add_field
  find-add_field n k v req = ground (arith, laws.find-insert n k v req, laws.find-set n k v req)

  -- The value under a name after all fields have been added.
  abbrev pub value_after : String → List (String × String) → Option String → Option String
  value_after k [] o = o
  value_after k ((n, v) ∷ rest) o = value_after k rest (added k n v o)

  find-add_fields :
      (k : String) (rest : List (String × String)) (req : H)
      → fs.find k (add_fields fs rest req) ≡ value_after k rest (fs.find k req)
  unfolding add_fields
  find-add_fields k [] req = refl
  find-add_fields k ((n, v) ∷ rest) req =
      find-add_fields k rest (add_field fs n v req)
      ∙ ap (value_after k rest) (find-add_field n k v req)

  -- A decorated handshake has, under each name, what the one field after the other leave there: the
  -- last of the fields that Beast knows, or the first of the others.
  pub find-decorate :
      (k : String) (set_req req : H)
      → fs.find k (decorate fs set_req req) ≡ value_after k (fs.each set_req) (fs.find k req)
  unfolding decorate
  find-decorate k set_req req = find-add_fields k (fs.each set_req) req
