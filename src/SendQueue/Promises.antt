-- ===== src/SendQueue/Promises.antt =====
-- What `set_value` and `clear` do to the promises of the sending threads.
use mathlib.Core.Option
use radrpc.SendQueue.{
  DataSend, Promise, expired, pending, fulfilled, set_promise, set_value, fail_all,
}
use radrpc.Prelude.{
  ℕ, ◌≡◌, ◌≢◌, refl, Bool, true, false, Option, none, some, List, [], ◌∷◌, ◌++◌, get_elem?,
  get_elem?-set_self, get_elem?-set_ne, lt_of_get_elem?, arith, Option-cases, Bool-cases, inl, inr,
  ◌==◌, if◌then◌else◌,
}

pub get_elem?-set_value :
    (c a : ℕ) (b : Bool) (ps : List Promise)
    → get_elem? (set_value c b ps) a
      ≡ (if c == a then Option.map (set_promise b) (get_elem? ps a) else get_elem? ps a)
unfolding set_value
get_elem?-set_value c a b ps = elim (Option-cases (get_elem? ps c)) [
  | inl e ↦ elim (Bool-cases (c == a)) [
    | inl t ↦
        let same : c ≡ a = ground arith in
        let m : get_elem? ps a ≡ none = rw same at e in rw (e, t, set_value) (rw m)
    | inr t ↦ rw (e, set_value) (rw t)
  ]
  | inr (p, e) ↦ elim (Bool-cases (c == a)) [
    | inl t ↦
        let same : c ≡ a = ground arith in
        let m : get_elem? ps a ≡ some p = rw same at e in
        rw (e, t, set_value) (rw (m, same) (get_elem?-set_self ps a _ (lt_of_get_elem? ps a m)))
    | inr t ↦
        let other : c ≢ a = ground arith in rw (e, t, set_value) (get_elem?-set_ne ps c a _ other)
  ]
]

-- The promise is there, set or not.
abbrev pub is_owned : Option Promise → Bool
is_owned (some pending) = true
is_owned (some (fulfilled b)) = true
is_owned _ = false

abbrev pub is_fulfilled : Option Promise → Bool
is_fulfilled (some (fulfilled b)) = true
is_fulfilled _ = false

owned_set :
    (b : Bool) (o : Option Promise)
    → is_owned o ≡ true
    → (is_owned (Option.map (set_promise b) o) ≡ true)
      × (is_fulfilled (Option.map (set_promise b) o) ≡ true)
unfolding set_promise
owned_set b none h = cc
owned_set b (some expired) h = cc
owned_set b (some pending) h = (refl, refl)
owned_set b (some (fulfilled x)) h = (refl, refl)

set_value_owned :
    (c a : ℕ) (b : Bool) (ps : List Promise)
    → is_owned (get_elem? ps a) ≡ true
    → is_owned (get_elem? (set_value c b ps) a) ≡ true
set_value_owned c a b ps h =
    rw (get_elem?-set_value c a b ps) (ground (arith, owned_set b (get_elem? ps a) h))

fail_all_owned :
    (a : ℕ) (es : List DataSend) (ps : List Promise)
    → is_owned (get_elem? ps a) ≡ true
    → is_owned (get_elem? (fail_all es ps) a) ≡ true
unfolding fail_all
fail_all_owned a [] ps h = h
fail_all_owned a (e ∷ es) ps h =
    fail_all_owned a es _ (set_value_owned e.result_callback a false ps h)

-- The last message of a cleared queue tells its thread, if that is still waiting.
pub fail_all_last :
    (es : List DataSend) (d : DataSend) (ps : List Promise)
    → is_owned (get_elem? ps d.result_callback) ≡ true
    → is_fulfilled (get_elem? (fail_all (es ++ d ∷ []) ps) d.result_callback) ≡ true
unfolding fail_all
fail_all_last [] d ps h =
    rw (get_elem?-set_value d.result_callback d.result_callback false ps)
      (ground (arith, owned_set false (get_elem? ps d.result_callback) h))
fail_all_last (e ∷ es) d ps h =
    fail_all_last es d _ (set_value_owned e.result_callback d.result_callback false ps h)
