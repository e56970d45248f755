-- ===== src/Server/Methods.antt =====
-- Which requests can change the registry.
use riquet.Domain.Machine.{Hashes, Machine}
use riquet.Ha.{is_mutation}
use riquet.Map.{All-get, Map, get}
use riquet.Prelude.{
  All, Bool, Bool-cases, List, Option, String, [], arith, false, inl, inr, is_empty, none,
  number_eq, refl, some, string_eq, true, ◌==◌, ◌∷◌, ◌≡◌,
}
use riquet.Server.{Arrival, Call, Reply, accepted, rejected, require}
use riquet.Server.Refinement.{Checked-cases}
use riquet.Server.Routes.{
  Route, Server, config, drop_config, drop_mode, drop_subject, drop_version, five, four, handle,
  mode_of, new_schema, patterns, route, serve, set_config, set_mode_of, three, two,
}

-- The handlers that only read.
abbrev pub is_reading : Route → Bool
is_reading (new_schema subject) = false
is_reading (drop_version subject version) = false
is_reading (drop_subject subject) = false
is_reading (set_config subject) = false
is_reading (set_mode_of subject) = false
is_reading (drop_config subject) = false
is_reading (drop_mode subject) = false
is_reading _ = true

-- Every pattern with another method than POST, PUT and DELETE has such a handler.
abbrev Reads : Map String Route → Type 0
Reads found = All (λ entry. is_mutation entry.0 ≡ false → is_reading entry.1 ≡ true) found

two-Reads : (a b : String) → Reads (two a b)
unfolding is_mutation
two-Reads a b = ground arith

three-Reads : (a b c : String) → Reads (three a b c)
unfolding is_mutation
three-Reads a b c = ground arith

four-Reads : (a b c d : String) → Reads (four a b c d)
unfolding is_mutation
four-Reads a b c d = ground arith

five-Reads : (a b c d e : String) → Reads (five a b c d e)
unfolding is_mutation
five-Reads a b c d e = ground arith

patterns-Reads : (path : List String) → Reads (patterns path)
unfolding patterns is_mutation
patterns-Reads [] = tt
patterns-Reads (a ∷ []) = ground arith
patterns-Reads (a ∷ b ∷ []) = two-Reads a b
patterns-Reads (a ∷ b ∷ c ∷ []) = three-Reads a b c
patterns-Reads (a ∷ b ∷ c ∷ d ∷ []) = four-Reads a b c d
patterns-Reads (a ∷ b ∷ c ∷ d ∷ e ∷ []) = five-Reads a b c d e
patterns-Reads (a ∷ b ∷ c ∷ d ∷ e ∷ f ∷ rest) = tt

require-eq {ℓ} :
    {A : Type ℓ} (reply : Reply) (o : Option A) {a : A} → require reply o ≡ accepted a → o ≡ some a
require-eq reply none h = absurd (cc)
require-eq reply (some a) h = cc

reading-get :
    (found : Map String Route) (method : String) (r : Route)
    → Reads found
    → is_mutation method ≡ false
    → get found method ≡ some r
    → is_reading r ≡ true
reading-get found method r all h at =
    All-get (λ name entry. is_mutation name ≡ false → is_reading entry ≡ true) found method r all at
      h

route-is_reading :
    (method : String) (path : List String) (r : Route)
    → is_mutation method ≡ false
    → route method path ≡ accepted r
    → is_reading r ≡ true
unfolding route is_mutation
route-is_reading method path r h found = elim (Bool-cases (is_empty (patterns path))) [
  | inl none_there ↦ absurd (let e : rejected _ ≡ accepted r = rw none_there at found in cc)
  | inr some_there ↦
      let at = require-eq _ _ (let e : require _ _ ≡ accepted r = rw some_there at found in e) in
      elim (Bool-cases (method == "HEAD")) [
        | inl head ↦ reading-get (patterns path) "GET" r (patterns-Reads path) refl (rw head at at)
        | inr other ↦ reading-get (patterns path) method r (patterns-Reads path) h (rw other at at)
      ]
]

module _ {L N : Type 0} (hashes : Hashes) (server : Server N) where
  handle-reading :
      (around : Arrival) (operation : String) (m : Machine L) (c : Call) (r : Route)
      → is_reading r ≡ true
      → (handle hashes server around operation m c r).1 ≡ m
  unfolding handle
  handle-reading around operation m c (new_schema subject) h = absurd (cc)
  handle-reading around operation m c (drop_version subject value) h = absurd (cc)
  handle-reading around operation m c (drop_subject subject) h = absurd (cc)
  handle-reading around operation m c (set_config subject) h = absurd (cc)
  handle-reading around operation m c (set_mode_of subject) h = absurd (cc)
  handle-reading around operation m c (drop_config subject) h = absurd (cc)
  handle-reading around operation m c (drop_mode subject) h = absurd (cc)
  handle-reading around operation m c (config none) h = refl
  handle-reading around operation m c (config (some subject)) h = refl
  handle-reading around operation m c (mode_of none) h = refl
  handle-reading around operation m c (mode_of (some subject)) h = refl
  handle-reading around operation m c _ h = refl

  -- A request whose method is not POST, PUT or DELETE leaves the machine as it is.
  pub serve-is_mutation :
      (around : Arrival) (m : Machine L) (c : Call)
      → is_mutation c.method ≡ false
      → (serve hashes server around m c).1 ≡ m
  unfolding serve
  serve-is_mutation around m c h = elim (Checked-cases (route c.method c.path)) [
    | inl (reply, bad) ↦ rw (bad, serve) refl
    | inr (found, good) ↦
        rw (good, serve)
          (handle-reading around _ m _ found (route-is_reading c.method c.path found h good))
  ]
